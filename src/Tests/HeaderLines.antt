-- ===== src/Tests/HeaderLines.antt =====
-- The header line `Host: a.b`.
use sy_server.Base.{ℕ, ◌≡◌, some, List, ◌++◌, ◌∷◌, [], codes, refl, arith}
use sy_server.Memory.{Memory}
use sy_server.Memory.Holds.{Holds-store}
use sy_server.Buffer.{size}
use sy_server.Types.{hl_begin, Request}
use sy_server.Util.{ok}
use sy_server.Http.HeaderLine.{parse_header_line}
use sy_server.Http.HeaderLine.Outcome.{Ended, parse_header_line-Ended}
use sy_server.Http.HeaderLine.NameText.{IsHeaderName, Lowered}
use sy_server.Http.HeaderLine.Line.{IsValue, with_header, parse_header_line-text}
use sy_server.Tests.Data.{holding, requesting}

abbrev line : List ℕ
line = codes "Host: a.b" ++ b'\r' ∷ b'\n' ∷ []

abbrev start : Request
start = record (requesting line) { state = hl_begin }

parse_header_line-Ended_example :
    Ended (holding line) start 1000 (size start.rb) (parse_header_line (holding line) start)
parse_header_line-Ended_example = parse_header_line-Ended (holding line) start refl

name-IsHeaderName : IsHeaderName (codes "Host")
name-IsHeaderName = (refl, (refl, (refl, (refl, tt))))

text-IsValue : IsValue (codes "a.b")
text-IsValue = record {
  no_break = (refl, refl, (refl, refl, (refl, refl, tt)));
  no_leading = refl;
  no_trailing = refl;
}

parse_header_line-text_example :
    (m' : Memory) × (parse_header_line (holding line) start ≡ some (ok, m', with_header start 4 3))
    × Lowered (holding line) 1000 (codes "Host") m'
parse_header_line-text_example =
    parse_header_line-text (codes "Host") (codes "a.b") (holding line) start name-IsHeaderName
      (omega arith) text-IsValue (omega arith) refl (Holds-store line _ 1000) (omega arith)
