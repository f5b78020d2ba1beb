-- ===== src/Tests/RequestLines.antt =====
-- The request line `GET /a.html HTTP/1.1`, as a whole and in two pieces.
use sy_server.Base.{
  ℕ, ◌+◌, ◌≡◌, Option, none, some, List, ◌++◌, ◌∷◌, [], codes, length, refl, arith,
}
use sy_server.Buffer.{size}
use sy_server.Types.{get, uri_slash, Uri, Request}
use sy_server.Util.{Code, ok, again}
use sy_server.Memory.{store}
use sy_server.Memory.Holds.{Holds-store}
use sy_server.Http.Uri.{
  parse_uri, uri_step, begin_step, slash_step, allowed_in_abs_path, entry_step, extension_step,
}
use sy_server.Http.Uri.Counts.{Counts, path_counts, counts_of}
use sy_server.Http.RequestLine.{
  parse_request_line, request_line_loop, request_line_step, rl_begin_step, rl_method_step,
  rl_sp_before_uri_step, rl_uri_step, is_invalid, after_uri, parse_method, text_at,
}
use sy_server.Http.RequestLine.Outcome.{Ended, parse_request_line-Ended}
use sy_server.Http.RequestLine.MethodText.{method_name}
use sy_server.Http.RequestLine.PathText.{IsPath, PathRead}
use sy_server.Http.RequestLine.Line.{requested, parse_request_line-text}
use sy_server.Http.RequestLine.Resume.{received, over_call, parse_request_line-resume}
use sy_server.Tests.Data.{holding, requesting}

abbrev path : List ℕ
path = codes "a.html"

abbrev line : List ℕ
line = codes "GET /a.html HTTP/1.1" ++ b'\r' ∷ b'\n' ∷ []

parse_request_line-Ended_example :
    Ended
      (holding line)
      (requesting line)
      1000
      (size (requesting line).rb)
      (parse_request_line (holding line) (requesting line))
parse_request_line-Ended_example = parse_request_line-Ended (holding line) (requesting line) refl

path-IsPath : IsPath path
unfolding allowed_in_abs_path
path-IsPath = (refl, (refl, (refl, (refl, (refl, (refl, tt))))))

parse_request_line-text_example :
    (u : Uri) × (parse_request_line (holding line) (requesting line)
      ≡ some (ok, requested (requesting line) get path 1 u))
    × PathRead
        (requesting line).uri
        (1000 + (length (method_name get) + 1))
        (length path + 1)
        (path_counts uri_slash (counts_of (requesting line).uri) path)
        u
unfolding is_invalid
parse_request_line-text_example =
    parse_request_line-text get path 1 (holding line) (requesting line) refl path-IsPath
      (omega arith) refl refl (Holds-store line _ 1000) (omega arith)

-- One entry without a dot makes up for two `..`, and not for three.
abbrev nothing_counted : Counts
nothing_counted = record { entries = 0; ddots = 0 }

climbing_twice :
    path_counts uri_slash nothing_counted (codes "a/../..") ≡ record { entries = 2; ddots = 2 }
climbing_twice = refl

climbing_thrice :
    path_counts uri_slash nothing_counted (codes "a/../../..") ≡ record { entries = 2; ddots = 3 }
climbing_thrice = refl

-- The request when the buffer ends in the middle of the path, and what the first call makes of it.
abbrev start : Request
start = requesting (codes "GET /a.h")

abbrev request_of : Option (Code × Request) → Request
request_of none = start
request_of (some (code, r)) = r

unfoldable stopped : Request
unfolding parse_request_line
stopped = request_of (parse_request_line (holding line) start)

stopped-again : parse_request_line (holding line) start ≡ some (again, stopped)
unfolding parse_request_line stopped request_line_loop request_line_step rl_begin_step store
    rl_method_step rl_sp_before_uri_step parse_uri uri_step begin_step parse_method text_at
    is_invalid after_uri rl_uri_step slash_step allowed_in_abs_path entry_step extension_step
stopped-again = refl

parse_request_line-resume_example :
    parse_request_line (holding line) (received stopped 1022)
    ≡ over_call (received stopped 1022).rb (parse_request_line (holding line) (received start 1022))
parse_request_line-resume_example =
    parse_request_line-resume (holding line) start stopped 1022 refl (omega arith) (omega arith)
      stopped-again
