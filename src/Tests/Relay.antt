-- ===== src/Tests/Relay.antt =====
-- An upstream that takes a part of the request and sends a part of the response, and the header
-- `Host`.
use sy_server.Base.{ℕ, ◌≡◌, ◌≢◌, sym, ◌∙◌, pos, some, List, [], ◌∷◌, length, codes, refl, arith}
use sy_server.Memory.{Memory, store}
use sy_server.Memory.Holds.{Holds-store}
use sy_server.Buffer.{Buffer, IsBuffer, Arrival, arrived, Departure, accepted, send}
use sy_server.Buffer.Words.{Appends}
use sy_server.Buffer.Recv.{now_read, recv_code}
use sy_server.Connection.{enable_out}
use sy_server.Types.{Request}
use sy_server.Util.{min, Code, again, error}
use sy_server.Handlers.Reading.{World}
use sy_server.Handlers.Reading.Resource.{to_u16}
use sy_server.Handlers.Reading.HostHeader.{parse_header_host, parse_header_host-split}
use sy_server.Handlers.Upstream.{
  with_sb, handle_pass, Passed, handle_pass-Passed, handle_upstream, handle_upstream-Appends,
}
use sy_server.Tests.Data.{blank, buffer, other, fresh, holding, requesting}
use sy_server.Tests.Reading.{watched, sys}

abbrev relaying : World
relaying = record {
  memory = holding (codes "abc");
  request = requesting (codes "abc");
  connection = watched;
  upstream = watched;
}

abbrev departures : List Departure
departures = accepted 2 ∷ Departure.would_block ∷ []

received-IsBuffer : IsBuffer (buffer 3)
received-IsBuffer = omega arith

empty-IsBuffer : IsBuffer (other 0)
empty-IsBuffer = omega arith

blocked : (send departures relaying.memory relaying.request.rb).0 ≡ again
unfolding send store min
blocked = refl

not_broken : (send departures relaying.memory relaying.request.rb).0 ≢ error
not_broken e = again_apart (sym blocked ∙ e)
  where
    again_apart : Code.again ≡ error → ⊥
    again_apart e = cc

handle_pass-Passed_example :
    (code : Code) × (out : List ℕ) × (w' : World) × (handle_pass departures sys relaying
      ≡ some (code, out, w'))
    × Passed relaying departures (code, out, w')
handle_pass-Passed_example = handle_pass-Passed departures sys relaying received-IsBuffer not_broken

abbrev arrivals : List Arrival
arrivals = arrived (codes "xy") ∷ Arrival.would_block ∷ []

still_open : recv_code relaying.request.sb arrivals ≡ again
still_open = refl

handle_upstream-Appends_example :
    (m' : Memory) × (b : Buffer) × (handle_upstream arrivals sys relaying
      ≡ some (again, record (with_sb relaying m' b) { connection = enable_out watched }))
    × Appends relaying.memory
        (other 0)
        (now_read (other 0) arrivals)
        (length (now_read (other 0) arrivals))
        m'
        b
handle_upstream-Appends_example =
    handle_upstream-Appends arrivals sys relaying empty-IsBuffer still_open

abbrev host_text : List ℕ
host_text = codes "a.b:81"

abbrev asking : Request
asking = record (fresh 6) { headers = λ field. record { addr = 1000; len = 6 } }

parse_header_host-split_example :
    parse_header_host (λ m a. pos 81) (holding host_text) asking
    ≡ record asking { host = record { addr = 1000; len = 3 }; port = to_u16 (pos 81) }
parse_header_host-split_example =
    parse_header_host-split (λ m a. pos 81) (holding host_text) asking (codes "a.b") (codes "81")
      (omega arith, refl, (omega arith, refl, tt)) (omega arith) (Holds-store host_text blank 1000)
      refl
