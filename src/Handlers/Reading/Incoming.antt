-- ===== src/Handlers/Reading/Incoming.antt =====
-- `sy_request_handle_request_line`, and `sy_handle_request`, which calls the `in_handler` in a loop.
use sy_server.Base.{
  ℕ, zero, suc, ◌==◌, ◌&&◌, ◌||◌, true, false, not, ltb, Option, none, some, List, if◌then◌else◌,
}
use sy_server.Memory.{Memory}
use sy_server.Buffer.{Buffer, Arrival, recv}
use sy_server.Types.{InHandler, Request}
use sy_server.Util.{Code, ok, again, error}
use sy_server.Http.RequestLine.{parse_request_line}
use sy_server.Handlers.Sending.{is_ok}
use sy_server.Handlers.Reading.{System, World, build_err}
use sy_server.Handlers.Reading.Resource.{handle_uri}
use sy_server.Handlers.Reading.Headers.{handle_headers}
use sy_server.Handlers.Reading.Body.{handle_body}

-- The request line has been read.
abbrev pub at_headers : World → World
at_headers w =
    let r = w.request in
    record w {
      request = record r {
        keep_alive = r.version.minor == 1;
        in_handler = InHandler.handle_headers;
      };
    }

abbrev pub line_parsed : System → World → Option (Code × Request) → Option (Code × World)
line_parsed sys w none = none
line_parsed sys w (some (again, r)) = some (again, record w { request = r })
line_parsed sys w (some (ok, r)) =
    let w' = record w { request = r } in
    if not (r.version.major == 1) || ltb 2 r.version.minor
    then build_err sys w' 505
    else handle_uri sys (at_headers w')
line_parsed sys w (some (_, r)) = build_err sys (record w { request = r }) 400

unfoldable pub handle_request_line : System → World → Option (Code × World)
unfolding handle_uri build_err
handle_request_line sys w = line_parsed sys w (parse_request_line w.memory w.request)

abbrev pub call_in_handler : InHandler → System → World → Option (Code × World)
call_in_handler InHandler.handle_request_line sys w = handle_request_line sys w
call_in_handler InHandler.handle_headers sys w = handle_headers sys w
call_in_handler InHandler.handle_body sys w = handle_body sys w

-- The test at the end of a round.
abbrev pub loop_on : (World → Option (Code × World)) → Option (Code × World) → Option (Code × World)
loop_on next none = none
loop_on next (some (code, w)) = elim (is_ok code && not w.request.body_done) [
  | true ↦ next w
  | false ↦ some (code, w)
]

-- The loop, for at most `n` rounds.
unfoldable pub handle_request_loop : ℕ → System → World → Option (Code × World)
unfolding handle_request_line handle_headers handle_body
handle_request_loop zero sys w = none
handle_request_loop (suc n) sys w =
    loop_on (handle_request_loop n sys) (call_in_handler w.request.in_handler sys w)

-- The three handlers follow each other, so there are three rounds at most.
abbrev pub received : System → World → Code × List Arrival × Memory × Buffer → Option (Code × World)
received sys w (again, answers, m, b) =
    handle_request_loop 3 sys (record w { memory = m; request = record w.request { rb = b } })
received sys w (_, answers, m, b) =
    some (error, record w { memory = m; request = record w.request { rb = b } })

unfoldable pub handle_request : List Arrival → System → World → Option (Code × World)
unfolding handle_request_loop
handle_request answers sys w = received sys w (recv answers w.memory w.request.rb)
