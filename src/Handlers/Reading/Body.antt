-- ===== src/Handlers/Reading/Body.antt =====
-- The body of a request: `parse_request_body_identity` of src/httpparse.c, and
-- `sy_request_handle_body`.
use sy_server.Base.{
  zero, suc, ◌+◌, ◌==◌, true, leb, ℤ, pos, negsuc, Option, none, some, if◌then◌else◌,
}
use sy_server.Buffer.{size, clear}
use sy_server.Connection.{disable_in, enable_out}
use sy_server.Types.{TransferEncoding, identity, InHandler, Request}
use sy_server.Util.{Code, ok, again}
use sy_server.Memory.{Memory}
use sy_server.Response.Build.{response_build}
use sy_server.Handlers.Reading.{System, World, build_err}

-- A length that is not positive is that of no body. The bytes are counted and stay in the buffer.
abbrev pub body_of : ℤ → Request → Code × Request
body_of (negsuc n) r = (ok, r)
body_of (pos zero) r = (ok, r)
body_of (pos (suc n)) r =
    let received = r.body_received + size r.rb in
    (if leb (suc n) received then ok else again, record r { body_received = received })

unfoldable pub parse_request_body_identity : Request → Code × Request
parse_request_body_identity r = body_of r.content_length r

-- The buffer goes to the upstream from its first byte. With no upstream `sy_connection_enable_out`
-- reads through a null pointer, which is `none`.
unfoldable pub to_upstream : World → Option World
unfolding enable_out
to_upstream w =
    let r = w.request in
    if r.uc == 0
    then none
    else some (record w {
      request = record r { rb = record r.rb { begin = r.rb.start } };
      upstream = enable_out w.upstream;
    })

-- With no upstream the response is built, and the buffer has done its work.
abbrev pub response_ready : World → Option (Memory × Request) → Option World
response_ready w none = none
response_ready w (some (m, r)) = some (record w {
  memory = m;
  request = record r { rb = clear r.rb };
  connection = enable_out w.connection;
})

unfoldable pub respond_here : System → World → Option World
unfolding clear enable_out response_build
respond_here sys w = response_ready w (response_build sys.date sys.mime w.memory w.request)

abbrev pub returning : Code → Option World → Option (Code × World)
returning code none = none
returning code (some w) = some (code, w)

-- The request has been read.
abbrev pub body_read : Option World → Option World
body_read none = none
body_read (some w) = some (record w {
  request = record w.request { body_done = true; in_handler = InHandler.handle_request_line };
})

abbrev pub body_parsed : System → World → Code → Option (Code × World)
body_parsed sys w again = returning again (to_upstream w)
body_parsed sys w ok =
    returning ok (body_read (if w.request.uc == 0 then respond_here sys w else to_upstream w))
body_parsed sys w _ = build_err sys w 400

abbrev pub stop_reading : World → World
stop_reading w = record w { connection = disable_in w.connection }

-- Only the identity encoding is handled; any other fails an `assert`. Each branch that follows
-- stops the reading, and `build_err` does so by itself.
abbrev pub body_for : System → World → TransferEncoding → Option (Code × World)
body_for sys w identity =
    let (code, r) = parse_request_body_identity w.request in
    body_parsed sys (stop_reading (record w { request = r })) code
body_for sys w _ = none

unfoldable pub handle_body : System → World → Option (Code × World)
unfolding parse_request_body_identity to_upstream respond_here build_err disable_in
handle_body sys w = body_for sys w w.request.t_encoding
