-- ===== src/Handlers/Reading/Headers.antt =====
-- `sy_request_handle_headers` with the functions that process a header.
use sy_server.Base.{
  ℕ, zero, suc, ◌==◌, ◌||◌, Bool, false, ℤ, pos, negsuc, Option, none, some, List, codes,
  if◌then◌else◌,
}
use sy_server.Memory.{Memory}
use sy_server.Map.{value_in, map_get}
use sy_server.Buffer.{size}
use sy_server.Handlers.Reading.Table.{offset}
use sy_server.Types.{HeaderField, TransferEncoding, InHandler, Request}
use sy_server.Util.{Code, ok, again, empty_line}
use sy_server.Http.HeaderLine.{parse_header_line}
use sy_server.Handlers.Reading.{Processor, hop, t_encoding, body_length, System, World, build_err}

unfoldable pub handle_generic : HeaderField → World → World
handle_generic field w =
    let r = w.request in
    record w {
      request = record r {
        headers = λ f. if offset f == offset field then r.header_value else r.headers f;
      };
    }

unfoldable pub handle_connection : System → World → World
handle_connection sys w =
    let r = w.request in
    if sys.case_equal w.memory (codes "close") (r.headers HeaderField.c).addr
    then record w { request = record r { keep_alive = false } }
    else w

-- The encoding, by a test whether the value begins with a text.
unfoldable pub encoding_of : (List ℕ → Bool) → Option TransferEncoding
encoding_of begins =
    if begins (codes "chunked")
    then some TransferEncoding.chunked
    else if begins (codes "gzip") || begins (codes "x-gzip")
    then some TransferEncoding.gzip
    else if begins (codes "compress") || begins (codes "x-compress")
    then some TransferEncoding.compress
    else if begins (codes "deflate")
    then some TransferEncoding.deflate
    else if begins (codes "identity")
    then some TransferEncoding.identity
    else none

abbrev pub encoded : System → World → Option TransferEncoding → Option (Code × World)
encoded sys w none = build_err sys w 415
encoded sys w (some te) = some (ok, record w { request = record w.request { t_encoding = te } })

unfoldable pub handle_t_encoding : System → World → Option (Code × World)
unfolding build_err encoding_of
handle_t_encoding sys w =
    let value = w.request.headers HeaderField.transfer_encoding in
    encoded sys w (encoding_of (λ text. sys.case_equal w.memory text value.addr))

abbrev pub with_length : System → World → ℤ → Option (Code × World)
with_length sys w (pos n) =
    some (ok, record w { request = record w.request { content_length = pos n } })
with_length sys w (negsuc n) = build_err sys w 400

unfoldable pub handle_content_length : System → World → Option (Code × World)
unfolding build_err
handle_content_length sys w = with_length sys w (sys.atoi w.memory w.request.header_value.addr)

-- Each processor first does what `generic` does.
unfoldable pub process : System → Processor → HeaderField → World → Option (Code × World)
unfolding handle_generic handle_connection handle_t_encoding handle_content_length
process sys hop field w = some (ok, handle_connection sys (handle_generic field w))
process sys t_encoding field w = handle_t_encoding sys (handle_generic field w)
process sys body_length field w = handle_content_length sys (handle_generic field w)
process sys _ field w = some (ok, handle_generic field w)

-- What the loop does behind the processing, `next` being its next round.
abbrev pub processed :
    (World → Option (Code × World)) → Option (Code × World) → Option (Code × World)
processed next none = none
processed next (some (ok, w)) = next w
processed next (some (err, w)) = some (err, w)

abbrev pub identified :
    (World → Option (Code × World))
    → System
    → World
    → Option (Option (HeaderField × Processor))
    → Option (Code × World)
identified next sys w none = none
identified next sys w (some none) = next w
identified next sys w (some (some (field, processor))) =
    processed next (process sys processor field w)

-- What it does behind the parser.
abbrev pub header_parsed :
    (World → Option (Code × World))
    → System
    → World
    → Option (Code × Memory × Request)
    → Option (Code × World)
header_parsed next sys w none = none
header_parsed next sys w (some (again, m, r)) = some (again, record w { memory = m; request = r })
header_parsed next sys w (some (empty_line, m, r)) =
    some (ok, record w { memory = m; request = record r { in_handler = InHandler.handle_body } })
header_parsed next sys w (some (ok, m, r)) =
    identified next sys (record w { memory = m; request = r })
      (value_in sys.header_map (map_get m sys.header_map r.header_name))
header_parsed next sys w (some (_, m, r)) = none

-- The loop, for at most `n` lines.
unfoldable pub handle_headers_loop : ℕ → System → World → Option (Code × World)
unfolding process
handle_headers_loop zero sys w = none
handle_headers_loop (suc n) sys w =
    header_parsed (handle_headers_loop n sys) sys w (parse_header_line w.memory w.request)

unfoldable pub handle_headers : System → World → Option (Code × World)
unfolding handle_headers_loop
handle_headers sys w = handle_headers_loop (suc (size w.request.rb)) sys w
