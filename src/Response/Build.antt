-- ===== src/Response/Build.antt =====
-- `sy_response_build` and `sy_response_build_err`. `date` is the text of the header `Date` at the
-- time of the call, and `mime` the lookup in `mime_map`.
use sy_server.Base.{
  ◌^◌, ◌-◌, ◌∷◌, ltb, ℕ, ◌+◌, ◌==◌, ◌||◌, Bool, true, false, Option, none, some, List, ◌++◌, codes,
  length, if◌then◌else◌, minus_one,
}
use sy_server.Memory.{Memory, Str}
use sy_server.Buffer.{Buffer}
use sy_server.Types.{Request}
use sy_server.Connection.{Connection, disable_in, enable_out}
use sy_server.Response.Text.{crlf, status_repr, err_page, page_tail, decimal}
use sy_server.Response.Out.{Out, ◌>>◌, abort, put, put_print, put_date}

abbrev pub version_text : ℕ → List ℕ
version_text minor = if minor == 1 then codes "HTTP/1.1 " else codes "HTTP/1.0 "

unfoldable pub put_status_line : ℕ → ℕ → Out
unfolding ◌>>◌ put status_repr
put_status_line minor status =
    put (version_text minor)
    >> elim (status_repr status) [ none ↦ abort | some text ↦ put text >> put crlf ]

abbrev pub server_text : List ℕ
server_text = codes "Server: syServer/0.1" ++ crlf

-- `%d` of the `int` with the word `n`.
abbrev pub int_text : ℕ → List ℕ
int_text n = if ltb n (2 ^ 31) then decimal n else b'-' ∷ decimal (2 ^ 32 - n)

abbrev pub content_length_text : ℕ → List ℕ
content_length_text n = codes "Content-Length: " ++ int_text n ++ crlf

-- From the page on.
unfoldable pub put_page : Option (Option (List ℕ)) → Out
unfolding ◌>>◌ put put_print decimal page_tail
put_page none = abort
put_page (some none) = put crlf
put_page (some (some page)) =
    put_print (content_length_text (length page + length page_tail))
    >> put crlf
    >> put page
    >> put page_tail

unfoldable pub put_error : List ℕ → ℕ → ℕ → Out
unfolding ◌>>◌ put put_date put_status_line put_page err_page
put_error date minor status =
    put_status_line minor status
    >> put_date date
    >> put server_text
    >> put (codes "Connection: close" ++ crlf)
    >> put (codes "Content-Type: text/html" ++ crlf)
    >> put_page (err_page status)

-- The request and its connection behind an error response.
abbrev pub err_built :
    Request → Connection → ℕ → Option (Memory × Buffer) → Option (Memory × Request × Connection)
err_built r c err none = none
err_built r c err (some (m, b)) = some (
  m,
  record r { status = err; sb = b; keep_alive = false; body_done = true },
  enable_out (disable_in c),
)

unfoldable pub response_build_err :
    List ℕ → Memory → Request → Connection → ℕ → Option (Memory × Request × Connection)
unfolding put_error disable_in enable_out
response_build_err date m r c err = err_built r c err (put_error date r.version.minor err (m, r.sb))

-- The part of a response that is common to all statuses.
unfoldable pub put_head : List ℕ → ℕ → ℕ → Out
unfolding ◌>>◌ put put_date put_status_line
put_head date minor status = put_status_line minor status >> put_date date >> put server_text

-- The type and the length of the resource.
abbrev pub or_html : Option (List ℕ) → List ℕ
or_html none = codes "text/html"
or_html (some text) = text

unfoldable pub put_content : (Memory → Str → Option (List ℕ)) → Str → ℕ → Out
unfolding ◌>>◌ put put_print decimal
put_content mime extension len (m, b) =
    (put (codes "Content-Type: ")
        >> put (or_html (mime m extension))
        >> put crlf
        >> put_print (content_length_text len)
        >> put crlf)
      (m, b)

-- A response without a body closes the resource.
unfoldable pub has_no_body : ℕ → Bool
has_no_body status = status == 304 || status == 100

-- The request behind a response, of which one without a body closes the resource.
abbrev pub built : Request → Option (Memory × Buffer) → Option (Memory × Request)
built r none = none
built r (some (m, b)) = some (m, record r { sb = b })

abbrev pub built_closed : Request → Option (Memory × Buffer) → Option (Memory × Request)
built_closed r none = none
built_closed r (some (m, b)) = some (m, record r { sb = b; resource_fd = minus_one })

unfoldable pub response_build :
    List ℕ → (Memory → Str → Option (List ℕ)) → Memory → Request → Option (Memory × Request)
unfolding ◌>>◌ put put_head put_content has_no_body
response_build date mime m r =
    if has_no_body r.status
    then built_closed r ((put_head date r.version.minor r.status >> put crlf) (m, r.sb))
    else built r (
        (put_head date r.version.minor r.status >> put_content mime r.uri.extension r.resource_len)
          (m, r.sb))
