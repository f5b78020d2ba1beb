-- ===== src/Response/Errors.antt =====
-- What an error response is.
use sy_server.Base.{ℕ, ◌<◌, ◌≡◌, sym, subst, some, List, ◌++◌, codes, true, false, length}
use sy_server.Memory.{Memory}
use sy_server.Buffer.{Buffer, IsBuffer, margin}
use sy_server.Buffer.Words.{Appends}
use sy_server.Types.{Request}
use sy_server.Connection.{Connection, disable_in, enable_out}
use sy_server.Response.Text.{crlf, status_repr, err_page, page_tail}
use sy_server.Response.Out.{◌>>◌, put, put_date}
use sy_server.Response.Build.{server_text, put_status_line, put_page, put_error, response_build_err}
use sy_server.Response.Puts.{
  Puts, put_first, put_date-Puts, >>-Puts, status_line, put_status_line-Puts, body_text,
  put_page-Puts,
}

abbrev close_text : List ℕ
close_text = codes "Connection: close" ++ crlf

abbrev html_text : List ℕ
html_text = codes "Content-Type: text/html" ++ crlf

-- The whole response: `date` is the line of the header `Date`, `title` the status line's text, and
-- the length that the head gives is that of the body behind it.
unfoldable pub error_text : List ℕ → ℕ → List ℕ → List ℕ → List ℕ
unfolding page_tail
error_text date minor title page =
    status_line minor title
    ++ (date ++ (server_text ++ (close_text ++ (html_text ++ body_text (page ++ page_tail)))))

pub put_error-Puts :
    (date : List ℕ) (minor status : ℕ) (title page : List ℕ)
    → status_repr status ≡ some title
    → err_page status ≡ some (some page)
    → Puts (put_error date minor status) (error_text date minor title page)
unfolding put_error error_text
put_error-Puts date minor status title page known paged =
    let body = body_text (page ++ page_tail) in
    let rest = put_page (some (some page)) in
    let head = put server_text >> (put close_text >> (put html_text >> rest)) in
    let head_text = server_text ++ (close_text ++ (html_text ++ body)) in
    subst
      (λ found.
        Puts
          (put_status_line minor status
            >> (put_date date
                >> (put server_text >> (put close_text >> (put html_text >> put_page found)))))
          (status_line minor title ++ (date ++ head_text)))
      (sym paged)
      (>>-Puts (put_status_line minor status) (put_date date >> head) (status_line minor title)
        (date ++ head_text) (put_status_line-Puts minor status title known)
        (>>-Puts (put_date date) head date head_text (put_date-Puts date) (
          put_first server_text (close_text ++ (html_text ++ body))
            (put close_text >> (put html_text >> rest))
            (put_first close_text (html_text ++ body) (put html_text >> rest)
              (put_first html_text body rest (put_page-Puts page))))))

-- The request that `response_build_err` leaves, with `b` as its buffer.
abbrev pub failed : Request → ℕ → Buffer → Request
failed r err b = record r { status = err; sb = b; keep_alive = false; body_done = true }

-- Where the send buffer of a valid request has room for the response of a status that has a page,
-- with one byte left over, `response_build_err` succeeds: it appends exactly that response to the
-- buffer, sets the status and `body_done`, clears `keep_alive`, and changes nothing else of the
-- request. The connection stops to watch for input and watches for output.
pub response_build_err-Appends :
    (date : List ℕ) (m : Memory) (r : Request) (c : Connection) (err : ℕ) (title page : List ℕ)
    → status_repr err ≡ some title
    → err_page err ≡ some (some page)
    → IsBuffer r.sb
    → length (error_text date r.version.minor title page) < margin r.sb
    → (m' : Memory) × (b : Buffer) × (response_build_err date m r c err
        ≡ some (m', failed r err b, record c { watch_in = false; watch_out = true }))
      × Appends m r.sb
          (error_text date r.version.minor title page)
          (length (error_text date r.version.minor title page))
          m'
          b
unfolding response_build_err disable_in enable_out
response_build_err-Appends date m r c err title page known paged i h =
    let (m', b, e, a) = put_error-Puts date r.version.minor err title page known paged m r.sb i h in
    (m', b, rw (e, response_build_err), a)
