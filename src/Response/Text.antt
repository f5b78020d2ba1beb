-- ===== src/Response/Text.antt =====
-- The texts of a response: the tables of statuses and of error pages.
use sy_server.Base.{
  ℕ, zero, suc, ◌+◌, ◌/◌, ◌%◌, Bool, Option, none, some, List, [], ◌∷◌, ◌++◌, codes, ltb, ◌==◌,
  ◌||◌, within, if◌then◌else◌,
}
use Prim.Native.String.{String}

abbrev pub crlf : List ℕ
crlf = b'\r' ∷ b'\n' ∷ []

-- A `switch` on a status, as a table.
unfoldable pub find : ℕ → List (ℕ × String) → Option (List ℕ)
find status [] = none
find status ((s, text) ∷ table) = if status == s then some (codes text) else find status table

abbrev pub statuses : List (ℕ × String)
statuses =
    (100, "100 Continue")
    ∷ (101, "101 Switching Protocols")
    ∷ (200, "200 OK")
    ∷ (201, "201 Created")
    ∷ (202, "202 Accepted")
    ∷ (203, "203 Non-Authoritative Information")
    ∷ (204, "204 No Content")
    ∷ (205, "205 Reset Content")
    ∷ (206, "206 Partial Content")
    ∷ (300, "300 Multiple Choices")
    ∷ (301, "301 Moved Permanently")
    ∷ (302, "302 Found")
    ∷ (303, "303 See Other")
    ∷ (304, "304 Not Modified")
    ∷ (305, "305 Use Proxy")
    ∷ (307, "307 Temporary Redirect")
    ∷ (400, "400 Bad Request")
    ∷ (401, "401 Unauthorized")
    ∷ (402, "402 Payment Required")
    ∷ (403, "403 Forbidden")
    ∷ (404, "404 Not Found")
    ∷ (405, "405 Method Not Allowed")
    ∷ (406, "406 Not Acceptable")
    ∷ (407, "407 Proxy Authentication Required")
    ∷ (408, "408 Request Time-out")
    ∷ (409, "409 Conflict")
    ∷ (410, "410 Gone")
    ∷ (411, "411 Length Required")
    ∷ (412, "412 Precondition Failed")
    ∷ (413, "413 Request Entity Too Large")
    ∷ (414, "414 Request-URI Too Large")
    ∷ (415, "415 Unsupported Media Type")
    ∷ (416, "416 Requested range not satisfiable")
    ∷ (417, "417 Expectation Failed")
    ∷ (500, "500 Internal Server Error")
    ∷ (501, "501 Not Implemented")
    ∷ (502, "502 Bad Gateway")
    ∷ (503, "503 Service Unavailable")
    ∷ (504, "504 Gateway Time-out")
    ∷ (505, "505 HTTP Version not supported")
    ∷ []

-- `none` is the failed `assert` for any other status.
unfoldable pub status_repr : ℕ → Option (List ℕ)
unfolding find
status_repr status = find status statuses

-- What stands in the title and in the heading of a page.
abbrev pub titles : List (ℕ × String)
titles =
    (301, "301 Moved Permanently")
    ∷ (302, "302 Found")
    ∷ (303, "303 See Other")
    ∷ (307, "307 Temporary Redirect")
    ∷ (400, "400 Bad Request")
    ∷ (401, "401 Authorization Required")
    ∷ (402, "402 Payment Required")
    ∷ (403, "403 Forbidden")
    ∷ (404, "404 Not Found")
    ∷ (405, "405 Not Allowed")
    ∷ (406, "406 Not Acceptable")
    ∷ (407, "407 Proxy Authentication Required")
    ∷ (408, "408 Request Time-out")
    ∷ (409, "409 Conflict")
    ∷ (410, "410 Gone")
    ∷ (411, "411 Length Required")
    ∷ (412, "412 Precondition Failed")
    ∷ (413, "413 Request Entity Too Large")
    ∷ (414, "414 Request-URI Too Large")
    ∷ (415, "415 Unsupported Media Type")
    ∷ (416, "416 Requested Range Not Satisfiable")
    ∷ (417, "417 Expectation Failed")
    ∷ (500, "500 Internal Server Error")
    ∷ (501, "501 Not Implemented")
    ∷ (502, "502 Bad Gateway")
    ∷ (503, "503 Service Temporarily Unavailable")
    ∷ (504, "504 Gateway Time-out")
    ∷ (505, "505 HTTP Version Not Supported")
    ∷ (507, "507 Insufficient Storage")
    ∷ []

unfoldable pub page : List ℕ → List ℕ
page title =
    codes "<html>"
    ++ crlf
    ++ (codes "<head><title>" ++ title ++ codes "</title></head>" ++ crlf)
    ++ (codes "<body bgcolor=\"white\">" ++ crlf)
    ++ (codes "<center><h1>" ++ title ++ codes "</h1></center>" ++ crlf)

unfoldable pub page_tail : List ℕ
page_tail =
    (codes "<hr><center><span style='font-style: italic;'>"
      ++ codes "syServer/0.1"
      ++ codes "</span></center>"
      ++ crlf)
    ++ (codes "</body>" ++ crlf)
    ++ (codes "</html>" ++ crlf)

-- The statuses for which `sy_err_page` returns NULL.
abbrev pub without_page : ℕ → Bool
without_page status = within 100 101 status || within 200 206 status || status == 300

-- `none` is a failed `assert`, and `some none` is NULL.
unfoldable pub err_page : ℕ → Option (Option (List ℕ))
unfolding find page
err_page status =
    if without_page status
    then some none
    else elim (find status titles) [ none ↦ none | some title ↦ some (some (page title)) ]

-- The format `%d`, for a number that is not negative.
decimal_loop : ℕ → ℕ → List ℕ → List ℕ
decimal_loop zero n digits = digits
decimal_loop (suc fuel) n digits =
    let rest = decimal_loop fuel (n / 10) ((b'0' + n % 10) ∷ digits) in
    if ltb n 10 then (b'0' + n) ∷ digits else rest

unfoldable pub decimal : ℕ → List ℕ
unfolding decimal_loop
decimal n = decimal_loop (suc n) n []
