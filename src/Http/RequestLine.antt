-- ===== src/Http/RequestLine.antt =====
-- `sy_parse_method` and `sy_parse_request_line`. The machine has one function for each group of
-- states; `p` is the address of the byte `ch`.
pub mod Outcome
pub mod VersionText
pub mod PathText
pub mod MethodText
pub mod Line
pub mod Resume
use sy_server.Base.{
  ℕ, zero, suc, ◌+◌, ◌-◌, ◌*◌, ◌%◌, ◌^◌, Bool, true, false, not, ◌&&◌, Option, none, some, List, [],
  ◌∷◌, codes, ltb, ◌==◌, if◌then◌else◌, ◌||◌,
}
use sy_server.Memory.{Memory, Str}
use sy_server.Buffer.{Buffer, size}
use sy_server.Types.{
  Method, connect, delete, get, head, options, post, put, trace, invalid, Version, LineState,
  rl_begin, rl_method, rl_sp_before_uri, rl_uri, rl_sp_before_version, rl_http_h, rl_http_ht,
  rl_http_htt, rl_http_http, rl_version_slash, rl_version_major, rl_version_dot, rl_version_minor,
  rl_sp_after_version, rl_almost_done, hl_begin, uri_begin, Uri, Request,
}
use sy_server.Util.{Code, ok, again, err_invalid_request, err_invalid_method, err_invalid_version}
use sy_server.Http.Step.{Step, next, goto_done, returned, aborted}
use sy_server.Http.Uri.{is_upper, is_digit, starting, ending, parse_uri}

-- The comparisons SY_STR2_EQ to SY_STR7_EQ.
unfoldable pub text_at : Memory → ℕ → List ℕ → Bool
text_at m a [] = true
text_at m a (v ∷ vs) = m a == v && text_at m (suc a) vs

unfoldable pub parse_method : Memory → ℕ → ℕ → Method
unfolding text_at
parse_method m begin end =
    let len = end - begin in
    let is = λ (name : List ℕ). text_at m begin name in
    if len == 3
    then (if is (codes "GET") then get else if is (codes "PUT") then put else invalid)
    else if len == 4
    then (if is (codes "POST") then post else if is (codes "HEAD") then head else invalid)
    else if len == 5
    then (if is (codes "TRACE") then trace else invalid)
    else if len == 6
    then (if is (codes "DELETE") then delete else invalid)
    else if len == 7
    then (if is (codes "CONNECT")
        then connect
        else if is (codes "OPTIONS")
        then options
        else invalid)
    else invalid

unfoldable pub is_invalid : Method → Bool
is_invalid invalid = true
is_invalid _ = false

abbrev enter : Request → LineState → Step
enter r s = next (record r { state = s })

abbrev refuse : Request → Step
refuse r = returned err_invalid_request r

unfoldable pub rl_begin_step : Request → ℕ → ℕ → Step
rl_begin_step r p ch =
    if is_upper ch
    then next (record r { request_line = starting r.request_line p; state = rl_method })
    else refuse r

-- Any byte but a blank is taken here.
unfoldable pub rl_method_step : Memory → Request → ℕ → ℕ → Step
unfolding parse_method is_invalid
rl_method_step m r p ch =
    let found = parse_method m r.request_line.addr p in
    if ch == b' '
    then (if is_invalid found
        then returned err_invalid_method (record r { method = found })
        else next (record r { method = found; state = rl_sp_before_uri }))
    else next r

abbrev pub is_break : ℕ → Bool
is_break ch = ch == b'\t' || ch == b'\r' || ch == b'\n'

-- After `sy_parse_uri`: an error is returned, else the state and the path are as given.
unfoldable pub after_uri : Code × Uri → Request → Step → Step
after_uri (ok, u) r step = step
after_uri (err, u) r step = returned err (record r { uri = u })

unfoldable pub rl_sp_before_uri_step : Memory → Request → ℕ → ℕ → Step
unfolding after_uri
rl_sp_before_uri_step m r p ch =
    let parsed = parse_uri m (record r.uri { state = uri_begin }) p in
    if is_break ch
    then refuse r
    else if ch == b' '
    then next r
    else after_uri parsed r (next (record r { uri = parsed.1; state = rl_uri }))

-- `if (r->uri.nentries < r->uri.nddots) r->uri.abs_path.len = 1;`
unfoldable pub confine : Uri → Uri
confine u =
    if ltb u.nentries u.nddots then record u { abs_path = record u.abs_path { len = 1 } } else u

unfoldable pub rl_uri_step : Memory → Request → ℕ → ℕ → Step
unfolding after_uri confine
rl_uri_step m r p ch =
    let parsed = parse_uri m r.uri p in
    let left = record r { state = rl_sp_before_version } in
    if is_break ch
    then refuse r
    else if ch == b' '
    then after_uri parsed left (next (record left { uri = confine parsed.1 }))
    else after_uri parsed r (next (record r { uri = parsed.1 }))

-- The states that want one letter.
unfoldable pub letter_step : ℕ → LineState → Request → ℕ → Step
letter_step letter s r ch = if ch == letter then enter r s else refuse r

unfoldable pub rl_sp_before_version_step : Request → ℕ → Step
rl_sp_before_version_step r ch =
    if ch == b' ' then next r else if ch == b'H' then enter r rl_http_h else refuse r

-- `v * 10 + ch - '0'` in a `uint16_t`.
unfoldable pub shift_in : ℕ → ℕ → ℕ
shift_in v ch = (v * 10 + ch - b'0') % 2 ^ 16

abbrev with_major : Request → ℕ → Request
with_major r v = record r { version = record r.version { major = v } }

abbrev with_minor : Request → ℕ → Request
with_minor r v = record r { version = record r.version { minor = v } }

unfoldable pub rl_version_slash_step : Request → ℕ → Step
unfolding shift_in
rl_version_slash_step r ch =
    if is_digit ch
    then enter (with_major r (shift_in r.version.major ch)) rl_version_major
    else refuse r

unfoldable pub rl_version_major_step : Request → ℕ → Step
unfolding shift_in
rl_version_major_step r ch =
    let shifted = shift_in r.version.major ch in
    if is_digit ch
    then (if ltb 999 shifted
        then returned err_invalid_version (with_major r shifted)
        else next (with_major r shifted))
    else if ch == b'.'
    then enter r rl_version_dot
    else refuse r

unfoldable pub rl_version_dot_step : Request → ℕ → Step
unfolding shift_in
rl_version_dot_step r ch =
    if is_digit ch
    then enter (with_minor r (shift_in r.version.minor ch)) rl_version_minor
    else refuse r

unfoldable pub rl_version_minor_step : Request → ℕ → Step
unfolding shift_in
rl_version_minor_step r ch =
    let shifted = shift_in r.version.minor ch in
    if is_digit ch
    then (if ltb 999 shifted
        then returned err_invalid_version (with_minor r shifted)
        else next (with_minor r shifted))
    else if ch == b' '
    then enter r rl_sp_after_version
    else if ch == b'\r'
    then enter r rl_almost_done
    else if ch == b'\n'
    then goto_done r
    else refuse r

unfoldable pub rl_sp_after_version_step : Request → ℕ → Step
rl_sp_after_version_step r ch =
    if ch == b' ' then next r else if ch == b'\r' then enter r rl_almost_done else refuse r

unfoldable pub rl_almost_done_step : Request → ℕ → Step
rl_almost_done_step r ch = if ch == b'\n' then goto_done r else refuse r

unfoldable pub request_line_step : LineState → Memory → Request → ℕ → ℕ → Step
request_line_step rl_begin m r p ch = rl_begin_step r p ch
request_line_step rl_method m r p ch = rl_method_step m r p ch
request_line_step rl_sp_before_uri m r p ch = rl_sp_before_uri_step m r p ch
request_line_step rl_uri m r p ch = rl_uri_step m r p ch
request_line_step rl_sp_before_version m r p ch = rl_sp_before_version_step r ch
request_line_step rl_http_h m r p ch = letter_step b'T' rl_http_ht r ch
request_line_step rl_http_ht m r p ch = letter_step b'T' rl_http_htt r ch
request_line_step rl_http_htt m r p ch = letter_step b'P' rl_http_http r ch
request_line_step rl_http_http m r p ch = letter_step b'/' rl_version_slash r ch
request_line_step rl_version_slash m r p ch = rl_version_slash_step r ch
request_line_step rl_version_major m r p ch = rl_version_major_step r ch
request_line_step rl_version_dot m r p ch = rl_version_dot_step r ch
request_line_step rl_version_minor m r p ch = rl_version_minor_step r ch
request_line_step rl_sp_after_version m r p ch = rl_sp_after_version_step r ch
request_line_step rl_almost_done m r p ch = rl_almost_done_step r ch
request_line_step _ m r p ch = aborted

-- The label `done`, with `p` at the line feed.
unfoldable pub line_done : Request → ℕ → Request
line_done r p = record r {
  rb = record r.rb { begin = p + 1 };
  request_line = ending r.request_line p;
  state = hl_begin;
}

-- The loop, with `n` bytes left from `p` to the end of the buffer.

unfoldable pub request_line_loop : ℕ → Memory → Request → ℕ → Option (Code × Request)
request_line_loop zero m r p = some (again, record r { rb = record r.rb { begin = r.rb.end } })
request_line_loop (suc n) m r p = elim (request_line_step r.state m r p (m p)) [
  | next r' ↦ request_line_loop n m r' (suc p)
  | goto_done r' ↦ some (ok, line_done r' p)
  | returned err r' ↦ some (err, r')
  | aborted ↦ none
]

unfoldable pub parse_request_line : Memory → Request → Option (Code × Request)
parse_request_line m r = request_line_loop (size r.rb) m r r.rb.begin
