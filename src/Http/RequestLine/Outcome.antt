-- ===== src/Http/RequestLine/Outcome.antt =====
-- How a call of `sy_parse_request_line` ends, for every request and every content of the buffer.
use sy_server.Base.{
  ℕ, zero, suc, ◌+◌, ◌≤◌, ◌<◌, ◌≡◌, ◌⊎◌, inl, inr, refl, Bool, true, false, Option, none, some,
  arith, if_cases, ◌==◌, ◌∙◌,
}
use sy_server.Memory.{Memory}
use sy_server.Buffer.{size}
use sy_server.Types.{
  LineState, rl_begin, rl_method, rl_sp_before_uri, rl_uri, rl_sp_before_version, rl_http_h,
  rl_http_ht, rl_http_htt, rl_http_http, rl_version_slash, rl_version_major, rl_version_dot,
  rl_version_minor, rl_sp_after_version, rl_almost_done, hl_begin, Uri, Request, UriState,
  uri_begin, uri_scheme, uri_scheme_colon, uri_scheme_slash, uri_scheme_slash_slash, uri_host,
  uri_port, uri_dot, uri_ddot, uri_slash, uri_entry, uri_extension, uri_query,
}
use sy_server.Util.{
  Code, ok, again, err_invalid_request, err_invalid_method, err_invalid_version, err_invalid_uri,
}
use sy_server.Http.Step.{Step, next, goto_done, returned, aborted}
use sy_server.Http.Uri.{
  parse_uri, uri_step, begin_step, scheme_step, scheme_slash_step, host_begin_step, host_step,
  port_step, slash_step, dot_step, ddot_step, entry_step, extension_step, query_step,
}
use sy_server.Http.RequestLine.{
  rl_begin_step, rl_method_step, rl_sp_before_version_step, letter_step, rl_version_slash_step,
  is_break, rl_version_major_step, rl_version_dot_step, rl_version_minor_step,
  rl_sp_after_version_step, rl_almost_done_step, rl_sp_before_uri_step, rl_uri_step, confine,
  request_line_step, request_line_loop, parse_request_line, line_done, after_uri,
}

abbrev pub in_request_line : LineState → Bool
in_request_line rl_begin = true
in_request_line rl_method = true
in_request_line rl_sp_before_uri = true
in_request_line rl_uri = true
in_request_line rl_sp_before_version = true
in_request_line rl_http_h = true
in_request_line rl_http_ht = true
in_request_line rl_http_htt = true
in_request_line rl_http_http = true
in_request_line rl_version_slash = true
in_request_line rl_version_major = true
in_request_line rl_version_dot = true
in_request_line rl_version_minor = true
in_request_line rl_sp_after_version = true
in_request_line rl_almost_done = true
in_request_line _ = false

abbrev pub is_err : Code → Bool
is_err err_invalid_request = true
is_err err_invalid_method = true
is_err err_invalid_version = true
is_err err_invalid_uri = true
is_err _ = false

-- What the switch on one byte may do to a request.
abbrev pub Stepped : Request → ℕ → Step → Type 0
Stepped r ch (next r') = (in_request_line r'.state ≡ true) × (r'.rb ≡ r.rb)
Stepped r ch (goto_done r') = (ch ≡ b'\n') × (r'.rb ≡ r.rb)
Stepped r ch (returned err r') = (is_err err ≡ true) × (r'.rb ≡ r.rb)
Stepped r ch aborted = ⊥

-- `sy_parse_uri` returns one of two codes.
abbrev pub UriCode : Code × Uri → Type 0
UriCode r = (r.0 ≡ ok) ⊎ (r.0 ≡ err_invalid_uri)

extension_step-UriCode : (u : Uri) (p ch : ℕ) → UriCode (extension_step u p ch)
unfolding extension_step
extension_step-UriCode u p ch = ground arith

uri_step-UriCode : (s : UriState) (u : Uri) (p ch : ℕ) → UriCode (uri_step s u p ch)
unfolding uri_step begin_step scheme_step scheme_slash_step host_begin_step host_step port_step
    slash_step dot_step ddot_step entry_step query_step
uri_step-UriCode uri_begin u p ch = ground arith
uri_step-UriCode uri_scheme u p ch = ground arith
uri_step-UriCode uri_scheme_colon u p ch = ground arith
uri_step-UriCode uri_scheme_slash u p ch = ground arith
uri_step-UriCode uri_scheme_slash_slash u p ch = ground arith
uri_step-UriCode uri_host u p ch = ground arith
uri_step-UriCode uri_port u p ch = ground arith
uri_step-UriCode uri_dot u p ch = ground arith
uri_step-UriCode uri_ddot u p ch = ground arith
uri_step-UriCode uri_slash u p ch = ground arith
uri_step-UriCode uri_entry u p ch = grind (arith, extension_step-UriCode)
uri_step-UriCode uri_extension u p ch = extension_step-UriCode u p ch
uri_step-UriCode uri_query u p ch = ground arith

-- After `sy_parse_uri` the request goes on or is refused.
after_uri-Stepped :
    (r left r' : Request) (ch : ℕ) (parsed : Code × Uri)
    → UriCode parsed
    → left.rb ≡ r.rb
    → r'.rb ≡ r.rb
    → in_request_line r'.state ≡ true
    → Stepped r ch (after_uri parsed left (next r'))
unfolding after_uri
after_uri-Stepped r left r' ch (c, u) (inl e) h h' s = rw e (s, h')
after_uri-Stepped r left r' ch (c, u) (inr e) h h' s = rw e (refl, h)

pub parse_uri-UriCode : (m : Memory) (u : Uri) (p : ℕ) → UriCode (parse_uri m u p)
unfolding parse_uri
parse_uri-UriCode m u p = uri_step-UriCode u.state u p (m p)

rl_sp_before_uri_step-Stepped :
    (m : Memory) (r : Request) (p ch : ℕ)
    → in_request_line r.state ≡ true
    → Stepped r ch (rl_sp_before_uri_step m r p ch)
unfolding rl_sp_before_uri_step
rl_sp_before_uri_step-Stepped m r p ch s =
    let u = record r.uri { state = uri_begin } in
    let after =
      after_uri-Stepped r r (record r { uri = (parse_uri m u p).1; state = rl_uri }) ch
        (parse_uri m u p) (parse_uri-UriCode m u p) refl refl refl in
    if_cases (Stepped r ch) (is_break ch) (λ _. (refl, refl))
      (λ _. if_cases (Stepped r ch) (ch == b' ') (λ _. (s, refl)) (λ _. after))

rl_uri_step-Stepped :
    (m : Memory) (r : Request) (p ch : ℕ)
    → in_request_line r.state ≡ true
    → Stepped r ch (rl_uri_step m r p ch)
unfolding rl_uri_step
rl_uri_step-Stepped m r p ch s =
    let left = record r { state = rl_sp_before_version } in
    let code = parse_uri-UriCode m r.uri p in
    let u = (parse_uri m r.uri p).1 in
    if_cases (Stepped r ch) (is_break ch) (λ _. (refl, refl))
      (λ _.
        if_cases (Stepped r ch) (ch == b' ')
          (λ _. after_uri-Stepped r left (record left { uri = confine u }) ch _ code refl refl refl)
          (λ _. after_uri-Stepped r r (record r { uri = u }) ch _ code refl refl s))

pub request_line_step-Stepped :
    (s : LineState) (m : Memory) (r : Request) (p ch : ℕ)
    → in_request_line s ≡ true
    → r.state ≡ s
    → Stepped r ch (request_line_step s m r p ch)
unfolding request_line_step rl_begin_step rl_method_step rl_sp_before_version_step letter_step
    rl_version_slash_step rl_version_major_step rl_version_dot_step rl_version_minor_step
    rl_sp_after_version_step rl_almost_done_step
request_line_step-Stepped rl_begin m r p ch h e = ground arith
request_line_step-Stepped rl_method m r p ch h e = ground arith
request_line_step-Stepped rl_sp_before_uri m r p ch h e =
    rl_sp_before_uri_step-Stepped m r p ch (rw e)
request_line_step-Stepped rl_uri m r p ch h e = rl_uri_step-Stepped m r p ch (rw e)
request_line_step-Stepped rl_sp_before_version m r p ch h e = ground arith
request_line_step-Stepped rl_http_h m r p ch h e = ground arith
request_line_step-Stepped rl_http_ht m r p ch h e = ground arith
request_line_step-Stepped rl_http_htt m r p ch h e = ground arith
request_line_step-Stepped rl_http_http m r p ch h e = ground arith
request_line_step-Stepped rl_version_slash m r p ch h e = ground arith
request_line_step-Stepped rl_version_major m r p ch h e = ground arith
request_line_step-Stepped rl_version_dot m r p ch h e = ground arith
request_line_step-Stepped rl_version_minor m r p ch h e = ground arith
request_line_step-Stepped rl_sp_after_version m r p ch h e = ground arith
request_line_step-Stepped rl_almost_done m r p ch h e = ground arith
request_line_step-Stepped _ m r p ch h e = cc

-- How a call on `n` bytes from `p` ends. With `again` the buffer is used up and the request is still in its line; with `ok` the line
-- ends by a line feed inside the range, behind which the buffer now begins; any other code is an
-- error, and the buffer stays. Only `begin` of the buffer ever changes.
pub data Ended (m : Memory) (r : Request) (p n : ℕ) : Option (Code × Request) → Type 0 where
  unfinished :
      (r' : Request)
      → r'.rb ≡ record r.rb { begin = r.rb.end }
      → in_request_line r'.state ≡ true
      → Ended m r p n (some (again, r'))
  finished :
      (r' : Request) (q : ℕ)
      → p ≤ q
      → q < p + n
      → m q ≡ b'\n'
      → r'.rb ≡ record r.rb { begin = q + 1 }
      → r'.state ≡ hl_begin
      → Ended m r p n (some (ok, r'))
  refused :
      (code : Code) (r' : Request)
      → is_err code ≡ true
      → r'.rb ≡ r.rb
      → Ended m r p n (some (code, r'))

-- The rest of the loop is a call on the bytes behind the first.
Ended-next :
    {m : Memory} {r r' : Request} {p n : ℕ} {result : Option (Code × Request)}
    → r'.rb ≡ r.rb
    → Ended m r' (suc p) n result
    → Ended m r p (suc n) result
Ended-next {r} {r'} {p} e (unfinished s h k) = unfinished s (cc) k
Ended-next e (finished s q h k l f g) = finished s q (omega arith) (omega arith) l (cc) g
Ended-next e (refused c s h k) = refused c s h (k ∙ e)

request_line_loop-Ended :
    (n : ℕ) (m : Memory) (r : Request) (p : ℕ)
    → in_request_line r.state ≡ true
    → Ended m r p n (request_line_loop n m r p)
unfolding request_line_loop line_done
request_line_loop-Ended zero m r p s = unfinished _ refl s
request_line_loop-Ended (suc n) m r p s =
    go (request_line_step r.state m r p (m p))
      (request_line_step-Stepped r.state m r p (m p) s refl)
      (λ r'. request_line_loop-Ended n m r' (suc p))
  where
    go :
        (step : Step)
        → Stepped r (m p) step
        → ((r' : Request)
            → in_request_line r'.state ≡ true
            → Ended m r' (suc p) n (request_line_loop n m r' (suc p)))
        → Ended m r p (suc n) (elim step [
          | next r' ↦ request_line_loop n m r' (suc p)
          | goto_done r' ↦ some (ok, line_done r' p)
          | returned err r' ↦ some (err, r')
          | aborted ↦ none
        ])
    go (next r') (h, e) rest = Ended-next e (rest r' h)
    go (goto_done r') (h, e) rest = finished _ p (omega arith) (omega arith) h (cc) refl
    go (returned err r') (h, e) rest = refused err r' h e
    go aborted h rest = absurd h

-- A call of `parse_request_line` on a request in its line never fails an
-- `assert`, and ends in one of three ways: `again`, with the buffer used up and the request still
-- in its line; `ok`, at a line feed in the buffer, behind which the buffer now begins, with the
-- state for the first header line; or an error, with the buffer as it was.
pub parse_request_line-Ended :
    (m : Memory) (r : Request)
    → in_request_line r.state ≡ true
    → Ended m r r.rb.begin (size r.rb) (parse_request_line m r)
unfolding parse_request_line
parse_request_line-Ended m r s = request_line_loop-Ended (size r.rb) m r r.rb.begin s
