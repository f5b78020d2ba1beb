-- ===== src/Http/RequestLine/Resume.antt =====
-- A request line that arrives in pieces.
use sy_server.Base.{
  ℕ, zero, suc, ◌+◌, ◌-◌, ◌≤◌, ◌≡◌, inl, inr, refl, sym, ap, ◌∙◌, true, Option, none, some, arith,
  subst,
}
use sy_server.Memory.{Memory}
use sy_server.Buffer.{Buffer, size}
use sy_server.Types.{
  LineState, rl_begin, rl_method, rl_sp_before_uri, rl_uri, rl_sp_before_version, rl_http_h,
  rl_http_ht, rl_http_htt, rl_http_http, rl_version_slash, rl_version_major, rl_version_dot,
  rl_version_minor, rl_sp_after_version, rl_almost_done, Uri, uri_begin, Request,
}
use sy_server.Util.{Code, ok, again}
use sy_server.Http.Step.{Step, next, goto_done, returned, aborted}
use sy_server.Http.Uri.{parse_uri}
use sy_server.Http.RequestLine.{
  rl_begin_step, rl_method_step, rl_sp_before_version_step, letter_step, rl_version_slash_step,
  rl_version_major_step, rl_version_dot_step, rl_version_minor_step, rl_sp_after_version_step,
  rl_almost_done_step, rl_sp_before_uri_step, rl_uri_step, confine, after_uri, request_line_step,
  request_line_loop, parse_request_line, line_done,
}
use sy_server.Http.RequestLine.Outcome.{
  in_request_line, is_err, UriCode, parse_uri-UriCode, Stepped, request_line_step-Stepped,
}

abbrev pub with_buffer : Request → Buffer → Request
with_buffer r x = record r { rb = x }

abbrev over : Buffer → Step → Step
over x (next r) = next (with_buffer r x)
over x (goto_done r) = goto_done (with_buffer r x)
over x (returned err r) = returned err (with_buffer r x)
over x aborted = aborted

after_uri-over :
    (parsed : Code × Uri) (r : Request) (x : Buffer) (step : Step)
    → UriCode parsed
    → after_uri parsed (with_buffer r x) (over x step) ≡ over x (after_uri parsed r step)
unfolding after_uri
after_uri-over (c, u) r x step (inl e) = rw e
after_uri-over (c, u) r x step (inr e) = rw e

-- No state looks at the buffer.
request_line_step-over :
    (s : LineState) (m : Memory) (r : Request) (p ch : ℕ) (x : Buffer)
    → request_line_step s m (with_buffer r x) p ch ≡ over x (request_line_step s m r p ch)
unfolding request_line_step rl_begin_step rl_method_step rl_sp_before_version_step letter_step
    rl_version_slash_step rl_version_major_step rl_version_dot_step rl_version_minor_step
    rl_sp_after_version_step rl_almost_done_step rl_sp_before_uri_step rl_uri_step
request_line_step-over rl_begin m r p ch x = ground arith
request_line_step-over rl_method m r p ch x = ground arith
request_line_step-over rl_sp_before_uri m r p ch x =
    let u = record r.uri { state = uri_begin } in
    let step = next (record r { uri = (parse_uri m u p).1; state = rl_uri }) in
    ground (arith, after_uri-over (parse_uri m u p) r x step (parse_uri-UriCode m u p))
request_line_step-over rl_uri m r p ch x =
    let left = record r { state = rl_sp_before_version } in
    let u = (parse_uri m r.uri p).1 in
    let code = parse_uri-UriCode m r.uri p in
    ground (
      arith,
      after_uri-over (parse_uri m r.uri p) r x (next (record r { uri = u })) code,
      after_uri-over (parse_uri m r.uri p) left x (next (record left { uri = confine u })) code,
    )
request_line_step-over rl_sp_before_version m r p ch x = ground arith
request_line_step-over rl_http_h m r p ch x = ground arith
request_line_step-over rl_http_ht m r p ch x = ground arith
request_line_step-over rl_http_htt m r p ch x = ground arith
request_line_step-over rl_http_http m r p ch x = ground arith
request_line_step-over rl_version_slash m r p ch x = ground arith
request_line_step-over rl_version_major m r p ch x = ground arith
request_line_step-over rl_version_dot m r p ch x = ground arith
request_line_step-over rl_version_minor m r p ch x = ground arith
request_line_step-over rl_sp_after_version m r p ch x = ground arith
request_line_step-over rl_almost_done m r p ch x = ground arith
request_line_step-over _ m r p ch x = refl

-- The result `(code, r)`, had the call worked on the buffer `x`.
abbrev pub over_result : Buffer → Code × Request → Code × Request
over_result x (again, r) = (again, with_buffer r (record x { begin = x.end }))
over_result x (ok, r) = (ok, with_buffer r (record x { begin = r.rb.begin }))
over_result x (err, r) = (err, with_buffer r x)

abbrev pub over_call : Buffer → Option (Code × Request) → Option (Code × Request)
over_call x none = none
over_call x (some result) = some (over_result x result)

over_result-err :
    (err : Code) (r : Request) (x : Buffer)
    → is_err err ≡ true
    → over_result x (err, r) ≡ (err, with_buffer r x)
over_result-err ok r x h = cc
over_result-err again r x h = cc
over_result-err _ r x h = refl

-- What the loop does with the outcome of the switch, `n` bytes before the end.
abbrev go_on : ℕ → Memory → ℕ → Step → Option (Code × Request)
go_on n m p (next r') = request_line_loop n m r' (suc p)
go_on n m p (goto_done r') = some (ok, line_done r' p)
go_on n m p (returned err r') = some (err, r')
go_on n m p aborted = none

loop-suc :
    (n : ℕ) (m : Memory) (r : Request) (p : ℕ)
    → request_line_loop (suc n) m r p ≡ go_on n m p (request_line_step r.state m r p (m p))
unfolding request_line_loop
loop-suc n m r p = go (request_line_step r.state m r p (m p)) refl
  where
    go :
        (step : Step)
        → request_line_step r.state m r p (m p) ≡ step
        → request_line_loop (suc n) m r p ≡ go_on n m p step
    go (next r') e = rw (e, request_line_loop)
    go (goto_done r') e = rw (e, request_line_loop)
    go (returned err r') e = rw (e, request_line_loop)
    go aborted e = rw (e, request_line_loop)

request_line_loop-over :
    (n : ℕ) (m : Memory) (r : Request) (p : ℕ) (x : Buffer)
    → in_request_line r.state ≡ true
    → request_line_loop n m (with_buffer r x) p ≡ over_call x (request_line_loop n m r p)
unfolding request_line_loop line_done
request_line_loop-over zero m r p x s = refl
request_line_loop-over (suc n) m r p x s =
    loop-suc n m (with_buffer r x) p
    ∙ ap (go_on n m p) (request_line_step-over r.state m r p (m p) x)
    ∙ go (request_line_step r.state m r p (m p))
        (request_line_step-Stepped r.state m r p (m p) s refl)
        (λ r'. request_line_loop-over n m r' (suc p) x)
    ∙ ap (over_call x) (sym (loop-suc n m r p))
  where
    go :
        (step : Step)
        → Stepped r (m p) step
        → ((r' : Request)
            → in_request_line r'.state ≡ true
            → request_line_loop n m (with_buffer r' x) (suc p)
              ≡ over_call x (request_line_loop n m r' (suc p)))
        → go_on n m p (over x step) ≡ over_call x (go_on n m p step)
    go (next r') (h, e) rest = rest r' h
    go (goto_done r') (h, e) rest = refl
    go (returned err r') (h, e) rest = ap some (sym (over_result-err err r' x h))
    go aborted h rest = absurd h

-- The loop goes on where it stopped.
request_line_loop-add :
    (n k : ℕ) (m : Memory) (r : Request) (p : ℕ) (r1 : Request)
    → in_request_line r.state ≡ true
    → request_line_loop n m r p ≡ some (again, r1)
    → (request_line_loop (n + k) m r p ≡ request_line_loop k m (with_buffer r1 r.rb) (p + n))
      × (in_request_line r1.state ≡ true)
      × (r1.rb ≡ record r.rb { begin = r.rb.end })
unfolding request_line_loop line_done
request_line_loop-add zero k m r p r1 s e =
    let f : p + 0 ≡ p = omega arith in
    let g : 0 + k ≡ k = omega arith in
    let h : record r { rb = record r.rb { begin = r.rb.end } } ≡ r1 = cc in
    (
      rw (f, g) (ap (λ t. request_line_loop k m (with_buffer t r.rb) p) h),
      rw (← h) s,
      rw (← h) refl,
    )
request_line_loop-add (suc n) k m r p r1 s e =
    go (request_line_step r.state m r p (m p)) refl
      (request_line_step-Stepped r.state m r p (m p) s refl)
      (λ r'. request_line_loop-add n k m r' (suc p) r1)
  where
    go :
        (step : Step)
        → request_line_step r.state m r p (m p) ≡ step
        → Stepped r (m p) step
        → ((r' : Request)
            → in_request_line r'.state ≡ true
            → request_line_loop n m r' (suc p) ≡ some (again, r1)
            → (request_line_loop (n + k) m r' (suc p)
                ≡ request_line_loop k m (with_buffer r1 r'.rb) (suc p + n))
              × (in_request_line r1.state ≡ true)
              × (r1.rb ≡ record r'.rb { begin = r'.rb.end }))
        → (request_line_loop (suc n + k) m r p
            ≡ request_line_loop k m (with_buffer r1 r.rb) (p + suc n))
          × (in_request_line r1.state ≡ true)
          × (r1.rb ≡ record r.rb { begin = r.rb.end })
    go (next r') q (h, b) rest =
        let now = sym (loop-suc n m r p ∙ ap (go_on n m p) q) ∙ e in
        let (same, i, j) = rest r' h now in
        let f : suc n + k ≡ suc (n + k) = omega arith in
        let g : p + suc n ≡ suc p + n = omega arith in
        (
          rw (f, g)
              (loop-suc (n + k) m r p
                ∙ ap (go_on (n + k) m p) q
                ∙ same
                ∙ ap (λ y. request_line_loop k m (with_buffer r1 y) (suc p + n)) b),
          i,
          j ∙ ap (λ (y : Buffer). record y { begin = y.end }) b,
        )
    go (goto_done r') q h rest = cc (loop-suc n m r p, ap (go_on n m p) q)
    go (returned err r') q (h, b) rest = cc (sym (loop-suc n m r p ∙ ap (go_on n m p) q) ∙ e)
    go aborted q h rest = absurd h

over_call-twice :
    (x y : Buffer) (result : Option (Code × Request))
    → over_call x (over_call y result) ≡ over_call x result
over_call-twice x y none = refl
over_call-twice x y (some (ok, r)) = refl
over_call-twice x y (some (again, r)) = refl
over_call-twice x y (some (_, r)) = refl

-- More bytes have been received, up to `e`.
abbrev pub received : Request → ℕ → Request
received r e = record r { rb = record r.rb { end = e } }

-- A request line may arrive in pieces. If a call of `parse_request_line` has used up the buffer and
-- more bytes follow, the next call gives what one call on all the bytes gives; the two differ at
-- most in where the buffer begins after an error.
pub parse_request_line-resume :
    (m : Memory) (r r1 : Request) (e : ℕ)
    → in_request_line r.state ≡ true
    → r.rb.begin ≤ r.rb.end
    → r.rb.end ≤ e
    → parse_request_line m r ≡ some (again, r1)
    → parse_request_line m (received r1 e)
      ≡ over_call (received r1 e).rb (parse_request_line m (received r e))
unfolding parse_request_line
parse_request_line-resume m r r1 e s ordered le first =
    let p = r.rb.begin in
    let n = size r.rb in
    let y = record r.rb { end = e } in
    let x = record r.rb { begin = r.rb.end; end = e } in
    let k = e - r.rb.end in
    let (go_on, i, b) = request_line_loop-add n k m r p r1 s first in
    let now : received r1 e ≡ with_buffer r1 x =
      ap (λ (z : Buffer). record r1 { rb = record z { end = e } }) b in
    let f : e - p ≡ n + k = omega arith in
    let g : p + n ≡ r.rb.end = omega arith in
    let whole : request_line_loop (e - p) m (with_buffer r y) p
        ≡ over_call y (over_call r.rb (request_line_loop k m r1 r.rb.end)) =
      rw f (
        request_line_loop-over (n + k) m r p y s
        ∙ ap (over_call y) (go_on ∙ request_line_loop-over k m r1 (p + n) r.rb i)
        ∙ ap (λ q. over_call y (over_call r.rb (request_line_loop k m r1 q))) g) in
    let rest = request_line_loop k m r1 r.rb.end in
    subst (λ t. parse_request_line m t ≡ over_call t.rb (parse_request_line m (received r e)))
      (sym now)
      (request_line_loop-over k m r1 r.rb.end x i
        ∙ sym (over_call-twice x r.rb rest)
        ∙ sym (over_call-twice x y (over_call r.rb rest))
        ∙ ap (over_call x) (sym whole))
