-- ===== src/Http/RequestLine/VersionText.antt =====
-- The end of a request line: the version and the line break.
use sy_server.Base.{
  ℕ, suc, ◌+◌, ◌-◌, ◌≤◌, ◌<◌, ◌≡◌, refl, true, some, arith, codes, List, [], ◌∙◌, ◌∷◌, ◌++◌,
}
use sy_server.Memory.{Memory}
use sy_server.Memory.Holds.{Holds, Holds-append}
use sy_server.Types.{
  rl_sp_before_version, rl_almost_done, Request, Version, rl_http_h, rl_http_ht, rl_http_htt,
  rl_http_http, rl_version_slash, rl_version_major, rl_version_dot, rl_version_minor,
}
use sy_server.Util.{ok}
use sy_server.Http.RequestLine.{
  request_line_loop, request_line_step, line_done, shift_in, rl_sp_before_version_step, letter_step,
  rl_version_slash_step, rl_version_major_step, rl_version_dot_step, rl_version_minor_step,
  rl_almost_done_step,
}
use sy_server.Http.Step.{next, goto_done}
use sy_server.Http.Uri.{is_digit}

-- `HTTP/1.v` and the line break, for a digit `v`.
abbrev pub version_text : ℕ → List ℕ
version_text v = codes "HTTP/1." ++ (b'0' + v) ∷ b'\r' ∷ b'\n' ∷ []

abbrev pub with_version : Request → ℕ → Request
with_version r v = record r { version = record { major = 1; minor = v }; state = rl_almost_done }

-- The loop takes one byte and goes on.
pub step-next :
    (n : ℕ) (m : Memory) (r : Request) (p : ℕ) (r' : Request)
    → request_line_step r.state m r p (m p) ≡ next r'
    → request_line_loop (suc n) m r p ≡ request_line_loop n m r' (suc p)
unfolding request_line_loop
step-next n m r p r' e = rw (e, request_line_loop)

step-done :
    (n : ℕ) (m : Memory) (r : Request) (p : ℕ) (r' : Request)
    → request_line_step r.state m r p (m p) ≡ goto_done r'
    → request_line_loop (suc n) m r p ≡ some (ok, line_done r' p)
unfolding request_line_loop
step-done n m r p r' e = rw (e, request_line_loop)

-- `HTTP/`
letters :
    (n p : ℕ) (m : Memory) (r : Request)
    → r.state ≡ rl_sp_before_version
    → Holds m p (codes "HTTP/")
    → request_line_loop (5 + n) m r p
      ≡ request_line_loop n m (record r { state = rl_version_slash }) (p + 5)
unfolding request_line_step rl_sp_before_version_step letter_step
letters n p m r st (h0, (h1, (h2, (h3, (h4, h5))))) =
    let e : 5 + n ≡ suc (suc (suc (suc (suc n)))) = omega arith in
    let f : p + 5 ≡ suc (suc (suc (suc (suc p)))) = omega arith in
    rw (e, f)
      (step-next _ m r p (record r { state = rl_http_h }) (rw (st, h0))
        ∙ step-next _ m _ _ (record r { state = rl_http_ht }) (rw h1)
        ∙ step-next _ m _ _ (record r { state = rl_http_htt }) (rw h2)
        ∙ step-next _ m _ _ (record r { state = rl_http_http }) (rw h3)
        ∙ step-next _ m _ _ (record r { state = rl_version_slash }) (rw h4))

digit_step : (v : ℕ) → v < 10 → (is_digit (b'0' + v) ≡ true) × (shift_in 0 (b'0' + v) ≡ v)
unfolding shift_in
digit_step v lt = (ground arith, omega arith)

version :
    (n v p : ℕ) (m : Memory) (r : Request)
    → v < 10
    → r.state ≡ rl_version_slash
    → r.version ≡ record { major = 0; minor = 0 }
    → Holds m p (b'1' ∷ b'.' ∷ (b'0' + v) ∷ b'\r' ∷ b'\n' ∷ [])
    → request_line_loop (5 + n) m r p ≡ some (ok, line_done (with_version r v) (p + 4))
unfolding request_line_step rl_version_slash_step rl_version_major_step rl_version_dot_step
    rl_version_minor_step rl_almost_done_step
version n v p m r lt st ver (h0, (h1, (h2, (h3, (h4, h5))))) =
    let e : 5 + n ≡ suc (suc (suc (suc (suc n)))) = omega arith in
    let f : p + 4 ≡ suc (suc (suc (suc p))) = omega arith in
    let (d, k) = digit_step v lt in
    let one : Version = record { major = 1; minor = 0 } in
    let both : Version = record { major = 1; minor = v } in
    rw (e, f)
      (step-next _ m r p (record r { version = one; state = rl_version_major }) (rw (st, h0, ver))
        ∙ step-next _ m _ _ (record r { version = one; state = rl_version_dot }) (rw h1)
        ∙ step-next _ m _ _ (record r { version = both; state = rl_version_minor }) (rw (h2, d, k))
        ∙ step-next _ m _ _ (record r { version = both; state = rl_almost_done }) (rw h3)
        ∙ step-done _ m _ _ (record r { version = both; state = rl_almost_done }) (rw h4))

pub request_line_loop-version :
    (n v p : ℕ) (m : Memory) (r : Request)
    → v < 10
    → 10 ≤ n
    → r.state ≡ rl_sp_before_version
    → r.version ≡ record { major = 0; minor = 0 }
    → Holds m p (version_text v)
    → request_line_loop n m r p ≡ some (ok, line_done (with_version r v) (p + 9))
request_line_loop-version n v p m r lt fuel st ver h =
    let e : n ≡ 5 + (5 + (n - 10)) = omega arith in
    let f : p + 9 ≡ p + 5 + 4 = omega arith in
    let (first, second) =
      Holds-append m p (codes "HTTP/") (b'1' ∷ b'.' ∷ (b'0' + v) ∷ b'\r' ∷ b'\n' ∷ []) h in
    rw (e, f)
      (letters (5 + (n - 10)) p m r st first
        ∙ version (n - 10) v (p + 5) m (record r { state = rl_version_slash }) lt refl ver second)
