-- ===== src/Http/HeaderLine/ValueText.antt =====
-- The value of a header line, from behind the colon to the line break.
use sy_server.Base.{
  ℕ, zero, suc, ◌+◌, ◌-◌, ◌≤◌, ◌≡◌, refl, ap, ◌∙◌, Bool, true, false, some, arith, List, [], ◌∷◌,
  ◌++◌, length, ◌==◌, if◌then◌else◌, Bool-cases, inl, inr,
}
use sy_server.Memory.{Memory}
use sy_server.Memory.Holds.{Holds, Holds-append}
use sy_server.Types.{
  LineState, hl_name, hl_colon, hl_sp_before_value, hl_value, hl_sp_after_value, hl_almost_done,
  Request,
}
use sy_server.Http.Step.{Step, next}
use sy_server.Http.Uri.{starting, ending}
use sy_server.Http.HeaderLine.{
  hl_name_step, hl_colon_step, hl_value_step, hl_sp_after_value_step, hl_almost_done_step,
  header_line_step, header_line_loop, header_code, header_done,
}
use sy_server.Http.HeaderLine.NameText.{step-next, step-done}

abbrev pair : Memory → Step → Memory × Step
pair m s = (m, s)

-- A text within a line.
abbrev pub NoBreak : List ℕ → Type 0
NoBreak [] = Unit {0}
NoBreak (ch ∷ text) = ((ch == b'\r') ≡ false) × ((ch == b'\n') ≡ false) × NoBreak text

-- Is the byte before the end a blank? `b` tells it of the byte before the text.
abbrev pub trailing_blank : Bool → List ℕ → Bool
trailing_blank b [] = b
trailing_blank b (ch ∷ text) = trailing_blank (ch == b' ') text

-- The state of the machine inside a value.
abbrev value_state : Bool → LineState
value_state b = if b then hl_sp_after_value else hl_value

abbrev in_value : Request → Bool → ℕ → Request
in_value r b k = record r {
  state = value_state b;
  header_value = record r.header_value { len = k };
}

value_step :
    (m : Memory) (r : Request) (p ch : ℕ) (b : Bool)
    → (ch == b'\r') ≡ false
    → (ch == b'\n') ≡ false
    → r.state ≡ value_state b
    → (k : ℕ) × (header_line_step (value_state b) m r p ch ≡ (m, next (in_value r (ch == b' ') k)))
unfolding header_line_step hl_value_step hl_sp_after_value_step
value_step m r p ch true h k st = elim (Bool-cases (ch == b' ')) [
  | inl e ↦ (r.header_value.len, rw e (ap (λ s. pair m (next (record r { state = s }))) st))
  | inr e ↦ (r.header_value.len, rw (e, h, k))
]
value_step m r p ch false h k st = elim (Bool-cases (ch == b' ')) [
  | inl e ↦ (p - r.header_value.addr, rw e)
  | inr e ↦ (r.header_value.len, rw (e, h, k) (ap (λ s. pair m (next (record r { state = s }))) st))
]

header_line_loop-inside :
    (text : List ℕ) (n : ℕ) (m : Memory) (r : Request) (p : ℕ) (b : Bool)
    → NoBreak text
    → r.state ≡ value_state b
    → Holds m p text
    → length text ≤ n
    → (k : ℕ) × (header_line_loop n m r p
        ≡ header_line_loop
            (n - length text)
            m
            (in_value r (trailing_blank b text) k)
            (p + length text))
header_line_loop-inside [] n m r p b h st hold le =
    let e : n - 0 ≡ n = omega arith in
    let f : p + 0 ≡ p = omega arith in
    (r.header_value.len, rw (e, f) (ap (λ s. header_line_loop n m (record r { state = s }) p) st))
header_line_loop-inside (ch ∷ text) zero m r p b h st hold le = absurd (omega arith)
header_line_loop-inside (ch ∷ text) (suc n) m r p b (cr, lf, h) st (at, hold) le =
    let (k, step) = value_step m r p ch b cr lf st in
    let r1 = in_value r (ch == b' ') k in
    let first = step-next n m r p m r1 (
      ap (λ s. header_line_step s m r p (m p)) st
      ∙ ap (λ c. header_line_step (value_state b) m r p c) at
      ∙ step) in
    let (j, run) =
      header_line_loop-inside text n m r1 (suc p) (ch == b' ') h refl hold (omega arith) in
    let e : suc n - suc (length text) ≡ n - length text = omega arith in
    let f : p + suc (length text) ≡ suc p + length text = omega arith in
    (j, rw (e, f) (first ∙ run))

-- What the rest of a line makes of a request, with the name ending at `p` and a value of `k` bytes.
abbrev pub with_value : Request → ℕ → ℕ → Request
with_value r p k = record r {
  header_name = ending r.header_name p;
  header_value = record { addr = p + 2; len = k };
  state = hl_almost_done;
}

-- The rest of a line, behind its name.
pub header_line_loop-value :
    (v : ℕ) (rest : List ℕ) (n : ℕ) (m : Memory) (r : Request) (p : ℕ)
    → (v == b' ') ≡ false
    → NoBreak (v ∷ rest)
    → trailing_blank true (v ∷ rest) ≡ false
    → r.state ≡ hl_name
    → Holds m p (b':' ∷ b' ' ∷ v ∷ rest ++ b'\r' ∷ b'\n' ∷ [])
    → length rest + 5 ≤ n
    → (let q = p + (length rest + 4) in
        header_line_loop n m r p
        ≡ some (
          header_code (with_value r p (length rest + 1)),
          m,
          header_done (with_value r p (length rest + 1)) q,
        ))
unfolding header_line_step hl_name_step hl_colon_step hl_value_step hl_almost_done_step
header_line_loop-value v rest n m r p nb (cr, lf, inner) tb st (colon, (sp, (at, hold))) le =
    let i = n - (length rest + 5) in
    let r1 = record r { header_name = ending r.header_name p; state = hl_colon } in
    let r2 = record r1 { state = hl_sp_before_value } in
    let a = suc (suc p) in
    let r3 = record r2 { header_value = starting r.header_value a; state = hl_value } in
    let (inside, (b13, (b10, _))) = Holds-append m (suc a) rest (b'\r' ∷ b'\n' ∷ []) hold in
    let e : n ≡ suc (suc (suc (length rest + (2 + i)))) = omega arith in
    let s1 =
      step-next (suc (suc (length rest + (2 + i)))) m r p m r1
        (ap (λ s. header_line_step s m r p (m p)) st ∙ rw colon) in
    let s2 = step-next (suc (length rest + (2 + i))) m r1 (suc p) m r2 (rw sp) in
    let s3 = step-next (length rest + (2 + i)) m r2 a m r3 (rw (at, nb, cr, lf)) in
    let (k, run) =
      header_line_loop-inside rest (length rest + (2 + i)) m r3 (suc a) false inner refl inside
        (omega arith) in
    let last : trailing_blank false rest ≡ false = rw nb at tb in
    let q = suc a + length rest in
    let r4 = record r3 { header_value = record { addr = a; len = k } } in
    let r5 = record r4 {
      header_value = record { addr = a; len = q - a };
      state = hl_almost_done;
    } in
    let f : length rest + (2 + i) - length rest ≡ suc (suc i) = omega arith in
    let s4 = step-next (suc i) m r4 q m r5 (rw b13) in
    let s5 = step-done i m r5 (suc q) r5 (rw b10) in
    let g : q - a ≡ length rest + 1 = omega arith in
    let j : suc q ≡ p + (length rest + 4) = omega arith in
    let w : a ≡ p + 2 = omega arith in
    let run' = rw (last, f) at run in rw e (s1 ∙ s2 ∙ s3 ∙ run' ∙ s4 ∙ s5 ∙ rw (g, j, w))
