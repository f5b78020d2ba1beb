-- ===== src/Http/HeaderLine/NameText.antt =====
-- The name at the beginning of a header line, which is rewritten in place.
use sy_server.Base.{
  ℕ, zero, suc, ◌+◌, ◌-◌, ◌≤◌, ◌<◌, ◌≡◌, refl, ap, ◌∙◌, Bool, true, ◌||◌, some, ◌⊎◌, inl, inr,
  arith, List, [], ◌∷◌, length, ◌==◌, if◌then◌else◌, Bool-cases,
}
use mathlib.Core.List.{map}
use sy_server.Memory.{Memory, write}
use sy_server.Memory.Holds.{Holds, Holds-congr}
use sy_server.Types.{hl_begin, hl_name, Request}
use sy_server.Http.Step.{next, goto_done}
use sy_server.Http.Uri.{is_upper, is_lower, is_digit}
use sy_server.Http.HeaderLine.{
  normal, reset, begin_name, hl_begin_step, hl_name_step, header_line_step, header_line_loop,
  header_code, header_done,
}

-- The bytes of a name.
abbrev pub name_char : ℕ → Bool
name_char ch = is_upper ch || ch == b'-' || is_digit ch || is_lower ch

abbrev pub IsHeaderName : List ℕ → Type 0
IsHeaderName [] = Unit {0}
IsHeaderName (ch ∷ name) = (name_char ch ≡ true) × IsHeaderName name

-- What reading the byte at `p` as part of a name makes of the memory.
abbrev lowered : Memory → ℕ → Memory
lowered m p = if is_upper (m p) || m p == b'-' then write m p (normal (m p)) else m

lowered_at : (m : Memory) (p : ℕ) → lowered m p p ≡ normal (m p)
unfolding write normal
lowered_at m p = ground arith

lowered_other : (m : Memory) (p x : ℕ) → (x < p) ⊎ (p < x) → lowered m p x ≡ m x
unfolding write
lowered_other m p x h = ground arith

hl_name_step-name :
    (m : Memory) (r : Request) (p : ℕ)
    → name_char (m p) ≡ true
    → hl_name_step m r p (m p) ≡ (lowered m p, next r)
unfolding hl_name_step
hl_name_step-name m r p h = elim (Bool-cases (is_upper (m p) || m p == b'-')) [
  | inl e ↦ rw e
  | inr e ↦ let f : (is_digit (m p) || is_lower (m p)) ≡ true = ground arith in rw (e, f)
]

hl_begin_step-name :
    (m : Memory) (r : Request) (p : ℕ)
    → name_char (m p) ≡ true
    → hl_begin_step m r p (m p) ≡ (lowered m p, next (begin_name (reset r) p))
unfolding hl_begin_step
hl_begin_step-name m r p h = elim (Bool-cases (is_upper (m p) || m p == b'-')) [
  | inl e ↦ rw e
  | inr e ↦ let f : (is_digit (m p) || is_lower (m p)) ≡ true = ground arith in rw (e, f)
]

-- The loop takes one byte and goes on.
pub step-next :
    (n : ℕ) (m : Memory) (r : Request) (p : ℕ) (m' : Memory) (r' : Request)
    → header_line_step r.state m r p (m p) ≡ (m', next r')
    → header_line_loop (suc n) m r p ≡ header_line_loop n m' r' (suc p)
unfolding header_line_loop
step-next n m r p m' r' e = rw (ap (λ t. t.1) e, ap (λ t. t.0) e, header_line_loop)

pub step-done :
    (n : ℕ) (m : Memory) (r : Request) (p : ℕ) (r' : Request)
    → header_line_step r.state m r p (m p) ≡ (m, goto_done r')
    → header_line_loop (suc n) m r p ≡ some (header_code r', m, header_done r' p)
unfolding header_line_loop
step-done n m r p r' e = rw (ap (λ t. t.1) e, ap (λ t. t.0) e, header_line_loop)

-- In `m'` the text from `p` is normal, and all else is as in `m`.
pub record Lowered (m : Memory) (p : ℕ) (text : List ℕ) (m' : Memory) : Type 0 where
  pub text_is : Holds m' p (map normal text)
  pub same : (x : ℕ) → (x < p) ⊎ (p + length text ≤ x) → m' x ≡ m x

Lowered-cons :
    (m : Memory) (p ch : ℕ) (text : List ℕ) (m' : Memory)
    → m p ≡ ch
    → Lowered (lowered m p) (suc p) text m'
    → Lowered m p (ch ∷ text) m'
Lowered-cons m p ch text m' at l = record {
  text_is = (l.same p (inl (omega arith)) ∙ lowered_at m p ∙ ap normal at, l.text_is);
  same = λ x h. l.same x (ground arith) ∙ lowered_other m p x (ground arith);
}

header_line_loop-more :
    (name : List ℕ) (n : ℕ) (m : Memory) (r : Request) (p : ℕ)
    → IsHeaderName name
    → r.state ≡ hl_name
    → Holds m p name
    → length name ≤ n
    → (m' : Memory) × (header_line_loop n m r p
        ≡ header_line_loop (n - length name) m' r (p + length name))
      × Lowered m p name m'
unfolding header_line_step
header_line_loop-more [] n m r p h st hold le =
    let e : n - 0 ≡ n = omega arith in
    let f : p + 0 ≡ p = omega arith in (m, rw (e, f), record { text_is = tt; same = λ x k. refl })
header_line_loop-more (ch ∷ name) zero m r p h st hold le = absurd (omega arith)
header_line_loop-more (ch ∷ name) (suc n) m r p (c, h) st (at, hold) le =
    let m1 = lowered m p in
    let here : name_char (m p) ≡ true = rw at c in
    let first =
      step-next n m r p m1 r
        (ap (λ s. header_line_step s m r p (m p)) st ∙ hl_name_step-name m r p here) in
    let kept = Holds-congr m m1 (suc p) name (λ x lt. lowered_other m p x (inr lt)) hold in
    let (m', run, l) = header_line_loop-more name n m1 r (suc p) h st kept (omega arith) in
    let e : suc n - suc (length name) ≡ n - length name = omega arith in
    let f : p + suc (length name) ≡ suc p + length name = omega arith in
    (m', rw (e, f) (first ∙ run), Lowered-cons m p ch name m' at l)

-- A name at the beginning of a line.
pub header_line_loop-name :
    (ch : ℕ) (name : List ℕ) (n : ℕ) (m : Memory) (r : Request) (p : ℕ)
    → IsHeaderName (ch ∷ name)
    → r.state ≡ hl_begin
    → Holds m p (ch ∷ name)
    → suc (length name) ≤ n
    → (m' : Memory) × (header_line_loop n m r p
        ≡ header_line_loop
            (n - suc (length name))
            m'
            (begin_name (reset r) p)
            (p + suc (length name)))
      × Lowered m p (ch ∷ name) m'
unfolding header_line_step
header_line_loop-name ch name zero m r p h st hold le = absurd (omega arith)
header_line_loop-name ch name (suc n) m r p (c, h) st (at, hold) le =
    let m1 = lowered m p in
    let r1 = begin_name (reset r) p in
    let here : name_char (m p) ≡ true = rw at c in
    let first =
      step-next n m r p m1 r1
        (ap (λ s. header_line_step s m r p (m p)) st ∙ hl_begin_step-name m r p here) in
    let kept = Holds-congr m m1 (suc p) name (λ x lt. lowered_other m p x (inr lt)) hold in
    let (m', run, l) = header_line_loop-more name n m1 r1 (suc p) h refl kept (omega arith) in
    let e : suc n - suc (length name) ≡ n - length name = omega arith in
    let f : p + suc (length name) ≡ suc p + length name = omega arith in
    (m', rw (e, f) (first ∙ run), Lowered-cons m p ch name m' at l)
