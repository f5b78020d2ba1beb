-- ===== src/Http/HeaderLine/Line.antt =====
-- A whole header line.
use sy_server.Base.{
  ℕ, suc, ◌+◌, ◌-◌, ◌≤◌, ◌<◌, ◌≡◌, inr, refl, ◌∙◌, Bool, true, false, some, arith, List, [], ◌∷◌,
  ◌++◌, length, ◌==◌,
}
use sy_server.Memory.{Memory}
use sy_server.Memory.Holds.{Holds, Holds-append, Holds-congr}
use sy_server.Buffer.{size}
use sy_server.Types.{hl_begin, Request}
use sy_server.Util.{ok}
use sy_server.Http.HeaderLine.{reset, begin_name, parse_header_line}
use sy_server.Http.HeaderLine.NameText.{IsHeaderName, Lowered, header_line_loop-name}
use sy_server.Http.HeaderLine.ValueText.{NoBreak, trailing_blank, header_line_loop-value}

abbrev pub header_text : List ℕ → List ℕ → List ℕ
header_text name value = name ++ (b':' ∷ b' ' ∷ value ++ b'\r' ∷ b'\n' ∷ [])

abbrev pub leading_blank : List ℕ → Bool
leading_blank [] = true
leading_blank (ch ∷ text) = ch == b' '

-- A text within a line that neither is empty nor begins nor ends with a blank.
pub record IsValue (value : List ℕ) : Type 0 where
  pub no_break : NoBreak value
  pub no_leading : leading_blank value ≡ false
  pub no_trailing : trailing_blank true value ≡ false

-- The request behind such a line of a name of `k` bytes and a value of `j`.
abbrev pub with_header : Request → ℕ → ℕ → Request
with_header r k j = record r {
  header_name = record { addr = r.rb.begin; len = k };
  header_value = record { addr = r.rb.begin + k + 2; len = j };
  rb = record r.rb { begin = r.rb.begin + (k + j + 4) };
  state = hl_begin;
}

-- A header line that has been received as a whole, `name: value` with a name of letters, digits and
-- dashes and a value that begins and ends with no blank, is parsed with the code `ok`. The name and
-- the value of the request are then those of the line, the buffer begins behind the line, and the
-- next line may be read. In memory the name has its capitals made small and its dashes made `_`,
-- and no byte outside it has changed.
pub parse_header_line-text :
    (name value : List ℕ) (m : Memory) (r : Request)
    → IsHeaderName name
    → 0 < length name
    → IsValue value
    → 0 < r.rb.begin
    → r.state ≡ hl_begin
    → Holds m r.rb.begin (header_text name value)
    → length name + length value + 4 ≤ size r.rb
    → (m' : Memory) × (parse_header_line m r
        ≡ some (ok, m', with_header r (length name) (length value)))
      × Lowered m r.rb.begin name m'
unfolding parse_header_line
parse_header_line-text [] value m r is_name pos is_value at st hold le = absurd (omega arith)
parse_header_line-text (ch ∷ name) [] m r is_name pos is_value at st hold le =
    cc (is_value.no_leading)
parse_header_line-text (ch ∷ name) (v ∷ value) m r is_name pos is_value at st hold le =
    let p = r.rb.begin in
    let n = size r.rb in
    let k = suc (length name) in
    let tail = b':' ∷ b' ' ∷ v ∷ value ++ b'\r' ∷ b'\n' ∷ [] in
    let (h0, h1) = Holds-append m p (ch ∷ name) tail hold in
    let (m', first, low) = header_line_loop-name ch name n m r p is_name st h0 (omega arith) in
    let kept = Holds-congr m m' (p + k) tail (λ x lt. low.same x (inr lt)) h1 in
    let second =
      header_line_loop-value v value (n - k) m' (begin_name (reset r) p) (p + k) is_value.no_leading
        is_value.no_break is_value.no_trailing refl kept (omega arith) in
    let e : p + k - p ≡ k = omega arith in
    let f : p + k + (length value + 4) + 1 ≡ p + (k + suc (length value) + 4) = omega arith in
    let g : length value + 1 ≡ suc (length value) = omega arith in
    let z : (p == 0) ≡ false = ground arith in (m', first ∙ second ∙ rw (e, f, g, z), low)
