-- ===== src/Strings/Equal.antt =====
-- `sy_string_eq` on C strings.
use sy_server.Base.{Bool-cases, ℕ, ◌≡◌, ◌≢◌, ◌⊎◌, inl, inr, ap, ◌∙◌, true, false, some, List}
use sy_server.Memory.{Memory, Str}
use sy_server.Strings.{is_zero, to_eq, string_eq}
use sy_server.Strings.Compare.{IsCText}
use sy_server.Strings.Compare.{text_cmp, text_cmp-same, text_cmp-zero, string_cmp-text}

string_eq-same :
    (s t : List ℕ) (m : Memory) (lhs rhs : Str)
    → IsCText m lhs s
    → IsCText m rhs t
    → s ≡ t
    → string_eq m lhs rhs ≡ some true
unfolding string_eq
string_eq-same s t m lhs rhs cs ct e =
    ap to_eq (string_cmp-text s t m lhs rhs cs ct)
    ∙ ap (λ r. some (is_zero r)) (ap (λ x. text_cmp x t) e ∙ text_cmp-same t)

string_eq-other :
    (s t : List ℕ) (m : Memory) (lhs rhs : Str)
    → IsCText m lhs s
    → IsCText m rhs t
    → s ≢ t
    → string_eq m lhs rhs ≡ some false
unfolding string_eq
string_eq-other s t m lhs rhs cs ct ne =
    ap to_eq (string_cmp-text s t m lhs rhs cs ct)
    ∙ ap some (elim (Bool-cases (is_zero (text_cmp s t))) [
      | inl e ↦ absurd (ne (text_cmp-zero s t e))
      | inr e ↦ e
    ])

-- `sy_string_eq` finds two C strings equal exactly if their texts are, and it comes to its end.
pub string_eq-text :
    (s t : List ℕ) (m : Memory) (lhs rhs : Str)
    → IsCText m lhs s
    → IsCText m rhs t
    → (s ≡ t) × (string_eq m lhs rhs ≡ some true) ⊎ (s ≢ t) × (string_eq m lhs rhs ≡ some false)
unfolding string_eq
string_eq-text s t m lhs rhs cs ct = elim (Bool-cases (is_zero (text_cmp s t))) [
  | inl e ↦ let same = text_cmp-zero s t e in inl (same, string_eq-same s t m lhs rhs cs ct same)
  | inr e ↦
      let other : s ≢ t =
        λ same. cc (ap (λ x. is_zero (text_cmp x t)) same, ap is_zero (text_cmp-same t), e) in
      inr (other, string_eq-other s t m lhs rhs cs ct other)
]
