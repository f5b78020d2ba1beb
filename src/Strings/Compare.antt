-- ===== src/Strings/Compare.antt =====
-- What `sy_string_cmp` tells of two strings in memory.
use sy_server.Base.{
  ==→eq, Bool-cases, ne→==, subst, eq→==, ℕ, zero, suc, ◌^◌, ◌<◌, ◌≡◌, ◌⊎◌, inl, inr, refl, sym, ap,
  ◌∙◌, ◌==◌, ◌&&◌, true, false, ltb, ℤ, pos, minus_one, none, some, List, [], ◌∷◌, ◌++◌, length,
  if_cases, arith, if◌then◌else◌,
}
use sy_server.Memory.{Memory, Str}
use sy_server.Memory.Holds.{Holds}
use sy_server.Strings.{signed, cmp_bytes, cmp_loop, string_cmp, is_zero}

-- No byte of the text is `ch`.
abbrev pub Without : ℕ → List ℕ → Type 0
Without ch [] = Unit {0}
Without ch (v ∷ text) = (0 < v) × ((v == ch) ≡ false) × Without ch text

-- At the string's address stands the text, and a NUL behind it.
pub record IsCText (m : Memory) (str : Str) (text : List ℕ) : Type 0 where
  pub held : Holds m str.addr (text ++ 0 ∷ [])
  pub no_nul : Without 0 text
  pub not_null : 0 < str.addr
  pub below : length text < 2 ^ 31

-- The order of texts, byte by byte as signed numbers.
unfoldable pub text_cmp : List ℕ → List ℕ → ℤ
text_cmp [] [] = pos 0
text_cmp [] (b ∷ t) = minus_one
text_cmp (a ∷ s) [] = pos 1
text_cmp (a ∷ s) (b ∷ t) =
    let rest = text_cmp s t in
    if a == b then rest else if ltb (signed b) (signed a) then pos 1 else minus_one

pub cmp_loop-ends :
    (n : ℕ) (m : Memory) (l r : ℕ) (result : ℤ)
    → cmp_bytes (m l) (m r) ≡ some result
    → cmp_loop (suc n) m l r ≡ some result
unfolding cmp_loop
cmp_loop-ends n m l r result e = rw (cmp_loop, e)

pub cmp_loop-goes :
    (n : ℕ) (m : Memory) (l r : ℕ)
    → cmp_bytes (m l) (m r) ≡ none
    → cmp_loop (suc n) m l r ≡ cmp_loop n m (suc l) (suc r)
unfolding cmp_loop
cmp_loop-goes n m l r e = rw (cmp_loop, e)

pub cmp_loop-text :
    (s t : List ℕ) (n : ℕ) (m : Memory) (l r : ℕ)
    → Without 0 s
    → Without 0 t
    → Holds m l (s ++ 0 ∷ [])
    → Holds m r (t ++ 0 ∷ [])
    → length s < n
    → cmp_loop n m l r ≡ some (text_cmp s t)
unfolding cmp_bytes text_cmp
cmp_loop-text s t zero m l r ws wt hs ht lt = absurd (omega arith)
cmp_loop-text [] [] (suc n) m l r ws wt (a, _) (b, _) lt = cmp_loop-ends n m l r (pos 0) (rw (a, b))
cmp_loop-text [] (v ∷ t) (suc n) m l r ws (pv, _, _) (a, _) (b, _) lt =
    cmp_loop-ends n m l r minus_one (ground arith)
cmp_loop-text (u ∷ s) [] (suc n) m l r (pu, _, _) wt (a, _) (b, _) lt =
    cmp_loop-ends n m l r (pos 1) (ground arith)
cmp_loop-text (u ∷ s) (v ∷ t) (suc n) m l r (pu, _, ws) (pv, _, wt) (a, hs) (b, ht) lt =
    let rest = cmp_loop-text s t n m (suc l) (suc r) ws wt hs ht (omega arith) in
    go (Bool-cases (u == v)) rest
  where
    go :
        ((u == v) ≡ true) ⊎ ((u == v) ≡ false)
        → cmp_loop n m (suc l) (suc r) ≡ some (text_cmp s t)
        → cmp_loop (suc n) m l r ≡ some (text_cmp (u ∷ s) (v ∷ t))
    go (inl e) rest = cmp_loop-goes n m l r (ground arith) ∙ rest ∙ rw e refl
    go (inr e) rest =
        cmp_loop-ends n m l r (if ltb (signed v) (signed u) then pos 1 else minus_one)
          (ground arith)
        ∙ rw e refl

pub text_cmp-same : (s : List ℕ) → text_cmp s s ≡ pos 0
unfolding text_cmp
text_cmp-same [] = refl
text_cmp-same (a ∷ s) = rw (eq→== a a refl) (text_cmp-same s)

-- The order tells equal texts from others.
pub text_cmp-zero : (s t : List ℕ) → is_zero (text_cmp s t) ≡ true → s ≡ t
unfolding text_cmp
text_cmp-zero [] [] h = refl
text_cmp-zero [] (b ∷ t) h = cc
text_cmp-zero (a ∷ s) [] h = cc
text_cmp-zero (a ∷ s) (b ∷ t) h = go (text_cmp-zero s t) (Bool-cases (a == b)) h
  where
    go :
        (is_zero (text_cmp s t) ≡ true → s ≡ t)
        → ((a == b) ≡ true) ⊎ ((a == b) ≡ false)
        → is_zero (text_cmp (a ∷ s) (b ∷ t)) ≡ true
        → a ∷ s ≡ b ∷ t
    go tails_of (inl e) h =
        let tails = tails_of (rw e at h) in ap (λ x. x ∷ s) (==→eq a b e) ∙ ap (λ x. b ∷ x) tails
    go _ (inr e) h = ground arith

-- The text at an address is unique.
held_same :
    (s t : List ℕ) (m : Memory) (p : ℕ)
    → Without 0 s
    → Without 0 t
    → Holds m p (s ++ 0 ∷ [])
    → Holds m p (t ++ 0 ∷ [])
    → s ≡ t
held_same [] [] m p ws wt hs ht = refl
held_same [] (v ∷ t) m p ws (pv, _, _) (a, _) (b, _) = absurd (omega arith)
held_same (u ∷ s) [] m p (pu, _, _) wt (a, _) (b, _) = absurd (omega arith)
held_same (u ∷ s) (v ∷ t) m p (_, _, ws) (_, _, wt) (a, hs) (b, ht) =
    ap (λ x. x ∷ s) (sym a ∙ b) ∙ ap (λ x. v ∷ x) (held_same s t m (suc p) ws wt hs ht)

pub same_addr : (i j a b : ℕ) → (i == j && a == b) ≡ true → a ≡ b
same_addr i j a b e = ground arith

-- Two C strings compare like their texts, byte by byte with the sign of a `char`, whatever lengths
-- are recorded with them.
pub string_cmp-text :
    (s t : List ℕ) (m : Memory) (lhs rhs : Str)
    → IsCText m lhs s
    → IsCText m rhs t
    → string_cmp m lhs rhs ≡ some (text_cmp s t)
unfolding string_cmp
string_cmp-text s t m lhs rhs cs ct =
    let loop =
      cmp_loop-text s t (2 ^ 31) m lhs.addr rhs.addr cs.no_nul ct.no_nul cs.held ct.held cs.below in
    if_cases (λ x. x ≡ some (text_cmp s t)) (lhs.len == rhs.len && lhs.addr == rhs.addr)
      (λ e.
        let at = same_addr lhs.len rhs.len lhs.addr rhs.addr e in
        let same =
          held_same s t m rhs.addr cs.no_nul ct.no_nul
            (subst (λ a. Holds m a (s ++ 0 ∷ [])) at cs.held) ct.held in
        sym (ap some (ap (λ x. text_cmp x t) same ∙ text_cmp-same t)))
      (λ _.
        rw
          (
            ne→== lhs.addr 0 (omega (arith, cs.not_null)),
            ne→== rhs.addr 0 (omega (arith, ct.not_null)),
          )
          loop)
