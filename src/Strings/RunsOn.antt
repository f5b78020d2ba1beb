-- ===== src/Strings/RunsOn.antt =====
-- A string in memory that is not ended by a NUL where its length ends.
use sy_server.Base.{
  Bool-cases, ne→==, subst, ℕ, zero, suc, ◌^◌, ◌<◌, ◌≡◌, ◌⊎◌, inl, inr, ap, ◌∙◌, ◌==◌, ◌&&◌, true,
  false, ltb, pos, minus_one, some, List, [], ◌∷◌, ◌++◌, length, if_cases, arith, if◌then◌else◌,
}
use sy_server.Memory.{Memory, Str}
use sy_server.Memory.Holds.{Holds}
use sy_server.Strings.{signed, cmp_bytes, cmp_loop, string_cmp, to_eq, string_eq}
use sy_server.Strings.Compare.{Without, IsCText, cmp_loop-ends, cmp_loop-goes, same_addr}

-- A text that runs on behind `t` with the byte `ch` is no C string without that byte.
runs_on :
    (s t : List ℕ) (n : ℕ) (m : Memory) (l r ch : ℕ)
    → 0 < ch
    → Without ch s
    → Without 0 t
    → Holds m l (s ++ 0 ∷ [])
    → Holds m r (t ++ ch ∷ [])
    → length s < n
    → to_eq (cmp_loop n m l r) ≡ some false
unfolding cmp_bytes
runs_on s t zero m l r ch lo ws wt hs ht lt = absurd (omega arith)
runs_on [] [] (suc n) m l r ch lo ws wt (a, _) (b, _) lt =
    ap to_eq (cmp_loop-ends n m l r minus_one (ground arith))
runs_on [] (v ∷ t) (suc n) m l r ch lo ws (pv, _, _) (a, _) (b, _) lt =
    ap to_eq (cmp_loop-ends n m l r minus_one (ground arith))
runs_on (u ∷ s) [] (suc n) m l r ch lo (pu, e, _) wt (a, _) (b, _) lt =
    ap to_eq (
      cmp_loop-ends n m l r (if ltb (signed ch) (signed u) then pos 1 else minus_one)
        (ground arith))
    ∙ ground arith
runs_on (u ∷ s) (v ∷ t) (suc n) m l r ch lo (pu, _, ws) (pv, _, wt) (a, hs) (b, ht) lt =
    go (Bool-cases (u == v)) (runs_on s t n m (suc l) (suc r) ch lo ws wt hs ht (omega arith))
  where
    go :
        ((u == v) ≡ true) ⊎ ((u == v) ≡ false)
        → to_eq (cmp_loop n m (suc l) (suc r)) ≡ some false
        → to_eq (cmp_loop (suc n) m l r) ≡ some false
    go (inl e) rest = ap to_eq (cmp_loop-goes n m l r (ground arith)) ∙ rest
    go (inr e) rest =
        ap to_eq (
          cmp_loop-ends n m l r (if ltb (signed v) (signed u) then pos 1 else minus_one)
            (ground arith))
        ∙ ground arith

-- The two do not stand at one address.
apart :
    (s t : List ℕ) (m : Memory) (p ch : ℕ)
    → 0 < ch
    → Without ch s
    → Without 0 t
    → Holds m p (s ++ 0 ∷ [])
    → Holds m p (t ++ ch ∷ [])
    → ⊥
apart [] [] m p ch lo ws wt (a, _) (b, _) = omega arith
apart [] (v ∷ t) m p ch lo ws (pv, _, _) (a, _) (b, _) = omega arith
apart (u ∷ s) [] m p ch lo (_, e, _) wt (a, _) (b, _) = ground arith
apart (u ∷ s) (v ∷ t) m p ch lo (_, _, ws) (_, _, wt) (a, hs) (b, ht) =
    apart s t m (suc p) ch lo ws wt hs ht

-- At the string's address stands the text, and the byte `ch` behind it.
pub record RunsOn (m : Memory) (str : Str) (text : List ℕ) (ch : ℕ) : Type 0 where
  pub held : Holds m str.addr (text ++ ch ∷ [])
  pub no_nul : Without 0 text
  pub not_null : 0 < str.addr
  pub not_end : 0 < ch

-- A C string without the byte `ch` is never found equal to a string in memory that is followed by
-- `ch`, a name before its colon for example, even where their texts and lengths are the same.
pub string_eq-RunsOn :
    (s t : List ℕ) (m : Memory) (lhs rhs : Str) (ch : ℕ)
    → IsCText m lhs s
    → Without ch s
    → RunsOn m rhs t ch
    → string_eq m lhs rhs ≡ some false
unfolding string_eq string_cmp
string_eq-RunsOn s t m lhs rhs ch cs ws ro =
    let loop =
      runs_on s t (2 ^ 31) m lhs.addr rhs.addr ch ro.not_end ws ro.no_nul cs.held ro.held
        cs.below in
    if_cases (λ x. to_eq x ≡ some false) (lhs.len == rhs.len && lhs.addr == rhs.addr)
      (λ e.
        let at = same_addr lhs.len rhs.len lhs.addr rhs.addr e in
        absurd (
          apart s t m rhs.addr ch ro.not_end ws ro.no_nul
            (subst (λ a. Holds m a (s ++ 0 ∷ [])) at cs.held) ro.held))
      (λ _.
        rw
          (
            ne→== lhs.addr 0 (omega (arith, cs.not_null)),
            ne→== rhs.addr 0 (omega (arith, ro.not_null)),
          )
          loop)
