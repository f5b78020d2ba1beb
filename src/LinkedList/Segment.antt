-- ===== src/LinkedList/Segment.antt =====
-- Runs of nodes, and what a write leaves of them.
use sy_server.Base.{ℕ, ◌<◌, ◌≡◌, ◌≢◌, refl, sym, ◌∙◌, List, [], ◌∷◌, ◌++◌, arith}
use sy_server.Memory.{write}
use sy_server.Memory.Bytes.{write_other}
use sy_server.Pool.{Words}
use sy_server.Pool.Chain.{NoneIs}

-- The nodes `xs` follow the node `a`, and point back.
abbrev pub Seg : Words → Words → ℕ → List ℕ → Type 0
Seg next prev a [] = Unit {0}
Seg next prev a (x ∷ xs) = (next a ≡ x) × (0 < x) × (prev x ≡ a) × Seg next prev x xs

abbrev pub last : ℕ → List ℕ → ℕ
last a [] = a
last a (x ∷ xs) = last x xs

abbrev pub AllDistinct : List ℕ → Type 0
AllDistinct [] = Unit {0}
AllDistinct (x ∷ xs) = NoneIs x xs × AllDistinct xs

-- None of the nodes but the last one is `u`.
abbrev pub NotInner : ℕ → ℕ → List ℕ → Type 0
NotInner u a [] = Unit {0}
NotInner u a (x ∷ xs) = (a ≢ u) × NotInner u x xs

pub Seg-next :
    (xs : List ℕ) (next prev : Words) (a u v : ℕ)
    → NotInner u a xs
    → Seg next prev a xs
    → Seg (write next u v) prev a xs
Seg-next [] next prev a u v away seg = tt
Seg-next (x ∷ xs) next prev a u v (ne, away) (n, lo, p, seg) =
    (write_other next u v a (omega arith) ∙ n, lo, p, Seg-next xs next prev x u v away seg)

pub Seg-prev :
    (xs : List ℕ) (next prev : Words) (a u v : ℕ)
    → NoneIs u xs
    → Seg next prev a xs
    → Seg next (write prev u v) a xs
Seg-prev [] next prev a u v away seg = tt
Seg-prev (x ∷ xs) next prev a u v (ne, away) (n, lo, p, seg) =
    (n, lo, write_other prev u v x (omega arith) ∙ p, Seg-prev xs next prev x u v away seg)

pub NoneIs-NotInner : (u a : ℕ) (xs : List ℕ) → NoneIs u (a ∷ xs) → NotInner u a xs
NoneIs-NotInner u a [] away = tt
NoneIs-NotInner u a (x ∷ xs) (ne, away) = (ne, NoneIs-NotInner u x xs away)

pub NoneIs-last : (u a : ℕ) (xs : List ℕ) → NoneIs u (a ∷ xs) → last a xs ≢ u
NoneIs-last u a [] (ne, _) = ne
NoneIs-last u a (x ∷ xs) (ne, away) = NoneIs-last u x xs away

pub last-NotInner : (a : ℕ) (xs : List ℕ) → AllDistinct (a ∷ xs) → NotInner (last a xs) a xs
last-NotInner a [] all = tt
last-NotInner a (x ∷ xs) (away, all) =
    (λ e. NoneIs-last a x xs away (sym e), last-NotInner x xs all)

pub Seg-snoc :
    (xs : List ℕ) (next prev : Words) (a y : ℕ)
    → Seg next prev a xs
    → next (last a xs) ≡ y
    → 0 < y
    → prev y ≡ last a xs
    → Seg next prev a (xs ++ y ∷ [])
Seg-snoc [] next prev a y seg n lo p = (n, lo, p, tt)
Seg-snoc (x ∷ xs) next prev a y (n', lo', p', seg) n lo p =
    (n', lo', p', Seg-snoc xs next prev x y seg n lo p)

pub last-snoc : (a y : ℕ) (xs : List ℕ) → last a (xs ++ y ∷ []) ≡ y
last-snoc a y [] = refl
last-snoc a y (x ∷ xs) = last-snoc x y xs

pub snoc-NoneIs : (u y : ℕ) (xs : List ℕ) → NoneIs u xs → y ≢ u → NoneIs u (xs ++ y ∷ [])
snoc-NoneIs u y [] away ne = (ne, tt)
snoc-NoneIs u y (x ∷ xs) (ne', away) ne = (ne', snoc-NoneIs u y xs away ne)

pub snoc-AllDistinct :
    (y : ℕ) (xs : List ℕ) → NoneIs y xs → AllDistinct xs → AllDistinct (xs ++ y ∷ [])
snoc-AllDistinct y [] away all = (tt, tt)
snoc-AllDistinct y (x ∷ xs) (ne, away) (away', all) =
    (snoc-NoneIs x y xs away' (λ e. ne (sym e)), snoc-AllDistinct y xs away all)
