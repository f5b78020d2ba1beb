-- ===== src/Memory/Holds.antt =====
-- A text in memory, byte by byte.
use sy_server.Base.{ℕ, suc, ◌+◌, ◌<◌, ◌≤◌, ◌≡◌, inr, ◌∙◌, List, [], ◌∷◌, ◌++◌, length, arith}
use sy_server.Memory.{Memory, write, store}
use sy_server.Memory.Bytes.{write_other, write_same, store_before}

-- From address `a` the memory holds `vs`.
abbrev pub Holds : Memory → ℕ → List ℕ → Type 0
Holds m a [] = Unit {0}
Holds m a (v ∷ vs) = (m a ≡ v) × Holds m (suc a) vs

pub Holds-append :
    (m : Memory) (a : ℕ) (vs ws : List ℕ)
    → Holds m a (vs ++ ws)
    → Holds m a vs × Holds m (a + length vs) ws
Holds-append m a [] ws h = let e : a + 0 ≡ a = omega arith in (tt, rw e h)
Holds-append m a (v ∷ vs) ws (h, t) =
    let e : a + suc (length vs) ≡ suc a + length vs = omega arith in
    let (k, l) = Holds-append m (suc a) vs ws t in ((h, k), rw e l)

pub Holds-join :
    (m : Memory) (a : ℕ) (vs ws : List ℕ)
    → Holds m a vs
    → Holds m (a + length vs) ws
    → Holds m a (vs ++ ws)
Holds-join m a [] ws h k = let e : a + 0 ≡ a = omega arith in rw e at k
Holds-join m a (v ∷ vs) ws (h, t) k =
    let e : a + suc (length vs) ≡ suc a + length vs = omega arith in
    (h, Holds-join m (suc a) vs ws t (rw e at k))

-- A write before the text leaves it.
pub Holds-write :
    (m : Memory) (p v a : ℕ) (vs : List ℕ) → p < a → Holds m a vs → Holds (write m p v) a vs
Holds-write m p v a [] lt h = tt
Holds-write m p v a (w ∷ vs) lt (h, t) =
    (write_other m p v a (inr lt) ∙ h, Holds-write m p v (suc a) vs (omega arith) t)

-- Memories that agree from an address on hold the same texts there.
pub Holds-congr :
    (m m' : Memory) (a : ℕ) (vs : List ℕ)
    → ((x : ℕ) → a ≤ x → m' x ≡ m x)
    → Holds m a vs
    → Holds m' a vs
Holds-congr m m' a [] same h = tt
Holds-congr m m' a (v ∷ vs) same (h, t) =
    (same a (omega arith) ∙ h, Holds-congr m m' (suc a) vs (λ x le. same x (omega arith)) t)

-- A stored text is there.
pub Holds-store : (vs : List ℕ) (m : Memory) (a : ℕ) → Holds (store m a vs) a vs
unfolding store
Holds-store [] m a = tt
Holds-store (v ∷ vs) m a = (
  store_before vs (write m a v) (suc a) a (omega arith) ∙ write_same m a v,
  Holds-store vs (write m a v) (suc a),
)
