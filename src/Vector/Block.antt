-- ===== src/Vector/Block.antt =====
-- The elements of a vector lie inside the block that was allocated for them.
use sy_server.Base.{
  sym, subst, ap, ◌∙◌, ==→eq, ℕ, ◌+◌, ◌*◌, ◌^◌, ◌≤◌, ◌<◌, ◌≡◌, ◌⊎◌, refl, ◌==◌, ltb, if_cases, inl,
  inr, arith,
}
use native.Mathlib.Nat.{mul-le-mul_right}
use sy_server.Util.{Code, max}
use sy_server.Vector.{
  Vector, block_bytes, pushed, vector_back, grown_capacity, vector_resize, vector_push,
}
use sy_server.Vector.Room.{Pushed, Pushed-at, grown_capacity_fits}

-- The capacity is no larger than the block, of which `extent` tells the bytes.
pub record InBlock (extent : ℕ → ℕ) (vec : Vector) : Type 0 where
  pub holds : vec.capacity * vec.width ≤ extent vec.start

-- The bytes of the array that a push needs where it grows: more than twice the capacity, and the new
-- size at least.
abbrev pub wanted : Vector → ℕ
wanted vec = vec.width * max (vec.size + 1) (vec.capacity * 2 + 1)

-- They are fewer than an `int` can tell.
abbrev pub NoOverflow : Vector → Type 0
NoOverflow vec = wanted vec < 2 ^ 31

-- A push of one element: it fails where a larger array is needed and `realloc` gives none, or the
-- new element lies in the block, which again holds the capacity.
abbrev pub PushedIn : (ℕ → ℕ) → (ℕ → ℕ) → Vector → ℕ × Vector → Type 0
PushedIn realloc extent vec (slot, vec') =
    (slot ≡ 0) × (vec.capacity < vec.size + 1) × (realloc (wanted vec) ≡ 0)
    ⊎ Pushed vec slot vec'
      × (slot + vec.width ≤ vec'.start + extent vec'.start)
      × InBlock extent vec'

max_le : (w n k : ℕ) → 0 < w → w * max n k < 2 ^ 31 → max n k < 2 ^ 31
max_le w n k lo lt = let h = mul-le-mul_right {m = 1} {n = w} (max n k) lo in omega arith

grown_capacity-max :
    (capacity n : ℕ)
    → max n (capacity * 2 + 1) < 2 ^ 31
    → grown_capacity capacity n ≡ max n (capacity * 2 + 1)
unfolding grown_capacity max
grown_capacity-max capacity n lt = ground arith

block_bytes_small : (k n : ℕ) → k * n < 2 ^ 31 → block_bytes k n ≡ k * n
block_bytes_small k n lt = ground arith

asked_wanted :
    (vec : Vector)
    → 0 < vec.width
    → NoOverflow vec
    → block_bytes vec.width (grown_capacity vec.capacity (vec.size + 1)) ≡ wanted vec
asked_wanted vec wide small =
    let c = grown_capacity vec.capacity (vec.size + 1) in
    let e : c ≡ max (vec.size + 1) (vec.capacity * 2 + 1) =
      grown_capacity-max vec.capacity (vec.size + 1)
        (max_le vec.width (vec.size + 1) (vec.capacity * 2 + 1) wide small) in
    let below : vec.width * c < 2 ^ 31 = subst (λ x. vec.width * x < 2 ^ 31) (sym e) small in
    block_bytes_small vec.width c below ∙ ap (λ x. vec.width * x) e

-- A push that has grown the array.
grown-PushedIn :
    (realloc extent : ℕ → ℕ) (vec : Vector)
    → vec.size ≤ vec.capacity
    → 0 < vec.width
    → NoOverflow vec
    → 0 < realloc (block_bytes vec.width (grown_capacity vec.capacity (vec.size + 1)))
    → block_bytes vec.width (grown_capacity vec.capacity (vec.size + 1))
      ≤ extent (realloc (block_bytes vec.width (grown_capacity vec.capacity (vec.size + 1))))
    → PushedIn realloc extent vec (
        pushed (
          Code.ok,
          record vec {
            size = vec.size + 1;
            capacity = grown_capacity vec.capacity (vec.size + 1);
            start = realloc (block_bytes vec.width (grown_capacity vec.capacity (vec.size + 1)));
          },
        ))
unfolding pushed vector_back
grown-PushedIn realloc extent vec le wide small given room =
    let c = grown_capacity vec.capacity (vec.size + 1) in
    let e : c ≡ max (vec.size + 1) (vec.capacity * 2 + 1) =
      grown_capacity-max vec.capacity (vec.size + 1)
        (max_le vec.width (vec.size + 1) (vec.capacity * 2 + 1) wide small) in
    let exact : block_bytes vec.width c ≡ vec.width * c =
      block_bytes_small vec.width c (subst (λ x. vec.width * x < 2 ^ 31) (sym e) small) in
    let p =
      Pushed-at vec
        (record vec {
          size = vec.size + 1;
          capacity = c;
          start = realloc (block_bytes vec.width c);
        })
        (record { size_le = grown_capacity_fits vec.capacity (vec.size + 1); array = given }) refl
        refl in
    let holds : c * vec.width ≤ extent (realloc (block_bytes vec.width c)) =
      omega (arith, room, exact) in
    inr (p, omega (arith, p.inside, holds), record { holds = holds })

-- `sy_vector_push` of a vector whose block holds the capacity, which is at least the size, and whose
-- grown array would be smaller than 2 ^ 31 bytes, with a `realloc` that returns NULL or a block of
-- at least the bytes that it is asked for: where the size has reached the capacity and `realloc`
-- returns NULL for the bytes of the grown array, it returns NULL; else it returns the place of a new
-- last element, which follows the old ones and lies in the block, and the block holds the capacity
-- again.
pub vector_push-InBlock :
    (realloc extent : ℕ → ℕ) (vec : Vector)
    → vec.size ≤ vec.capacity
    → (0 < vec.start) ⊎ (vec.capacity ≡ 0)
    → 0 < vec.width
    → NoOverflow vec
    → InBlock extent vec
    → ((bytes : ℕ) → bytes < 2 ^ 31 → (realloc bytes ≡ 0) ⊎ (bytes ≤ extent (realloc bytes)))
    → PushedIn realloc extent vec (vector_push realloc vec)
unfolding vector_push vector_resize pushed vector_back
vector_push-InBlock realloc extent vec le some_array wide small block alloc =
    let Goal : Code × Vector → Type 0 = λ x. PushedIn realloc extent vec (pushed x) in
    let asked = block_bytes vec.width (grown_capacity vec.capacity (vec.size + 1)) in
    let exact : asked ≡ wanted vec = asked_wanted vec wide small in
    if_cases Goal (ltb vec.capacity (vec.size + 1))
      (λ grows.
        if_cases Goal (realloc asked == 0)
          (λ e. inl (refl, ground arith, ap realloc (sym exact) ∙ ==→eq (realloc asked) 0 e))
          (λ e. grown-PushedIn realloc extent vec le wide small (ground arith) (
            granted realloc extent asked (ground arith)
              (alloc asked (subst (λ x. x < 2 ^ 31) (sym exact) small)))))
      (λ fits.
        let p =
          Pushed-at vec (record vec { size = vec.size + 1 })
            (record { size_le = ground arith; array = ground arith }) refl refl in
        inr (p, omega (arith, p.inside, block.holds), record { holds = block.holds }))
  where
    granted :
        (realloc extent : ℕ → ℕ) (bytes : ℕ)
        → 0 < realloc bytes
        → (realloc bytes ≡ 0) ⊎ (bytes ≤ extent (realloc bytes))
        → bytes ≤ extent (realloc bytes)
    granted realloc extent bytes given alloc = ground arith
