-- ===== src/Vector/Room.antt =====
-- The elements of a vector lie inside its capacity.
use sy_server.Base.{
  ℕ, ◌+◌, ◌-◌, ◌*◌, ◌≤◌, ◌<◌, ◌≡◌, ◌⊎◌, refl, ap, ◌∙◌, ◌==◌, false, ltb, leb, if_cases, arith,
}
use native.Mathlib.Nat.{mul-le-mul_right}
use sy_server.Util.{Code, max}
use sy_server.Vector.{
  Vector, vector_at, vector_back, always, pushed, grown_capacity, vector_resize, vector_push,
}

-- The size is within the capacity, and there is an array.
pub record IsVector (vec : Vector) : Type 0 where
  pub size_le : vec.size ≤ vec.capacity
  pub array : 0 < vec.start

-- What a push makes: a new last element that lies in the capacity behind the others.
pub record Pushed (vec : Vector) (slot : ℕ) (vec' : Vector) : Type 0 where
  pub valid : IsVector vec'
  pub one_more : vec'.size ≡ vec.size + 1
  pub same_width : vec'.width ≡ vec.width
  pub behind : slot ≡ vec'.start + vec.size * vec.width
  pub inside : slot + vec.width ≤ vec'.start + vec'.capacity * vec.width

back_of : (vec : Vector) (n : ℕ) → vec.size ≡ n + 1 → vector_back vec ≡ vec.start + n * vec.width
unfolding vector_back vector_at
back_of vec n e =
    let z : (vec.size == 0) ≡ false = ground arith in
    let i : vec.size - 1 ≡ n = omega arith in
    let inside : leb vec.size n ≡ false = ground arith in rw (z, i, inside)

next_row : (n k w : ℕ) → n + 1 ≤ k → n * w + w ≤ k * w
next_row n k w le = omega (arith, mul-le-mul_right w le)

pub Pushed-at :
    (vec vec' : Vector)
    → IsVector vec'
    → vec'.size ≡ vec.size + 1
    → vec'.width ≡ vec.width
    → Pushed vec (vector_back vec') vec'
Pushed-at vec vec' valid one same =
    let at : vector_back vec' ≡ vec'.start + vec.size * vec.width =
      back_of vec' vec.size one ∙ ap (λ w. vec'.start + vec.size * w) same in
    let row = next_row vec.size vec'.capacity vec.width (omega (arith, valid.size_le, one)) in
    record {
      valid = valid;
      one_more = one;
      same_width = same;
      behind = at;
      inside = omega (arith, at, row);
    }

-- The new capacity has room for the new size.
pub grown_capacity_fits : (capacity n : ℕ) → n ≤ grown_capacity capacity n
unfolding grown_capacity max
grown_capacity_fits capacity n = ground arith

-- With an allocator that never fails the push succeeds.
pub vector_push-Pushed :
    (answer : ℕ) (vec : Vector)
    → vec.size ≤ vec.capacity
    → (0 < vec.start) ⊎ (vec.capacity ≡ 0)
    → 0 < answer
    → Pushed vec (vector_push (always answer) vec).0 (vector_push (always answer) vec).1
unfolding vector_push vector_resize
vector_push-Pushed answer vec le some_array given =
    if_cases (λ (x : Code × Vector). Pushed vec (pushed x).0 (pushed x).1)
      (ltb vec.capacity (vec.size + 1))
      (λ grows.
        if_cases (λ (x : Code × Vector). Pushed vec (pushed x).0 (pushed x).1) (answer == 0)
          (λ e. absurd (ground arith))
          (λ _.
            Pushed-at vec _
              (record { size_le = grown_capacity_fits vec.capacity (vec.size + 1); array = given })
              refl refl))
      (λ fits. Pushed-at vec _ (record { size_le = ground arith; array = ground arith }) refl refl)
