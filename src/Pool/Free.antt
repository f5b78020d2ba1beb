-- ===== src/Pool/Free.antt =====
-- What allocation and freeing make of the free objects.
use sy_server.Base.{
  pos, negsuc, ℤ, ℕ, zero, suc, ◌+◌, ◌≤◌, ◌<◌, ◌≡◌, ◌⊎◌, refl, sym, ap, ◌∙◌, subst, ◌==◌, Option,
  none, some, List, [], ◌∷◌, ne→==, eq→==, arith, if◌then◌else◌,
}
use sy_server.Memory.{write}
use sy_server.Memory.Bytes.{write_same}
use sy_server.Vector.{always, vector_push}
use sy_server.Vector.Room.{vector_push-Pushed}
use sy_server.Pool.{
  Vector, Words, chunk_init, Pool, taken, chunk_made, add_one, take_one, pool_alloc, pool_free,
}
use sy_server.Pool.Chain.{Chained, NoneIs, Chained-write, objects, chunk_init-Chained}

-- What an allocation can choose from, with `made` for the address of a new chunk.
abbrev pub available : ℕ → Pool → List ℕ → List ℕ
available made pool [] = objects pool.chunk_size pool.width made
available made pool (x ∷ xs) = x ∷ xs

-- The outcome of an allocation from the objects `xs`.
abbrev pub TakenFrom : List ℕ → Option (ℕ × Pool × Words) → Type 0
TakenFrom xs none = ⊥
TakenFrom xs (some (x, pool, w)) =
    (rest : List ℕ) × (xs ≡ x ∷ rest) × (0 < x) × Chained w pool.cur rest

chunk_made-TakenFrom :
    (pool : Pool) (vec : Vector) (made n : ℕ) (w : Words)
    → 0 < made
    → 0 < pool.width
    → TakenFrom
        (objects (suc n) pool.width made)
        (chunk_made pool vec (chunk_init made pool.width (suc n) w))
chunk_made-TakenFrom pool vec made n w given wide =
    let (w', e, (at, lo, chain)) = chunk_init-Chained made pool.width n w given wide in
    subst (λ x. TakenFrom (objects (suc n) pool.width made) (chunk_made pool vec x)) (sym e)
      (objects n pool.width (made + pool.width), refl, given, chain)

pool_alloc-first :
    (grown made : ℕ) (pool : Pool) (w : Words)
    → 0 < pool.cur
    → pool_alloc grown made pool w ≡ some (taken pool w)
unfolding pool_alloc
pool_alloc-first grown made pool w lo = rw (ne→== pool.cur 0 (omega arith)) refl

pool_alloc-chunk :
    (grown made : ℕ) (pool : Pool) (w : Words)
    → pool.cur ≡ 0
    → 0 < (vector_push (always grown) pool.chunks).0
    → pool_alloc grown made pool w
      ≡ chunk_made pool
          (vector_push (always grown) pool.chunks).1
          (chunk_init made pool.width pool.chunk_size w)
unfolding pool_alloc
pool_alloc-chunk grown made pool w free lo =
    let (slot, vec) = vector_push (always grown) pool.chunks in
    let chunk = chunk_made pool vec (chunk_init made pool.width pool.chunk_size w) in
    ap
      (λ b.
        if b
        then (if slot == 0 then some (0, record pool { chunks = vec }, w) else chunk)
        else some (taken pool w))
      (eq→== pool.cur 0 free)
    ∙ ap (λ b. if b then some (0, record pool { chunks = vec }, w) else chunk)
        (ne→== slot 0 (omega arith))

-- `sy_pool_alloc` of a pool with the free objects `xs` hands out the first of them, or, where there
-- is none, the first object of a new chunk, and the others are free behind it. There is memory for
-- the chunk and for the vector of chunks, and the width and the size of a chunk are not 0.
pub pool_alloc-TakenFrom :
    (grown made n : ℕ) (pool : Pool) (w : Words) (xs : List ℕ)
    → Chained w pool.cur xs
    → 0 < grown
    → 0 < made
    → 0 < pool.width
    → pool.chunk_size ≡ suc n
    → pool.chunks.size ≤ pool.chunks.capacity
    → (0 < pool.chunks.start) ⊎ (pool.chunks.capacity ≡ 0)
    → TakenFrom (available made pool xs) (pool_alloc grown made pool w)
pool_alloc-TakenFrom grown made n pool w (x ∷ xs) (at, lo, chain) g0 m0 wide size le array =
    subst (TakenFrom (x ∷ xs)) (sym (pool_alloc-first grown made pool w (omega arith)))
      (xs, ap (λ y. y ∷ xs) (sym at), omega arith, subst (λ y. Chained w (w y) xs) (sym at) chain)
pool_alloc-TakenFrom grown made n pool w [] at g0 m0 wide size le array =
    let push = vector_push-Pushed grown pool.chunks le array g0 in
    let vec = (vector_push (always grown) pool.chunks).1 in
    let behind = push.behind in
    let lo : 0 < (vector_push (always grown) pool.chunks).0 = omega (arith, push.valid.array) in
    subst (TakenFrom (objects pool.chunk_size pool.width made))
      (sym (pool_alloc-chunk grown made pool w at lo))
      (subst
        (λ k.
          TakenFrom (objects k pool.width made)
            (chunk_made pool vec (chunk_init made pool.width k w)))
        (sym size) (chunk_made-TakenFrom pool vec made n w m0 wide))

add_one-take_one : (n : ℤ) → add_one (take_one n) ≡ n
add_one-take_one (pos zero) = refl
add_one-take_one (pos (suc n)) = refl
add_one-take_one (negsuc n) = refl

-- The pool behind a free.
abbrev pub given_back : Pool → ℕ → Pool
given_back pool x = record pool { nallocated = take_one pool.nallocated; cur = x }

pub pool_free-given_back :
    (pool : Pool) (x : ℕ) (w : Words)
    → 0 < x
    → pool_free pool x w ≡ (given_back pool x, write w x pool.cur)
unfolding pool_free
pool_free-given_back pool x w lo = rw (ne→== x 0 (omega arith)) refl

-- An object that is freed is the first to be handed out again, and the pool is then as before.
pub pool_alloc-pool_free :
    (grown made : ℕ) (pool : Pool) (x : ℕ) (w : Words)
    → 0 < x
    → pool_alloc grown made (pool_free pool x w).0 (pool_free pool x w).1
      ≡ some (x, pool, write w x pool.cur)
pool_alloc-pool_free grown made pool x w lo =
    let w' = write w x pool.cur in
    ap (λ (s : Pool × Words). pool_alloc grown made s.0 s.1) (pool_free-given_back pool x w lo)
    ∙ pool_alloc-first grown made (given_back pool x) w' lo
    ∙ ap (λ n. some (x, record pool { nallocated = n; cur = w' x }, w'))
        (add_one-take_one pool.nallocated)
    ∙ ap (λ p. some (x, record pool { cur = p }, w')) (write_same w x pool.cur)

-- `sy_pool_free` puts an object that is not free before the free ones.
pub pool_free-Chained :
    (pool : Pool) (x : ℕ) (w : Words) (xs : List ℕ)
    → 0 < x
    → NoneIs x xs
    → Chained w pool.cur xs
    → Chained (pool_free pool x w).1 (pool_free pool x w).0.cur (x ∷ xs)
pool_free-Chained pool x w xs lo away chain =
    let w' = write w x pool.cur in
    subst (λ (s : Pool × Words). Chained s.1 s.0.cur (x ∷ xs))
      (sym (pool_free-given_back pool x w lo))
      (
        refl,
        lo,
        subst (λ p. Chained w' p xs) (sym (write_same w x pool.cur))
            (Chained-write xs w pool.cur x pool.cur away chain),
      )
