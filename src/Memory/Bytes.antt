-- ===== src/Memory/Bytes.antt =====
-- How reads of a range of bytes meet the writes.
use sy_server.Base.{
  ℕ, zero, suc, ◌+◌, ◌-◌, ◌≤◌, ◌<◌, ◌≡◌, refl, ap, ◌∙◌, List, [], ◌∷◌, ◌++◌, arith, length, ◌⊎◌,
  inl, inr,
}
use sy_server.Memory.{Memory, write, memmove, store, bytes}

pub length-bytes : (m : Memory) (a n : ℕ) → length (bytes m a n) ≡ n
length-bytes m a zero = refl
length-bytes m a (suc n) = ap suc (length-bytes m (suc a) n)

-- Memories that agree on a range have the same bytes there.
pub bytes-congr :
    (m m' : Memory) (a b n : ℕ)
    → ((i : ℕ) → i < n → m (a + i) ≡ m' (b + i))
    → bytes m a n ≡ bytes m' b n
bytes-congr m m' a b zero h = refl
bytes-congr m m' a b (suc n) h =
    let here : m a ≡ m' b = ap m (omega arith) ∙ h 0 (omega arith) ∙ ap m' (omega arith) in
    let there =
      bytes-congr m m' (suc a) (suc b) n
        (λ i lt. ap m (omega arith) ∙ h (suc i) (omega arith) ∙ ap m' (omega arith)) in
    cc

pub bytes-append : (m : Memory) (a n k : ℕ) → bytes m a (n + k) ≡ bytes m a n ++ bytes m (a + n) k
bytes-append m a zero k =
    let e : 0 + k ≡ k = omega arith in let f : a + 0 ≡ a = omega arith in rw (e, f)
bytes-append m a (suc n) k =
    let e : suc n + k ≡ suc (n + k) = omega arith in
    let f : a + suc n ≡ suc a + n = omega arith in
    rw (e, f) (ap (◌∷◌ (m a)) (bytes-append m (suc a) n k))

pub write_same : (m : Memory) (a v : ℕ) → write m a v a ≡ v
unfolding write
write_same m a v = ground arith

pub write_other : (m : Memory) (a v x : ℕ) → (x < a) ⊎ (a < x) → write m a v x ≡ m x
unfolding write
write_other m a v x h = ground arith

-- A write outside the range leaves its bytes.
pub bytes-write_other :
    (m : Memory) (a v b n : ℕ) → (a < b) ⊎ (b + n ≤ a) → bytes (write m a v) b n ≡ bytes m b n
bytes-write_other m a v b n h =
    bytes-congr _ _ b b n (λ i lt. write_other m a v (b + i) (ground arith))

-- A write just behind the range extends it.
pub bytes-write_end :
    (m : Memory) (b n v : ℕ) → bytes (write m (b + n) v) b (n + 1) ≡ bytes m b n ++ v ∷ []
bytes-write_end m b n v =
    bytes-append _ b n 1 ∙ rw (bytes-write_other m (b + n) v b n (inr (omega arith)), write_same)

pub bytes-memmove_to :
    (m : Memory) (to from n : ℕ) → bytes (memmove m to from n) to n ≡ bytes m from n
unfolding memmove
bytes-memmove_to m to from n =
    bytes-congr _ _ to from n (λ i lt. let e : to + i - to ≡ i = omega arith in ground arith)

pub memmove_other :
    (m : Memory) (to from n x : ℕ) → (x < to) ⊎ (to + n ≤ x) → memmove m to from n x ≡ m x
unfolding memmove
memmove_other m to from n x h = ground arith

pub bytes-memmove_before :
    (m : Memory) (to from n b k : ℕ) → b + k ≤ to → bytes (memmove m to from n) b k ≡ bytes m b k
bytes-memmove_before m to from n b k h =
    bytes-congr _ _ b b k (λ i lt. memmove_other m to from n (b + i) (inl (omega arith)))

-- A copy just behind a range extends it by what was copied.
pub bytes-memmove_end :
    (m : Memory) (b n from k : ℕ)
    → bytes (memmove m (b + n) from k) b (n + k) ≡ bytes m b n ++ bytes m from k
bytes-memmove_end m b n from k =
    bytes-append _ b n k
    ∙ rw (bytes-memmove_before m (b + n) from k b n (omega arith), bytes-memmove_to)

pub store_before : (vs : List ℕ) (m : Memory) (a x : ℕ) → x < a → store m a vs x ≡ m x
unfolding store
store_before [] m a x h = refl
store_before (v ∷ vs) m a x h =
    store_before vs (write m a v) (suc a) x (omega arith) ∙ write_other m a v x (inl h)

-- A store leaves what is outside its range.
pub store_other :
    (vs : List ℕ) (m : Memory) (a x : ℕ) → (x < a) ⊎ (a + length vs ≤ x) → store m a vs x ≡ m x
unfolding store
store_other [] m a x h = refl
store_other (v ∷ vs) m a x h =
    store_other vs (write m a v) (suc a) x (ground arith) ∙ write_other m a v x (ground arith)

pub bytes-store : (vs : List ℕ) (m : Memory) (a : ℕ) → bytes (store m a vs) a (length vs) ≡ vs
unfolding store
bytes-store [] m a = refl
bytes-store (v ∷ vs) m a =
    let here : store (write m a v) (suc a) vs a ≡ v =
      store_before vs (write m a v) (suc a) a (omega arith) ∙ write_same m a v in
    rw here (ap (◌∷◌ v) (bytes-store vs (write m a v) (suc a)))

pub bytes-store_end :
    (m : Memory) (b n : ℕ) (vs : List ℕ)
    → bytes (store m (b + n) vs) b (n + length vs) ≡ bytes m b n ++ vs
bytes-store_end m b n vs =
    let kept : bytes (store m (b + n) vs) b n ≡ bytes m b n =
      bytes-congr _ _ b b n (λ i lt. store_before vs m (b + n) (b + i) (omega arith)) in
    bytes-append _ b n (length vs) ∙ rw (kept, bytes-store vs m (b + n))

pub store_concat :
    (vs : List ℕ) (m : Memory) (a v : ℕ)
    → store m a (vs ++ v ∷ []) ≡ write (store m a vs) (a + length vs) v
unfolding store
store_concat [] m a v = let e : a + 0 ≡ a = omega arith in rw e
store_concat (x ∷ vs) m a v =
    let e : a + suc (length vs) ≡ suc a + length vs = omega arith in
    rw e (store_concat vs (write m a x) (suc a) v)
