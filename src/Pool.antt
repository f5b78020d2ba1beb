-- ===== src/Pool.antt =====
-- src/base/mempool.h and src/base/mempool.c: objects of one width, the free ones in a chain through
-- their first words. What `malloc` and `realloc` return is an argument, 0 being NULL.
pub mod Chain
pub mod Free
use sy_server.Base.{
  length, ℕ, zero, suc, ◌+◌, ◌-◌, ◌*◌, ◌==◌, ◌||◌, Bool, true, false, ℤ, pos, negsuc, Option, none,
  some, List, [], ◌∷◌, ◌++◌, if◌then◌else◌,
}
use sy_server.Memory.{write}
use sy_server.Util.{Code, ok, error, max}
use sy_server.Vector.{Vector, always, vector_init, vector_push, vector_clear}

-- A pointer at each address.
abbrev pub Words : Type 0
Words = ℕ → ℕ

abbrev pub slot_width : ℕ
slot_width = 8

-- The loop of `sy_chunk_init`: `n` slots point to the ones behind them.
unfoldable pub chunk_loop : ℕ → ℕ → ℕ → Words → Words × ℕ
unfolding write
chunk_loop zero width addr w = (w, addr)
chunk_loop (suc n) width addr w = chunk_loop n width (addr + width) (write w addr (addr + width))

-- The chunk is its `data`, which `answer` becomes.
unfoldable pub chunk_init : ℕ → ℕ → ℕ → Words → Option (Code × ℕ × Words)
unfolding chunk_loop write
chunk_init answer width size w =
    let (w', addr) = chunk_loop (size - 1) width answer w in
    if width == 0 || size == 0
    then none
    else if answer == 0
    then some (error, 0, w)
    else some (ok, answer, write w' addr 0)

-- `chunks` is the vector, and `chunk_data` what its elements hold.
pub record Pool : Type 0 where
  pub width : ℕ
  pub chunk_size : ℕ
  pub nallocated : ℤ
  pub cur : ℕ
  pub chunks : Vector
  pub chunk_data : List ℕ

abbrev pub add_one : ℤ → ℤ
add_one (pos n) = pos (suc n)
add_one (negsuc zero) = pos 0
add_one (negsuc (suc n)) = negsuc n

abbrev pub take_one : ℤ → ℤ
take_one (pos zero) = negsuc 0
take_one (pos (suc n)) = pos n
take_one (negsuc n) = negsuc (suc n)

-- The first free object is handed out.
abbrev pub taken : Pool → Words → ℕ × Pool × Words
taken pool w = (pool.cur, record pool { nallocated = add_one pool.nallocated; cur = w pool.cur }, w)

abbrev pub with_chunk : Pool → Vector → ℕ → Pool
with_chunk pool vec d = record pool { chunks = vec; chunk_data = pool.chunk_data ++ d ∷ [] }

abbrev pub chunk_made : Pool → Vector → Option (Code × ℕ × Words) → Option (ℕ × Pool × Words)
chunk_made pool vec none = none
chunk_made pool vec (some (ok, d, w)) = some (taken (record (with_chunk pool vec d) { cur = d }) w)
chunk_made pool vec (some (_, d, w)) = some (0, with_chunk pool vec d, w)

-- `grown` answers the `realloc` of the vector, and `made` the `malloc` of the chunk.
unfoldable pub pool_alloc : ℕ → ℕ → Pool → Words → Option (ℕ × Pool × Words)
unfolding vector_push chunk_init
pool_alloc grown made pool w =
    let (slot, vec) = vector_push (always grown) pool.chunks in
    if pool.cur == 0
    then if slot == 0
      then some (0, record pool { chunks = vec }, w)
      else chunk_made pool vec (chunk_init made pool.width pool.chunk_size w)
    else some (taken pool w)

unfoldable pub pool_free : Pool → ℕ → Words → Pool × Words
unfolding write
pool_free pool x w =
    if x == 0
    then (pool, w)
    else (record pool { nallocated = take_one pool.nallocated; cur = x }, write w x pool.cur)

unfoldable pub pool_clear : Pool → Pool
unfolding vector_clear
pool_clear pool = record pool {
  chunks = vector_clear pool.chunks;
  chunk_data = [];
  cur = 0;
  nallocated = pos 0;
}

-- The chunks behind the first one, where that has been made.
abbrev pub chunk_first : ℕ → Option (Code × List ℕ × Words) → Option (Code × List ℕ × Words)
chunk_first d none = none
chunk_first d (some (code, ds, w)) = some (code, d ∷ ds, w)

-- What the loop of `sy_pool_init` does behind the making of a chunk.
abbrev pub chunk_inited :
    (Words → Option (Code × List ℕ × Words))
    → Option (Code × ℕ × Words)
    → Option (Code × List ℕ × Words)
chunk_inited rest none = none
chunk_inited rest (some (ok, d, w)) = chunk_first d (rest w)
chunk_inited rest (some (err, d, w)) = some (err, d ∷ [], w)

-- The loop, with an answer of `malloc` for each chunk. The slots have the width of a pointer.
unfoldable pub init_chunks : List ℕ → ℕ → Words → Option (Code × List ℕ × Words)
unfolding chunk_init
init_chunks [] size w = some (ok, [], w)
init_chunks (answer ∷ answers) size w =
    chunk_inited (init_chunks answers size) (chunk_init answer slot_width size w)

abbrev pub first_of : List ℕ → ℕ
first_of [] = 0
first_of (d ∷ ds) = d

abbrev pub pool_filled : Pool → Option (Code × List ℕ × Words) → Option (Code × Pool × Words)
pool_filled pool none = none
pool_filled pool (some (ok, ds, w)) =
    some (ok, record pool { chunk_data = ds; cur = first_of ds }, w)
pool_filled pool (some (err, ds, w)) = some (err, record pool { chunk_data = ds }, w)

abbrev pub vector_made :
    Pool
    → Words
    → Option (Code × List ℕ × Words)
    → Option (Code × Vector)
    → Option (Code × Pool × Words)
vector_made pool w chunks none = none
vector_made pool w chunks (some (ok, vec)) = pool_filled (record pool { chunks = vec }) chunks
vector_made pool w chunks (some (err, vec)) = some (err, record pool { chunks = vec }, w)

-- `answer` is for the vector, whose elements are pointers, and `answers` for the chunks.
unfoldable pub pool_init : ℕ → List ℕ → Pool → ℕ → ℕ → Words → Option (Code × Pool × Words)
unfolding max init_chunks vector_init
pool_init answer answers pool width chunk_size w =
    let nchunks = length answers in
    let pool' = record pool {
      width = max width slot_width;
      chunk_size = chunk_size;
      cur = 0;
      nallocated = pos 0;
      chunk_data = [];
    } in
    if chunk_size == 0 || nchunks == 0
    then none
    else vector_made pool' w (init_chunks answers chunk_size w)
        (vector_init (always answer) pool.chunks 8 nchunks)
