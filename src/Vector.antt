-- ===== src/Vector.antt =====
-- src/base/vector.h, whose field `data` is `start`, and src/base/vector.c: an array that grows.
-- `malloc` and `realloc` are functions of the bytes that they are asked for, to the address of the
-- block, 0 being NULL; they keep the elements by themselves. `sy_vector_reserve` begins with a
-- failing `assert`.
pub mod Block
pub mod Room
use sy_server.Base.{
  ℕ, zero, suc, ◌+◌, ◌-◌, ◌*◌, ◌%◌, ◌^◌, ◌==◌, Bool, true, false, ltb, leb, Option, none, some,
  if◌then◌else◌,
}
use sy_server.Util.{Code, ok, error, max, to_size}

pub record Vector : Type 0 where
  pub size : ℕ
  pub capacity : ℕ
  pub width : ℕ
  pub start : ℕ

-- The product of two `int`, as the size of a block.
abbrev pub block_bytes : ℕ → ℕ → ℕ
block_bytes k n = to_size (k * n % 2 ^ 32)

-- An allocator with the same answer to every size.
abbrev pub always : ℕ → ℕ → ℕ
always answer bytes = answer

unfoldable pub vector_init : (ℕ → ℕ) → Vector → ℕ → ℕ → Option (Code × Vector)
vector_init malloc vec width size =
    let answer = malloc (block_bytes size width) in
    let made : Vector = record { size = size; capacity = size; width = width; start = answer } in
    if width == 0
    then none
    else if size == 0
    then some (ok, record { size = 0; capacity = 0; width = width; start = 0 })
    else if answer == 0
    then some (error, record vec { start = 0 })
    else some (ok, made)

-- The larger of two `int`, where the second one may have become negative.
unfoldable pub grown_capacity : ℕ → ℕ → ℕ
unfolding max
grown_capacity capacity new_size =
    let twice = (capacity * 2 + 1) % 2 ^ 32 in
    if ltb twice (2 ^ 31) then max new_size twice else new_size

unfoldable pub vector_resize : (ℕ → ℕ) → Vector → ℕ → Code × Vector
unfolding grown_capacity
vector_resize realloc vec new_size =
    let new_capacity = grown_capacity vec.capacity new_size in
    let answer = realloc (block_bytes vec.width new_capacity) in
    if ltb vec.capacity new_size
    then if answer == 0
      then (error, record vec { start = 0 })
      else (ok, record vec { size = new_size; capacity = new_capacity; start = answer })
    else (ok, record vec { size = new_size })

unfoldable pub vector_clear : Vector → Vector
vector_clear vec = record vec { size = 0; capacity = 0; start = 0 }

unfoldable pub vector_at : Vector → ℕ → ℕ
vector_at vec i = if leb vec.size i then 0 else vec.start + i * vec.width

-- Of an empty vector this is the element before the array, as the index -1 passes the test.
unfoldable pub vector_back : Vector → ℕ
unfolding vector_at
vector_back vec = if vec.size == 0 then vec.start - vec.width else vector_at vec (vec.size - 1)

abbrev pub pushed : Code × Vector → ℕ × Vector
unfolding vector_back
pushed (ok, vec) = (vector_back vec, vec)
pushed (_, vec) = (0, vec)

unfoldable pub vector_push : (ℕ → ℕ) → Vector → ℕ × Vector
unfolding vector_resize vector_back
vector_push realloc vec = pushed (vector_resize realloc vec (vec.size + 1))

unfoldable pub vector_pop : Vector → Option Vector
vector_pop vec = if vec.size == 0 then none else some (record vec { size = vec.size - 1 })
