-- ===== src/Tests/Nodes.antt =====
-- A vector, a pool with two free objects, and a queue with one node.
use sy_server.Base.{
  if◌then◌else◌, ◌<◌, ◌≤◌, ◌⊎◌, ◌^◌, leb, ◌==◌, ℕ, ◌+◌, ◌≡◌, inl, pos, some, [], ◌∷◌, refl, arith,
}
use sy_server.Memory.{write}
use sy_server.Util.{max, ok}
use sy_server.Vector.{Vector, vector_push}
use sy_server.Vector.Block.{PushedIn, vector_push-InBlock}
use sy_server.Pool.{Pool, Words, pool_alloc, pool_free}
use sy_server.Pool.Chain.{Chained}
use sy_server.Pool.Free.{
  available, TakenFrom, pool_alloc-TakenFrom, pool_alloc-pool_free, pool_free-Chained,
}
use sy_server.LinkedList.{
  Store, Linked, list_head, list_delete, list_clear, queue_push, header_width,
}
use sy_server.LinkedList.Insert.{IsList}
use sy_server.LinkedList.Ends.{list_delete-IsList}
use sy_server.LinkedList.Cleared.{list_clear-IsList, queue_push-IsList}

abbrev chunks : Vector
chunks = record { size = 1; capacity = 1; width = 8; start = 100 }

-- A heap whose only block is at 200, with 24 bytes, and the eight bytes at 100.
abbrev realloc : ℕ → ℕ
realloc bytes = if leb bytes 24 then 200 else 0

abbrev extent : ℕ → ℕ
extent a = if a == 200 then 24 else 8

realloc_room : (bytes : ℕ) → bytes < 2 ^ 31 → (realloc bytes ≡ 0) ⊎ (bytes ≤ extent (realloc bytes))
realloc_room bytes lt = ground arith

vector_push-InBlock_example : PushedIn realloc extent chunks (vector_push realloc chunks)
unfolding max
vector_push-InBlock_example =
    vector_push-InBlock realloc extent chunks (omega arith) (inl (omega arith)) (omega arith)
      (omega arith) (record { holds = omega arith }) realloc_room

-- Objects of 24 bytes at 700 and 724.
abbrev pool : Pool
pool = record {
  width = 24;
  chunk_size = 2;
  nallocated = pos 0;
  cur = 700;
  chunks = chunks;
  chunk_data = 700 ∷ [];
}

abbrev words : Words
words = write (write (λ a. 0) 700 724) 724 0

words-Chained : Chained words 700 (700 ∷ 724 ∷ [])
unfolding write
words-Chained = (refl, omega arith, (refl, omega arith, refl))

pool_alloc-TakenFrom_example :
    TakenFrom (available 900 pool (700 ∷ 724 ∷ [])) (pool_alloc 200 900 pool words)
pool_alloc-TakenFrom_example =
    pool_alloc-TakenFrom 200 900 1 pool words (700 ∷ 724 ∷ []) words-Chained (omega arith)
      (omega arith) (omega arith) refl (omega arith) (inl (omega arith))

pool_alloc-pool_free_example :
    pool_alloc 200 900 (pool_free pool 748 words).0 (pool_free pool 748 words).1
    ≡ some (748, pool, write words 748 700)
pool_alloc-pool_free_example = pool_alloc-pool_free 200 900 pool 748 words (omega arith)

pool_free-Chained_example :
    Chained (pool_free pool 748 words).1 (pool_free pool 748 words).0.cur (748 ∷ 700 ∷ 724 ∷ [])
pool_free-Chained_example =
    pool_free-Chained pool 748 words (700 ∷ 724 ∷ []) (omega arith)
      ((λ e. omega arith), ((λ e. omega arith), tt)) words-Chained

-- The dummy at 500, and the node 748.
abbrev list : Linked
list = record { size = 1; dummy = 500 }

abbrev store : Store
store = record {
  next = write (write words 500 748) 748 0;
  prev = write (write (λ a. 0) 500 748) 748 500;
  pool = pool;
}

store-IsList : IsList store list (748 ∷ [])
unfolding write
store-IsList = record {
  linked = (refl, omega arith, refl, tt);
  ended = refl;
  tail_is = refl;
  distinct = (((λ e. omega arith), tt), (tt, tt));
  counted = refl;
  some_dummy = omega arith;
}

queue_push-IsList_example :
    (st' : Store) × (queue_push store list (724 + header_width)
      ≡ some (ok, st', record list { size = 2 }))
    × IsList st' (record list { size = 2 }) (748 ∷ 724 ∷ [])
queue_push-IsList_example =
    queue_push-IsList store list (748 ∷ []) 724 store-IsList (omega arith)
      ((λ e. omega arith), ((λ e. omega arith), tt))

list_delete-IsList_example :
    (st' : Store) × (list_delete store list (list_head store list)
      ≡ some (ok, st', record list { size = 0 }))
    × IsList st' (record list { size = 0 }) []
    × (st'.pool.cur ≡ 748)
list_delete-IsList_example = list_delete-IsList store list 748 [] store-IsList

list_clear-IsList_example :
    (st' : Store) × (list' : Linked) × (list_clear store list ≡ some (st', list'))
    × IsList st' list' []
list_clear-IsList_example = list_clear-IsList store list (748 ∷ []) store-IsList
