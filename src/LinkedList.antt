-- ===== src/LinkedList.antt =====
-- src/base/list.h, src/base/list.c and src/base/queue.h: a doubly linked list with a dummy node, from
-- which the queue is made. Nodes are addresses with their fields in a `Store`; the field `next` and
-- the chain of a pool's free objects are the same words.
pub mod Segment
pub mod Insert
pub mod Ends
pub mod Cleared
use sy_server.Base.{
  ℕ, zero, suc, ◌+◌, ◌-◌, ◌*◌, ◌==◌, ◌||◌, Bool, true, false, Option, none, some, if◌then◌else◌,
}
use sy_server.Memory.{write}
use sy_server.Util.{Code, ok}
use sy_server.Pool.{Words, Pool, pool_alloc, pool_free}

-- `pool` is what the field `pool` of the list points to.
pub record Store : Type 0 where
  pub next : Words
  pub prev : Words
  pub pool : Pool

-- `sy_list_t`, with the address of its dummy node.
pub record Linked : Type 0 where
  pub size : ℕ
  pub dummy : ℕ

abbrev pub list_head : Store → Linked → ℕ
list_head st list = st.next list.dummy

abbrev pub list_tail : Store → Linked → ℕ
list_tail st list = st.prev list.dummy

unfoldable pub list_init : Store → Linked → Code × Store × Linked
unfolding write
list_init st list = (
  ok,
  record st { next = write st.next list.dummy 0; prev = write st.prev list.dummy list.dummy },
  record list { size = 0 },
)

-- The node whose `prev` changes with that of `following`: the dummy behind the last one.
abbrev pub back_of : Linked → ℕ → ℕ
back_of list following = if following == 0 then list.dummy else following

unfoldable pub list_insert : Store → Linked → ℕ → ℕ → Option (Code × Store × Linked)
unfolding write
list_insert st list pos new_node =
    let following = st.next pos in
    if pos == 0
    then none
    else some (
      ok,
      record st {
        next = write (write st.next new_node following) pos new_node;
        prev = write (write st.prev (back_of list following) new_node) new_node pos;
      },
      record list { size = list.size + 1 },
    )

-- The node goes back to the pool.
unfoldable pub list_delete : Store → Linked → ℕ → Option (Code × Store × Linked)
unfolding write pool_free
list_delete st list x =
    let next' = write st.next (st.prev x) (st.next x) in
    let (pool', words) = pool_free st.pool x next' in
    if list.size == 0 || x == list.dummy
    then none
    else some (
      ok,
      record {
        next = words;
        prev = write st.prev (back_of list (next' x)) (st.prev x);
        pool = pool';
      },
      record list { size = list.size - 1 },
    )

-- The rest of the loop of `sy_list_clear`.
abbrev pub cleared_by :
    (Store → Linked → Option (Store × Linked))
    → Option (Code × Store × Linked)
    → Option (Store × Linked)
cleared_by rest none = none
cleared_by rest (some (code, st, list)) = rest st list

-- The loop, for `n` nodes at most.
unfoldable pub clear_loop : ℕ → Store → Linked → Option (Store × Linked)
unfolding list_delete
clear_loop zero st list = if list_head st list == 0 then some (st, list) else none
clear_loop (suc n) st list =
    let rest = cleared_by (clear_loop n) (list_delete st list (list_head st list)) in
    if list_head st list == 0 then some (st, list) else rest

unfoldable pub list_clear : Store → Linked → Option (Store × Linked)
unfolding clear_loop
list_clear st list = clear_loop list.size st list

-- A queue hands out the addresses of its elements' data, behind the two pointers of a node.
abbrev pub header_width : ℕ
header_width = 2 * 8

unfoldable pub queue_push : Store → Linked → ℕ → Option (Code × Store × Linked)
unfolding list_insert
queue_push st list x = list_insert st list (list_tail st list) (x - header_width)

unfoldable pub queue_pop : Store → Linked → Option (Code × Store × Linked)
unfolding list_delete
queue_pop st list = list_delete st list (list_head st list)

abbrev pub queue_size : Linked → ℕ
queue_size list = list.size

abbrev pub queue_empty : Linked → Bool
queue_empty list = queue_size list == 0

unfoldable pub queue_front : Store → Linked → ℕ
queue_front st list = if list_head st list == 0 then 0 else list_head st list + header_width

unfoldable pub queue_back : Store → Linked → ℕ
queue_back st list = if list_tail st list == list.dummy then 0 else list_tail st list + header_width

abbrev pub allocated : Store → Option (ℕ × Pool × Words) → Option (ℕ × Store)
allocated st none = none
allocated st (some (x, pool, w)) = some (x, record st { pool = pool; next = w })

-- `grown` and `made` answer the calls of `realloc` and `malloc`.
unfoldable pub list_alloc : ℕ → ℕ → Store → Option (ℕ × Store)
unfolding pool_alloc
list_alloc grown made st = allocated st (pool_alloc grown made st.pool st.next)

abbrev pub data_of : Option (ℕ × Store) → Option (ℕ × Store)
data_of none = none
data_of (some (x, st)) = some (x + header_width, st)

unfoldable pub queue_alloc : ℕ → ℕ → Store → Option (ℕ × Store)
unfolding list_alloc
queue_alloc grown made st = data_of (list_alloc grown made st)
