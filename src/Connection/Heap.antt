-- ===== src/Connection/Heap.antt =====
-- src/connection.c: the heap of connections by activity. `slots` is the array `connections` from
-- index 1 on, a connection being its address, and the fields of the connections are functions of
-- that.
use sy_server.Base.{
  Bool, ℕ, zero, suc, ◌+◌, ◌-◌, ◌*◌, ◌/◌, ◌&&◌, ◌||◌, ltb, leb, ℤ, pos, minus_one, if◌then◌else◌,
  Option, some, none, ◌==◌,
}
use sy_server.Memory.{write}

abbrev pub max_connection : ℕ
max_connection = 8192

pub record Heap : Type 0 where
  pub slots : ℕ → ℕ
  pub heap_size : ℕ
  pub heap_idx : ℕ → ℕ
  pub active_time : ℕ → ℕ

-- `connections[k] = c; connections[k]->heap_idx = k;`
unfoldable pub place : Heap → ℕ → ℕ → Heap
unfolding write
place h k c = record h { slots = write h.slots k c; heap_idx = write h.heap_idx c k }

-- The loop, with the number of rounds left, which the index bounds.
unfoldable pub shift_up_loop : ℕ → ℕ → ℕ → Heap → Heap
unfolding place
shift_up_loop zero k c h = place h k c
shift_up_loop (suc n) k c h =
    let pc = h.slots (k / 2) in
    let rest = shift_up_loop n (k / 2) c (place h k pc) in
    if ltb 0 (k / 2) && ltb (h.active_time c) (h.active_time pc) then rest else place h k c

unfoldable pub heap_shift_up : ℕ → Heap → Heap
unfolding shift_up_loop
heap_shift_up k h = shift_up_loop k k (h.slots k) h

-- The kid of `k` that a connection at `k` is compared with.
abbrev pub kid_of : ℕ → Heap → ℕ
kid_of k h =
    if leb (k * 2 + 1) h.heap_size
      && ltb (h.active_time (h.slots (k * 2 + 1))) (h.active_time (h.slots (k * 2)))
    then k * 2 + 1
    else k * 2

unfoldable pub shift_down_loop : ℕ → ℕ → ℕ → Heap → Heap
unfolding place
shift_down_loop zero k c h = place h k c
shift_down_loop (suc n) k c h =
    let kid = kid_of k h in
    let rest = shift_down_loop n kid c (place h k (h.slots kid)) in
    if ltb h.heap_size kid || ltb (h.active_time c) (h.active_time (h.slots kid))
    then place h k c
    else rest

unfoldable pub heap_shift_down : ℕ → Heap → Heap
unfolding shift_down_loop
heap_shift_down k h = shift_down_loop h.heap_size k (h.slots k) h

unfoldable pub register : Heap → ℕ → ℤ × Heap
unfolding heap_shift_up write
register h c = if ltb max_connection (h.heap_size + 1) then (minus_one, h) else (
  pos 0,
  heap_shift_up (h.heap_size + 1)
      (record h { slots = write h.slots (h.heap_size + 1) c; heap_size = h.heap_size + 1 }),
)

-- `none` is the failed `assert`.
unfoldable pub unregister : Heap → ℕ → Option Heap
unfolding heap_shift_down place
unregister h c =
    let k = h.heap_idx c in
    let h' = record (place h k (h.slots h.heap_size)) { heap_size = h.heap_size - 1 } in
    if h.heap_size == 0
    then none
    else if h.heap_size == 1
    then some h'
    else some (heap_shift_down (h'.heap_idx c) h')

-- `c->active_time = time`, and the shift that follows it.
abbrev pub at_time : Heap → ℕ → ℕ → Heap
at_time h c time = record h { active_time = write h.active_time c time }

unfoldable pub touch : ℕ → ℕ → Heap → Heap
unfolding heap_shift_down write
touch now c h = heap_shift_down (h.heap_idx c) (at_time h c now)

-- `upstream` is `c->r->uc` of a connection of the front, and 0 of one of the back, so that the call
-- on the upstream goes no deeper. `now` is the clock.
unfoldable pub activate : ℕ → ℕ → ℕ → Heap → Heap
unfolding touch
activate now upstream c h =
    if upstream == 0 then touch now c h else touch now upstream (touch now c h)

unfoldable pub retire : ℕ → ℕ → Heap → Heap
unfolding heap_shift_up write
retire past c h = heap_shift_up (h.heap_idx c) (at_time h c past)

-- The clock is later than the timeout.
unfoldable pub expire : ℕ → ℕ → ℕ → ℕ → Heap → Heap
unfolding retire
expire now timeout upstream c h =
    let past = now - timeout - 1 in
    if upstream == 0 then retire past c h else retire past upstream (retire past c h)

unfoldable pub is_expired : ℕ → ℕ → ℕ → Heap → Bool
is_expired now timeout c h = ltb (h.active_time c + timeout) now
