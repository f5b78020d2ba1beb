-- ===== src/Connection/Register.antt =====
-- `sy_connection_register`: which connections the heap has, and that it stays one.
use sy_server.Base.{
  ℕ, ◌+◌, ◌/◌, ◌≤◌, ◌<◌, ◌≡◌, ◌≢◌, refl, sym, ◌∙◌, subst, ltb, if_cases, arith, pos, ℤ, inl,
}
use sy_server.Memory.{write}
use sy_server.Memory.Bytes.{write_same, write_other}
use sy_server.Connection.Heap.{Heap, max_connection, shift_up_loop, heap_shift_up, register}
use sy_server.Connection.ShiftUp.{IsHeap, HasHole, shift_up_loop-IsHeap}
use sy_server.Connection.Members.{Registered, shift_up_loop-Registered, shift_up_loop-heap_size}

-- `c` in a new last slot.
abbrev added : Heap → ℕ → Heap
added h c = record h { slots = write h.slots (h.heap_size + 1) c; heap_size = h.heap_size + 1 }

added-HasHole :
    (h : Heap) (c : ℕ)
    → IsHeap h
    → ((i : ℕ) → 1 ≤ i → i ≤ h.heap_size → h.slots i ≢ c)
    → HasHole (added h c) (h.heap_size + 1) c
added-HasHole h c heap new =
    let same =
      λ (i : ℕ) (lt : i < h.heap_size + 1). write_other h.slots (h.heap_size + 1) c i (inl lt) in
    record {
      inside = (omega arith, omega arith);
      ordered = λ i ge le ne ne2.
          rw (same i (ground arith), same (i / 2) (ground arith))
            (heap.ordered i ge (ground arith));
      below = λ i ge le e. absurd (omega arith);
      indexed = λ i ge le ne. rw (same i (ground arith)) (heap.indexed i ge (ground arith));
      absent = λ i ge le ne. rw (same i (ground arith)) (new i ge (ground arith));
    }

added-Registered : (h : Heap) (c d : ℕ) → Registered h d → Registered (added h c) d
added-Registered h c d g = record {
  above = g.above;
  inside = omega (arith, g.inside);
  there =
      write_other h.slots (h.heap_size + 1) c (h.heap_idx d) (inl (omega (arith, g.inside)))
      ∙ g.there;
}

-- In a heap that is not full, `register` of a connection that it does not have succeeds. The result
-- is a heap, ordered and with each connection knowing its slot; it has one connection more, `c`,
-- and has all that it had.
pub register-IsHeap :
    (h : Heap) (c : ℕ)
    → IsHeap h
    → ((i : ℕ) → 1 ≤ i → i ≤ h.heap_size → h.slots i ≢ c)
    → h.heap_size < max_connection
    → ((register h c).0 ≡ pos 0)
      × IsHeap (register h c).1
      × ((register h c).1.heap_size ≡ h.heap_size + 1)
      × Registered (register h c).1 c
      × ((d : ℕ) → Registered h d → Registered (register h c).1 d)
unfolding register heap_shift_up
register-IsHeap h c heap new room =
    let k = h.heap_size + 1 in
    let h1 = added h c in
    let P : ℤ × Heap → Type 0 = λ r.
      (r.0 ≡ pos 0)
      × IsHeap r.1
      × (r.1.heap_size ≡ k)
      × Registered r.1 c
      × ((d : ℕ) → Registered h d → Registered r.1 d) in
    let (own, others) = shift_up_loop-Registered k k c h1 (omega arith) (omega arith) in
    if_cases P (ltb max_connection k) (λ e. absurd (ground arith))
      (λ _.
        subst (λ x. P (pos 0, shift_up_loop k k x h1)) (sym (write_same h.slots k c))
          (
            refl,
            shift_up_loop-IsHeap k k c h1 (added-HasHole h c heap new) (omega arith),
            shift_up_loop-heap_size k k c h1,
            own,
            λ d g.
                others d (added-Registered h c d g) (λ e. omega (arith, g.inside))
                  (λ e. new (h.heap_idx d) g.above g.inside (g.there ∙ e)),
          ))
