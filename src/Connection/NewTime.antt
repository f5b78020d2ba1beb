-- ===== src/Connection/NewTime.antt =====
-- A connection of the heap gets another time: its slot is then a gap, or a hole.
use sy_server.Base.{ℕ, ◌/◌, ◌≤◌, ◌≡◌, ◌≢◌, sym, ap, ◌∙◌, subst, arith}
use sy_server.Memory.{write}
use sy_server.Memory.Bytes.{write_same}
use sy_server.Connection.Heap.{Heap, at_time}
use sy_server.Connection.ShiftUp.{IsHeap, HasHole}
use sy_server.Connection.ShiftDown.{HasGap}
use sy_server.Connection.Members.{Registered}

pub write_ne : (m : ℕ → ℕ) (a v x : ℕ) → x ≢ a → write m a v x ≡ m x
unfolding write
write_ne m a v x ne = ground arith

-- A connection `c` of the heap gets the time `time`.
module _ (h : Heap) (c time : ℕ) (heap : IsHeap h) (own : Registered h c) where
  abbrev k : ℕ
  k = h.heap_idx c

  abbrev new : ℕ → ℕ
  new = (at_time h c time).active_time

  absent : (i : ℕ) → 1 ≤ i → i ≤ h.heap_size → i ≢ k → h.slots i ≢ c
  absent i ge le ne e = ne (sym (heap.indexed i ge le) ∙ ap h.heap_idx e)

  same : (i : ℕ) → 1 ≤ i → i ≤ h.heap_size → i ≢ k → new (h.slots i) ≡ h.active_time (h.slots i)
  same i ge le ne = write_ne h.active_time c time (h.slots i) (absent i ge le ne)

  ordered :
      (i : ℕ)
      → 2 ≤ i
      → i ≤ h.heap_size
      → i ≢ k
      → i / 2 ≢ k
      → new (h.slots (i / 2)) ≤ new (h.slots i)
  ordered i ge le ne ne2 =
      rw (same (i / 2) (omega arith) (omega arith) ne2, same i (omega arith) le ne)
        (heap.ordered i ge le)

  old_le :
      (i : ℕ) → 2 ≤ i → i ≤ h.heap_size → i / 2 ≡ k → h.active_time c ≤ h.active_time (h.slots i)
  old_le i ge le e =
      subst (λ x. h.active_time x ≤ h.active_time (h.slots i)) (ap h.slots e ∙ own.there)
        (heap.ordered i ge le)

  old_ge : 2 ≤ k → h.active_time (h.slots (k / 2)) ≤ h.active_time c
  old_ge ge =
      subst (λ x. h.active_time (h.slots (k / 2)) ≤ h.active_time x) own.there
        (heap.ordered k ge own.inside)

  across :
      (i : ℕ)
      → 2 ≤ i
      → i ≤ h.heap_size
      → i / 2 ≡ k
      → 2 ≤ k
      → new (h.slots (k / 2)) ≤ new (h.slots i)
  across i ge le e ge2 =
      let half : k / 2 ≢ k = λ q. omega arith in
      let ne : i ≢ k = λ q. omega arith in
      let a = same (k / 2) (omega arith) (omega (arith, own.inside)) half in
      let b = same i (omega arith) le ne in rw (a, b) (omega (arith, old_ge ge2, old_le i ge le e))

  pub later-HasGap : h.active_time c ≤ time → HasGap (at_time h c time) k c
  later-HasGap later = record {
    inside = (own.above, own.inside);
    ordered = ordered;
    above = λ ge.
        let half : k / 2 ≢ k = λ q. omega arith in
        let a = same (k / 2) (omega arith) (omega (arith, own.inside)) half in
        rw (a, write_same h.active_time c time) (omega (arith, old_ge ge));
    across = across;
    indexed = λ i ge le ne. heap.indexed i ge le;
    absent = absent;
  }

  pub sooner-HasHole : time ≤ h.active_time c → HasHole (at_time h c time) k c
  sooner-HasHole sooner = record {
    inside = (own.above, own.inside);
    ordered = ordered;
    below = λ i ge le e.
        let ne : i ≢ k = λ q. let p = own.above in omega arith in
        let b = same i (omega arith) le ne in
        (
          rw (b, write_same h.active_time c time) (omega (arith, old_le i ge le e)),
          across i ge le e,
        );
    indexed = λ i ge le ne. heap.indexed i ge le;
    absent = absent;
  }
