-- ===== src/Connection/Unregister.antt =====
-- `sy_connection_unregister` keeps the heap.
use sy_server.Base.{
  ℕ, zero, suc, ◌-◌, ◌/◌, ◌≤◌, ◌<◌, ◌≡◌, ◌≢◌, refl, sym, ap, ◌∙◌, subst, Option, some, if_cases,
  ltb, ◌||◌, arith, ◌==◌, ℕ_discrete,
}
use sy_server.Memory.{write}
use sy_server.Connection.Heap.{Heap, place, kid_of, shift_down_loop, heap_shift_down, unregister}
use sy_server.Connection.ShiftUp.{IsHeap, slot_same, slot_other, idx_other}
use sy_server.Connection.ShiftDown.{HasGap, kid_of-IsKid, goes_on-younger, shift_down_loop-IsHeap}
use sy_server.Connection.Members.{
  Registered, place-Registered_other, shift_down_loop-Registered, shift_down_loop-heap_size,
}

-- The heap without its last slot, of which the connection fills the slot `k`, which is that of `c`.
abbrev cut : Heap → ℕ → Heap
cut h k = record (place h k (h.slots h.heap_size)) { heap_size = h.heap_size - 1 }

abbrev shrunk : Heap → ℕ → Heap
shrunk h c = cut h (h.heap_idx c)

last_ne :
    (h : Heap) → IsHeap h → (i : ℕ) → 1 ≤ i → i < h.heap_size → h.slots i ≢ h.slots h.heap_size
last_ne h heap i ge lt e =
    let q : i ≡ h.heap_size =
      sym (heap.indexed i ge (omega arith))
      ∙ ap h.heap_idx e
      ∙ heap.indexed h.heap_size (omega arith) (omega arith) in
    omega arith

shrunk-HasGap :
    (h : Heap) (c : ℕ)
    → IsHeap h
    → Registered h c
    → (2 ≤ h.heap_idx c
        → h.active_time (h.slots (h.heap_idx c / 2)) ≤ h.active_time (h.slots h.heap_size))
    → h.heap_idx c ≢ h.heap_size
    → HasGap (shrunk h c) (h.heap_idx c) (h.slots h.heap_size)
unfolding place
shrunk-HasGap h c heap g parent ne =
    let k = h.heap_idx c in
    let last = h.slots h.heap_size in
    let here = slot_other h k last in
    let lt : k < h.heap_size = omega (arith, g.inside) in
    record {
      inside = (g.above, omega arith);
      ordered =
          λ i ge le ne1 ne2. rw (here (i / 2) ne2, here i ne1) (heap.ordered i ge (omega arith));
      above = λ ge. let ne3 : k / 2 ≢ k = λ e. omega arith in rw (here (k / 2) ne3) (parent ge);
      across = λ i ge le e ge2.
          let ne3 : k / 2 ≢ k = λ f. omega arith in
          let ne1 : i ≢ k = λ f. omega arith in
          let up : h.active_time (h.slots k) ≤ h.active_time (h.slots i) =
            subst (λ x. h.active_time (h.slots x) ≤ h.active_time (h.slots i)) e
              (heap.ordered i ge (omega arith)) in
          rw (here (k / 2) ne3, here i ne1) (omega (arith, up, heap.ordered k ge2 g.inside));
      indexed = λ i ge le ne1.
          let other : h.slots i ≢ last = λ e. last_ne h heap i ge (omega arith) e in
          ap (place h k last).heap_idx (here i ne1)
          ∙ idx_other h k last (h.slots i) other
          ∙ heap.indexed i ge (omega arith);
      absent = λ i ge le ne1 e. last_ne h heap i ge (omega arith) (sym (here i ne1) ∙ e);
    }

-- From the last slot nothing moves.
shift_down_loop-outside :
    (n k c : ℕ) (h : Heap) → 1 ≤ k → h.heap_size < k → shift_down_loop n k c h ≡ place h k c
unfolding shift_down_loop
shift_down_loop-outside zero k c h ge lt = refl
shift_down_loop-outside (suc n) k c h ge lt =
    if_cases (λ g. g ≡ place h k c)
      (ltb h.heap_size (kid_of k h) || ltb (h.active_time c) (h.active_time (h.slots (kid_of k h))))
      (λ e. refl)
      (λ e.
        let (le, older) = goes_on-younger h.heap_size (kid_of k h) _ _ e in
        absurd (omega (arith, (kid_of-IsKid k h).less)))

-- Without its last slot the heap is one, even if that slot is written.
cut_last-IsHeap :
    (h : Heap) → IsHeap h → IsHeap (place (cut h h.heap_size) h.heap_size (h.slots h.heap_size))
unfolding place
cut_last-IsHeap h heap =
    let n = h.heap_size in
    let last = h.slots n in
    let slot : (i : ℕ) → i < n → (place (cut h n) n last).slots i ≡ h.slots i = λ i lt.
      let ne : i ≢ n = λ e. omega arith in
      slot_other (cut h n) n last i ne ∙ slot_other h n last i ne in
    record {
      ordered = λ i ge le.
          rw (slot (i / 2) (omega arith), slot i (omega arith)) (heap.ordered i ge (omega arith));
      indexed = λ i ge le.
          let ne = last_ne h heap i ge (omega arith) in
          ap (place (cut h n) n last).heap_idx (slot i (omega arith))
          ∙ idx_other (cut h n) n last (h.slots i) ne
          ∙ idx_other h n last (h.slots i) ne
          ∙ heap.indexed i ge (omega arith);
    }

shrunk-idx : (h : Heap) (c : ℕ) → (shrunk h c).heap_idx c ≡ h.heap_idx c
unfolding place write
shrunk-idx h c = ground arith

shrunk-slot : (h : Heap) (c : ℕ) → (shrunk h c).slots (h.heap_idx c) ≡ h.slots h.heap_size
unfolding place
shrunk-slot h c = slot_same h (h.heap_idx c) (h.slots h.heap_size)

-- The loop as `unregister` calls it.
shrunk_down-IsHeap :
    (h : Heap) (c : ℕ)
    → IsHeap h
    → Registered h c
    → (2 ≤ h.heap_idx c
        → h.active_time (h.slots (h.heap_idx c / 2)) ≤ h.active_time (h.slots h.heap_size))
    → IsHeap (shift_down_loop (h.heap_size - 1) (h.heap_idx c) (h.slots h.heap_size) (shrunk h c))
shrunk_down-IsHeap h c heap g parent =
    let k = h.heap_idx c in
    let last = h.slots h.heap_size in
    elim (ℕ_discrete k h.heap_size) [
      | yes e ↦
          let n = h.heap_size in
          subst (λ x. IsHeap (shift_down_loop (n - 1) x last (cut h x))) (sym e)
            (subst IsHeap
              (sym (
                shift_down_loop-outside (n - 1) n last (cut h n)
                  (omega (arith, g.above, g.inside, e)) (omega (arith, g.above, g.inside, e))))
              (cut_last-IsHeap h heap))
      | no ne ↦
          shift_down_loop-IsHeap (h.heap_size - 1) k last (shrunk h c)
            (shrunk-HasGap h c heap g parent ne) (omega (arith, g.above))
    ]

cut-Registered :
    (h : Heap) (k d : ℕ)
    → Registered h d
    → d ≢ h.slots h.heap_size
    → h.heap_idx d ≢ k
    → Registered (cut h k) d × ((cut h k).heap_idx d ≢ k)
unfolding place
cut-Registered h k d g not_last ne =
    let last = h.slots h.heap_size in
    let r = place-Registered_other h k last d g ne not_last in
    let e = idx_other h k last d not_last in
    let below : h.heap_idx d ≢ h.heap_size = λ q. not_last (sym g.there ∙ ap h.slots q) in
    (
      record { above = r.above; inside = rw e (omega (arith, below, g.inside)); there = r.there },
      λ q. ne (sym e ∙ q),
    )

shrunk_down-Registered :
    (h : Heap) (c d : ℕ)
    → Registered h c
    → Registered h d
    → d ≢ c
    → Registered
        (shift_down_loop (h.heap_size - 1) (h.heap_idx c) (h.slots h.heap_size) (shrunk h c))
        d
shrunk_down-Registered h c d own g ned =
    let k = h.heap_idx c in
    let n = h.heap_size in
    let last = h.slots n in
    let ne : h.heap_idx d ≢ k = λ q. ned (sym g.there ∙ ap h.slots q ∙ own.there) in
    elim (ℕ_discrete k n) [
      | yes e ↦
          let c_last : last ≡ c = ap h.slots (sym e) ∙ own.there in
          let not_last : d ≢ last = λ q. ned (q ∙ c_last) in
          let (r, above) = cut-Registered h n d g not_last (λ q. ne (q ∙ sym e)) in
          subst (λ x. Registered (shift_down_loop (n - 1) x last (cut h x)) d) (sym e)
            (subst (λ x. Registered x d)
              (sym (
                shift_down_loop-outside (n - 1) n last (cut h n)
                  (omega (arith, own.above, own.inside, e))
                  (omega (arith, own.above, own.inside, e))))
              (place-Registered_other (cut h n) n last d r above not_last))
      | no nk ↦
          let inside : k ≤ n - 1 = omega (arith, own.inside) in
          let (there, others) =
            shift_down_loop-Registered (n - 1) k last (shrunk h c) own.above inside in
          elim (ℕ_discrete d last) [
            | yes q ↦ subst (Registered (shift_down_loop (n - 1) k last (shrunk h c))) (sym q) there
            | no not_last ↦
                let (r, above) = cut-Registered h k d g not_last ne in others d r above not_last
          ]
    ]

-- `unregister` of a connection that a heap has succeeds and leaves a heap with one slot less and
-- with all the other connections, if the connection is the root or the parent of its slot is not
-- younger than the last connection, which comes to that slot.
pub unregister-IsHeap :
    (h : Heap) (c : ℕ)
    → IsHeap h
    → Registered h c
    → (2 ≤ h.heap_idx c
        → h.active_time (h.slots (h.heap_idx c / 2)) ≤ h.active_time (h.slots h.heap_size))
    → (h' : Heap) × (unregister h c ≡ some h')
      × IsHeap h'
      × (h'.heap_size ≡ h.heap_size - 1)
      × ((d : ℕ) → Registered h d → d ≢ c → Registered h' d)
unfolding unregister heap_shift_down place
unregister-IsHeap h c heap g parent =
    let n = h.heap_size - 1 in
    let s = shrunk h c in
    let P : Option Heap → Type 0 = λ r.
      (h' : Heap) × (r ≡ some h')
      × IsHeap h'
      × (h'.heap_size ≡ n)
      × ((d : ℕ) → Registered h d → d ≢ c → Registered h' d) in
    if_cases P (h.heap_size == 0) (λ e. absurd (ground (arith, g.above, g.inside)))
      (λ _.
        if_cases P (h.heap_size == 1)
          (λ e.
            let one : h.heap_size ≡ 1 = ground arith in
            let empty : IsHeap s = record {
              ordered = λ i ge le. absurd (omega (arith, one));
              indexed = λ i ge le. absurd (omega (arith, one));
            } in
            let only : (d : ℕ) → Registered h d → d ≢ c → Registered s d = λ d r ne.
              let q : h.heap_idx d ≡ h.heap_idx c =
                omega (arith, one, r.above, r.inside, g.above, g.inside) in
              absurd (ne (sym r.there ∙ ap h.slots q ∙ g.there)) in
            (s, refl, empty, refl, only))
          (λ e.
            let Q : Heap → Type 0 = λ h'.
              IsHeap h'
              × (h'.heap_size ≡ n)
              × ((d : ℕ) → Registered h d → d ≢ c → Registered h' d) in
            let (heap', size', others) =
              subst (λ x. Q (shift_down_loop n x (s.slots x) s)) (sym (shrunk-idx h c))
                (subst (λ y. Q (shift_down_loop n (h.heap_idx c) y s)) (sym (shrunk-slot h c))
                  (
                    shrunk_down-IsHeap h c heap g parent,
                    shift_down_loop-heap_size n (h.heap_idx c) (h.slots h.heap_size) s,
                    λ d r ne. shrunk_down-Registered h c d g r ne,
                  )) in
            (_, refl, heap', size', others)))
