-- ===== src/Connection/Activity.antt =====
-- `sy_connection_activate` and `sy_connection_expire` keep the heap.
use sy_server.Base.{
  ℕ, ◌-◌, ◌≤◌, ◌≡◌, ◌≢◌, refl, sym, ap, ◌∙◌, subst, true, false, arith, if◌then◌else◌, ◌==◌, Bool,
  ◌⊎◌, inl, inr, ℕ_discrete,
}
use sy_server.Memory.{write}
use sy_server.Memory.Bytes.{write_same}
use sy_server.Connection.Heap.{
  Heap, at_time, touch, activate, retire, expire, shift_up_loop, shift_down_loop, heap_shift_up,
  heap_shift_down,
}
use sy_server.Connection.ShiftUp.{IsHeap, shift_up_loop-IsHeap}
use sy_server.Connection.ShiftDown.{shift_down_loop-IsHeap}
use sy_server.Connection.NewTime.{write_ne, later-HasGap, sooner-HasHole}
use sy_server.Connection.Members.{
  Registered, shift_up_loop-Registered, shift_down_loop-Registered, shift_up_loop-active_time,
  shift_down_loop-active_time,
}

-- `h'` is the heap `h` with the time of `c` changed: in order, and with the same connections.
pub record Timed (h : Heap) (c time : ℕ) (h' : Heap) : Type 0 where
  pub is_heap : IsHeap h'
  pub kept : (d : ℕ) → Registered h d → Registered h' d
  pub times : h'.active_time ≡ (at_time h c time).active_time

-- `c` and the others are kept if the shift keeps them.
all_kept :
    (h h' : Heap) (c time : ℕ)
    → Registered h c
    → Registered h' c
    → ((d : ℕ)
        → Registered (at_time h c time) d
        → h.heap_idx d ≢ h.heap_idx c
        → d ≢ c
        → Registered h' d)
    → (d : ℕ) → Registered h d
    → Registered h' d
all_kept h h' c time own there others d g = elim (ℕ_discrete d c) [
  | yes e ↦ subst (Registered h') (sym e) there
  | no ne ↦
      others d (record { above = g.above; inside = g.inside; there = g.there })
        (λ q. ne (sym g.there ∙ ap h.slots q ∙ own.there)) ne
]

touch-Timed :
    (now c : ℕ) (h : Heap)
    → IsHeap h
    → Registered h c
    → h.active_time c ≤ now
    → Timed h c now (touch now c h)
unfolding touch heap_shift_down
touch-Timed now c h heap own le =
    let h1 = at_time h c now in
    let j = h.heap_idx c in
    let n = h.heap_size in
    let (there, others) = shift_down_loop-Registered n j c h1 own.above own.inside in
    subst (λ x. Timed h c now (shift_down_loop n j x h1)) (sym own.there)
      (record {
        is_heap =
            shift_down_loop-IsHeap n j c h1 (later-HasGap h c now heap own le)
              (omega (arith, own.above));
        kept = all_kept h _ c now own there others;
        times = shift_down_loop-active_time n j c h1;
      })

retire-Timed :
    (past c : ℕ) (h : Heap)
    → IsHeap h
    → Registered h c
    → past ≤ h.active_time c
    → Timed h c past (retire past c h)
unfolding retire heap_shift_up
retire-Timed past c h heap own le =
    let h1 = at_time h c past in
    let j = h.heap_idx c in
    let (there, others) = shift_up_loop-Registered j j c h1 own.above own.inside in
    subst (λ x. Timed h c past (shift_up_loop j j x h1)) (sym own.there)
      (record {
        is_heap = shift_up_loop-IsHeap j j c h1 (sooner-HasHole h c past heap own le) (omega arith);
        kept = all_kept h _ c past own there others;
        times = shift_up_loop-active_time j j c h1;
      })

-- `h'` is the heap `h` with the times of `c` and, if it is not 0, `upstream` set.
abbrev both_at : ℕ → ℕ → ℕ → Heap → ℕ → ℕ
both_at time upstream c h =
    if upstream == 0
    then (at_time h c time).active_time
    else write (at_time h c time).active_time upstream time

-- What the change of `c` and then of `upstream` makes of a heap.
unfoldable pub BothTimed : ℕ → ℕ → ℕ → Heap → Heap → Type 0
BothTimed time upstream c h h' =
    IsHeap h'
    × ((d : ℕ) → Registered h d → Registered h' d)
    × (h'.active_time ≡ both_at time upstream c h)

-- One change, or two.
in_turn :
    (time upstream c : ℕ) (h h1 h2 : Heap)
    → Timed h c time h1
    → (upstream ≢ 0 → Timed h1 upstream time h2)
    → BothTimed time upstream c h (if upstream == 0 then h1 else h2)
unfolding BothTimed
in_turn time upstream c h h1 h2 first second = go (upstream == 0) refl
  where
    go :
        (b : Bool)
        → (upstream == 0) ≡ b
        → IsHeap (if b then h1 else h2)
          × ((d : ℕ) → Registered h d → Registered (if b then h1 else h2) d)
          × ((if b then h1 else h2).active_time ≡ (
              if b
              then (at_time h c time).active_time
              else write (at_time h c time).active_time upstream time))
    go true e = (first.is_heap, first.kept, first.times)
    go false e =
        let later = second (λ q. ground (arith, q)) in
        (
          later.is_heap,
          λ d g. later.kept d (first.kept d g),
          later.times ∙ ap (λ f. write f upstream time) first.times,
        )

-- The time of `upstream` after that of `c` has changed.
time_of :
    (h h1 : Heap) (c time upstream : ℕ)
    → Timed h c time h1
    → (h1.active_time upstream ≡ time) ⊎ (h1.active_time upstream ≡ h.active_time upstream)
time_of h h1 c time upstream first = elim (ℕ_discrete upstream c) [
  | yes e ↦ inl (
      ap (λ f. f upstream) first.times
      ∙ ap (at_time h c time).active_time e
      ∙ write_same h.active_time c time)
  | no ne ↦ inr (ap (λ f. f upstream) first.times ∙ write_ne h.active_time c time upstream ne)
]

-- `activate` of a connection and its upstream, 0 for none, that a heap has with times not after the
-- clock, leaves a heap with all its connections, in which the two have the time of the clock and
-- the others their old times.
pub activate-IsHeap :
    (now upstream c : ℕ) (h : Heap)
    → IsHeap h
    → Registered h c
    → h.active_time c ≤ now
    → (upstream ≢ 0 → Registered h upstream × (h.active_time upstream ≤ now))
    → BothTimed now upstream c h (activate now upstream c h)
unfolding activate
activate-IsHeap now upstream c h heap own le up =
    let first = touch-Timed now c h heap own le in
    in_turn now upstream c h _ _ first (λ ne.
      let (own_up, le_up) = up ne in
      let le1 : (touch now c h).active_time upstream ≤ now =
        elim (time_of h _ c now upstream first) [
          | inl e ↦ omega (arith, e)
          | inr e ↦ omega (arith, e, le_up)
        ] in
      touch-Timed now upstream (touch now c h) first.is_heap (first.kept upstream own_up) le1)

-- `expire` of a connection and its upstream, 0 for none, that a heap has with times not before
-- `now - timeout - 1`, leaves a heap with all its connections, in which the two have that time and
-- the others their old times.
pub expire-IsHeap :
    (now timeout upstream c : ℕ) (h : Heap)
    → IsHeap h
    → Registered h c
    → now - timeout - 1 ≤ h.active_time c
    → (upstream ≢ 0 → Registered h upstream × (now - timeout - 1 ≤ h.active_time upstream))
    → BothTimed (now - timeout - 1) upstream c h (expire now timeout upstream c h)
unfolding expire
expire-IsHeap now timeout upstream c h heap own le up =
    let past = now - timeout - 1 in
    let first = retire-Timed past c h heap own le in
    in_turn past upstream c h _ _ first (λ ne.
      let (own_up, le_up) = up ne in
      let le1 : past ≤ (retire past c h).active_time upstream =
        elim (time_of h _ c past upstream first) [
          | inl e ↦ omega (arith, e)
          | inr e ↦ omega (arith, e, le_up)
        ] in
      retire-Timed past upstream (retire past c h) first.is_heap (first.kept upstream own_up) le1)
