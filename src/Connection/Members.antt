-- ===== src/Connection/Members.antt =====
-- Which connections the heap has: the loops lose none.
use sy_server.Base.{
  ℕ, zero, suc, ◌/◌, ◌≤◌, ◌≡◌, ◌≢◌, refl, sym, ap, ◌∙◌, subst, ltb, ◌&&◌, ◌||◌, if_cases, arith,
  ℕ_discrete,
}
use sy_server.Connection.Heap.{Heap, place, kid_of, shift_up_loop, shift_down_loop}
use sy_server.Connection.ShiftUp.{slot_same, slot_other, idx_same, idx_other}
use sy_server.Connection.ShiftDown.{kid_of-IsKid, goes_on-younger}

-- The connection `d` is in the heap, in the slot that it knows.
pub record Registered (h : Heap) (d : ℕ) : Type 0 where
  pub above : 1 ≤ h.heap_idx d
  pub inside : h.heap_idx d ≤ h.heap_size
  pub there : h.slots (h.heap_idx d) ≡ d

pub place-Registered_other :
    (h : Heap) (k c d : ℕ) → Registered h d → h.heap_idx d ≢ k → d ≢ c → Registered (place h k c) d
unfolding place
place-Registered_other h k c d g ne ned =
    let e = idx_other h k c d ned in
    record {
      above = rw e g.above;
      inside = rw e g.inside;
      there = ap (place h k c).slots e ∙ slot_other h k c (h.heap_idx d) ne ∙ g.there;
    }

place-Registered : (h : Heap) (k c : ℕ) → 1 ≤ k → k ≤ h.heap_size → Registered (place h k c) c
unfolding place
place-Registered h k c ge le =
    let e = idx_same h k c in
    record { above = rw e ge; inside = rw e le; there = ap (place h k c).slots e ∙ slot_same h k c }

-- Where the connection of slot `j` moves to `k`, no connection is lost, and none knows slot `j`.
moved-Registered :
    (h : Heap) (k j d : ℕ)
    → 1 ≤ k
    → k ≤ h.heap_size
    → j ≢ k
    → Registered h d
    → h.heap_idx d ≢ k
    → Registered (place h k (h.slots j)) d × ((place h k (h.slots j)).heap_idx d ≢ j)
moved-Registered h k j d ge le nj g ne =
    let moved = h.slots j in
    elim (ℕ_discrete d moved) [
      | yes f ↦
          let e : (place h k moved).heap_idx d ≡ k =
            ap (place h k moved).heap_idx f ∙ idx_same h k moved in
          (
            subst (Registered (place h k moved)) (sym f) (place-Registered h k moved ge le),
            λ q. nj (sym q ∙ e),
          )
      | no nf ↦ (
        place-Registered_other h k moved d g ne nf,
        λ q. nf (sym g.there ∙ ap h.slots (sym (idx_other h k moved d nf) ∙ q)),
      )
    ]

-- The loop loses none of the connections outside the hole, and adds `c`.
pub shift_up_loop-Registered :
    (n k c : ℕ) (h : Heap)
    → 1 ≤ k
    → k ≤ h.heap_size
    → Registered (shift_up_loop n k c h) c
      × ((d : ℕ) → Registered h d → h.heap_idx d ≢ k → d ≢ c → Registered (shift_up_loop n k c h) d)
unfolding shift_up_loop
shift_up_loop-Registered zero k c h ge le =
    (place-Registered h k c ge le, place-Registered_other h k c)
shift_up_loop-Registered (suc n) k c h ge le =
    let parent = h.slots (k / 2) in
    let P : Heap → Type 0 = λ g.
      Registered g c × ((d : ℕ) → Registered h d → h.heap_idx d ≢ k → d ≢ c → Registered g d) in
    if_cases P (ltb 0 (k / 2) && ltb (h.active_time c) (h.active_time parent))
      (λ e.
        let (own, others) =
          shift_up_loop-Registered n (k / 2) c (place h k parent) (ground arith) (omega arith) in
        (
          own,
          λ d g ne ned.
              let (there, above) = moved-Registered h k (k / 2) d ge le (λ q. omega arith) g ne in
              others d there above ned,
        ))
      (λ e. (place-Registered h k c ge le, place-Registered_other h k c))

pub shift_up_loop-heap_size :
    (n k c : ℕ) (h : Heap) → (shift_up_loop n k c h).heap_size ≡ h.heap_size
unfolding shift_up_loop place
shift_up_loop-heap_size zero k c h = refl
shift_up_loop-heap_size (suc n) k c h =
    if_cases (λ (g : Heap). g.heap_size ≡ h.heap_size)
      (ltb 0 (k / 2) && ltb (h.active_time c) (h.active_time (h.slots (k / 2))))
      (λ e. shift_up_loop-heap_size n (k / 2) c (place h k (h.slots (k / 2)))) (λ e. refl)

pub shift_down_loop-Registered :
    (n k c : ℕ) (h : Heap)
    → 1 ≤ k
    → k ≤ h.heap_size
    → Registered (shift_down_loop n k c h) c
      × ((d : ℕ)
          → Registered h d
          → h.heap_idx d ≢ k
          → d ≢ c
          → Registered (shift_down_loop n k c h) d)
unfolding shift_down_loop
shift_down_loop-Registered zero k c h ge le =
    (place-Registered h k c ge le, place-Registered_other h k c)
shift_down_loop-Registered (suc n) k c h ge le =
    let kid = kid_of k h in
    let is_kid = kid_of-IsKid k h in
    let P : Heap → Type 0 = λ g.
      Registered g c × ((d : ℕ) → Registered h d → h.heap_idx d ≢ k → d ≢ c → Registered g d) in
    if_cases P (ltb h.heap_size kid || ltb (h.active_time c) (h.active_time (h.slots kid)))
      (λ e. (place-Registered h k c ge le, place-Registered_other h k c))
      (λ e.
        let (inside, older) = goes_on-younger h.heap_size kid _ _ e in
        let (own, others) =
          shift_down_loop-Registered n kid c (place h k (h.slots kid)) (omega (arith, is_kid.less))
            inside in
        (
          own,
          λ d g ne ned.
              let ne_kid : kid ≢ k = λ q. omega (arith, is_kid.less) in
              let (there, above) = moved-Registered h k kid d ge le ne_kid g ne in
              others d there above ned,
        ))

pub shift_down_loop-heap_size :
    (n k c : ℕ) (h : Heap) → (shift_down_loop n k c h).heap_size ≡ h.heap_size
unfolding shift_down_loop place
shift_down_loop-heap_size zero k c h = refl
shift_down_loop-heap_size (suc n) k c h =
    let kid = kid_of k h in
    if_cases (λ (g : Heap). g.heap_size ≡ h.heap_size)
      (ltb h.heap_size kid || ltb (h.active_time c) (h.active_time (h.slots kid))) (λ e. refl)
      (λ e. shift_down_loop-heap_size n kid c (place h k (h.slots kid)))

pub shift_up_loop-active_time :
    (n k c : ℕ) (h : Heap) → (shift_up_loop n k c h).active_time ≡ h.active_time
unfolding shift_up_loop place
shift_up_loop-active_time zero k c h = refl
shift_up_loop-active_time (suc n) k c h =
    if_cases (λ (g : Heap). g.active_time ≡ h.active_time)
      (ltb 0 (k / 2) && ltb (h.active_time c) (h.active_time (h.slots (k / 2))))
      (λ e. shift_up_loop-active_time n (k / 2) c (place h k (h.slots (k / 2)))) (λ e. refl)

pub shift_down_loop-active_time :
    (n k c : ℕ) (h : Heap) → (shift_down_loop n k c h).active_time ≡ h.active_time
unfolding shift_down_loop place
shift_down_loop-active_time zero k c h = refl
shift_down_loop-active_time (suc n) k c h =
    let kid = kid_of k h in
    if_cases (λ (g : Heap). g.active_time ≡ h.active_time)
      (ltb h.heap_size kid || ltb (h.active_time c) (h.active_time (h.slots kid))) (λ e. refl)
      (λ e. shift_down_loop-active_time n kid c (place h k (h.slots kid)))
