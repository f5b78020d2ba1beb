-- ===== src/Connection/ShiftUp.antt =====
-- The order of the heap, and how the loop of `heap_shift_up` makes it.
use sy_server.Base.{
  ℕ, zero, suc, ◌/◌, ◌≤◌, ◌<◌, ◌≡◌, ◌≢◌, sym, ap, ◌∙◌, subst, ltb, ◌&&◌, if_cases, arith,
  ℕ_discrete,
}
use sy_server.Memory.{write}
use sy_server.Connection.Heap.{Heap, place, shift_up_loop}

-- The connection in a slot is not younger than its parent, and knows its slot.
pub record IsHeap (h : Heap) : Type 0 where
  pub ordered :
      (i : ℕ)
      → 2 ≤ i
      → i ≤ h.heap_size
      → h.active_time (h.slots (i / 2)) ≤ h.active_time (h.slots i)
  pub indexed : (i : ℕ) → 1 ≤ i → i ≤ h.heap_size → h.heap_idx (h.slots i) ≡ i

-- A heap but for the slot `k`, into which `c` or its parent fits.
pub record HasHole (h : Heap) (k c : ℕ) : Type 0 where
  pub inside : (1 ≤ k) × (k ≤ h.heap_size)
  pub ordered :
      (i : ℕ)
      → 2 ≤ i
      → i ≤ h.heap_size
      → i ≢ k
      → i / 2 ≢ k
      → h.active_time (h.slots (i / 2)) ≤ h.active_time (h.slots i)
  pub below :
      (i : ℕ)
      → 2 ≤ i
      → i ≤ h.heap_size
      → i / 2 ≡ k
      → (h.active_time c ≤ h.active_time (h.slots i))
        × ((2 ≤ k) → h.active_time (h.slots (k / 2)) ≤ h.active_time (h.slots i))
  pub indexed : (i : ℕ) → 1 ≤ i → i ≤ h.heap_size → i ≢ k → h.heap_idx (h.slots i) ≡ i
  pub absent : (i : ℕ) → 1 ≤ i → i ≤ h.heap_size → i ≢ k → h.slots i ≢ c

pub slot_same : (h : Heap) (k c : ℕ) → (place h k c).slots k ≡ c
unfolding place write
slot_same h k c = ground arith

pub slot_other : (h : Heap) (k c i : ℕ) → i ≢ k → (place h k c).slots i ≡ h.slots i
unfolding place write
slot_other h k c i ne = ground arith

pub idx_same : (h : Heap) (k c : ℕ) → (place h k c).heap_idx c ≡ k
unfolding place write
idx_same h k c = ground arith

pub idx_other : (h : Heap) (k c d : ℕ) → d ≢ c → (place h k c).heap_idx d ≡ h.heap_idx d
unfolding place write
idx_other h k c d ne = ground arith

-- The connection fills the hole where its parent is not older.
place-ordered :
    (h : Heap) (k c : ℕ)
    → HasHole h k c
    → (2 ≤ k → h.active_time (h.slots (k / 2)) ≤ h.active_time c)
    → (i : ℕ) → 2 ≤ i
    → i ≤ h.heap_size
    → h.active_time ((place h k c).slots (i / 2)) ≤ h.active_time ((place h k c).slots i)
place-ordered h k c hole fits i ge le = elim (ℕ_discrete i k) [
  | yes e ↦
      let ne : i / 2 ≢ k = λ f. omega arith in
      let a = slot_other h k c (i / 2) ne in
      let b : (place h k c).slots i ≡ c = ap (place h k c).slots e ∙ slot_same h k c in
      rw (a, b)
        (subst (λ x. h.active_time (h.slots (x / 2)) ≤ h.active_time c) (sym e)
          (fits (omega arith)))
  | no ne ↦
      let b = slot_other h k c i ne in
      elim (ℕ_discrete (i / 2) k) [
        | yes e ↦
            let a : (place h k c).slots (i / 2) ≡ c = ap (place h k c).slots e ∙ slot_same h k c in
            rw (a, b) ((hole.below i ge le e).0)
        | no ne2 ↦ let a = slot_other h k c (i / 2) ne2 in rw (a, b) (hole.ordered i ge le ne ne2)
      ]
]

place-indexed :
    (h : Heap) (k c : ℕ)
    → HasHole h k c
    → (i : ℕ) → 1 ≤ i
    → i ≤ h.heap_size
    → (place h k c).heap_idx ((place h k c).slots i) ≡ i
place-indexed h k c hole i ge le = elim (ℕ_discrete i k) [
  | yes e ↦
      ap (place h k c).heap_idx (ap (place h k c).slots e ∙ slot_same h k c)
      ∙ idx_same h k c
      ∙ sym e
  | no ne ↦
      ap (place h k c).heap_idx (slot_other h k c i ne)
      ∙ idx_other h k c (h.slots i) (hole.absent i ge le ne)
      ∙ hole.indexed i ge le ne
]

pub place-IsHeap :
    (h : Heap) (k c : ℕ)
    → HasHole h k c
    → (2 ≤ k → h.active_time (h.slots (k / 2)) ≤ h.active_time c)
    → IsHeap (place h k c)
unfolding place
place-IsHeap h k c hole fits = record {
  ordered = place-ordered h k c hole fits;
  indexed = place-indexed h k c hole;
}

-- Otherwise the parent does, and the hole moves up. The next lemmas say what becomes of each slot.
module _ (h : Heap) (k c : ℕ) (hole : HasHole h k c) (ge : 2 ≤ k) where
  abbrev parent : ℕ
  parent = h.slots (k / 2)

  abbrev moved : Heap
  moved = place h k parent

  parent-here : (i : ℕ) → i ≡ k → moved.slots i ≡ parent
  parent-here i e = ap moved.slots e ∙ slot_same h k parent

  parent_ne : k / 2 ≢ k
  parent_ne e = omega arith

  parent_le : k / 2 ≤ h.heap_size
  parent_le = let (p, le) = hole.inside in omega arith

  moved-ordered :
      (i : ℕ)
      → 2 ≤ i
      → i ≤ h.heap_size
      → i ≢ k / 2
      → i / 2 ≢ k / 2
      → h.active_time (moved.slots (i / 2)) ≤ h.active_time (moved.slots i)
  moved-ordered i ge2 le ne ne2 =
      let nk : i ≢ k = λ e. ne2 (ap (λ x. x / 2) e) in
      let b = slot_other h k parent i nk in
      elim (ℕ_discrete (i / 2) k) [
        | yes e ↦ let a = parent-here (i / 2) e in rw (a, b) ((hole.below i ge2 le e).1 ge)
        | no no_kid ↦
            let a = slot_other h k parent (i / 2) no_kid in
            rw (a, b) (hole.ordered i ge2 le nk no_kid)
      ]

  moved-above : 2 ≤ k / 2 → h.active_time (moved.slots (k / 2 / 2)) ≤ h.active_time parent
  moved-above ge2 =
      let ne : k / 2 / 2 ≢ k = λ e. omega arith in
      let a = slot_other h k parent (k / 2 / 2) ne in
      rw a (hole.ordered (k / 2) ge2 parent_le parent_ne ne)

  moved-older :
      (i : ℕ)
      → 2 ≤ i
      → i ≤ h.heap_size
      → i / 2 ≡ k / 2
      → h.active_time parent ≤ h.active_time (moved.slots i)
  moved-older i ge2 le e = elim (ℕ_discrete i k) [
    | yes f ↦ let b = parent-here i f in rw b (omega arith)
    | no ne ↦
        let b = slot_other h k parent i ne in
        let no_kid : i / 2 ≢ k = λ f. parent_ne (sym e ∙ f) in
        rw b (
          subst (λ x. h.active_time (h.slots x) ≤ h.active_time (h.slots i)) e
            (hole.ordered i ge2 le ne no_kid))
  ]

  moved-indexed : (i : ℕ) → 1 ≤ i → i ≤ h.heap_size → i ≢ k / 2 → moved.heap_idx (moved.slots i) ≡ i
  moved-indexed i pos_i le ne = elim (ℕ_discrete i k) [
    | yes e ↦ ap moved.heap_idx (parent-here i e) ∙ idx_same h k parent ∙ sym e
    | no nk ↦
        let own = hole.indexed i pos_i le nk in
        let other : h.slots i ≢ parent = λ e.
          ne (sym own ∙ ap h.heap_idx e ∙ hole.indexed (k / 2) (omega arith) parent_le parent_ne) in
        ap moved.heap_idx (slot_other h k parent i nk)
        ∙ idx_other h k parent (h.slots i) other
        ∙ own
  ]

  moved-absent : (i : ℕ) → 1 ≤ i → i ≤ h.heap_size → i ≢ k / 2 → moved.slots i ≢ c
  moved-absent i pos_i le ne in_i = elim (ℕ_discrete i k) [
    | yes e ↦ hole.absent (k / 2) (omega arith) parent_le parent_ne (sym (parent-here i e) ∙ in_i)
    | no nk ↦ hole.absent i pos_i le nk (sym (slot_other h k parent i nk) ∙ in_i)
  ]

  moved-HasHole : h.active_time c < h.active_time parent → HasHole moved (k / 2) c
  unfolding place
  moved-HasHole lt = record {
    inside = (omega arith, parent_le);
    ordered = moved-ordered;
    below = λ i ge2 le e.
        let older = moved-older i ge2 le e in
        (omega (arith, older), λ ge3. omega (arith, older, moved-above ge3));
    indexed = moved-indexed;
    absent = moved-absent;
  }

pub shift_up_loop-IsHeap :
    (n k c : ℕ) (h : Heap) → HasHole h k c → k ≤ n → IsHeap (shift_up_loop n k c h)
unfolding shift_up_loop
shift_up_loop-IsHeap zero k c h hole le = let (p, q) = hole.inside in absurd (omega arith)
shift_up_loop-IsHeap (suc n) k c h hole le =
    if_cases IsHeap (ltb 0 (k / 2) && ltb (h.active_time c) (h.active_time (h.slots (k / 2))))
      (λ e.
        let ge : 2 ≤ k = ground arith in
        shift_up_loop-IsHeap n (k / 2) c (place h k (h.slots (k / 2)))
          (moved-HasHole h k c hole ge (ground arith)) (omega arith))
      (λ e. place-IsHeap h k c hole (λ ge. let pos_k : 0 < k / 2 = omega arith in ground arith))
