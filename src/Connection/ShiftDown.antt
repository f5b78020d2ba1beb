-- ===== src/Connection/ShiftDown.antt =====
-- The order of the heap under the loop of `heap_shift_down`.
use sy_server.Base.{
  ℕ, zero, suc, ◌+◌, ◌*◌, ◌/◌, ◌≤◌, ◌<◌, ◌≡◌, ◌≢◌, sym, ap, ◌∙◌, subst, true, false, ltb, leb, ◌&&◌,
  ◌||◌, if_cases, arith, ℕ_discrete,
}
use sy_server.Connection.Heap.{Heap, place, kid_of, shift_down_loop}
use sy_server.Connection.ShiftUp.{IsHeap, slot_same, slot_other, idx_same, idx_other, place-IsHeap}

-- A heap but for the slot `k`, whose parent and kids are in order, and whose parent is not younger
-- than `c`.
pub record HasGap (h : Heap) (k c : ℕ) : Type 0 where
  pub inside : (1 ≤ k) × (k ≤ h.heap_size)
  pub ordered :
      (i : ℕ)
      → 2 ≤ i
      → i ≤ h.heap_size
      → i ≢ k
      → i / 2 ≢ k
      → h.active_time (h.slots (i / 2)) ≤ h.active_time (h.slots i)
  pub above : 2 ≤ k → h.active_time (h.slots (k / 2)) ≤ h.active_time c
  pub across :
      (i : ℕ)
      → 2 ≤ i
      → i ≤ h.heap_size
      → i / 2 ≡ k
      → 2 ≤ k
      → h.active_time (h.slots (k / 2)) ≤ h.active_time (h.slots i)
  pub indexed : (i : ℕ) → 1 ≤ i → i ≤ h.heap_size → i ≢ k → h.heap_idx (h.slots i) ≡ i
  pub absent : (i : ℕ) → 1 ≤ i → i ≤ h.heap_size → i ≢ k → h.slots i ≢ c

-- `kid` is the older kid of `k`, if `k` has kids.
pub record IsKid (h : Heap) (k kid : ℕ) : Type 0 where
  pub half : kid / 2 ≡ k
  pub less : k * 2 ≤ kid
  pub inside : k * 2 ≤ h.heap_size → kid ≤ h.heap_size
  pub older :
      (i : ℕ)
      → i ≤ h.heap_size
      → i / 2 ≡ k
      → h.active_time (h.slots kid) ≤ h.active_time (h.slots i)

pub kid_of-IsKid : (k : ℕ) (h : Heap) → IsKid h k (kid_of k h)
kid_of-IsKid k h =
    if_cases (IsKid h k)
      (leb (k * 2 + 1) h.heap_size
        && ltb (h.active_time (h.slots (k * 2 + 1))) (h.active_time (h.slots (k * 2))))
      (λ e. record {
        half = omega arith;
        less = omega arith;
        inside = λ le. ground arith;
        older = λ i le f. elim (ℕ_discrete i (k * 2)) [
          | yes q ↦ rw q (ground arith)
          | no ne ↦ let q : i ≡ k * 2 + 1 = omega arith in rw q (omega arith)
        ];
      })
      (λ e. record {
        half = omega arith;
        less = omega arith;
        inside = λ le. le;
        older = λ i le f. elim (ℕ_discrete i (k * 2)) [
          | yes q ↦ rw q (omega arith)
          | no ne ↦ let q : i ≡ k * 2 + 1 = omega arith in rw q (ground arith)
        ];
      })

-- The older kid moves up, where `c` is not older than it, and the gap moves down.
module _ (h : Heap) (k c kid : ℕ) (gap : HasGap h k c) (is_kid : IsKid h k kid) where
  abbrev moved : Heap
  moved = place h k (h.slots kid)

  moved-here : (i : ℕ) → i ≡ k → moved.slots i ≡ h.slots kid
  moved-here i e = ap moved.slots e ∙ slot_same h k (h.slots kid)

  kid_ne : kid ≢ k
  kid_ne e = let (p, q) = gap.inside in omega (arith, is_kid.less)

  kid_ge : 2 ≤ kid
  kid_ge = let (p, q) = gap.inside in omega (arith, is_kid.less)

  moved-ordered :
      (i : ℕ)
      → 2 ≤ i
      → i ≤ h.heap_size
      → i ≢ kid
      → i / 2 ≢ kid
      → kid ≤ h.heap_size
      → h.active_time (moved.slots (i / 2)) ≤ h.active_time (moved.slots i)
  moved-ordered i ge le ne ne2 kid_le = elim (ℕ_discrete i k) [
    | yes e ↦
        let b = moved-here i e in
        let nk : i / 2 ≢ k = λ f. omega arith in
        let a = slot_other h k (h.slots kid) (i / 2) nk in
        rw (a, b)
          (subst (λ x. h.active_time (h.slots (x / 2)) ≤ h.active_time (h.slots kid)) (sym e)
            (gap.across kid kid_ge kid_le is_kid.half (omega arith)))
    | no nk ↦
        let b = slot_other h k (h.slots kid) i nk in
        elim (ℕ_discrete (i / 2) k) [
          | yes e ↦ let a = moved-here (i / 2) e in rw (a, b) (is_kid.older i le e)
          | no nk2 ↦
              let a = slot_other h k (h.slots kid) (i / 2) nk2 in
              rw (a, b) (gap.ordered i ge le nk nk2)
        ]
  ]

  moved-across :
      (i : ℕ)
      → 2 ≤ i
      → i ≤ h.heap_size
      → i / 2 ≡ kid
      → h.active_time (moved.slots (kid / 2)) ≤ h.active_time (moved.slots i)
  moved-across i ge le e =
      let nk : i ≢ k = λ f. let (p, q) = gap.inside in omega (arith, is_kid.less) in
      let nk2 : i / 2 ≢ k = λ f. kid_ne (sym e ∙ f) in
      let a = moved-here (kid / 2) is_kid.half in
      let b = slot_other h k (h.slots kid) i nk in
      rw (a, b)
        (subst (λ x. h.active_time (h.slots x) ≤ h.active_time (h.slots i)) e
          (gap.ordered i ge le nk nk2))

  moved-indexed :
      (i : ℕ)
      → 1 ≤ i
      → i ≤ h.heap_size
      → i ≢ kid
      → kid ≤ h.heap_size
      → moved.heap_idx (moved.slots i) ≡ i
  moved-indexed i pos_i le ne kid_le = elim (ℕ_discrete i k) [
    | yes e ↦ ap moved.heap_idx (moved-here i e) ∙ idx_same h k (h.slots kid) ∙ sym e
    | no nk ↦
        let own = gap.indexed i pos_i le nk in
        let other : h.slots i ≢ h.slots kid = λ e.
          ne (sym own ∙ ap h.heap_idx e ∙ gap.indexed kid (omega (arith, kid_ge)) kid_le kid_ne) in
        ap moved.heap_idx (slot_other h k (h.slots kid) i nk)
        ∙ idx_other h k (h.slots kid) (h.slots i) other
        ∙ own
  ]

  moved-absent : (i : ℕ) → 1 ≤ i → i ≤ h.heap_size → i ≢ kid → kid ≤ h.heap_size → moved.slots i ≢ c
  moved-absent i pos_i le ne kid_le in_i = elim (ℕ_discrete i k) [
    | yes e ↦ gap.absent kid (omega (arith, kid_ge)) kid_le kid_ne (sym (moved-here i e) ∙ in_i)
    | no nk ↦ gap.absent i pos_i le nk (sym (slot_other h k (h.slots kid) i nk) ∙ in_i)
  ]

  moved-HasGap :
      kid ≤ h.heap_size → h.active_time (h.slots kid) ≤ h.active_time c → HasGap moved kid c
  unfolding place
  moved-HasGap kid_le le = record {
    inside = (omega (arith, kid_ge), kid_le);
    ordered = λ i ge i_le ne ne2. moved-ordered i ge i_le ne ne2 kid_le;
    above = λ ge. let a = moved-here (kid / 2) is_kid.half in rw a le;
    across = λ i ge i_le e ge2. moved-across i ge i_le e;
    indexed = λ i pos_i i_le ne. moved-indexed i pos_i i_le ne kid_le;
    absent = λ i pos_i i_le ne. moved-absent i pos_i i_le ne kid_le;
  }

  -- Where `c` is older than the kid, or there is none, it fills the gap.
  gap-filled :
      (k * 2 ≤ h.heap_size → h.active_time c ≤ h.active_time (h.slots kid)) → IsHeap (place h k c)
  gap-filled le =
      place-IsHeap h k c
        (record {
          inside = gap.inside;
          ordered = gap.ordered;
          below = λ i ge i_le e.
              (omega (arith, le (omega arith), is_kid.older i i_le e), gap.across i ge i_le e);
          indexed = gap.indexed;
          absent = gap.absent;
        })
        gap.above

-- What the test of the loop says.
stops-older : (size kid t u : ℕ) → (ltb size kid || ltb t u) ≡ true → kid ≤ size → t ≤ u
stops-older size kid t u e le = ground arith

pub goes_on-younger :
    (size kid t u : ℕ) → (ltb size kid || ltb t u) ≡ false → (kid ≤ size) × (u ≤ t)
goes_on-younger size kid t u e = (ground arith, ground arith)

pub shift_down_loop-IsHeap :
    (n k c : ℕ) (h : Heap) → HasGap h k c → h.heap_size < k + n → IsHeap (shift_down_loop n k c h)
unfolding shift_down_loop
shift_down_loop-IsHeap zero k c h gap lt = let (p, q) = gap.inside in absurd (omega arith)
shift_down_loop-IsHeap (suc n) k c h gap lt =
    let kid = kid_of k h in
    let is_kid = kid_of-IsKid k h in
    if_cases IsHeap (ltb h.heap_size kid || ltb (h.active_time c) (h.active_time (h.slots kid)))
      (λ e.
        gap-filled h k c kid gap is_kid
          (λ le. stops-older h.heap_size kid _ _ e (is_kid.inside le)))
      (λ e.
        let (le, older) = goes_on-younger h.heap_size kid _ _ e in
        let (p, q) = gap.inside in
        shift_down_loop-IsHeap n kid c (place h k (h.slots kid))
          (moved-HasGap h k c kid gap is_kid le older) (omega (arith, is_kid.less)))
