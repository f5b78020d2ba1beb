-- ===== src/Map/Linked.antt =====
-- An insertion behind the first slot of a chain.
use sy_server.Base.{
  lt→ltb, none, ℕ, suc, ◌≤◌, ◌<◌, ◌≡◌, ◌≢◌, refl, sym, ap, ◌∙◌, subst, ◌==◌, some, List, [], ◌∷◌,
  if_cases, ==→eq, ne→==, if◌then◌else◌, arith,
}
use sy_server.Memory.{Memory, Str}
use sy_server.Map.{Slot, Map, head_of, at_slot, map_put}
use sy_server.Map.Chains.{
  Tail, Chain, insert_second, Tail-congr, Chain-congr, at_slot_other, at_slot_same,
}

module _ {V : Type 0} where
  -- The slots behind the insertion into a chain with `first` as its first slot.
  abbrev with_new : Map V → Slot V → Str → V → ℕ → Slot V
  with_new map first key val =
      at_slot map.slots map.cur (record { key = key; val = val; next = first.next })

  abbrev relinked : Map V → Slot V → Slot V
  relinked map first = record first { next = some map.cur }

  abbrev pub linked : Map V → ℕ → Slot V → Str → V → ℕ → Slot V
  linked map s first key val = at_slot (with_new map first key val) s (relinked map first)

  pub put-linked :
      (m : Memory) (map : Map V) (key : Str) (val : V)
      → 0 < (map.slots (head_of m map key)).key.addr
      → head_of m map key < map.cur
      → map.cur < map.max_size
      → map_put m map key val
        ≡ some (record map {
          cur = suc map.cur;
          slots = linked map (head_of m map key) (map.slots (head_of m map key)) key val;
        })
  unfolding map_put
  put-linked m map key val pos lt room =
      let s = head_of m map key in
      let slot = map.slots s in
      let new_slot : Slot V = record { key = key; val = val; next = slot.next } in
      rw (ne→== slot.key.addr 0 (omega arith)) (
        rw (lt→ltb map.cur map.max_size room) (
          ap
            (λ (x : Slot V). some (record map {
              cur = suc map.cur;
              slots =
                  at_slot (at_slot map.slots map.cur new_slot) s (record x { next = some map.cur });
            }))
            (at_slot_other map.slots map.cur new_slot s (omega arith))))

  pub put-full :
      (m : Memory) (map : Map V) (key : Str) (val : V)
      → 0 < (map.slots (head_of m map key)).key.addr
      → map.max_size ≤ map.cur
      → map_put m map key val ≡ none
  unfolding map_put
  put-full m map key val pos full = ground arith

  linked_other :
      (map : Map V) (s : ℕ) (first : Slot V) (key : Str) (val : V) (x : ℕ)
      → x ≢ s
      → x ≢ map.cur
      → linked map s first key val x ≡ map.slots x
  linked_other map s first key val x ne ne' =
      at_slot_other (with_new map first key val) s (relinked map first) x ne
      ∙ at_slot_other map.slots map.cur (record { key = key; val = val; next = first.next }) x ne'

  linked_new :
      (map : Map V) (s : ℕ) (first : Slot V) (key : Str) (val : V)
      → map.cur ≢ s
      → linked map s first key val map.cur ≡ record { key = key; val = val; next = first.next }
  linked_new map s first key val ne =
      at_slot_other (with_new map first key val) s (relinked map first) map.cur ne
      ∙ at_slot_same map.slots map.cur (record { key = key; val = val; next = first.next })

  linked_head :
      (map : Map V) (s : ℕ) (es : List (Str × V)) (key : Str) (val : V)
      → 0 < (map.slots s).key.addr
      → map.size ≤ map.cur
      → s < map.size
      → Chain map.slots map.size map.cur s es
      → Chain
          (linked map s (map.slots s) key val)
          map.size
          (suc map.cur)
          s
          (insert_second (key, val) es)
  linked_head map s [] key val used behind lt (a, n) = absurd (omega arith)
  linked_head map s ((k, v) ∷ es) key val used behind lt (pk, ek, ev, t) =
      let first = map.slots s in
      let slots' = linked map s first key val in
      let kept =
        Tail-congr es map.slots slots' map.size map.cur (suc map.cur) first.next
          (λ x ge lt'. linked_other map s first key val x (omega arith) (omega arith)) (omega arith)
          t in
      let new = linked_new map s first key val (omega arith) in
      let behind_it =
        subst
          (λ (x : Slot V).
            (x.key ≡ key) × (x.val ≡ val) × Tail slots' map.size (suc map.cur) x.next es)
          (sym new) (refl, refl, kept) in
      let (bk, bv, bt) = behind_it in
      subst
        (λ (x : Slot V).
          (0 < k.addr)
          × (x.key ≡ k)
          × (x.val ≡ v)
          × Tail slots' map.size (suc map.cur) x.next ((key, val) ∷ es))
        (sym (at_slot_same (with_new map first key val) s (relinked map first)))
        (pk, ek, ev, (map.cur, refl, behind, omega arith, bk, bv, bt))

  pub linked-Chain :
      (map : Map V) (s b : ℕ) (es : List (Str × V)) (key : Str) (val : V)
      → 0 < (map.slots s).key.addr
      → map.size ≤ map.cur
      → s < map.size
      → b < map.size
      → Chain map.slots map.size map.cur b es
      → Chain
          (linked map s (map.slots s) key val)
          map.size
          (suc map.cur)
          b
          (if b == s then insert_second (key, val) es else es)
  linked-Chain map s b es key val used behind lt below chain =
      let slots' = linked map s (map.slots s) key val in
      if_cases (Chain slots' map.size (suc map.cur) b) (b == s)
        (λ e.
          subst (λ x. Chain slots' map.size (suc map.cur) x (insert_second (key, val) es))
            (sym (==→eq b s e))
            (linked_head map s es key val used behind lt
              (subst (λ x. Chain map.slots map.size map.cur x es) (==→eq b s e) chain)))
        (λ e.
          Chain-congr es map.slots slots' map.size map.cur (suc map.cur) b
            (linked_other map s (map.slots s) key val b (ground arith) (omega arith))
            (λ x ge lt'. linked_other map s (map.slots s) key val x (omega arith) (omega arith))
            (omega arith) chain)
