-- ===== src/Map/Put.antt =====
-- `sy_map_put` on the entries.
use sy_server.Base.{
  ℕ, suc, ◌-◌, ◌≤◌, ◌<◌, ◌≡◌, refl, sym, ap, subst, ◌==◌, none, List, [], ◌∷◌, length, if_cases,
  Bool-cases, inl, inr, ==→eq, ◌⊎◌, Option, some, dec_lt, if◌then◌else◌, arith,
}
use native.Mathlib.Nat.{mod-lt}
use sy_server.Memory.{Memory, Str}
use sy_server.Map.{Slot, Map, head_of, at_slot, string_hash, map_put}
use sy_server.Map.Chains.{
  Chain, Represents, insert_second, with_entry, Chain-congr, at_slot_other, at_slot_same,
}
use sy_server.Map.Linked.{linked, put-linked, put-full, linked-Chain}

-- A free slot with the key.
abbrev taken : {V : Type 0} → Slot V → Str → V → Slot V
taken slot key val = record slot { key = key; val = val }

module _ {V : Type 0} where
  put-free :
      (m : Memory) (map : Map V) (key : Str) (val : V)
      → (map.slots (head_of m map key)).key.addr ≡ 0
      → map_put m map key val
        ≡ some (record map {
          slots =
              at_slot map.slots (head_of m map key) (taken (map.slots (head_of m map key)) key val);
        })
  unfolding map_put
  put-free m map key val e = rw e

  free_head :
      (slots : ℕ → Slot V) (lo hi s : ℕ) (es : List (Str × V)) (key : Str) (val : V)
      → 0 < key.addr
      → (slots s).key.addr ≡ 0
      → Chain slots lo hi s es
      → Chain (at_slot slots s (taken (slots s) key val)) lo hi s (insert_second (key, val) es)
  free_head slots lo hi s [] key val pos free (a, n) =
      subst (λ (x : Slot V). (0 < key.addr) × (x.key ≡ key) × (x.val ≡ val) × (x.next ≡ none))
        (sym (at_slot_same slots s (taken (slots s) key val))) (pos, refl, refl, n)
  free_head slots lo hi s ((k, v) ∷ es) key val pos free (pk, e, _, _) =
      let at : (slots s).key.addr ≡ k.addr = ap (λ (x : Str). x.addr) e in absurd (omega arith)

  free-Chain :
      (map : Map V) (s b : ℕ) (es : List (Str × V)) (key : Str) (val : V)
      → 0 < key.addr
      → (map.slots s).key.addr ≡ 0
      → s < map.size
      → b < map.size
      → Chain map.slots map.size map.cur b es
      → Chain
          (at_slot map.slots s (taken (map.slots s) key val))
          map.size
          map.cur
          b
          (if b == s then insert_second (key, val) es else es)
  free-Chain map s b es key val pos free lt below chain =
      let slot = taken (map.slots s) key val in
      let slots' = at_slot map.slots s slot in
      if_cases (Chain slots' map.size map.cur b) (b == s)
        (λ e.
          subst (λ x. Chain slots' map.size map.cur x (insert_second (key, val) es))
            (sym (==→eq b s e))
            (free_head map.slots map.size map.cur s es key val pos free
              (subst (λ x. Chain map.slots map.size map.cur x es) (==→eq b s e) chain)))
        (λ e.
          Chain-congr es map.slots slots' map.size map.cur map.cur b
            (at_slot_other map.slots s slot b (ground arith))
            (λ x ge _. at_slot_other map.slots s slot x (omega arith)) (omega arith) chain)

  insert-length :
      (e : Str × V) (es : List (Str × V)) → length (insert_second e es) ≡ suc (length es)
  insert-length e [] = refl
  insert-length e (e0 ∷ es) = refl

  -- In a chain whose first slot is free there is nothing.
  free_empty :
      (slots : ℕ → Slot V) (lo hi s : ℕ) (es : List (Str × V))
      → (slots s).key.addr ≡ 0
      → Chain slots lo hi s es
      → length es ≡ 0
  free_empty slots lo hi s [] free chain = refl
  free_empty slots lo hi s ((k, v) ∷ es) free (pk, e, _, _) =
      let at : (slots s).key.addr ≡ k.addr = ap (λ (x : Str). x.addr) e in absurd (omega arith)

  free-Represents :
      (map : Map V) (f : ℕ → List (Str × V)) (s : ℕ) (key : Str) (val : V)
      → Represents map f
      → 0 < key.addr
      → s < map.size
      → (map.slots s).key.addr ≡ 0
      → Represents
          (record map { slots = at_slot map.slots s (taken (map.slots s) key val) })
          (with_entry f s (key, val))
  free-Represents map f s key val rep pos lt free = record {
    some_slot = rep.some_slot;
    behind = rep.behind;
    chain = λ b below. free-Chain map s b (f b) key val pos free lt below (rep.chain b below);
    short = λ b below.
        if_cases (λ es. length es ≤ suc (map.cur - map.size)) (b == s)
          (λ e.
            let at = subst (λ x. (map.slots x).key.addr ≡ 0) (sym (==→eq b s e)) free in
            let nothing = free_empty map.slots map.size map.cur b (f b) at (rep.chain b below) in
            let one = insert-length (key, val) (f b) in omega arith)
          (λ _. rep.short b below);
  }

  linked-Represents :
      (map : Map V) (f : ℕ → List (Str × V)) (s : ℕ) (key : Str) (val : V)
      → Represents map f
      → s < map.size
      → 0 < (map.slots s).key.addr
      → Represents
          (record map { cur = suc map.cur; slots = linked map s (map.slots s) key val })
          (with_entry f s (key, val))
  linked-Represents map f s key val rep lt used = record {
    some_slot = rep.some_slot;
    behind = omega (arith, rep.behind);
    chain =
        λ b below. linked-Chain map s b (f b) key val used rep.behind lt below (rep.chain b below);
    short = λ b below.
        let old = rep.short b below in
        let more = rep.behind in
        if_cases (λ es. length es ≤ suc (suc map.cur - map.size)) (b == s)
          (λ _. let one = insert-length (key, val) (f b) in omega arith) (λ _. omega arith);
  }

  -- What an insertion into the chain of `s` does: it fails, where the chain needs a slot and none is
  -- left in the array, or the table has one more entry and used at most one more slot of the array.
  abbrev pub Put : Map V → (ℕ → List (Str × V)) → ℕ → Str × V → Option (Map V) → Type 0
  Put map f s entry none = (map.max_size ≤ map.cur) × (0 < (map.slots s).key.addr)
  Put map f s entry (some map') =
      Represents map' (with_entry f s entry)
      × (map'.size ≡ map.size)
      × (map'.max_size ≡ map.max_size)
      × (((map.slots s).key.addr ≡ 0) × (map'.cur ≡ map.cur)
          ⊎ (map.cur < map.max_size) × (map'.cur ≡ suc map.cur))

  -- `sy_map_put` of a key that is not NULL refines the insertion into a list of entries: in the chain
  -- of the key's hash the new entry comes behind the first one, the other chains keep theirs, and a
  -- slot is used behind the others only where the array has one left. If it has none and the chain
  -- has an entry, the slot would be written behind the array, and only then.
  pub map_put-Represents :
      (m : Memory) (map : Map V) (f : ℕ → List (Str × V)) (key : Str) (val : V)
      → Represents map f
      → 0 < key.addr
      → Put map f (head_of m map key) (key, val) (map_put m map key val)
  map_put-Represents m map f key val rep pos =
      let s = head_of m map key in
      let lt : s < map.size = mod-lt (string_hash m key) rep.some_slot in
      let Goal : Option (Map V) → Type 0 = Put map f s (key, val) in
      elim (Bool-cases ((map.slots s).key.addr == 0)) [
        | inl e ↦
            let free : (map.slots s).key.addr ≡ 0 = ==→eq (map.slots s).key.addr 0 e in
            subst Goal (sym (put-free m map key val free))
              (free-Represents map f s key val rep pos lt free, refl, refl, inl (free, refl))
        | inr e ↦
            let used : 0 < (map.slots s).key.addr = ground arith in
            let below : s < map.cur = omega (arith, rep.behind) in
            elim (dec_lt map.cur map.max_size) [
              | yes room ↦
                  subst Goal (sym (put-linked m map key val used below room))
                    (linked-Represents map f s key val rep lt used, refl, refl, inr (room, refl))
              | no full ↦
                  let le : map.max_size ≤ map.cur = omega arith in
                  subst Goal (sym (put-full m map key val used le)) (le, used)
            ]
      ]
