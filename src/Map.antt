-- ===== src/Map.antt =====
-- src/base/map.h and src/base/map.c: a hash table of which every chain begins in the slot of its
-- hash and goes on in slots behind the first `size`, which `cur` hands out. A slot's pointer is its
-- index in `data`.
pub mod Chains
pub mod Linked
pub mod Put
pub mod Found
pub mod Absent
use sy_server.Base.{
  ℕ, zero, suc, ◌+◌, ◌-◌, ◌*◌, ◌%◌, ◌^◌, ◌==◌, Bool, true, false, ltb, Option, none, some, List, [],
  ◌∷◌, if◌then◌else◌,
}
use sy_server.Memory.{null_str, Memory, Str}
use sy_server.Strings.{string_eq}

-- A `char` as an `unsigned int`.
abbrev pub extended : ℕ → ℕ
extended ch = if ltb ch 128 then ch else ch + (2 ^ 32 - 256)

-- The loop of `sy_string_hash`, with `n` bytes left from `p`.
unfoldable pub hash_loop : ℕ → Memory → ℕ → ℕ → ℕ
hash_loop zero m p hash = hash
hash_loop (suc n) m p hash = hash_loop n m (suc p) ((hash * 31 + extended (m p)) % 2 ^ 32)

unfoldable pub string_hash : Memory → Str → ℕ
unfolding hash_loop
string_hash m str = hash_loop str.len m str.addr 0

pub record Slot {ℓ} (V : Type ℓ) : Type ℓ where
  pub key : Str
  pub val : V
  pub next : Option ℕ

pub record Map {ℓ} (V : Type ℓ) : Type ℓ where
  pub size : ℕ
  pub max_size : ℕ
  pub cur : ℕ
  pub slots : ℕ → Slot V

-- The slot of a key's hash.
abbrev pub head_of {ℓ} : {V : Type ℓ} → Memory → Map V → Str → ℕ
head_of m map key = string_hash m key % map.size

-- What a round makes of the comparison, `rest` being the next round.
abbrev pub walked : Option Bool → ℕ → Option (Option ℕ) → Option (Option ℕ)
walked none s rest = none
walked (some true) s rest = some (some s)
walked (some false) s rest = rest

-- The loop of `sy_map_get`, for `n` slots at most. Inside `some`, `none` is the pointer NULL.
unfoldable pub walk {ℓ} : {V : Type ℓ} → ℕ → Memory → Map V → Str → Option ℕ → Option (Option ℕ)
unfolding string_eq
walk n m map key none = some none
walk zero m map key (some s) = none
walk (suc n) m map key (some s) =
    let rest = walk n m map key (map.slots s).next in
    walked (string_eq m (map.slots s).key key) s rest

-- A chain has one slot of the first `size` ones, and the others are behind them.
unfoldable pub map_get {ℓ} : {V : Type ℓ} → Memory → Map V → Str → Option (Option ℕ)
unfolding walk string_hash
map_get m map key =
    let s = head_of m map key in
    if (map.slots s).key.addr == 0
    then some none
    else walk (suc (map.cur - map.size)) m map key (some s)

abbrev pub at_slot {ℓ} : {V : Type ℓ} → (ℕ → Slot V) → ℕ → Slot V → ℕ → Slot V
at_slot slots s slot x = if x == s then slot else slots x

-- A free slot takes the key, its `next` staying as it is. Else the new slot comes behind the first
-- one of the chain; where `data` has no slot left for it, it would be written behind the array, which
-- is `none`.
unfoldable pub map_put {ℓ} : {V : Type ℓ} → Memory → Map V → Str → V → Option (Map V)
unfolding string_hash
map_put {V = V} m map key val =
    let s = head_of m map key in
    let slot = map.slots s in
    if slot.key.addr == 0
    then some (record map { slots = at_slot map.slots s (record slot { key = key; val = val }) })
    else let new_slot : Slot V = record { key = key; val = val; next = slot.next } in
      let slots' = at_slot map.slots map.cur new_slot in
      if ltb map.cur map.max_size
      then some (record map {
        cur = suc map.cur;
        slots = at_slot slots' s (record (slots' s) { next = some map.cur });
      })
      else none

-- The rest of a loop behind a call of `map_put`.
abbrev pub behind_put {ℓ} :
    {V : Type ℓ} → (Map V → Option (Map V)) → Option (Map V) → Option (Map V)
behind_put rest none = none
behind_put rest (some map) = rest map

-- The loops of `sy_header_map_init` and `sy_mime_map_init`, over the rows of their tables.
unfoldable pub put_all {ℓ} : {V : Type ℓ} → Memory → Map V → List (Str × V) → Option (Map V)
unfolding map_put
put_all m map [] = some map
put_all m map ((key, val) ∷ rows) = behind_put (λ map'. put_all m map' rows) (map_put m map key val)

-- The value of the slot that has been found.
abbrev pub value_in {ℓ} : {V : Type ℓ} → Map V → Option (Option ℕ) → Option (Option V)
value_in map none = none
value_in map (some none) = some none
value_in map (some (some s)) = some (some (map.slots s).val)

-- A table in static memory, with `v` as the zero of the values.
abbrev pub empty_map {ℓ} : {V : Type ℓ} → V → ℕ → ℕ → Map V
empty_map v size max_size = record {
  size = size;
  max_size = max_size;
  cur = size;
  slots = λ s. record { key = null_str; val = v; next = none };
}
