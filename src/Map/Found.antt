-- ===== src/Map/Found.antt =====
-- `sy_map_get` on the entries.
use sy_server.Base.{
  ℕ, zero, suc, ◌-◌, ◌≤◌, ◌<◌, ◌≡◌, ◌≢◌, refl, ap, ◌∙◌, ◌==◌, Bool, true, false, Option, none, some,
  List, [], ◌∷◌, length, eq→==, ne→==, if◌then◌else◌, arith,
}
use native.Mathlib.Nat.{mod-lt}
use sy_server.Memory.{Memory, Str}
use sy_server.Strings.{string_eq}
use sy_server.Map.{value_in, Map, head_of, string_hash, walked, walk, map_get}
use sy_server.Map.Chains.{Tail, Chain, Represents}

-- What the comparison with an entry makes of the search, `rest` being that behind the entry.
abbrev pub matched : {V : Type 0} → Option Bool → V → Option (Option V) → Option (Option V)
matched none v rest = none
matched (some true) v rest = some (some v)
matched (some false) v rest = rest

-- The value of the first entry with an equal key.
unfoldable pub first_match : {V : Type 0} → Memory → Str → List (Str × V) → Option (Option V)
first_match m key [] = some none
first_match m key ((k, v) ∷ es) =
    let rest = first_match m key es in matched (string_eq m k key) v rest

module _ {V : Type 0} where
  value_in-walked :
      (map : Map V) (found : Option Bool) (s : ℕ) (rest : Option (Option ℕ))
      → value_in map (walked found s rest) ≡ matched found (map.slots s).val (value_in map rest)
  value_in-walked map none s rest = refl
  value_in-walked map (some true) s rest = refl
  value_in-walked map (some false) s rest = refl

  walk-cons :
      (es : List (Str × V)) (n : ℕ) (m : Memory) (map : Map V) (key : Str) (s : ℕ) (k : Str) (v : V)
      → (map.slots s).key ≡ k
      → (map.slots s).val ≡ v
      → value_in map (walk n m map key (map.slots s).next) ≡ first_match m key es
      → value_in map (walk (suc n) m map key (some s)) ≡ first_match m key ((k, v) ∷ es)
  unfolding walk first_match
  walk-cons es n m map key s k v ek ev rest =
      let behind = value_in map (walk n m map key (map.slots s).next) in
      value_in-walked map (string_eq m (map.slots s).key key) s
        (walk n m map key (map.slots s).next)
      ∙ ap (λ x. matched (string_eq m x key) (map.slots s).val behind) ek
      ∙ ap (λ x. matched (string_eq m k key) x behind) ev
      ∙ ap (matched (string_eq m k key) v) rest

  walk-first_match :
      (es : List (Str × V)) (n : ℕ) (m : Memory) (map : Map V) (key : Str) (lo hi : ℕ)
      (p : Option ℕ)
      → Tail map.slots lo hi p es
      → length es ≤ n
      → value_in map (walk n m map key p) ≡ first_match m key es
  unfolding walk first_match
  walk-first_match [] zero m map key lo hi p t le = ap (λ q. value_in map (walk 0 m map key q)) t
  walk-first_match [] (suc n) m map key lo hi p t le =
      ap (λ q. value_in map (walk (suc n) m map key q)) t
  walk-first_match ((k, v) ∷ es) zero m map key lo hi p t le = absurd (omega arith)
  walk-first_match ((k, v) ∷ es) (suc n) m map key lo hi p (s, at, ge, lt, ek, ev, t) le =
      ap (λ q. value_in map (walk (suc n) m map key q)) at
      ∙ walk-cons es n m map key s k v ek ev
          (walk-first_match es n m map key lo hi (map.slots s).next t (omega arith))

  map_get-walks :
      (m : Memory) (map : Map V) (key : Str) (free : Bool)
      → ((map.slots (head_of m map key)).key.addr == 0) ≡ free
      → map_get m map key ≡ (
          if free
          then some none
          else walk (suc (map.cur - map.size)) m map key (some (head_of m map key)))
  unfolding map_get
  map_get-walks m map key free e =
      ap
        (λ t.
          if t
          then some none
          else walk (suc (map.cur - map.size)) m map key (some (head_of m map key)))
        e

  -- `sy_map_get` finds the value of the first entry with an equal key in the chain of the key's hash,
  -- or NULL where there is none; its loop ends within the slots of the chain.
  pub map_get-first_match :
      (m : Memory) (map : Map V) (f : ℕ → List (Str × V)) (key : Str)
      → Represents map f
      → value_in map (map_get m map key) ≡ first_match m key (f (head_of m map key))
  unfolding first_match
  map_get-first_match m map f key rep =
      let s = head_of m map key in
      let lt : s < map.size = mod-lt (string_hash m key) rep.some_slot in
      go (f s) (rep.chain s lt) (rep.short s lt)
    where
      go :
          (es : List (Str × V))
          → Chain map.slots map.size map.cur (head_of m map key) es
          → length es ≤ suc (map.cur - map.size)
          → value_in map (map_get m map key) ≡ first_match m key es
      go [] (free, n) le = ap (value_in map) (map_get-walks m map key true (eq→== _ 0 free))
      go ((k, v) ∷ es) (pos, ek, ev, t) le =
          let s = head_of m map key in
          let rest =
            walk-first_match es (map.cur - map.size) m map key map.size map.cur (map.slots s).next t
              (omega arith) in
          let used : (map.slots s).key.addr ≢ 0 =
            λ e. let a = ap (λ (x : Str). x.addr) ek in omega arith in
          ap (value_in map) (map_get-walks m map key false (ne→== (map.slots s).key.addr 0 used))
          ∙ walk-cons es (map.cur - map.size) m map key s k v ek ev rest
