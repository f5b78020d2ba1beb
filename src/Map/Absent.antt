-- ===== src/Map/Absent.antt =====
-- What is in no table.
use sy_server.Base.{
  ℕ, suc, ◌+◌, ◌≤◌, length, inl, inr, ◌<◌, ◌≡◌, refl, ap, ◌∙◌, ◌==◌, false, Option, none, some,
  List, [], ◌∷◌, if_cases, arith,
}
use sy_server.Memory.{Memory, Str}
use sy_server.Strings.{string_eq}
use sy_server.Strings.Compare.{IsCText, Without}
use sy_server.Strings.RunsOn.{RunsOn, string_eq-RunsOn}
use sy_server.Map.{empty_map, Map, behind_put, head_of, map_get, map_put, put_all, value_in}
use sy_server.Map.Chains.{Represents, insert_second, with_entry}
use sy_server.Map.Found.{first_match, matched, map_get-first_match}
use sy_server.Map.Put.{Put, map_put-Represents}

module _ {V : Type 0} where
  -- Every key has the property.
  abbrev pub AllKeys : (Str → Type 0) → List (Str × V) → Type 0
  AllKeys P [] = Unit {0}
  AllKeys P ((k, v) ∷ es) = P k × AllKeys P es

  pub AllKeys-map :
      (P Q : Str → Type 0) (es : List (Str × V))
      → ((k : Str) → P k → Q k)
      → AllKeys P es
      → AllKeys Q es
  AllKeys-map P Q [] f all = tt
  AllKeys-map P Q ((k, v) ∷ es) f (p, all) = (f k p, AllKeys-map P Q es f all)

  insert-AllKeys :
      (P : Str → Type 0) (k : Str) (v : V) (es : List (Str × V))
      → P k
      → AllKeys P es
      → AllKeys P (insert_second (k, v) es)
  insert-AllKeys P k v [] p all = (p, tt)
  insert-AllKeys P k v ((k0, v0) ∷ es) p (p0, all) = (p0, (p, all))

  with_entry-AllKeys :
      (P : Str → Type 0) (f : ℕ → List (Str × V)) (h : ℕ) (k : Str) (v : V)
      → P k
      → ((b : ℕ) → AllKeys P (f b))
      → (b : ℕ) → AllKeys P (with_entry f h (k, v) b)
  with_entry-AllKeys P f h k v p all b =
      if_cases (AllKeys P) (b == h) (λ _. insert-AllKeys P k v (f b) p (all b)) (λ _. all b)

  -- What the initialisation makes of a table, with `n` rows: one of some entries with the keys of
  -- the rows, if there are slots enough.
  abbrev Filled : (Str → Type 0) → Map V → ℕ → Option (Map V) → Type 0
  Filled P map n none = map.max_size < map.cur + n
  Filled P map n (some map') =
      (g : ℕ → List (Str × V)) × Represents map' g × ((b : ℕ) → AllKeys P (g b))

  Filled-suc :
      (P : Str → Type 0) (map map' : Map V) (n : ℕ) (result : Option (Map V))
      → map'.max_size ≡ map.max_size
      → map'.cur ≤ suc map.cur
      → Filled P map' n result
      → Filled P map (suc n) result
  Filled-suc P map map' n none same le filled = omega arith
  Filled-suc P map map' n (some _) same le filled = filled

  Put-Filled :
      (P : Str → Type 0) (map : Map V) (f : ℕ → List (Str × V)) (s : ℕ) (entry : Str × V) (n : ℕ)
      (rest : Map V → Option (Map V)) (result : Option (Map V))
      → Put map f s entry result
      → ((map' : Map V) → Represents map' (with_entry f s entry) → Filled P map' n (rest map'))
      → Filled P map (suc n) (behind_put rest result)
  Put-Filled P map f s entry n rest none (full, used) go = omega arith
  Put-Filled P map f s entry n rest (some map') (rep, size, same, inl (_, cur)) go =
      Filled-suc P map map' n (rest map') same (omega arith) (go map' rep)
  Put-Filled P map f s entry n rest (some map') (rep, size, same, inr (room, cur)) go =
      Filled-suc P map map' n (rest map') same (omega arith) (go map' rep)

  put_all-Filled :
      (P : Str → Type 0) (m : Memory) (rows : List (Str × V)) (map : Map V) (f : ℕ → List (Str × V))
      → ((k : Str) → P k → 0 < k.addr)
      → AllKeys P rows
      → Represents map f
      → ((b : ℕ) → AllKeys P (f b))
      → Filled P map (length rows) (put_all m map rows)
  unfolding put_all
  put_all-Filled P m [] map f valid ok rep all = (f, rep, all)
  put_all-Filled P m ((k, v) ∷ rows) map f valid (p, ok) rep all =
      Put-Filled P map f (head_of m map k) (k, v) (length rows) (λ map'. put_all m map' rows)
        (map_put m map k v) (map_put-Represents m map f k v rep (valid k p))
        (λ map' rep'.
          put_all-Filled P m rows map' (with_entry f (head_of m map k) (k, v)) valid ok rep'
            (with_entry-AllKeys P f (head_of m map k) k v p all))

  no_match :
      (m : Memory) (key : Str) (es : List (Str × V))
      → AllKeys (λ k. string_eq m k key ≡ some false) es
      → first_match m key es ≡ some none
  unfolding first_match
  no_match m key [] all = refl
  no_match m key ((k, v) ∷ es) (p, all) =
      ap (λ x. matched x v (first_match m key es)) p ∙ no_match m key es all

  nothing_in :
      (map : Map V) (found : Option (Option ℕ)) → value_in map found ≡ some none → found ≡ some none
  nothing_in map none e = cc
  nothing_in map (some none) e = refl
  nothing_in map (some (some s)) e = absurd (value_apart (map.slots s).val e)
    where
      value_apart : (v : V) → some (some v) ≡ some none → ⊥
      value_apart v e = cc

pub empty_map-Represents :
    {V : Type 0} (v : V) (size max_size : ℕ)
    → 0 < size
    → Represents (empty_map v size max_size) (λ b. [])
empty_map-Represents v size max_size lt = record {
  some_slot = lt;
  behind = omega arith;
  chain = λ b below. (refl, refl);
  short = λ b below. omega arith;
}

-- The key is a C string without `ch`.
abbrev pub IsKey : Memory → ℕ → Str → Type 0
IsKey m ch k = (text : List ℕ) × IsCText m k text × Without ch text

-- The initialised table, if there is one, does not have the key; else `short` holds.
abbrev pub IsMissing : {V : Type 0} → Memory → Str → Type 0 → Option (Map V) → Type 0
IsMissing m key short none = short
IsMissing m key short (some map) = map_get m map key ≡ some none

-- In a table that has been initialised with keys that are C strings without the byte `ch`, a string
-- that is followed in memory by `ch` is not found, whatever its text is: the name of a header, which
-- the parser leaves before its colon, is in no table of names. The initialisation writes behind the
-- array only if there are more rows than slots behind the first `size`.
pub put_all-RunsOn :
    {V : Type 0} (v : V) (size max_size : ℕ) (m0 m : Memory) (rows : List (Str × V)) (key : Str)
    (text : List ℕ) (ch : ℕ)
    → 0 < size
    → AllKeys (IsKey m ch) rows
    → RunsOn m key text ch
    → IsMissing m key (max_size < size + length rows) (put_all m0 (empty_map v size max_size) rows)
put_all-RunsOn {V} v size max_size m0 m rows key text ch lt ok on =
    go (put_all m0 (empty_map v size max_size) rows) (
      put_all-Filled (IsKey m ch) m0 rows (empty_map v size max_size) (λ b. [])
        (λ k is. is.1.not_null) ok (empty_map-Represents v size max_size lt) (λ b. tt))
  where
    other : (k : Str) → IsKey m ch k → string_eq m k key ≡ some false
    other k (t, is, without) = string_eq-RunsOn t text m k key ch is without on

    go :
        (result : Option (Map V))
        → Filled (IsKey m ch) (empty_map v size max_size) (length rows) result
        → IsMissing m key (max_size < size + length rows) result
    go none short = short
    go (some map) (g, rep, all) =
        let here = g (head_of m map key) in
        nothing_in map (map_get m map key) (
          map_get-first_match m map g key rep
          ∙ no_match m key here (
              AllKeys-map (IsKey m ch) (λ k. string_eq m k key ≡ some false) here other
                (all (head_of m map key))))
