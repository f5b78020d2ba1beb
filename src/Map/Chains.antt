-- ===== src/Map/Chains.antt =====
-- The table as a list of entries for each of the first `size` slots.
use sy_server.Base.{
  eq→==, ne→==, ℕ, suc, ◌-◌, ◌≤◌, ◌<◌, ◌≡◌, ◌≢◌, refl, sym, ap, ◌∙◌, subst, ◌==◌, Option, none,
  some, List, [], ◌∷◌, length, if◌then◌else◌, arith,
}
use sy_server.Memory.{Str}
use sy_server.Map.{Slot, Map, at_slot}

-- The entries from the pointer `p` on, in slots from `lo` to `hi`.
abbrev pub Tail : {V : Type 0} → (ℕ → Slot V) → ℕ → ℕ → Option ℕ → List (Str × V) → Type 0
Tail slots lo hi p [] = p ≡ none
Tail slots lo hi p ((key, val) ∷ es) =
    (s : ℕ) × (p ≡ some s)
    × (lo ≤ s)
    × (s < hi)
    × ((slots s).key ≡ key)
    × ((slots s).val ≡ val)
    × Tail slots lo hi (slots s).next es

-- The entries of the chain that begins in slot `b`.
abbrev pub Chain : {V : Type 0} → (ℕ → Slot V) → ℕ → ℕ → ℕ → List (Str × V) → Type 0
Chain slots lo hi b [] = ((slots b).key.addr ≡ 0) × ((slots b).next ≡ none)
Chain slots lo hi b ((key, val) ∷ es) =
    (0 < key.addr)
    × ((slots b).key ≡ key)
    × ((slots b).val ≡ val)
    × Tail slots lo hi (slots b).next es

-- The table has the entries `f b` in the chain of slot `b`.
pub record Represents {V : Type 0} (map : Map V) (f : ℕ → List (Str × V)) : Type 0 where
  pub some_slot : 0 < map.size
  pub behind : map.size ≤ map.cur
  pub chain : (b : ℕ) → b < map.size → Chain map.slots map.size map.cur b (f b)
  pub short : (b : ℕ) → b < map.size → length (f b) ≤ suc (map.cur - map.size)

-- A new entry comes behind the first one.
abbrev pub insert_second : {V : Type 0} → Str × V → List (Str × V) → List (Str × V)
insert_second e [] = e ∷ []
insert_second e (e0 ∷ es) = e0 ∷ e ∷ es

abbrev pub with_entry : {V : Type 0} → (ℕ → List (Str × V)) → ℕ → Str × V → ℕ → List (Str × V)
with_entry f h e b = if b == h then insert_second e (f b) else f b

module _ {V : Type 0} where
  pub Tail-congr :
      (es : List (Str × V)) (slots slots' : ℕ → Slot V) (lo hi hi' : ℕ) (p : Option ℕ)
      → ((x : ℕ) → lo ≤ x → x < hi → slots' x ≡ slots x)
      → hi ≤ hi'
      → Tail slots lo hi p es
      → Tail slots' lo hi' p es
  Tail-congr [] slots slots' lo hi hi' p same le t = t
  Tail-congr ((key, val) ∷ es) slots slots' lo hi hi' p same le (s, e, ge, lt, k, v, t) =
      let at = same s ge lt in
      let next = Tail-congr es slots slots' lo hi hi' (slots s).next same le t in
      (
        s,
        e,
        ge,
        omega arith,
        ap (λ (x : Slot V). x.key) at ∙ k,
        ap (λ (x : Slot V). x.val) at ∙ v,
        subst (λ (x : Slot V). Tail slots' lo hi' x.next es) (sym at) next,
      )

  pub Chain-congr :
      (es : List (Str × V)) (slots slots' : ℕ → Slot V) (lo hi hi' b : ℕ)
      → slots' b ≡ slots b
      → ((x : ℕ) → lo ≤ x → x < hi → slots' x ≡ slots x)
      → hi ≤ hi'
      → Chain slots lo hi b es
      → Chain slots' lo hi' b es
  Chain-congr [] slots slots' lo hi hi' b at same le (a, n) =
      (ap (λ (x : Slot V). x.key.addr) at ∙ a, ap (λ (x : Slot V). x.next) at ∙ n)
  Chain-congr ((key, val) ∷ es) slots slots' lo hi hi' b at same le (pos, k, v, t) =
      let next = Tail-congr es slots slots' lo hi hi' (slots b).next same le t in
      (
        pos,
        ap (λ (x : Slot V). x.key) at ∙ k,
        ap (λ (x : Slot V). x.val) at ∙ v,
        subst (λ (x : Slot V). Tail slots' lo hi' x.next es) (sym at) next,
      )

  pub at_slot_other :
      (slots : ℕ → Slot V) (s : ℕ) (slot : Slot V) (x : ℕ)
      → x ≢ s
      → at_slot slots s slot x ≡ slots x
  at_slot_other slots s slot x ne = ap (λ t. if t then slot else slots x) (ne→== x s ne)

  pub at_slot_same : (slots : ℕ → Slot V) (s : ℕ) (slot : Slot V) → at_slot slots s slot s ≡ slot
  at_slot_same slots s slot = ap (λ t. if t then slot else slots s) (eq→== s s refl)
