-- ===== src/Strings.antt =====
-- src/base/string.h and src/base/string.c: the strings, whose type is `Memory.Str`. A `char` is
-- signed, and a string in memory stays below the address 2 ^ 31.
pub mod Compare
pub mod RunsOn
pub mod Equal
use Prim.Native.String.{String}
use sy_server.Base.{length, codes}
use sy_server.Base.{
  ℕ, zero, suc, ◌+◌, ◌%◌, ◌^◌, ◌==◌, ◌||◌, ◌&&◌, Bool, true, false, ltb, ℤ, pos, negsuc, minus_one,
  Option, none, some, if◌then◌else◌,
}
use sy_server.Memory.{Memory, Str}

-- `SY_STRING_INIT` of a literal that is at the address which `literal` gives.
abbrev pub string_init : (String → ℕ) → String → Str
string_init literal text = record { addr = literal text; len = length (codes text) }

abbrev pub string_setto : ℕ → ℕ → Str
string_setto cstr len = record { addr = cstr; len = len }

abbrev pub string_end : Str → ℕ
string_end str = str.addr + str.len

-- The loop of `sy_string_find`, with `n` bytes left from `p`. The address 0 is NULL.
unfoldable pub find_loop : ℕ → Memory → ℕ → ℕ → ℕ
find_loop zero m p ch = 0
find_loop (suc n) m p ch = let rest = find_loop n m (suc p) ch in if m p == ch then p else rest

unfoldable pub string_find : Memory → Str → ℕ → ℕ
unfolding find_loop
string_find m str ch = find_loop str.len m str.addr ch

-- The order of signed bytes.
abbrev pub signed : ℕ → ℕ
signed ch = (ch + 128) % 256

-- What a round of `sy_string_cmp` and the code behind its loop make of the two bytes: a result, or
-- nothing yet.
unfoldable pub cmp_bytes : ℕ → ℕ → Option ℤ
cmp_bytes l r =
    if l == 0 || r == 0
    then if r == 0 && l == 0 then some (pos 0) else if r == 0 then some (pos 1) else some minus_one
    else if l == r
    then none
    else if ltb (signed r) (signed l)
    then some (pos 1)
    else some minus_one

-- The loop, for `n` bytes at most.
unfoldable pub cmp_loop : ℕ → Memory → ℕ → ℕ → Option ℤ
unfolding cmp_bytes
cmp_loop zero m l r = none
cmp_loop (suc n) m l r = elim (cmp_bytes (m l) (m r)) [
  | none ↦ cmp_loop n m (suc l) (suc r)
  | some result ↦ some result
]

unfoldable pub string_cmp : Memory → Str → Str → Option ℤ
unfolding cmp_loop
string_cmp m lhs rhs =
    if lhs.len == rhs.len && lhs.addr == rhs.addr
    then some (pos 0)
    else if lhs.addr == 0
    then some minus_one
    else if rhs.addr == 0
    then some (pos 1)
    else cmp_loop (2 ^ 31) m lhs.addr rhs.addr

abbrev pub is_zero : ℤ → Bool
is_zero (pos n) = n == 0
is_zero (negsuc n) = false

abbrev pub to_eq : Option ℤ → Option Bool
to_eq none = none
to_eq (some result) = some (is_zero result)

unfoldable pub string_eq : Memory → Str → Str → Option Bool
unfolding string_cmp
string_eq m lhs rhs = to_eq (string_cmp m lhs rhs)
