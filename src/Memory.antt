-- ===== src/Memory.antt =====
-- The process' memory: a byte at each address, 0 being the null pointer. Addresses stay below
-- 2 ^ 31, so that a difference of pointers fits an `int`. `memcpy` and `memmove` are those of C;
-- `Str` is the `sy_string_t` of src/base/string.h.
pub mod Bytes
pub mod Holds
use sy_server.Base.{
  ℕ, zero, suc, ◌+◌, ◌-◌, Bool, true, false, ◌&&◌, List, [], ◌∷◌, leb, ltb, ◌==◌, if◌then◌else◌,
}

abbrev pub Memory : Type 0
Memory = ℕ → ℕ

-- `*a = v`
unfoldable pub write : Memory → ℕ → ℕ → Memory
write m a v x = if x == a then v else m x

-- `memmove(to, from, n)`, which reads all before it writes.
unfoldable pub memmove : Memory → ℕ → ℕ → ℕ → Memory
memmove m to from n x = if leb to x && ltb x (to + n) then m (from + (x - to)) else m x

-- A copy of the given bytes to address `a`, as the kernel makes it for `recv`.
unfoldable pub store : Memory → ℕ → List ℕ → Memory
unfolding write
store m a [] = m
store m a (v ∷ vs) = store (write m a v) (suc a) vs

-- The `n` bytes from address `a`.
abbrev pub bytes : Memory → ℕ → ℕ → List ℕ
bytes m a zero = []
bytes m a (suc n) = m a ∷ bytes m (suc a) n

pub record Str : Type 0 where
  pub addr : ℕ
  pub len : ℕ

-- `SY_STRING_NULL`, and what `sy_string_init` writes.
abbrev pub null_str : Str
null_str = record { addr = 0; len = 0 }
