-- ===== src/Util.antt =====
-- src/util.h: the result codes of the functions, and `min` and `max`; and the conversion of C's
-- integers that several files use.
use sy_server.Base.{ℕ, ◌+◌, ◌-◌, ◌^◌, ltb, if◌then◌else◌}

pub data Code : Type 0 where
  ok again empty_line closed error : Code
  err_invalid_request err_invalid_method err_invalid_version err_internal_error : Code
  err_invalid_header err_invalid_uri err_unsupported_version err_nomem : Code

unfoldable pub min : ℕ → ℕ → ℕ
min x y = if ltb x y then x else y

unfoldable pub max : ℕ → ℕ → ℕ
max x y = if ltb y x then x else y

-- The `int` with the word `n` as a `size_t`.
abbrev pub to_size : ℕ → ℕ
to_size n = if ltb n (2 ^ 31) then n else n + (2 ^ 64 - 2 ^ 32)
