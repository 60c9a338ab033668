-- ===== src/Common/Int.antt =====
-- Signed integers over the native numbers, under the library's names, and their two's complement.
use Prim.Native.Nat.{ℕ, ◌+◌, ◌-◌, ◌%◌, ◌^◌}
use mathlib.Core.Bool.{Bool, false}
use aerospike_common.Common.Tests.{ltb, ◌==◌, if◌then◌else◌}

-- `negsuc n` is -(n + 1).
pub data ℤ : Type 0 where
  pos : ℕ → ℤ
  negsuc : ℕ → ℤ

-- `rc == 0`
abbrev pub is_zero : ℤ → Bool
is_zero (pos n) = n == 0
is_zero (negsuc n) = false

-- The conversion of a signed integer to an unsigned type of `w` bits.
abbrev pub to_unsigned : ℕ → ℤ → ℕ
to_unsigned w (pos n) = n % 2 ^ w
to_unsigned w (negsuc n) = 2 ^ w - 1 - n % 2 ^ w

-- The integer that a pattern of `w` bits stands for.
abbrev pub to_signed : ℕ → ℕ → ℤ
to_signed w u = if ltb u (2 ^ (w - 1)) then pos u else negsuc (2 ^ w - u - 1)

-- `(uint64_t)(intw_t)u`: the pattern of `w` bits, sign-extended to 64.
abbrev pub sign_extend : ℕ → ℕ → ℕ
sign_extend w u = if ltb u (2 ^ (w - 1)) then u else u + 2 ^ 64 - 2 ^ w

abbrev pub eq_int : ℤ → ℤ → Bool
eq_int (pos m) (pos n) = m == n
eq_int (negsuc m) (negsuc n) = m == n
eq_int (pos m) (negsuc n) = false
eq_int (negsuc m) (pos n) = false
