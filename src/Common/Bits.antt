-- ===== src/Common/Bits.antt =====
-- Masks on one byte as arithmetic; each is a table checked by evaluation.
use Prim.Native.Nat.{ℕ, zero, suc, ◌+◌, ◌*◌, ◌/◌, ◌%◌, ◌<◌, bit_and, bit_or}
use mathlib.Core.Path.{◌≡◌, refl}
use mathlib.Core.Bool.{Bool, true, ◌&&◌}
use native.Mathlib.Omega.{arith}
use aerospike_common.Common.Tests.{◌==◌}

-- Two functions with the same values on the numbers under a limit.
module _ (f g : ℕ → ℕ) where
  unfoldable pub same_under : ℕ → Bool
  same_under zero = true
  same_under (suc limit) = f limit == g limit && same_under limit

  pub eq_of_same_under : (limit : ℕ) → same_under limit ≡ true → (b : ℕ) → b < limit → f b ≡ g b
  unfolding same_under
  eq_of_same_under zero table b lt = absurd (omega arith)
  eq_of_same_under (suc limit) table b lt = ground (arith, eq_of_same_under limit (ground arith) b)

pub low5_bits : (b : ℕ) → b < 256 → bit_and b 0x1f ≡ b % 32
unfolding same_under
low5_bits = eq_of_same_under (λ b. bit_and b 0x1f) (λ b. b % 32) 256 refl

pub low4_bits : (b : ℕ) → b < 256 → bit_and b 0x0f ≡ b % 16
unfolding same_under
low4_bits = eq_of_same_under (λ b. bit_and b 0x0f) (λ b. b % 16) 256 refl

pub high3_bits : (b : ℕ) → b < 256 → bit_and b 0xe0 ≡ b / 32 * 32
unfolding same_under
high3_bits = eq_of_same_under (λ b. bit_and b 0xe0) (λ b. b / 32 * 32) 256 refl

pub high4_bits : (b : ℕ) → b < 256 → bit_and b 0xf0 ≡ b / 16 * 16
unfolding same_under
high4_bits = eq_of_same_under (λ b. bit_and b 0xf0) (λ b. b / 16 * 16) 256 refl

pub or_e0 : (b : ℕ) → b < 32 → bit_or 0xe0 b ≡ 0xe0 + b
unfolding same_under
or_e0 = eq_of_same_under (λ b. bit_or 0xe0 b) (λ b. 0xe0 + b) 32 refl

pub or_a0 : (b : ℕ) → b < 32 → bit_or 0xa0 b ≡ 0xa0 + b
unfolding same_under
or_a0 = eq_of_same_under (λ b. bit_or 0xa0 b) (λ b. 0xa0 + b) 32 refl

pub or_90 : (b : ℕ) → b < 16 → bit_or 0x90 b ≡ 0x90 + b
unfolding same_under
or_90 = eq_of_same_under (λ b. bit_or 0x90 b) (λ b. 0x90 + b) 16 refl

pub or_80 : (b : ℕ) → b < 16 → bit_or 0x80 b ≡ 0x80 + b
unfolding same_under
or_80 = eq_of_same_under (λ b. bit_or 0x80 b) (λ b. 0x80 + b) 16 refl

pub low2_bits : (b : ℕ) → b < 4 → bit_and b 3 ≡ b
unfolding same_under
low2_bits = eq_of_same_under (λ b. bit_and b 3) (λ b. b) 4 refl
