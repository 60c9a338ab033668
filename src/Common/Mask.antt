-- ===== src/Common/Mask.antt =====
-- The mask of the two highest bits of a 32-bit word, from the digit recursion of `bit_and`.
use Prim.Native.Nat.{
  ℕ, zero, suc, ◌+◌, ◌%◌, ◌*◌, ◌/◌, ◌^◌, ◌≤◌, ◌<◌, min, bit_and, digits, bit_and-bitwise,
}
use mathlib.Core.Path.{◌≡◌, refl, ◌∙◌, ap}
use native.Mathlib.Omega.{arith}
use native.Mathlib.Decide.{dec_le}
use aerospike_common.Common.Bits.{low2_bits}

-- What `bit_and` stands for, with the fuel of its recursion.
abbrev fuelled : ℕ → ℕ → ℕ → ℕ
fuelled k x y = digits (λ rest. zero) min k x y

-- Fuel beyond the first number changes nothing.
spare_fuel : (k x y : ℕ) → x ≤ k → fuelled (suc k) x y ≡ fuelled k x y
spare_fuel k zero y le = spare_zero k y
  where
    spare_zero : (k y : ℕ) → fuelled (suc k) zero y ≡ fuelled k zero y
    spare_zero zero y = refl
    spare_zero (suc k) y = refl
spare_fuel zero (suc x) y le = absurd (omega arith)
spare_fuel (suc k) (suc x) y le = omega (arith, spare_fuel k (suc x / 2) (y / 2) (omega arith))

fuelled-eq-bit_and : (k x y : ℕ) → x ≤ k → fuelled k x y ≡ bit_and x y
fuelled-eq-bit_and zero zero y le = omega (arith, bit_and-bitwise 0 y)
fuelled-eq-bit_and zero (suc x) y le = absurd (omega arith)
fuelled-eq-bit_and (suc k) x y le = elim (dec_le x k) [
  | yes under ↦ spare_fuel k x y under ∙ fuelled-eq-bit_and k x y under
  | no over ↦ at_top k x y (omega arith)
]
  where
    at_top : (k x y : ℕ) → x ≡ suc k → fuelled (suc k) x y ≡ bit_and x y
    at_top k x y e = rw e (omega (arith, bit_and-bitwise (suc k) y))

-- A mask with a zero as its lowest bit.
bit_and-double : (a m : ℕ) → bit_and a (m * 2) ≡ bit_and (a / 2) m * 2
bit_and-double zero m = omega (arith, bit_and-bitwise 0 (m * 2), bit_and-bitwise 0 m)
bit_and-double (suc x) m = omega (
  arith,
  bit_and-bitwise (suc x) (m * 2),
  fuelled-eq-bit_and x (suc x / 2) (m * 2 / 2) (omega arith),
  ap (bit_and (suc x / 2)) (halve m),
)
  where
    halve : (m : ℕ) → m * 2 / 2 ≡ m
    halve m = omega arith

doubles : ℕ → ℕ → ℕ
doubles zero m = m
doubles (suc k) m = doubles k m * 2

halves : ℕ → ℕ → ℕ
halves zero a = a
halves (suc k) a = halves k (a / 2)

bit_and-doubles : (k a m : ℕ) → bit_and a (doubles k m) ≡ doubles k (bit_and (halves k a) m)
unfolding doubles halves
bit_and-doubles zero a m = refl
bit_and-doubles (suc k) a m =
    bit_and-double a (doubles k m) ∙ ap (λ (t : ℕ). t * 2) (bit_and-doubles k (a / 2) m)

halves_30 : (a : ℕ) → halves 30 a ≡ a / 2 ^ 30
unfolding halves
halves_30 a = omega arith

pub high2_bits32 : (a : ℕ) → a < 2 ^ 32 → bit_and a 0xC0000000 ≡ a / 2 ^ 30 * 2 ^ 30
unfolding doubles
high2_bits32 a h =
    bit_and-doubles 30 a 3 ∙ rw (halves_30 a, low2_bits (a / 2 ^ 30) (omega arith)) (omega arith)

bit_and-step : (a m : ℕ) → bit_and a m ≡ bit_and (a / 2) (m / 2) * 2 + min (a % 2) (m % 2)
bit_and-step zero m = omega (arith, bit_and-bitwise 0 m, bit_and-bitwise 0 (m / 2))
bit_and-step (suc x) m =
    omega (arith, bit_and-bitwise (suc x) m, fuelled-eq-bit_and x (suc x / 2) (m / 2) (omega arith))

fuelled_nothing : (k x : ℕ) → fuelled k x 0 ≡ 0
fuelled_nothing zero x = refl
fuelled_nothing (suc k) zero = refl
fuelled_nothing (suc k) (suc x) = omega (arith, fuelled_nothing k (suc x / 2))

pub low2_word : (a : ℕ) → bit_and a 3 ≡ a % 4
low2_word a = omega (
  arith,
  bit_and-step a 3,
  bit_and-step (a / 2) 1,
  fuelled-eq-bit_and (a / 2 / 2) (a / 2 / 2) 0 (omega arith),
  fuelled_nothing (a / 2 / 2) (a / 2 / 2),
)
