-- ===== src/Base64/Bytes.antt =====
-- The bytes that four characters from the table stand for.
use aerospike_common.Common.{
  ℕ, ◌+◌, ◌*◌, ◌/◌, ◌%◌, ◌<◌, ◌≡◌, refl, arith, bit_and, bit_or, if◌then◌else◌, same_under,
  eq_of_same_under, low4_bits, high4_bits, true,
}
use aerospike_common.Base64.{byte0, byte1, byte2, is_pad}
use aerospike_common.Base64.Tables.{ea, da, va}

da-ea : (k : ℕ) → k < 64 → da (ea k) ≡ k
unfolding same_under da ea
da-ea = eq_of_same_under (λ k. da (ea k)) (λ k. k) 64 refl

high6 : (b : ℕ) → b < 256 → bit_and b 0xfc ≡ b / 4 * 4
unfolding same_under
high6 = eq_of_same_under (λ b. bit_and b 0xfc) (λ b. b / 4 * 4) 256 refl

low2 : (b : ℕ) → b < 256 → bit_and b 0x03 ≡ b % 4
unfolding same_under
low2 = eq_of_same_under (λ b. bit_and b 0x03) (λ b. b % 4) 256 refl

high2 : (b : ℕ) → b < 256 → bit_and b 0xc0 ≡ b / 64 * 64
unfolding same_under
high2 = eq_of_same_under (λ b. bit_and b 0xc0) (λ b. b / 64 * 64) 256 refl

low6 : (b : ℕ) → b < 256 → bit_and b 0x3f ≡ b % 64
unfolding same_under
low6 = eq_of_same_under (λ b. bit_and b 0x3f) (λ b. b % 64) 256 refl

join2 : (k : ℕ) → k < 256 → bit_or (k / 4 * 4) (k % 4) ≡ k
unfolding same_under
join2 = eq_of_same_under (λ k. bit_or (k / 4 * 4) (k % 4)) (λ k. k) 256 refl

join4 : (k : ℕ) → k < 1024 → bit_or (k / 16 * 16) (k % 16) ≡ k
unfolding same_under
join4 = eq_of_same_under (λ k. bit_or (k / 16 * 16) (k % 16)) (λ k. k) 1024 refl

join6 : (k : ℕ) → k < 4096 → bit_or (k / 64 * 64) (k % 64) ≡ k
unfolding same_under
join6 = eq_of_same_under (λ k. bit_or (k / 64 * 64) (k % 64)) (λ k. k) 4096 refl

or_4 : (x y : ℕ) → x < 64 → y < 4 → bit_or (x * 4) y ≡ x * 4 + y
or_4 x y hx hy =
    let upper : (x * 4 + y) / 4 ≡ x = omega arith in
    let lower : (x * 4 + y) % 4 ≡ y = omega arith in
    rw (upper, lower) at (join2 (x * 4 + y) (omega arith))

or_16 : (x y : ℕ) → x < 64 → y < 16 → bit_or (x * 16) y ≡ x * 16 + y
or_16 x y hx hy =
    let upper : (x * 16 + y) / 16 ≡ x = omega arith in
    let lower : (x * 16 + y) % 16 ≡ y = omega arith in
    rw (upper, lower) at (join4 (x * 16 + y) (omega arith))

or_64 : (x y : ℕ) → x < 64 → y < 64 → bit_or (x * 64) y ≡ x * 64 + y
or_64 x y hx hy =
    let upper : (x * 64 + y) / 64 ≡ x = omega arith in
    let lower : (x * 64 + y) % 64 ≡ y = omega arith in
    rw (upper, lower) at (join6 (x * 64 + y) (omega arith))

module _ (j k : ℕ) (hj : j < 64) (hk : k < 64) where
  byte0-ea : byte0 (ea j) (ea k) ≡ j * 4 + k / 16
  unfolding byte0
  byte0-ea = rw (da-ea j hj, da-ea k hk) (omega (arith, or_4 j (k / 16) hj (omega arith)))

  byte1-ea : byte1 (ea j) (ea k) ≡ j % 16 * 16 + k / 4
  unfolding byte1
  byte1-ea = rw (da-ea j hj, da-ea k hk) (omega (arith, or_16 j (k / 4) hj (omega arith)))

  byte2-ea : byte2 (ea j) (ea k) ≡ j % 4 * 64 + k
  unfolding byte2
  byte2-ea = rw (da-ea j hj, da-ea k hk) (omega (arith, or_64 j k hj hk))

-- The indices into the table that the encoder takes from the bytes around a character.
sextet0 : (a : ℕ) → a < 256 → bit_and a 0xfc / 4 ≡ a / 4
sextet0 a h = omega (arith, high6 a h)

sextet1 :
    (a b : ℕ) → a < 256 → b < 256 → bit_and a 0x03 * 16 + bit_and b 0xf0 / 16 ≡ a % 4 * 16 + b / 16
sextet1 a b ha hb = omega (arith, low2 a ha, high4_bits b hb)

sextet2 :
    (b c : ℕ) → b < 256 → c < 256 → bit_and b 0x0f * 4 + bit_and c 0xc0 / 64 ≡ b % 16 * 4 + c / 64
sextet2 b c hb hc = omega (arith, low4_bits b hb, high2 c hc)

not_pad : (k : ℕ) → k < 64 → is_pad (ea k) ≡ 0
unfolding same_under ea
not_pad = eq_of_same_under (λ k. is_pad (ea k)) (λ k. 0) 64 refl

abbrev valid_bit : ℕ → ℕ
valid_bit c = if va c then 1 else 0

va_table : (k : ℕ) → k < 64 → valid_bit (ea k) ≡ 1
unfolding same_under ea va
va_table = eq_of_same_under (λ k. valid_bit (ea k)) (λ k. 1) 64 refl

pub va-ea : (k : ℕ) → k < 64 → va (ea k) ≡ true
va-ea k h = ground (arith, va_table k h)

-- A byte from the first two characters of a group, from the next two and from the last two.
module _ (a b c : ℕ) (ha : a < 256) (hb : b < 256) (hc : c < 256) where
  pub first_byte :
      byte0 (ea (bit_and a 0xfc / 4)) (ea (bit_and a 0x03 * 16 + bit_and b 0xf0 / 16)) ≡ a
  first_byte =
      rw (sextet0 a ha, sextet1 a b ha hb)
        (omega (arith, byte0-ea (a / 4) (a % 4 * 16 + b / 16) (omega arith) (omega arith)))

  pub second_byte :
      byte1
        (ea (bit_and a 0x03 * 16 + bit_and b 0xf0 / 16))
        (ea (bit_and b 0x0f * 4 + bit_and c 0xc0 / 64))
      ≡ b
  second_byte =
      rw (sextet1 a b ha hb, sextet2 b c hb hc)
        (omega
          (arith, byte1-ea (a % 4 * 16 + b / 16) (b % 16 * 4 + c / 64) (omega arith) (omega arith)))

  pub third_byte : byte2 (ea (bit_and b 0x0f * 4 + bit_and c 0xc0 / 64)) (ea (bit_and c 0x3f)) ≡ c
  third_byte =
      rw (sextet2 b c hb hc, low6 c hc)
        (omega (arith, byte2-ea (b % 16 * 4 + c / 64) (c % 64) (omega arith) (omega arith)))

-- The same where the bits that follow are 0.
pub only_byte : (a : ℕ) → a < 256 → byte0 (ea (bit_and a 0xfc / 4)) (ea (bit_and a 0x03 * 16)) ≡ a
only_byte a ha =
    rw (sextet0 a ha, low2 a ha)
      (omega (arith, byte0-ea (a / 4) (a % 4 * 16) (omega arith) (omega arith)))

pub last_byte :
    (a b : ℕ)
    → a < 256
    → b < 256
    → byte1 (ea (bit_and a 0x03 * 16 + bit_and b 0xf0 / 16)) (ea (bit_and b 0x0f * 4)) ≡ b
last_byte a b ha hb =
    rw (sextet1 a b ha hb, low4_bits b hb)
      (omega (arith, byte1-ea (a % 4 * 16 + b / 16) (b % 16 * 4) (omega arith) (omega arith)))

-- The characters before the padding are not `'='`.
pub third_char :
    (b c : ℕ) → b < 256 → c < 256 → is_pad (ea (bit_and b 0x0f * 4 + bit_and c 0xc0 / 64)) ≡ 0
third_char b c hb hc = rw (sextet2 b c hb hc) (not_pad (b % 16 * 4 + c / 64) (omega arith))

pub last_third_char : (b : ℕ) → b < 256 → is_pad (ea (bit_and b 0x0f * 4)) ≡ 0
last_third_char b hb = rw (low4_bits b hb) (not_pad (b % 16 * 4) (omega arith))

pub fourth_char : (c : ℕ) → c < 256 → is_pad (ea (bit_and c 0x3f)) ≡ 0
fourth_char c hc = rw (low6 c hc) (not_pad (c % 64) (omega arith))

-- Every character before the padding is a valid one.
pub first_valid : (a : ℕ) → a < 256 → va (ea (bit_and a 0xfc / 4)) ≡ true
first_valid a ha = rw (sextet0 a ha) (va-ea (a / 4) (omega arith))

pub second_valid :
    (a b : ℕ) → a < 256 → b < 256 → va (ea (bit_and a 0x03 * 16 + bit_and b 0xf0 / 16)) ≡ true
second_valid a b ha hb = rw (sextet1 a b ha hb) (va-ea (a % 4 * 16 + b / 16) (omega arith))

pub third_valid :
    (b c : ℕ) → b < 256 → c < 256 → va (ea (bit_and b 0x0f * 4 + bit_and c 0xc0 / 64)) ≡ true
third_valid b c hb hc = rw (sextet2 b c hb hc) (va-ea (b % 16 * 4 + c / 64) (omega arith))

pub fourth_valid : (c : ℕ) → c < 256 → va (ea (bit_and c 0x3f)) ≡ true
fourth_valid c hc = rw (low6 c hc) (va-ea (c % 64) (omega arith))

pub only_valid : (a : ℕ) → a < 256 → va (ea (bit_and a 0x03 * 16)) ≡ true
only_valid a ha = rw (low2 a ha) (va-ea (a % 4 * 16) (omega arith))

pub last_valid : (b : ℕ) → b < 256 → va (ea (bit_and b 0x0f * 4)) ≡ true
last_valid b hb = rw (low4_bits b hb) (va-ea (b % 16 * 4) (omega arith))
