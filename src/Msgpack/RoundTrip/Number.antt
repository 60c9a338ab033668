-- ===== src/Msgpack/RoundTrip/Number.antt =====
-- Integers: the bytes that the pack functions add, and what the unpack functions make of them.
use aerospike_common.Common.{
  ℕ, ◌+◌, ◌-◌, ◌*◌, ◌/◌, ◌%◌, ◌^◌, ◌<◌, ◌≡◌, ◌∙◌, List, [], ◌∷◌, ◌++◌, some, arith,
}
use aerospike_common.Common.{Bool, ltb, if◌then◌else◌, length, ℤ, pos, negsuc, to_unsigned}
use aerospike_common.Common.{bit_or, or_e0, low5_bits}
use aerospike_common.Msgpack.Packer.{
  Packer, Malloc, be16, be32, be64, pack_append, pack_byte, pack_type_uint8, pack_type_uint16,
  pack_type_uint32, pack_type_uint64,
}
use aerospike_common.Msgpack.Pack.Number.{
  pack_uint64, pack_int64, as_pack_uint64_size, as_pack_int64_size,
}
use aerospike_common.Msgpack.Unpacker.{Unpacker, ok}
use aerospike_common.Msgpack.Unpacker.Reads.{
  At, advance, At-advance, next_byte-At, extract_uint16-At, extract_uint32-At, extract_uint64-At,
}
use aerospike_common.Msgpack.Unpack.Number.{as_unpack_uint64, as_unpack_int64, unpack_uint64_as}

-- The integers that an `int64_t` holds.
abbrev pub InInt64 : ℤ → Type 0
InInt64 (pos n) = n < 2 ^ 63
InInt64 (negsuc n) = n < 2 ^ 63

unfoldable pub uint64_bytes : ℕ → List ℕ
uint64_bytes v =
    if ltb v (2 ^ 7)
    then v % 2 ^ 8 ∷ []
    else if ltb v (2 ^ 8)
    then 0xcc ∷ v % 2 ^ 8 ∷ []
    else if ltb v (2 ^ 16)
    then 0xcd ∷ be16 (v % 2 ^ 16)
    else if ltb v (2 ^ 32)
    then 0xce ∷ be32 (v % 2 ^ 32)
    else 0xcf ∷ be64 v

unfoldable pub int64_bytes : ℤ → List ℕ
unfolding uint64_bytes
int64_bytes (pos n) = uint64_bytes n
int64_bytes (negsuc n) =
    let val : ℤ = negsuc n in
    if ltb n (2 ^ 5)
    then bit_or 0xe0 (31 - n) ∷ []
    else if ltb n (2 ^ 7)
    then 0xd0 ∷ to_unsigned 8 val ∷ []
    else if ltb n (2 ^ 15)
    then 0xd1 ∷ be16 (to_unsigned 16 val)
    else if ltb n (2 ^ 31)
    then 0xd2 ∷ be32 (to_unsigned 32 val)
    else 0xd3 ∷ be64 (to_unsigned 64 val)

pub be32_value :
    (v : ℕ)
    → v < 2 ^ 32
    → ((v / 2 ^ 16 / 2 ^ 8 % 2 ^ 8 * 2 ^ 8 + v / 2 ^ 16 % 2 ^ 8) * 2 ^ 8 + v / 2 ^ 8 % 2 ^ 8)
          * 2 ^ 8
        + v % 2 ^ 8
      ≡ v
be32_value v h = omega arith

module _ (malloc : Malloc) (pk : Packer) (resize : Bool) where
  pub pack_uint64-bytes :
      (v : ℕ) → pack_uint64 malloc pk v resize ≡ pack_append malloc pk (uint64_bytes v) resize
  unfolding pack_uint64 uint64_bytes pack_byte pack_type_uint8 pack_type_uint16 pack_type_uint32
      pack_type_uint64
  pack_uint64-bytes v = ground arith

  pub pack_int64-bytes :
      (v : ℤ) → pack_int64 malloc pk v resize ≡ pack_append malloc pk (int64_bytes v) resize
  unfolding pack_int64 int64_bytes pack_byte pack_type_uint8 pack_type_uint16 pack_type_uint32
      pack_type_uint64
  pack_int64-bytes (pos n) = pack_uint64-bytes n
  pack_int64-bytes (negsuc n) = ground arith

pub length-uint64_bytes : (v : ℕ) → length (uint64_bytes v) ≡ as_pack_uint64_size v
unfolding uint64_bytes as_pack_uint64_size
length-uint64_bytes v = ground arith

pub length-int64_bytes : (v : ℤ) → length (int64_bytes v) ≡ as_pack_int64_size v
unfolding int64_bytes as_pack_int64_size uint64_bytes as_pack_uint64_size
length-int64_bytes (pos n) = length-uint64_bytes n
length-int64_bytes (negsuc n) = ground arith

pub as_unpack_uint64-At :
    (up : Unpacker) (t : ℕ) {r : List ℕ}
    → At up (t ∷ r)
    → as_unpack_uint64 up ≡ unpack_uint64_as t (advance up 1)
unfolding as_unpack_uint64
as_unpack_uint64-At up t h = ground (arith, next_byte-At up h)

-- Two lines of the table of `as_unpack_uint64` for each width.
module _ (up : Unpacker) (r : List ℕ) where
  read_uint8 : (b : ℕ) → At up (0xcc ∷ b ∷ r) → as_unpack_uint64 up ≡ some (ok b, advance up 2)
  unfolding unpack_uint64_as
  read_uint8 b h =
      as_unpack_uint64-At up 0xcc h ∙ ground (arith, next_byte-At (advance up 1) (At-advance up h))

  read_uint16 :
      (v : ℕ)
      → v < 2 ^ 16
      → At up (0xcd ∷ be16 v ++ r)
      → as_unpack_uint64 up ≡ some (ok v, advance up 3)
  unfolding unpack_uint64_as
  read_uint16 v small h =
      as_unpack_uint64-At up 0xcd h
      ∙ ground (arith, extract_uint16-At (advance up 1) (At-advance up h))

  read_uint32 :
      (v : ℕ)
      → v < 2 ^ 32
      → At up (0xce ∷ be32 v ++ r)
      → as_unpack_uint64 up ≡ some (ok v, advance up 5)
  unfolding unpack_uint64_as
  read_uint32 v small h =
      as_unpack_uint64-At up 0xce h
      ∙ ground (arith, extract_uint32-At (advance up 1) (At-advance up h), be32_value v small)

  read_uint64 :
      (v : ℕ)
      → v < 2 ^ 64
      → At up (0xcf ∷ be64 v ++ r)
      → as_unpack_uint64 up ≡ some (ok v, advance up 9)
  unfolding unpack_uint64_as
  read_uint64 v small h =
      as_unpack_uint64-At up 0xcf h
      ∙ ground (
        arith,
        extract_uint64-At (advance up 1) (At-advance up h),
        be32_value (v / 2 ^ 32) (omega arith),
        be32_value (v % 2 ^ 32) (omega arith),
      )

  read_fixint :
      (v : ℕ) → v < 2 ^ 7 → At up (v ∷ r) → as_unpack_uint64 up ≡ some (ok v, advance up 1)
  unfolding unpack_uint64_as
  read_fixint v small h = as_unpack_uint64-At up v h ∙ ground arith

  pub read_uint64_bytes :
      (v : ℕ)
      → v < 2 ^ 64
      → At up (uint64_bytes v ++ r)
      → as_unpack_uint64 up ≡ some (ok v, advance up (as_pack_uint64_size v))
  unfolding uint64_bytes as_pack_uint64_size
  read_uint64_bytes v small h =
      ground (arith, read_uint8 v, read_uint16 v, read_uint32 v, read_uint64 v, read_fixint v)

  -- The patterns of the negative numbers, sign-extended.
  read_negative_fixint :
      (n : ℕ)
      → n < 2 ^ 5
      → At up (bit_or 0xe0 (31 - n) ∷ r)
      → as_unpack_uint64 up ≡ some (ok (2 ^ 64 - 1 - n), advance up 1)
  unfolding unpack_uint64_as
  read_negative_fixint n small h =
      let t : ℕ = bit_or 0xe0 (31 - n) in
      as_unpack_uint64-At up t h ∙ ground (arith, or_e0 (31 - n), low5_bits t)

  read_int8 :
      (n : ℕ)
      → n < 2 ^ 7
      → At up (0xd0 ∷ (to_unsigned 8 (negsuc n)) ∷ r)
      → as_unpack_uint64 up ≡ some (ok (2 ^ 64 - 1 - n), advance up 2)
  unfolding unpack_uint64_as
  read_int8 n small h =
      as_unpack_uint64-At up 0xd0 h ∙ ground (arith, next_byte-At (advance up 1) (At-advance up h))

  read_int16 :
      (n : ℕ)
      → n < 2 ^ 15
      → At up (0xd1 ∷ be16 (to_unsigned 16 (negsuc n)) ++ r)
      → as_unpack_uint64 up ≡ some (ok (2 ^ 64 - 1 - n), advance up 3)
  unfolding unpack_uint64_as
  read_int16 n small h =
      as_unpack_uint64-At up 0xd1 h
      ∙ ground (arith, extract_uint16-At (advance up 1) (At-advance up h))

  read_int32 :
      (n : ℕ)
      → n < 2 ^ 31
      → At up (0xd2 ∷ be32 (to_unsigned 32 (negsuc n)) ++ r)
      → as_unpack_uint64 up ≡ some (ok (2 ^ 64 - 1 - n), advance up 5)
  unfolding unpack_uint64_as
  read_int32 n small h =
      as_unpack_uint64-At up 0xd2 h
      ∙ ground (
        arith,
        extract_uint32-At (advance up 1) (At-advance up h),
        be32_value (to_unsigned 32 (negsuc n)) (omega arith),
      )

  read_int64 :
      (n : ℕ)
      → n < 2 ^ 63
      → At up (0xd3 ∷ be64 (to_unsigned 64 (negsuc n)) ++ r)
      → as_unpack_uint64 up ≡ some (ok (2 ^ 64 - 1 - n), advance up 9)
  unfolding unpack_uint64_as
  read_int64 n small h =
      let v : ℕ = to_unsigned 64 (negsuc n) in
      as_unpack_uint64-At up 0xd3 h
      ∙ ground (
        arith,
        extract_uint64-At (advance up 1) (At-advance up h),
        be32_value (v / 2 ^ 32) (omega arith),
        be32_value (v % 2 ^ 32) (omega arith),
      )

  pub read_negative_bytes :
      (n : ℕ)
      → n < 2 ^ 63
      → At up (int64_bytes (negsuc n) ++ r)
      → as_unpack_uint64 up ≡ some (ok (2 ^ 64 - 1 - n), advance up (as_pack_int64_size (negsuc n)))
  unfolding int64_bytes as_pack_int64_size
  read_negative_bytes n small h =
      ground (arith, read_negative_fixint n, read_int8 n, read_int16 n, read_int32 n, read_int64 n)

  pub read_int64_bytes :
      (v : ℤ)
      → InInt64 v
      → At up (int64_bytes v ++ r)
      → as_unpack_int64 up ≡ some (ok v, advance up (as_pack_int64_size v))
  unfolding as_unpack_int64
  read_int64_bytes (pos n) small h =
      unfold int64_bytes as_pack_int64_size in ground (arith, read_uint64_bytes n (omega arith) h)
  read_int64_bytes (negsuc n) small h = ground (arith, read_negative_bytes n small h)
