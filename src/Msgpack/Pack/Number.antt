-- ===== src/Msgpack/Pack/Number.antt =====
-- Nil, booleans, integers and floating-point numbers. A `float` or `double` is its bit pattern.
use aerospike_common.Common.{ℕ, ◌+◌, ◌-◌, ◌^◌, ◌%◌, Bool, false, ltb, if◌then◌else◌, bit_or}
use aerospike_common.Common.{[], ◌∷◌, ℤ, pos, negsuc, to_unsigned}
use aerospike_common.Msgpack.Packer.{Packer, Malloc, pack_append, pack_byte, pack_type_uint8}
use aerospike_common.Msgpack.Packer.{pack_type_uint16, pack_type_uint32, pack_type_uint64}

unfoldable pub as_pack_uint64_size : ℕ → ℕ
as_pack_uint64_size val =
    if ltb val (2 ^ 7)
    then 1
    else if ltb val (2 ^ 8)
    then 2
    else if ltb val (2 ^ 16)
    then 3
    else if ltb val (2 ^ 32)
    then 5
    else 9

-- `val >= -(1LL << k)` at `val = -(n + 1)` is `n < 2 ^ k`.
unfoldable pub as_pack_int64_size : ℤ → ℕ
as_pack_int64_size (pos n) = as_pack_uint64_size n
as_pack_int64_size (negsuc n) =
    if ltb n (2 ^ 5)
    then 1
    else if ltb n (2 ^ 7)
    then 1 + 1
    else if ltb n (2 ^ 15)
    then 1 + 2
    else if ltb n (2 ^ 31)
    then 1 + 4
    else 1 + 8

module _ (malloc : Malloc) where
  unfoldable pub pack_uint64 : Packer → ℕ → Bool → ℤ × Packer
  pack_uint64 pk val resize =
      if ltb val (2 ^ 7)
      then pack_byte malloc pk (val % 2 ^ 8) resize
      else if ltb val (2 ^ 8)
      then pack_type_uint8 malloc pk 0xcc (val % 2 ^ 8) resize
      else if ltb val (2 ^ 16)
      then pack_type_uint16 malloc pk 0xcd (val % 2 ^ 16) resize
      else if ltb val (2 ^ 32)
      then pack_type_uint32 malloc pk 0xce (val % 2 ^ 32) resize
      else pack_type_uint64 malloc pk 0xcf val resize

  -- At `val = -(n + 1)` the fixint's `val + 32` is `31 - n`.
  unfoldable pub pack_int64 : Packer → ℤ → Bool → ℤ × Packer
  pack_int64 pk (pos n) resize = pack_uint64 pk n resize
  pack_int64 pk (negsuc n) resize =
      let val : ℤ = negsuc n in
      if ltb n (2 ^ 5)
      then pack_byte malloc pk (bit_or 0xe0 (31 - n)) resize
      else if ltb n (2 ^ 7)
      then pack_type_uint8 malloc pk 0xd0 (to_unsigned 8 val) resize
      else if ltb n (2 ^ 15)
      then pack_type_uint16 malloc pk 0xd1 (to_unsigned 16 val) resize
      else if ltb n (2 ^ 31)
      then pack_type_uint32 malloc pk 0xd2 (to_unsigned 32 val) resize
      else pack_type_uint64 malloc pk 0xd3 (to_unsigned 64 val) resize

  unfoldable pub pack_double : Packer → ℕ → Bool → ℤ × Packer
  pack_double pk val resize = pack_type_uint64 malloc pk 0xcb val resize

  unfoldable pub pack_nil_internal : Packer → Bool → ℤ × Packer
  pack_nil_internal pk resize = pack_byte malloc pk 0xc0 resize

  unfoldable pub as_pack_nil : Packer → ℤ × Packer
  unfolding pack_nil_internal
  as_pack_nil pk = pack_nil_internal pk false

  unfoldable pub as_pack_bool : Packer → Bool → ℤ × Packer
  as_pack_bool pk val = pack_byte malloc pk (if val then 0xc3 else 0xc2) false

  unfoldable pub as_pack_inf_internal : Packer → Bool → ℤ × Packer
  as_pack_inf_internal pk resize = pack_append malloc pk (0xd4 ∷ 0xff ∷ 0x01 ∷ []) resize

  unfoldable pub as_pack_cmp_inf : Packer → ℤ × Packer
  unfolding as_pack_inf_internal
  as_pack_cmp_inf pk = as_pack_inf_internal pk false

  unfoldable pub as_pack_wildcard_internal : Packer → Bool → ℤ × Packer
  as_pack_wildcard_internal pk resize = pack_append malloc pk (0xd4 ∷ 0xff ∷ 0x00 ∷ []) resize

  unfoldable pub as_pack_cmp_wildcard : Packer → ℤ × Packer
  unfolding as_pack_wildcard_internal
  as_pack_cmp_wildcard pk = as_pack_wildcard_internal pk false

  unfoldable pub as_pack_uint64 : Packer → ℕ → ℤ × Packer
  unfolding pack_uint64
  as_pack_uint64 pk val = pack_uint64 pk val false

  unfoldable pub as_pack_int64 : Packer → ℤ → ℤ × Packer
  unfolding pack_int64
  as_pack_int64 pk val = pack_int64 pk val false

  unfoldable pub as_pack_float : Packer → ℕ → ℤ × Packer
  as_pack_float pk val = pack_type_uint32 malloc pk 0xca val false

  unfoldable pub as_pack_double : Packer → ℕ → ℤ × Packer
  unfolding pack_double
  as_pack_double pk val = pack_double pk val false
