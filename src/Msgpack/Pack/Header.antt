-- ===== src/Msgpack/Pack/Header.antt =====
-- The headers of lists, maps and extension values, and their sizes.
use aerospike_common.Common.{ℕ, ◌+◌, ◌^◌, ◌%◌, Bool, false, ltb, ◌==◌, ◌||◌, if◌then◌else◌, bit_or}
use aerospike_common.Common.{List, [], some, ℤ}
use aerospike_common.Msgpack.Packer.{
  Packer, Malloc, and_then, pack_append, pack_byte, pack_type_uint8,
}
use aerospike_common.Msgpack.Packer.{pack_type_uint16, pack_type_uint32}

unfoldable pub as_pack_list_header_get_size : ℕ → ℕ
as_pack_list_header_get_size ele_count =
    if ltb ele_count 16 then 1 else if ltb ele_count (2 ^ 16) then 3 else 5

unfoldable pub as_pack_map_header_get_size : ℕ → ℕ
unfolding as_pack_list_header_get_size
as_pack_map_header_get_size ele_count = as_pack_list_header_get_size ele_count

unfoldable pub as_pack_ext_header_get_size : ℕ → ℕ
as_pack_ext_header_get_size content_size =
    if content_size == 1
      || (content_size == 2 || (content_size == 4 || (content_size == 8 || content_size == 16)))
    then 1 + 1
    else if ltb content_size (2 ^ 8)
    then 1 + 1 + 1
    else if ltb content_size (2 ^ 16)
    then 1 + 2 + 1
    else 1 + 4 + 1

module _ (malloc : Malloc) where
  unfoldable pub as_pack_list_header : Packer → ℕ → ℤ × Packer
  as_pack_list_header pk ele_count =
      if ltb ele_count 16
      then pack_byte malloc pk (bit_or 0x90 ele_count) false
      else if ltb ele_count (2 ^ 16)
      then pack_type_uint16 malloc pk 0xdc (ele_count % 2 ^ 16) false
      else pack_type_uint32 malloc pk 0xdd ele_count false

  unfoldable pub pack_map_header_internal : Packer → ℕ → Bool → ℤ × Packer
  pack_map_header_internal pk ele_count resize =
      if ltb ele_count 16
      then pack_byte malloc pk (bit_or 0x80 ele_count) resize
      else if ltb ele_count (2 ^ 16)
      then pack_type_uint16 malloc pk 0xde (ele_count % 2 ^ 16) resize
      else pack_type_uint32 malloc pk 0xdf ele_count resize

  unfoldable pub as_pack_map_header : Packer → ℕ → ℤ × Packer
  unfolding pack_map_header_internal
  as_pack_map_header pk ele_count = pack_map_header_internal pk ele_count false

  -- The part of the ext header that gives the size.
  unfoldable pub pack_ext_size : Packer → ℕ → Bool → ℤ × Packer
  pack_ext_size pk content_size resize =
      if content_size == 1
      then pack_byte malloc pk 0xd4 resize
      else if content_size == 2
      then pack_byte malloc pk 0xd5 resize
      else if content_size == 4
      then pack_byte malloc pk 0xd6 resize
      else if content_size == 8
      then pack_byte malloc pk 0xd7 resize
      else if content_size == 16
      then pack_byte malloc pk 0xd8 resize
      else if ltb content_size (2 ^ 8)
      then pack_type_uint8 malloc pk 0xc7 (content_size % 2 ^ 8) resize
      else if ltb content_size (2 ^ 16)
      then pack_type_uint16 malloc pk 0xc8 (content_size % 2 ^ 16) resize
      else pack_type_uint32 malloc pk 0xc9 content_size resize

  unfoldable pub pack_ext_header_internal : Packer → ℕ → ℕ → Bool → ℤ × Packer
  unfolding pack_ext_size
  pack_ext_header_internal pk content_size type resize =
      and_then (pack_ext_size pk content_size resize) (λ pk'. pack_byte malloc pk' type resize)

  unfoldable pub as_pack_ext_header : Packer → ℕ → ℕ → ℤ × Packer
  unfolding pack_ext_header_internal
  as_pack_ext_header pk content_size type = pack_ext_header_internal pk content_size type false

  -- The packer over `buf` is returned with the result, since the function writes through it.
  unfoldable pub as_pack_buf_ext_header : List ℕ → ℕ → ℕ → ℕ → ℤ × Packer
  unfolding as_pack_ext_header
  as_pack_buf_ext_header buf size content_size type =
      as_pack_ext_header (record { entries = []; buffer = some buf; offset = 0; capacity = size })
        content_size type

  unfoldable pub as_pack_append : Packer → List ℕ → ℤ × Packer
  as_pack_append pk buf = pack_append malloc pk buf false
