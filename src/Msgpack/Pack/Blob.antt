-- ===== src/Msgpack/Pack/Blob.antt =====
-- Strings and byte arrays: a header with the size, a type byte where there is one, and the bytes.
use aerospike_common.Common.{ℕ, ◌^◌, ◌%◌, Bool, true, false, ltb, if◌then◌else◌, bit_or}
use aerospike_common.Common.{List, Option, none, some, ℤ, take, length, add32}
use aerospike_common.Msgpack.Packer.{
  Packer, Malloc, and_then, pack_append, pack_byte, pack_type_uint8,
}
use aerospike_common.Msgpack.Packer.{pack_type_uint16, pack_type_uint32}

-- `as_bytes_type` of as_bytes.h, as far as as_msgpack.c names it.
abbrev pub as_bytes_string : ℕ
as_bytes_string = 3

abbrev pub as_bytes_blob : ℕ
as_bytes_blob = 4

abbrev pub as_bytes_geojson : ℕ
as_bytes_geojson = 23

unfoldable pub as_pack_bin_size : ℕ → ℕ
as_pack_bin_size buf_sz =
    if ltb buf_sz (2 ^ 8)
    then add32 2 buf_sz
    else if ltb buf_sz (2 ^ 16)
    then add32 3 buf_sz
    else add32 5 buf_sz

unfoldable pub as_pack_str_size : ℕ → ℕ
unfolding as_pack_bin_size
as_pack_str_size str_sz = if ltb str_sz 32 then add32 1 str_sz else as_pack_bin_size str_sz

module _ (malloc : Malloc) where
  unfoldable pub pack_string_header : Packer → ℕ → Bool → ℤ × Packer
  pack_string_header pk size resize =
      if ltb size 32
      then pack_byte malloc pk (bit_or 0xa0 size) resize
      else if ltb size 256
      then pack_type_uint8 malloc pk 0xd9 (size % 2 ^ 8) resize
      else if ltb size 65536
      then pack_type_uint16 malloc pk 0xda (size % 2 ^ 16) resize
      else pack_type_uint32 malloc pk 0xdb size resize

  unfoldable pub pack_byte_array_header : Packer → ℕ → ℤ × Packer
  pack_byte_array_header pk size = pack_string_header pk size true

  -- A type byte behind a header, and the bytes behind it.
  tagged : ℤ × Packer → ℕ → List ℕ → ℤ × Packer
  tagged r type value =
      and_then (and_then r (λ pk. pack_byte malloc pk type true))
        (λ pk. pack_append malloc pk value true)

  -- The length is cast to `uint32_t`.
  unfoldable pub pack_string : Packer → List ℕ → ℤ × Packer
  unfolding tagged
  pack_string pk value =
      tagged (pack_string_header pk (add32 (length value) 1) true) as_bytes_string value

  unfoldable pub pack_geojson : Packer → List ℕ → ℤ × Packer
  unfolding tagged pack_byte_array_header
  pack_geojson pk value =
      tagged (pack_byte_array_header pk (add32 (length value) 1)) as_bytes_geojson value

  -- `pack_byte` takes the type as a `uint8_t`.
  unfoldable pub pack_bytes : Packer → ℕ → List ℕ → ℤ × Packer
  unfolding tagged pack_byte_array_header
  pack_bytes pk type value =
      tagged (pack_byte_array_header pk (add32 (length value) 1)) (type % 2 ^ 8) value

  -- The bytes may grow the buffer for the header and the type, and not for the contents.
  unfoldable pub as_pack_bytes : Packer → List ℕ → ℕ → ℤ × Packer
  unfolding pack_byte_array_header
  as_pack_bytes pk buf sz =
      and_then
        (and_then (pack_byte_array_header pk (add32 sz 1))
          (λ pk'. pack_byte malloc pk' as_bytes_blob true))
        (λ pk'. pack_append malloc pk' (take sz buf) false)

  -- `buf` is NULL (`none`) where only the header is wanted.
  unfoldable pub as_pack_str : Packer → Option (List ℕ) → ℕ → ℤ × Packer
  as_pack_str pk none sz = pack_string_header pk sz false
  as_pack_str pk (some buf) sz =
      and_then (pack_string_header pk sz false) (λ pk'. pack_append malloc pk' (take sz buf) false)

  unfoldable pub as_pack_str_with_type : Packer → ℕ → Option (List ℕ) → ℕ → ℤ × Packer
  as_pack_str_with_type pk type none sz = pack_string_header pk (add32 sz 1) false
  as_pack_str_with_type pk type (some buf) sz =
      and_then
        (and_then (pack_string_header pk (add32 sz 1) false)
          (λ pk'. pack_byte malloc pk' type false))
        (λ pk'. pack_append malloc pk' (take sz buf) false)

  unfoldable pub pack_bin_header : Packer → ℕ → ℤ × Packer
  pack_bin_header pk sz =
      if ltb sz (2 ^ 8)
      then pack_type_uint8 malloc pk 0xc4 (sz % 2 ^ 8) false
      else if ltb sz (2 ^ 16)
      then pack_type_uint16 malloc pk 0xc5 (sz % 2 ^ 16) false
      else pack_type_uint32 malloc pk 0xc6 sz false

  unfoldable pub as_pack_bin : Packer → Option (List ℕ) → ℕ → ℤ × Packer
  unfolding pack_bin_header
  as_pack_bin pk none sz = pack_bin_header pk sz
  as_pack_bin pk (some buf) sz =
      and_then (pack_bin_header pk sz) (λ pk'. pack_append malloc pk' (take sz buf) false)
