-- ===== src/Msgpack/Unpack/Kind.antt =====
-- The type of the next value, without consuming it.
use aerospike_common.Common.{ℕ, ltb, leb, ◌==◌, ◌||◌, ◌&&◌, if◌then◌else◌}
use aerospike_common.Common.{List, Option, some, bit_and}
use aerospike_common.Msgpack.Unpacker.{Unpacker, M, pure, ◌>>=◌, peek}
use aerospike_common.Msgpack.Pack.Blob.{as_bytes_string, as_bytes_geojson}

-- `as_val_type_e`, as far as a packed value can have it.
pub data ValType : Type 0 where
  undef nil boolean integer string list map bytes double geojson : ValType
  cmp_ext cmp_wildcard cmp_inf : ValType

unfoldable pub bytes_internal_type_to_as_val_t : ℕ → ValType
bytes_internal_type_to_as_val_t type =
    if type == as_bytes_string then string else if type == as_bytes_geojson then geojson else bytes

-- The type byte of a blob stands `k` bytes behind its start.
blob_type : ℕ → M ValType
unfolding bytes_internal_type_to_as_val_t
blob_type k = do type1 ← peek k; pure (bytes_internal_type_to_as_val_t type1)

fixext1_type : M ValType
fixext1_type = do
  ext_type ← peek 1
  if ext_type == 0xff
      then (do
        contents ← peek 2
        pure (
            if contents == 0x00
            then cmp_wildcard
            else if contents == 0x01
            then cmp_inf
            else cmp_ext))
      else pure cmp_ext

unfoldable pub peek_type_as : ℕ → M ValType
unfolding blob_type fixext1_type
peek_type_as type =
    if type == 0xc0
    then pure nil
    else if type == 0xc3 || type == 0xc2
    then pure boolean
    else if leb 0xcc type && leb type 0xd3
    then pure integer
    else if type == 0xca || type == 0xcb
    then pure double
    else if type == 0xc4 || type == 0xd9
    then blob_type 2
    else if type == 0xc5 || type == 0xda
    then blob_type 3
    else if type == 0xc6 || type == 0xdb
    then blob_type 5
    else if type == 0xdc || type == 0xdd
    then pure list
    else if type == 0xde || type == 0xdf
    then pure map
    else if type == 0xd4
    then fixext1_type
    else if leb 0xd5 type && leb type 0xd8
    then pure cmp_ext
    else if leb 0xc7 type && leb type 0xc9
    then pure cmp_ext
    else if bit_and type 0xe0 == 0xa0
    then blob_type 1
    else if bit_and type 0xf0 == 0x80
    then pure map
    else if bit_and type 0xf0 == 0x90
    then pure list
    else if ltb type 0x80
    then pure integer
    else if leb 0xe0 type
    then pure integer
    else pure undef

unfoldable pub as_unpack_peek_type : M ValType
unfolding peek_type_as
as_unpack_peek_type pk =
    if leb pk.length pk.offset then some (undef, pk) else (do type ← peek 0; peek_type_as type) pk

unfoldable pub as_unpack_buf_peek_type : List ℕ → ℕ → Option (ValType × Unpacker)
unfolding as_unpack_peek_type
as_unpack_buf_peek_type buf size =
    as_unpack_peek_type (record { buffer = buf; offset = 0; length = size })
