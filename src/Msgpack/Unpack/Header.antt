-- ===== src/Msgpack/Unpack/Header.antt =====
-- The headers of lists and maps, and extension values.
use aerospike_common.Common.{ℕ, Bool, false, leb, ◌==◌, ◌||◌, if◌then◌else◌}
use aerospike_common.Common.{List, Option, some, negsuc, bit_and, add32}
use aerospike_common.Msgpack.Unpacker.{Unpacker, M, pure, ◌>>=◌, Result, ok, err}
use aerospike_common.Msgpack.Unpacker.{next_byte, peek, needs, extract_uint16, extract_uint32}

unfoldable pub list_header_as : ℕ → M (Result ℕ)
list_header_as type =
    if type == 0xdc
    then needs 2 (negsuc 1) (do v ← extract_uint16; pure (ok v))
    else if type == 0xdd
    then needs 4 (negsuc 2) (do v ← extract_uint32; pure (ok v))
    else if bit_and type 0xf0 == 0x90
    then pure (ok (bit_and type 0x0f))
    else pure (err (negsuc 3))

unfoldable pub as_unpack_list_header_element_count : M (Result ℕ)
as_unpack_list_header_element_count pk =
    if leb pk.length pk.offset
    then some (err (negsuc 0), pk)
    else (do type ← next_byte; list_header_as type) pk

unfoldable pub as_unpack_buf_list_element_count : List ℕ → ℕ → Option (Result ℕ × Unpacker)
unfolding as_unpack_list_header_element_count
as_unpack_buf_list_element_count buf size =
    as_unpack_list_header_element_count (record { buffer = buf; offset = 0; length = size })

unfoldable pub map_header_as : ℕ → M (Result ℕ)
map_header_as type =
    if type == 0xde
    then needs 2 (negsuc 1) (do v ← extract_uint16; pure (ok v))
    else if type == 0xdf
    then needs 4 (negsuc 2) (do v ← extract_uint32; pure (ok v))
    else if bit_and type 0xf0 == 0x80
    then pure (ok (bit_and type 0x0f))
    else pure (err (negsuc 3))

unfoldable pub as_unpack_map_header_element_count : M (Result ℕ)
as_unpack_map_header_element_count pk =
    if leb pk.length pk.offset
    then some (err (negsuc 0), pk)
    else (do type ← next_byte; map_header_as type) pk

unfoldable pub as_unpack_buf_map_element_count : List ℕ → ℕ → Option (Result ℕ × Unpacker)
unfolding as_unpack_map_header_element_count
as_unpack_buf_map_element_count buf size =
    as_unpack_map_header_element_count (record { buffer = buf; offset = 0; length = size })

unfoldable pub as_unpack_peek_is_ext : M Bool
as_unpack_peek_is_ext pk =
    if leb pk.length pk.offset
    then some (false, pk)
    else (do
      type ← peek 0
      pure (
          type == 0xd4
          || (type == 0xd5
              || (type == 0xd6
                  || (type == 0xd7
                      || (type == 0xd8 || (type == 0xc7 || (type == 0xc8 || type == 0xc9))))))))
        pk

-- `as_msgpack_ext`; `data` is the offset of the contents.
pub record MsgpackExt : Type 0 where
  pub contents : ℕ
  pub size : ℕ
  pub type_offset : ℕ
  pub type : ℕ

-- The `switch` of `as_unpack_ext`: the size of the contents.
unfoldable pub ext_size_as : ℕ → M (Result ℕ)
ext_size_as type =
    if type == 0xd4
    then pure (ok 1)
    else if type == 0xd5
    then pure (ok 2)
    else if type == 0xd6
    then pure (ok 4)
    else if type == 0xd7
    then pure (ok 8)
    else if type == 0xd8
    then pure (ok 16)
    else if type == 0xc7
    then (do b ← next_byte; pure (ok b))
    else if type == 0xc8
    then (do v ← extract_uint16; pure (ok v))
    else if type == 0xc9
    then needs 4 (negsuc 1) (do v ← extract_uint32; pure (ok v))
    else pure (err (negsuc 2))

-- What follows the `switch`. The sum in the test is a `uint32_t`.
unfoldable pub ext_take : Result ℕ → M (Result MsgpackExt)
ext_take (err rc) pk = some (err rc, pk)
ext_take (ok size) pk =
    needs (add32 1 size) (negsuc 3) (do type ← next_byte; finish pk.offset type) pk
  where
    finish : ℕ → ℕ → M (Result MsgpackExt)
    finish at type pk' = some (
      ok (record { contents = pk'.offset; size = size; type_offset = at; type = type }),
      record pk' { offset = add32 pk'.offset size },
    )

unfoldable pub as_unpack_ext : M (Result MsgpackExt)
as_unpack_ext = needs 3 (negsuc 0) (do type ← next_byte; size ← ext_size_as type; ext_take size)
