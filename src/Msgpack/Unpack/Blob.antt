-- ===== src/Msgpack/Unpack/Blob.antt =====
-- Strings and byte arrays. A pointer into the buffer is returned as the offset it points to.
use aerospike_common.Common.{ℕ, Bool, ltb, leb, ◌==◌, ◌||◌, if◌then◌else◌}
use aerospike_common.Common.{Option, none, some, negsuc, bit_and, add32}
use aerospike_common.Msgpack.Unpacker.{Unpacker, M, pure, ◌>>=◌, Result, ok, err}
use aerospike_common.Msgpack.Unpacker.{next_byte, needs, left, extract_uint16, extract_uint32}

-- The `switch` of `as_unpack_blob_size`.
unfoldable pub unpack_blob_size_as : ℕ → M (Result ℕ)
unpack_blob_size_as type =
    if type == 0xc4 || type == 0xd9
    then needs 1 (negsuc 1) (do b ← next_byte; pure (ok b))
    else if type == 0xc5 || type == 0xda
    then needs 2 (negsuc 2) (do v ← extract_uint16; pure (ok v))
    else if type == 0xc6 || type == 0xdb
    then needs 4 (negsuc 3) (do v ← extract_uint32; pure (ok v))
    else if bit_and type 0xe0 == 0xa0
    then pure (ok (bit_and type 0x1f))
    else pure (err (negsuc 4))

unfoldable pub as_unpack_blob_size : M (Result ℕ)
as_unpack_blob_size pk =
    if leb pk.length pk.offset
    then some (err (negsuc 0), pk)
    else (do type ← next_byte; unpack_blob_size_as type) pk

-- The `switch` of `unpack_str_bin`; NULL is `none`.
unfoldable pub str_bin_size_as : ℕ → M (Option ℕ)
str_bin_size_as type pk =
    let short : ℕ → Bool = λ n. ltb (left pk) n in
    let null : Option (Option ℕ × Unpacker) = some (none, pk) in
    if type == 0xd9 || type == 0xc4
    then (if short 1 then null else (do b ← next_byte; pure (some b)) pk)
    else if type == 0xc5 || type == 0xda
    then (if short 2 then null else (do v ← extract_uint16; pure (some v)) pk)
    else if type == 0xc6 || type == 0xdb
    then (if short 4 then null else (do v ← extract_uint32; pure (some v)) pk)
    else if bit_and type 0xe0 == 0xa0
    then some (some (bit_and type 0x1f), pk)
    else null

-- What follows the `switch`: the string's place, and the advance past it.
unfoldable pub str_bin_take : Option ℕ → M (Option (ℕ × ℕ))
str_bin_take none pk = some (none, pk)
str_bin_take (some sz) pk =
    let buf : ℕ = pk.offset in
    let end : ℕ = add32 pk.offset sz in
    let pk' : Unpacker = record pk { offset = end } in
    if ltb pk.length end then some (none, pk') else some (some (buf, sz), pk')

-- The place of the string in the buffer and its size, or NULL.
unfoldable pub unpack_str_bin : M (Option (ℕ × ℕ))
unpack_str_bin pk =
    if leb pk.length pk.offset
    then some (none, pk)
    else (do type ← next_byte; sz ← str_bin_size_as type; str_bin_take sz) pk

unfoldable pub as_unpack_str : M (Option (ℕ × ℕ))
unfolding unpack_str_bin
as_unpack_str = unpack_str_bin

unfoldable pub as_unpack_bin : M (Option (ℕ × ℕ))
unfolding unpack_str_bin
as_unpack_bin = unpack_str_bin
