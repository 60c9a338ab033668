-- ===== src/Msgpack/Unpack/Number.antt =====
-- Nil, booleans, integers and floating-point numbers.
use aerospike_common.Common.{ℕ, ◌+◌, ◌-◌, ◌%◌, ◌^◌, Bool, ltb, leb, ◌==◌, ◌||◌, if◌then◌else◌}
use aerospike_common.Common.{some, ℤ, negsuc, sign_extend, to_signed, bit_and}
use aerospike_common.Msgpack.Unpacker.{M, pure, ◌>>=◌, Result, ok, err}
use aerospike_common.Msgpack.Unpacker.{
  next_byte, needs, extract_uint16, extract_uint32, extract_uint64,
}

-- The `switch` of `as_unpack_uint64`.
unfoldable pub unpack_uint64_as : ℕ → M (Result ℕ)
unpack_uint64_as type =
    if type == 0xd0
    then needs 1 (negsuc 0) (do b ← next_byte; pure (ok (sign_extend 8 b)))
    else if type == 0xcc
    then needs 1 (negsuc 1) (do b ← next_byte; pure (ok b))
    else if type == 0xd1
    then needs 2 (negsuc 2) (do v ← extract_uint16; pure (ok (sign_extend 16 v)))
    else if type == 0xcd
    then needs 2 (negsuc 3) (do v ← extract_uint16; pure (ok v))
    else if type == 0xd2
    then needs 4 (negsuc 4) (do v ← extract_uint32; pure (ok (sign_extend 32 v)))
    else if type == 0xce
    then needs 4 (negsuc 5) (do v ← extract_uint32; pure (ok v))
    else if type == 0xd3 || type == 0xcf
    then needs 8 (negsuc 6) (do v ← extract_uint64; pure (ok v))
    else if ltb type 0x80
    then pure (ok type)
    else if leb 0xe0 type
    then pure (ok ((bit_and type 0x1f + 2 ^ 64 - 32) % 2 ^ 64))
    else pure (err (negsuc 7))

unfoldable pub as_unpack_uint64 : M (Result ℕ)
as_unpack_uint64 pk =
    if leb pk.length pk.offset
    then some (err (negsuc 0), pk)
    else (do type ← next_byte; unpack_uint64_as type) pk

-- `as_unpack_uint64` through a pointer to `int64_t`.
unfoldable pub as_unpack_int64 : M (Result ℤ)
as_unpack_int64 = do
  r ← as_unpack_uint64
  pure (elim r [ ok v ↦ ok (to_signed 64 v) | err rc ↦ err rc ])

unfoldable pub as_unpack_boolean : M (Result Bool)
as_unpack_boolean = do
  type ← next_byte
  if type == 0xc3 || type == 0xc2 then pure (ok (type == 0xc3)) else pure (err (negsuc 0))

unfoldable pub as_unpack_nil : M (Result (Unit {0}))
as_unpack_nil = do type ← next_byte; if type == 0xc0 then pure (ok tt) else pure (err (negsuc 0))

-- `widen` is the conversion of a `float` to a `double`, on their bit patterns.
module _ (widen : ℕ → ℕ) where
  unfoldable pub unpack_double_as : ℕ → M (Result ℕ)
  unpack_double_as type =
      if type == 0xca
      then needs 4 (negsuc 1) (do v ← extract_uint32; pure (ok (widen v)))
      else if type == 0xcb
      then needs 8 (negsuc 2) (do v ← extract_uint64; pure (ok v))
      else pure (err (negsuc 3))

  unfoldable pub as_unpack_double : M (Result ℕ)
  unfolding unpack_double_as
  as_unpack_double pk =
      if leb pk.length pk.offset
      then some (err (negsuc 0), pk)
      else (do type ← next_byte; unpack_double_as type) pk
