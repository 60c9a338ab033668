-- ===== src/Msgpack/RoundTrip/Value/Flags.antt =====
-- The ext with the flags of a map, and the nil behind it.
use aerospike_common.Common.{ℕ, zero, suc, ◌+◌, ◌≡◌, arith, List, ◌∷◌, true, false, some}
use aerospike_common.Msgpack.Unpacker.{Unpacker, M, Result, ok}
use aerospike_common.Msgpack.Unpacker.Reads.{At, advance, At-advance, next_byte-At}
use aerospike_common.Msgpack.Unpack.Header.{
  as_unpack_peek_is_ext, as_unpack_ext, ext_size_as, ext_take, MsgpackExt,
}
use aerospike_common.Msgpack.Unpack.Size.{
  as_unpack_size, unpack_size_internal, size_of_next, size_as, deep_size, list_loop, map_loop,
  msgpack_compare_max_depth,
}

pub peek_ext :
    (pk : Unpacker) {q : List ℕ} → At pk (0xc7 ∷ q) → as_unpack_peek_is_ext pk ≡ some (true, pk)
unfolding as_unpack_peek_is_ext
peek_ext pk h = ground (arith, next_byte-At pk h)

abbrev pub flags_ext : Unpacker → ℕ → MsgpackExt
flags_ext pk flags = record {
  contents = pk.offset + 3;
  size = 0;
  type_offset = pk.offset + 2;
  type = flags;
}

pub read_ext :
    (pk : Unpacker) (flags : ℕ) {q : List ℕ}
    → At pk (0xc7 ∷ 0 ∷ flags ∷ 0xc0 ∷ q)
    → as_unpack_ext pk ≡ some (ok (flags_ext pk flags), advance pk 3)
unfolding as_unpack_ext ext_size_as ext_take
read_ext pk flags h = ground (
  arith,
  next_byte-At pk h,
  next_byte-At (advance pk 1) (At-advance pk h),
  next_byte-At (advance (advance pk 1) 1) (At-advance (advance pk 1) (At-advance pk h)),
)

size_of_nil :
    (lists maps : ℕ → M (Result ℕ)) (pk : Unpacker) {q : List ℕ}
    → At pk (0xc0 ∷ q)
    → size_of_next lists maps pk ≡ some (ok 1, advance pk 1)
unfolding size_of_next size_as
size_of_nil lists maps pk h = ground (arith, next_byte-At pk h)

size_nil :
    (levels : ℕ) (pk : Unpacker) {q : List ℕ}
    → At pk (0xc0 ∷ q)
    → unpack_size_internal levels pk ≡ some (ok 1, advance pk 1)
unfolding unpack_size_internal
size_nil zero pk h = size_of_nil (deep_size false) (deep_size true) pk h
size_nil (suc levels) pk h =
    size_of_nil (list_loop (unpack_size_internal levels)) (map_loop (unpack_size_internal levels))
      pk h

pub read_nil_size :
    (pk : Unpacker) {q : List ℕ} → At pk (0xc0 ∷ q) → as_unpack_size pk ≡ some (ok 1, advance pk 1)
unfolding as_unpack_size
read_nil_size pk h = size_nil msgpack_compare_max_depth pk h
