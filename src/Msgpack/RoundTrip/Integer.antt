-- ===== src/Msgpack/RoundTrip/Integer.antt =====
-- The pack and unpack functions of 64-bit integers together.
use aerospike_common.Common.{ℕ, ◌+◌, ◌≤◌, ◌≡◌, List, ◌++◌, Bool, true, false, none, some, arith}
use aerospike_common.Common.{length, ℤ, pos, negsuc}
use aerospike_common.Msgpack.Packer.{Packer, Malloc, int32_max}
use aerospike_common.Msgpack.Packer.Output.{
  Bounded, added, Appended, added-Appended, IsReady, IsSized, IsTotal, pack_append-Appended,
  pack_append-Bounded, pack_append-IsTotal, pack_append_counts,
}
use aerospike_common.Msgpack.Pack.Number.{
  pack_int64, as_pack_int64, as_pack_uint64_size, as_pack_int64_size,
}
use aerospike_common.Msgpack.Unpacker.{Unpacker, ok}
use aerospike_common.Msgpack.Unpacker.Reads.{At, advance}
use aerospike_common.Msgpack.Unpack.Number.{as_unpack_int64}
use aerospike_common.Msgpack.RoundTrip.Number.{
  InInt64, int64_bytes, length-int64_bytes, pack_int64-bytes, read_int64_bytes,
}

size_small : (v : ℤ) → as_pack_int64_size v ≤ 9
unfolding as_pack_int64_size as_pack_uint64_size
size_small (pos n) = ground arith
size_small (negsuc n) = ground arith

pub bytes_small : (v : ℤ) → length (int64_bytes v) ≤ int32_max
bytes_small v = omega (arith, length-int64_bytes v, size_small v)

module _ (malloc : Malloc) (pk : Packer) (v : ℤ) where
  -- After a `pack_int64` that returns 0, into a buffer that may grow or not, `as_unpack_int64` reads `v`
  -- from the bytes that were added, whatever follows them, and moves on by as many bytes as
  -- `as_pack_int64_size` says.
  pub as_unpack_int64-pack_int64 :
      (resize : Bool) (up : Unpacker) (rest : List ℕ)
      → IsSized malloc
      → IsReady pk
      → InInt64 v
      → (pack_int64 malloc pk v resize).0 ≡ pos 0
      → At up (added pk (pack_int64 malloc pk v resize).1 ++ rest)
      → as_unpack_int64 up ≡ some (ok v, advance up (as_pack_int64_size v))
  as_unpack_int64-pack_int64 resize up rest sized ready range done here =
      read_int64_bytes up rest v range
        (rw (added-Appended pk (int64_bytes v) (pack_int64 malloc pk v resize) grown done) at here)
    where
      grown : Appended pk (int64_bytes v) (pack_int64 malloc pk v resize)
      grown =
          rw (pack_int64-bytes malloc pk resize v)
            (pack_append-Appended malloc pk _ resize sized ready (bytes_small v))

  -- Into a buffer that may not grow, `as_pack_int64` writes the bytes of `v` and returns 0 where
  -- `as_pack_int64_size` bytes are free, and else writes nothing and returns -1. The packer is
  -- ready for the next write either way.
  pub as_pack_int64-Bounded :
      IsReady pk → Bounded pk (as_pack_int64_size v) (int64_bytes v) (as_pack_int64 malloc pk v)
  unfolding as_pack_int64
  as_pack_int64-Bounded ready =
      rw (pack_int64-bytes malloc pk false v, ← length-int64_bytes v)
        (pack_append-Bounded malloc pk (int64_bytes v) ready (bytes_small v))

  -- A buffer that may grow takes every integer while `malloc` gives memory.
  pub pack_int64-IsTotal :
      IsSized malloc → IsTotal malloc → IsReady pk → (pack_int64 malloc pk v true).0 ≡ pos 0
  pack_int64-IsTotal sized total ready =
      rw (pack_int64-bytes malloc pk true v)
        (pack_append-IsTotal malloc pk (int64_bytes v) sized total ready (bytes_small v))

  -- With a NULL buffer `as_pack_int64` only moves the offset, by `as_pack_int64_size`, as long as it
  -- stays within INT32_MAX.
  pub as_pack_int64_counts :
      pk.buffer ≡ none
      → pk.offset + as_pack_int64_size v ≤ int32_max
      → as_pack_int64 malloc pk v ≡ (pos 0, record pk { offset = pk.offset + as_pack_int64_size v })
  unfolding as_pack_int64
  as_pack_int64_counts null fits =
      rw (pack_int64-bytes malloc pk false v, ← length-int64_bytes v)
        (pack_append_counts malloc pk (int64_bytes v) false null
          (omega (arith, length-int64_bytes v)))
