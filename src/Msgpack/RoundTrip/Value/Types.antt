-- ===== src/Msgpack/RoundTrip/Value/Types.antt =====
-- The types of packed values: `as_unpack_val` reads a number, a string and a header as the functions for
-- these do.
use aerospike_common.Common.{
  ℕ, ◌≤◌, ◌<◌, ◌^◌, ◌≡◌, arith, List, ◌∷◌, false, ◌⊎◌, inl, inr, Bool-cases, ltb, bit_and, ◌==◌,
  to_signed, low5_bits, high3_bits, high4_bits, some,
}
use aerospike_common.Val.{Val, integer}
use aerospike_common.Msgpack.Unpacker.{Unpacker, M, Result, ok}
use aerospike_common.Msgpack.Unpacker.Reads.{At, next_byte-At}
use aerospike_common.Msgpack.Unpack.Number.{unpack_uint64_as}
use aerospike_common.Msgpack.Unpack.Blob.{str_bin_size_as}
use aerospike_common.Msgpack.Unpack.Header.{list_header_as, map_header_as, as_unpack_peek_is_ext}
use aerospike_common.Msgpack.Unpack.Value.{unpack_val_as}
use aerospike_common.Msgpack.RoundTrip.Value.Heads.{NotExt}

pub as_unpack_peek_is_ext-At :
    (up : Unpacker) (t : ℕ) {r : List ℕ}
    → NotExt t
    → At up (t ∷ r)
    → as_unpack_peek_is_ext up ≡ some (false, up)
unfolding as_unpack_peek_is_ext
as_unpack_peek_is_ext-At up t other h = ground (arith, next_byte-At up h)

module _ (widen : ℕ → ℕ) (blobs lists maps : ℕ → M (Result Val)) (t : ℕ) (pk pk' : Unpacker) where
  pub unpack_val_as-integer :
      (x : ℕ)
      → t < 2 ^ 8
      → (x < 2 ^ 63) ⊎ (0xcf ≤ t)
      → unpack_uint64_as t pk ≡ some (ok x, pk')
      → unpack_val_as widen blobs lists maps t pk ≡ some (ok (integer (to_signed 64 x)), pk')
  unfolding unpack_val_as unpack_uint64_as
  unpack_val_as-integer x byte signed h = ground (arith, low5_bits t, high3_bits t, high4_bits t)

  pub unpack_val_as-list :
      (n : ℕ)
      → t < 2 ^ 8
      → list_header_as t pk ≡ some (ok n, pk')
      → unpack_val_as widen blobs lists maps t pk ≡ lists n pk'
  unfolding unpack_val_as list_header_as
  unpack_val_as-list n byte h = ground (arith, low5_bits t, high3_bits t, high4_bits t)

  pub unpack_val_as-map :
      (n : ℕ)
      → t < 2 ^ 8
      → map_header_as t pk ≡ some (ok n, pk')
      → unpack_val_as widen blobs lists maps t pk ≡ maps n pk'
  unfolding unpack_val_as map_header_as
  unpack_val_as-map n byte h = ground (arith, low5_bits t, high3_bits t, high4_bits t)

  blob_fix :
      (n : ℕ)
      → t < 0xc0
      → str_bin_size_as t pk ≡ some (some n, pk')
      → unpack_val_as widen blobs lists maps t pk ≡ blobs n pk'
  unfolding unpack_val_as str_bin_size_as
  blob_fix n small h = ground (arith, low5_bits t, high3_bits t)

  blob_sized :
      (n : ℕ)
      → 0xc0 ≤ t
      → t < 2 ^ 8
      → str_bin_size_as t pk ≡ some (some n, pk')
      → unpack_val_as widen blobs lists maps t pk ≡ blobs n pk'
  unfolding unpack_val_as str_bin_size_as
  blob_sized n large byte h =
      let no_fix : (bit_and t 0xe0 == 0xa0) ≡ false = ground (arith, high3_bits t) in ground arith

  pub unpack_val_as-blob :
      (n : ℕ)
      → t < 2 ^ 8
      → str_bin_size_as t pk ≡ some (some n, pk')
      → unpack_val_as widen blobs lists maps t pk ≡ blobs n pk'
  unpack_val_as-blob n byte h = elim (Bool-cases (ltb t 0xc0)) [
    | inl small ↦ blob_fix n (ground arith) h
    | inr large ↦ blob_sized n (ground arith) byte h
  ]
