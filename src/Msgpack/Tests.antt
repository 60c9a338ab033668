-- ===== src/Msgpack/Tests.antt =====
-- Runs of the pack and unpack functions, and their theorems at concrete values.
use aerospike_common.Common.{ℕ, ◌+◌, ◌<◌, ◌≡◌, refl, List, [], ◌∷◌, true, none, some, arith}
use aerospike_common.Common.{negsuc, length, replicate, length-replicate}
use aerospike_common.Msgpack.Packer.{
  Packer, Malloc, pack_append, pack_byte, pack_type_uint16, pack_resize, store, advance_offset,
}
use aerospike_common.Msgpack.Packer.Output.{Bounded, IsSized, IsTotal, added}
use aerospike_common.Msgpack.Pack.Number.{pack_int64, as_pack_int64, as_pack_int64_size}
use aerospike_common.Msgpack.Pack.Blob.{as_pack_str, as_pack_str_size, pack_string_header}
use aerospike_common.Msgpack.Pack.Header.{
  as_pack_list_header, pack_map_header_internal, as_pack_list_header_get_size,
  as_pack_map_header_get_size,
}
use aerospike_common.Msgpack.Unpacker.{Unpacker, ok}
use aerospike_common.Msgpack.Unpack.Number.{as_unpack_int64}
use aerospike_common.Msgpack.Unpack.Blob.{as_unpack_str, unpack_str_bin}
use aerospike_common.Msgpack.Unpack.Header.{
  as_unpack_list_header_element_count, as_unpack_map_header_element_count,
}
use aerospike_common.Msgpack.RoundTrip.Number.{int64_bytes}
use aerospike_common.Msgpack.RoundTrip.Integer.{as_unpack_int64-pack_int64, as_pack_int64-Bounded}
use aerospike_common.Msgpack.RoundTrip.Header.{
  as_unpack_list_header-as_pack_list_header, as_unpack_map_header-pack_map_header_internal,
}
use aerospike_common.Msgpack.RoundTrip.Blob.{
  Unpacked, as_unpack_str-as_pack_str, unpack_str_bin_wraps,
}

abbrev zeroed : Malloc
zeroed n = some (replicate n 0)

zeroed-IsSized : IsSized zeroed
zeroed-IsSized n b h = ground (arith, length-replicate {A = ℕ} n 0)

zeroed-IsTotal : IsTotal zeroed
zeroed-IsTotal n = λ h. cc

abbrev fresh : Packer
fresh = record { entries = []; buffer = some (replicate 16 0); offset = 0; capacity = 16 }

-- One byte is free.
abbrev nearly_full : Packer
nearly_full = record fresh { offset = 15 }

abbrev counting : Packer
counting = record { entries = []; buffer = none; offset = 4; capacity = 0 }

abbrev reader : List ℕ → ℕ → Unpacker
reader bytes n = record { buffer = bytes; offset = 0; length = n }

as_unpack_int64-pack_int64_example :
    as_unpack_int64 (reader (0xd1 ∷ 0xfe ∷ 0xd4 ∷ 7 ∷ []) 4)
    ≡ some
        (ok (negsuc 299), record { buffer = 0xd1 ∷ 0xfe ∷ 0xd4 ∷ 7 ∷ []; offset = 3; length = 4 })
unfolding pack_int64 pack_append pack_type_uint16 as_pack_int64_size store advance_offset
    pack_resize
as_unpack_int64-pack_int64_example =
    as_unpack_int64-pack_int64 zeroed nearly_full (negsuc 299) true
      (reader (0xd1 ∷ 0xfe ∷ 0xd4 ∷ 7 ∷ []) 4) (7 ∷ []) zeroed-IsSized (omega arith) (omega arith)
      refl (refl, refl, omega arith)

as_pack_int64-Bounded_example :
    Bounded fresh 3 (int64_bytes (negsuc 299)) (as_pack_int64 zeroed fresh (negsuc 299))
unfolding as_pack_int64_size
as_pack_int64-Bounded_example = as_pack_int64-Bounded zeroed fresh (negsuc 299) (omega arith)

as_unpack_list_header-as_pack_list_header_example :
    (length (added fresh (as_pack_list_header zeroed fresh 300).1) ≡ 3)
    × (as_unpack_list_header_element_count (reader (0xdc ∷ 1 ∷ 44 ∷ 7 ∷ []) 4)
        ≡ some (ok 300, record { buffer = 0xdc ∷ 1 ∷ 44 ∷ 7 ∷ []; offset = 3; length = 4 }))
unfolding as_pack_list_header pack_append pack_type_uint16 as_pack_list_header_get_size store
    advance_offset
as_unpack_list_header-as_pack_list_header_example =
    as_unpack_list_header-as_pack_list_header zeroed fresh 300 (reader (0xdc ∷ 1 ∷ 44 ∷ 7 ∷ []) 4)
      (7 ∷ []) zeroed-IsSized (omega arith) (omega arith) refl (refl, refl, omega arith)

as_unpack_map_header-pack_map_header_internal_example :
    (length (added nearly_full (pack_map_header_internal zeroed nearly_full 5 true).1) ≡ 1)
    × (as_unpack_map_header_element_count (reader (0x85 ∷ []) 1)
        ≡ some (ok 5, record { buffer = 0x85 ∷ []; offset = 1; length = 1 }))
unfolding pack_map_header_internal pack_append pack_byte as_pack_map_header_get_size store
    advance_offset
as_unpack_map_header-pack_map_header_internal_example =
    as_unpack_map_header-pack_map_header_internal zeroed nearly_full 5 true (reader (0x85 ∷ []) 1)
      [] zeroed-IsSized (omega arith) (omega arith) refl (refl, refl, omega arith)

as_unpack_str-as_pack_str_example :
    Unpacked
      (reader (0xa2 ∷ 104 ∷ 105 ∷ []) 3)
      (104 ∷ 105 ∷ [])
      3
      (as_unpack_str (reader (0xa2 ∷ 104 ∷ 105 ∷ []) 3))
unfolding as_pack_str pack_string_header pack_append pack_byte as_pack_str_size store advance_offset
as_unpack_str-as_pack_str_example =
    as_unpack_str-as_pack_str zeroed fresh (104 ∷ 105 ∷ []) [] (reader (0xa2 ∷ 104 ∷ 105 ∷ []) 3)
      zeroed-IsSized (omega arith) (omega arith) refl (refl, refl, omega arith)

unpack_str_bin_wraps_example :
    (5 < 0 + 5 + 0xffffffff)
    × (unpack_str_bin (reader (0xdb ∷ 255 ∷ 255 ∷ 255 ∷ 255 ∷ []) 5)
        ≡ some (
          some (5, 0xffffffff),
          record { buffer = 0xdb ∷ 255 ∷ 255 ∷ 255 ∷ 255 ∷ []; offset = 4; length = 5 },
        ))
unpack_str_bin_wraps_example =
    unpack_str_bin_wraps (reader (0xdb ∷ 255 ∷ 255 ∷ 255 ∷ 255 ∷ []) 5) 0xffffffff [] (omega arith)
      (omega arith) (refl, refl, omega arith)
