-- ===== src/Msgpack/RoundTrip/Value/Tests.antt =====
-- Runs of the pack and unpack functions of composite values, and their theorems at a map with a list.
use aerospike_common.Common.{
  ℕ, ◌≡◌, refl, arith, List, [], ◌∷◌, ◌++◌, true, inr, some, pos, negsuc, ltb, replicate,
  length-replicate,
}
use aerospike_common.Val.{
  Val, as_val_type, nil, integer, string, list, map, element, no_elements, entry, no_entries,
  as_list_size, as_map_size,
}
use aerospike_common.Val.Compare.{as_val_cmp}
use aerospike_common.OrderedMap.{as_orderedmap_set_flags}
use aerospike_common.Msgpack.Packer.{
  Packer, Malloc, pack_append, pack_byte, pack_type_uint8, pack_resize, store, advance_offset,
}
use aerospike_common.Msgpack.Packer.Output.{IsReady, IsSized, IsTotal, output}
use aerospike_common.Msgpack.Pack.Value.{as_pack_val}
use aerospike_common.Msgpack.Pack.Header.{pack_map_header_internal, pack_ext_header_internal}
use aerospike_common.Msgpack.Pack.Number.{pack_nil_internal, pack_int64, pack_uint64}
use aerospike_common.Msgpack.Pack.Blob.{pack_string, pack_string_header}
use aerospike_common.Msgpack.Unpacker.{Unpacker, ok}
use aerospike_common.Msgpack.Unpack.Value.{as_unpack_val, is_valid_key_type, c_string}
use aerospike_common.Msgpack.RoundTrip.Value.{val_bytes, IsPackable}
use aerospike_common.Msgpack.RoundTrip.Value.Storable.{IsStorable, depth}
use aerospike_common.Msgpack.RoundTrip.Value.Write.{as_pack_val_lem}
use aerospike_common.Msgpack.RoundTrip.Value.Read.{as_unpack_val-as_pack_val}

abbrev zeroed : Malloc
zeroed n = some (replicate n 0)

zeroed-IsSized : IsSized zeroed
zeroed-IsSized n b h = ground (arith, length-replicate {A = ℕ} n 0)

zeroed-IsTotal : IsTotal zeroed
zeroed-IsTotal n = λ h. cc

abbrev fresh : Packer
fresh = record { entries = []; buffer = some (replicate 16 0); offset = 0; capacity = 16 }

abbrev reader : List ℕ → ℕ → Unpacker
reader bytes n = record { buffer = bytes; offset = 0; length = n }

-- `{5: ["a", nil], "b": -1}`
abbrev nested : Val
nested = map 1 (
    entry (integer (pos 5)) (list 0 (element (string (97 ∷ [])) (element nil no_elements)))
      (entry (string (98 ∷ [])) (integer (negsuc 0)) no_entries))

abbrev nested_bytes : List ℕ
nested_bytes =
    0x83 ∷ 0xc7 ∷ 0 ∷ 1 ∷ 0xc0 ∷ 5 ∷ 0x92 ∷ 0xa2 ∷ 3 ∷ 97 ∷ 0xc0 ∷ 0xa2 ∷ 3 ∷ 98 ∷ 0xff ∷ []

nested-IsPackable : IsPackable nested
unfolding IsPackable as_map_size
nested-IsPackable = (omega arith, refl, (tt, (omega arith, (tt, tt)), (omega arith, tt, tt)))

nested-IsStorable : IsStorable ltb nested
unfolding IsStorable as_val_type as_map_size as_list_size as_orderedmap_set_flags is_valid_key_type
    as_val_cmp c_string
nested-IsStorable = (
  (refl, omega arith, refl, inr refl),
  omega arith,
  (
    refl,
    tt,
    omega arith,
    (refl, omega arith, ((omega arith, refl), (tt, tt))),
    (refl, (refl, tt), (omega arith, refl), omega arith, tt),
  ),
)

as_unpack_val-as_pack_val_example :
    as_unpack_val (λ n. true) (λ n. true) 40 (λ u. u) ltb 3 (reader (nested_bytes ++ (9 ∷ [])) 16)
    ≡ some (ok nested, record { buffer = nested_bytes ++ (9 ∷ []); offset = 15; length = 16 })
unfolding as_pack_val pack_append advance_offset store pack_resize pack_byte depth
    pack_map_header_internal as_map_size pack_ext_header_internal pack_type_uint8 pack_nil_internal
    pack_int64 pack_uint64 as_list_size pack_string pack_string_header
as_unpack_val-as_pack_val_example =
    as_unpack_val-as_pack_val (λ n. true) (λ n. true) 40 (λ u. u) ltb (λ n. refl) zeroed fresh
      nested (reader (nested_bytes ++ (9 ∷ [])) 16) (9 ∷ []) 3 zeroed-IsSized zeroed-IsTotal
      (refl, omega arith, omega arith) nested-IsPackable nested-IsStorable (omega arith)
      (refl, refl, omega arith)

as_pack_val_lem_example :
    let r = as_pack_val zeroed fresh nested in
    (r.0 ≡ pos 0) × IsReady r.1 × (output r.1 ≡ val_bytes nested)
as_pack_val_lem_example =
    as_pack_val_lem zeroed zeroed-IsSized fresh nested zeroed-IsTotal
      (refl, omega arith, omega arith) nested-IsPackable
