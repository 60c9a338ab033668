-- ===== src/Msgpack/Pack/Value.antt =====
-- `as_pack_val` and the pack functions of composite values.
use aerospike_common.Common.{
  ℕ, ◌^◌, ◌%◌, Bool, true, ltb, ◌==◌, not, if◌then◌else◌, bit_or, bit_and, add32, [], ◌∷◌, ℤ, pos,
  negsuc, is_zero,
}
use aerospike_common.Val.{
  Val, Elements, Entries, null, undef, nil, cmp_wildcard, cmp_inf, rec, boolean, integer, double,
  string, geojson, bytes, list, map, pair, no_elements, element, no_entries, entry, as_list_size,
  as_map_size,
}
use aerospike_common.Msgpack.Packer.{
  Packer, Malloc, and_then, pack_append, pack_byte, pack_type_uint16, pack_type_uint32,
}
use aerospike_common.Msgpack.Pack.Number.{
  pack_int64, pack_double, pack_nil_internal, as_pack_inf_internal, as_pack_wildcard_internal,
}
use aerospike_common.Msgpack.Pack.Blob.{pack_string, pack_geojson, pack_bytes}
use aerospike_common.Msgpack.Pack.Header.{pack_map_header_internal, pack_ext_header_internal}

abbrev pub as_packed_map_flag_k_ordered : ℕ
as_packed_map_flag_k_ordered = 0x01

abbrev pub as_packed_map_flag_v_ordered : ℕ
as_packed_map_flag_v_ordered = 0x02

-- `as_list_foreach(…) ? 0 : 1` and `as_map_foreach(…) ? 0 : 1`, where the callback answers `rc == 0`
abbrev pub foreach_result : ℤ × Packer → ℤ × Packer
foreach_result r = if is_zero r.0 then r else (pos 1, r.1)

module _ (malloc : Malloc) where
  unfoldable pub pack_as_boolean : Packer → Bool → ℤ × Packer
  pack_as_boolean pk b = pack_byte malloc pk (if b then 0xc3 else 0xc2) true

  unfoldable pub pack_as_integer : Packer → ℤ → ℤ × Packer
  pack_as_integer pk i = pack_int64 malloc pk i true

  unfoldable pub pack_as_double : Packer → ℕ → ℤ × Packer
  pack_as_double pk d = pack_double malloc pk d true

  -- The header that `pack_list` writes.
  unfoldable pub pack_list_header : Packer → ℕ → ℤ × Packer
  pack_list_header pk size =
      if ltb size 16
      then pack_byte malloc pk (bit_or 0x90 size) true
      else if ltb size 65536
      then pack_type_uint16 malloc pk 0xdc (size % 2 ^ 16) true
      else pack_type_uint32 malloc pk 0xdd size true

  -- What `pack_map` writes before the entries of a map.
  unfoldable pub pack_map_start : Packer → ℕ → ℕ → ℤ × Packer
  pack_map_start pk flags ele_count =
      if not (bit_and flags as_packed_map_flag_k_ordered == 0)
      then and_then
          (and_then (pack_map_header_internal malloc pk (add32 ele_count 1) true)
            (λ pk'. pack_ext_header_internal malloc pk' 0 (flags % 2 ^ 8) true))
          (λ pk'. pack_nil_internal malloc pk' true)
      else if not (bit_and flags as_packed_map_flag_v_ordered == 0)
      then (negsuc 0, pk)
      else (let r = pack_map_header_internal malloc pk ele_count true in
          if is_zero r.0 then r else (negsuc 0, r.1))

  unfoldable mutual
    unfolding pack_as_boolean pack_as_integer pack_as_double pack_list_header pack_map_start

    pub as_pack_val : Packer → Val → ℤ × Packer
    as_pack_val pk null = (negsuc 0, pk)
    as_pack_val pk undef = (negsuc 1, pk)
    as_pack_val pk nil = pack_byte malloc pk 0xc0 true
    as_pack_val pk (boolean b) = pack_as_boolean pk b
    as_pack_val pk (integer i) = pack_as_integer pk i
    as_pack_val pk (double d) = pack_as_double pk d
    as_pack_val pk (string s) = pack_string malloc pk s
    as_pack_val pk (bytes type b) = pack_bytes malloc pk type b
    as_pack_val pk (list flags xs) =
        and_then (pack_list_header pk (as_list_size xs))
          (λ pk'. foreach_result (pack_list_foreach pk' xs))
    as_pack_val pk (map flags es) =
        and_then (pack_map_start pk flags (as_map_size es))
          (λ pk'. foreach_result (pack_map_foreach pk' es))
    as_pack_val pk rec = (pos 1, pk)
    as_pack_val pk (pair x y) =
        and_then
          (and_then (pack_append malloc pk (bit_or 0x90 2 ∷ []) true) (λ pk'. as_pack_val pk' x))
          (λ pk'. as_pack_val pk' y)
    as_pack_val pk (geojson s) = pack_geojson malloc pk s
    as_pack_val pk cmp_wildcard = as_pack_wildcard_internal malloc pk true
    as_pack_val pk cmp_inf = as_pack_inf_internal malloc pk true

    -- `as_list_foreach` with the callback of that name, which stops at the first failure.
    pub pack_list_foreach : Packer → Elements → ℤ × Packer
    pack_list_foreach pk no_elements = (pos 0, pk)
    pack_list_foreach pk (element x xs) =
        and_then (as_pack_val pk x) (λ pk'. pack_list_foreach pk' xs)

    pub pack_map_foreach : Packer → Entries → ℤ × Packer
    pack_map_foreach pk no_entries = (pos 0, pk)
    pack_map_foreach pk (entry k v es) =
        and_then (and_then (as_pack_val pk k) (λ pk'. as_pack_val pk' v))
          (λ pk'. pack_map_foreach pk' es)
