-- ===== src/Msgpack/RoundTrip/Value.antt =====
-- The packed form of a value.
pub mod Write
pub mod Heads
pub mod Types
pub mod Leaves
pub mod Storable
pub mod Lists
pub mod Filling
pub mod Flags
pub mod Maps
pub mod Read
mod Tests
use aerospike_common.Common.{
  ℕ, zero, suc, ◌+◌, ◌-◌, ◌≤◌, ◌<◌, ◌^◌, ◌%◌, ◌≡◌, refl, arith, List, [], ◌∷◌, ◌++◌, Bool, true,
  false, not, ◌&&◌, ◌||◌, ◌==◌, if◌then◌else◌, bit_or, bit_and, length, ℤ, pos, negsuc, is_zero,
  append_assoc, add32, length-append, sym, Bool-cases, inl, inr, ltb, append-nil,
}
use aerospike_common.Val.{
  Val, Elements, Entries, null, undef, nil, cmp_wildcard, cmp_inf, rec, boolean, integer, double,
  string, geojson, bytes, list, map, pair, no_elements, element, no_entries, entry, as_list_size,
  as_map_size,
}
use aerospike_common.Msgpack.Packer.{
  Packer, Malloc, and_then, int32_max, be64, pack_append, pack_byte, pack_type_uint8,
  pack_type_uint16, pack_type_uint32, pack_type_uint64,
}
use aerospike_common.Msgpack.Packer.Output.{
  Appended, Appended-and_then, IsReady, IsSized, IsTotal, output, pack_append-Appended,
  pack_append-IsTotal,
}
use aerospike_common.Msgpack.Pack.Number.{
  pack_double, pack_nil_internal, as_pack_inf_internal, as_pack_wildcard_internal,
}
use aerospike_common.Msgpack.Pack.Blob.{
  pack_string, pack_geojson, pack_bytes, pack_string_header, pack_byte_array_header,
  as_bytes_string, as_bytes_geojson,
}
use aerospike_common.Msgpack.Pack.Header.{
  pack_map_header_internal, pack_ext_header_internal, pack_ext_size,
}
use aerospike_common.Msgpack.Pack.Value.{
  as_packed_map_flag_k_ordered, as_packed_map_flag_v_ordered, foreach_result, pack_as_boolean,
  pack_as_integer, pack_as_double, pack_list_header, pack_map_start, as_pack_val, pack_list_foreach,
  pack_map_foreach,
}
use aerospike_common.Msgpack.RoundTrip.Number.{int64_bytes, pack_int64-bytes}
use aerospike_common.Msgpack.RoundTrip.Integer.{bytes_small}
use aerospike_common.Msgpack.RoundTrip.Blob.{
  string_header_bytes, string_header_bounds, string_header-bytes,
}
use aerospike_common.Msgpack.RoundTrip.Header.{
  list_header_bytes, map_header_bytes, list_header_bytes_small, map_header_bytes_small,
  map_header-bytes, pack_list_header-bytes,
}

abbrev pub blob_bytes : ℕ → List ℕ → List ℕ
blob_bytes type s = string_header_bytes (length s + 1) ++ (type ∷ s)

-- What stands before the entries of a map: an ordered map has an ext as its first key, with the flags
-- as its type, and nil as the value.
unfoldable pub map_start_bytes : ℕ → ℕ → List ℕ
map_start_bytes flags n =
    if bit_and flags as_packed_map_flag_k_ordered == 0
    then map_header_bytes n
    else map_header_bytes (n + 1) ++ (0xc7 ∷ 0 ∷ flags % 2 ^ 8 ∷ 0xc0 ∷ [])

unfoldable mutual
  pub val_bytes : Val → List ℕ
  val_bytes null = []
  val_bytes undef = []
  val_bytes rec = []
  val_bytes nil = 0xc0 ∷ []
  val_bytes (boolean b) = (if b then 0xc3 else 0xc2) ∷ []
  val_bytes (integer i) = int64_bytes i
  val_bytes (double d) = 0xcb ∷ be64 d
  val_bytes (string s) = blob_bytes as_bytes_string s
  val_bytes (geojson s) = blob_bytes as_bytes_geojson s
  val_bytes (bytes type b) = blob_bytes (type % 2 ^ 8) b
  val_bytes (list flags xs) = list_header_bytes (as_list_size xs) ++ elements_bytes xs
  val_bytes (map flags es) = map_start_bytes flags (as_map_size es) ++ entries_bytes es
  val_bytes (pair x y) = (0x92 ∷ val_bytes x) ++ val_bytes y
  val_bytes cmp_wildcard = 0xd4 ∷ 0xff ∷ 0x00 ∷ []
  val_bytes cmp_inf = 0xd4 ∷ 0xff ∷ 0x01 ∷ []

  pub elements_bytes : Elements → List ℕ
  elements_bytes no_elements = []
  elements_bytes (element x xs) = val_bytes x ++ elements_bytes xs

  pub entries_bytes : Entries → List ℕ
  entries_bytes no_entries = []
  entries_bytes (entry k v es) = (val_bytes k ++ val_bytes v) ++ entries_bytes es

-- Values that have a packed form: no NULL, record or value of an unknown type, no map whose flags
-- order its values and not its keys, and lengths within the bounds of the packer.
unfoldable mutual
  pub IsPackable : Val → Type 0
  IsPackable null = ⊥
  IsPackable undef = ⊥
  IsPackable rec = ⊥
  IsPackable nil = Unit
  IsPackable (boolean b) = Unit
  IsPackable (integer i) = Unit
  IsPackable (double d) = Unit
  IsPackable (string s) = length s ≤ int32_max
  IsPackable (geojson s) = length s ≤ int32_max
  IsPackable (bytes type b) = length b ≤ int32_max
  IsPackable (list flags xs) = ArePackable xs
  IsPackable (map flags es) =
      (as_map_size es < 2 ^ 32 - 1)
      × ((bit_and flags as_packed_map_flag_k_ordered == 0)
            && not (bit_and flags as_packed_map_flag_v_ordered == 0)
          ≡ false)
      × AreEntriesPackable es
  IsPackable (pair x y) = IsPackable x × IsPackable y
  IsPackable cmp_wildcard = Unit
  IsPackable cmp_inf = Unit

  pub ArePackable : Elements → Type 0
  ArePackable no_elements = Unit
  ArePackable (element x xs) = IsPackable x × ArePackable xs

  pub AreEntriesPackable : Entries → Type 0
  AreEntriesPackable no_entries = Unit
  AreEntriesPackable (entry k v es) = IsPackable k × IsPackable v × AreEntriesPackable es
