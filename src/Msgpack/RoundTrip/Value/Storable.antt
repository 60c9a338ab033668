-- ===== src/Msgpack/RoundTrip/Value/Storable.antt =====
-- Values that come back from their packed form as they were.
use aerospike_common.Common.{
  ℕ, suc, ◌-◌, ◌≤◌, ◌<◌, ◌^◌, ◌≡◌, refl, arith, max, List, [], ◌∷◌, ◌++◌, Bool, true, false, ◌⊎◌,
  length, ◌==◌, bit_and,
}
use aerospike_common.Val.{
  Val, Elements, Entries, null, undef, nil, cmp_wildcard, cmp_inf, rec, boolean, integer, double,
  string, geojson, bytes, list, map, pair, no_elements, element, no_entries, entry, as_list_size,
  as_map_size,
}
use aerospike_common.Val.Compare.{as_val_cmp}
use aerospike_common.OrderedMap.{MapEntry, as_orderedmap_set_flags}
use aerospike_common.OrderedMap.Append.{IsAbove}
use aerospike_common.Msgpack.Packer.{int32_max}
use aerospike_common.Msgpack.Pack.Blob.{as_bytes_string, as_bytes_geojson}
use aerospike_common.Msgpack.Pack.Value.{as_packed_map_flag_k_ordered}
use aerospike_common.Msgpack.Unpack.Value.{
  is_null, or_nil, is_valid_key_type, c_string, as_packed_map_flag_preserve_order,
}
use aerospike_common.Msgpack.RoundTrip.Number.{InInt64}
use aerospike_common.Msgpack.RoundTrip.Value.{val_bytes, map_start_bytes}
use aerospike_common.Msgpack.RoundTrip.Value.Heads.{
  Headed, Headed-append, Headed-by, Headed-if, int64_bytes-Headed, string_header_bytes-Headed,
  list_header_bytes-Headed, map_header_bytes-Headed,
}

-- The flags of an `as_orderedmap`, which `as_orderedmap_set_flags` leaves alone: none, or some that say
-- that the keys are in order.
abbrev pub HasMapFlags : ℕ → Type 0
HasMapFlags flags =
    (as_orderedmap_set_flags flags ≡ flags)
    × (flags < 2 ^ 8)
    × (bit_and flags as_packed_map_flag_preserve_order ≡ 0)
    × ((flags ≡ 0) ⊎ ((bit_and flags as_packed_map_flag_k_ordered == 0) ≡ false))

-- The nesting of lists and maps.
unfoldable mutual
  pub depth : Val → ℕ
  depth (list flags xs) = suc (depth_elements xs)
  depth (map flags es) = suc (depth_entries es)
  depth _ = 0

  pub depth_elements : Elements → ℕ
  depth_elements no_elements = 0
  depth_elements (element x xs) = max (depth x) (depth_elements xs)

  pub depth_entries : Entries → ℕ
  depth_entries no_entries = 0
  depth_entries (entry k v es) = max (max (depth k) (depth v)) (depth_entries es)

module _ (double_lt : ℕ → ℕ → Bool) where
  -- No NUL in a string, no byte array with the type of a string, no flags of a list, the keys of a
  -- map in ascending order; none of the values with a type of their own, and no pair, which comes back
  -- as a list.
  unfoldable mutual
    pub IsStorable : Val → Type 0
    IsStorable nil = Unit
    IsStorable (boolean b) = Unit
    IsStorable (integer i) = InInt64 i
    IsStorable (double d) = d < 2 ^ 64
    IsStorable (string s) = (length s ≤ int32_max) × (c_string s ≡ s)
    IsStorable (geojson s) = (length s ≤ int32_max) × (c_string s ≡ s)
    IsStorable (bytes type b) =
        (length b ≤ int32_max)
        × (type < 2 ^ 8)
        × ((type == as_bytes_string) ≡ false)
        × ((type == as_bytes_geojson) ≡ false)
    IsStorable (list flags xs) = (flags ≡ 0) × (as_list_size xs < 2 ^ 32) × AreStorable xs
    IsStorable (map flags es) =
        HasMapFlags flags × (as_map_size es < 2 ^ 32 - 1001) × AreAscending [] es
    IsStorable _ = ⊥

    pub AreStorable : Elements → Type 0
    AreStorable no_elements = Unit
    AreStorable (element x xs) = IsStorable x × AreStorable xs

    -- Each key is greater than those of `before` and than those in front of it.
    pub AreAscending : List (MapEntry Val Val) → Entries → Type 0
    AreAscending before no_entries = Unit
    AreAscending before (entry k v es) =
        (is_valid_key_type k ≡ true)
        × IsAbove (as_val_cmp double_lt) k before
        × IsStorable k
        × IsStorable v
        × AreAscending (before ++ (record { key = k; value = v } ∷ [])) es

  pub IsStorable-is_null : (v : Val) → IsStorable v → is_null v ≡ false
  unfolding IsStorable
  IsStorable-is_null null h = absurd h
  IsStorable-is_null _ h = refl

  pub IsStorable-or_nil : (v : Val) → IsStorable v → or_nil v ≡ v
  unfolding IsStorable or_nil
  IsStorable-or_nil null h = absurd h
  IsStorable-or_nil _ h = refl

  pub val_bytes-Headed : (v : Val) → IsStorable v → Headed (val_bytes v)
  unfolding IsStorable val_bytes map_start_bytes
  val_bytes-Headed nil h = Headed-by 0xc0 [] (omega arith) (ground arith)
  val_bytes-Headed (boolean true) h = Headed-by 0xc3 [] (omega arith) (ground arith)
  val_bytes-Headed (boolean false) h = Headed-by 0xc2 [] (omega arith) (ground arith)
  val_bytes-Headed (integer i) h = int64_bytes-Headed i
  val_bytes-Headed (double d) h = Headed-by 0xcb _ (omega arith) (ground arith)
  val_bytes-Headed (string s) h = Headed-append _ _ (string_header_bytes-Headed _)
  val_bytes-Headed (geojson s) h = Headed-append _ _ (string_header_bytes-Headed _)
  val_bytes-Headed (bytes type b) h = Headed-append _ _ (string_header_bytes-Headed _)
  val_bytes-Headed (list flags xs) h = Headed-append _ _ (list_header_bytes-Headed _)
  val_bytes-Headed (map flags es) h = Headed-append _ _ (
      Headed-if (bit_and flags as_packed_map_flag_k_ordered == 0) _ _
        (λ unordered. map_header_bytes-Headed _)
        (λ ordered. Headed-append _ _ (map_header_bytes-Headed _)))
  val_bytes-Headed null h = absurd h
  val_bytes-Headed undef h = absurd h
  val_bytes-Headed rec h = absurd h
  val_bytes-Headed (pair x y) h = absurd h
  val_bytes-Headed cmp_wildcard h = absurd h
  val_bytes-Headed cmp_inf h = absurd h
