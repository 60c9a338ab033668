-- ===== src/Val/Compare.antt =====
-- `as_val_cmp` of src/main/aerospike/as_msgpack.c, the order of values.
use aerospike_common.Common.{
  ℕ, suc, ℤ, pos, negsuc, List, [], ◌∷◌, Bool, true, false, ltb, ◌==◌, ◌||◌, ◌&&◌, not,
  if◌then◌else◌,
}
use aerospike_common.Val.{
  Val, Elements, Entries, nil, cmp_wildcard, boolean, integer, double, string, geojson, bytes, list,
  map, no_elements, element, no_entries, entry, as_val_type, as_list_size, as_map_size,
}

-- `msgpack_compare_t`
pub data Comparison : Type 0 where
  error end less equal greater : Comparison

-- The macro `MSGPACK_COMPARE_RET_LESS_OR_GREATER` before `rest`, and then EQUAL.
abbrev pub less_or_greater : Bool → Bool → Comparison → Comparison
less_or_greater lt gt rest = if lt then less else if gt then greater else rest

abbrev pub compare_nat : ℕ → ℕ → Comparison → Comparison
compare_nat a b rest = less_or_greater (ltb a b) (ltb b a) rest

abbrev ltb_int : ℤ → ℤ → Bool
ltb_int (pos a) (pos b) = ltb a b
ltb_int (pos a) (negsuc b) = false
ltb_int (negsuc a) (pos b) = true
ltb_int (negsuc a) (negsuc b) = ltb b a

-- The sign of `memcmp` or `strcmp` on bytes: that of the first difference, or else of the lengths.
-- `strcmp` meets a NUL at the end of the shorter string.
unfoldable pub bytes_cmp : List ℕ → List ℕ → Comparison
bytes_cmp [] [] = equal
bytes_cmp [] (y ∷ ys) = less
bytes_cmp (x ∷ xs) [] = greater
bytes_cmp (x ∷ xs) (y ∷ ys) = compare_nat x y (bytes_cmp xs ys)

abbrev is_wildcard : Val → Bool
is_wildcard v = as_val_type v == 13

-- `double_lt` is the machine's `<` on the bit patterns of two doubles. NULL is not compared.
module _ (double_lt : ℕ → ℕ → Bool) where
  -- The `switch` of `as_val_cmp` but for lists and maps, on two values of the same type.
  unfoldable pub switch_cmp : Val → Val → Comparison
  switch_cmp nil nil = equal
  switch_cmp (boolean a) (boolean b) = less_or_greater (not a && b) (a && not b) equal
  switch_cmp (integer a) (integer b) = less_or_greater (ltb_int a b) (ltb_int b a) equal
  switch_cmp (double a) (double b) = less_or_greater (double_lt a b) (double_lt b a) equal
  switch_cmp (string a) (string b) = bytes_cmp a b
  switch_cmp (geojson a) (geojson b) = bytes_cmp a b
  switch_cmp (bytes t a) (bytes u b) = bytes_cmp a b
  switch_cmp cmp_wildcard cmp_wildcard = equal
  switch_cmp _ _ = error

  -- Two lists, or two maps, have the same type.
  unfoldable mutual
    unfolding switch_cmp

    pub as_val_cmp : Val → Val → Comparison
    as_val_cmp (list f xs) (list g ys) = as_list_cmp xs ys
    as_val_cmp (map f es) (map g fs) =
        compare_nat (as_map_size es) (as_map_size fs) (map_keys_cmp es fs)
    as_val_cmp v1 v2 =
        compare_nat (as_val_type v1) (as_val_type v2)
          (if is_wildcard v1 || is_wildcard v2 then equal else switch_cmp v1 v2)

    -- The loop over the common places, then the lengths; those of what is left compare as the
    -- whole ones do.
    pub as_list_cmp : Elements → Elements → Comparison
    as_list_cmp no_elements ys = compare_nat 0 (as_list_size ys) equal
    as_list_cmp (element x xs) no_elements = compare_nat (suc (as_list_size xs)) 0 equal
    as_list_cmp (element x xs) (element y ys) =
        let rest = as_list_cmp xs ys in
        if is_wildcard x || is_wildcard y
        then equal
        else elim (as_val_cmp x y) [ equal ↦ rest | other ↦ other ]

    -- The loop of `as_map_cmp`, over maps of the same size: only the keys are compared.
    pub map_keys_cmp : Entries → Entries → Comparison
    map_keys_cmp no_entries fs = equal
    map_keys_cmp (entry k v es) no_entries = equal
    map_keys_cmp (entry k v es) (entry l w fs) =
        let rest = map_keys_cmp es fs in elim (as_val_cmp k l) [ equal ↦ rest | other ↦ other ]
