-- ===== src/Val.antt =====
-- The values of src/include/aerospike/as_val.h and of the value types, as trees. A string or GeoJSON is
-- the bytes before its terminating NUL; a double is its bit pattern; a list or map holds its elements
-- in the order in which `as_list_foreach` or `as_map_foreach` visits them.
pub mod Compare
use aerospike_common.Common.{ℕ, zero, suc, ℤ, List, Bool, ◌≤◌}

-- `null` is the NULL pointer, `undef` a value of another type.
mutual
  pub data Val : Type 0 where
    null undef nil cmp_wildcard cmp_inf rec : Val
    boolean : Bool → Val
    integer : ℤ → Val
    double : ℕ → Val
    string geojson : List ℕ → Val
    bytes : ℕ → List ℕ → Val
    list : ℕ → Elements → Val
    map : ℕ → Entries → Val
    pair : Val → Val → Val

  pub data Elements : Type 0 where
    no_elements : Elements
    element : Val → Elements → Elements

  pub data Entries : Type 0 where
    no_entries : Entries
    entry : Val → Val → Entries → Entries

-- `as_val_type`, as a number of `as_val_type_e`.
unfoldable pub as_val_type : Val → ℕ
as_val_type null = 0
as_val_type undef = 0
as_val_type nil = 1
as_val_type (boolean b) = 2
as_val_type (integer i) = 3
as_val_type (string s) = 4
as_val_type (list flags xs) = 5
as_val_type (map flags es) = 6
as_val_type rec = 7
as_val_type (pair x y) = 8
as_val_type (bytes type b) = 9
as_val_type (double d) = 10
as_val_type (geojson s) = 11
as_val_type cmp_wildcard = 13
as_val_type cmp_inf = 14

-- `as_list_size` and `as_map_size`
unfoldable pub as_list_size : Elements → ℕ
as_list_size no_elements = 0
as_list_size (element x xs) = suc (as_list_size xs)

unfoldable pub as_map_size : Entries → ℕ
as_map_size no_entries = 0
as_map_size (entry k v es) = suc (as_map_size es)
