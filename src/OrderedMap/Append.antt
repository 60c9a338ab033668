-- ===== src/OrderedMap/Append.antt =====
-- Keys that come in order: `as_orderedmap_set` with a key greater than all others.
use aerospike_common.Common.{
  ℕ, zero, suc, ◌-◌, ◌^◌, ◌≤◌, ◌<◌, ◌≡◌, refl, ap, arith, List, [], ◌∷◌, ◌++◌, some, Bool, true,
  false, ltb, ◌==◌, add32, length, drop, pos, take_length,
}
use aerospike_common.Val.Compare.{Comparison, greater}
use aerospike_common.OrderedMap.{
  MapEntry, OrderedMap, uint32_max, hold_table_cap, as_orderedmap_set, insert_main, put_main,
}
use aerospike_common.OrderedMap.Find.{Divides, side, key_find-Divides}

module _ {ℓ} {K V : Type ℓ} (cmp : K → K → Comparison) where
  -- The key is greater than every key of the table.
  abbrev pub IsAbove : K → List (MapEntry K V) → Type 0
  IsAbove key [] = Unit
  IsAbove key (e ∷ es) = (cmp key e.key ≡ greater) × IsAbove key es

  pub IsAbove-append :
      (key : K) (xs ys : List (MapEntry K V))
      → IsAbove key xs
      → IsAbove key ys
      → IsAbove key (xs ++ ys)
  IsAbove-append key [] ys h k = k
  IsAbove-append key (x ∷ xs) ys (h, hs) k = (h, IsAbove-append key xs ys hs k)

  side-IsAbove :
      (key : K) (table : List (MapEntry K V))
      → IsAbove key table
      → (i : ℕ) → i < length table
      → side cmp table key i ≡ some greater
  side-IsAbove key [] h i small = absurd (omega arith)
  side-IsAbove key (e ∷ es) (h, hs) zero small = ap some h
  side-IsAbove key (e ∷ es) (h, hs) (suc i) small = side-IsAbove key es hs i (omega arith)

  Divides-IsAbove :
      (key : K) (table : List (MapEntry K V))
      → IsAbove key table
      → Divides cmp table key (length table)
  Divides-IsAbove key table h = record {
    place = omega arith;
    before = side-IsAbove key table h;
    behind = λ i over small. absurd (omega arith);
  }

  drop_length : (xs : List (MapEntry K V)) → drop (length xs) xs ≡ []
  drop_length [] = refl
  drop_length (x ∷ xs) = drop_length xs

  pub as_orderedmap_set-IsAbove :
      (is_valid_key : K → Bool) (malloc realloc : ℕ → Bool) (or_nil : V → V) (m : OrderedMap K V)
      (key : K) (val : V)
      → is_valid_key key ≡ true
      → IsAbove key m.table
      → length m.table < m.capacity
      → m.capacity ≤ m.room
      → length m.table < 2 ^ 32 - 1000
      → as_orderedmap_set cmp is_valid_key malloc realloc or_nil m key val
        ≡ some
            (pos 0, record m { table = m.table ++ (record { key = key; value = or_nil val } ∷ []) })
  unfolding as_orderedmap_set insert_main put_main
  as_orderedmap_set-IsAbove is_valid_key malloc realloc or_nil m key val valid above room fits
        small =
      let n = length m.table in
      let found =
        key_find-Divides cmp m.table key n false true (Divides-IsAbove key m.table above)
          (λ h. absurd (omega arith)) in
      let in_range : (n == uint32_max) ≡ false = ground arith in
      let near_end : ltb n (add32 n hold_table_cap) ≡ true = ground arith in
      let not_full : (n == m.capacity) ≡ false = ground arith in
      let room_left : ltb n m.room ≡ true = ground arith in
      rw
        (
          valid,
          found,
          in_range,
          near_end,
          not_full,
          room_left,
          take_length m.table,
          drop_length m.table,
        )
        refl
