-- ===== src/OrderedMap/Tests.antt =====
-- Runs of an ordered map whose keys are numbers, and its theorems at concrete tables.
use aerospike_common.Common.{
  ℕ, zero, suc, ◌<◌, ◌≡◌, refl, arith, List, [], ◌∷◌, Bool, true, false, some, pos,
}
use aerospike_common.Val.Compare.{Comparison, compare_nat, equal, greater, less}
use aerospike_common.OrderedMap.{MapEntry, OrderedMap, key_find, as_orderedmap_set}
use aerospike_common.OrderedMap.Find.{Divides, side, key_find-Divides}
use aerospike_common.OrderedMap.Sorted.{IsOrder}
use aerospike_common.OrderedMap.Set.{IsMap, Sets, as_orderedmap_set-Sets}
use aerospike_common.OrderedMap.Lookup.{as_orderedmap_get-as_orderedmap_set}
use aerospike_common.OrderedMap.{as_orderedmap_get}
use aerospike_common.Common.{ltb}
use aerospike_common.Val.Compare.{as_val_cmp}
use aerospike_common.Msgpack.Unpack.Value.{is_valid_key_type}
use aerospike_common.OrderedMap.Iterate.{
  OrderedMapIterator, as_orderedmap_iterator_init, as_orderedmap_iterator_has_next,
  as_orderedmap_foreach, visit, collect, as_orderedmap_iterator-as_orderedmap_foreach,
}
use aerospike_common.OrderedMap.{as_orderedmap_merge, merge_from}
use aerospike_common.OrderedMap.Keys.{as_val_cmp-IsOrder}

abbrev number_cmp : ℕ → ℕ → Comparison
number_cmp a b = compare_nat a b equal

abbrev any_key : ℕ → Bool
any_key k = true

abbrev squares : List (MapEntry ℕ ℕ)
squares =
    (record { key = 2; value = 4 })
    ∷ (record { key = 3; value = 9 })
    ∷ (record { key = 5; value = 25 })
    ∷ []

abbrev squares_map : OrderedMap ℕ ℕ
squares_map = record {
  flags = 1;
  capacity = 8;
  room = 8;
  table = squares;
  hold_ready = false;
  hold = [];
}

three_before : (i : ℕ) → i < 1 → side number_cmp squares 3 i ≡ some greater
three_before zero h = refl
three_before (suc i) h = absurd (omega arith)

three_behind : (i : ℕ) → 1 < i → i < 3 → side number_cmp squares 3 i ≡ some less
three_behind zero h k = absurd (omega arith)
three_behind (suc zero) h k = absurd (omega arith)
three_behind (suc (suc zero)) h k = refl
three_behind (suc (suc (suc i))) h k = absurd (omega arith)

squares-Divides : Divides number_cmp squares 3 1
squares-Divides = record { place = omega arith; before = three_before; behind = three_behind }

key_find-Divides_example : key_find number_cmp squares 3 true ≡ some (true, 1)
key_find-Divides_example =
    key_find-Divides number_cmp squares 3 1 true true squares-Divides (omega arith, refl)

number_cmp-IsOrder : IsOrder number_cmp any_key
number_cmp-IsOrder = record {
  total = λ a b va vb. ground arith;
  same = λ a va. ground arith;
  less_equal = λ a b c va vb vc h k. ground arith;
  greater_equal = λ a b c va vb vc h k. ground arith;
  flip = λ a b va vb h. ground arith;
  less_less = λ a b c va vb vc h k. ground arith;
  equal_less = λ a b c va vb vc h k. ground arith;
}

squares_map-IsMap : IsMap number_cmp any_key number_cmp-IsOrder squares_map
squares_map-IsMap = record {
  sorted = (refl, (refl, (refl, tt)), (refl, (refl, tt), (refl, tt, tt)));
  fits = omega arith;
  room = omega arith;
  some_capacity = omega arith;
  small_capacity = omega arith;
  nothing_held = refl;
}

as_orderedmap_get-as_orderedmap_set_example :
    (m' : OrderedMap ℕ ℕ) × (as_orderedmap_set number_cmp any_key
        (λ n. true)
        (λ n. true)
        (λ v. v)
        squares_map
        4
        16
      ≡ some (pos 0, m'))
    × IsMap number_cmp any_key number_cmp-IsOrder m'
    × (as_orderedmap_get number_cmp any_key m' 4 ≡ some (some 16))
    × (as_orderedmap_get number_cmp any_key m' 5
        ≡ as_orderedmap_get number_cmp any_key squares_map 5)
as_orderedmap_get-as_orderedmap_set_example =
    as_orderedmap_get-as_orderedmap_set number_cmp any_key number_cmp-IsOrder (λ n. true)
      (λ n. true) (λ v. v) (λ n. refl) squares_map 4 5 16 refl refl (λ h. cc) squares_map-IsMap
      (omega arith)

as_orderedmap_set-Sets_example :
    Sets number_cmp any_key number_cmp-IsOrder
      (λ n. true)
      (λ n. true)
      (λ v. v)
      (λ n. refl)
      squares_map
      (record { key = 4; value = 16 })
      (as_orderedmap_set number_cmp any_key (λ n. true) (λ n. true) (λ v. v) squares_map 4 16)
as_orderedmap_set-Sets_example =
    as_orderedmap_set-Sets number_cmp any_key number_cmp-IsOrder (λ n. true) (λ n. true) (λ v. v)
      (λ n. refl) squares_map 4 16 refl squares_map-IsMap (omega arith)

as_val_cmp-IsOrder_example : IsOrder (as_val_cmp ltb) is_valid_key_type
as_val_cmp-IsOrder_example = as_val_cmp-IsOrder ltb

abbrev held_map : OrderedMap ℕ ℕ
held_map = record squares_map { hold_ready = true; hold = (record { key = 4; value = 16 }, 2) ∷ [] }

abbrev merged_map : OrderedMap ℕ ℕ
merged_map = record squares_map {
  hold_ready = true;
  table =
      (record { key = 2; value = 4 })
      ∷ (record { key = 3; value = 9 })
      ∷ (record { key = 4; value = 16 })
      ∷ (record { key = 5; value = 25 })
      ∷ [];
}

as_orderedmap_iterator-as_orderedmap_foreach_example :
    (it : OrderedMapIterator ℕ ℕ) × (end : OrderedMapIterator ℕ ℕ) × (as_orderedmap_iterator_init
        (λ n. true)
        held_map
      ≡ (some it, merged_map))
    × (visit 4 it ≡ some (merged_map.table, end))
    × (as_orderedmap_iterator_has_next end ≡ false)
    × (as_orderedmap_foreach (λ n. true) held_map collect []
        ≡ ((true, merged_map.table), merged_map))
unfolding as_orderedmap_merge merge_from
as_orderedmap_iterator-as_orderedmap_foreach_example =
    as_orderedmap_iterator-as_orderedmap_foreach (λ n. true) held_map merged_map refl (omega arith)
