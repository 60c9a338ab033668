-- ===== src/OrderedMap.antt =====
-- src/main/aerospike/as_orderedmap.c: a map as an array of entries sorted by their keys, with a second
-- array that holds back entries far from the end of the first. The arrays are the lists of their
-- entries in use. The order of keys, `cmp`, and the test `is_valid_key` are those of the values that are
-- keys; `cf_malloc` and `cf_realloc` are arguments that answer whether there is memory for so many
-- bytes. `none` is an access outside of an array.
pub mod Find
pub mod Append
pub mod Sorted
pub mod Place
pub mod Set
pub mod Lookup
pub mod Keys
pub mod Iterate
mod Tests
use aerospike_common.Common.{
  ℕ, zero, suc, ◌+◌, ◌-◌, ◌*◌, ◌/◌, ◌%◌, ◌^◌, ℤ, pos, negsuc, List, [], ◌∷◌, ◌++◌, Option, none,
  some, Bool, true, false, ltb, leb, ◌==◌, ◌&&◌, not, bit_and, bit_or, if◌then◌else◌, add32, length,
  take, drop, set, get_elem?,
}
use mathlib.Core.List
use aerospike_common.Val.Compare.{Comparison, error, end, less, equal, greater}

-- `map_entry`
pub record MapEntry {ℓ} (K V : Type ℓ) : Type ℓ where
  pub key : K
  pub value : V

-- `as_orderedmap`. `count` and `hold_count` are the lengths of `table` and `hold`; an item of `hold` is
-- one of `hold_table` with its `hold_locations`; `room` is how many entries the block of `table` holds;
-- `hold_ready` tells whether the blocks of the hold table are there. `flags` is that of `as_map`.
pub record OrderedMap {ℓ} (K V : Type ℓ) : Type ℓ where
  pub flags : ℕ
  pub capacity : ℕ
  pub room : ℕ
  pub table : List (MapEntry K V)
  pub hold_ready : Bool
  pub hold : List (MapEntry K V × ℕ)

abbrev pub hold_table_cap : ℕ
hold_table_cap = 1000

abbrev pub sizeof_map_entry : ℕ
sizeof_map_entry = 16

abbrev pub uint32_max : ℕ
uint32_max = 2 ^ 32 - 1

-- `memmove(&xs[i + 1], &xs[i], …); xs[i] = x;`
abbrev pub insert_at {ℓ} : {A : Type ℓ} → ℕ → A → List A → List A
insert_at i x xs = take i xs ++ (x ∷ drop i xs)

abbrev pub remove_at {ℓ} : {A : Type ℓ} → ℕ → List A → List A
remove_at i xs = take i xs ++ drop (suc i) xs

-- `map->flags` after `as_orderedmap_set_flags`; 0x13 is `AS_MAP_FLAGS_MASK`.
unfoldable pub as_orderedmap_set_flags : ℕ → ℕ
as_orderedmap_set_flags flags =
    let masked = bit_and flags 0x13 in if masked == 0 then masked else bit_or masked 1

-- The first probe is at the end where `check_last_first` is set, the others are in the middle.
unfoldable pub probe_ix : Bool → ℕ → ℕ → ℕ
probe_ix check_last_first low stop = if check_last_first then stop - 1 else (low + stop - 1) / 2

module _ {ℓ} {K V : Type ℓ} where
  abbrev pub hold_table : OrderedMap K V → List (MapEntry K V)
  hold_table m = List.map (λ h. h.0) m.hold

  abbrev pub key_at : List (MapEntry K V) → ℕ → Option K
  key_at table ix = elim (get_elem? table ix) [ none ↦ none | some e ↦ some e.key ]

  unfoldable pub as_orderedmap_size : OrderedMap K V → ℕ
  as_orderedmap_size m = add32 (length m.table) (length m.hold)

  -- The copies of `as_orderedmap_merge`: of the entries from `src_ix` on, in `rest`, those before each
  -- location go first.
  unfoldable pub merge_from :
      ℕ → List (MapEntry K V × ℕ) → List (MapEntry K V) → List (MapEntry K V)
  merge_from src_ix [] rest = rest
  merge_from src_ix ((e, location) ∷ hold) rest =
      let n_entries = location - src_ix in
      take n_entries rest ++ (e ∷ merge_from location hold (drop n_entries rest))

  abbrev pub value_at : List (MapEntry K V) → ℕ → Option (Option V)
  value_at table ix = elim (get_elem? table ix) [ none ↦ none | some e ↦ some (some e.value) ]

  -- An entry written over the one at an index of the hold table, at the same location.
  abbrev pub replace_hold : ℕ → MapEntry K V → List (MapEntry K V × ℕ) → List (MapEntry K V × ℕ)
  replace_hold i e [] = []
  replace_hold zero e (h ∷ hs) = (e, h.1) ∷ hs
  replace_hold (suc i) e (h ∷ hs) = h ∷ replace_hold i e hs

  unfoldable pub put_main : OrderedMap K V → ℕ → MapEntry K V → Option (ℤ × OrderedMap K V)
  put_main m ix e =
      if ltb (length m.table) m.room
      then some (pos 0, record m { table = insert_at ix e m.table })
      else none

  unfoldable pub as_orderedmap_clear : OrderedMap K V → OrderedMap K V
  as_orderedmap_clear m = record m { table = []; hold = [] }

  module _ (malloc : ℕ → Bool) where
    -- `capacity + 8` is a `uint32_t`; `none` is NULL.
    unfoldable pub as_orderedmap_cons : ℕ → Option (OrderedMap K V)
    as_orderedmap_cons capacity =
        let rounded = add32 capacity 8 / 8 * 8 in
        if malloc (rounded * sizeof_map_entry)
        then some (record {
          flags = 1;
          capacity = rounded;
          room = rounded;
          table = [];
          hold_ready = false;
          hold = [];
        })
        else none

    unfoldable pub as_orderedmap_new : ℕ → ℕ → Option (OrderedMap K V)
    unfolding as_orderedmap_cons
    as_orderedmap_new sizeof_map capacity =
        if malloc sizeof_map then as_orderedmap_cons capacity else none

    unfoldable pub as_orderedmap_merge : OrderedMap K V → Bool × OrderedMap K V
    as_orderedmap_merge m =
        let total = add32 (length m.table) (length m.hold) in
        let new_capacity = if ltb total m.capacity then m.capacity else total in
        if length m.hold == 0
        then (true, m)
        else if malloc (new_capacity * sizeof_map_entry)
        then (
          true,
          record m {
            capacity = new_capacity;
            room = new_capacity;
            table = merge_from 0 m.hold m.table;
            hold = [];
          },
        )
        else (false, m)

  module _ (cmp : K → K → Comparison) where
    -- The loop of `key_find`, with `stop` for `high + 1`; each round makes `stop - low` less.
    unfoldable pub find_loop : List (MapEntry K V) → K → ℕ → ℕ → ℕ → Bool → Option (Bool × ℕ)
    find_loop table key zero low stop check_last_first = none
    find_loop table key (suc fuel) low stop check_last_first =
        let ix = probe_ix check_last_first low stop in
        if leb stop low then some (false, low) else elim (key_at table ix) [
          | none ↦ none
          | some k ↦ elim (cmp key k) [
            | greater ↦ find_loop table key fuel (ix + 1) stop false
            | less ↦ find_loop table key fuel low ix false
            | equal ↦ some (true, ix)
            | error ↦ some (false, uint32_max)
            | end ↦ some (false, uint32_max)
          ]
        ]

    -- The result and `*ix_r`.
    unfoldable pub key_find : List (MapEntry K V) → K → Bool → Option (Bool × ℕ)
    key_find table key check_last_first =
        find_loop table key (suc (length table)) 0 (length table) check_last_first

  -- `is_valid_key` is `is_valid_key_type`, false for NULL; `or_nil` puts `as_nil` for a NULL value.
  module _ (cmp : K → K → Comparison) (is_valid_key : K → Bool) where
    unfoldable pub as_orderedmap_get : OrderedMap K V → K → Option (Option V)
    as_orderedmap_get m key =
        if not (is_valid_key key) then some none else elim (key_find cmp m.table key false) [
          | none ↦ none
          | some (true, ix) ↦ value_at m.table ix
          | some (false, ix) ↦ elim (key_find cmp (hold_table m) key false) [
            | none ↦ none
            | some (true, hold_ix) ↦ value_at (hold_table m) hold_ix
            | some (false, hold_ix) ↦ some none
          ]
        ]

    module _ (malloc realloc : ℕ → Bool) where
      -- A failing `cf_realloc` leaves the capacity doubled. An entry past the block is a fault.
      unfoldable pub insert_main : OrderedMap K V → ℕ → MapEntry K V → Option (ℤ × OrderedMap K V)
      insert_main m ix e =
          if length m.table == m.capacity
          then (let doubled = m.capacity * 2 % 2 ^ 32 in
              if realloc (doubled * sizeof_map_entry)
              then put_main (record m { capacity = doubled; room = doubled }) ix e
              else some (negsuc 0, record m { capacity = doubled }))
          else put_main m ix e

      -- `merge` failing is ignored.
      unfoldable pub insert_hold : OrderedMap K V → ℕ → ℕ → MapEntry K V → ℤ × OrderedMap K V
      insert_hold m hold_ix ix e =
          let grown = record m { hold = insert_at hold_ix (e, ix) m.hold } in
          if length grown.hold == hold_table_cap
          then (pos 0, (as_orderedmap_merge malloc grown).1)
          else (pos 0, grown)

      -- The allocation of the hold table; NULL is written through if it fails.
      unfoldable pub make_hold_ready : OrderedMap K V → Option (OrderedMap K V)
      make_hold_ready m =
          if m.hold_ready
          then some m
          else if malloc (hold_table_cap * sizeof_map_entry) && malloc (hold_table_cap * 4)
          then some (record m { hold_ready = true })
          else none

      unfoldable pub set_hold : OrderedMap K V → ℕ → MapEntry K V → Option (ℤ × OrderedMap K V)
      set_hold m ix e = elim (make_hold_ready m) [
        | none ↦ none
        | some m' ↦ elim (key_find cmp (hold_table m') e.key false) [
          | none ↦ none
          | some (found, hold_ix) ↦
              if hold_ix == uint32_max
              then some (negsuc 0, m')
              else if found
              then some (pos 0, record m' { hold = replace_hold hold_ix e m'.hold })
              else if length m'.hold == hold_table_cap
              then some (negsuc 0, m')
              else some (insert_hold m' hold_ix ix e)
        ]
      ]

      unfoldable pub as_orderedmap_set :
          (V → V) → OrderedMap K V → K → V → Option (ℤ × OrderedMap K V)
      as_orderedmap_set or_nil m key val =
          let e : MapEntry K V = record { key = key; value = or_nil val } in
          if not (is_valid_key key)
          then some (negsuc 0, m)
          else elim (key_find cmp m.table key true) [
            | none ↦ none
            | some (found, ix) ↦
                if ix == uint32_max
                then some (negsuc 0, m)
                else if found
                then some (pos 0, record m { table = set m.table ix e })
                else if ltb (length m.table) (add32 ix hold_table_cap)
                then insert_main m ix e
                else set_hold m ix e
          ]

      unfoldable pub as_orderedmap_remove : OrderedMap K V → K → Option (ℤ × OrderedMap K V)
      as_orderedmap_remove m key =
          let (merged, m') = as_orderedmap_merge malloc m in
          if not (is_valid_key key)
          then some (negsuc 0, m)
          else if not merged
          then some (negsuc 0, m')
          else elim (key_find cmp m'.table key false) [
            | none ↦ none
            | some (true, ix) ↦ some (pos 0, record m' { table = remove_at ix m'.table })
            | some (false, ix) ↦ some (pos 0, m')
          ]
