-- ===== src/OrderedMap/Set.antt =====
-- What `as_orderedmap_set` does to the main table of a map in order, while nothing is held back.
use aerospike_common.Common.{
  ℕ, suc, ◌*◌, ◌%◌, ◌^◌, ◌≤◌, ◌<◌, ◌≡◌, refl, sym, ◌∙◌, arith, inl, inr, [], Option, some, Bool,
  true, false, ltb, ◌==◌, add32, length, set, ℤ, pos, length-set, Bool-cases,
}
use aerospike_common.Val.Compare.{Comparison}
use aerospike_common.OrderedMap.{
  MapEntry, OrderedMap, uint32_max, hold_table_cap, insert_at, as_orderedmap_set, insert_main,
  put_main,
}
use aerospike_common.OrderedMap.Find.{key_find-Divides}
use aerospike_common.OrderedMap.Sorted.{IsOrder, IsSorted, put, put-IsSorted, length-put}
use aerospike_common.OrderedMap.Place.{placed}

module _ {ℓ} {K V : Type ℓ} (cmp : K → K → Comparison) (is_valid : K → Bool)
    (order : IsOrder cmp is_valid) where
  -- A map in order, with room for its entries.
  pub record IsMap (m : OrderedMap K V) : Type ℓ where
    pub sorted : IsSorted cmp is_valid m.table
    pub fits : length m.table ≤ m.capacity
    pub room : m.capacity ≤ m.room
    pub some_capacity : 0 < m.capacity
    pub small_capacity : m.capacity < 2 ^ 31
    pub nothing_held : m.hold ≡ []

  module _ (malloc realloc : ℕ → Bool) (or_nil : V → V) (memory : (n : ℕ) → realloc n ≡ true) where
    -- `as_orderedmap_set` returned 0 and put the entry in its place.
    abbrev pub Sets : OrderedMap K V → MapEntry K V → Option (ℤ × OrderedMap K V) → Type ℓ
    Sets m x r =
        (m' : OrderedMap K V) × (r ≡ some (pos 0, m'))
        × IsMap m'
        × (m'.table ≡ put cmp is_valid x m.table)

    insert_main-Sets :
        (m : OrderedMap K V) (x : MapEntry K V) (p : ℕ)
        → is_valid x.key ≡ true
        → IsMap m
        → length m.table < 1000
        → put cmp is_valid x m.table ≡ insert_at p x m.table
        → Sets m x (insert_main cmp is_valid malloc realloc m p x)
    unfolding insert_main put_main
    insert_main-Sets m x p valid h small puts =
        let sorted : IsSorted cmp is_valid (insert_at p x m.table) =
          rw (← puts) (put-IsSorted cmp is_valid order x m.table valid h.sorted) in
        let longer : length (insert_at p x m.table) ≤ suc (length m.table) =
          rw (← puts) (length-put cmp is_valid order x m.table valid h.sorted) in
        elim (Bool-cases (length m.table == m.capacity)) [
          | inl full ↦
              let doubled : ℕ = m.capacity * 2 % 2 ^ 32 in
              let has_room : ltb (length m.table) doubled ≡ true =
                ground (arith, h.some_capacity, h.small_capacity) in
              (
                record m { capacity = doubled; room = doubled; table = insert_at p x m.table },
                rw (full, memory (doubled * 16), has_room) refl,
                record {
                  sorted = sorted;
                  fits = ground (arith, h.some_capacity, h.small_capacity, longer);
                  room = omega arith;
                  some_capacity = ground (arith, h.some_capacity, h.small_capacity);
                  small_capacity = ground (arith, small);
                  nothing_held = h.nothing_held;
                },
                sym puts,
              )
          | inr free ↦
              let has_room : ltb (length m.table) m.room ≡ true = ground (arith, h.fits, h.room) in
              (
                record m { table = insert_at p x m.table },
                rw (free, has_room) refl,
                record {
                  sorted = sorted;
                  fits = ground (arith, h.fits, longer);
                  room = h.room;
                  some_capacity = h.some_capacity;
                  small_capacity = h.small_capacity;
                  nothing_held = h.nothing_held;
                },
                sym puts,
              )
        ]

    replace-Sets :
        (m : OrderedMap K V) (x : MapEntry K V) (p : ℕ)
        → is_valid x.key ≡ true
        → IsMap m
        → put cmp is_valid x m.table ≡ set m.table p x
        → Sets m x (some (pos 0, record m { table = set m.table p x }))
    replace-Sets m x p valid h puts = (
      record m { table = set m.table p x },
      refl,
      record {
        sorted = rw (← puts) (put-IsSorted cmp is_valid order x m.table valid h.sorted);
        fits = omega (arith, h.fits, length-set m.table p x);
        room = h.room;
        some_capacity = h.some_capacity;
        small_capacity = h.small_capacity;
        nothing_held = h.nothing_held;
      },
      sym puts,
    )

    -- On a map in order with fewer than 1000 entries and room to double, `as_orderedmap_set` of a valid
    -- key returns 0, puts the entry in its place or over that of an equal key, and leaves a map in order.
    pub as_orderedmap_set-Sets :
        (m : OrderedMap K V) (key : K) (val : V)
        → is_valid key ≡ true
        → IsMap m
        → length m.table < 1000
        → Sets m
            (record { key = key; value = or_nil val })
            (as_orderedmap_set cmp is_valid malloc realloc or_nil m key val)
    unfolding as_orderedmap_set
    as_orderedmap_set-Sets m key val valid h small =
        let x : MapEntry K V = record { key = key; value = or_nil val } in
        let pl = placed cmp is_valid order key m.table valid h.sorted in
        let finds = key_find-Divides cmp m.table key pl.p pl.found true pl.divides pl.at in
        let inside = pl.divides.place in
        let in_range : (pl.p == uint32_max) ≡ false = ground arith in
        let near_end : ltb (length m.table) (add32 pl.p hold_table_cap) ≡ true = ground arith in
        elim (Bool-cases pl.found) [
          | inl there ↦
              rw (valid, finds, in_range, there)
                (replace-Sets m x pl.p valid h (pl.puts x refl ∙ rw there refl))
          | inr missing ↦
              rw (valid, finds, in_range, missing, near_end)
                (insert_main-Sets m x pl.p valid h small (pl.puts x refl ∙ rw missing refl))
        ]
