-- ===== src/Msgpack/RoundTrip/Value/Filling.antt =====
-- The entries of a packed map, set one after the other in an empty table.
use aerospike_common.Common.{
  ℕ, suc, ◌+◌, ◌-◌, ◌≤◌, ◌<◌, ◌^◌, ◌≡◌, ◌∙◌, refl, ap, arith, List, [], ◌∷◌, ◌++◌, Bool, true,
  false, some, length, length-append, append_assoc, append-nil,
}
use native.Mathlib.Nat.{add-zero}
use aerospike_common.Val.{Val, Entries, entry, no_entries, as_map_size}
use aerospike_common.Val.Compare.{as_val_cmp}
use aerospike_common.OrderedMap.{MapEntry, OrderedMap}
use aerospike_common.OrderedMap.Append.{IsAbove, as_orderedmap_set-IsAbove}
use aerospike_common.Msgpack.Unpacker.{Unpacker, M, Result, ok}
use aerospike_common.Msgpack.Unpacker.Reads.{bind-some, advance}
use aerospike_common.Msgpack.Unpack.Value.{
  is_null, or_nil, is_valid_key_type, to_entries, with_entry, unpack_entries, entry_into,
}
use aerospike_common.Msgpack.RoundTrip.Value.Leaves.{advance-advance}

-- The table that holds the entries.
abbrev pub from_entries : Entries → List (MapEntry Val Val)
from_entries no_entries = []
from_entries (entry k v es) = (record { key = k; value = v }) ∷ from_entries es

pub to_entries-from_entries : (es : Entries) → to_entries (from_entries es) ≡ es
to_entries-from_entries no_entries = refl
to_entries-from_entries (entry k v es) = ap (entry k v) (to_entries-from_entries es)

-- A table with room for `n` more entries, and nothing held back.
pub record Roomy (m : OrderedMap Val Val) (n : ℕ) : Type 0 where
  pub fits : length m.table + n ≤ m.capacity
  pub room : m.capacity ≤ m.room
  pub small : length m.table + n < 2 ^ 32 - 1000
  pub nothing_held : m.hold ≡ []

module _ (malloc realloc : ℕ → Bool) (sizeof_map : ℕ) (widen : ℕ → ℕ) (double_lt : ℕ → ℕ → Bool)
    (next : M (Result Val)) where
  abbrev with_table : OrderedMap Val Val → List (MapEntry Val Val) → OrderedMap Val Val
  with_table m table = record m { table = table }

  -- The entries `es` are to come, in the next `n` bytes, and find room.
  abbrev pub ReadsEntries : Unpacker → Entries → OrderedMap Val Val → ℕ → Type 0
  ReadsEntries pk es m n =
      unpack_entries malloc realloc sizeof_map widen double_lt next (as_map_size es) m pk
      ≡ some (ok (record m { table = m.table ++ from_entries es }), advance pk n)

  entry_into-IsAbove :
      (m : OrderedMap Val Val) (k v : Val) (n : ℕ)
      → Roomy m (suc n)
      → is_null k ≡ false
      → is_null v ≡ false
      → or_nil v ≡ v
      → is_valid_key_type k ≡ true
      → IsAbove (as_val_cmp double_lt) k m.table
      → entry_into malloc realloc sizeof_map widen double_lt next m k v
        ≡ some (ok (record m { table = m.table ++ (record { key = k; value = v } ∷ []) }))
  unfolding entry_into
  entry_into-IsAbove m k v n roomy key value same valid above =
      let set =
        as_orderedmap_set-IsAbove (as_val_cmp double_lt) is_valid_key_type malloc realloc or_nil m k
          v valid above (omega (arith, roomy.fits)) roomy.room (omega (arith, roomy.small)) in
      rw (key, value, set, same) refl

  pub Roomy-with_table :
      (m : OrderedMap Val Val) (e : MapEntry Val Val) (n : ℕ)
      → Roomy m (suc n)
      → Roomy (with_table m (m.table ++ (e ∷ []))) n
  Roomy-with_table m e n roomy = record {
    fits = omega (arith, roomy.fits, length-append m.table (e ∷ []));
    room = roomy.room;
    small = omega (arith, roomy.small, length-append m.table (e ∷ []));
    nothing_held = roomy.nothing_held;
  }

  pub ReadsEntries-no_entries :
      (pk : Unpacker) (m : OrderedMap Val Val) → ReadsEntries pk no_entries m 0
  unfolding unpack_entries as_map_size
  ReadsEntries-no_entries pk m = rw (append-nil m.table, add-zero) refl

  pub ReadsEntries-entry :
      (pk : Unpacker) (k v : Val) (es : Entries) (m : OrderedMap Val Val) (a b c : ℕ)
      → Roomy m (suc (as_map_size es))
      → is_null k ≡ false
      → is_null v ≡ false
      → or_nil v ≡ v
      → is_valid_key_type k ≡ true
      → IsAbove (as_val_cmp double_lt) k m.table
      → next pk ≡ some (ok k, advance pk a)
      → next (advance pk a) ≡ some (ok v, advance (advance pk a) b)
      → ReadsEntries
          (advance pk (a + b))
          es
          (with_table m (m.table ++ (record { key = k; value = v } ∷ [])))
          c
      → ReadsEntries pk (entry k v es) m (a + b + c)
  unfolding unpack_entries as_map_size
  ReadsEntries-entry pk k v es m a b c roomy key value same valid above first second others =
      bind-some next _ pk (advance pk a) (ok k) first
      ∙ bind-some next _ (advance pk a) (advance (advance pk a) b) (ok v) second
      ∙ ap
          (λ o.
            with_entry o
              (unpack_entries malloc realloc sizeof_map widen double_lt next (as_map_size es))
              (advance (advance pk a) b))
          (entry_into-IsAbove m k v (as_map_size es) roomy key value same valid above)
      ∙ rw (advance-advance pk a b) (
          others
          ∙ rw
              (
                advance-advance pk (a + b) c,
                append_assoc m.table (record { key = k; value = v } ∷ []) (from_entries es),
              )
              refl)
