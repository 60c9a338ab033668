-- ===== src/OrderedMap/Iterate.antt =====
-- The iteration functions of src/main/aerospike/as_orderedmap.c. A callback takes and returns the state
-- behind `udata`; the map of an iterator is not changed while it is in use.
use aerospike_common.Common.{
  ℕ, zero, suc, ◌+◌, ◌<◌, ◌^◌, ◌≡◌, refl, sym, ap, ◌∙◌, arith, List, [], ◌∷◌, ◌++◌, Option, none,
  some, Bool, true, false, ltb, leb, if◌then◌else◌, add32, length, drop, get_elem?, append-nil,
  append_assoc,
}
use aerospike_common.OrderedMap.{MapEntry, OrderedMap, as_orderedmap_merge}

-- `as_orderedmap_iterator`, without its pair.
pub record OrderedMapIterator {ℓ} (K V : Type ℓ) : Type ℓ where
  pub map : OrderedMap K V
  pub ix : ℕ

module _ {ℓ} {K V : Type ℓ} where
  -- The loop of `as_orderedmap_foreach`: its result, and the state it leaves.
  unfoldable pub foreach_entry :
      {S : Type ℓ} → (K → V → S → Bool × S) → List (MapEntry K V) → S → Bool × S
  foreach_entry callback [] udata = (true, udata)
  foreach_entry callback (e ∷ es) udata =
      let (goes_on, udata') = callback e.key e.value udata in
      let rest = foreach_entry callback es udata' in if goes_on then rest else (false, udata')

  unfoldable pub as_orderedmap_iterator_has_next : OrderedMapIterator K V → Bool
  as_orderedmap_iterator_has_next it = ltb it.ix (length it.map.table)

  -- The pair, NULL at the end.
  unfoldable pub as_orderedmap_iterator_next :
      OrderedMapIterator K V → Option (Option (MapEntry K V) × OrderedMapIterator K V)
  as_orderedmap_iterator_next it =
      if leb (length it.map.table) it.ix
      then some (none, it)
      else elim (get_elem? it.map.table it.ix) [
        | none ↦ none
        | some e ↦ some (some e, record it { ix = add32 it.ix 1 })
      ]

  module _ (malloc : ℕ → Bool) where
    unfoldable pub as_orderedmap_foreach :
        {S : Type ℓ} → OrderedMap K V → (K → V → S → Bool × S) → S → (Bool × S) × OrderedMap K V
    unfolding foreach_entry
    as_orderedmap_foreach m callback udata =
        let (merged, m') = as_orderedmap_merge malloc m in
        if merged then (foreach_entry callback m'.table udata, m') else ((false, udata), m')

    -- The iterator, or NULL, and the map, which has its entries merged.
    unfoldable pub as_orderedmap_iterator_init :
        OrderedMap K V → Option (OrderedMapIterator K V) × OrderedMap K V
    as_orderedmap_iterator_init m =
        let (merged, m') = as_orderedmap_merge malloc m in
        if merged then (some (record { map = m'; ix = 0 }), m') else (none, m')

  -- `while (has_next(it)) { e = next(it); … }`, for at most so many rounds: the entries that come.
  pub visit : ℕ → OrderedMapIterator K V → Option (List (MapEntry K V) × OrderedMapIterator K V)
  visit zero it = some ([], it)
  visit (suc rounds) it =
      if as_orderedmap_iterator_has_next it
      then elim (as_orderedmap_iterator_next it) [
        | none ↦ none
        | some (none, it') ↦ some ([], it')
        | some (some e, it') ↦ elim (visit rounds it') [
          | none ↦ none
          | some (es, it'') ↦ some (e ∷ es, it'')
        ]
      ]
      else some ([], it)

  -- A callback that collects what it is given.
  pub collect : K → V → List (MapEntry K V) → Bool × List (MapEntry K V)
  collect k v seen = (true, seen ++ ((record { key = k; value = v }) ∷ []))

  foreach_entry-collect :
      (table seen : List (MapEntry K V)) → foreach_entry collect table seen ≡ (true, seen ++ table)
  unfolding foreach_entry collect
  foreach_entry-collect [] seen = ap (λ xs. (true, xs)) (sym (append-nil seen))
  foreach_entry-collect (e ∷ es) seen =
      foreach_entry-collect es (seen ++ (e ∷ []))
      ∙ ap (λ xs. (true, xs)) (append_assoc seen (e ∷ []) es)

  drop_next :
      (n : ℕ) (xs : List (MapEntry K V)) {e : MapEntry K V} {es : List (MapEntry K V)}
      → drop n xs ≡ e ∷ es
      → (get_elem? xs n ≡ some e) × (drop (suc n) xs ≡ es)
  drop_next zero [] h = absurd (ground arith)
  drop_next zero (x ∷ xs) h = (cc, cc)
  drop_next (suc n) [] h = absurd (ground arith)
  drop_next (suc n) (x ∷ xs) h = drop_next n xs h

  visit-drop :
      (rest : List (MapEntry K V)) (it : OrderedMapIterator K V)
      → drop it.ix it.map.table ≡ rest
      → it.ix + length rest ≡ length it.map.table
      → length it.map.table < 2 ^ 32
      → visit (length rest) it ≡ some (rest, record it { ix = length it.map.table })
  unfolding visit as_orderedmap_iterator_has_next as_orderedmap_iterator_next
  visit-drop [] it lies ends small =
      let same : it.ix ≡ length it.map.table = omega arith in
      ap (λ n. some ([], record it { ix = n })) same
  visit-drop (e ∷ es) it lies ends small =
      let (here, next) = drop_next it.ix it.map.table lies in
      let more : ltb it.ix (length it.map.table) ≡ true = ground arith in
      let inside : leb (length it.map.table) it.ix ≡ false = ground arith in
      let step : add32 it.ix 1 ≡ suc it.ix = omega arith in
      let others = visit-drop es (record it { ix = suc it.ix }) next (omega arith) small in
      rw (more, inside, here, step, others) refl

  -- Once what a map holds back is merged, an iterator gives its entries in order and each once, as
  -- `as_orderedmap_foreach` does,
  -- after as many rounds as there are entries, and then `as_orderedmap_iterator_has_next` is false;
  -- neither leaves the table.
  pub as_orderedmap_iterator-as_orderedmap_foreach :
      (malloc : ℕ → Bool) (m m' : OrderedMap K V)
      → as_orderedmap_merge malloc m ≡ (true, m')
      → length m'.table < 2 ^ 32
      → (it : OrderedMapIterator K V) × (end : OrderedMapIterator K V)
        × (as_orderedmap_iterator_init malloc m ≡ (some it, m'))
        × (visit (length m'.table) it ≡ some (m'.table, end))
        × (as_orderedmap_iterator_has_next end ≡ false)
        × (as_orderedmap_foreach malloc m collect [] ≡ ((true, m'.table), m'))
  unfolding as_orderedmap_iterator_init as_orderedmap_iterator_has_next as_orderedmap_foreach
  as_orderedmap_iterator-as_orderedmap_foreach malloc m m' merged small = (
    record { map = m'; ix = 0 },
    record { map = m'; ix = length m'.table },
    rw merged refl,
    visit-drop m'.table (record { map = m'; ix = 0 }) refl (omega arith) small,
    ground arith,
    rw merged (ap (λ r. (r, m')) (foreach_entry-collect m'.table [])),
  )
