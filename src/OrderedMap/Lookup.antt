-- ===== src/OrderedMap/Lookup.antt =====
-- `as_orderedmap_get` after `as_orderedmap_set`: an ordered map is a finite map.
use aerospike_common.Common.{
  ℕ, zero, suc, ◌<◌, ◌≡◌, ◌≢◌, refl, sym, ap, ◌∙◌, arith, inl, inr, List, [], ◌∷◌, Option, none,
  some, Bool, true, false, length, pos, Bool-cases,
}
use aerospike_common.Val.Compare.{Comparison, less, equal, greater}
use aerospike_common.OrderedMap.{
  MapEntry, OrderedMap, value_at, hold_table, key_find, find_loop, as_orderedmap_set,
  as_orderedmap_get,
}
use aerospike_common.OrderedMap.Find.{Divides, IsAt, side, key_find-Divides}
use aerospike_common.OrderedMap.Sorted.{IsOrder, IsSorted, put, put-less, put-equal, put-greater}
use aerospike_common.OrderedMap.Place.{placed}
use aerospike_common.OrderedMap.Set.{IsMap, as_orderedmap_set-Sets}

module _ {ℓ} {K V : Type ℓ} (cmp : K → K → Comparison) (is_valid : K → Bool)
    (order : IsOrder cmp is_valid) where
  -- The value of a key in a sorted list.
  pub lookup : K → List (MapEntry K V) → Option V
  lookup key [] = none
  lookup key (e ∷ es) =
      let rest = lookup key es in
      elim (cmp key e.key) [ less ↦ none | equal ↦ some e.value | _ ↦ rest ]

  module _ (key : K) (e : MapEntry K V) (es : List (MapEntry K V)) where
    lookup-less : cmp key e.key ≡ less → lookup key (e ∷ es) ≡ none
    unfolding lookup
    lookup-less h = rw (lookup, h) refl

    lookup-equal : cmp key e.key ≡ equal → lookup key (e ∷ es) ≡ some e.value
    unfolding lookup
    lookup-equal h = rw (lookup, h) refl

    lookup-greater : cmp key e.key ≡ greater → lookup key (e ∷ es) ≡ lookup key es
    unfolding lookup
    lookup-greater h = rw (lookup, h) refl

  lookup_same :
      (x : MapEntry K V) (table : List (MapEntry K V))
      → is_valid x.key ≡ true
      → IsSorted cmp is_valid table
      → lookup x.key (put cmp is_valid x table) ≡ some x.value
  lookup_same x [] valid sorted = unfold put in lookup-equal x.key x [] (order.same x.key valid)
  lookup_same x (e ∷ es) valid (ve, below, sorted) = elim (order.total x.key e.key valid ve) [
    | inl c ↦
        rw (put-less cmp is_valid x e es c) (lookup-equal x.key x (e ∷ es) (order.same x.key valid))
    | inr (inl c) ↦
        rw (put-equal cmp is_valid x e es c) (lookup-equal x.key x es (order.same x.key valid))
    | inr (inr c) ↦
        rw (put-greater cmp is_valid x e es c)
          (lookup-greater x.key e (put cmp is_valid x es) c ∙ lookup_same x es valid sorted)
  ]

  lookup_other :
      (key : K) (x : MapEntry K V) (table : List (MapEntry K V))
      → is_valid key ≡ true
      → is_valid x.key ≡ true
      → cmp key x.key ≢ equal
      → IsSorted cmp is_valid table
      → lookup key (put cmp is_valid x table) ≡ lookup key table
  lookup_other key x [] vk vx other sorted =
      unfold put lookup in
      elim (order.total key x.key vk vx) [
        | inl c ↦ lookup-less key x [] c
        | inr (inl c) ↦ absurd (other c)
        | inr (inr c) ↦ lookup-greater key x [] c
      ]
  lookup_other key x (e ∷ es) vk vx other (ve, below, sorted) =
      elim (order.total x.key e.key vx ve) [
        | inl c ↦ rw (put-less cmp is_valid x e es c) (elim (order.total key x.key vk vx) [
          | inl d ↦
              lookup-less key x (e ∷ es) d
              ∙ sym (lookup-less key e es (order.less_less key x.key e.key vk vx ve d c))
          | inr (inl d) ↦ absurd (other d)
          | inr (inr d) ↦ lookup-greater key x (e ∷ es) d
        ])
        | inr (inl c) ↦ rw (put-equal cmp is_valid x e es c) (elim (order.total key x.key vk vx) [
          | inl d ↦
              lookup-less key x es d
              ∙ sym (lookup-less key e es (order.less_equal key x.key e.key vk vx ve d c))
          | inr (inl d) ↦ absurd (other d)
          | inr (inr d) ↦
              lookup-greater key x es d
              ∙ sym (lookup-greater key e es (order.greater_equal key x.key e.key vk vx ve d c))
        ])
        | inr (inr c) ↦ rw (put-greater cmp is_valid x e es c) (elim (order.total key e.key vk ve) [
          | inl d ↦ lookup-less key e _ d ∙ sym (lookup-less key e es d)
          | inr (inl d) ↦ lookup-equal key e _ d ∙ sym (lookup-equal key e es d)
          | inr (inr d) ↦
              lookup-greater key e _ d
              ∙ lookup_other key x es vk vx other sorted
              ∙ sym (lookup-greater key e es d)
        ])
      ]

  Divides-tail :
      (key : K) (e : MapEntry K V) (es : List (MapEntry K V)) (p : ℕ)
      → Divides cmp (e ∷ es) key (suc p)
      → Divides cmp es key p
  Divides-tail key e es p d = record {
    place = omega (arith, d.place);
    before = λ i under. d.before (suc i) (omega arith);
    behind = λ i over small. d.behind (suc i) (omega arith) (omega arith);
  }

  compared :
      (key : K) (e : MapEntry K V) (es : List (MapEntry K V)) (c : Comparison)
      → side cmp (e ∷ es) key 0 ≡ some c
      → cmp key e.key ≡ c
  compared key e es c h = cc

  -- What `key_find` finds is what the list holds.
  lookup-found :
      (key : K) (table : List (MapEntry K V)) (p : ℕ)
      → Divides cmp table key p
      → IsAt cmp table key p true
      → value_at table p ≡ some (lookup key table)
  lookup-found key [] p d h = absurd (omega (arith, h.0))
  lookup-found key (e ∷ es) zero d h =
      ap some (sym (lookup-equal key e es (compared key e es equal h.1)))
  lookup-found key (e ∷ es) (suc p) d h =
      lookup-found key es p (Divides-tail key e es p d) (omega (arith, h.0), h.1)
      ∙ ap some
          (sym (lookup-greater key e es (compared key e es greater (d.before 0 (omega arith)))))

  lookup-missing :
      (key : K) (table : List (MapEntry K V)) (p : ℕ)
      → Divides cmp table key p
      → IsAt cmp table key p false
      → lookup key table ≡ none
  lookup-missing key [] p d h = unfold lookup in refl
  lookup-missing key (e ∷ es) zero d h =
      lookup-less key e es (compared key e es less (h (omega arith)))
  lookup-missing key (e ∷ es) (suc p) d h =
      lookup-greater key e es (compared key e es greater (d.before 0 (omega arith)))
      ∙ lookup-missing key es p (Divides-tail key e es p d) (λ inner. h (omega arith))

  find_nothing :
      (m : OrderedMap K V) (key : K)
      → m.hold ≡ []
      → key_find cmp (hold_table m) key false ≡ some (false, 0)
  unfolding key_find find_loop
  find_nothing m key h = rw h refl

  as_orderedmap_get-lookup :
      (m : OrderedMap K V) (key : K)
      → is_valid key ≡ true
      → IsMap cmp is_valid order m
      → as_orderedmap_get cmp is_valid m key ≡ some (lookup key m.table)
  unfolding as_orderedmap_get
  as_orderedmap_get-lookup m key valid h =
      let pl = placed cmp is_valid order key m.table valid h.sorted in
      let finds = key_find-Divides cmp m.table key pl.p pl.found false pl.divides pl.at in
      elim (Bool-cases pl.found) [
        | inl there ↦
            rw (valid, finds, there) (lookup-found key m.table pl.p pl.divides (rw there at pl.at))
        | inr missing ↦
            rw (valid, finds, missing, find_nothing m key h.nothing_held)
              (ap some (sym (lookup-missing key m.table pl.p pl.divides (rw missing at pl.at))))
      ]

  module _ (malloc realloc : ℕ → Bool) (or_nil : V → V) (memory : (n : ℕ) → realloc n ≡ true) where
    -- On a map in order with fewer than 1000 entries, where memory can be had, `as_orderedmap_set` of a
    -- valid key returns 0 and leaves a map in order, where `as_orderedmap_get` finds the value at this
    -- key, and at every other valid key what it found before.
    pub as_orderedmap_get-as_orderedmap_set :
        (m : OrderedMap K V) (key other : K) (val : V)
        → is_valid key ≡ true
        → is_valid other ≡ true
        → cmp other key ≢ equal
        → IsMap cmp is_valid order m
        → length m.table < 1000
        → (m' : OrderedMap K V) × (as_orderedmap_set cmp is_valid malloc realloc or_nil m key val
            ≡ some (pos 0, m'))
          × IsMap cmp is_valid order m'
          × (as_orderedmap_get cmp is_valid m' key ≡ some (some (or_nil val)))
          × (as_orderedmap_get cmp is_valid m' other ≡ as_orderedmap_get cmp is_valid m other)
    as_orderedmap_get-as_orderedmap_set m key other val valid vo distinct h small =
        let x : MapEntry K V = record { key = key; value = or_nil val } in
        let (m', done, h', puts) =
          as_orderedmap_set-Sets cmp is_valid order malloc realloc or_nil memory m key val valid h
            small in
        (
          m',
          done,
          h',
          as_orderedmap_get-lookup m' key valid h'
              ∙ ap some (rw puts (lookup_same x m.table valid h.sorted)),
          as_orderedmap_get-lookup m' other vo h'
              ∙ ap some (rw puts (lookup_other other x m.table vo valid distinct h.sorted))
              ∙ sym (as_orderedmap_get-lookup m other vo h),
        )
