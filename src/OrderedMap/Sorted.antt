-- ===== src/OrderedMap/Sorted.antt =====
-- An ordered map as a list that is sorted by its keys: the order of keys, and
-- an entry put in its place.
use aerospike_common.Common.{
  suc, ◌≤◌, ◌≡◌, refl, arith, ◌⊎◌, inl, inr, List, [], ◌∷◌, Bool, true, length,
}
use aerospike_common.Val.Compare.{Comparison, less, equal, greater}
use aerospike_common.OrderedMap.{MapEntry}

-- An order on the valid keys.
pub record IsOrder {ℓ} {K : Type ℓ} (cmp : K → K → Comparison) (is_valid : K → Bool) : Type ℓ where
  pub total :
      (a b : K)
      → is_valid a ≡ true
      → is_valid b ≡ true
      → (cmp a b ≡ less) ⊎ ((cmp a b ≡ equal) ⊎ (cmp a b ≡ greater))
  pub same : (a : K) → is_valid a ≡ true → cmp a a ≡ equal
  pub less_equal :
      (a b c : K)
      → is_valid a ≡ true
      → is_valid b ≡ true
      → is_valid c ≡ true
      → cmp a b ≡ less
      → cmp b c ≡ equal
      → cmp a c ≡ less
  pub greater_equal :
      (a b c : K)
      → is_valid a ≡ true
      → is_valid b ≡ true
      → is_valid c ≡ true
      → cmp a b ≡ greater
      → cmp b c ≡ equal
      → cmp a c ≡ greater
  pub flip : (a b : K) → is_valid a ≡ true → is_valid b ≡ true → cmp a b ≡ greater → cmp b a ≡ less
  pub less_less :
      (a b c : K)
      → is_valid a ≡ true
      → is_valid b ≡ true
      → is_valid c ≡ true
      → cmp a b ≡ less
      → cmp b c ≡ less
      → cmp a c ≡ less
  pub equal_less :
      (a b c : K)
      → is_valid a ≡ true
      → is_valid b ≡ true
      → is_valid c ≡ true
      → cmp a b ≡ equal
      → cmp b c ≡ less
      → cmp a c ≡ less

module _ {ℓ} {K V : Type ℓ} (cmp : K → K → Comparison) (is_valid : K → Bool) where
  -- The key is less than every key of the list.
  abbrev pub IsBelow : K → List (MapEntry K V) → Type 0
  IsBelow key [] = Unit
  IsBelow key (e ∷ es) = (cmp key e.key ≡ less) × IsBelow key es

  abbrev pub IsSorted : List (MapEntry K V) → Type 0
  IsSorted [] = Unit
  IsSorted (e ∷ es) = (is_valid e.key ≡ true) × IsBelow e.key es × IsSorted es

  -- An entry at its place in a sorted list, in place of one with an equal key.
  unfoldable pub put : MapEntry K V → List (MapEntry K V) → List (MapEntry K V)
  put x [] = x ∷ []
  put x (e ∷ es) =
      let rest = put x es in
      elim (cmp x.key e.key) [ less ↦ x ∷ e ∷ es | equal ↦ x ∷ es | _ ↦ e ∷ rest ]

  module _ (x e : MapEntry K V) (es : List (MapEntry K V)) where
    pub put-less : cmp x.key e.key ≡ less → put x (e ∷ es) ≡ x ∷ e ∷ es
    unfolding put
    put-less h = rw (put, h) refl

    pub put-equal : cmp x.key e.key ≡ equal → put x (e ∷ es) ≡ x ∷ es
    unfolding put
    put-equal h = rw (put, h) refl

    pub put-greater : cmp x.key e.key ≡ greater → put x (e ∷ es) ≡ e ∷ put x es
    unfolding put
    put-greater h = rw (put, h) refl

  module _ (order : IsOrder cmp is_valid) where
    pub IsBelow-IsBelow :
        (a b : K) (table : List (MapEntry K V))
        → is_valid a ≡ true
        → is_valid b ≡ true
        → (cmp a b ≡ less) ⊎ (cmp a b ≡ equal)
        → IsSorted table
        → IsBelow b table
        → IsBelow a table
    IsBelow-IsBelow a b [] va vb first sorted h = tt
    IsBelow-IsBelow a b (e ∷ es) va vb (inl first) sorted h = (
      order.less_less a b e.key va vb sorted.0 first h.0,
      IsBelow-IsBelow a b es va vb (inl first) sorted.2 h.1,
    )
    IsBelow-IsBelow a b (e ∷ es) va vb (inr first) sorted h = (
      order.equal_less a b e.key va vb sorted.0 first h.0,
      IsBelow-IsBelow a b es va vb (inr first) sorted.2 h.1,
    )

    IsBelow-put :
        (a : K) (x : MapEntry K V) (table : List (MapEntry K V))
        → is_valid x.key ≡ true
        → IsSorted table
        → cmp a x.key ≡ less
        → IsBelow a table
        → IsBelow a (put x table)
    IsBelow-put a x [] valid sorted first h = unfold put in (first, tt)
    IsBelow-put a x (e ∷ es) valid (ve, below, sorted) first h =
        elim (order.total x.key e.key valid ve) [
          | inl c ↦ rw (put-less x e es c) (first, h)
          | inr (inl c) ↦ rw (put-equal x e es c) (first, h.1)
          | inr (inr c) ↦ rw (put-greater x e es c) (h.0, IsBelow-put a x es valid sorted first h.1)
        ]

    pub put-IsSorted :
        (x : MapEntry K V) (table : List (MapEntry K V))
        → is_valid x.key ≡ true
        → IsSorted table
        → IsSorted (put x table)
    put-IsSorted x [] valid sorted = unfold put in (valid, tt, tt)
    put-IsSorted x (e ∷ es) valid (ve, below, sorted) = elim (order.total x.key e.key valid ve) [
      | inl first ↦ rw (put-less x e es first) (
        valid,
        (first, IsBelow-IsBelow x.key e.key es valid ve (inl first) sorted below),
        (ve, below, sorted),
      )
      | inr (inl same) ↦
          rw (put-equal x e es same)
            (valid, IsBelow-IsBelow x.key e.key es valid ve (inr same) sorted below, sorted)
      | inr (inr last) ↦ rw (put-greater x e es last) (
        ve,
        IsBelow-put e.key x es valid sorted (order.flip x.key e.key valid ve last) below,
        put-IsSorted x es valid sorted,
      )
    ]

    pub length-put :
        (x : MapEntry K V) (table : List (MapEntry K V))
        → is_valid x.key ≡ true
        → IsSorted table
        → length (put x table) ≤ suc (length table)
    length-put x [] valid sorted = unfold put in omega arith
    length-put x (e ∷ es) valid (ve, below, sorted) = elim (order.total x.key e.key valid ve) [
      | inl c ↦ rw (put-less x e es c) (omega arith)
      | inr (inl c) ↦ rw (put-equal x e es c) (omega arith)
      | inr (inr c) ↦ rw (put-greater x e es c) (omega (arith, length-put x es valid sorted))
    ]
