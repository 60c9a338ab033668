-- ===== src/OrderedMap/Place.antt =====
-- The place of a key in a sorted table, where `key_find` ends.
use aerospike_common.Common.{
  ℕ, zero, suc, ◌<◌, ◌≡◌, refl, ap, ◌∙◌, arith, inl, inr, List, [], ◌∷◌, some, Bool, true, false,
  length, set, if◌then◌else◌,
}
use aerospike_common.Val.Compare.{Comparison, less, greater}
use aerospike_common.OrderedMap.{MapEntry, insert_at}
use aerospike_common.OrderedMap.Find.{Divides, IsAt, side}
use aerospike_common.OrderedMap.Sorted.{
  IsOrder, IsBelow, IsSorted, put, put-less, put-equal, put-greater, IsBelow-IsBelow,
}

cons-if {ℓ} :
    {A : Type ℓ} (b : Bool) (x : A) (xs ys : List A)
    → x ∷ (if b then xs else ys) ≡ (if b then x ∷ xs else x ∷ ys)
cons-if true x xs ys = refl
cons-if false x xs ys = refl

module _ {ℓ} {K V : Type ℓ} (cmp : K → K → Comparison) (is_valid : K → Bool)
    (order : IsOrder cmp is_valid) where
  IsBelow-side :
      (key : K) (table : List (MapEntry K V))
      → IsBelow cmp is_valid key table
      → (i : ℕ) → i < length table
      → side cmp table key i ≡ some less
  IsBelow-side key [] h i small = absurd (omega arith)
  IsBelow-side key (e ∷ es) h zero small = ap some h.0
  IsBelow-side key (e ∷ es) h (suc i) small = IsBelow-side key es h.1 i (omega arith)

  -- A greater key is behind the first entry.
  Divides-behind :
      (key : K) (e : MapEntry K V) (es : List (MapEntry K V)) (p : ℕ)
      → cmp key e.key ≡ greater
      → Divides cmp es key p
      → Divides cmp (e ∷ es) key (suc p)
  Divides-behind key e es p last d = record {
    place = omega (arith, d.place);
    before = before;
    behind = behind;
  }
    where
      before : (i : ℕ) → i < suc p → side cmp (e ∷ es) key i ≡ some greater
      before zero h = ap some last
      before (suc i) h = d.before i (omega arith)

      behind : (i : ℕ) → suc p < i → i < length (e ∷ es) → side cmp (e ∷ es) key i ≡ some less
      behind zero h small = absurd (omega arith)
      behind (suc i) h small = d.behind i (omega arith) (omega arith)

  Divides-front :
      (key : K) (e : MapEntry K V) (es : List (MapEntry K V))
      → IsBelow cmp is_valid key es
      → Divides cmp (e ∷ es) key 0
  Divides-front key e es h = record {
    place = omega arith;
    before = λ i under. absurd (omega arith);
    behind = behind;
  }
    where
      behind : (i : ℕ) → 0 < i → i < length (e ∷ es) → side cmp (e ∷ es) key i ≡ some less
      behind zero h' small = absurd (omega arith)
      behind (suc i) h' small = IsBelow-side key es h i (omega arith)

  IsAt-behind :
      (key : K) (e : MapEntry K V) (es : List (MapEntry K V)) (p : ℕ) (found : Bool)
      → IsAt cmp es key p found
      → IsAt cmp (e ∷ es) key (suc p) found
  IsAt-behind key e es p true h = (omega (arith, h.0), h.1)
  IsAt-behind key e es p false h = λ inner. h (omega arith)

  -- Where `key_find` ends in a sorted table, and what is done there.
  pub record Placed (key : K) (table : List (MapEntry K V)) : Type ℓ where
    pub found : Bool
    pub p : ℕ
    pub divides : Divides cmp table key p
    pub at : IsAt cmp table key p found
    pub puts :
        (x : MapEntry K V)
        → x.key ≡ key
        → put cmp is_valid x table ≡ (if found then set table p x else insert_at p x table)

  pub placed :
      (key : K) (table : List (MapEntry K V))
      → is_valid key ≡ true
      → IsSorted cmp is_valid table
      → Placed key table
  placed key [] valid sorted = record {
    found = false;
    p = 0;
    divides = record {
      place = omega arith;
      before = λ i under. absurd (omega arith);
      behind = λ i over small. absurd (omega arith);
    };
    at = λ inner. absurd (omega arith);
    puts = λ x same. (unfold put in refl);
  }
  placed key (e ∷ es) valid (ve, below, sorted) = elim (order.total key e.key valid ve) [
    | inl first ↦ record {
      found = false;
      p = 0;
      divides =
          Divides-front key e es
            (IsBelow-IsBelow cmp is_valid order key e.key es valid ve (inl first) sorted below);
      at = λ inner. ap some first;
      puts = λ x same. put-less cmp is_valid x e es (rw same first);
    }
    | inr (inl exact) ↦ record {
      found = true;
      p = 0;
      divides =
          Divides-front key e es
            (IsBelow-IsBelow cmp is_valid order key e.key es valid ve (inr exact) sorted below);
      at = (omega arith, ap some exact);
      puts = λ x same. put-equal cmp is_valid x e es (rw same exact);
    }
    | inr (inr last) ↦
        (let rest = placed key es valid sorted in
          record {
            found = rest.found;
            p = suc rest.p;
            divides = Divides-behind key e es rest.p last rest.divides;
            at = IsAt-behind key e es rest.p rest.found rest.at;
            puts = λ x same.
                put-greater cmp is_valid x e es (rw same last)
                ∙ ap (λ xs. e ∷ xs) (rest.puts x same)
                ∙ cons-if rest.found e (set es rest.p x) (insert_at rest.p x es);
          })
  ]
