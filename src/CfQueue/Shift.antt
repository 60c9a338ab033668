-- ===== src/CfQueue/Shift.antt =====
-- The moves of elements with which `cf_queue_push_index` opens a slot, and where they take each
-- element from.
use aerospike_common.Common.{ℕ, suc, ◌+◌, ◌-◌, ◌≤◌, ◌<◌, ◌≡◌, refl, ◌∙◌, arith}
use aerospike_common.Common.{List, Bool-cases, inl, inr}
use aerospike_common.Common.{
  ltb, leb, if◌then◌else◌, length, get_elem?, memmove, origin, get_elem?-memmove, length-memmove,
}
use aerospike_common.Ring.{wrap}

-- Where the elements come from after the moves, for a slot `wp` to be opened, the free slot `tp`
-- behind the tail, and the free slot `hp` before the head.
unfoldable pub origin_up : ℕ → ℕ → ℕ → ℕ → ℕ
origin_up capacity wp tp j =
    if ltb wp tp
    then origin (wp + 1) wp (tp - wp) j
    else origin 1 0 tp (origin 0 (capacity - 1) 1 (origin (wp + 1) wp (capacity - 1 - wp) j))

unfoldable pub origin_down : ℕ → ℕ → ℕ → ℕ → ℕ
origin_down capacity wp hp j =
    if leb hp wp
    then origin hp (hp + 1) (wp - hp) j
    else origin hp (hp + 1) (capacity - 1 - hp) (origin (capacity - 1) 0 1 (origin 0 1 wp j))

wrap_below : (capacity k : ℕ) → k < capacity → wrap capacity k ≡ k
unfolding wrap
wrap_below capacity k below = ground arith

up_straight :
    (capacity wp tp j k : ℕ) → wp ≤ k → j ≡ suc k → k < tp → origin_up capacity wp tp j ≡ k
unfolding origin_up
up_straight capacity wp tp j k le e lt = ground arith

-- The elements from the opened slot on move one slot up.
pub origin_up_behind :
    (capacity h ix n i : ℕ)
    → h < capacity
    → ix < n
    → n < capacity
    → i < n - ix
    → origin_up capacity
        (wrap capacity (h + ix))
        (wrap capacity (h + n))
        (wrap capacity (h + suc (ix + i)))
      ≡ wrap capacity (h + (ix + i))
unfolding origin_up wrap
origin_up_behind capacity h ix n i inside some_tail room lt =
    elim (Bool-cases (ltb (h + n) capacity)) [
      | inl straight ↦
          rw
            (
              wrap_below capacity (h + ix) (ground arith),
              wrap_below capacity (h + n) (ground arith),
              wrap_below capacity (h + suc (ix + i)) (ground arith),
              wrap_below capacity (h + (ix + i)) (ground arith),
            )
            (up_straight capacity (h + ix) (h + n) (h + suc (ix + i)) (h + (ix + i)) (omega arith)
              (omega arith) (omega arith))
      | inr turned ↦ elim (Bool-cases (ltb (h + ix) capacity)) [
        | inl high ↦ elim (Bool-cases (ltb (h + (ix + i)) capacity)) [
          | inl below ↦ ground arith
          | inr over ↦ ground arith
        ]
        | inr low ↦ ground arith
      ]
    ]

pub origin_up_before :
    (capacity h ix n i : ℕ)
    → h < capacity
    → ix < n
    → n < capacity
    → i < ix
    → origin_up capacity (wrap capacity (h + ix)) (wrap capacity (h + n)) (wrap capacity (h + i))
      ≡ wrap capacity (h + i)
unfolding origin_up wrap
origin_up_before capacity h ix n i inside some_tail room lt = ground arith

-- The elements before it move one slot down.
pub origin_down_before :
    (capacity g ix n i : ℕ)
    → g < capacity
    → ix < n
    → n < capacity
    → i < ix
    → origin_down capacity (wrap capacity (g + ix)) g (wrap capacity (g + i))
      ≡ wrap capacity (g + suc i)
unfolding origin_down wrap
origin_down_before capacity g ix n i inside some_tail room lt =
    elim (Bool-cases (ltb (g + ix) capacity)) [
      | inl straight ↦ ground arith
      | inr turned ↦ elim (Bool-cases (ltb (g + i) capacity)) [
        | inl high ↦ elim (Bool-cases (ltb (g + suc i) capacity)) [
          | inl below ↦ ground arith
          | inr over ↦ ground arith
        ]
        | inr low ↦ ground arith
      ]
    ]

pub origin_down_behind :
    (capacity g ix n i : ℕ)
    → g < capacity
    → ix < n
    → n < capacity
    → ix < i
    → i ≤ n
    → origin_down capacity (wrap capacity (g + ix)) g (wrap capacity (g + i))
      ≡ wrap capacity (g + i)
unfolding origin_down wrap
origin_down_behind capacity g ix n i inside some_tail room gt le = ground arith

module _ {ℓ} {A : Type ℓ} where
  unfoldable pub shift_up : ℕ → ℕ → ℕ → List A → List A
  shift_up capacity wp tp d =
      if ltb wp tp
      then memmove d (wp + 1) wp (tp - wp)
      else (let ep : ℕ = capacity - 1 in
          memmove (memmove (memmove d 1 0 tp) 0 ep 1) (wp + 1) wp (ep - wp))

  unfoldable pub shift_down : ℕ → ℕ → ℕ → List A → List A
  shift_down capacity wp hp d =
      if leb hp wp
      then memmove d hp (hp + 1) (wp - hp)
      else (let ep : ℕ = capacity - 1 in
          memmove (memmove (memmove d hp (hp + 1) (ep - hp)) ep 0 1) 0 1 wp)

  module _ (d : List A) (capacity wp : ℕ) (stored : length d ≡ capacity)
      (inside : wp < capacity) where
    pub get_elem?-shift_up :
        (tp j : ℕ)
        → tp < capacity
        → get_elem? (shift_up capacity wp tp d) j ≡ get_elem? d (origin_up capacity wp tp j)
    unfolding shift_up origin_up
    get_elem?-shift_up tp j free = elim (Bool-cases (ltb wp tp)) [
      | inl straight ↦
          rw straight (get_elem?-memmove d (wp + 1) wp (tp - wp) j (ground arith) (ground arith))
      | inr turned ↦ rw turned (
          get_elem?-memmove (memmove (memmove d 1 0 tp) 0 ep 1) (wp + 1) wp (ep - wp) j
            (omega (arith, size2)) (omega (arith, size2))
          ∙ get_elem?-memmove (memmove d 1 0 tp) 0 ep 1 _ (omega (arith, size1))
              (omega (arith, size1))
          ∙ get_elem?-memmove d 1 0 tp _ (omega arith) (omega arith))
    ]
      where
        ep : ℕ
        ep = capacity - 1

        size1 : length (memmove d 1 0 tp) ≡ capacity
        size1 = length-memmove d 1 0 tp ∙ stored

        size2 : length (memmove (memmove d 1 0 tp) 0 ep 1) ≡ capacity
        size2 = length-memmove (memmove d 1 0 tp) 0 ep 1 ∙ size1

    pub get_elem?-shift_down :
        (hp j : ℕ)
        → hp < capacity
        → get_elem? (shift_down capacity wp hp d) j ≡ get_elem? d (origin_down capacity wp hp j)
    unfolding shift_down origin_down
    get_elem?-shift_down hp j free = elim (Bool-cases (leb hp wp)) [
      | inl straight ↦
          rw straight (get_elem?-memmove d hp (hp + 1) (wp - hp) j (ground arith) (ground arith))
      | inr turned ↦ rw turned (
          get_elem?-memmove (memmove (memmove d hp (hp + 1) (ep - hp)) ep 0 1) 0 1 wp j
            (omega (arith, size2)) (omega (arith, size2))
          ∙ get_elem?-memmove (memmove d hp (hp + 1) (ep - hp)) ep 0 1 _ (omega (arith, size1))
              (omega (arith, size1))
          ∙ get_elem?-memmove d hp (hp + 1) (ep - hp) _ (omega arith) (omega arith))
    ]
      where
        ep : ℕ
        ep = capacity - 1

        size1 : length (memmove d hp (hp + 1) (ep - hp)) ≡ capacity
        size1 = length-memmove d hp (hp + 1) (ep - hp) ∙ stored

        size2 : length (memmove (memmove d hp (hp + 1) (ep - hp)) ep 0 1) ≡ capacity
        size2 = length-memmove (memmove d hp (hp + 1) (ep - hp)) ep 0 1 ∙ size1

  pub length-shift_up :
      (d : List A) (capacity wp tp : ℕ) → length (shift_up capacity wp tp d) ≡ length d
  unfolding shift_up
  length-shift_up d capacity wp tp = elim (Bool-cases (ltb wp tp)) [
    | inl straight ↦ rw (straight, length-memmove) refl
    | inr turned ↦ rw (turned, length-memmove, length-memmove, length-memmove) refl
  ]

  pub length-shift_down :
      (d : List A) (capacity wp hp : ℕ) → length (shift_down capacity wp hp d) ≡ length d
  unfolding shift_down
  length-shift_down d capacity wp hp = elim (Bool-cases (leb hp wp)) [
    | inl straight ↦ rw (straight, length-memmove) refl
    | inr turned ↦ rw (turned, length-memmove, length-memmove, length-memmove) refl
  ]
