-- ===== src/Vector/Contents.antt =====
-- The invariant of a vector and the items that it holds.
use aerospike_common.Common.{
  ℕ, zero, suc, ◌+◌, ◌*◌, ◌%◌, ◌^◌, ◌≤◌, ◌<◌, ◌≡◌, refl, ap, arith, List, [], ◌∷◌, ◌++◌, some,
  length, take, drop, set, write, length-take,
}
use aerospike_common.Vector.{Vector, slots, whole_items, copy_items, move_items, put}
use native.Mathlib.Nat.{mod-eq_of_lt, mul-div_cancel, mul-le-mul_right, mul-mod_left}

module _ {ℓ} {A : Type ℓ} where
  -- An array of the capacity, whose bytes a 32-bit number counts, and at most as many items.
  pub record IsValid (v : Vector A) : Type ℓ where
    pub stored : (d : List A) × (v.list ≡ some d) × (length d ≡ v.capacity)
    pub some_size : 0 < v.item_size
    pub fits : v.size ≤ v.capacity
    pub bytes_fit : v.capacity * v.item_size < 2 ^ 32

  abbrev pub contents : Vector A → List A
  contents v = take v.size (slots v)

  pub length-contents : (v : Vector A) → IsValid v → length (contents v) ≡ v.size
  length-contents v valid =
      let (d, e, same) = valid.stored in rw e (omega (arith, length-take v.size d, valid.fits))

  pub take-set_end :
      (d : List A) (n : ℕ) (x : A) → n < length d → take (suc n) (set d n x) ≡ take n d ++ (x ∷ [])
  take-set_end [] n x h = absurd (omega arith)
  take-set_end (y ∷ d) zero x h = refl
  take-set_end (y ∷ d) (suc n) x h = ap (◌∷◌ y) (take-set_end d n x (omega arith))

  pub take-set : (d : List A) (n i : ℕ) (x : A) → take n (set d i x) ≡ set (take n d) i x
  take-set [] zero i x = refl
  take-set [] (suc n) i x = refl
  take-set (y ∷ d) zero i x = refl
  take-set (y ∷ d) (suc n) zero x = refl
  take-set (y ∷ d) (suc n) (suc i) x = ap (◌∷◌ y) (take-set d n i x)

  pub take-take : (d : List A) (n k : ℕ) → n ≤ k → take n (take k d) ≡ take n d
  take-take d zero k h = refl
  take-take d (suc n) zero h = absurd (omega arith)
  take-take [] (suc n) (suc k) h = refl
  take-take (y ∷ d) (suc n) (suc k) h = ap (◌∷◌ y) (take-take d n k (omega arith))

module _ {ℓ} {A : Type ℓ} where
  pub copy_items_lem :
      (dst src : List A) (n : ℕ)
      → n ≤ length src
      → n ≤ length dst
      → copy_items dst src n ≡ some (write dst 0 (take n src))
  unfolding copy_items
  copy_items_lem dst src n from to = ground arith

  pub put_lem :
      (d : List A) (slot : ℕ) (x : A) → slot < length d → put d slot x ≡ some (set d slot x)
  unfolding put
  put_lem d slot x h = ground arith

  pub move_items_lem :
      (d : List A) (to from n : ℕ)
      → from + n ≤ length d
      → to + n ≤ length d
      → move_items d to from n ≡ some (write d to (take n (drop from d)))
  unfolding move_items
  move_items_lem d to from n h h' = ground arith

pub mul_fits :
    (index capacity s : ℕ) → index ≤ capacity → capacity * s < 2 ^ 32 → index * s < 2 ^ 32
mul_fits index capacity s h fits = omega (arith, mul-le-mul_right s h)

-- The offset of an item in reach does not wrap.
pub whole_items_lem :
    (index capacity s : ℕ)
    → index ≤ capacity
    → 0 < s
    → capacity * s < 2 ^ 32
    → whole_items s (index * s % 2 ^ 32) ≡ some index
unfolding whole_items
whole_items_lem index capacity s h some_size fits =
    rw
      (
        mod-eq_of_lt (mul_fits index capacity s h fits),
        mul-mod_left index s,
        mul-div_cancel index some_size,
      )
      refl
