-- ===== src/OrderedMap/Keys.antt =====
-- The order of `as_val_cmp` on the values that are keys.
use aerospike_common.Common.{
  ℕ, zero, suc, ◌≡◌, refl, sym, ◌∙◌, arith, ◌⊎◌, inl, inr, ℤ, pos, negsuc, List, [], ◌∷◌, Bool,
  true, ltb, if◌then◌else◌,
}
use aerospike_common.Val.{Val, integer, string, bytes, as_val_type}
use aerospike_common.Val.Compare.{
  Comparison, less, equal, greater, compare_nat, bytes_cmp, switch_cmp, as_val_cmp,
}
use aerospike_common.Msgpack.Unpack.Value.{is_valid_key_type}
use aerospike_common.OrderedMap.Sorted.{IsOrder}

compare_nat_same : (x : ℕ) (c : Comparison) → compare_nat x x c ≡ c
compare_nat_same x c = ground arith

bytes_cmp_same : (a : List ℕ) → bytes_cmp a a ≡ equal
unfolding bytes_cmp
bytes_cmp_same [] = refl
bytes_cmp_same (x ∷ xs) = rw (compare_nat_same x (bytes_cmp xs xs)) (bytes_cmp_same xs)

bytes_cmp_equal : (a b : List ℕ) → bytes_cmp a b ≡ equal → a ≡ b
unfolding bytes_cmp
bytes_cmp_equal [] [] h = refl
bytes_cmp_equal [] (y ∷ ys) h = absurd (ground arith)
bytes_cmp_equal (x ∷ xs) [] h = absurd (ground arith)
bytes_cmp_equal (x ∷ xs) (y ∷ ys) h = ground (arith, bytes_cmp_equal xs ys)

bytes_cmp_total :
    (a b : List ℕ) → (bytes_cmp a b ≡ less) ⊎ ((bytes_cmp a b ≡ equal) ⊎ (bytes_cmp a b ≡ greater))
unfolding bytes_cmp
bytes_cmp_total [] [] = inr (inl refl)
bytes_cmp_total [] (y ∷ ys) = inl refl
bytes_cmp_total (x ∷ xs) [] = inr (inr refl)
bytes_cmp_total (x ∷ xs) (y ∷ ys) = ground (arith, bytes_cmp_total xs ys)

bytes_cmp_flip : (a b : List ℕ) → bytes_cmp a b ≡ greater → bytes_cmp b a ≡ less
unfolding bytes_cmp
bytes_cmp_flip [] [] h = absurd (ground arith)
bytes_cmp_flip [] (y ∷ ys) h = absurd (ground arith)
bytes_cmp_flip (x ∷ xs) [] h = refl
bytes_cmp_flip (x ∷ xs) (y ∷ ys) h = ground (arith, bytes_cmp_flip xs ys)

bytes_cmp_less_less :
    (a b c : List ℕ) → bytes_cmp a b ≡ less → bytes_cmp b c ≡ less → bytes_cmp a c ≡ less
unfolding bytes_cmp
bytes_cmp_less_less [] [] c h k = absurd (ground arith)
bytes_cmp_less_less [] (y ∷ ys) [] h k = absurd (ground arith)
bytes_cmp_less_less [] (y ∷ ys) (z ∷ zs) h k = refl
bytes_cmp_less_less (x ∷ xs) [] c h k = absurd (ground arith)
bytes_cmp_less_less (x ∷ xs) (y ∷ ys) [] h k = absurd (ground arith)
bytes_cmp_less_less (x ∷ xs) (y ∷ ys) (z ∷ zs) h k = ground (arith, bytes_cmp_less_less xs ys zs)

-- A key as a list of numbers, in the same order.
zeros_one : ℕ → List ℕ
zeros_one zero = 1 ∷ []
zeros_one (suc n) = 0 ∷ zeros_one n

number_code : ℤ → List ℕ
number_code (pos n) = 1 ∷ n ∷ []
number_code (negsuc n) = 0 ∷ zeros_one n

code : Val → List ℕ
unfolding number_code
code (integer i) = 3 ∷ number_code i
code (string s) = 4 ∷ s
code (bytes type b) = 9 ∷ b
code _ = []

zeros_one_cmp :
    (n m : ℕ)
    → bytes_cmp (zeros_one n) (zeros_one m)
      ≡ (if ltb m n then less else if ltb n m then greater else equal)
unfolding bytes_cmp zeros_one
zeros_one_cmp zero zero = refl
zeros_one_cmp zero (suc m) = ground arith
zeros_one_cmp (suc n) zero = ground arith
zeros_one_cmp (suc n) (suc m) = zeros_one_cmp n m ∙ ground arith

module _ (double_lt : ℕ → ℕ → Bool) where
  as_val_cmp-code :
      (a b : Val)
      → is_valid_key_type a ≡ true
      → is_valid_key_type b ≡ true
      → as_val_cmp double_lt a b ≡ bytes_cmp (code a) (code b)
  unfolding as_val_cmp is_valid_key_type code as_val_type bytes_cmp switch_cmp number_code
  as_val_cmp-code (integer (pos i)) (integer (pos j)) va vb = ground arith
  as_val_cmp-code (integer (pos i)) (integer (negsuc j)) va vb = refl
  as_val_cmp-code (integer (negsuc i)) (integer (pos j)) va vb = refl
  as_val_cmp-code (integer (negsuc i)) (integer (negsuc j)) va vb = sym (zeros_one_cmp i j)
  as_val_cmp-code (integer i) (string s) va vb = refl
  as_val_cmp-code (integer i) (bytes t b) va vb = refl
  as_val_cmp-code (string s) (integer j) va vb = refl
  as_val_cmp-code (string s) (string t) va vb = refl
  as_val_cmp-code (string s) (bytes t b) va vb = refl
  as_val_cmp-code (bytes t b) (integer j) va vb = refl
  as_val_cmp-code (bytes t b) (string s) va vb = refl
  as_val_cmp-code (bytes t b) (bytes u c) va vb = refl
  as_val_cmp-code _ _ va vb = absurd (ground arith)

  equal_codes :
      (a b : Val)
      → is_valid_key_type a ≡ true
      → is_valid_key_type b ≡ true
      → as_val_cmp double_lt a b ≡ equal
      → code a ≡ code b
  equal_codes a b va vb h = bytes_cmp_equal (code a) (code b) (sym (as_val_cmp-code a b va vb) ∙ h)

  -- `as_val_cmp` orders the values that are keys (integers, strings and blobs) totally, whatever the
  -- order of doubles.
  pub as_val_cmp-IsOrder : IsOrder (as_val_cmp double_lt) is_valid_key_type
  as_val_cmp-IsOrder = record {
    total = λ a b va vb. rw (as_val_cmp-code a b va vb) (bytes_cmp_total (code a) (code b));
    same = λ a va. as_val_cmp-code a a va va ∙ bytes_cmp_same (code a);
    less_equal = λ a b c va vb vc h k.
        as_val_cmp-code a c va vc
        ∙ rw (← equal_codes b c vb vc k) (sym (as_val_cmp-code a b va vb) ∙ h);
    greater_equal = λ a b c va vb vc h k.
        as_val_cmp-code a c va vc
        ∙ rw (← equal_codes b c vb vc k) (sym (as_val_cmp-code a b va vb) ∙ h);
    flip = λ a b va vb h.
        as_val_cmp-code b a vb va
        ∙ bytes_cmp_flip (code a) (code b) (sym (as_val_cmp-code a b va vb) ∙ h);
    less_less = λ a b c va vb vc h k.
        as_val_cmp-code a c va vc
        ∙ bytes_cmp_less_less (code a) (code b) (code c) (sym (as_val_cmp-code a b va vb) ∙ h)
            (sym (as_val_cmp-code b c vb vc) ∙ k);
    equal_less = λ a b c va vb vc h k.
        as_val_cmp-code a c va vc
        ∙ rw (equal_codes a b va vb h) (sym (as_val_cmp-code b c vb vc) ∙ k);
  }
