-- ===== src/StringBuilder/Append.antt =====
-- `as_string_builder_append` into a buffer that may not grow.
use aerospike_common.Common.{
  ℕ, zero, suc, ◌+◌, ◌-◌, ◌≤◌, ◌<◌, ◌^◌, ◌≡◌, refl, sym, ap, ◌∙◌, arith, List, [], ◌∷◌, ◌++◌,
  Option, some, false, ltb, add32, length, take, write, get_elem?, length-write, length-take,
  take-write, take_append, append-nil, append_assoc, Bool-cases, inl, inr,
}
use aerospike_common.StringBuilder.{StringBuilder, put_char, as_string_builder_append}

-- The text in a builder.
abbrev pub text : StringBuilder → List ℕ
text sb = take sb.length sb.chars

-- The block of a builder, with room for a NUL behind the text.
pub record IsSized (sb : StringBuilder) : Type 0 where
  pub sized : length sb.chars ≡ sb.capacity
  pub inside : sb.length < sb.capacity
  pub small : sb.capacity < 2 ^ 32

take-put : (d : List ℕ) (i c : ℕ) → take i (write d i (c ∷ [])) ≡ take i d
take-put [] i c = refl
take-put (x ∷ xs) zero c = refl
take-put (x ∷ xs) (suc i) c = ap (λ ys. x ∷ ys) (take-put xs i c)

get_elem-put : (d : List ℕ) (i c : ℕ) → i < length d → get_elem? (write d i (c ∷ [])) i ≡ some c
get_elem-put [] i c h = absurd (omega arith)
get_elem-put (x ∷ xs) zero c h = refl
get_elem-put (x ∷ xs) (suc i) c h = get_elem-put xs i c (omega arith)

take_enough : (n : ℕ) (xs : List ℕ) → length xs ≤ n → take n xs ≡ xs
take_enough zero [] h = refl
take_enough zero (x ∷ xs) h = absurd (omega arith)
take_enough (suc n) [] h = refl
take_enough (suc n) (x ∷ xs) h = ap (λ ys. x ∷ ys) (take_enough n xs (omega arith))

-- What is left in `sb'` of `whole`: what fits, with a NUL behind it.
pub record Holds (sb' : StringBuilder) (capacity : ℕ) (whole : List ℕ) : Type 0 where
  pub valid : IsSized sb'
  pub ended : get_elem? sb'.chars sb'.length ≡ some 0
  pub same_capacity : sb'.capacity ≡ capacity
  pub holds : text sb' ≡ take (capacity - 1) whole

length-text : (sb : StringBuilder) → IsSized sb → length (text sb) ≡ sb.length
length-text sb h = omega (arith, length-take sb.length sb.chars, h.sized, h.inside)

-- A NUL behind the text, where `whole` begins with the text and nothing more of it fits.
Holds-end :
    (sb : StringBuilder) (whole : List ℕ)
    → IsSized sb
    → take (sb.capacity - 1) whole ≡ text sb
    → Holds (record sb { chars = put_char sb sb.length 0 }) sb.capacity whole
Holds-end sb whole h fits = record {
  valid = record {
    sized = length-write sb.chars sb.length (0 ∷ []) ∙ h.sized;
    inside = h.inside;
    small = h.small;
  };
  ended = get_elem-put sb.chars sb.length 0 (omega (arith, h.sized, h.inside));
  same_capacity = refl;
  holds = take-put sb.chars sb.length 0 ∙ sym fits;
}

module _ (malloc : ℕ → Option (List ℕ)) (realloc : List ℕ → ℕ → Option (List ℕ)) where
  -- Into a buffer that may not grow, `as_string_builder_append` puts as much of a text behind what is
  -- there as leaves a byte for the NUL, and a NUL; it returns true where that is all of it.
  pub as_string_builder_append_lem :
      (sb : StringBuilder) (src : List ℕ)
      → sb.resize ≡ false
      → IsSized sb
      → let r = as_string_builder_append malloc realloc sb src in
        (r.0 ≡ ltb (sb.length + length src) sb.capacity) × Holds r.1 sb.capacity (text sb ++ src)
  unfolding as_string_builder_append
  as_string_builder_append_lem sb [] fixed h = (
    ground (arith, h.inside),
    Holds-end sb (text sb ++ []) h (
        rw (append-nil (text sb))
          (take_enough (sb.capacity - 1) (text sb) (omega (arith, length-text sb h, h.inside)))),
  )
  as_string_builder_append_lem sb (c ∷ src) fixed h =
      elim (Bool-cases (ltb (add32 sb.length 1) sb.capacity)) [
        | inl more ↦
            let c_behind =
              take-write sb.chars sb.length (c ∷ []) (omega (arith, h.sized, h.inside)) in
            let sb' : StringBuilder = record sb {
              chars = put_char sb sb.length c;
              length = sb.length + 1;
            } in
            let h' : IsSized sb' = record {
              sized = length-write sb.chars sb.length (c ∷ []) ∙ h.sized;
              inside = ground (arith, h.small, h.inside);
              small = h.small;
            } in
            let (result, holds) = as_string_builder_append_lem sb' src fixed h' in
            let count : sb.length + 1 + length src ≡ sb.length + suc (length src) = omega arith in
            rw more (
              result ∙ ap (λ n. ltb n sb.capacity) count,
              rw (sym (append_assoc (text sb) (c ∷ []) src)) (rw c_behind at holds),
            )
        | inr full ↦
            let last : sb.capacity - 1 ≡ length (text sb) =
              ground (arith, length-text sb h, h.inside, h.small) in
            rw (full, fixed)
              (
                ground (arith, h.inside, h.small),
                rw fixed at (
                    Holds-end sb (text sb ++ (c ∷ src)) h
                      (rw last (take_append (text sb) (c ∷ src)))),
              )
      ]
