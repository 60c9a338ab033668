-- ===== src/Base64/InPlace.antt =====
-- Decoding where the text and the output are the same buffer.
use aerospike_common.Common.{
  ℕ, zero, suc, ◌+◌, ◌-◌, ◌*◌, ◌/◌, ◌≤◌, ◌<◌, ◌≡◌, refl, ap, sym, ◌∙◌, arith, List, [], ◌∷◌, ◌++◌,
  Option, none, some, true, length, take, drop, set, get_or, suc_add, if◌then◌else◌, ◌==◌,
  append_assoc, append-nil, length-drop,
}
use aerospike_common.Common.{low2_word, Bool-cases, inl, inr, ◌⊎◌}
use aerospike_common.Base64.Validate.{is_valid_encoded, cf_b64_validate_and_decode}
use aerospike_common.Base64.RoundTrip.{decode_run}
use aerospike_common.Base64.{byte0, byte1, byte2, decode_loop, padding, cf_b64_decode, out_size}

-- The loop of `cf_b64_decode_in_place`, for the groups of four characters that are left.
unfoldable pub in_place_loop : ℕ → ℕ → ℕ → List ℕ → List ℕ
unfolding byte0 byte1 byte2
in_place_loop zero i j in_out = in_out
in_place_loop (suc groups) i j in_out =
    let i0 = get_or in_out i 0 in
    let i1 = get_or in_out (i + 1) 0 in
    let i2 = get_or in_out (i + 2) 0 in
    let i3 = get_or in_out (i + 3) 0 in
    in_place_loop groups (i + 4) (j + 3)
      (set (set (set in_out j (byte0 i0 i1)) (j + 1) (byte1 i1 i2)) (j + 2) (byte2 i2 i3))

-- The buffer afterwards and `*out_size`, for a text of a multiple of four characters.
unfoldable pub cf_b64_decode_in_place : List ℕ → List ℕ × ℕ
cf_b64_decode_in_place in_out =
    let d = if length in_out == 0 then 0 else padding in_out in
    (in_place_loop (length in_out / 4) 0 0 in_out, length in_out / 4 * 3 - d)

drop-set : (xs : List ℕ) (i n v : ℕ) → i < n → drop n (set xs i v) ≡ drop n xs
drop-set xs i zero v h = absurd (omega arith)
drop-set [] i (suc n) v h = refl
drop-set (x ∷ xs) zero (suc n) v h = refl
drop-set (x ∷ xs) (suc i) (suc n) v h = drop-set xs i n v (omega arith)

get_or-drop : (n k : ℕ) (xs : List ℕ) → get_or xs (n + k) 0 ≡ get_or (drop n xs) k 0
get_or-drop zero k xs = ap (λ m. get_or xs m 0) (omega arith)
get_or-drop (suc n) k [] = refl
get_or-drop (suc n) k (x ∷ xs) = rw (suc_add n k) (get_or-drop n k xs)

drop-drop : (n k : ℕ) (xs : List ℕ) → drop (n + k) xs ≡ drop k (drop n xs)
drop-drop zero k xs = ap (λ m. drop m xs) (omega arith)
drop-drop (suc n) k [] = rw (suc_add n k) (nothing k)
  where
    nothing : (k : ℕ) → [] ≡ drop {A = ℕ} k []
    nothing zero = refl
    nothing (suc k) = refl
drop-drop (suc n) k (x ∷ xs) = rw (suc_add n k) (drop-drop n k xs)

-- Three bytes stored behind the first `j`.
set_three :
    (xs : List ℕ) (j a b c : ℕ)
    → j + 3 ≤ length xs
    → take (j + 3) (set (set (set xs j a) (j + 1) b) (j + 2) c) ≡ take j xs ++ (a ∷ b ∷ c ∷ [])
set_three [] j a b c h = absurd (omega arith)
set_three (x ∷ []) zero a b c h = absurd (omega arith)
set_three (x ∷ y ∷ []) zero a b c h = absurd (omega arith)
set_three (x ∷ y ∷ z ∷ xs) zero a b c h = refl
set_three (x ∷ xs) (suc j) a b c h =
    rw (suc_add j 1, suc_add j 2, suc_add j 3) (ap (◌∷◌ x) (set_three xs j a b c (omega arith)))

-- What the loop in place leaves in the buffer, from the text `s` that it has not read and the bytes
-- that it has stored.
Stored : ℕ → ℕ → ℕ → List ℕ → List ℕ → List ℕ → Type 0
Stored groups i j in_out s stored =
    (out : List ℕ) × (decode_loop s ≡ some out)
    × (take (j + groups * 3) (in_place_loop groups i j in_out) ≡ stored ++ out)
    × (length out ≡ groups * 3)

in_place_loop-Stored :
    (groups i j : ℕ) (in_out s stored : List ℕ)
    → length s ≡ groups * 4
    → j ≤ i
    → drop i in_out ≡ s
    → take j in_out ≡ stored
    → Stored groups i j in_out s stored
unfolding Stored in_place_loop decode_loop
in_place_loop-Stored zero i j in_out [] stored e h unread read = (
  [],
  refl,
  ap (λ m. take m in_out) (let same : j + 0 * 3 ≡ j = omega arith in same)
      ∙ read
      ∙ sym (append-nil stored),
  omega arith,
)
in_place_loop-Stored zero i j in_out (i0 ∷ s) stored e h unread read = absurd (omega arith)
in_place_loop-Stored (suc groups) i j in_out [] stored e h unread read = absurd (omega arith)
in_place_loop-Stored (suc groups) i j in_out (i0 ∷ []) stored e h unread read = absurd (omega arith)
in_place_loop-Stored (suc groups) i j in_out (i0 ∷ i1 ∷ []) stored e h unread read =
    absurd (omega arith)
in_place_loop-Stored (suc groups) i j in_out (i0 ∷ i1 ∷ i2 ∷ []) stored e h unread read =
    absurd (omega arith)
in_place_loop-Stored (suc groups) i j in_out (i0 ∷ i1 ∷ i2 ∷ i3 ∷ s) stored e h unread read =
    let b0 = byte0 i0 i1 in
    let b1 = byte1 i1 i2 in
    let b2 = byte2 i2 i3 in
    let g0 : get_or in_out i 0 ≡ i0 =
      ap (λ m. get_or in_out m 0) (let same : i ≡ i + 0 = omega arith in same)
      ∙ get_or-drop i 0 in_out
      ∙ ap (λ t. get_or t 0 0) unread in
    let g1 : get_or in_out (i + 1) 0 ≡ i1 =
      get_or-drop i 1 in_out ∙ ap (λ t. get_or t 1 0) unread in
    let g2 : get_or in_out (i + 2) 0 ≡ i2 =
      get_or-drop i 2 in_out ∙ ap (λ t. get_or t 2 0) unread in
    let g3 : get_or in_out (i + 3) 0 ≡ i3 =
      get_or-drop i 3 in_out ∙ ap (λ t. get_or t 3 0) unread in
    let room : j + 3 ≤ length in_out = omega (arith, length-drop i in_out, ap length unread) in
    let next = set (set (set in_out j b0) (j + 1) b1) (j + 2) b2 in
    let left : drop (i + 4) next ≡ s =
      drop-set (set (set in_out j b0) (j + 1) b1) (j + 2) (i + 4) b2 (omega arith)
      ∙ drop-set (set in_out j b0) (j + 1) (i + 4) b1 (omega arith)
      ∙ drop-set in_out j (i + 4) b0 (omega arith)
      ∙ drop-drop i 4 in_out
      ∙ ap (drop 4) unread in
    let front : take (j + 3) next ≡ stored ++ (b0 ∷ b1 ∷ b2 ∷ []) =
      set_three in_out j b0 b1 b2 room ∙ ap (λ xs. xs ++ (b0 ∷ b1 ∷ b2 ∷ [])) read in
    let (out, run, after, count) =
      in_place_loop-Stored groups (i + 4) (j + 3) next s (stored ++ (b0 ∷ b1 ∷ b2 ∷ []))
        (omega arith) (omega arith) left front in
    (
      b0 ∷ b1 ∷ b2 ∷ out,
      rw run refl,
      rw (g0, g1, g2, g3)
          (ap (λ m. take m (in_place_loop groups (i + 4) (j + 3) next))
              (let same : j + suc groups * 3 ≡ j + 3 + groups * 3 = omega arith in same)
            ∙ after
            ∙ append_assoc stored (b0 ∷ b1 ∷ b2 ∷ []) out),
      omega (arith, count),
    )

-- On a text of a multiple of four characters `cf_b64_decode_in_place` leaves the bytes that
-- `cf_b64_decode` puts into its own buffer, and returns the same size.
pub cf_b64_decode_in_place-cf_b64_decode :
    (k : ℕ) (s : List ℕ)
    → length s ≡ k * 4
    → (out : List ℕ) × (cf_b64_decode s ≡ some (out, (cf_b64_decode_in_place s).1))
      × (take (length out) (cf_b64_decode_in_place s).0 ≡ out)
unfolding cf_b64_decode_in_place Stored out_size
cf_b64_decode_in_place-cf_b64_decode k s e =
    let groups : length s / 4 ≡ k = omega arith in
    let (out, run, after, count) = in_place_loop-Stored k 0 0 s s [] e (omega arith) refl refl in
    let size : out_size s (length out) ≡ (cf_b64_decode_in_place s).1 =
      ground (arith, count, groups) in
    let all : length out ≡ 0 + k * 3 = omega (arith, count) in
    (
      out,
      decode_run s out run ∙ ap (λ n. some (out, n)) size,
      ap (λ n. take (length out) (in_place_loop n 0 0 s)) groups
          ∙ ap (λ m. take m (in_place_loop k 0 0 s)) all
          ∙ after,
    )

-- `none` is the return of `false`.
unfoldable pub cf_b64_validate_and_decode_in_place : List ℕ → Option (List ℕ × ℕ)
cf_b64_validate_and_decode_in_place s =
    if is_valid_encoded s then some (cf_b64_decode_in_place s) else none

valid_groups : (s : List ℕ) → is_valid_encoded s ≡ true → length s ≡ length s / 4 * 4
unfolding is_valid_encoded
valid_groups s valid = ground (arith, low2_word (length s))

-- `cf_b64_validate_and_decode` and `cf_b64_validate_and_decode_in_place` refuse the same texts, and on
-- the others, none of which is read past its end, they give the same size and the same bytes.
pub cf_b64_validate_and_decode_in_place-cf_b64_validate_and_decode :
    (s : List ℕ)
    → ((cf_b64_validate_and_decode s ≡ none) × (cf_b64_validate_and_decode_in_place s ≡ none))
      ⊎ ((out : List ℕ) × (r : List ℕ × ℕ) × (cf_b64_validate_and_decode s ≡ some (some (out, r.1)))
          × (cf_b64_validate_and_decode_in_place s ≡ some r)
          × (take (length out) r.0 ≡ out))
unfolding cf_b64_validate_and_decode cf_b64_validate_and_decode_in_place
cf_b64_validate_and_decode_in_place-cf_b64_validate_and_decode s =
    elim (Bool-cases (is_valid_encoded s)) [
      | inl valid ↦
          let (out, run, front) =
            cf_b64_decode_in_place-cf_b64_decode (length s / 4) s (valid_groups s valid) in
          inr (out, cf_b64_decode_in_place s, rw (valid, run) refl, rw valid refl, front)
      | inr refused ↦ inl (rw refused refl, rw refused refl)
    ]
