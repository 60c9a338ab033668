-- ===== src/Base64/Validate.antt =====
-- The validation of a text before it is decoded.
use aerospike_common.Common.{
  ℕ, List, [], ◌∷◌, Option, none, some, Bool, false, ◌||◌, not, length, bit_and, if◌then◌else◌,
  ◌==◌,
}
use aerospike_common.Base64.{cf_b64_decode, pad}
use aerospike_common.Base64.Tables.{va}

-- The reads of `is_valid_encoded` in a text of two characters or more.
unfoldable pub valid_chars : List ℕ → Bool
valid_chars [] = false
valid_chars (c ∷ []) = false
valid_chars (c ∷ d ∷ []) = if c == pad then d == pad else if va c then (d == pad || va d) else false
valid_chars (c ∷ d ∷ e ∷ s) = let rest = valid_chars (d ∷ e ∷ s) in if va c then rest else false

unfoldable pub is_valid_encoded : List ℕ → Bool
is_valid_encoded s =
    if length s == 0 || not (bit_and (length s) 3 == 0) then false else valid_chars s

-- `none` is the return of `false`, `some` what `cf_b64_decode` does.
unfoldable pub cf_b64_validate_and_decode : List ℕ → Option (Option (List ℕ × ℕ))
cf_b64_validate_and_decode s = if is_valid_encoded s then some (cf_b64_decode s) else none
