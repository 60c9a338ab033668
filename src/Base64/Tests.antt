-- ===== src/Base64/Tests.antt =====
-- Runs of the encoder and the decoder, and their theorems at concrete texts.
use aerospike_common.Common.{◌⊎◌, none, ℕ, ◌≡◌, ◌≤◌, refl, arith, List, [], ◌∷◌, some, length, take}
use aerospike_common.Base64.{cf_b64_encode, cf_b64_decode, cf_b64_decoded_buf_size}
use aerospike_common.Base64.Validate.{cf_b64_validate_and_decode}
use aerospike_common.Base64.InPlace.{
  cf_b64_validate_and_decode_in_place,
  cf_b64_validate_and_decode_in_place-cf_b64_validate_and_decode, cf_b64_decode_in_place,
  cf_b64_decode_in_place-cf_b64_decode,
}
use aerospike_common.Base64.Tables.{ea}
use aerospike_common.Base64.RoundTrip.{cf_b64_decode_fits}

-- "Man", "M"
encode_run : cf_b64_encode (77 ∷ 97 ∷ 110 ∷ 77 ∷ []) ≡ 84 ∷ 87 ∷ 70 ∷ 117 ∷ 84 ∷ 81 ∷ 61 ∷ 61 ∷ []
unfolding cf_b64_encode ea
encode_run = refl

cf_b64_decode_fits_example :
    (out : List ℕ) × (n : ℕ) × (cf_b64_decode (84 ∷ 81 ∷ 61 ∷ 61 ∷ []) ≡ some (out, n))
    × (length out ≡ cf_b64_decoded_buf_size 4)
    × (n ≤ length out)
cf_b64_decode_fits_example = cf_b64_decode_fits 1 (84 ∷ 81 ∷ 61 ∷ 61 ∷ []) refl (omega arith)

cf_b64_decode_in_place-cf_b64_decode_example :
    (out : List ℕ) × (cf_b64_decode (84 ∷ 81 ∷ 61 ∷ 61 ∷ [])
      ≡ some (out, (cf_b64_decode_in_place (84 ∷ 81 ∷ 61 ∷ 61 ∷ [])).1))
    × (take (length out) (cf_b64_decode_in_place (84 ∷ 81 ∷ 61 ∷ 61 ∷ [])).0 ≡ out)
cf_b64_decode_in_place-cf_b64_decode_example =
    cf_b64_decode_in_place-cf_b64_decode 1 (84 ∷ 81 ∷ 61 ∷ 61 ∷ []) refl

cf_b64_validate_and_decode_in_place-cf_b64_validate_and_decode_example :
    ((cf_b64_validate_and_decode (84 ∷ 81 ∷ 61 ∷ 61 ∷ []) ≡ none)
      × (cf_b64_validate_and_decode_in_place (84 ∷ 81 ∷ 61 ∷ 61 ∷ []) ≡ none))
    ⊎ ((out : List ℕ) × (r : List ℕ × ℕ) × (cf_b64_validate_and_decode (84 ∷ 81 ∷ 61 ∷ 61 ∷ [])
          ≡ some (some (out, r.1)))
        × (cf_b64_validate_and_decode_in_place (84 ∷ 81 ∷ 61 ∷ 61 ∷ []) ≡ some r)
        × (take (length out) r.0 ≡ out))
cf_b64_validate_and_decode_in_place-cf_b64_validate_and_decode_example =
    cf_b64_validate_and_decode_in_place-cf_b64_validate_and_decode (84 ∷ 81 ∷ 61 ∷ 61 ∷ [])
