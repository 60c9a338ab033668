-- ===== src/Base64/RoundTrip.antt =====
-- Decoding what the encoder wrote.
use aerospike_common.Common.{
  ℕ, zero, suc, ◌+◌, ◌*◌, ◌/◌, ◌^◌, ◌≤◌, ◌<◌, ◌≡◌, refl, arith, List, [], ◌∷◌, some, length, take,
}
use aerospike_common.Base64.{
  cf_b64_encode, cf_b64_decode, cf_b64_encoded_len, cf_b64_decoded_buf_size, decode_loop, padding,
  out_size, byte0, byte1, byte2,
}

-- Every element is a byte.
unfoldable pub AreBytes : List ℕ → Type 0
AreBytes [] = Unit
AreBytes (x ∷ xs) = (x < 256) × AreBytes xs

pub some_text : (x : ℕ) (xs : List ℕ) → 2 ≤ length (cf_b64_encode (x ∷ xs))
unfolding cf_b64_encode
some_text a [] = omega arith
some_text a (b ∷ []) = omega arith
some_text a (b ∷ c ∷ xs) = omega arith

-- What the loop of the decoder makes of an encoded text.
Decoded : List ℕ → Type 0
Decoded xs =
    (out : List ℕ) × (decode_loop (cf_b64_encode xs) ≡ some out)
    × (take (length xs) out ≡ xs)
    × (length out ≡ length xs + padding (cf_b64_encode xs))

pub decode_run :
    (s out : List ℕ)
    → decode_loop s ≡ some out
    → cf_b64_decode s ≡ some (out, out_size s (length out))
unfolding cf_b64_decode
decode_run s out run = rw (cf_b64_decode, run) refl

pub encoded_groups : (xs : List ℕ) → length (cf_b64_encode xs) ≡ (length xs + 2) / 3 * 4
unfolding cf_b64_encode
encoded_groups [] = refl
encoded_groups (a ∷ []) = refl
encoded_groups (a ∷ b ∷ []) = refl
encoded_groups (a ∷ b ∷ c ∷ xs) = omega (arith, encoded_groups xs)

-- For less than 2^31 bytes the text has the length that `cf_b64_encoded_len` announces.
pub length-cf_b64_encode :
    (xs : List ℕ) → length xs < 2 ^ 31 → length (cf_b64_encode xs) ≡ cf_b64_encoded_len (length xs)
unfolding cf_b64_encoded_len
length-cf_b64_encode xs h = omega (arith, encoded_groups xs)

decoded_groups :
    (k : ℕ) (s : List ℕ)
    → length s ≡ k * 4
    → (out : List ℕ) × (decode_loop s ≡ some out) × (length out ≡ k * 3)
unfolding decode_loop
decoded_groups zero [] e = ([], refl, refl)
decoded_groups zero (i0 ∷ s) e = absurd (omega arith)
decoded_groups (suc k) [] e = absurd (omega arith)
decoded_groups (suc k) (i0 ∷ []) e = absurd (omega arith)
decoded_groups (suc k) (i0 ∷ i1 ∷ []) e = absurd (omega arith)
decoded_groups (suc k) (i0 ∷ i1 ∷ i2 ∷ []) e = absurd (omega arith)
decoded_groups (suc k) (i0 ∷ i1 ∷ i2 ∷ i3 ∷ s) e =
    let (out, run, count) = decoded_groups k s (omega arith) in
    (byte0 i0 i1 ∷ byte1 i1 i2 ∷ byte2 i2 i3 ∷ out, rw run refl, omega (arith, count))

-- Any text of a multiple of four characters, up to a third of 2^32, is decoded without a read behind
-- it into as many bytes as `cf_b64_decoded_buf_size` announces, and the size is at most that.
pub cf_b64_decode_fits :
    (k : ℕ) (s : List ℕ)
    → length s ≡ k * 4
    → length s * 3 < 2 ^ 32
    → (out : List ℕ) × (n : ℕ) × (cf_b64_decode s ≡ some (out, n))
      × (length out ≡ cf_b64_decoded_buf_size (length s))
      × (n ≤ length out)
unfolding cf_b64_decoded_buf_size out_size
cf_b64_decode_fits k s e small =
    let (out, run, count) = decoded_groups k s e in
    (out, out_size s (length out), decode_run s out run, omega (arith, count), ground arith)
