-- ===== src/Base64.antt =====
-- src/main/citrusleaf/cf_b64.c and src/include/citrusleaf/cf_b64.h. A buffer is the list of its bytes
-- up to the length that is passed with it, shorter than 2^31; `none` is a read behind it.
pub mod Tables
pub mod Bytes
pub mod RoundTrip
pub mod Validate
pub mod InPlace
mod Tests
use aerospike_common.Common.{
  ℕ, ◌+◌, ◌-◌, ◌*◌, ◌/◌, ◌%◌, ◌^◌, List, [], ◌∷◌, Option, none, some, Bool, true, false, ◌&&◌, ◌||◌,
}
use aerospike_common.Common.{bit_and, bit_or, if◌then◌else◌, ◌==◌, length, get_or}
use aerospike_common.Base64.Tables.{ea, va, da}

unfoldable pub cf_b64_encoded_len : ℕ → ℕ
cf_b64_encoded_len in_size = (in_size + 2) % 2 ^ 32 / 3 * 4 % 2 ^ 32

unfoldable pub cf_b64_decoded_buf_size : ℕ → ℕ
cf_b64_decoded_buf_size in_len = in_len * 3 % 2 ^ 32 / 4

-- `'='`
abbrev pub pad : ℕ
pad = 61

-- The characters stored from `out[0]` on.
unfoldable pub cf_b64_encode : List ℕ → List ℕ
cf_b64_encode [] = []
cf_b64_encode (i0 ∷ []) = ea (bit_and i0 0xfc / 4) ∷ ea (bit_and i0 0x03 * 16) ∷ pad ∷ pad ∷ []
cf_b64_encode (i0 ∷ i1 ∷ []) =
    ea (bit_and i0 0xfc / 4)
    ∷ ea (bit_and i0 0x03 * 16 + bit_and i1 0xf0 / 16)
    ∷ ea (bit_and i1 0x0f * 4)
    ∷ pad
    ∷ []
cf_b64_encode (i0 ∷ i1 ∷ i2 ∷ rest) =
    ea (bit_and i0 0xfc / 4)
    ∷ ea (bit_and i0 0x03 * 16 + bit_and i1 0xf0 / 16)
    ∷ ea (bit_and i1 0x0f * 4 + bit_and i2 0xc0 / 64)
    ∷ ea (bit_and i2 0x3f)
    ∷ cf_b64_encode rest

-- The three bytes of four characters.
unfoldable pub byte0 : ℕ → ℕ → ℕ
byte0 i0 i1 = bit_or (da i0 * 4) (da i1 / 16) % 2 ^ 8

unfoldable pub byte1 : ℕ → ℕ → ℕ
byte1 i1 i2 = bit_or (da i1 * 16) (da i2 / 4) % 2 ^ 8

unfoldable pub byte2 : ℕ → ℕ → ℕ
byte2 i2 i3 = bit_or (da i2 * 64) (da i3) % 2 ^ 8

-- The loop of `cf_b64_decode`.
unfoldable pub decode_loop : List ℕ → Option (List ℕ)
unfolding byte0 byte1 byte2
decode_loop [] = some []
decode_loop (i0 ∷ i1 ∷ i2 ∷ i3 ∷ rest) = elim (decode_loop rest) [
  | none ↦ none
  | some out ↦ some (byte0 i0 i1 ∷ byte1 i1 i2 ∷ byte2 i2 i3 ∷ out)
]
decode_loop (i0 ∷ []) = none
decode_loop (i0 ∷ i1 ∷ []) = none
decode_loop (i0 ∷ i1 ∷ i2 ∷ []) = none

abbrev pub is_pad : ℕ → ℕ
is_pad c = if c == pad then 1 else 0

-- How many of the last two characters of a text that is not empty are `'='`.
unfoldable pub padding : List ℕ → ℕ
padding s = is_pad (get_or s (length s - 1) 0) + is_pad (get_or s (length s - 2) 0)

-- `*out_size` where the loop has stored `j` bytes, at least three if the text is not empty
unfoldable pub out_size : List ℕ → ℕ → ℕ
out_size s j = if length s == 0 then j else j - padding s

-- `out` and `*out_size`
unfoldable pub cf_b64_decode : List ℕ → Option (List ℕ × ℕ)
cf_b64_decode s = elim (decode_loop s) [
  | none ↦ none
  | some out ↦ some (out, out_size s (length out))
]
