-- ===== src/Msgpack/RoundTrip/Blob.antt =====
-- Strings and byte arrays.
use aerospike_common.Common.{
  ℕ, ◌+◌, ◌-◌, ◌≤◌, ◌<◌, ◌^◌, ◌%◌, ◌≡◌, refl, ◌⊎◌, inl, inr, List, [], ◌∷◌, ◌++◌, Bool, false,
  Option, some, arith,
}
use aerospike_common.Common.{
  Bool-cases, length-append, take_append, take_length, length, take, drop, ltb, if◌then◌else◌, pos,
  bit_or, or_a0, high3_bits, low5_bits, append_assoc,
}
use aerospike_common.Msgpack.Packer.{
  Packer, Malloc, be16, be32, pack_append, pack_byte, pack_type_uint8, pack_type_uint16,
  pack_type_uint32,
}
use aerospike_common.Msgpack.Packer.Output.{
  added, Appended, added-Appended, Appended-and_then, IsReady, IsSized, pack_append-Appended,
}
use aerospike_common.Msgpack.Pack.Blob.{
  as_pack_str, as_pack_bin, pack_string_header, pack_bin_header, as_pack_str_size, as_pack_bin_size,
}
use aerospike_common.Msgpack.Unpacker.{Unpacker, next_byte}
use aerospike_common.Msgpack.Unpacker.Reads.{
  At, advance, At-advance, At-advance_append, next_byte-At, extract_uint16-At, extract_uint32-At,
}
use aerospike_common.Msgpack.Unpack.Blob.{
  str_bin_size_as, str_bin_take, unpack_str_bin, as_unpack_str, as_unpack_bin,
}
use aerospike_common.Msgpack.RoundTrip.Number.{be32_value}

unfoldable pub bin_header_bytes : ℕ → ℕ → ℕ → ℕ → List ℕ
bin_header_bytes t8 t16 t32 n =
    if ltb n (2 ^ 8)
    then t8 ∷ n % 2 ^ 8 ∷ []
    else if ltb n (2 ^ 16)
    then t16 ∷ be16 (n % 2 ^ 16)
    else t32 ∷ be32 n

unfoldable pub string_header_bytes : ℕ → List ℕ
unfolding bin_header_bytes
string_header_bytes n = if ltb n 32 then bit_or 0xa0 n ∷ [] else bin_header_bytes 0xd9 0xda 0xdb n

header_size :
    (t8 t16 t32 n : ℕ)
    → n < 2 ^ 31 - 6
    → length (bin_header_bytes t8 t16 t32 n) + n ≡ as_pack_bin_size n
unfolding bin_header_bytes as_pack_bin_size
header_size t8 t16 t32 n h = ground arith

string_header_size :
    (n : ℕ) → n < 2 ^ 31 - 6 → length (string_header_bytes n) + n ≡ as_pack_str_size n
unfolding string_header_bytes as_pack_str_size
string_header_size n h = ground arith

module _ (malloc : Malloc) (pk : Packer) (n : ℕ) where
  pub string_header-bytes :
      (resize : Bool)
      → pack_string_header malloc pk n resize ≡ pack_append malloc pk (string_header_bytes n) resize
  unfolding pack_string_header string_header_bytes pack_byte pack_type_uint8 pack_type_uint16
      pack_type_uint32
  string_header-bytes resize = ground arith

  bin_header-bytes :
      pack_bin_header malloc pk n ≡ pack_append malloc pk (bin_header_bytes 0xc4 0xc5 0xc6 n) false
  unfolding pack_bin_header bin_header_bytes pack_byte pack_type_uint8 pack_type_uint16
      pack_type_uint32
  bin_header-bytes = ground arith

-- The size read at `up` is `n`, behind a header of `k` bytes.
abbrev pub ReadsSize : Unpacker → ℕ → ℕ → Type 0
ReadsSize up n k =
    (t : ℕ) × (next_byte up ≡ some (t, advance up 1))
    × (str_bin_size_as t (advance up 1) ≡ some (some n, advance up k))

-- What the `switch` of `unpack_str_bin` makes of a header.
module _ (up : Unpacker) (r : List ℕ) (n : ℕ) where
  size_fix : n < 32 → At up (bit_or 0xa0 n ∷ r) → ReadsSize up n 1
  unfolding str_bin_size_as
  size_fix small h =
      let t : ℕ = bit_or 0xa0 n in
      (t, next_byte-At up h, ground (arith, or_a0 n, high3_bits t, low5_bits t))

  size8 :
      (t : ℕ) → (t ≡ 0xd9) ⊎ (t ≡ 0xc4) → n < 2 ^ 8 → At up (t ∷ n % 2 ^ 8 ∷ r) → ReadsSize up n 2
  unfolding str_bin_size_as
  size8 t which small h =
      (t, next_byte-At up h, ground (arith, next_byte-At (advance up 1) (At-advance up h)))

  size16 :
      (t : ℕ)
      → (t ≡ 0xc5) ⊎ (t ≡ 0xda)
      → n < 2 ^ 16
      → At up (t ∷ be16 (n % 2 ^ 16) ++ r)
      → ReadsSize up n 3
  unfolding str_bin_size_as
  size16 t which small h =
      (t, next_byte-At up h, ground (arith, extract_uint16-At (advance up 1) (At-advance up h)))

  size32 :
      (t : ℕ) → (t ≡ 0xc6) ⊎ (t ≡ 0xdb) → n < 2 ^ 32 → At up (t ∷ be32 n ++ r) → ReadsSize up n 5
  unfolding str_bin_size_as
  size32 t which small h = (
    t,
    next_byte-At up h,
    ground (arith, extract_uint32-At (advance up 1) (At-advance up h), be32_value n small),
  )

  size_bin :
      (t8 t16 t32 : ℕ)
      → (t8 ≡ 0xd9) ⊎ (t8 ≡ 0xc4)
      → (t16 ≡ 0xc5) ⊎ (t16 ≡ 0xda)
      → (t32 ≡ 0xc6) ⊎ (t32 ≡ 0xdb)
      → n < 2 ^ 32
      → At up (bin_header_bytes t8 t16 t32 n ++ r)
      → ReadsSize up n (length (bin_header_bytes t8 t16 t32 n))
  unfolding bin_header_bytes
  size_bin t8 t16 t32 w8 w16 w32 small h = elim (Bool-cases (ltb n (2 ^ 8))) [
    | inl one ↦ rw one (size8 t8 w8 (ground arith) (rw one at h))
    | inr more ↦ elim (Bool-cases (ltb n (2 ^ 16))) [
      | inl two ↦ rw (more, two) (size16 t16 w16 (ground arith) (rw (more, two) at h))
      | inr four ↦ rw (more, four) (size32 t32 w32 small (rw (more, four) at h))
    ]
  ]

  pub size_string :
      n < 2 ^ 32
      → At up (string_header_bytes n ++ r)
      → ReadsSize up n (length (string_header_bytes n))
  unfolding string_header_bytes
  size_string small h = elim (Bool-cases (ltb n 32)) [
    | inl fix ↦ rw fix (size_fix (ground arith) (rw fix at h))
    | inr more ↦
        rw more (size_bin 0xd9 0xda 0xdb (inl refl) (inr refl) (inr refl) small (rw more at h))
  ]

-- `buf` lies `place` bytes into the buffer of `up`.
abbrev LiesAt : Unpacker → ℕ → List ℕ → Type 0
LiesAt up place buf = take (length buf) (drop place up.buffer) ≡ buf

-- The place and the size of a string behind its header.
read_blob :
    (up : Unpacker) (header buf r : List ℕ)
    → 0 < length header
    → ReadsSize up (length buf) (length header)
    → At up (header ++ (buf ++ r))
    → (unpack_str_bin up
        ≡ some
            (some (up.offset + length header, length buf), advance up (length header + length buf)))
      × LiesAt up (up.offset + length header) buf
unfolding unpack_str_bin str_bin_take
read_blob up header buf r some_header (t, first, size) h = (
  ground (arith, length-append header (buf ++ r), length-append buf r),
  rw ((At-advance_append up header h).0) (take_append buf r),
)

pub string_header_bounds :
    (n : ℕ) → (0 < length (string_header_bytes n)) × (length (string_header_bytes n) ≤ 5)
unfolding string_header_bytes bin_header_bytes
string_header_bounds n = ground arith

bin_header_bounds :
    (t8 t16 t32 n : ℕ)
    → (0 < length (bin_header_bytes t8 t16 t32 n)) × (length (bin_header_bytes t8 t16 t32 n) ≤ 5)
unfolding bin_header_bytes
bin_header_bounds t8 t16 t32 n = ground arith

module _ (malloc : Malloc) (sized : IsSized malloc) (pk : Packer) (ready : IsReady pk)
    (buf : List ℕ) (small : length buf < 2 ^ 31 - 6) where
  as_pack_str-Appended :
      Appended pk
        (string_header_bytes (length buf) ++ buf)
        (as_pack_str malloc pk (some buf) (length buf))
  unfolding as_pack_str
  as_pack_str-Appended =
      let n : ℕ = length buf in
      rw (take_length buf, string_header-bytes malloc pk n false)
        (Appended-and_then pk (string_header_bytes n) buf _
          (λ pk'. pack_append malloc pk' buf false)
          (pack_append-Appended malloc pk _ false sized ready
            (omega (arith, string_header_bounds n)))
          (λ ready'. pack_append-Appended malloc _ buf false sized ready' (omega arith)))

  as_pack_bin-Appended :
      Appended pk
        (bin_header_bytes 0xc4 0xc5 0xc6 (length buf) ++ buf)
        (as_pack_bin malloc pk (some buf) (length buf))
  unfolding as_pack_bin
  as_pack_bin-Appended =
      let n : ℕ = length buf in
      rw (take_length buf, bin_header-bytes malloc pk n)
        (Appended-and_then pk (bin_header_bytes 0xc4 0xc5 0xc6 n) buf _
          (λ pk'. pack_append malloc pk' buf false)
          (pack_append-Appended malloc pk _ false sized ready
            (omega (arith, bin_header_bounds 0xc4 0xc5 0xc6 n)))
          (λ ready'. pack_append-Appended malloc _ buf false sized ready' (omega arith)))

-- The result of `as_unpack_str` or `as_unpack_bin`: a place behind a header of `size - length buf`
-- bytes, where `buf` lies, and `size` bytes consumed.
abbrev pub Unpacked : Unpacker → List ℕ → ℕ → Option (Option (ℕ × ℕ) × Unpacker) → Type 0
Unpacked up buf size r =
    let place : ℕ = up.offset + (size - length buf) in
    (r ≡ some (some (place, length buf), advance up size)) × LiesAt up place buf

Unpacked-read_blob :
    (up : Unpacker) (header buf r : List ℕ) (size : ℕ)
    → 0 < length header
    → length header + length buf ≡ size
    → ReadsSize up (length buf) (length header)
    → At up (header ++ (buf ++ r))
    → Unpacked up buf size (unpack_str_bin up)
Unpacked-read_blob up header buf r size some_header total reads h =
    let (result, lies) = read_blob up header buf r some_header reads h in
    let place : length header ≡ size - length buf = omega arith in
    (rw (← place, ← total) result, rw (← place) lies)

module _ (malloc : Malloc) (pk : Packer) (buf rest : List ℕ) (up : Unpacker) where
  -- From the bytes that a successful `as_pack_str` adds for a string of fewer than 2^31 - 6 bytes,
  -- whatever follows them, `as_unpack_str` returns the place where the string lies and its length, and
  -- moves on by as many bytes as `as_pack_str_size` says.
  pub as_unpack_str-as_pack_str :
      IsSized malloc
      → IsReady pk
      → length buf < 2 ^ 31 - 6
      → (as_pack_str malloc pk (some buf) (length buf)).0 ≡ pos 0
      → At up (added pk (as_pack_str malloc pk (some buf) (length buf)).1 ++ rest)
      → Unpacked up buf (as_pack_str_size (length buf)) (as_unpack_str up)
  unfolding as_unpack_str
  as_unpack_str-as_pack_str sized ready small done here =
      Unpacked-read_blob up (string_header_bytes n) buf rest (as_pack_str_size n)
        (string_header_bounds n).0 (string_header_size n small)
        (size_string up (buf ++ rest) n (omega arith) at) at
    where
      n : ℕ
      n = length buf

      at : At up (string_header_bytes n ++ (buf ++ rest))
      at =
          rw
            (
              added-Appended pk (string_header_bytes n ++ buf) (as_pack_str malloc pk (some buf) n)
                  (as_pack_str-Appended malloc sized pk ready buf small) done,
              append_assoc (string_header_bytes n) buf rest,
            )
            at here

  -- The same of `as_pack_bin`, `as_unpack_bin` and `as_pack_bin_size`.
  pub as_unpack_bin-as_pack_bin :
      IsSized malloc
      → IsReady pk
      → length buf < 2 ^ 31 - 6
      → (as_pack_bin malloc pk (some buf) (length buf)).0 ≡ pos 0
      → At up (added pk (as_pack_bin malloc pk (some buf) (length buf)).1 ++ rest)
      → Unpacked up buf (as_pack_bin_size (length buf)) (as_unpack_bin up)
  unfolding as_unpack_bin
  as_unpack_bin-as_pack_bin sized ready small done here =
      Unpacked-read_blob up header buf rest (as_pack_bin_size n)
        (bin_header_bounds 0xc4 0xc5 0xc6 n).0 (header_size 0xc4 0xc5 0xc6 n small)
        (size_bin up (buf ++ rest) n 0xc4 0xc5 0xc6 (inr refl) (inl refl) (inl refl) (omega arith)
          at)
        at
    where
      n : ℕ
      n = length buf

      header : List ℕ
      header = bin_header_bytes 0xc4 0xc5 0xc6 n

      at : At up (header ++ (buf ++ rest))
      at =
          rw
            (
              added-Appended pk (header ++ buf) (as_pack_bin malloc pk (some buf) n)
                  (as_pack_bin-Appended malloc sized pk ready buf small) done,
              append_assoc header buf rest,
            )
            at here

-- A 32-bit string header whose size takes the offset past 2^32 is accepted, though the size is more
-- than the buffer holds: the sum of the bound check wraps.
pub unpack_str_bin_wraps :
    (up : Unpacker) (n : ℕ) (r : List ℕ)
    → n < 2 ^ 32
    → 2 ^ 32 ≤ up.offset + 5 + n
    → At up (0xdb ∷ be32 n ++ r)
    → (up.length < up.offset + 5 + n)
      × (unpack_str_bin up
          ≡ some (some (up.offset + 5, n), record up { offset = up.offset + 5 + n - 2 ^ 32 }))
unfolding unpack_str_bin str_bin_take
unpack_str_bin_wraps up n r small wraps h =
    let (t, first, size) = size32 up r n 0xdb (inr refl) small h in (omega arith, ground arith)
