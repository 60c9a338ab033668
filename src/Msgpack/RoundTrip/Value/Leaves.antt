-- ===== src/Msgpack/RoundTrip/Value/Leaves.antt =====
-- Packed values without elements, read by `as_unpack_val`.
use aerospike_common.Common.{
  ℕ, ◌+◌, ◌-◌, ◌%◌, ◌/◌, ◌<◌, ◌^◌, ◌≡◌, ◌∙◌, sym, refl, ap, arith, List, ◌∷◌, ◌++◌, Bool, true,
  false, inl, inr, ℤ, pos, negsuc, some, ◌==◌, add32, length, take_append, if◌then◌else◌,
  length-append, append_assoc,
}
use aerospike_common.Val.{Val, nil, boolean, integer, double}
use aerospike_common.Msgpack.Packer.{be64}
use aerospike_common.Msgpack.Pack.Number.{as_pack_int64_size, as_pack_uint64_size}
use aerospike_common.Msgpack.Unpacker.{Unpacker, M, Result, ok, next_byte}
use aerospike_common.Msgpack.Unpacker.Reads.{
  At, bind-some, advance, At-advance, At-advance_append, next_byte-At, extract_uint64-At,
}
use aerospike_common.Msgpack.Unpack.Blob.{str_bin_size_as}
use aerospike_common.Msgpack.Unpack.Value.{
  unpack_val_as, unpack_next, unpack_blob, unpack_blob_contents, wrap_contents, sizeof_blob_val,
  next_bytes, unpack_list, unpack_map, blob_val,
}
use aerospike_common.Msgpack.RoundTrip.Number.{
  InInt64, int64_bytes, as_unpack_uint64-At, read_negative_bytes, read_uint64_bytes,
  length-int64_bytes, be32_value,
}
use aerospike_common.Msgpack.RoundTrip.Blob.{size_string, string_header_bytes}
use aerospike_common.Msgpack.RoundTrip.Value.{blob_bytes}
use aerospike_common.Msgpack.RoundTrip.Value.Heads.{
  Headed, NotExt, int64_bytes-Headed, int64_bytes-Negative, string_header_bytes-Headed,
}
use aerospike_common.Msgpack.RoundTrip.Value.Types.{
  as_unpack_peek_is_ext-At, unpack_val_as-integer, unpack_val_as-blob,
}

pub advance-advance : (up : Unpacker) (a b : ℕ) → advance (advance up a) b ≡ advance up (a + b)
advance-advance up a b =
    let sum : up.offset + a + b ≡ up.offset + (a + b) = omega arith in
    ap (λ n. record up { offset = n }) sum

next_bytes-At :
    (pk : Unpacker) (s rest : List ℕ) → At pk (s ++ rest) → next_bytes (length s) pk ≡ some (s, pk)
next_bytes-At pk s rest (lies, fits, small) =
    let same : (length s == length s) ≡ true = ground arith in
    rw (lies, take_append s rest, same) refl

-- While memory can be had, contents come back as a value.
module _ (malloc : ℕ → Bool) (memory : (n : ℕ) → malloc n ≡ true) where
  wrap_contents-At :
      (pk : Unpacker) (code : ℤ) (type : ℕ) (s rest : List ℕ)
      → At pk (s ++ rest)
      → wrap_contents malloc code type (length s) pk
        ≡ some (ok (blob_val type s), advance pk (length s))
  unfolding wrap_contents
  wrap_contents-At pk code type s rest h =
      let inside : add32 pk.offset (length s) ≡ pk.offset + length s =
        omega (arith, length-append s rest) in
      bind-some (next_bytes (length s)) _ pk pk s (next_bytes-At pk s rest h)
      ∙ rw (memory sizeof_blob_val)
          (ap (λ n. some (ok (blob_val type s), record pk { offset = n })) inside)

  unpack_blob_contents-At :
      (pk : Unpacker) (type : ℕ) (s rest : List ℕ)
      → At pk (s ++ rest)
      → unpack_blob_contents malloc type (length s) pk
        ≡ some (ok (blob_val type s), advance pk (length s))
  unfolding unpack_blob_contents
  unpack_blob_contents-At pk type s rest h = ground (
    arith,
    memory (length s),
    wrap_contents-At pk (negsuc 3) type s rest h,
    wrap_contents-At pk (negsuc 2) type s rest h,
    wrap_contents-At pk (negsuc 1) type s rest h,
  )

  -- A type byte and the contents behind it.
  unpack_blob-At :
      (pk : Unpacker) (type : ℕ) (s rest : List ℕ)
      → At pk (type ∷ s ++ rest)
      → unpack_blob malloc (length s + 1) pk
        ≡ some (ok (blob_val type s), advance pk (length s + 1))
  unfolding unpack_blob
  unpack_blob-At pk type s rest h =
      let contents : length s + 1 - 1 ≡ length s = omega arith in
      let total : 1 + length s ≡ length s + 1 = omega arith in
      let some_bytes : (length s + 1 == 0) ≡ false = ground arith in
      rw some_bytes (
        bind-some next_byte _ pk (advance pk 1) type (next_byte-At pk h)
        ∙ rw contents (
            unpack_blob_contents-At (advance pk 1) type s rest (At-advance pk h)
            ∙ rw (advance-advance pk 1 (length s), total) refl))

read_type :
    (up : Unpacker) (n t t' k : ℕ)
    → next_byte up ≡ some (t, advance up 1)
    → next_byte up ≡ some (t', advance up 1)
    → str_bin_size_as t' (advance up 1) ≡ some (some n, advance up k)
    → str_bin_size_as t (advance up 1) ≡ some (some n, advance up k)
read_type up n t t' k h h' size = let same : t' ≡ t = ground arith in rw (← same) size

module _ (malloc realloc : ℕ → Bool) (sizeof_map : ℕ) (widen : ℕ → ℕ) (double_lt : ℕ → ℕ → Bool)
    (next : M (Result Val)) (up : Unpacker) where
  -- The value to come is `v`, in the next `n` bytes.
  abbrev pub Reads : Val → ℕ → Type 0
  Reads v n =
      unpack_next malloc realloc sizeof_map widen double_lt next up ≡ some (ok v, advance up n)

  -- What `as_unpack_val` does for type `t`.
  abbrev pub goes_on : ℕ → M (Result Val)
  goes_on t =
      unpack_val_as widen (unpack_blob malloc)
        (unpack_list malloc realloc sizeof_map widen double_lt next)
        (unpack_map malloc realloc sizeof_map widen double_lt next) t

  pub unpack_next-At :
      (t : ℕ) (q : List ℕ)
      → NotExt t
      → At up (t ∷ q)
      → unpack_next malloc realloc sizeof_map widen double_lt next up ≡ goes_on t (advance up 1)
  unfolding unpack_next
  unpack_next-At t q other h =
      ground (arith, as_unpack_peek_is_ext-At up t other h, next_byte-At up h)

  -- The type of a headed form.
  pub unpack_next-Headed :
      {src : List ℕ} (rest : List ℕ) (h : Headed src)
      → At up (src ++ rest)
      → (next_byte up ≡ some (h.head, advance up 1))
        × (unpack_next malloc realloc sizeof_map widen double_lt next up
            ≡ goes_on h.head (advance up 1))
  unpack_next-Headed {src} rest h here =
      let at : At up (h.head ∷ h.tail ++ rest) = rw (h.splits) at here in
      (next_byte-At up at, unpack_next-At h.head (h.tail ++ rest) h.other at)

  pub Reads-nil : (rest : List ℕ) → At up (0xc0 ∷ rest) → Reads nil 1
  Reads-nil rest h = unpack_next-At 0xc0 rest (inl (omega arith)) h ∙ unfold unpack_val_as in refl

  pub Reads-boolean :
      (b : Bool) (rest : List ℕ) → At up ((if b then 0xc3 else 0xc2) ∷ rest) → Reads (boolean b) 1
  Reads-boolean true rest h =
      unpack_next-At 0xc3 rest (inl (omega arith)) h ∙ unfold unpack_val_as in refl
  Reads-boolean false rest h =
      unpack_next-At 0xc2 rest (inl (omega arith)) h ∙ unfold unpack_val_as in refl

  pub Reads-double :
      (d : ℕ) (rest : List ℕ) → d < 2 ^ 64 → At up (0xcb ∷ be64 d ++ rest) → Reads (double d) 9
  Reads-double d rest small h =
      unpack_next-At 0xcb (be64 d ++ rest) (inr (inl (omega arith, omega arith))) h
      ∙ unfold unpack_val_as in
        ground (
          arith,
          extract_uint64-At (advance up 1) (At-advance up h),
          be32_value (d / 2 ^ 32) (omega arith),
          be32_value (d % 2 ^ 32) (omega arith),
        )

  pub Reads-integer :
      (i : ℤ) (rest : List ℕ)
      → InInt64 i
      → At up (int64_bytes i ++ rest)
      → Reads (integer i) (length (int64_bytes i))
  unfolding as_pack_int64_size as_pack_uint64_size
  Reads-integer (pos n) rest small h =
      let headed = int64_bytes-Headed (pos n) in
      let (first, on) = unpack_next-Headed rest headed h in
      let table = sym (as_unpack_uint64-At up headed.head (rw (headed.splits) at h)) in
      on
      ∙ unpack_val_as-integer widen _ _ _ headed.head (advance up 1)
          (advance up (length (int64_bytes (pos n)))) n headed.byte (inl small)
          (table
            ∙ rw (length-int64_bytes (pos n))
                (read_uint64_bytes up rest n (omega arith) (unfold int64_bytes in h)))
      ∙ ground arith
  Reads-integer (negsuc n) rest small h =
      let negative = int64_bytes-Negative n in
      let (first, on) = unpack_next-Headed rest negative.headed h in
      let table =
        sym (as_unpack_uint64-At up negative.headed.head (rw (negative.headed.splits) at h)) in
      on
      ∙ unpack_val_as-integer widen _ _ _ negative.headed.head (advance up 1)
          (advance up (length (int64_bytes (negsuc n)))) (2 ^ 64 - 1 - n) negative.headed.byte
          (inr negative.signed)
          (table ∙ rw (length-int64_bytes (negsuc n)) (read_negative_bytes up rest n small h))
      ∙ ground arith

  -- Of the bytes behind a header of `k` bytes, which says that there are `suc (length s)`.
  pub Reads-blob :
      (memory : (n : ℕ) → malloc n ≡ true) (type : ℕ) (s : List ℕ) (v : Val) (rest : List ℕ)
      → length s < 2 ^ 32 - 1
      → blob_val type s ≡ v
      → At up (blob_bytes type s ++ rest)
      → Reads v (length (blob_bytes type s))
  Reads-blob memory type s v rest small same h =
      let n : ℕ = length s + 1 in
      let header : List ℕ = string_header_bytes n in
      let headed = string_header_bytes-Headed n in
      let at : At up (header ++ (type ∷ s ++ rest)) =
        rw (append_assoc header (type ∷ s) rest) at h in
      let total : length header + n ≡ length header + length (type ∷ s) = omega arith in
      let (first, on) = unpack_next-Headed (type ∷ s ++ rest) headed at in
      let (t, next, size) = size_string up (type ∷ s ++ rest) n (omega arith) at in
      on
      ∙ unpack_val_as-blob widen _ _ _ headed.head (advance up 1) (advance up (length header)) n
          headed.byte (read_type up n headed.head t (length header) first next size)
      ∙ unpack_blob-At malloc memory (advance up (length header)) type s rest
          (At-advance_append up header at)
      ∙ rw (same, advance-advance up (length header) n, length-append header (type ∷ s))
          (ap (λ k. some (ok v, advance up k)) total)
