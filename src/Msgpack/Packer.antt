-- ===== src/Msgpack/Packer.antt =====
-- The packer of as_msgpack.h and the raw writes of as_msgpack.c. A buffer is the list of the bytes
-- that were allocated for it. `malloc` is the C library's; it answers `none` for NULL.
pub mod Output
use aerospike_common.Common.{
  ℕ, ◌+◌, ◌-◌, ◌*◌, ◌/◌, ◌%◌, ◌^◌, List, [], ◌∷◌, ◌++◌, Option, none, some,
}
use aerospike_common.Common.{Bool, true, false, ltb, if◌then◌else◌, add32, length, take, drop}
use aerospike_common.Common.{ℤ, pos, negsuc, is_zero}

-- `as_packer_buffer`, without the link: a full buffer and the number of its bytes in use.
pub record PackerBuffer : Type 0 where
  pub buffer : Option (List ℕ)
  pub length : ℕ

-- `as_packer`. `entries` is the linked list from `head` to `tail`.
pub record Packer : Type 0 where
  pub entries : List PackerBuffer
  pub buffer : Option (List ℕ)
  pub offset : ℕ
  pub capacity : ℕ

abbrev pub int32_max : ℕ
int32_max = 2 ^ 31 - 1

-- Two pointers and a `uint32_t` on a 64-bit machine, padded.
abbrev pub sizeof_packer_buffer : ℕ
sizeof_packer_buffer = 24

abbrev pub Malloc : Type 0
Malloc = ℕ → Option (List ℕ)

-- The sum is a `uint64_t`, which two `uint32_t` cannot overflow.
unfoldable pub advance_offset : Packer → ℕ → ℤ × Packer
advance_offset pk sz =
    let offset : ℕ = pk.offset + sz in
    if ltb int32_max offset then (negsuc 0, pk) else (pos 0, record pk { offset = offset })

-- What lies past the end of a block makes its list longer.
abbrev pub overwrite : List ℕ → ℕ → List ℕ → List ℕ
overwrite b i src = take i b ++ (src ++ drop (i + length src) b)

-- `memcpy(pk->buffer + pk->offset, src, length src)`
unfoldable pub store : Packer → List ℕ → Packer
store pk src = record pk {
  buffer = elim pk.buffer [ none ↦ none | some b ↦ some (overwrite b pk.offset src) ];
}

abbrev big_endian16 : ℕ → List ℕ → List ℕ
big_endian16 v rest = (v / 2 ^ 8 % 2 ^ 8) ∷ (v % 2 ^ 8) ∷ rest

abbrev big_endian32 : ℕ → List ℕ → List ℕ
big_endian32 v rest = big_endian16 (v / 2 ^ 16) (big_endian16 v rest)

-- The bytes that `cf_swap_to_be16`, `32` and `64` put in memory.
abbrev pub be16 : ℕ → List ℕ
be16 v = big_endian16 v []

abbrev pub be32 : ℕ → List ℕ
be32 v = big_endian32 v []

abbrev pub be64 : ℕ → List ℕ
be64 v = big_endian32 (v / 2 ^ 32) (big_endian32 v [])

-- `if (rc == 0) { rc = f(pk); }`
abbrev pub and_then : ℤ × Packer → (Packer → ℤ × Packer) → ℤ × Packer
and_then r f = if is_zero r.0 then f r.1 else r

module _ (malloc : Malloc) where
  -- A failing second `cf_malloc` has already set `pk->buffer` to NULL.
  unfoldable pub pack_resize : Packer → ℕ → ℤ × Packer
  pack_resize pk sz =
      let newcap : ℕ = if ltb pk.capacity sz then sz else pk.capacity in
      let entry : PackerBuffer = record { buffer = pk.buffer; length = pk.offset } in
      elim (malloc sizeof_packer_buffer) [
        | none ↦ (negsuc 0, pk)
        | some _ ↦ elim (malloc newcap) [
          | none ↦ (negsuc 0, record pk { buffer = none })
          | some b ↦ (
            pos 0,
            record {
              entries = pk.entries ++ (entry ∷ []);
              buffer = some b;
              offset = 0;
              capacity = newcap;
            },
          )
        ]
      ]

  -- `length src` is the argument `sz`.
  unfoldable pub pack_append : Packer → List ℕ → Bool → ℤ × Packer
  pack_append pk src resize = elim pk.buffer [
    | none ↦ advance_offset pk sz
    | some _ ↦
        if ltb pk.capacity (add32 pk.offset sz)
        then (if resize then grown (pack_resize pk sz) else (negsuc 0, pk))
        else advance_offset (store pk src) sz
  ]
    where
      sz : ℕ
      sz = length src

      grown : ℤ × Packer → ℤ × Packer
      grown r = if is_zero r.0 then advance_offset (store r.1 src) sz else (negsuc 0, r.1)

  -- These repeat the checks of `pack_append` for 1, 2, 3, 5 and 9 bytes.
  unfoldable pub pack_byte : Packer → ℕ → Bool → ℤ × Packer
  pack_byte pk val resize = pack_append pk (val ∷ []) resize

  unfoldable pub pack_type_uint8 : Packer → ℕ → ℕ → Bool → ℤ × Packer
  pack_type_uint8 pk type val resize = pack_append pk (type ∷ val ∷ []) resize

  unfoldable pub pack_type_uint16 : Packer → ℕ → ℕ → Bool → ℤ × Packer
  pack_type_uint16 pk type val resize = pack_append pk (type ∷ be16 val) resize

  unfoldable pub pack_type_uint32 : Packer → ℕ → ℕ → Bool → ℤ × Packer
  pack_type_uint32 pk type val resize = pack_append pk (type ∷ be32 val) resize

  unfoldable pub pack_type_uint64 : Packer → ℕ → ℕ → Bool → ℤ × Packer
  pack_type_uint64 pk type val resize = pack_append pk (type ∷ be64 val) resize
