-- ===== src/Msgpack/RoundTrip/Header.antt =====
-- The headers of lists and maps.
use aerospike_common.Common.{
  ℕ, ◌≤◌, ◌<◌, ◌^◌, ◌%◌, ◌≡◌, ◌∙◌, ap, List, [], ◌∷◌, ◌++◌, Bool, true, false, some, arith,
}
use aerospike_common.Common.{
  length, ltb, if◌then◌else◌, pos, bit_or, or_80, or_90, high4_bits, low4_bits,
}
use aerospike_common.Msgpack.Packer.{
  Packer, Malloc, be16, be32, pack_append, pack_byte, pack_type_uint16, pack_type_uint32,
}
use aerospike_common.Msgpack.Packer.Output.{
  Bounded, added, Appended, added-Appended, IsReady, IsSized, pack_append-Appended,
  pack_append-Bounded,
}
use aerospike_common.Msgpack.Pack.Header.{
  as_pack_list_header, pack_map_header_internal, as_pack_map_header, as_pack_list_header_get_size,
  as_pack_map_header_get_size,
}
use aerospike_common.Msgpack.Pack.Value.{pack_list_header}
use aerospike_common.Msgpack.Unpacker.{Unpacker, ok}
use aerospike_common.Msgpack.Unpacker.Reads.{
  At, advance, At-advance, next_byte-At, extract_uint16-At, extract_uint32-At,
}
use aerospike_common.Msgpack.Unpack.Header.{
  list_header_as, as_unpack_list_header_element_count, map_header_as,
  as_unpack_map_header_element_count,
}
use aerospike_common.Msgpack.RoundTrip.Number.{be32_value}

-- A header of 1, 3 or 5 bytes by its combined type and its types with 16 and 32 bits.
module _ (fix t16 t32 n : ℕ) where
  unfoldable pub header_bytes : List ℕ
  header_bytes =
      if ltb n 16
      then bit_or fix n ∷ []
      else if ltb n (2 ^ 16)
      then t16 ∷ be16 (n % 2 ^ 16)
      else t32 ∷ be32 n

  length-header_bytes : length header_bytes ≡ as_pack_list_header_get_size n
  unfolding header_bytes as_pack_list_header_get_size
  length-header_bytes = ground arith

  header_bytes_small : length header_bytes ≤ 5
  unfolding header_bytes
  header_bytes_small = ground arith

unfoldable pub list_header_bytes : ℕ → List ℕ
unfolding header_bytes
list_header_bytes n = header_bytes 0x90 0xdc 0xdd n

unfoldable pub map_header_bytes : ℕ → List ℕ
unfolding header_bytes
map_header_bytes n = header_bytes 0x80 0xde 0xdf n

pub list_header_bytes_small : (n : ℕ) → length (list_header_bytes n) ≤ 5
unfolding list_header_bytes
list_header_bytes_small n = header_bytes_small 0x90 0xdc 0xdd n

pub length-list_header_bytes :
    (n : ℕ) → length (list_header_bytes n) ≡ as_pack_list_header_get_size n
unfolding list_header_bytes
length-list_header_bytes n = length-header_bytes 0x90 0xdc 0xdd n

pub length-map_header_bytes : (n : ℕ) → length (map_header_bytes n) ≡ as_pack_map_header_get_size n
unfolding map_header_bytes as_pack_map_header_get_size
length-map_header_bytes n = length-header_bytes 0x80 0xde 0xdf n

pub map_header_bytes_small : (n : ℕ) → length (map_header_bytes n) ≤ 5
unfolding map_header_bytes
map_header_bytes_small n = header_bytes_small 0x80 0xde 0xdf n

module _ (malloc : Malloc) (pk : Packer) (n : ℕ) where
  pub pack_list_header-bytes :
      pack_list_header malloc pk n ≡ pack_append malloc pk (list_header_bytes n) true
  unfolding pack_list_header list_header_bytes pack_byte pack_type_uint16 pack_type_uint32
  pack_list_header-bytes = ground arith

  list_header-bytes :
      as_pack_list_header malloc pk n ≡ pack_append malloc pk (list_header_bytes n) false
  unfolding as_pack_list_header list_header_bytes pack_byte pack_type_uint16 pack_type_uint32
  list_header-bytes = ground arith

  pub map_header-bytes :
      (resize : Bool)
      → pack_map_header_internal malloc pk n resize
        ≡ pack_append malloc pk (map_header_bytes n) resize
  unfolding pack_map_header_internal map_header_bytes pack_byte pack_type_uint16 pack_type_uint32
  map_header-bytes resize = ground arith

module _ (up : Unpacker) (r : List ℕ) (n : ℕ) where
  pub as_unpack_list-At :
      (t : ℕ) {q : List ℕ}
      → At up (t ∷ q)
      → as_unpack_list_header_element_count up ≡ list_header_as t (advance up 1)
  unfolding as_unpack_list_header_element_count
  as_unpack_list-At t h = ground (arith, next_byte-At up h)

  read_list8 :
      n < 16
      → At up (bit_or 0x90 n ∷ r)
      → as_unpack_list_header_element_count up ≡ some (ok n, advance up 1)
  unfolding list_header_as
  read_list8 small h =
      let t : ℕ = bit_or 0x90 n in
      as_unpack_list-At t h ∙ ground (arith, or_90 n, high4_bits t, low4_bits t)

  read_list16 :
      n < 2 ^ 16
      → At up (0xdc ∷ be16 (n % 2 ^ 16) ++ r)
      → as_unpack_list_header_element_count up ≡ some (ok n, advance up 3)
  unfolding list_header_as
  read_list16 small h =
      as_unpack_list-At 0xdc h ∙ ground (arith, extract_uint16-At (advance up 1) (At-advance up h))

  read_list32 :
      n < 2 ^ 32
      → At up (0xdd ∷ be32 n ++ r)
      → as_unpack_list_header_element_count up ≡ some (ok n, advance up 5)
  unfolding list_header_as
  read_list32 small h =
      as_unpack_list-At 0xdd h
      ∙ ground (arith, extract_uint32-At (advance up 1) (At-advance up h), be32_value n small)

  pub read_list_header_bytes :
      n < 2 ^ 32
      → At up (list_header_bytes n ++ r)
      → as_unpack_list_header_element_count up
        ≡ some (ok n, advance up (as_pack_list_header_get_size n))
  unfolding list_header_bytes as_pack_list_header_get_size
  read_list_header_bytes small h = ground (arith, read_list8, read_list16, read_list32)

  pub as_unpack_map-At :
      (t : ℕ) {q : List ℕ}
      → At up (t ∷ q)
      → as_unpack_map_header_element_count up ≡ map_header_as t (advance up 1)
  unfolding as_unpack_map_header_element_count
  as_unpack_map-At t h = ground (arith, next_byte-At up h)

  read_map8 :
      n < 16
      → At up (bit_or 0x80 n ∷ r)
      → as_unpack_map_header_element_count up ≡ some (ok n, advance up 1)
  unfolding map_header_as
  read_map8 small h =
      let t : ℕ = bit_or 0x80 n in
      as_unpack_map-At t h ∙ ground (arith, or_80 n, high4_bits t, low4_bits t)

  read_map16 :
      n < 2 ^ 16
      → At up (0xde ∷ be16 (n % 2 ^ 16) ++ r)
      → as_unpack_map_header_element_count up ≡ some (ok n, advance up 3)
  unfolding map_header_as
  read_map16 small h =
      as_unpack_map-At 0xde h ∙ ground (arith, extract_uint16-At (advance up 1) (At-advance up h))

  read_map32 :
      n < 2 ^ 32
      → At up (0xdf ∷ be32 n ++ r)
      → as_unpack_map_header_element_count up ≡ some (ok n, advance up 5)
  unfolding map_header_as
  read_map32 small h =
      as_unpack_map-At 0xdf h
      ∙ ground (arith, extract_uint32-At (advance up 1) (At-advance up h), be32_value n small)

  pub read_map_header_bytes :
      n < 2 ^ 32
      → At up (map_header_bytes n ++ r)
      → as_unpack_map_header_element_count up
        ≡ some (ok n, advance up (as_pack_map_header_get_size n))
  unfolding map_header_bytes as_pack_map_header_get_size
  read_map_header_bytes small h = ground (arith, read_map8, read_map16, read_map32)

module _ (malloc : Malloc) (pk : Packer) (n : ℕ) where
  -- Into a buffer that may not grow, `as_pack_list_header` writes the header and returns 0 where
  -- `as_pack_list_header_get_size` bytes are free, and else writes nothing and returns -1.
  pub as_pack_list_header-Bounded :
      IsReady pk
      → Bounded pk
          (as_pack_list_header_get_size n)
          (list_header_bytes n)
          (as_pack_list_header malloc pk n)
  unfolding list_header_bytes
  as_pack_list_header-Bounded ready =
      rw (list_header-bytes malloc pk n, ← length-header_bytes 0x90 0xdc 0xdd n)
        (pack_append-Bounded malloc pk _ ready (omega (arith, header_bytes_small 0x90 0xdc 0xdd n)))

  -- The same of `as_pack_map_header`.
  pub as_pack_map_header-Bounded :
      IsReady pk
      → Bounded pk
          (as_pack_map_header_get_size n)
          (map_header_bytes n)
          (as_pack_map_header malloc pk n)
  unfolding map_header_bytes as_pack_map_header as_pack_map_header_get_size
  as_pack_map_header-Bounded ready =
      rw (map_header-bytes malloc pk n false, ← length-header_bytes 0x80 0xde 0xdf n)
        (pack_append-Bounded malloc pk _ ready (omega (arith, header_bytes_small 0x80 0xde 0xdf n)))

  -- A successful `as_pack_list_header`, from a packer within its buffer and with a count below 2^32,
  -- adds exactly `as_pack_list_header_get_size` bytes, and from these, whatever follows them,
  -- `as_unpack_list_header_element_count` reads the count, and moves on by that size.
  pub as_unpack_list_header-as_pack_list_header :
      (up : Unpacker) (rest : List ℕ)
      → IsSized malloc
      → IsReady pk
      → n < 2 ^ 32
      → (as_pack_list_header malloc pk n).0 ≡ pos 0
      → At up (added pk (as_pack_list_header malloc pk n).1 ++ rest)
      → (length (added pk (as_pack_list_header malloc pk n).1) ≡ as_pack_list_header_get_size n)
        × (as_unpack_list_header_element_count up
            ≡ some (ok n, advance up (as_pack_list_header_get_size n)))
  as_unpack_list_header-as_pack_list_header up rest sized ready small done here =
      let exactly =
        added-Appended pk (list_header_bytes n) (as_pack_list_header malloc pk n) grown done in
      (
        ap length exactly ∙ length-list_header_bytes n,
        read_list_header_bytes up rest n small (rw exactly at here),
      )
    where
      grown : Appended pk (list_header_bytes n) (as_pack_list_header malloc pk n)
      grown = rw (list_header-bytes malloc pk n) (
          pack_append-Appended malloc pk _ false sized ready
            (unfold list_header_bytes in omega (arith, header_bytes_small 0x90 0xdc 0xdd n)))

  -- A successful `pack_map_header_internal`, from a packer within its buffer, which may grow or not, and
  -- with a count below 2^32, adds exactly `as_pack_map_header_get_size` bytes, and from these, whatever
  -- follows them, `as_unpack_map_header_element_count` reads the count, and moves on by that size.
  pub as_unpack_map_header-pack_map_header_internal :
      (resize : Bool) (up : Unpacker) (rest : List ℕ)
      → IsSized malloc
      → IsReady pk
      → n < 2 ^ 32
      → (pack_map_header_internal malloc pk n resize).0 ≡ pos 0
      → At up (added pk (pack_map_header_internal malloc pk n resize).1 ++ rest)
      → (length (added pk (pack_map_header_internal malloc pk n resize).1)
          ≡ as_pack_map_header_get_size n)
        × (as_unpack_map_header_element_count up
            ≡ some (ok n, advance up (as_pack_map_header_get_size n)))
  as_unpack_map_header-pack_map_header_internal resize up rest sized ready small done here =
      let exactly =
        added-Appended pk (map_header_bytes n) (pack_map_header_internal malloc pk n resize) grown
          done in
      (
        ap length exactly ∙ length-map_header_bytes n,
        read_map_header_bytes up rest n small (rw exactly at here),
      )
    where
      grown : Appended pk (map_header_bytes n) (pack_map_header_internal malloc pk n resize)
      grown = rw (map_header-bytes malloc pk n resize) (
          pack_append-Appended malloc pk _ resize sized ready
            (unfold map_header_bytes in omega (arith, header_bytes_small 0x80 0xde 0xdf n)))
