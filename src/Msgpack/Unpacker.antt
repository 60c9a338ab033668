-- ===== src/Msgpack/Unpacker.antt =====
-- The unpacker of as_msgpack.h and its reads, with a fault for a read outside the buffer.
pub mod Reads
use aerospike_common.Common.{ℕ, ◌+◌, ◌*◌, ◌^◌, ltb, if◌then◌else◌, add32, sub32}
use aerospike_common.Common.{List, get_elem?, Option, none, some, ℤ}

-- `as_unpacker`. The buffer holds the bytes that may be read; `length` is what the caller says.
pub record Unpacker : Type 0 where
  pub buffer : List ℕ
  pub offset : ℕ
  pub length : ℕ

-- `none` is a read outside the buffer, which C leaves undefined.
abbrev pub M : Type 0 → Type 0
M A = Unpacker → Option (A × Unpacker)

abbrev pub pure : {R : Type 0} → R → M R
pure r up = some (r, up)

infixl 5 ◌>>◌ ◌>>=◌
abbrev pub ◌>>=◌ : {R S : Type 0} → M R → (R → M S) → M S
◌>>=◌ read continue up = elim (read up) [ some (r, up') ↦ continue r up' | none ↦ none ]

abbrev pub ◌>>◌ : {S : Type 0} → M (Unit {0}) → M S → M S
move >> then_read = move >>= λ done. then_read

-- The return code of an unpack function with its output: `ok a` is 0 and `*out = a`, or a count;
-- `err rc` is a negative code.
pub data Result (A : Type 0) : Type 0 where
  ok : A → Result A
  err : ℤ → Result A

-- `pk->buffer[pk->offset + k]`
abbrev pub peek : ℕ → M ℕ
peek k pk = elim (get_elem? pk.buffer (pk.offset + k)) [ none ↦ none | some b ↦ some (b, pk) ]

-- `pk->offset += n`, on a `uint32_t`
abbrev pub skip : ℕ → M (Unit {0})
skip n pk = some (tt, record pk { offset = add32 pk.offset n })

-- `pk->buffer[pk->offset++]`
abbrev pub next_byte : M ℕ
next_byte = do b ← peek 0; skip 1; pure b

-- `pk->length - pk->offset`
abbrev pub left : Unpacker → ℕ
left pk = sub32 pk.length pk.offset

-- `if (size < n) { return code; }`, with the size that is left
abbrev pub needs : {A : Type 0} → ℕ → ℤ → M (Result A) → M (Result A)
needs n code m pk = if ltb (left pk) n then some (err code, pk) else m pk

unfoldable pub extract_uint16 : M ℕ
extract_uint16 = do a ← peek 0; b ← peek 1; skip 2; pure (a * 2 ^ 8 + b)

unfoldable pub extract_uint32 : M ℕ
extract_uint32 = do
  a ← peek 0
  b ← peek 1
  c ← peek 2
  d ← peek 3
  skip 4
  pure (((a * 2 ^ 8 + b) * 2 ^ 8 + c) * 2 ^ 8 + d)

unfoldable pub extract_uint64 : M ℕ
extract_uint64 = do
  a ← peek 0
  b ← peek 1
  c ← peek 2
  d ← peek 3
  e ← peek 4
  f ← peek 5
  g ← peek 6
  h ← peek 7
  skip 8
  pure (
      (((a * 2 ^ 8 + b) * 2 ^ 8 + c) * 2 ^ 8 + d) * 2 ^ 32
      + (((e * 2 ^ 8 + f) * 2 ^ 8 + g) * 2 ^ 8 + h))
