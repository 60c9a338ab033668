-- ===== src/Msgpack/Unpacker/Reads.antt =====
-- Reads at a place where the bytes to come are known.
use aerospike_common.Common.{
  ℕ, zero, suc, ◌+◌, ◌*◌, ◌^◌, ◌<◌, ◌≡◌, ◌∙◌, ap, List, [], ◌∷◌, some, arith,
}
use aerospike_common.Common.{◌++◌, length-append, length, drop, none, get_elem?, get_elem?-drop}
use native.Mathlib.Nat.{add-zero}
use aerospike_common.Msgpack.Unpacker.{
  Unpacker, M, ◌>>=◌, next_byte, extract_uint16, extract_uint32, extract_uint64,
}

-- The bytes from the offset to the end are `bytes`, and they are all there is.
abbrev pub At : Unpacker → List ℕ → Type 0
At pk bytes =
    (drop pk.offset pk.buffer ≡ bytes)
    × (pk.offset + length bytes ≡ pk.length)
    × (pk.length < 2 ^ 32)

abbrev pub advance : Unpacker → ℕ → Unpacker
advance pk n = record pk { offset = pk.offset + n }

-- A read that gives `r`, and what is done with it.
pub bind-some :
    {R S : Type 0} (read : M R) (continue : R → M S) (pk pk' : Unpacker) (r : R)
    → read pk ≡ some (r, pk')
    → (read >>= continue) pk ≡ continue r pk'
bind-some read continue pk pk' r h =
    ap (λ o. elim o [ some (a, up) ↦ continue a up | none ↦ none ]) h

suc_add_one : (n : ℕ) → suc n + 1 ≡ suc (n + 1)
suc_add_one n = omega arith

add_suc_length : (n k : ℕ) → n + suc k ≡ n + 1 + k
add_suc_length n k = omega arith

drop-add_one : (n : ℕ) (xs : List ℕ) {b : ℕ} {r : List ℕ} → drop n xs ≡ b ∷ r → drop (n + 1) xs ≡ r
drop-add_one zero [] h = ground arith
drop-add_one zero (x ∷ xs) h = ground arith
drop-add_one (suc n) [] h = ground arith
drop-add_one (suc n) (x ∷ xs) h = rw (suc_add_one n) (drop-add_one n xs h)

pub At-advance : (pk : Unpacker) {b : ℕ} {r : List ℕ} → At pk (b ∷ r) → At (advance pk 1) r
At-advance pk h = (drop-add_one pk.offset pk.buffer h.0, omega arith, omega arith)

-- The byte `k` places on.
peek-At :
    (pk : Unpacker) (bytes : List ℕ) (k : ℕ)
    → At pk bytes
    → get_elem? pk.buffer (pk.offset + k) ≡ get_elem? bytes k
peek-At pk bytes k h = get_elem?-drop pk.offset k pk.buffer ∙ ap (λ xs. get_elem? xs k) h.0

module _ (pk : Unpacker) {r : List ℕ} where
  pub next_byte-At : {b : ℕ} → At pk (b ∷ r) → next_byte pk ≡ some (b, advance pk 1)
  next_byte-At {b} h = ground (arith, peek-At pk (b ∷ r) 0 h)

  pub extract_uint16-At :
      {a b : ℕ} → At pk (a ∷ b ∷ r) → extract_uint16 pk ≡ some (a * 2 ^ 8 + b, advance pk 2)
  unfolding extract_uint16
  extract_uint16-At {a} {b} h =
      let bytes : List ℕ = a ∷ b ∷ r in ground (arith, peek-At pk bytes 0 h, peek-At pk bytes 1 h)

  pub extract_uint32-At :
      {a b c d : ℕ}
      → At pk (a ∷ b ∷ c ∷ d ∷ r)
      → extract_uint32 pk ≡ some (((a * 2 ^ 8 + b) * 2 ^ 8 + c) * 2 ^ 8 + d, advance pk 4)
  unfolding extract_uint32
  extract_uint32-At {a} {b} {c} {d} h =
      let bytes : List ℕ = a ∷ b ∷ c ∷ d ∷ r in
      ground (
        arith,
        peek-At pk bytes 0 h,
        peek-At pk bytes 1 h,
        peek-At pk bytes 2 h,
        peek-At pk bytes 3 h,
      )

  pub extract_uint64-At :
      {a b c d e f g i : ℕ}
      → At pk (a ∷ b ∷ c ∷ d ∷ e ∷ f ∷ g ∷ i ∷ r)
      → extract_uint64 pk
        ≡ some (
          (((a * 2 ^ 8 + b) * 2 ^ 8 + c) * 2 ^ 8 + d) * 2 ^ 32
              + (((e * 2 ^ 8 + f) * 2 ^ 8 + g) * 2 ^ 8 + i),
          advance pk 8,
        )
  unfolding extract_uint64
  extract_uint64-At {a} {b} {c} {d} {e} {f} {g} {i} h =
      let bytes : List ℕ = a ∷ b ∷ c ∷ d ∷ e ∷ f ∷ g ∷ i ∷ r in
      ground (
        arith,
        peek-At pk bytes 0 h,
        peek-At pk bytes 1 h,
        peek-At pk bytes 2 h,
        peek-At pk bytes 3 h,
        peek-At pk bytes 4 h,
        peek-At pk bytes 5 h,
        peek-At pk bytes 6 h,
        peek-At pk bytes 7 h,
      )

drop-drop_append : (n : ℕ) (xs a b : List ℕ) → drop n xs ≡ a ++ b → drop (n + length a) xs ≡ b
drop-drop_append n xs [] b h = rw (add-zero) h
drop-drop_append n xs (x ∷ a) b h =
    rw (add_suc_length n (length a)) (drop-drop_append (n + 1) xs a b (drop-add_one n xs h))

-- Past a known beginning.
pub At-advance_append :
    (pk : Unpacker) (a : List ℕ) {b : List ℕ} → At pk (a ++ b) → At (advance pk (length a)) b
At-advance_append pk a {b} h =
    (drop-drop_append pk.offset pk.buffer a b h.0, omega (arith, length-append a b), omega arith)
