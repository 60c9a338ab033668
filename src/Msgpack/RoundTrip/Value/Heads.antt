-- ===== src/Msgpack/RoundTrip/Value/Heads.antt =====
-- The first byte of a packed value, which tells its type, is that of no ext.
use aerospike_common.Common.{
  ℕ, ◌-◌, ◌≤◌, ◌<◌, ◌^◌, ◌≡◌, refl, arith, List, ◌∷◌, ◌++◌, Bool, true, false, ◌⊎◌, ℤ, pos, negsuc,
  ltb, if◌then◌else◌, or_80, or_90, or_a0, or_e0, ap,
}
use aerospike_common.Msgpack.RoundTrip.Number.{int64_bytes, uint64_bytes}
use aerospike_common.Msgpack.RoundTrip.Blob.{string_header_bytes, bin_header_bytes}
use aerospike_common.Msgpack.RoundTrip.Header.{list_header_bytes, map_header_bytes}

-- A type that is not one of an ext.
abbrev pub NotExt : ℕ → Type 0
NotExt t = (t < 0xc7) ⊎ (((0xc9 < t) × (t < 0xd4)) ⊎ (0xd8 < t))

pub record Headed (bytes : List ℕ) : Type 0 where
  pub head : ℕ
  pub tail : List ℕ
  pub splits : bytes ≡ head ∷ tail
  pub byte : head < 2 ^ 8
  pub other : NotExt head

pub Headed-append : (a b : List ℕ) → Headed a → Headed (a ++ b)
Headed-append a b h = record {
  head = h.head;
  tail = h.tail ++ b;
  splits = ap (λ xs. xs ++ b) h.splits;
  byte = h.byte;
  other = h.other;
}

pub Headed-by : (t : ℕ) (q : List ℕ) → t < 2 ^ 8 → NotExt t → Headed (t ∷ q)
Headed-by t q byte other = record { head = t; tail = q; splits = refl; byte = byte; other = other }

pub Headed-if :
    (b : Bool) (xs ys : List ℕ)
    → (b ≡ true → Headed xs)
    → (b ≡ false → Headed ys)
    → Headed (if b then xs else ys)
Headed-if true xs ys h k = h refl
Headed-if false xs ys h k = k refl

pub uint64_bytes-Headed : (v : ℕ) → Headed (uint64_bytes v)
unfolding uint64_bytes
uint64_bytes-Headed v =
    Headed-if (ltb v (2 ^ 7)) _ _ (λ h. Headed-by _ _ (ground arith) (ground arith))
      (λ h.
        Headed-if (ltb v (2 ^ 8)) _ _ (λ h1. Headed-by 0xcc _ (omega arith) (ground arith))
          (λ h1.
            Headed-if (ltb v (2 ^ 16)) _ _ (λ h2. Headed-by 0xcd _ (omega arith) (ground arith))
              (λ h2.
                Headed-if (ltb v (2 ^ 32)) _ _ (λ h3. Headed-by 0xce _ (omega arith) (ground arith))
                  (λ h3. Headed-by 0xcf _ (omega arith) (ground arith)))))

-- The type of a negative number is one of the signed types.
pub record Negative (bytes : List ℕ) : Type 0 where
  pub headed : Headed bytes
  pub signed : 0xcf ≤ headed.head

Negative-if :
    (b : Bool) (xs ys : List ℕ)
    → (b ≡ true → Negative xs)
    → (b ≡ false → Negative ys)
    → Negative (if b then xs else ys)
Negative-if true xs ys h k = h refl
Negative-if false xs ys h k = k refl

Negative-by : (t : ℕ) (q : List ℕ) → t < 2 ^ 8 → NotExt t → 0xcf ≤ t → Negative (t ∷ q)
unfolding Headed-by
Negative-by t q byte other signed = record { headed = Headed-by t q byte other; signed = signed }

pub int64_bytes-Negative : (n : ℕ) → Negative (int64_bytes (negsuc n))
unfolding int64_bytes
int64_bytes-Negative n =
    Negative-if (ltb n (2 ^ 5)) _ _
      (λ h.
        Negative-by _ _ (ground (arith, or_e0 (31 - n))) (ground (arith, or_e0 (31 - n)))
          (ground (arith, or_e0 (31 - n))))
      (λ h.
        Negative-if (ltb n (2 ^ 7)) _ _
          (λ h1. Negative-by 0xd0 _ (omega arith) (ground arith) (omega arith))
          (λ h1.
            Negative-if (ltb n (2 ^ 15)) _ _
              (λ h2. Negative-by 0xd1 _ (omega arith) (ground arith) (omega arith))
              (λ h2.
                Negative-if (ltb n (2 ^ 31)) _ _
                  (λ h3. Negative-by 0xd2 _ (omega arith) (ground arith) (omega arith))
                  (λ h3. Negative-by 0xd3 _ (omega arith) (ground arith) (omega arith)))))

pub int64_bytes-Headed : (v : ℤ) → Headed (int64_bytes v)
int64_bytes-Headed (pos n) = unfold int64_bytes in uint64_bytes-Headed n
int64_bytes-Headed (negsuc n) = (int64_bytes-Negative n).headed

pub string_header_bytes-Headed : (n : ℕ) → Headed (string_header_bytes n)
unfolding string_header_bytes bin_header_bytes
string_header_bytes-Headed n =
    Headed-if (ltb n 32) _ _
      (λ h. Headed-by _ _ (ground (arith, or_a0 n)) (ground (arith, or_a0 n)))
      (λ h.
        Headed-if (ltb n (2 ^ 8)) _ _ (λ h1. Headed-by 0xd9 _ (omega arith) (ground arith))
          (λ h1.
            Headed-if (ltb n (2 ^ 16)) _ _ (λ h2. Headed-by 0xda _ (omega arith) (ground arith))
              (λ h2. Headed-by 0xdb _ (omega arith) (ground arith))))

pub list_header_bytes-Headed : (n : ℕ) → Headed (list_header_bytes n)
unfolding list_header_bytes
list_header_bytes-Headed n =
    Headed-if (ltb n 16) _ _
      (λ h. Headed-by _ _ (ground (arith, or_90 n)) (ground (arith, or_90 n)))
      (λ h.
        Headed-if (ltb n (2 ^ 16)) _ _ (λ h1. Headed-by 0xdc _ (omega arith) (ground arith))
          (λ h1. Headed-by 0xdd _ (omega arith) (ground arith)))

pub map_header_bytes-Headed : (n : ℕ) → Headed (map_header_bytes n)
unfolding map_header_bytes
map_header_bytes-Headed n =
    Headed-if (ltb n 16) _ _
      (λ h. Headed-by _ _ (ground (arith, or_80 n)) (ground (arith, or_80 n)))
      (λ h.
        Headed-if (ltb n (2 ^ 16)) _ _ (λ h1. Headed-by 0xde _ (omega arith) (ground arith))
          (λ h1. Headed-by 0xdf _ (omega arith) (ground arith)))
