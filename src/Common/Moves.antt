-- ===== src/Common/Moves.antt =====
-- `memmove` inside an array, element by element.
use Prim.Native.Nat.{ℕ, zero, suc, ◌+◌, ◌-◌, ◌≤◌, ◌<◌}
use mathlib.Core.Path.{◌≡◌, refl, sym, ap, ◌∙◌}
use mathlib.Core.Logic.{inl, inr}
use mathlib.Core.Bool.{◌&&◌}
use mathlib.Core.List.{List, [], ◌∷◌}
use native.Mathlib.Omega.{arith}
use aerospike_common.Common.Tests.{ltb, leb, if◌then◌else◌, Bool-cases, ltb→lt}
use aerospike_common.Common.Lists.{
  length, get_elem?, take, drop, write, length-take, length-drop, length-write, get_elem?-drop,
}

-- Where the element comes from that `memmove` leaves in a slot.
abbrev pub origin : ℕ → ℕ → ℕ → ℕ → ℕ
origin dst src n j = if leb dst j && ltb j (dst + n) then src + (j - dst) else j

module _ {ℓ} {A : Type ℓ} where
  -- `memmove(&d[dst], &d[src], n)`, in elements
  unfoldable pub memmove : List A → ℕ → ℕ → ℕ → List A
  memmove d dst src n = write d dst (take n (drop src d))

  get_elem?-take : (n j : ℕ) (xs : List A) → j < n → get_elem? (take n xs) j ≡ get_elem? xs j
  get_elem?-take zero j xs h = absurd (omega arith)
  get_elem?-take (suc n) j [] h = refl
  get_elem?-take (suc n) zero (x ∷ xs) h = refl
  get_elem?-take (suc n) (suc j) (x ∷ xs) h = get_elem?-take n j xs (omega arith)

  get_elem?-write_before :
      (xs : List A) (i : ℕ) (src : List A) (j : ℕ)
      → j < i
      → get_elem? (write xs i src) j ≡ get_elem? xs j
  get_elem?-write_before [] i src j h = refl
  get_elem?-write_before (x ∷ xs) zero src j h = absurd (omega arith)
  get_elem?-write_before (x ∷ xs) (suc i) src zero h = refl
  get_elem?-write_before (x ∷ xs) (suc i) src (suc j) h =
      get_elem?-write_before xs i src j (omega arith)

  get_elem?-write_after :
      (xs : List A) (i : ℕ) (src : List A) (j : ℕ)
      → i + length src ≤ j
      → get_elem? (write xs i src) j ≡ get_elem? xs j
  get_elem?-write_after [] i src j h = refl
  get_elem?-write_after (x ∷ xs) zero [] j h = refl
  get_elem?-write_after (x ∷ xs) zero (s ∷ src) zero h = absurd (omega arith)
  get_elem?-write_after (x ∷ xs) zero (s ∷ src) (suc j) h =
      get_elem?-write_after xs zero src j (omega arith)
  get_elem?-write_after (x ∷ xs) (suc i) src zero h = refl
  get_elem?-write_after (x ∷ xs) (suc i) src (suc j) h =
      get_elem?-write_after xs i src j (omega arith)

  get_elem?-write_inside :
      (xs : List A) (i : ℕ) (src : List A) (j : ℕ)
      → i ≤ j
      → j < i + length src
      → i + length src ≤ length xs
      → get_elem? (write xs i src) j ≡ get_elem? src (j - i)
  get_elem?-write_inside [] i src j le lt h = absurd (omega arith)
  get_elem?-write_inside (x ∷ xs) zero [] j le lt h = absurd (omega arith)
  get_elem?-write_inside (x ∷ xs) zero (s ∷ src) zero le lt h = refl
  get_elem?-write_inside (x ∷ xs) zero (s ∷ src) (suc j) le lt h =
      get_elem?-write_inside xs zero src j (omega arith) (omega arith) (omega arith)
      ∙ ap (get_elem? (s ∷ src)) (let e : suc (j - 0) ≡ suc j - 0 = omega arith in e)
  get_elem?-write_inside (x ∷ xs) (suc i) src zero le lt h = absurd (omega arith)
  get_elem?-write_inside (x ∷ xs) (suc i) src (suc j) le lt h =
      get_elem?-write_inside xs i src j (omega arith) (omega arith) (omega arith)
      ∙ ap (get_elem? src) (let e : j - i ≡ suc j - suc i = omega arith in e)

  pub length-memmove : (d : List A) (dst src n : ℕ) → length (memmove d dst src n) ≡ length d
  unfolding memmove
  length-memmove d dst src n = length-write d dst (take n (drop src d))

  pub get_elem?-memmove :
      (d : List A) (dst src n j : ℕ)
      → dst + n ≤ length d
      → src + n ≤ length d
      → get_elem? (memmove d dst src n) j ≡ get_elem? d (origin dst src n j)
  unfolding memmove
  get_elem?-memmove d dst src n j to from = elim (Bool-cases (ltb j dst)) [
    | inl before ↦
        get_elem?-write_before d dst _ j (ltb→lt _ _ before)
        ∙ ap (get_elem? d) (let e : j ≡ origin dst src n j = ground arith in e)
    | inr from_dst ↦ elim (Bool-cases (ltb j (dst + n))) [
      | inl inside ↦
          get_elem?-write_inside d dst (take n (drop src d)) j (ground arith) (ground (arith, size))
            (omega (arith, size))
          ∙ get_elem?-take n (j - dst) (drop src d) (ground arith)
          ∙ sym (get_elem?-drop src (j - dst) d)
          ∙ ap (get_elem? d) (let e : src + (j - dst) ≡ origin dst src n j = ground arith in e)
      | inr after ↦
          get_elem?-write_after d dst (take n (drop src d)) j (ground (arith, size))
          ∙ ap (get_elem? d) (let e : j ≡ origin dst src n j = ground arith in e)
    ]
  ]
    where
      size : length (take n (drop src d)) ≡ n
      size = omega (arith, length-take n (drop src d), length-drop src d)
