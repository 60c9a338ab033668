-- ===== src/Ring.antt =====
-- The items of a circular array, shared by the queues: from an index that grows without bound, each
-- slot taken modulo the capacity.
use native.Mathlib.Nat.{add-zero, mod-add-mod, mod-eq_of_lt, mod_self}
use native.Mathlib.Numerals.{add-one}
use mathlib.Core.List.{map, map-append}
use aerospike_common.Common.{
  ℕ, zero, suc, ◌+◌, ◌-◌, ◌%◌, ◌≤◌, ◌<◌, ◌≡◌, ◌≢◌, refl, sym, ap, ap₂, ◌∙◌,
}
use aerospike_common.Common.{
  List, [], ◌∷◌, ◌++◌, Option, some, arith, ltb, if◌then◌else◌, Bool-cases, ltb→lt, inl, inr,
}
use aerospike_common.Common.{
  length, get_elem?, get_elem?-set_ne, get_elem?-set_self, set, take, drop, take_length,
  length-drop, take_append, drop-append,
}

-- Indices less than a capacity apart have different slots.
pub mod-ne : (capacity a b : ℕ) → a < b → b < a + capacity → a % capacity ≢ b % capacity
mod-ne capacity a b lt near = grind arith

start : (n : ℕ) → 0 + n ≡ n
start n = omega arith

further : (m n : ℕ) → suc m + n ≡ suc (m + n)
further m n = omega arith

shift : (s m : ℕ) → s + suc m ≡ s + 1 + m
shift s m = omega arith

next : (capacity s t : ℕ) → s % capacity ≡ t % capacity → (s + 1) % capacity ≡ (t + 1) % capacity
next capacity s t e =
    sym (mod-add-mod s capacity 1) ∙ ap (λ k. (k + 1) % capacity) e ∙ mod-add-mod t capacity 1

plus_zero : (n : ℕ) → n ≡ n + 0
plus_zero n = omega arith

one_less : (n : ℕ) → suc n - 1 ≡ n
one_less n = omega arith

module _ {ℓ} {A : Type ℓ} where
  take-drop :
      (d : List A) (s n : ℕ)
      → s < length d
      → map some (take (suc n) (drop s d)) ≡ get_elem? d s ∷ map some (take n (drop (s + 1) d))
  take-drop [] s n h = absurd (omega arith)
  take-drop (x ∷ d) zero n h = refl
  take-drop (x ∷ d) (suc s) n h = rw (further s 1) (take-drop d s n (omega arith))

  abbrev pub window : List A → ℕ → ℕ → ℕ → List (Option A)
  window d capacity s zero = []
  window d capacity s (suc n) = get_elem? d (s % capacity) ∷ window d capacity (s + 1) n

  pub length-window : (d : List A) (capacity s n : ℕ) → length (window d capacity s n) ≡ n
  length-window d capacity s zero = refl
  length-window d capacity s (suc n) = ap suc (length-window d capacity (s + 1) n)

  pub window-add :
      (d : List A) (capacity s m n : ℕ)
      → window d capacity s (m + n) ≡ window d capacity s m ++ window d capacity (s + m) n
  window-add d capacity s zero n = rw (start n, add-zero)
  window-add d capacity s (suc m) n =
      rw (further m n, shift s m)
        (ap (◌∷◌ (get_elem? d (s % capacity))) (window-add d capacity (s + 1) m n))

  -- A slot outside the window can be written.
  pub window-set_ne :
      (d : List A) (capacity s n j : ℕ) (x : A)
      → ((i : ℕ) → i < n → (s + i) % capacity ≢ j)
      → window (set d j x) capacity s n ≡ window d capacity s n
  window-set_ne d capacity s zero j x h = refl
  window-set_ne d capacity s (suc n) j x h =
      ap₂ ◌∷◌ (get_elem?-set_ne d j (s % capacity) x (λ e. h 0 (omega arith) (rw add-zero (sym e))))
        (window-set_ne d capacity (s + 1) n j x
          (λ i lt. rw (← shift s i) (h (suc i) (omega arith))))

  pub window-congr :
      (d : List A) (capacity s t n : ℕ)
      → s % capacity ≡ t % capacity
      → window d capacity s n ≡ window d capacity t n
  window-congr d capacity s t zero e = refl
  window-congr d capacity s t (suc n) e =
      ap₂ ◌∷◌ (ap (get_elem? d) e) (window-congr d capacity (s + 1) (t + 1) n (next capacity s t e))

  -- Writing behind the last slot extends the window.
  pub window-set_end :
      (d : List A) (capacity s n : ℕ) (x : A)
      → length d ≡ capacity
      → n < capacity
      → window (set d ((s + n) % capacity) x) capacity s (n + 1)
        ≡ window d capacity s n ++ (some x ∷ [])
  window-set_end d capacity s n x full room =
      window-add (set d ((s + n) % capacity) x) capacity s n 1
      ∙ ap₂ ◌++◌
          (window-set_ne d capacity s n ((s + n) % capacity) x
            (λ i lt. mod-ne capacity (s + i) (s + n) (omega arith) (omega arith)))
          (ap (λ o. o ∷ []) (get_elem?-set_self d ((s + n) % capacity) x (omega arith)))

  -- Writing before the first slot, too.
  pub window-set_front :
      (d : List A) (capacity s n : ℕ) (x : A)
      → length d ≡ capacity
      → n < capacity
      → window (set d (s % capacity) x) capacity s (n + 1) ≡ some x ∷ window d capacity (s + 1) n
  window-set_front d capacity s n x full room = rw add-one (
      ap₂ ◌∷◌ (get_elem?-set_self d (s % capacity) x (omega arith)) (
        window-set_ne d capacity (s + 1) n (s % capacity) x
          (λ i lt e. mod-ne capacity s (s + 1 + i) (omega arith) (omega arith) (sym e))))

  -- Slots that do not wrap lie in a row.
  pub window_straight :
      (d : List A) (capacity s n : ℕ)
      → s + n ≤ length d
      → s + n ≤ capacity
      → window d capacity s n ≡ map some (take n (drop s d))
  window_straight d capacity s zero fits below = refl
  window_straight d capacity s (suc n) fits below =
      rw (mod-eq_of_lt {n = s} {m = capacity} (omega arith), take-drop d s n (omega arith))
        (ap (◌∷◌ (get_elem? d s))
          (window_straight d capacity (s + 1) n (omega arith) (omega arith)))

  pub take_all : (n : ℕ) (xs : List A) → length xs ≡ n → take n xs ≡ xs
  take_all n xs e = rw (← e) (take_length xs)

  turn_from :
      (d : List A) (capacity h m : ℕ)
      → length d ≡ capacity
      → h + m ≡ capacity
      → h < capacity
      → window d capacity h (m + h) ≡ map some (drop h d ++ take h d)
  turn_from d capacity h m full total inside =
      window-add d capacity h m h
      ∙ ap₂ ◌++◌
          (window_straight d capacity h m (omega arith) (omega arith)
            ∙ ap (map some) (take_all m (drop h d) (omega (arith, length-drop h d))))
          (window-congr d capacity (h + m) 0 h (
              rw total
                (mod_self capacity ∙ sym (mod-eq_of_lt {n = 0} {m = capacity} (omega arith))))
            ∙ window_straight d capacity 0 h (omega arith) (omega arith))
      ∙ sym (map-append some (drop h d) (take h d))

  -- A whole turn round a full array is the part from the slot of `s` to the end, then the part before.
  pub window_turn :
      (d : List A) (capacity s : ℕ)
      → length d ≡ capacity
      → 0 < capacity
      → let h = s % capacity in window d capacity s capacity ≡ map some (drop h d ++ take h d)
  window_turn d capacity s full some_slot =
      window-congr d capacity s h capacity (sym (mod-eq_of_lt {n = h} {m = capacity} (omega arith)))
      ∙ ap (window d capacity h) (whole)
      ∙ turn_from d capacity h (capacity - h) full (omega arith) (omega arith)
    where
      h : ℕ
      h = s % capacity

      whole : capacity ≡ capacity - h + h
      whole = omega arith

  pub window_of_pos :
      (d : List A) (capacity s n : ℕ)
      → 0 < n
      → window d capacity s n ≡ get_elem? d (s % capacity) ∷ window d capacity (s + 1) (n - 1)
  window_of_pos d capacity s zero h = absurd (omega arith)
  window_of_pos d capacity s (suc n) h =
      ap (λ k. get_elem? d (s % capacity) ∷ window d capacity (s + 1) k) (omega arith)

  pub window_last :
      (d : List A) (capacity s n : ℕ)
      → 0 < n
      → window d capacity s n
        ≡ window d capacity s (n - 1) ++ (get_elem? d ((s + (n - 1)) % capacity) ∷ [])
  window_last d capacity s zero h = absurd (omega arith)
  window_last d capacity s (suc n) h = rw (one_less n) (
      ap (window d capacity s) (let e : suc n ≡ n + 1 = omega arith in e)
      ∙ window-add d capacity s n 1)

-- The slot of an index at most a capacity behind `s`.
unfoldable pub wrap : ℕ → ℕ → ℕ
wrap capacity k = if ltb k capacity then k else k - capacity

turned : (n capacity : ℕ) → capacity ≤ n → n < capacity + capacity → n % capacity ≡ n - capacity
turned n capacity le lt = grind arith

pub slot-wrap :
    (capacity s k : ℕ)
    → 0 < capacity
    → k ≤ capacity
    → (s + k) % capacity ≡ wrap capacity (s % capacity + k)
unfolding wrap
slot-wrap capacity s k some_slot near =
    sym (mod-add-mod s capacity k) ∙ elim (Bool-cases (ltb (s % capacity + k) capacity)) [
      | inl below ↦ rw below (mod-eq_of_lt (ltb→lt _ _ below))
      | inr over ↦ rw over (turned (s % capacity + k) capacity (ground arith) (omega arith))
    ]

-- So do indices below a capacity behind `s`, if they are different.
pub mod-ne_of_ne :
    (capacity s i k : ℕ)
    → i < capacity
    → k < capacity
    → k ≢ i
    → (s + i) % capacity ≢ (s + k) % capacity
mod-ne_of_ne capacity s i k i_near k_near ne = elim (Bool-cases (ltb i k)) [
  | inl lt ↦ mod-ne capacity (s + i) (s + k) (ground arith) (omega arith)
  | inr ge ↦ λ e. mod-ne capacity (s + k) (s + i) (ground arith) (omega arith) (sym e)
]

module _ {ℓ} {A : Type ℓ} where
  -- Windows agree if their slots do.
  pub window_pointwise :
      (d e : List A) (capacity s t n : ℕ)
      → ((i : ℕ) → i < n → get_elem? d ((s + i) % capacity) ≡ get_elem? e ((t + i) % capacity))
      → window d capacity s n ≡ window e capacity t n
  window_pointwise d e capacity s t zero h = refl
  window_pointwise d e capacity s t (suc n) h =
      ap₂ ◌∷◌
        (ap (λ k. get_elem? d (k % capacity)) (plus_zero s)
          ∙ h 0 (omega arith)
          ∙ sym (ap (λ k. get_elem? e (k % capacity)) (plus_zero t)))
        (window_pointwise d e capacity (s + 1) (t + 1) n
          (λ i lt. rw (← shift s i, ← shift t i) (h (suc i) (omega arith))))

  pub window_split :
      (d : List A) (capacity s n k : ℕ)
      → k ≤ n
      → (window d capacity s k ≡ take k (window d capacity s n))
        × (window d capacity (s + k) (n - k) ≡ drop k (window d capacity s n))
  window_split d capacity s n k le =
      let first : List (Option A) = window d capacity s k in
      let rest : List (Option A) = window d capacity (s + k) (n - k) in
      let whole : window d capacity s n ≡ first ++ rest =
        ap (window d capacity s) (let e : n ≡ k + (n - k) = omega arith in e)
        ∙ window-add d capacity s k (n - k) in
      let size : length first ≡ k = length-window d capacity s k in
      (
        sym (
            ap (take k) whole
            ∙ ap (λ m. take m (first ++ rest)) (sym size)
            ∙ take_append first rest),
        sym (
            ap (drop k) whole
            ∙ ap (λ m. drop m (first ++ rest)) (sym size)
            ∙ drop-append first rest),
      )

  pub take_le : (n : ℕ) (xs : List A) → length xs ≤ n → take n xs ≡ xs
  take_le zero [] le = refl
  take_le zero (x ∷ xs) le = absurd (omega arith)
  take_le (suc n) [] le = refl
  take_le (suc n) (x ∷ xs) le = ap (◌∷◌ x) (take_le n xs (omega arith))

  pub drop_le : (n : ℕ) (xs : List A) → length xs ≤ n → drop n xs ≡ []
  drop_le zero [] le = refl
  drop_le zero (x ∷ xs) le = absurd (omega arith)
  drop_le (suc n) [] le = refl
  drop_le (suc n) (x ∷ xs) le = drop_le n xs (omega arith)

  pub get_elem?-window :
      (d : List A) (capacity s n i : ℕ)
      → i < n
      → get_elem? (window d capacity s n) i ≡ some (get_elem? d ((s + i) % capacity))
  get_elem?-window d capacity s zero i lt = absurd (omega arith)
  get_elem?-window d capacity s (suc n) zero lt =
      ap (λ k. some (get_elem? d (k % capacity))) (plus_zero s)
  get_elem?-window d capacity s (suc n) (suc i) lt =
      get_elem?-window d capacity (s + 1) n i (omega arith)
      ∙ ap (λ k. some (get_elem? d (k % capacity))) (sym (shift s i))
