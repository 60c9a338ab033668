-- ===== src/CfQueue/Reduce.antt =====
-- The calls of cf_queue that go through its elements: `cf_queue_reduce`, `cf_queue_reduce_reverse`
-- and `cf_queue_delete`. A callback reads the element and its own state `udata`.
use mathlib.Core.List.{reverse, reverse-append}
use aerospike_common.Common.{
  ℕ, zero, suc, ◌+◌, ◌-◌, ◌%◌, ◌≡◌, refl, sym, ap, ◌∙◌, arith, ℤ, negsuc, eq_int,
}
use aerospike_common.Common.{List, ◌∷◌, [], Option, none, some, Bool-cases, inl, inr}
use aerospike_common.Common.{if◌then◌else◌, ◌==◌, not, get_elem?}
use aerospike_common.Ring.{window, window_last}
use aerospike_common.CfQueue.{CfQueue, slots, cf_q_sz, cf_q_elem, cf_queue_ok}
use aerospike_common.CfQueue.Delete.{cf_queue_delete_offset}

-- The callback's answers: stop, and delete or take this one.
abbrev pub stop : ℤ
stop = negsuc 0

abbrev pub take_it : ℤ
take_it = negsuc 1

plus_zero : (n : ℕ) → n ≡ n + 0
plus_zero n = omega arith

one_on : (i k : ℕ) → i + 1 + k ≡ i + suc k
one_on i k = omega arith

module _ {ℓ κ} {A : Type ℓ} {S : Type κ} (cb : A → S → ℤ × S) where
  -- One turn of a loop, at an offset; `next` is the rest of the loop.
  unfoldable pub visit : CfQueue A → S → ℕ → (S → S × CfQueue A) → Option A → S × CfQueue A
  unfolding cf_queue_delete_offset
  visit q udata i next none = (udata, q)
  visit q udata i next (some x) =
      let (rv, udata') = cb x udata in
      if eq_int rv stop
      then (udata', q)
      else if eq_int rv take_it
      then (udata', cf_queue_delete_offset q i)
      else next udata'

  -- The loop of `cf_queue_reduce` through the next `n` offsets from `i`.
  unfoldable pub reduce_from : CfQueue A → ℕ → ℕ → S → S × CfQueue A
  unfolding cf_q_elem visit
  reduce_from q i zero udata = (udata, q)
  reduce_from q i (suc n) udata =
      visit q udata i (reduce_from q (i + 1) n) (get_elem? (slots q) (cf_q_elem q i))

  unfoldable pub cf_queue_reduce : CfQueue A → S → ℤ × S × CfQueue A
  unfolding reduce_from cf_q_sz
  cf_queue_reduce q udata =
      if not (cf_q_sz q == 0)
      then (let (udata', q') = reduce_from q q.read_offset (q.write_offset - q.read_offset) udata in
          (cf_queue_ok, udata', q'))
      else (cf_queue_ok, udata, q)

  -- The loop of `cf_queue_reduce_reverse` through the `n` offsets from `first`, the last one first.
  unfoldable pub reduce_back : CfQueue A → ℕ → ℕ → S → S × CfQueue A
  unfolding cf_q_elem visit
  reduce_back q first zero udata = (udata, q)
  reduce_back q first (suc n) udata =
      visit q udata (first + n) (reduce_back q first n)
        (get_elem? (slots q) (cf_q_elem q (first + n)))

  unfoldable pub cf_queue_reduce_reverse : CfQueue A → S → ℤ × S × CfQueue A
  unfolding reduce_back cf_q_sz
  cf_queue_reduce_reverse q udata =
      if not (cf_q_sz q == 0)
      then (let (udata', q') = reduce_back q q.read_offset (q.write_offset - q.read_offset) udata in
          (cf_queue_ok, udata', q'))
      else (cf_queue_ok, udata, q)

  -- What a callback leaves after a list: its state, and the index of the element that it deletes.
  unfoldable pub scan : S → List (Option A) → S × Option ℕ
  scan udata [] = (udata, none)
  scan udata (none ∷ c) = (udata, none)
  scan udata (some x ∷ c) =
      let (rv, udata') = cb x udata in
      let (udata'', hit) = scan udata' c in
      if eq_int rv stop
      then (udata', none)
      else if eq_int rv take_it
      then (udata', some 0)
      else (udata'', elim hit [ none ↦ none | some k ↦ some (suc k) ])

  -- The queue after the element of an index is deleted, or none; `place` gives its offset.
  abbrev pub after : CfQueue A → (ℕ → ℕ) → S × Option ℕ → S × CfQueue A
  after q place r = (r.0, elim r.1 [ none ↦ q | some k ↦ cf_queue_delete_offset q (place k) ])

  after-suc :
      (q : CfQueue A) (place : ℕ → ℕ) (udata : S) (hit : Option ℕ)
      → after q (λ k. place (suc k)) (udata, hit)
        ≡ after q place (udata, elim hit [ none ↦ none | some k ↦ some (suc k) ])
  after-suc q place udata none = refl
  after-suc q place udata (some k) = refl

  visit-scan :
      (q : CfQueue A) (udata : S) (place : ℕ → ℕ) (next : S → S × CfQueue A) (o : Option A)
      (c : List (Option A))
      → ((u : S) → next u ≡ after q (λ k. place (suc k)) (scan u c))
      → visit q udata (place 0) next o ≡ after q place (scan udata (o ∷ c))
  unfolding visit scan
  visit-scan q udata place next none c follows = refl
  visit-scan q udata place next (some x) c follows =
      let (rv, udata') = cb x udata in
      elim (Bool-cases (eq_int rv stop)) [
        | inl stopped ↦ rw stopped refl
        | inr on ↦ elim (Bool-cases (eq_int rv take_it)) [
          | inl taken ↦ rw (on, taken) refl
          | inr passed ↦
              rw (on, passed)
                (follows udata' ∙ after-suc q place (scan udata' c).0 (scan udata' c).1)
        ]
      ]

  after-congr :
      (q : CfQueue A) (f g : ℕ → ℕ) (udata : S) (hit : Option ℕ)
      → ((k : ℕ) → f k ≡ g k)
      → after q f (udata, hit) ≡ after q g (udata, hit)
  after-congr q f g udata none e = refl
  after-congr q f g udata (some k) e = ap (λ j. (udata, cf_queue_delete_offset q j)) (e k)

  pub reduce_from_lem :
      (q : CfQueue A) (i n : ℕ) (udata : S)
      → reduce_from q i n udata
        ≡ after q (λ k. i + k) (scan udata (window (slots q) q.alloc_sz i n))
  unfolding reduce_from cf_q_elem
  reduce_from_lem q i zero udata = unfold scan in refl
  reduce_from_lem q i (suc n) udata =
      ap (λ j. visit q udata j (reduce_from q (i + 1) n) o) (plus_zero i)
      ∙ visit-scan q udata (λ k. i + k) (reduce_from q (i + 1) n) o rest
          (λ u.
            reduce_from_lem q (i + 1) n u
            ∙ after-congr q (λ k. i + 1 + k) (λ k. i + suc k) (scan u rest).0 (scan u rest).1
                (λ k. one_on i k))
    where
      o : Option A
      o = get_elem? (slots q) (i % q.alloc_sz)

      rest : List (Option A)
      rest = window (slots q) q.alloc_sz (i + 1) n

  pub reduce_back_lem :
      (q : CfQueue A) (first n : ℕ) (udata : S)
      → reduce_back q first n udata
        ≡ after q
            (λ k. first + (n - suc k))
            (scan udata (reverse (window (slots q) q.alloc_sz first n)))
  unfolding reduce_back cf_q_elem
  reduce_back_lem q first zero udata = unfold scan in refl
  reduce_back_lem q first (suc n) udata =
      ap (λ j. visit q udata j (reduce_back q first n) o) (ap (λ m. first + m) (less n))
      ∙ visit-scan q udata (λ k. first + (suc n - suc k)) (reduce_back q first n) o (reverse rest)
          (λ u.
            reduce_back_lem q first n u
            ∙ after-congr q (λ k. first + (n - suc k)) (λ k. first + (suc n - suc (suc k)))
                (scan u (reverse rest)).0 (scan u (reverse rest)).1
                (λ k. ap (λ m. first + m) (lesser n k)))
      ∙ ap (λ c. after q (λ k. first + (suc n - suc k)) (scan udata c)) (sym turned)
    where
      less : (n : ℕ) → n ≡ suc n - 1
      less n = omega arith

      lesser : (n k : ℕ) → n - suc k ≡ suc n - suc (suc k)
      lesser n k = omega arith

      o : Option A
      o = get_elem? (slots q) ((first + n) % q.alloc_sz)

      rest : List (Option A)
      rest = window (slots q) q.alloc_sz first n

      turned : reverse (window (slots q) q.alloc_sz first (suc n)) ≡ o ∷ reverse rest
      turned =
          ap reverse (window_last (slots q) q.alloc_sz first (suc n) (omega arith))
          ∙ rw (← less n) (reverse-append rest (o ∷ []))
