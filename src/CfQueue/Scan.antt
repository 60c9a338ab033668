-- ===== src/CfQueue/Scan.antt =====
-- What `cf_queue_reduce` and `cf_queue_reduce_reverse` do to the elements in order.
use mathlib.Core.List.{reverse, reverse-cons}
use aerospike_common.Common.{ℕ, suc, ◌+◌, ◌-◌, ◌<◌, ◌≡◌, refl, sym, ap, ◌∙◌, arith, ℤ, eq_int}
use aerospike_common.Common.{List, ◌∷◌, [], Option, none, some, Bool-cases, Option-cases, inl, inr}
use aerospike_common.Common.{if◌then◌else◌, ◌==◌, ==→eq, length, length-append}
use aerospike_common.Ring.{window}
use aerospike_common.Queue.Contents.{held}
use aerospike_common.CfQueue.{CfQueue, slots, cf_q_sz, cf_queue_ok}
use aerospike_common.CfQueue.Ring.{ring, IsSound, elements_of, held_length}
use aerospike_common.CfQueue.Push.{Holds, size_lem}
use aerospike_common.CfQueue.Delete.{remove_at}
use aerospike_common.CfQueue.Remove.{cf_queue_delete_offset_lem}
use aerospike_common.CfQueue.Reduce.{
  stop, take_it, scan, after, reduce_from_lem, reduce_back_lem, cf_queue_reduce,
  cf_queue_reduce_reverse,
}

length-reverse {ℓ} : {A : Type ℓ} (c : List A) → length (reverse c) ≡ length c
length-reverse [] = refl
length-reverse (x ∷ c) =
    ap length (reverse-cons x c)
    ∙ length-append (reverse c) (x ∷ [])
    ∙ omega (arith, length-reverse c)

module _ {ℓ κ} {A : Type ℓ} {S : Type κ} (cb : A → S → ℤ × S) where
  -- The callback on the elements of a list, in order: it stops, takes one out and stops, or goes on.
  unfoldable pub reduce_list : S → List (Option A) → S × List (Option A)
  reduce_list udata [] = (udata, [])
  reduce_list udata (none ∷ c) = (udata, none ∷ c)
  reduce_list udata (some x ∷ c) =
      let (rv, udata') = cb x udata in
      let (udata'', c') = reduce_list udata' c in
      if eq_int rv stop
      then (udata', some x ∷ c)
      else if eq_int rv take_it
      then (udata', c)
      else (udata'', some x ∷ c')

  abbrev left : List (Option A) → S × Option ℕ → S × List (Option A)
  left c r = (r.0, elim r.1 [ none ↦ c | some k ↦ remove_at k c ])

  left-cons :
      (o : Option A) (c : List (Option A)) (udata : S) (hit : Option ℕ)
      → left (o ∷ c) (udata, elim hit [ none ↦ none | some k ↦ some (suc k) ])
        ≡ ((left c (udata, hit)).0, o ∷ (left c (udata, hit)).1)
  left-cons o c udata none = refl
  left-cons o c udata (some k) = refl

  left-scan : (c : List (Option A)) (udata : S) → left c (scan cb udata c) ≡ reduce_list udata c
  unfolding scan reduce_list
  left-scan [] udata = refl
  left-scan (none ∷ c) udata = refl
  left-scan (some x ∷ c) udata =
      let (rv, udata') = cb x udata in
      elim (Bool-cases (eq_int rv stop)) [
        | inl stopped ↦ rw stopped refl
        | inr on ↦ elim (Bool-cases (eq_int rv take_it)) [
          | inl taken ↦ rw (on, taken) refl
          | inr passed ↦
              rw (on, passed)
                (left-cons (some x) c (scan cb udata' c).0 (scan cb udata' c).1
                  ∙ ap (λ r. (r.0, some x ∷ r.1)) (left-scan c udata'))
        ]
      ]

  scan-bound :
      (c : List (Option A)) (udata : S) (k : ℕ) → (scan cb udata c).1 ≡ some k → k < length c
  unfolding scan
  scan-bound [] udata k e = absurd (ground arith)
  scan-bound (none ∷ c) udata k e = absurd (ground arith)
  scan-bound (some x ∷ c) udata k e =
      let (rv, udata') = cb x udata in
      elim (Option-cases (scan cb udata' c).1) [
        | inl missed ↦ ground arith
        | inr (j, hit) ↦ ground (arith, scan-bound c udata' j hit)
      ]

  module _ (q : CfQueue A) (v : IsSound q) where
    after-Holds :
        (r : S × Option ℕ) (place : ℕ → ℕ)
        → ((k : ℕ) → r.1 ≡ some k → (place k < held (ring q)))
        → Holds
            (after cb q (λ k. q.read_offset + place k) r).1
            (elim r.1 [ none ↦ elements_of q | some k ↦ remove_at (place k) (elements_of q) ])
    after-Holds (u, none) place bound = (v, refl)
    after-Holds (u, some k) place bound = cf_queue_delete_offset_lem q (place k) v (bound k refl)

    -- `cf_queue_reduce` does to a sound queue what `reduce_list` does to its elements, keeps it sound,
    -- and leaves the callback's state as `reduce_list` does.
    pub cf_queue_reduce_lem :
        (udata : S)
        → let r = cf_queue_reduce cb q udata in
          let (udata', c) = reduce_list udata (elements_of q) in
          (r.0 ≡ cf_queue_ok) × (r.1 ≡ udata') × Holds r.2 c
    unfolding cf_queue_reduce
    cf_queue_reduce_lem udata = elim (Bool-cases (cf_q_sz q == 0)) [
      | inl empty ↦
          let none_held : held (ring q) ≡ 0 =
            held_length q ∙ sym (size_lem q v) ∙ ==→eq _ _ empty in
          unfold reduce_list in rw (empty, none_held) (refl, refl, (v, refl))
      | inr some_held ↦
          rw
            (
              some_held,
              reduce_from_lem cb q q.read_offset (held (ring q)) udata,
              ← left-scan (elements_of q) udata,
            )
            (
              refl,
              refl,
              after-Holds (scan cb udata (elements_of q)) (λ k. k)
                  (λ k hit. omega (arith, held_length q, scan-bound (elements_of q) udata k hit)),
            )
    ]

    -- `cf_queue_reduce_reverse` offers the elements from the last to the first; it deletes the one that
    -- the callback takes in that order, if it takes one, keeps the queue sound, and leaves the
    -- callback's state as it is after that.
    pub cf_queue_reduce_reverse_lem :
        (udata : S)
        → let r = cf_queue_reduce_reverse cb q udata in
          let (udata', hit) = scan cb udata (reverse (elements_of q)) in
          let n : ℕ = held (ring q) in
          (r.0 ≡ cf_queue_ok)
          × (r.1 ≡ udata')
          × Holds r.2
              (elim hit [ none ↦ elements_of q | some k ↦ remove_at (n - suc k) (elements_of q) ])
    unfolding cf_queue_reduce_reverse
    cf_queue_reduce_reverse_lem udata = elim (Bool-cases (cf_q_sz q == 0)) [
      | inl empty ↦
          let none_held : held (ring q) ≡ 0 =
            held_length q ∙ sym (size_lem q v) ∙ ==→eq _ _ empty in
          unfold scan in
          rw (empty, none_held)
            (refl, refl, (v, sym (ap (window (slots q) q.alloc_sz q.read_offset) none_held)))
      | inr some_held ↦
          rw (some_held, reduce_back_lem cb q q.read_offset (held (ring q)) udata)
            (
              refl,
              refl,
              after-Holds (scan cb udata (reverse (elements_of q))) (λ k. held (ring q) - suc k)
                  (λ k hit. omega (
                    arith,
                    held_length q,
                    length-reverse (elements_of q),
                    scan-bound (reverse (elements_of q)) udata k hit,
                  )),
            )
    ]
