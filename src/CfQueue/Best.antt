-- ===== src/CfQueue/Best.antt =====
-- What `cf_queue_reduce_pop` takes: the element that the callback likes best.
use mathlib.Core.Path.{subst}
use aerospike_common.Common.{ℕ, zero, suc, ◌+◌, ◌%◌, ◌<◌, ◌≡◌, refl, sym, ap, ◌∙◌, arith, ℤ, eq_int}
use aerospike_common.Common.{
  List, ◌∷◌, [], Option, none, some, Bool, false, ◌&&◌, Bool-cases, inl, inr,
}
use aerospike_common.Common.{if◌then◌else◌, get_elem?, length}
use aerospike_common.Ring.{window, get_elem?-window}
use aerospike_common.Queue.Contents.{held}
use aerospike_common.CfQueue.{CfQueue, slots, cf_q_elem, cf_q_empty, cf_queue_ok, cf_queue_empty}
use aerospike_common.CfQueue.Ring.{ring, IsSound, elements_of, held_length}
use aerospike_common.CfQueue.Push.{Holds}
use aerospike_common.CfQueue.Delete.{cf_queue_delete_offset, remove_at}
use aerospike_common.CfQueue.Remove.{cf_queue_delete_offset_lem}
use aerospike_common.CfQueue.Reduce.{stop, take_it}
use aerospike_common.CfQueue.Wakes.{
  KeepSound, Passed, WaitEnd, filled, elapsed, asleep, cf_queue_wait-ends,
}
use aerospike_common.CfQueue.Pop.{no_elements, in_order}
use aerospike_common.CfQueue.Wait.{
  Waited, ready, gave_up, waiting, Popped, returned, blocked, best_from, best_visit,
  reduce_pop_element, cf_queue_reduce_pop, cf_queue_forever, cf_queue_nowait,
}

plus_zero : (n : ℕ) → n ≡ n + 0
plus_zero n = omega arith

along : (first i : ℕ) → first + i + 1 ≡ first + suc i
along first i = omega arith

module _ {ℓ κ} {A : Type ℓ} {S : Type κ} (cb : A → S → ℤ × S) where
  -- The best element of a list, which starts at index `i`, with the best index so far: the callback
  -- stops at one, prefers one and goes on, or goes on.
  pub best_of : List (Option A) → ℕ → S → ℕ → S × ℕ
  best_of [] i udata best = (udata, best)
  best_of (none ∷ c) i udata best = (udata, best)
  best_of (some x ∷ c) i udata best =
      let (rv, udata') = cb x udata in
      let rest = best_of c (suc i) udata' in
      if eq_int rv stop then (udata', i) else if eq_int rv take_it then rest i else rest best

  best_of-bound :
      (c : List (Option A)) (i : ℕ) (udata : S) (best : ℕ)
      → best < i + length c
      → (best_of c i udata best).1 < i + length c
  unfolding best_of
  best_of-bound [] i udata best lt = lt
  best_of-bound (none ∷ c) i udata best lt = lt
  best_of-bound (some x ∷ c) i udata best lt =
      let (rv, udata') = cb x udata in
      ground (
        arith,
        best_of-bound c (suc i) udata' i (omega arith),
        best_of-bound c (suc i) udata' best (omega arith),
      )

  abbrev from : ℕ → S × ℕ → S × ℕ
  from first r = (r.0, first + r.1)

  best_visit-best_of :
      (first i : ℕ) (udata : S) (best : ℕ) (next : S → ℕ → S × ℕ) (o : Option A)
      (c : List (Option A))
      → ((u : S) (b : ℕ) → next u (first + b) ≡ from first (best_of c (suc i) u b))
      → best_visit cb udata (first + i) (first + best) next o
        ≡ from first (best_of (o ∷ c) i udata best)
  unfolding best_visit best_of
  best_visit-best_of first i udata best next none c follows = refl
  best_visit-best_of first i udata best next (some x) c follows =
      let (rv, udata') = cb x udata in
      elim (Bool-cases (eq_int rv stop)) [
        | inl stopped ↦ rw stopped refl
        | inr on ↦ elim (Bool-cases (eq_int rv take_it)) [
          | inl taken ↦ rw (on, taken) (follows udata' i)
          | inr passed ↦ rw (on, passed) (follows udata' best)
        ]
      ]

  best_from_lem :
      (q : CfQueue A) (n first i : ℕ) (udata : S) (best : ℕ)
      → best_from cb q (first + i) n udata (first + best)
        ≡ from first (best_of (window (slots q) q.alloc_sz (first + i) n) i udata best)
  unfolding best_from cf_q_elem
  best_from_lem q zero first i udata best = unfold best_of in refl
  best_from_lem q (suc n) first i udata best =
      best_visit-best_of first i udata best (best_from cb q (first + i + 1) n) _
        (window (slots q) q.alloc_sz (first + i + 1) n)
        (λ u b.
          ap (λ j. best_from cb q j n u (first + b)) (along first i)
          ∙ best_from_lem q n first (suc i) u b
          ∙ ap (λ j. from first (best_of (window (slots q) q.alloc_sz j n) (suc i) u b))
              (sym (along first i)))

  -- How `cf_queue_reduce_pop` may end: with the element that `best_of` finds in a state of the queue
  -- that the wait passes, taken out of it, or as `cf_queue_pop` does without one.
  pub data BestEnd (threadsafe : Bool) (ms_wait : ℤ) (wakes : List (CfQueue A → CfQueue A))
      (start : CfQueue A) (udata : S) : S × Popped A → Type (ℓ ⊔ κ) where
    best_taken :
        {q q' : CfQueue A} {o : Option A} {k : ℕ}
        → Passed wakes start q
        → k ≡ (best_of (elements_of q) 0 udata 0).1
        → get_elem? (elements_of q) k ≡ some o
        → Holds q' (remove_at k (elements_of q))
        → BestEnd threadsafe ms_wait wakes start udata
            ((best_of (elements_of q) 0 udata 0).0, returned cf_queue_ok o q')
    none_there :
        {q : CfQueue A}
        → Passed wakes start q
        → Holds q []
        → (threadsafe && eq_int cf_queue_forever ms_wait) ≡ false
        → BestEnd threadsafe ms_wait wakes start udata (udata, returned cf_queue_empty none q)
    sleeping :
        {q : CfQueue A}
        → Passed wakes start q
        → Holds q []
        → eq_int cf_queue_nowait ms_wait ≡ false
        → BestEnd threadsafe ms_wait wakes start udata (udata, blocked q)

  -- The best element taken out.
  abbrev taken : CfQueue A → S × ℕ → S × Popped A
  taken q r = (
    r.0,
    returned cf_queue_ok (get_elem? (slots q) (r.1 % q.alloc_sz)) (cf_queue_delete_offset q r.1),
  )

  whole :
      (q : CfQueue A) (n : ℕ) (udata : S)
      → best_from cb q q.read_offset n udata q.read_offset
        ≡ from q.read_offset (best_of (window (slots q) q.alloc_sz q.read_offset n) 0 udata 0)
  whole q n udata =
      ap (λ j. best_from cb q j n udata j) (plus_zero q.read_offset)
      ∙ best_from_lem q n q.read_offset 0 udata 0
      ∙ ap (λ j. from q.read_offset (best_of (window (slots q) q.alloc_sz j n) 0 udata 0))
          (sym (plus_zero q.read_offset))

  -- The best element of a queue that has one.
  pub reduce_pop_element_lem :
      (q : CfQueue A) (udata : S)
      → IsSound q
      → cf_q_empty q ≡ false
      → let (udata', k) = best_of (elements_of q) 0 udata 0 in
        (o : Option A) × (q' : CfQueue A) × (reduce_pop_element cb q udata
          ≡ (udata', returned cf_queue_ok o q'))
        × (get_elem? (elements_of q) k ≡ some o)
        × Holds q' (remove_at k (elements_of q))
  unfolding reduce_pop_element cf_q_elem
  reduce_pop_element_lem q udata v full =
      let n : ℕ = held (ring q) in
      let some_held : q.read_offset < q.write_offset = in_order q v full in
      let (udata', k) = best_of (elements_of q) 0 udata 0 in
      let inside : k < held (ring q) = omega (
        arith,
        held_length q,
        best_of-bound (elements_of q) 0 udata 0 (omega (arith, held_length q)),
      ) in
      (
        get_elem? (slots q) ((q.read_offset + k) % q.alloc_sz),
        cf_queue_delete_offset q (q.read_offset + k),
        ap (taken q) (whole q n udata),
        get_elem?-window (slots q) q.alloc_sz q.read_offset n k inside,
        cf_queue_delete_offset_lem q k v inside,
      )

  ended :
      {threadsafe : Bool} {ms_wait : ℤ} {wakes : List (CfQueue A → CfQueue A)} {start : CfQueue A}
      (udata : S) {w : Waited A}
      → WaitEnd threadsafe ms_wait wakes start w
      → BestEnd threadsafe ms_wait wakes start udata (elim w [
        | ready q ↦ reduce_pop_element cb q udata
        | gave_up q ↦ (udata, returned cf_queue_empty none q)
        | waiting q ↦ (udata, blocked q)
      ])
  ended {threadsafe} {ms_wait} {wakes} {start} udata (filled {q} p v full) =
      let (o, q', e, found, holds) = reduce_pop_element_lem q udata v full in
      subst (BestEnd threadsafe ms_wait wakes start udata) (sym e) (best_taken p refl found holds)
  ended udata (elapsed {q} p v empty limited) = none_there p (v, no_elements q v empty) limited
  ended udata (asleep {q} p v empty may_wait) = sleeping p (v, no_elements q v empty) may_wait

  -- `cf_queue_reduce_pop`, from a sound queue and with other threads that keep it sound, ends in one
  -- of the ways of `BestEnd`.
  pub cf_queue_reduce_pop-ends :
      (ms_wait : ℤ) (wakes : List (CfQueue A → CfQueue A)) (q : CfQueue A) (udata : S)
      → KeepSound wakes
      → IsSound q
      → BestEnd q.threadsafe ms_wait wakes q udata (cf_queue_reduce_pop cb ms_wait wakes q udata)
  unfolding cf_queue_reduce_pop
  cf_queue_reduce_pop-ends ms_wait wakes q udata ks v =
      ended udata (cf_queue_wait-ends ms_wait wakes q ks v)
