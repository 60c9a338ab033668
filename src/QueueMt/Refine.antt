-- ===== src/QueueMt/Refine.antt =====
-- The waiting pops of as_queue_mt against a double-ended list, while other threads push and pop.
use mathlib.Core.List.{map}
use aerospike_common.Common.{
  ℕ, ◌≡◌, refl, sym, ap, ap₂, ◌∙◌, arith, ℤ, eq_int, List, [], ◌∷◌, Option, Bool, true, false, ◌||◌,
  not, Bool-cases, inl, inr, if◌then◌else◌, ◌==◌, length,
}
use aerospike_common.Ring.{length-window}
use aerospike_common.Queue.{Queue, slots, as_queue_empty, as_queue_pop, as_queue_pop_tail}
use aerospike_common.Queue.Contents.{IsValid, contents, held}
use aerospike_common.Queue.Refine.{
  pop_first, pop_last, seen_pop, as_queue_pop_refines, as_queue_pop_tail_refines,
}
use aerospike_common.Queue.Runs.{Call, call, deque_call, call_refines, capacity-call}
use aerospike_common.QueueMt.{
  Woken, woken, asleep, Popped, returned, blocked, wait_loop, timed_wait, as_queue_mt_wait,
  once_woken, as_queue_mt_pop, as_queue_mt_pop_tail, as_queue_forever, as_queue_nowait,
}

module _ {ℓ} {A : Type ℓ} where
  -- What calls of other threads, under the lock one after the other, do to the queue and to the deque.
  unfoldable pub calls : List (Call A) → Queue A → Queue A
  calls [] q = q
  calls (k ∷ ks) q = calls ks (call q k).2

  pub deque_calls : ℕ → List (Call A) → List (Option A) → List (Option A)
  deque_calls capacity [] c = c
  deque_calls capacity (k ∷ ks) c = deque_calls capacity ks (deque_call capacity c k).2

  -- A valid queue of this capacity with these items.
  abbrev Stands : ℕ → Queue A → List (Option A) → Type ℓ
  Stands capacity q c = IsValid q × (q.capacity ≡ capacity) × (contents q ≡ c)

  call-Stands :
      (capacity : ℕ) (q : Queue A) (c : List (Option A)) (k : Call A)
      → Stands capacity q c
      → Stands capacity (call q k).2 (deque_call capacity c k).2
  call-Stands capacity q c k (v, size, items) =
      let (v', e) = call_refines q k v in
      (v', capacity-call q k ∙ size, ap (λ r. r.2) e ∙ ap₂ (λ n d. (deque_call n d k).2) size items)

  calls-Stands :
      (capacity : ℕ) (ks : List (Call A)) (q : Queue A) (c : List (Option A))
      → Stands capacity q c
      → Stands capacity (calls ks q) (deque_calls capacity ks c)
  unfolding calls deque_calls
  calls-Stands capacity [] q c s = s
  calls-Stands capacity (k ∷ ks) q c s =
      calls-Stands capacity ks (call q k).2 (deque_call capacity c k).2
        (call-Stands capacity q c k s)

  abbrev pub is_nil : List (Option A) → Bool
  is_nil [] = true
  is_nil (o ∷ c) = false

  empty-Stands :
      (capacity : ℕ) (q : Queue A) (c : List (Option A))
      → Stands capacity q c
      → as_queue_empty q ≡ is_nil c
  unfolding as_queue_empty
  empty-Stands capacity q c (v, size, items) =
      no_items c (sym (length-window (slots q) q.capacity q.head (held q)) ∙ ap length items)
    where
      no_items : (d : List (Option A)) → held q ≡ length d → (q.tail == q.head) ≡ is_nil d
      no_items [] e = ground (arith, v.order)
      no_items (o ∷ d) e = ground arith

  -- The waits on a deque.
  pub deque_loop : ℕ → List (List (Call A)) → List (Option A) → Woken (List (Option A))
  deque_loop capacity [] c = asleep c
  deque_loop capacity (ks ∷ others) c =
      let c' = deque_calls capacity ks c in
      let rest = deque_loop capacity others c' in if is_nil c' then rest else woken c'

  abbrev deque_timed : ℕ → List (List (Call A)) → List (Option A) → Woken (List (Option A))
  deque_timed capacity [] c = asleep c
  deque_timed capacity (ks ∷ others) c = woken (deque_calls capacity ks c)

  pub deque_wait : ℤ → ℕ → List (List (Call A)) → List (Option A) → Woken (List (Option A))
  unfolding deque_loop deque_calls
  deque_wait wait_ms capacity others c =
      if eq_int wait_ms as_queue_nowait || not (is_nil c)
      then woken c
      else if eq_int wait_ms as_queue_forever
      then deque_loop capacity others c
      else deque_timed capacity others c

  data Agree (capacity : ℕ) : Woken (Queue A) → Woken (List (Option A)) → Type ℓ where
    both_woken :
        {q : Queue A} {c : List (Option A)}
        → Stands capacity q c
        → Agree capacity (woken q) (woken c)
    both_asleep :
        {q : Queue A} {c : List (Option A)}
        → Stands capacity q c
        → Agree capacity (asleep q) (asleep c)

  wait_loop-Agree :
      (capacity : ℕ) (others : List (List (Call A))) (q : Queue A) (c : List (Option A))
      → Stands capacity q c
      → Agree capacity (wait_loop (map calls others) q) (deque_loop capacity others c)
  unfolding wait_loop deque_loop
  wait_loop-Agree capacity [] q c s = both_asleep s
  wait_loop-Agree capacity (ks ∷ others) q c s =
      let s' = calls-Stands capacity ks q c s in
      let e = empty-Stands capacity (calls ks q) (deque_calls capacity ks c) s' in
      elim (Bool-cases (is_nil (deque_calls capacity ks c))) [
        | inl empty ↦
            rw (e, empty)
              (wait_loop-Agree capacity others (calls ks q) (deque_calls capacity ks c) s')
        | inr full ↦ rw (e, full) (both_woken s')
      ]

  as_queue_mt_wait-Agree :
      (wait_ms : ℤ) (capacity : ℕ) (others : List (List (Call A))) (q : Queue A)
      (c : List (Option A))
      → Stands capacity q c
      → Agree capacity
          (as_queue_mt_wait wait_ms (map calls others) q)
          (deque_wait wait_ms capacity others c)
  unfolding as_queue_mt_wait deque_wait
  as_queue_mt_wait-Agree wait_ms capacity others q c s =
      rw (empty-Stands capacity q c s)
        (elim (Bool-cases (eq_int wait_ms as_queue_nowait || not (is_nil c))) [
          | inl now ↦ rw now (both_woken s)
          | inr empty ↦ elim (Bool-cases (eq_int wait_ms as_queue_forever)) [
            | inl forever ↦ rw (empty, forever) (wait_loop-Agree capacity others q c s)
            | inr timed ↦ rw (empty, timed) (timed_wait-Agree others)
          ]
        ])
    where
      timed_wait-Agree :
          (ks : List (List (Call A)))
          → Agree capacity (timed_wait (map calls ks) q) (deque_timed capacity ks c)
      timed_wait-Agree [] = both_asleep s
      timed_wait-Agree (k ∷ ks) = both_woken (calls-Stands capacity k q c s)

  -- What a client sees: the items in place of the queue.
  abbrev pub seen_end : Popped A (Queue A) → Popped A (List (Option A))
  seen_end (returned status o q) = returned status o (contents q)
  seen_end (blocked q) = blocked (contents q)

  popped-Agree :
      (pop : Queue A → Bool × Option A × Queue A)
      (deque_pop : List (Option A) → Bool × Option A × List (Option A))
      → ((q : Queue A) → IsValid q → seen_pop (pop q) ≡ deque_pop (contents q))
      → {capacity : ℕ} {w : Woken (Queue A)} {d : Woken (List (Option A))} → Agree capacity w d
      → seen_end (once_woken pop w) ≡ once_woken deque_pop d
  popped-Agree pop deque_pop refines (both_woken {q} {c} (v, size, items)) =
      ap (λ r. returned r.0 r.1 r.2) (refines q v ∙ ap deque_pop items)
  popped-Agree pop deque_pop refines (both_asleep {q} {c} (v, size, items)) = ap blocked items

  -- `as_queue_mt_pop` of a valid queue, while other threads push with the limit and pop, is the pop of
  -- the first item of a deque that waits alike: it returns in the same cases, with the same result and
  -- item, and leaves the same items.
  pub as_queue_mt_pop_refines :
      (wait_ms : ℤ) (others : List (List (Call A))) (q : Queue A)
      → IsValid q
      → seen_end (as_queue_mt_pop wait_ms (map calls others) q)
        ≡ once_woken pop_first (deque_wait wait_ms q.capacity others (contents q))
  unfolding as_queue_mt_pop
  as_queue_mt_pop_refines wait_ms others q v =
      popped-Agree as_queue_pop pop_first (λ p u. (as_queue_pop_refines p u).1)
        (as_queue_mt_wait-Agree wait_ms q.capacity others q (contents q) (v, refl, refl))

  -- The same of `as_queue_mt_pop_tail` and the last item.
  pub as_queue_mt_pop_tail_refines :
      (wait_ms : ℤ) (others : List (List (Call A))) (q : Queue A)
      → IsValid q
      → seen_end (as_queue_mt_pop_tail wait_ms (map calls others) q)
        ≡ once_woken pop_last (deque_wait wait_ms q.capacity others (contents q))
  unfolding as_queue_mt_pop_tail
  as_queue_mt_pop_tail_refines wait_ms others q v =
      popped-Agree as_queue_pop_tail pop_last (λ p u. (as_queue_pop_tail_refines p u).1)
        (as_queue_mt_wait-Agree wait_ms q.capacity others q (contents q) (v, refl, refl))
