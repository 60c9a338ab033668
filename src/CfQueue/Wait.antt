-- ===== src/CfQueue/Wait.antt =====
-- `cf_queue_pop` and `cf_queue_reduce_pop`: a call that may wait for an element. The other threads
-- act only while the caller waits: `wakes` holds, for each return of `pthread_cond_wait` or
-- `pthread_cond_timedwait`, what they have done to the queue since the last one.
use aerospike_common.Common.{ℕ, zero, suc, ◌+◌, ◌-◌, ℤ, pos, negsuc, eq_int}
use aerospike_common.Common.{List, ◌∷◌, [], Option, none, some}
use aerospike_common.Common.{add32, sub32, if◌then◌else◌, ◌==◌, not, get_elem?}
use aerospike_common.CfQueue.{CfQueue, slots, cf_q_elem, cf_q_empty, cf_queue_ok, cf_queue_empty}
use aerospike_common.CfQueue.Delete.{cf_queue_delete_offset}
use aerospike_common.CfQueue.Reduce.{stop, take_it}

abbrev pub cf_queue_forever : ℤ
cf_queue_forever = negsuc 0

abbrev pub cf_queue_nowait : ℤ
cf_queue_nowait = pos 0

-- How the wait for an element ends: with one, without, or not before `wakes` does.
pub data Waited {ℓ} (A : Type ℓ) : Type ℓ where
  ready : CfQueue A → Waited A
  gave_up : CfQueue A → Waited A
  waiting : CfQueue A → Waited A

-- A call's code and what goes through `buf`, beside the queue, if it returns.
pub data Popped {ℓ} (A : Type ℓ) : Type ℓ where
  returned : ℤ → Option A → CfQueue A → Popped A
  blocked : CfQueue A → Popped A

module _ {ℓ} {A : Type ℓ} where
  -- The loop that waits, of a thread-safe queue.
  unfoldable pub wait_loop : ℤ → List (CfQueue A → CfQueue A) → CfQueue A → Waited A
  unfolding cf_q_empty
  wait_loop ms_wait [] q =
      if not (cf_q_empty q)
      then ready q
      else if eq_int cf_queue_forever ms_wait
      then waiting q
      else if eq_int cf_queue_nowait ms_wait
      then gave_up q
      else waiting q
  wait_loop ms_wait (wake ∷ wakes) q =
      let q' = wake q in
      let rest = wait_loop ms_wait wakes q' in
      if not (cf_q_empty q)
      then ready q
      else if eq_int cf_queue_forever ms_wait
      then rest
      else if eq_int cf_queue_nowait ms_wait
      then gave_up q
      else if cf_q_empty q'
      then gave_up q'
      else rest

  unfoldable pub cf_queue_wait : ℤ → List (CfQueue A → CfQueue A) → CfQueue A → Waited A
  unfolding wait_loop cf_q_empty
  cf_queue_wait ms_wait wakes q =
      if q.threadsafe
      then wait_loop ms_wait wakes q
      else if cf_q_empty q
      then gave_up q
      else ready q

  -- The head, once there is one.
  unfoldable pub pop_element : CfQueue A → Popped A
  unfolding cf_q_elem
  pop_element q =
      let head : ℕ = add32 q.read_offset 1 in
      let q' = record q { read_offset = head; n_eles = sub32 q.n_eles 1 } in
      returned cf_queue_ok (get_elem? (slots q) (cf_q_elem q q.read_offset))
        (if head == q.write_offset then record q' { read_offset = 0; write_offset = 0 } else q')

  abbrev pub once_ready : (CfQueue A → Popped A) → Waited A → Popped A
  once_ready act (ready q) = act q
  once_ready act (gave_up q) = returned cf_queue_empty none q
  once_ready act (waiting q) = blocked q

  unfoldable pub cf_queue_pop : ℤ → List (CfQueue A → CfQueue A) → CfQueue A → Popped A
  unfolding cf_queue_wait pop_element
  cf_queue_pop ms_wait wakes q = once_ready pop_element (cf_queue_wait ms_wait wakes q)

module _ {ℓ κ} {A : Type ℓ} {S : Type κ} (cb : A → S → ℤ × S) where
  -- One turn of the loop of `cf_queue_reduce_pop`; `next` is the rest of the loop.
  unfoldable pub best_visit : S → ℕ → ℕ → (S → ℕ → S × ℕ) → Option A → S × ℕ
  best_visit udata i best_index next none = (udata, best_index)
  best_visit udata i best_index next (some x) =
      let (rv, udata') = cb x udata in
      if eq_int rv stop
      then (udata', i)
      else if eq_int rv take_it
      then next udata' i
      else next udata' best_index

  -- The loop through the next `n` offsets from `i`: the callback's state and the best offset.
  unfoldable pub best_from : CfQueue A → ℕ → ℕ → S → ℕ → S × ℕ
  unfolding cf_q_elem best_visit
  best_from q i zero udata best_index = (udata, best_index)
  best_from q i (suc n) udata best_index =
      best_visit udata i best_index (best_from q (i + 1) n) (get_elem? (slots q) (cf_q_elem q i))

  -- The callback's state stands beside the outcome.
  unfoldable pub reduce_pop_element : CfQueue A → S → S × Popped A
  unfolding best_from cf_q_elem cf_queue_delete_offset
  reduce_pop_element q udata =
      let (udata', best_index) =
        best_from q q.read_offset (q.write_offset - q.read_offset) udata q.read_offset in
      (
        udata',
        returned cf_queue_ok (get_elem? (slots q) (cf_q_elem q best_index))
            (cf_queue_delete_offset q best_index),
      )

  unfoldable pub cf_queue_reduce_pop :
      ℤ → List (CfQueue A → CfQueue A) → CfQueue A → S → S × Popped A
  unfolding cf_queue_wait reduce_pop_element
  cf_queue_reduce_pop ms_wait wakes q udata = elim (cf_queue_wait ms_wait wakes q) [
    | ready q' ↦ reduce_pop_element q' udata
    | gave_up q' ↦ (udata, returned cf_queue_empty none q')
    | waiting q' ↦ (udata, blocked q')
  ]
