-- ===== src/Queue/Runs.antt =====
-- A client's calls in order, on a queue that does not grow.
use aerospike_common.Common.{ℕ, ◌≡◌, refl, ap, arith, List, [], ◌∷◌, Option, none, Bool}
use aerospike_common.Queue.{
  Queue, as_queue_push_limit, as_queue_push_head_limit, as_queue_pop, as_queue_pop_tail,
  as_queue_unwrap, as_queue_reset, put_item,
}
use aerospike_common.Queue.Contents.{IsValid, contents}
use aerospike_common.Queue.Refine.{
  push_back, push_first, pop_first, pop_last, seen_pop, as_queue_push_limit_refines,
  as_queue_push_head_limit_refines, as_queue_pop_refines, as_queue_pop_tail_refines,
}

pub data Call {ℓ} (A : Type ℓ) : Type ℓ where
  push_limit : A → Call A
  push_head_limit : A → Call A
  pop : Call A
  pop_tail : Call A

module _ {ℓ} {A : Type ℓ} where
  -- A call's result, what goes through its pointer, and the state afterwards.
  abbrev quiet : {S : Type ℓ} → Bool × S → Bool × Option A × S
  quiet r = (r.0, none, r.1)

  unfoldable pub call : Queue A → Call A → Bool × Option A × Queue A
  call q (push_limit x) = quiet (as_queue_push_limit q x)
  call q (push_head_limit x) = quiet (as_queue_push_head_limit q x)
  call q pop = as_queue_pop q
  call q pop_tail = as_queue_pop_tail q

  pub deque_call : ℕ → List (Option A) → Call A → Bool × Option A × List (Option A)
  deque_call capacity c (push_limit x) = quiet (push_back capacity c x)
  deque_call capacity c (push_head_limit x) = quiet (push_first capacity c x)
  deque_call capacity c pop = pop_first c
  deque_call capacity c pop_tail = pop_last c

  pub capacity-call : (q : Queue A) (c : Call A) → (call q c).2.capacity ≡ q.capacity
  unfolding call as_queue_push_limit as_queue_push_head_limit as_queue_pop as_queue_pop_tail
      as_queue_unwrap put_item as_queue_reset
  capacity-call q (push_limit x) = ground arith
  capacity-call q (push_head_limit x) = ground arith
  capacity-call q pop = ground arith
  capacity-call q pop_tail = ground arith

  pub call_refines :
      (q : Queue A) (c : Call A)
      → IsValid q
      → IsValid (call q c).2 × (seen_pop (call q c) ≡ deque_call q.capacity (contents q) c)
  unfolding call deque_call
  call_refines q (push_limit x) v =
      let (v', e) = as_queue_push_limit_refines q x v in (v', ap quiet e)
  call_refines q (push_head_limit x) v =
      let (v', e) = as_queue_push_head_limit_refines q x v in (v', ap quiet e)
  call_refines q pop v = as_queue_pop_refines q v
  call_refines q pop_tail v = as_queue_pop_tail_refines q v

  pub run : Queue A → List (Call A) → List (Bool × Option A)
  unfolding call
  run q [] = []
  run q (c ∷ cs) = let (b, o, q') = call q c in (b, o) ∷ run q' cs

  pub deque_run : ℕ → List (Option A) → List (Call A) → List (Bool × Option A)
  unfolding deque_call
  deque_run capacity c [] = []
  deque_run capacity c (k ∷ ks) =
      let (b, o, c') = deque_call capacity c k in (b, o) ∷ deque_run capacity c' ks

  -- No sequence of calls of the operations that do not grow the array tells a valid queue from a
  -- deque of its items, bounded by its capacity.
  pub run_refines :
      (cs : List (Call A)) (q : Queue A)
      → IsValid q
      → run q cs ≡ deque_run q.capacity (contents q) cs
  unfolding run deque_run
  run_refines [] q v = refl
  run_refines (c ∷ cs) q v =
      let (v', e) = call_refines q c v in
      rw (← e) (
        ap (λ r. ((call q c).0, (call q c).1) ∷ r)
          (rw (run_refines cs (call q c).2 v', capacity-call q c) refl))
