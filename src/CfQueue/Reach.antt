-- ===== src/CfQueue/Reach.antt =====
-- The states that a cf_queue reaches by successful calls, whatever their order.
use mathlib.Core.Path.{subst}
use aerospike_common.Common.{ℕ, ◌≤◌, ◌<◌, ◌≡◌, sym, ap, ◌∙◌, arith, ℤ}
use aerospike_common.Common.{Option, Bool, true, false, Bool-cases, inl, inr}
use aerospike_common.Memory.{Memory, IsMemory}
use aerospike_common.Queue.Refine.{IsGrowable}
use aerospike_common.CfQueue.{
  CfQueue, cf_q_empty, cf_queue_ok, cf_queue_push, cf_queue_push_head, cf_queue_push_limit,
  cf_queue_push_unique,
}
use aerospike_common.CfQueue.Ring.{ring, IsSound, elements_of}
use aerospike_common.CfQueue.Push.{
  any_same, cf_queue_push_lem, cf_queue_push_head_lem, cf_queue_push_limit_lem,
  cf_queue_push_unique_lem,
}
use aerospike_common.CfQueue.Insert.{cf_queue_push_index}
use aerospike_common.CfQueue.Index.{cf_queue_push_index_lem}
use aerospike_common.CfQueue.Delete.{cf_queue_delete_offset}
use aerospike_common.CfQueue.Erase.{cf_queue_delete}
use aerospike_common.CfQueue.Reduce.{cf_queue_reduce, cf_queue_reduce_reverse}
use aerospike_common.CfQueue.Scan.{cf_queue_reduce_lem, cf_queue_reduce_reverse_lem}
use aerospike_common.CfQueue.Sound.{offset_IsSound, cf_queue_delete-IsSound}
use aerospike_common.CfQueue.Pop.{pop_head}
use aerospike_common.CfQueue.Best.{reduce_pop_element_lem}
use aerospike_common.CfQueue.Wait.{Popped, pop_element, reduce_pop_element, returned, blocked}

module _ {ℓ κ} {A : Type ℓ} where
  -- A successful call on a queue, without a wait: every push, where the array's items and bytes can be
  -- doubled, a pop of the head or of the best element, the deletion of an offset or of a value, and the
  -- calls with a callback, whose state is an `S`.
  pub data Step (memory : Memory A) (same : A → A → Bool) (S : Type κ) (q : CfQueue A)
      : CfQueue A → Type (ℓ ⊔ κ) where
    pushed :
        (x : A)
        → IsGrowable (ring q)
        → (cf_queue_push memory q x).0 ≡ cf_queue_ok
        → Step memory same S q (cf_queue_push memory q x).1
    pushed_head :
        (x : A)
        → IsGrowable (ring q)
        → (cf_queue_push_head memory q x).0 ≡ cf_queue_ok
        → Step memory same S q (cf_queue_push_head memory q x).1
    pushed_limit :
        (x : A) (limit : ℕ)
        → IsGrowable (ring q)
        → (cf_queue_push_limit memory q x limit).0 ≡ true
        → Step memory same S q (cf_queue_push_limit memory q x limit).1
    pushed_unique :
        (x : A)
        → IsGrowable (ring q)
        → (cf_queue_push_unique memory same q x).0 ≡ cf_queue_ok
        → Step memory same S q (cf_queue_push_unique memory same q x).1
    pushed_index :
        (x : A) (ix : ℕ)
        → IsGrowable (ring q)
        → (cf_queue_push_index memory q x ix).0 ≡ cf_queue_ok
        → Step memory same S q (cf_queue_push_index memory q x ix).1
    popped :
        {q' : CfQueue A} {o : Option A}
        → cf_q_empty q ≡ false
        → pop_element q ≡ returned cf_queue_ok o q'
        → Step memory same S q q'
    best_popped :
        {q' : CfQueue A} {o : Option A} (cb : A → S → ℤ × S) (udata : S)
        → cf_q_empty q ≡ false
        → (reduce_pop_element cb q udata).1 ≡ returned cf_queue_ok o q'
        → Step memory same S q q'
    reduced : (cb : A → S → ℤ × S) (udata : S) → Step memory same S q (cf_queue_reduce cb q udata).2
    reduced_reverse :
        (cb : A → S → ℤ × S) (udata : S)
        → Step memory same S q (cf_queue_reduce_reverse cb q udata).2
    deleted_offset :
        (i : ℕ)
        → q.read_offset ≤ i
        → i < q.write_offset
        → Step memory same S q (cf_queue_delete_offset q i)
    deleted :
        (ptr : Option A) (only_one : Bool)
        → Step memory same S q (cf_queue_delete same q ptr only_one).1

  -- Any number of such calls, while `malloc` and `realloc` give what they are asked for.
  pub data Reach (memory : Memory A) (same : A → A → Bool) (S : Type κ) (start : CfQueue A)
      : CfQueue A → Type (ℓ ⊔ κ) where
    at_start : Reach memory same S start start
    later :
        {q q' : CfQueue A}
        → Reach memory same S start q
        → IsMemory memory q.element_sz
        → Step memory same S q q'
        → Reach memory same S start q'

  state_of : Popped A → CfQueue A → CfQueue A
  state_of (returned code o q) _ = q
  state_of (blocked q) _ = q

  popped-IsSound :
      {p : Popped A} {code code' : ℤ} {o o' : Option A} {q q' : CfQueue A}
      → p ≡ returned code o q
      → p ≡ returned code' o' q'
      → IsSound q
      → IsSound q'
  unfolding state_of
  popped-IsSound {q} e e' v = subst IsSound (ap (λ p. state_of p q) (sym e ∙ e')) v

  limit-IsSound :
      (memory : Memory A) (q : CfQueue A) (x : A) (limit : ℕ)
      → IsMemory memory q.element_sz
      → IsSound q
      → IsGrowable (ring q)
      → (cf_queue_push_limit memory q x limit).0 ≡ true
      → IsSound (cf_queue_push_limit memory q x limit).1
  limit-IsSound memory q x limit law v g done =
      elim (cf_queue_push_limit_lem memory q x limit law v g) [
        | inl (below, ok, holds) ↦ holds.0
        | inr (inl (reached, e)) ↦ absurd (ground (arith, ap (λ r. r.0) e))
        | inr (inr (below, failed, refused)) ↦ absurd (ground arith)
      ]

  unique-IsSound :
      (memory : Memory A) (same : A → A → Bool) (q : CfQueue A) (x : A)
      → IsMemory memory q.element_sz
      → IsSound q
      → IsGrowable (ring q)
      → (cf_queue_push_unique memory same q x).0 ≡ cf_queue_ok
      → IsSound (cf_queue_push_unique memory same q x).1
  unique-IsSound memory same q x law v g done =
      let e = cf_queue_push_unique_lem memory q x same v in
      elim (Bool-cases (any_same same x (elements_of q))) [
        | inl there ↦ rw (e, there) v
        | inr new ↦ rw (e, new) (cf_queue_push_lem memory q x law v g (rw (e, new) at done)).0
      ]

  Step-IsSound :
      {memory : Memory A} {same : A → A → Bool} {S : Type κ} {q q' : CfQueue A}
      → Step memory same S q q'
      → IsMemory memory q.element_sz
      → IsSound q
      → IsSound q'
  Step-IsSound {memory} {q} (pushed x g done) law v = (cf_queue_push_lem memory q x law v g done).0
  Step-IsSound {memory} {q} (pushed_head x g done) law v =
      (cf_queue_push_head_lem memory q x law v g done).0
  Step-IsSound {memory} {q} (pushed_limit x limit g done) law v =
      limit-IsSound memory q x limit law v g done
  Step-IsSound {memory} {same} {q} (pushed_unique x g done) law v =
      unique-IsSound memory same q x law v g done
  Step-IsSound {memory} {q} (pushed_index x ix g done) law v =
      (cf_queue_push_index_lem memory q x ix law v g done).0
  Step-IsSound {q} (popped full e) law v =
      let (x, c, q'', e', listed, holds) = pop_head q v full in popped-IsSound e' e holds.0
  Step-IsSound {q} (best_popped cb udata full e) law v =
      let (o, q'', e', found, holds) = reduce_pop_element_lem cb q udata v full in
      popped-IsSound (ap (λ r. r.1) e') e holds.0
  Step-IsSound {q} (reduced cb udata) law v = (cf_queue_reduce_lem cb q v udata).2.0
  Step-IsSound {q} (reduced_reverse cb udata) law v = (cf_queue_reduce_reverse_lem cb q v udata).2.0
  Step-IsSound {q} (deleted_offset i from to) law v = offset_IsSound q i v from to
  Step-IsSound {same} {q} (deleted ptr only_one) law v =
      cf_queue_delete-IsSound same q ptr only_one v

  -- Every state that successful calls which do not wait (the five pushes, the pop of the head or
  -- of the best element, the deletions and the reductions, with any callbacks on a state of one
  -- type) reach from a sound cf_queue is sound: the offsets and the counter of elements agree and
  -- hold at most a capacity of elements. Each push is made where twice the capacity is at most
  -- 2^30 elements and fewer than 2^32 bytes and elements have at least a byte; `malloc` and
  -- `realloc` give blocks of the size they are asked for, `realloc` with what was there.
  pub Reach-IsSound :
      {memory : Memory A} {same : A → A → Bool} {S : Type κ} {start q : CfQueue A}
      → IsSound start
      → Reach memory same S start q
      → IsSound q
  Reach-IsSound v at_start = v
  Reach-IsSound v (later r law st) = Step-IsSound st law (Reach-IsSound v r)
