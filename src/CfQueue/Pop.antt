-- ===== src/CfQueue/Pop.antt =====
-- What `cf_queue_pop` returns, whatever the other threads do meanwhile.
use aerospike_common.Common.{ℕ, ◌+◌, ◌-◌, ◌%◌, ◌^◌, ◌<◌, ◌≡◌, refl, sym, ap, arith, ℤ, eq_int}
use aerospike_common.Common.{
  List, ◌∷◌, [], Option, none, some, Bool, true, false, ◌&&◌, Bool-cases, inl, inr,
}
use aerospike_common.Common.{add32, sub32, ◌==◌, get_elem?, get_elem?-lt, ◌∙◌}
use mathlib.Core.Path.{subst}
use aerospike_common.Ring.{window, window_of_pos}
use aerospike_common.Queue.Contents.{IsValid, Stored, held}
use aerospike_common.CfQueue.{CfQueue, slots, cf_q_elem, cf_q_empty, cf_queue_ok, cf_queue_empty}
use aerospike_common.CfQueue.Ring.{ring, IsSound, elements_of}
use aerospike_common.CfQueue.Push.{Holds}
use aerospike_common.CfQueue.Wakes.{
  KeepSound, Passed, WaitEnd, filled, elapsed, asleep, cf_queue_wait-ends, cf_queue_wait-ready,
  run_wakes, FirstFull,
}
use aerospike_common.CfQueue.Wait.{
  Waited, Popped, returned, blocked, pop_element, once_ready, cf_queue_pop, cf_queue_forever,
  cf_queue_nowait,
}

place : (i n : ℕ) → 0 < n → i % n < n
place i n some_slot = grind arith

module _ {ℓ} {A : Type ℓ} where
  pub no_elements : (q : CfQueue A) → IsSound q → cf_q_empty q ≡ true → elements_of q ≡ []
  unfolding cf_q_empty
  no_elements q v empty =
      ap (window (slots q) q.alloc_sz q.read_offset)
        (let none_held : held (ring q) ≡ 0 = ground arith in none_held)

  pub in_order : (q : CfQueue A) → IsSound q → cf_q_empty q ≡ false → q.read_offset < q.write_offset
  unfolding cf_q_empty
  in_order q v full = ground (arith, v.valid.order)

  popped : CfQueue A → CfQueue A
  popped q = record q { read_offset = add32 q.read_offset 1; n_eles = sub32 q.n_eles 1 }

  popped-Holds :
      (q : CfQueue A)
      → IsSound q
      → q.read_offset < q.write_offset
      → Holds (popped q) (window (slots q) q.alloc_sz (q.read_offset + 1) (held (ring q) - 1))
  unfolding popped
  popped-Holds q v some_held = (record { valid = valid; counted = counted }, rw (moved, fewer) refl)
    where
      moved : (q.read_offset + 1) % 2 ^ 32 ≡ q.read_offset + 1
      moved = omega (arith, v.valid.bound)

      fewer : q.write_offset - (q.read_offset + 1) ≡ held (ring q) - 1
      fewer = omega arith

      valid : IsValid (ring (popped q))
      valid = ground (arith, v, v.valid, some_held)

      counted : sub32 q.n_eles 1 ≡ q.write_offset - add32 q.read_offset 1
      counted = omega (arith, v.counted, v.valid.bound, v.valid.order, moved)

  -- A slot of the array has an element.
  slot_there :
      (elements : Option (List A)) (capacity i : ℕ)
      → Stored elements capacity
      → i < capacity
      → (x : A) × (get_elem? (elim elements [ none ↦ [] | some d ↦ d ]) i ≡ some x)
  slot_there none capacity i stored inside = absurd stored
  slot_there (some d) capacity i stored inside = get_elem?-lt d i (omega arith)

  -- Taking the head out of a queue that has one.
  pub pop_head :
      (q : CfQueue A)
      → IsSound q
      → cf_q_empty q ≡ false
      → (x : A) × (c : List (Option A)) × (q' : CfQueue A) × (pop_element q
          ≡ returned cf_queue_ok (some x) q')
        × (elements_of q ≡ some x ∷ c)
        × Holds q' c
  unfolding pop_element popped cf_q_elem
  pop_head q v full =
      let some_held : q.read_offset < q.write_offset = in_order q v full in
      let (sound, kept) = popped-Holds q v some_held in
      let rest = window (slots q) q.alloc_sz (q.read_offset + 1) (held (ring q) - 1) in
      let (x, there) =
        slot_there q.elements q.alloc_sz (q.read_offset % q.alloc_sz) v.valid.stored
          (place q.read_offset q.alloc_sz v.valid.some_slot) in
      let shown =
        window_of_pos (slots q) q.alloc_sz q.read_offset (held (ring q)) (omega arith)
        ∙ ap (λ o. o ∷ rest) there in
      elim (Bool-cases (add32 q.read_offset 1 == q.write_offset)) [
        | inl last ↦
            let gone : held (ring q) - 1 ≡ 0 = ground arith in
            (
              x,
              rest,
              record (popped q) { read_offset = 0; write_offset = 0 },
              rw (last, there) refl,
              shown,
              (
                record {
                  valid = ground (arith, v, v.valid);
                  counted = ground (arith, v.counted, gone);
                },
                sym (ap (window (slots q) q.alloc_sz (q.read_offset + 1)) gone),
              ),
            )
        | inr more ↦ (x, rest, popped q, rw (more, there) refl, shown, (sound, kept))
      ]

  -- How a pop may end: with the head of the queue in a state that it passes, with CF_QUEUE_EMPTY from
  -- an empty one, or not yet, on an empty one. A thread-safe queue never gives up if it is to wait for
  -- ever, and a call that is not to wait does not wait.
  pub data PopEnd (threadsafe : Bool) (ms_wait : ℤ) (wakes : List (CfQueue A → CfQueue A))
      (start : CfQueue A) : Popped A → Type ℓ where
    head_taken :
        {q q' : CfQueue A} {x : A} {c : List (Option A)}
        → Passed wakes start q
        → elements_of q ≡ some x ∷ c
        → Holds q' c
        → PopEnd threadsafe ms_wait wakes start (returned cf_queue_ok (some x) q')
    none_there :
        {q : CfQueue A}
        → Passed wakes start q
        → Holds q []
        → (threadsafe && eq_int cf_queue_forever ms_wait) ≡ false
        → PopEnd threadsafe ms_wait wakes start (returned cf_queue_empty none q)
    sleeping :
        {q : CfQueue A}
        → Passed wakes start q
        → Holds q []
        → eq_int cf_queue_nowait ms_wait ≡ false
        → PopEnd threadsafe ms_wait wakes start (blocked q)

  once_ready-ends :
      {threadsafe : Bool} {ms_wait : ℤ} {wakes : List (CfQueue A → CfQueue A)} {start : CfQueue A}
      {w : Waited A}
      → WaitEnd threadsafe ms_wait wakes start w
      → PopEnd threadsafe ms_wait wakes start (once_ready pop_element w)
  once_ready-ends {threadsafe} {ms_wait} {wakes} {start} (filled {q} p v full) =
      let (x, c, q', e, listed, holds) = pop_head q v full in
      subst (PopEnd threadsafe ms_wait wakes start) (sym e) (head_taken p listed holds)
  once_ready-ends (elapsed {q} p v empty limited) = none_there p (v, no_elements q v empty) limited
  once_ready-ends (asleep {q} p v empty may_wait) = sleeping p (v, no_elements q v empty) may_wait

  -- Whatever other threads do while it waits, if they keep the queue sound, `cf_queue_pop` of a sound
  -- queue takes the head of the queue in a state that it passes and leaves the others in a sound queue,
  -- gives up on an empty one, or still waits on an empty one. It does not give up where the queue is
  -- thread-safe and `ms_wait` is CF_QUEUE_FOREVER (-1), and does not wait where `ms_wait` is
  -- CF_QUEUE_NOWAIT (0).
  pub cf_queue_pop-ends :
      (ms_wait : ℤ) (wakes : List (CfQueue A → CfQueue A)) (q : CfQueue A)
      → KeepSound wakes
      → IsSound q
      → PopEnd q.threadsafe ms_wait wakes q (cf_queue_pop ms_wait wakes q)
  unfolding cf_queue_pop
  cf_queue_pop-ends ms_wait wakes q ks v = once_ready-ends (cf_queue_wait-ends ms_wait wakes q ks v)

  -- No wake is lost: while other threads keep the queue sound, `cf_queue_pop` of a sound and thread-safe
  -- queue with CF_QUEUE_FOREVER (-1) returns CF_QUEUE_OK if the queue is not empty after the last of the
  -- wakes: it takes the head of the first state in which the queue is not empty, and leaves the
  -- elements behind it in a sound queue.
  pub cf_queue_pop-returns :
      (wakes : List (CfQueue A → CfQueue A)) (q : CfQueue A)
      → KeepSound wakes
      → IsSound q
      → q.threadsafe ≡ true
      → cf_q_empty (run_wakes wakes q) ≡ false
      → (ready_state : CfQueue A) × (x : A) × (c : List (Option A)) × (q' : CfQueue A) × FirstFull
          wakes q ready_state
        × (elements_of ready_state ≡ some x ∷ c)
        × Holds q' c
        × (cf_queue_pop cf_queue_forever wakes q ≡ returned cf_queue_ok (some x) q')
  unfolding cf_queue_pop
  cf_queue_pop-returns wakes q ks v shared full =
      let (ready_state, e, first, v', full') = cf_queue_wait-ready wakes q ks v shared full in
      let (x, c, q', e', listed, holds) = pop_head ready_state v' full' in
      (ready_state, x, c, q', first, listed, holds, ap (once_ready pop_element) e ∙ e')
