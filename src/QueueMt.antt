-- ===== src/QueueMt.antt =====
-- src/main/aerospike/as_queue_mt.c and as_queue_mt.h: as_queue under a lock and a condition. The
-- structure is its queue: the lock and the condition leave no trace in a call that does not wait.
pub mod Refine
mod Tests
use aerospike_common.Common.{
  ℕ, ℤ, pos, negsuc, eq_int, List, [], ◌∷◌, Option, none, some, Bool, true, false, ◌||◌, not,
  if◌then◌else◌, bit_or,
}
use aerospike_common.Memory.{Memory}
use aerospike_common.Queue.{
  Queue, items_on_heap, all_on_heap, as_queue_init, as_queue_size, as_queue_empty, as_queue_push,
  as_queue_push_head, as_queue_push_limit, as_queue_push_head_limit, as_queue_pop,
  as_queue_pop_tail,
}

abbrev pub as_queue_forever : ℤ
as_queue_forever = negsuc 0

abbrev pub as_queue_nowait : ℤ
as_queue_nowait = pos 0

-- A wait that is over, or not before the wakes are.
pub data Woken {ℓ} (S : Type ℓ) : Type ℓ where
  woken : S → Woken S
  asleep : S → Woken S

-- A pop's result, what goes through `ptr`, and the state, if it returns.
pub data Popped {ℓ} (A : Type ℓ) (S : Type ℓ) : Type ℓ where
  returned : Bool → Option A → S → Popped A S
  blocked : S → Popped A S

module _ {ℓ} {A : Type ℓ} where
  module _ (memory : Memory A) where
    -- The results of `pthread_mutex_init` and `pthread_cond_init` are parameters; what is freed
    -- leaves no trace.
    unfoldable pub as_queue_mt_init : Bool → Bool → ℕ → ℕ → Option (Queue A)
    unfolding as_queue_init
    as_queue_mt_init mutex_init cond_init item_size capacity =
        elim (as_queue_init memory item_size capacity) [
          | none ↦ none
          | some q ↦ if mutex_init then if cond_init then some q else none else none
        ]

    unfoldable pub as_queue_mt_create : Bool → Bool → Bool → ℕ → ℕ → Option (Queue A)
    unfolding as_queue_mt_init
    as_queue_mt_create struct_block mutex_init cond_init item_size capacity =
        if struct_block
        then elim (as_queue_mt_init mutex_init cond_init item_size capacity) [
          | none ↦ none
          | some q ↦ some (record q { flags = bit_or items_on_heap all_on_heap })
        ]
        else none

    -- The pushes, under the lock; the signal leaves no trace.
    unfoldable pub as_queue_mt_push : Queue A → A → Bool × Queue A
    as_queue_mt_push q x = as_queue_push memory q x

    unfoldable pub as_queue_mt_push_head : Queue A → A → Bool × Queue A
    as_queue_mt_push_head q x = as_queue_push_head memory q x

  unfoldable pub as_queue_mt_size : Queue A → ℕ
  as_queue_mt_size q = as_queue_size q

  unfoldable pub as_queue_mt_empty : Queue A → Bool
  as_queue_mt_empty q = as_queue_empty q

  unfoldable pub as_queue_mt_push_limit : Queue A → A → Bool × Queue A
  as_queue_mt_push_limit q x = as_queue_push_limit q x

  unfoldable pub as_queue_mt_push_head_limit : Queue A → A → Bool × Queue A
  as_queue_mt_push_head_limit q x = as_queue_push_head_limit q x

  -- The other threads act only while the caller waits: for each return of `pthread_cond_wait`, or of
  -- `pthread_cond_timedwait`, `wakes` has what they have done to the queue since the last one.
  unfoldable pub wait_loop : List (Queue A → Queue A) → Queue A → Woken (Queue A)
  unfolding as_queue_empty
  wait_loop [] q = asleep q
  wait_loop (wake ∷ wakes) q =
      let q' = wake q in
      let rest = wait_loop wakes q' in if as_queue_empty q' then rest else woken q'

  abbrev pub timed_wait : List (Queue A → Queue A) → Queue A → Woken (Queue A)
  timed_wait [] q = asleep q
  timed_wait (wake ∷ wakes) q = woken (wake q)

  unfoldable pub as_queue_mt_wait : ℤ → List (Queue A → Queue A) → Queue A → Woken (Queue A)
  unfolding wait_loop as_queue_empty
  as_queue_mt_wait wait_ms wakes q =
      if eq_int wait_ms as_queue_nowait || not (as_queue_empty q)
      then woken q
      else if eq_int wait_ms as_queue_forever
      then wait_loop wakes q
      else timed_wait wakes q

  -- A pop of the queue, once the wait is over.
  abbrev pub once_woken : {S : Type ℓ} → (S → Bool × Option A × S) → Woken S → Popped A S
  once_woken pop (woken q) = let (status, o, q') = pop q in returned status o q'
  once_woken pop (asleep q) = blocked q

  unfoldable pub as_queue_mt_pop : ℤ → List (Queue A → Queue A) → Queue A → Popped A (Queue A)
  unfolding as_queue_mt_wait
  as_queue_mt_pop wait_ms wakes q = once_woken as_queue_pop (as_queue_mt_wait wait_ms wakes q)

  unfoldable pub as_queue_mt_pop_tail : ℤ → List (Queue A → Queue A) → Queue A → Popped A (Queue A)
  unfolding as_queue_mt_wait
  as_queue_mt_pop_tail wait_ms wakes q =
      once_woken as_queue_pop_tail (as_queue_mt_wait wait_ms wakes q)
