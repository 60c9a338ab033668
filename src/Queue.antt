-- ===== src/Queue.antt =====
-- src/main/aerospike/as_queue.c and the inline functions of as_queue.h: a queue over a circular array
-- of items, which grows when it is full. An item of `item_size` bytes is one value.
pub mod Contents
pub mod Grow
pub mod Refine
pub mod Runs
mod Tests
use aerospike_common.Common.{
  ℕ, ◌+◌, ◌-◌, ◌*◌, ◌/◌, ◌%◌, ◌^◌, List, [], Option, none, some, Bool, true, false,
}
use aerospike_common.Common.{ltb, leb, ◌==◌, if◌then◌else◌, bit_and, bit_or, not, add32, sub32}
use aerospike_common.Memory.{Memory}
use aerospike_common.Common.{get_elem?, set, take, drop, write}

-- `as_queue`
pub record Queue {ℓ} (A : Type ℓ) : Type ℓ where
  pub items : Option (List A)
  pub capacity : ℕ
  pub head : ℕ
  pub tail : ℕ
  pub item_size : ℕ
  pub total : ℕ
  pub flags : ℕ

abbrev pub items_on_heap : ℕ
items_on_heap = 1

abbrev pub all_on_heap : ℕ
all_on_heap = 2

module _ {ℓ} {A : Type ℓ} where
  abbrev pub slots : Queue A → List A
  slots q = elim q.items [ none ↦ [] | some d ↦ d ]

  unfoldable pub as_queue_size : Queue A → ℕ
  as_queue_size q = sub32 q.tail q.head

  unfoldable pub as_queue_empty : Queue A → Bool
  as_queue_empty q = q.tail == q.head

  -- The slot of an index.
  unfoldable pub as_queue_get : Queue A → ℕ → ℕ
  as_queue_get q index = index % q.capacity

  -- `memcpy(as_queue_get(queue, index), ptr, queue->item_size)`
  unfoldable pub put_item : Queue A → ℕ → A → Queue A
  unfolding as_queue_get
  put_item q index x = record q {
    items = elim q.items [ none ↦ none | some d ↦ some (set d (as_queue_get q index) x) ];
  }

  unfoldable pub as_queue_unwrap : Queue A → Queue A
  unfolding as_queue_size
  as_queue_unwrap q =
      if bit_and q.tail 0xC0000000 == 0
      then q
      else (let sz = as_queue_size q in
          let head : ℕ = q.head % q.capacity in record q { head = head; tail = add32 head sz })

  module _ (memory : Memory A) where
    -- The items from the slot of `head` to the end, then those before it. `free(data)` leaves no trace.
    unfoldable pub as_queue_copy : Queue A → ℕ → Bool × Queue A
    as_queue_copy q new_capacity = elim (memory.malloc (new_capacity * q.item_size % 2 ^ 32)) [
      | none ↦ (false, q)
      | some tmp ↦
          let first : ℕ = q.head % q.capacity in
          let end_sz : ℕ = q.capacity - first in
          let upper : List A = take end_sz (drop first (slots q)) in
          let lower : List A = take (q.capacity - end_sz) (slots q) in
          (
            true,
            record q {
              items = some (write (write tmp 0 upper) end_sz lower);
              head = 0;
              tail = q.capacity;
              capacity = new_capacity;
            },
          )
    ]

    -- A failing `cf_realloc` leaves NULL in `data`.
    unfoldable pub as_queue_realloc : Queue A → ℕ → Bool × Queue A
    as_queue_realloc q new_capacity =
        elim (memory.realloc (slots q) (new_capacity * q.item_size % 2 ^ 32)) [
          | none ↦ (false, record q { items = none })
          | some d ↦ (
            true,
            record q { items = some d; head = 0; tail = q.capacity; capacity = new_capacity },
          )
        ]

    unfoldable pub as_queue_increase_capacity : Queue A → Bool × Queue A
    as_queue_increase_capacity q =
        let new_capacity : ℕ = q.capacity * 2 % 2 ^ 32 in
        if bit_and q.flags items_on_heap == 0
        then (let (done, q') = as_queue_copy q new_capacity in
            if done
            then (true, record q' { flags = bit_or q'.flags items_on_heap })
            else (false, q'))
        else if q.head % q.capacity == 0
        then as_queue_realloc q new_capacity
        else as_queue_copy q new_capacity

    unfoldable pub as_queue_init : ℕ → ℕ → Option (Queue A)
    as_queue_init item_size capacity = elim (memory.malloc (capacity * item_size % 2 ^ 32)) [
      | none ↦ none
      | some d ↦ some (record {
        items = some d;
        capacity = capacity;
        head = 0;
        tail = 0;
        item_size = item_size;
        total = 0;
        flags = items_on_heap;
      })
    ]

    -- The structure itself is allocated too: `struct_block` tells whether that succeeds.
    unfoldable pub as_queue_create : Bool → ℕ → ℕ → Option (Queue A)
    unfolding as_queue_init
    as_queue_create struct_block item_size capacity =
        if struct_block
        then elim (as_queue_init item_size capacity) [
          | none ↦ none
          | some q ↦ some (record q { flags = bit_or items_on_heap all_on_heap })
        ]
        else none

  -- What the pushes do with a free slot.
  unfoldable pub push_tail : Queue A → A → Queue A
  push_tail q x =
      let q' = put_item q q.tail x in as_queue_unwrap (record q' { tail = add32 q.tail 1 })

  unfoldable pub push_front : Queue A → A → Queue A
  push_front q x =
      let lift : ℕ = if q.head == 0 then q.capacity else 0 in
      let head : ℕ = sub32 (add32 q.head lift) 1 in
      let q' = put_item q head x in
      as_queue_unwrap (record q' { head = head; tail = add32 q.tail lift })

  module _ (memory : Memory A) where
    -- The room that `as_queue_push` and `as_queue_push_head` make first.
    unfoldable pub ensure_room : Queue A → Bool × Queue A
    ensure_room q =
        if as_queue_size q == q.capacity then as_queue_increase_capacity memory q else (true, q)

    unfoldable pub as_queue_push : Queue A → A → Bool × Queue A
    unfolding ensure_room push_tail
    as_queue_push q x =
        let (done, q') = ensure_room q in if done then (true, push_tail q' x) else (false, q')

    unfoldable pub as_queue_push_head : Queue A → A → Bool × Queue A
    unfolding ensure_room push_front
    as_queue_push_head q x =
        let (done, q') = ensure_room q in if done then (true, push_front q' x) else (false, q')

  unfoldable pub as_queue_push_limit : Queue A → A → Bool × Queue A
  unfolding push_tail
  as_queue_push_limit q x =
      if leb q.capacity (as_queue_size q) then (false, q) else (true, push_tail q x)

  unfoldable pub as_queue_push_head_limit : Queue A → A → Bool × Queue A
  unfolding push_front
  as_queue_push_head_limit q x =
      if leb q.capacity (as_queue_size q) then (false, q) else (true, push_front q x)

  -- Both indices go back to 0 when the queue is empty.
  unfoldable pub as_queue_reset : Queue A → Queue A
  as_queue_reset q = if q.head == q.tail then record q { head = 0; tail = 0 } else q

  -- What goes through `ptr` stands beside the result.
  unfoldable pub as_queue_pop : Queue A → Bool × Option A × Queue A
  unfolding as_queue_empty as_queue_get
  as_queue_pop q = if as_queue_empty q then (false, none, q) else (
    true,
    get_elem? (slots q) (as_queue_get q q.head),
    as_queue_reset (record q { head = add32 q.head 1 }),
  )

  unfoldable pub as_queue_pop_tail : Queue A → Bool × Option A × Queue A
  unfolding as_queue_empty as_queue_get
  as_queue_pop_tail q =
      let tail : ℕ = sub32 q.tail 1 in
      if as_queue_empty q then (false, none, q) else (
        true,
        get_elem? (slots q) (as_queue_get q tail),
        as_queue_reset (record q { tail = tail }),
      )

  unfoldable pub as_queue_incr_total : Queue A → Bool × Queue A
  as_queue_incr_total q =
      if ltb q.total q.capacity then (true, record q { total = add32 q.total 1 }) else (false, q)

  unfoldable pub as_queue_decr_total : Queue A → Queue A
  as_queue_decr_total q = record q { total = sub32 q.total 1 }
