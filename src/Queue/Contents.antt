-- ===== src/Queue/Contents.antt =====
-- The invariant of a queue, the items that it holds in order, and the steps that every push and pop
-- is made of.
use aerospike_common.Common.{ℕ, ◌+◌, ◌-◌, ◌%◌, ◌^◌, ◌≤◌, ◌<◌, ◌≡◌, sym, ap, ◌∙◌, arith}
use aerospike_common.Common.{
  List, [], ◌∷◌, ◌++◌, Option, none, some, Bool-cases, Option-cases, inl, inr,
}
use aerospike_common.Common.{
  bit_and, ◌==◌, high2_bits32, length, length-set, add32, sub32, if◌then◌else◌,
}
use aerospike_common.Ring.{window, window-congr, window-set_end, window-set_front}
use aerospike_common.Queue.{
  Queue, slots, put_item, as_queue_get, as_queue_size, as_queue_unwrap, push_tail, push_front,
}
use native.Mathlib.Nat.{mod-eq_of_lt, mod_self}

-- How far `as_queue_push_head` lifts the indices, and the index that it writes.
abbrev pub lift_of : ℕ → ℕ → ℕ
lift_of head capacity = if head == 0 then capacity else 0

abbrev pub front_index : ℕ → ℕ → ℕ
front_index head capacity = sub32 (add32 head (lift_of head capacity)) 1

turn : (capacity : ℕ) → 0 < capacity → (capacity - 1 + 1) % capacity ≡ 0 % capacity
turn capacity some_slot =
    ap (λ k. k % capacity) (let e : capacity - 1 + 1 ≡ capacity = omega arith in e)
    ∙ mod_self capacity
    ∙ sym (mod-eq_of_lt {n = 0} {m = capacity} (omega arith))

pub front_steps :
    (head tail capacity : ℕ)
    → head ≤ tail
    → capacity ≤ 2 ^ 30
    → tail < 2 ^ 31
    → 0 < capacity
    → (add32 tail (lift_of head capacity) - front_index head capacity ≡ tail - head + 1)
      × ((front_index head capacity + 1) % capacity ≡ head % capacity)
front_steps head tail capacity order small bound some_slot = ground (arith, turn capacity some_slot)

module _ {ℓ} {A : Type ℓ} where
  abbrev pub Stored : Option (List A) → ℕ → Type 0
  Stored none capacity = ⊥
  Stored (some d) capacity = length d ≡ capacity

  -- An array of the capacity, at most 2^30 items, and indices that hold at most a capacity and whose
  -- sums stay below 2^32.
  pub record IsValid (q : Queue A) : Type 0 where
    pub stored : Stored q.items q.capacity
    pub some_slot : 0 < q.capacity
    pub small : q.capacity ≤ 2 ^ 30
    pub order : q.head ≤ q.tail
    pub fits : q.tail ≤ q.head + q.capacity
    pub bound : q.tail < 2 ^ 31

  -- Between the move of an index and `as_queue_unwrap` the tail may have reached 2^31.
  pub record IsRaw (q : Queue A) : Type 0 where
    pub stored : Stored q.items q.capacity
    pub some_slot : 0 < q.capacity
    pub small : q.capacity ≤ 2 ^ 30
    pub order : q.head ≤ q.tail
    pub fits : q.tail ≤ q.head + q.capacity
    pub bound : q.tail ≤ 2 ^ 31

  abbrev pub held : Queue A → ℕ
  held q = q.tail - q.head

  -- The items from the head to the tail.
  abbrev pub contents : Queue A → List (Option A)
  contents q = window (slots q) q.capacity q.head (held q)

  pub as_queue_size-eq-held : (q : Queue A) → IsValid q → as_queue_size q ≡ held q
  unfolding as_queue_size
  as_queue_size-eq-held q v = omega arith

  raw_size : (q : Queue A) → IsRaw q → as_queue_size q ≡ held q
  unfolding as_queue_size
  raw_size q v = omega arith

  pub as_queue_unwrap-IsValid : (q : Queue A) → IsRaw q → IsValid (as_queue_unwrap q)
  unfolding as_queue_unwrap
  as_queue_unwrap-IsValid q v = ground (arith, high2_bits32 q.tail (omega arith))

  pub contents-as_queue_unwrap : (q : Queue A) → IsRaw q → contents (as_queue_unwrap q) ≡ contents q
  unfolding as_queue_unwrap
  contents-as_queue_unwrap q v = elim (Bool-cases (bit_and q.tail 0xC0000000 == 0)) [
    | inl low ↦ rw low
    | inr high ↦
        rw (high, kept)
          (window-congr (slots q) q.capacity (q.head % q.capacity) q.head (held q) again)
  ]
    where
      h : ℕ
      h = q.head % q.capacity

      kept : (h + as_queue_size q) % 2 ^ 32 - h ≡ held q
      kept = omega (arith, raw_size q v)

      again : q.head % q.capacity % q.capacity ≡ q.head % q.capacity
      again = mod-eq_of_lt {n = h} {m = q.capacity} (omega arith)

  -- A push at the tail adds its item behind the others.
  tail_raw : Queue A → A → Queue A
  unfolding put_item as_queue_get
  tail_raw q x = record (put_item q q.tail x) { tail = add32 q.tail 1 }

  tail_raw-IsRaw : (q : Queue A) (x : A) → IsValid q → held q < q.capacity → IsRaw (tail_raw q x)
  unfolding tail_raw
  tail_raw-IsRaw q x v room = ground (arith, length-set (slots q) (q.tail % q.capacity) x)

  slots-length : (q : Queue A) → IsValid q → length (slots q) ≡ q.capacity
  slots-length q v = ground arith

  contents-tail_raw :
      (q : Queue A) (x : A)
      → IsValid q
      → held q < q.capacity
      → contents (tail_raw q x) ≡ contents q ++ (some x ∷ [])
  unfolding tail_raw
  contents-tail_raw q x v room = elim (Option-cases q.items) [
    | inl null ↦ absurd (ground arith)
    | inr (d, block) ↦
        ground
          (arith, more, place, window-set_end d q.capacity q.head (held q) x (ground arith) room)
  ]
    where
      more : (q.tail + 1) % 2 ^ 32 - q.head ≡ held q + 1
      more = omega arith

      place : q.tail ≡ q.head + held q
      place = omega arith

  -- A push at the front steps the head back.
  front_raw : Queue A → A → Queue A
  unfolding put_item as_queue_get
  front_raw q x =
      let lift : ℕ = if q.head == 0 then q.capacity else 0 in
      let head : ℕ = sub32 (add32 q.head lift) 1 in
      record (put_item q head x) { head = head; tail = add32 q.tail lift }

  front_raw-IsRaw : (q : Queue A) (x : A) → IsValid q → held q < q.capacity → IsRaw (front_raw q x)
  unfolding front_raw
  front_raw-IsRaw q x v room =
      let lift : ℕ = if q.head == 0 then q.capacity else 0 in
      ground (arith, length-set (slots q) (sub32 (add32 q.head lift) 1 % q.capacity) x)

  contents-front_raw :
      (q : Queue A) (x : A)
      → IsValid q
      → held q < q.capacity
      → contents (front_raw q x) ≡ some x ∷ contents q
  unfolding front_raw
  contents-front_raw q x v room = elim (Option-cases q.items) [
    | inl null ↦ absurd (ground arith)
    | inr (d, block) ↦
        let (more, forth) =
          front_steps q.head q.tail q.capacity v.order v.small v.bound v.some_slot in
        ground (
          arith,
          more,
          window-set_front d q.capacity h (held q) x (ground arith) room,
          window-congr d q.capacity (h + 1) q.head (held q) forth,
        )
  ]
    where
      h : ℕ
      h = front_index q.head q.capacity

  -- The two pushes, with the unwrapping.
  pub push_tail-IsValid :
      (q : Queue A) (x : A) → IsValid q → held q < q.capacity → IsValid (push_tail q x)
  unfolding push_tail tail_raw
  push_tail-IsValid q x v room = as_queue_unwrap-IsValid (tail_raw q x) (tail_raw-IsRaw q x v room)

  pub contents-push_tail :
      (q : Queue A) (x : A)
      → IsValid q
      → held q < q.capacity
      → contents (push_tail q x) ≡ contents q ++ (some x ∷ [])
  unfolding push_tail tail_raw
  contents-push_tail q x v room =
      contents-as_queue_unwrap (tail_raw q x) (tail_raw-IsRaw q x v room)
      ∙ contents-tail_raw q x v room

  pub push_front-IsValid :
      (q : Queue A) (x : A) → IsValid q → held q < q.capacity → IsValid (push_front q x)
  unfolding push_front front_raw
  push_front-IsValid q x v room =
      as_queue_unwrap-IsValid (front_raw q x) (front_raw-IsRaw q x v room)

  pub contents-push_front :
      (q : Queue A) (x : A)
      → IsValid q
      → held q < q.capacity
      → contents (push_front q x) ≡ some x ∷ contents q
  unfolding push_front front_raw
  contents-push_front q x v room =
      contents-as_queue_unwrap (front_raw q x) (front_raw-IsRaw q x v room)
      ∙ contents-front_raw q x v room
