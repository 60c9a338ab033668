-- ===== src/Queue/Refine.antt =====
-- The operations of a queue against a double-ended list of its items.
use aerospike_common.Common.{ℕ, ◌+◌, ◌-◌, ◌*◌, ◌%◌, ◌^◌, ◌≤◌, ◌<◌, ◌≡◌, refl, sym, ap, ◌∙◌, arith}
use aerospike_common.Common.{
  List, [], ◌∷◌, ◌++◌, Option, none, some, Bool, true, false, Bool-cases, inl, inr, if◌then◌else◌,
}
use aerospike_common.Common.{add32, sub32, leb, ◌==◌, ==→eq, length, get_elem?}
use aerospike_common.Ring.{window, window_of_pos, window_last, length-window}
use aerospike_common.Queue.{Queue, slots, as_queue_size, ensure_room}
use aerospike_common.Queue.{
  as_queue_push, as_queue_push_head, as_queue_push_limit, as_queue_push_head_limit, as_queue_pop,
  as_queue_reset, as_queue_pop_tail,
}
use aerospike_common.Memory.{Memory, IsMemory}
use aerospike_common.Queue.Contents.{
  IsValid, contents, held, as_queue_size-eq-held, push_tail-IsValid, contents-push_tail,
  push_front-IsValid, contents-push_front,
}
use aerospike_common.Queue.Grow.{CanGrow, Grown, as_queue_increase_capacity-Grown}

module _ {ℓ} {A : Type ℓ} where
  -- The capacity and the bytes of the array can be doubled.
  pub record IsGrowable (q : Queue A) : Type 0 where
    pub some_size : 0 < q.item_size
    pub items_fit : q.capacity * 2 ≤ 2 ^ 30
    pub bytes_fit : q.capacity * 2 * q.item_size < 2 ^ 32

  pub ensure_room-Grown :
      (memory : Memory A) (q : Queue A)
      → IsMemory memory q.item_size
      → IsValid q
      → IsGrowable q
      → (ensure_room memory q).0 ≡ true
      → Grown q (ensure_room memory q)
  unfolding ensure_room
  ensure_room-Grown memory q law v g done = elim (Bool-cases (as_queue_size q == q.capacity)) [
    | inl full ↦
        let all : held q ≡ q.capacity = sym (as_queue_size-eq-held q v) ∙ ==→eq _ _ full in
        let can : CanGrow q = record {
          full = all;
          some_size = g.some_size;
          items_fit = g.items_fit;
          bytes_fit = g.bytes_fit;
        } in
        rw full (as_queue_increase_capacity-Grown memory q law v can (rw full at done))
    | inr room ↦ rw room (v, refl, room_left room)
  ]
    where
      room_left : (as_queue_size q == q.capacity) ≡ false → held q < q.capacity
      room_left e = ground (arith, as_queue_size-eq-held q v)

  module _ (memory : Memory A) (q : Queue A) (x : A) where
    -- A successful `as_queue_push` on a valid queue, while twice its capacity is at most 2^30
    -- items and fewer than 2^32 bytes, items have at least a byte, and `malloc` and `realloc` give
    -- blocks of the size they are asked for, `realloc` with what was there, with or without
    -- growth, appends its item and keeps the queue valid.
    pub as_queue_push_lem :
        IsMemory memory q.item_size
        → IsValid q
        → IsGrowable q
        → (as_queue_push memory q x).0 ≡ true
        → let q' = (as_queue_push memory q x).1 in
          IsValid q' × (contents q' ≡ contents q ++ (some x ∷ []))
    unfolding as_queue_push
    as_queue_push_lem law v g done = elim (Bool-cases (ensure_room memory q).0) [
      | inl made ↦
          let (v', same, room) = ensure_room-Grown memory q law v g made in
          rw made (
            push_tail-IsValid (ensure_room memory q).1 x v' room,
            contents-push_tail (ensure_room memory q).1 x v' room
                ∙ ap (λ c. c ++ (some x ∷ [])) same,
          )
      | inr failed ↦ absurd (ground arith)
    ]

    -- The same of `as_queue_push_head`, before the others.
    pub as_queue_push_head_lem :
        IsMemory memory q.item_size
        → IsValid q
        → IsGrowable q
        → (as_queue_push_head memory q x).0 ≡ true
        → let q' = (as_queue_push_head memory q x).1 in
          IsValid q' × (contents q' ≡ some x ∷ contents q)
    unfolding as_queue_push_head
    as_queue_push_head_lem law v g done = elim (Bool-cases (ensure_room memory q).0) [
      | inl made ↦
          let (v', same, room) = ensure_room-Grown memory q law v g made in
          rw made (
            push_front-IsValid (ensure_room memory q).1 x v' room,
            contents-push_front (ensure_room memory q).1 x v' room ∙ ap (◌∷◌ (some x)) same,
          )
      | inr failed ↦ absurd (ground arith)
    ]

  -- The abstract operations, on the items of a deque of at most `capacity`.
  pub push_back : ℕ → List (Option A) → A → Bool × List (Option A)
  push_back capacity c x =
      if leb capacity (length c) then (false, c) else (true, c ++ (some x ∷ []))

  pub push_first : ℕ → List (Option A) → A → Bool × List (Option A)
  push_first capacity c x = if leb capacity (length c) then (false, c) else (true, some x ∷ c)

  pub pop_first : List (Option A) → Bool × Option A × List (Option A)
  pop_first [] = (false, none, [])
  pop_first (o ∷ c) = (true, o, c)

  -- What a client sees of a push: the result, and the items afterwards.
  abbrev pub seen : Bool × Queue A → Bool × List (Option A)
  seen r = (r.0, contents r.1)

  abbrev pub seen_pop : Bool × Option A × Queue A → Bool × Option A × List (Option A)
  seen_pop r = (r.0, r.1, contents r.2)

  length-contents : (q : Queue A) → IsValid q → length (contents q) ≡ as_queue_size q
  length-contents q v =
      length-window (slots q) q.capacity q.head (held q) ∙ sym (as_queue_size-eq-held q v)

  -- `as_queue_push_limit` on a valid queue is `push_back` on its items, and keeps it valid.
  pub as_queue_push_limit_refines :
      (q : Queue A) (x : A)
      → IsValid q
      → IsValid (as_queue_push_limit q x).1
        × (seen (as_queue_push_limit q x) ≡ push_back q.capacity (contents q) x)
  unfolding as_queue_push_limit push_back
  as_queue_push_limit_refines q x v = elim (Bool-cases (leb q.capacity (as_queue_size q))) [
    | inl full ↦ rw (length-contents q v, full) (v, refl)
    | inr room ↦
        let left : held q < q.capacity = ground (arith, as_queue_size-eq-held q v) in
        rw (length-contents q v, room)
          (push_tail-IsValid q x v left, ap (λ c. (true, c)) (contents-push_tail q x v left))
  ]

  -- `as_queue_push_head_limit` on a valid queue is `push_first` on its items, and keeps it valid.
  pub as_queue_push_head_limit_refines :
      (q : Queue A) (x : A)
      → IsValid q
      → IsValid (as_queue_push_head_limit q x).1
        × (seen (as_queue_push_head_limit q x) ≡ push_first q.capacity (contents q) x)
  unfolding as_queue_push_head_limit push_first
  as_queue_push_head_limit_refines q x v = elim (Bool-cases (leb q.capacity (as_queue_size q))) [
    | inl full ↦ rw (length-contents q v, full) (v, refl)
    | inr room ↦
        let left : held q < q.capacity = ground (arith, as_queue_size-eq-held q v) in
        rw (length-contents q v, room)
          (push_front-IsValid q x v left, ap (λ c. (true, c)) (contents-push_front q x v left))
  ]

  no_items : (q : Queue A) → q.tail ≤ q.head → contents q ≡ []
  no_items q h =
      ap (window (slots q) q.capacity q.head)
        (let none_held : held q ≡ 0 = omega arith in none_held)

  -- Going back to index 0 when the last item has gone.
  as_queue_reset-IsValid : (q : Queue A) → IsValid q → IsValid (as_queue_reset q)
  unfolding as_queue_reset
  as_queue_reset-IsValid q v = ground arith

  contents-as_queue_reset : (q : Queue A) → contents (as_queue_reset q) ≡ contents q
  unfolding as_queue_reset
  contents-as_queue_reset q = elim (Bool-cases (q.head == q.tail)) [
    | inl empty ↦ ground (arith, no_items q (ground arith))
    | inr some_items ↦ rw some_items
  ]

  behind : Queue A → Queue A
  behind q = record q { head = add32 q.head 1 }

  behind-IsValid : (q : Queue A) → IsValid q → q.head < q.tail → IsValid (behind q)
  unfolding behind
  behind-IsValid q v some_items = ground arith

  contents-behind :
      (q : Queue A)
      → IsValid q
      → q.head < q.tail
      → contents q ≡ get_elem? (slots q) (q.head % q.capacity) ∷ contents (behind q)
  unfolding behind
  contents-behind q v some_items =
      let moved : (q.head + 1) % 2 ^ 32 ≡ q.head + 1 = omega arith in
      let fewer : q.tail - (q.head + 1) ≡ held q - 1 = omega arith in
      rw (moved, fewer) (window_of_pos (slots q) q.capacity q.head (held q) (omega arith))

  -- `as_queue_pop` on a valid queue is `pop_first` on its items, and keeps it valid.
  pub as_queue_pop_refines :
      (q : Queue A)
      → IsValid q
      → IsValid (as_queue_pop q).2 × (seen_pop (as_queue_pop q) ≡ pop_first (contents q))
  unfolding as_queue_pop pop_first behind
  as_queue_pop_refines q v = elim (Bool-cases (q.tail == q.head)) [
    | inl empty ↦ rw (empty, no_items q (ground arith)) (v, refl)
    | inr full ↦
        let some_items : q.head < q.tail = ground arith in
        rw (full, contents-behind q v some_items)
          (
            as_queue_reset-IsValid (behind q) (behind-IsValid q v some_items),
            ap (λ c. (true, get_elem? (slots q) (q.head % q.capacity), c))
                (contents-as_queue_reset (behind q)),
          )
  ]

  -- The last of the items, split off.
  pub pop_last : List (Option A) → Bool × Option A × List (Option A)
  pop_last [] = (false, none, [])
  pop_last (o ∷ []) = (true, o, [])
  pop_last (o ∷ p ∷ c) = let (done, last, rest) = pop_last (p ∷ c) in (done, last, o ∷ rest)

  pop_last-append : (c : List (Option A)) (o : Option A) → pop_last (c ++ (o ∷ [])) ≡ (true, o, c)
  unfolding pop_last
  pop_last-append [] o = refl
  pop_last-append (p ∷ []) o = refl
  pop_last-append (p ∷ q ∷ c) o = ap (λ r. (r.0, r.1, p ∷ r.2)) (pop_last-append (q ∷ c) o)

  before : Queue A → Queue A
  before q = record q { tail = sub32 q.tail 1 }

  before-IsValid : (q : Queue A) → IsValid q → q.head < q.tail → IsValid (before q)
  unfolding before
  before-IsValid q v some_items = ground arith

  contents-before :
      (q : Queue A)
      → IsValid q
      → q.head < q.tail
      → contents q ≡ contents (before q) ++ (get_elem? (slots q) (sub32 q.tail 1 % q.capacity) ∷ [])
  unfolding before
  contents-before q v some_items =
      let moved : (q.tail + 2 ^ 32 - 1 % 2 ^ 32) % 2 ^ 32 ≡ q.head + (held q - 1) = omega arith in
      let fewer : q.head + (held q - 1) - q.head ≡ held q - 1 = omega arith in
      rw (moved, fewer) (window_last (slots q) q.capacity q.head (held q) (omega arith))

  -- `as_queue_pop_tail` on a valid queue is `pop_last` on its items, and keeps it valid.
  pub as_queue_pop_tail_refines :
      (q : Queue A)
      → IsValid q
      → IsValid (as_queue_pop_tail q).2 × (seen_pop (as_queue_pop_tail q) ≡ pop_last (contents q))
  unfolding as_queue_pop_tail before
  as_queue_pop_tail_refines q v = elim (Bool-cases (q.tail == q.head)) [
    | inl empty ↦ unfold pop_last in rw (empty, no_items q (ground arith)) (v, refl)
    | inr full ↦
        let some_items : q.head < q.tail = ground arith in
        rw (full, contents-before q v some_items, pop_last-append)
          (
            as_queue_reset-IsValid (before q) (before-IsValid q v some_items),
            ap (λ c. (true, get_elem? (slots q) (sub32 q.tail 1 % q.capacity), c))
                (contents-as_queue_reset (before q)),
          )
  ]
