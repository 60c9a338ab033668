-- ===== src/Queue/Grow.antt =====
-- What `as_queue_increase_capacity` does to a full queue.
use aerospike_common.Common.{
  ℕ, ◌+◌, ◌-◌, ◌*◌, ◌/◌, ◌%◌, ◌^◌, ◌≤◌, ◌<◌, ◌≡◌, sym, ap, ap₂, ◌∙◌, arith,
}
use aerospike_common.Common.{
  List, ◌++◌, append-nil, some, Bool, true, Bool-cases, Option-cases, inl, inr,
}
use aerospike_common.Common.{
  bit_and, ◌==◌, ==→eq, length, length-write, length-take, length-drop, take, drop, write,
  take-write,
}
use aerospike_common.Ring.{window, window_turn, window_straight, take_all}
use aerospike_common.Queue.{
  Queue, slots, as_queue_copy, as_queue_realloc, as_queue_increase_capacity, items_on_heap,
}
use aerospike_common.Queue.Contents.{IsValid, contents, held}
use mathlib.Core.List.{map}
use aerospike_common.Memory.{Memory, IsMemory, whole_blocks}

module _ {ℓ} {A : Type ℓ} where
  -- A full queue whose capacity and bytes can be doubled.
  pub record CanGrow (q : Queue A) : Type 0 where
    pub full : held q ≡ q.capacity
    pub some_size : 0 < q.item_size
    pub items_fit : q.capacity * 2 ≤ 2 ^ 30
    pub bytes_fit : q.capacity * 2 * q.item_size < 2 ^ 32

  -- Rows of slots copied to the front of an array.
  copied :
      (tmp upper lower : List A) (n : ℕ)
      → length upper ≡ n
      → n + length lower ≤ length tmp
      → take (n + length lower) (write (write tmp 0 upper) n lower) ≡ upper ++ lower
  copied tmp upper lower n e fits =
      take-write (write tmp 0 upper) n lower (rw length-write fits)
      ∙ ap (λ xs. xs ++ lower)
          (ap (λ k. take k (write tmp 0 upper))
              (let start : n ≡ 0 + length upper = omega arith in start)
            ∙ take-write tmp 0 upper (omega arith))

  -- The array that `as_queue_copy` fills, with `h` the slot of the head.
  abbrev rows_of : List A → List A → ℕ → ℕ → List A
  rows_of d tmp capacity h =
      let n : ℕ = capacity - h in write (write tmp 0 (take n (drop h d))) n (take (capacity - n) d)

  rows_of_lem :
      (d tmp : List A) (capacity room h : ℕ)
      → length d ≡ capacity
      → length tmp ≡ room
      → capacity ≤ room
      → h < capacity
      → window (rows_of d tmp capacity h) room 0 capacity ≡ map some (drop h d ++ take h d)
  rows_of_lem d tmp capacity room h e f le inside =
      window_straight new room 0 capacity long (omega arith)
      ∙ ap (map some) (
          ap (λ k. take k new) whole
          ∙ copied tmp upper lower n upper_size (omega (arith, lower_size))
          ∙ ap₂ ◌++◌ (take_all n (drop h d) (omega (arith, length-drop h d)))
              (ap (λ k. take k d) (let back : capacity - n ≡ h = omega arith in back)))
    where
      n : ℕ
      n = capacity - h

      upper : List A
      upper = take n (drop h d)

      lower : List A
      lower = take (capacity - n) d

      new : List A
      new = write (write tmp 0 upper) n lower

      upper_size : length upper ≡ n
      upper_size = omega (arith, length-take n (drop h d), length-drop h d)

      lower_size : length lower ≡ h
      lower_size = omega (arith, length-take (capacity - n) d)

      whole : capacity ≡ n + length lower
      whole = omega (arith, lower_size)

      long : 0 + capacity ≤ length new
      long = omega (arith, length-write (write tmp 0 upper) n lower, length-write tmp 0 upper)

  rows_size : (d tmp : List A) (capacity h : ℕ) → length (rows_of d tmp capacity h) ≡ length tmp
  rows_size d tmp capacity h =
      length-write (write tmp 0 (take (capacity - h) (drop h d))) (capacity - h) _
      ∙ length-write tmp 0 _

  -- A full array whose head has slot 0 shows its items as they lie.
  window_start :
      (d : List A) (capacity s : ℕ)
      → length d ≡ capacity
      → s % capacity ≡ 0
      → 0 < capacity
      → window d capacity s capacity ≡ map some d
  window_start d capacity s stored e some_slot =
      window_turn d capacity s stored some_slot ∙ ap (map some) (rw e (append-nil d))

  -- What a call that grows the queue returns: room, and the same items.
  abbrev pub Grown : Queue A → Bool × Queue A → Type ℓ
  Grown q r = IsValid r.1 × (contents r.1 ≡ contents q) × (held r.1 < r.1.capacity)

  module _ (memory : Memory A) (q : Queue A) (law : IsMemory memory q.item_size) (v : IsValid q)
      (g : CanGrow q) where
    abbrev doubled : ℕ
    doubled = q.capacity * 2

    blocks : doubled * q.item_size % 2 ^ 32 / q.item_size ≡ doubled
    blocks = whole_blocks doubled q.item_size g.some_size g.bytes_fit

    -- `copy` shows the items of the old array from its head on.
    copy_rows :
        (d tmp : List A)
        → q.items ≡ some d
        → length tmp ≡ doubled
        → let h = q.head % q.capacity in
          window (rows_of d tmp q.capacity h) doubled 0 q.capacity ≡ contents q
    copy_rows d tmp block e =
        let stored : length d ≡ q.capacity = ground arith in
        rows_of_lem d tmp q.capacity doubled (q.head % q.capacity) stored e (omega arith)
          (omega arith)
        ∙ sym (window_turn d q.capacity q.head stored v.some_slot)
        ∙ (rw (block, g.full))

    realloc_rows :
        (d : List A)
        → length d ≡ doubled
        → take (length (slots q)) d ≡ slots q
        → q.head % q.capacity ≡ 0
        → window d doubled 0 q.capacity ≡ contents q
    realloc_rows d size kept at_start =
        let stored : length (slots q) ≡ q.capacity = ground arith in
        window_straight d doubled 0 q.capacity (omega arith) (omega arith)
        ∙ ap (map some) (ap (λ k. take k d) (sym stored) ∙ kept)
        ∙ sym (window_start (slots q) q.capacity q.head stored at_start v.some_slot)
        ∙ rw g.full

    as_queue_copy-Grown :
        (as_queue_copy memory q doubled).0 ≡ true → Grown q (as_queue_copy memory q doubled)
    unfolding as_queue_copy
    as_queue_copy-Grown done =
        elim (Option-cases (memory.malloc (doubled * q.item_size % 2 ^ 32))) [
          | inl null ↦ absurd (ground arith)
          | inr (tmp, given) ↦ elim (Option-cases q.items) [
            | inl none_stored ↦ absurd (ground arith)
            | inr (d, block) ↦
                let size : length tmp ≡ doubled = law.malloc_sized _ tmp given ∙ blocks in
                ground (
                  arith,
                  copy_rows d tmp block size,
                  rows_size d tmp q.capacity (q.head % q.capacity),
                )
          ]
        ]

    as_queue_realloc-Grown :
        q.head % q.capacity ≡ 0
        → (as_queue_realloc memory q doubled).0 ≡ true
        → Grown q (as_queue_realloc memory q doubled)
    unfolding as_queue_realloc
    as_queue_realloc-Grown at_start done =
        elim (Option-cases (memory.realloc (slots q) (doubled * q.item_size % 2 ^ 32))) [
          | inl null ↦ absurd (ground arith)
          | inr (d, given) ↦
              let size : length d ≡ doubled = law.realloc_sized (slots q) _ d given ∙ blocks in
              let kept : take (length (slots q)) d ≡ slots q =
                law.realloc_kept (slots q) _ d given (
                  let stored : length (slots q) ≡ q.capacity = ground arith in
                  rw (blocks, stored) (omega arith)) in
              ground (arith, realloc_rows d size kept at_start)
        ]

    -- A full queue that grows keeps its items in order, and has room for another.
    pub as_queue_increase_capacity-Grown :
        (as_queue_increase_capacity memory q).0 ≡ true
        → Grown q (as_queue_increase_capacity memory q)
    unfolding as_queue_increase_capacity
    as_queue_increase_capacity-Grown done =
        let same : q.capacity * 2 % 2 ^ 32 ≡ doubled = omega arith in
        elim (Bool-cases (bit_and q.flags items_on_heap == 0)) [
          | inl on_stack ↦ elim (Bool-cases (as_queue_copy memory q doubled).0) [
            | inl copied_rows ↦ ground (arith, same, as_queue_copy-Grown copied_rows)
            | inr failed ↦ absurd (ground (arith, same))
          ]
          | inr on_heap ↦ elim (Bool-cases (q.head % q.capacity == 0)) [
            | inl at_start ↦ ground (arith, same, as_queue_realloc-Grown (==→eq _ _ at_start))
            | inr later ↦ ground (arith, same, as_queue_copy-Grown)
          ]
        ]
