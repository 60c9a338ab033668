-- ===== src/CfQueue/Ring.antt =====
-- cf_queue beside as_queue: the same array, offsets and steps, so that the invariant and the theorems of
-- as_queue carry over.
use aerospike_common.Common.{ℕ, ◌+◌, ◌*◌, ◌%◌, ◌^◌, ◌<◌, ◌≡◌, refl, sym, ap, ◌∙◌, arith}
use aerospike_common.Common.{
  List, ◌∷◌, [], ◌++◌, Option, some, Bool, true, Bool-cases, Option-cases, inl, inr,
}
use aerospike_common.Common.{add32, sub32, ◌==◌, length, length-append, suc}
use mathlib.Core.Path.{subst}
use aerospike_common.Ring.{length-window}
use aerospike_common.Memory.{Memory, IsMemory}
use aerospike_common.Queue.{
  Queue, items_on_heap, push_tail, push_front, put_item, as_queue_get, as_queue_unwrap,
  as_queue_size, ensure_room, as_queue_increase_capacity, as_queue_realloc, as_queue_copy,
}
use aerospike_common.Queue.Contents.{
  IsValid, contents, held, push_tail-IsValid, contents-push_tail, push_front-IsValid,
  contents-push_front, IsRaw, as_queue_unwrap-IsValid, contents-as_queue_unwrap,
}
use aerospike_common.Queue.Refine.{IsGrowable, ensure_room-Grown}
use aerospike_common.Queue.Grow.{Grown}
use aerospike_common.CfQueue.{
  CfQueue, slots, put_element, append_element, prepend_element, lift_offsets, cf_queue_unwrap,
  count_element, make_room, cf_queue_resize, cf_q_sz, cf_q_elem,
}

bytes : (n s : ℕ) → n * s < 2 ^ 32 → n * s % 2 ^ 64 ≡ n * s % 2 ^ 32
bytes n s small = omega arith

module _ {ℓ} {A : Type ℓ} where
  -- The as_queue with the same array and offsets.
  abbrev pub ring : CfQueue A → Queue A
  ring q = record {
    items = q.elements;
    capacity = q.alloc_sz;
    head = q.read_offset;
    tail = q.write_offset;
    item_size = q.element_sz;
    total = 0;
    flags = items_on_heap;
  }

  -- A valid ring, and a counter that agrees with its offsets.
  pub record IsSound (q : CfQueue A) : Type 0 where
    pub valid : IsValid (ring q)
    pub counted : q.n_eles ≡ held (ring q)

  -- The elements from the head to the tail.
  abbrev pub elements_of : CfQueue A → List (Option A)
  elements_of q = contents (ring q)

  pub held_length : (q : CfQueue A) → held (ring q) ≡ length (elements_of q)
  held_length q = sym (length-window (slots q) q.alloc_sz q.read_offset (held (ring q)))

  pub counted_length : (q : CfQueue A) → IsSound q → q.n_eles ≡ length (elements_of q)
  counted_length q v = v.counted ∙ held_length q

  pub counted-IsSound :
      (q : CfQueue A) → IsValid (ring q) → q.n_eles ≡ length (elements_of q) → IsSound q
  counted-IsSound q valid e = record { valid = valid; counted = e ∙ sym (held_length q) }

  pub n_eles-count_element : (q : CfQueue A) → (count_element q).n_eles ≡ add32 q.n_eles 1
  unfolding count_element cf_queue_unwrap
  n_eles-count_element q = ground arith

  n_eles-append_element : (q : CfQueue A) (x : A) → (append_element q x).n_eles ≡ q.n_eles
  unfolding append_element put_element
  n_eles-append_element q x = refl

  n_eles-prepend_element : (q : CfQueue A) (x : A) → (prepend_element q x).n_eles ≡ q.n_eles
  unfolding prepend_element put_element lift_offsets
  n_eles-prepend_element q x = refl

  -- A count below a capacity takes one more.
  pub one_more :
      (q : CfQueue A) (n : ℕ)
      → IsSound q
      → held (ring q) < q.alloc_sz
      → n ≡ q.n_eles
      → add32 n 1 ≡ held (ring q) + 1
  one_more q n v room e = omega (arith, v.counted, v.valid.small)

  pub ring-count_element : (q : CfQueue A) → ring (count_element q) ≡ as_queue_unwrap (ring q)
  unfolding count_element cf_queue_unwrap as_queue_unwrap cf_q_sz as_queue_size
  ring-count_element q = ground arith

  pub ring-append :
      (q : CfQueue A) (x : A) → ring (count_element (append_element q x)) ≡ push_tail (ring q) x
  unfolding count_element append_element push_tail put_item put_element cf_q_elem as_queue_get
      cf_queue_unwrap as_queue_unwrap cf_q_sz as_queue_size
  ring-append q x = ground arith

  pub ring-prepend :
      (q : CfQueue A) (x : A) → ring (count_element (prepend_element q x)) ≡ push_front (ring q) x
  unfolding count_element prepend_element push_front put_item put_element cf_q_elem as_queue_get
      cf_queue_unwrap as_queue_unwrap cf_q_sz as_queue_size lift_offsets
  ring-prepend q x = ground arith

  abbrev pub view : Bool × CfQueue A → Bool × Queue A
  view r = (r.0, ring r.1)

  module _ (memory : Memory A) (q : CfQueue A) where
    -- Growing a queue whose bytes stay below 2^32 is growing its ring.
    ring-cf_queue_resize :
        (n : ℕ)
        → n ≡ q.alloc_sz * 2 % 2 ^ 32
        → n * q.element_sz < 2 ^ 32
        → view (cf_queue_resize memory q n) ≡ as_queue_increase_capacity memory (ring q)
    unfolding cf_queue_resize as_queue_increase_capacity as_queue_realloc as_queue_copy
    ring-cf_queue_resize n e small =
        rw (← e, bytes n q.element_sz small)
          (elim (Bool-cases (q.read_offset % q.alloc_sz == 0)) [
            | inl at_start ↦
                elim (Option-cases (memory.realloc (slots q) (n * q.element_sz % 2 ^ 32))) [
                  | inl null ↦ ground (arith, e, at_start, null)
                  | inr (d, given) ↦ ground (arith, e, at_start, given)
                ]
            | inr later ↦ elim (Option-cases (memory.malloc (n * q.element_sz % 2 ^ 32))) [
              | inl null ↦ ground (arith, e, later, null)
              | inr (d, given) ↦ ground (arith, e, later, given)
            ]
          ])

    pub ring-make_room :
        IsGrowable (ring q) → view (make_room memory q) ≡ ensure_room memory (ring q)
    unfolding make_room ensure_room cf_q_sz as_queue_size
    ring-make_room g = elim (Bool-cases (sub32 q.write_offset q.read_offset == q.alloc_sz)) [
      | inl full ↦ rw full (ring-cf_queue_resize (q.alloc_sz * 2 % 2 ^ 32) refl (small g))
      | inr room ↦ rw room refl
    ]
      where
        small : IsGrowable (ring q) → q.alloc_sz * 2 % 2 ^ 32 * q.element_sz < 2 ^ 32
        small g =
            let same : q.alloc_sz * 2 % 2 ^ 32 ≡ q.alloc_sz * 2 = omega (arith, g.items_fit) in
            rw same g.bytes_fit

    n_eles-cf_queue_resize : (n : ℕ) → (cf_queue_resize memory q n).1.n_eles ≡ q.n_eles
    unfolding cf_queue_resize
    n_eles-cf_queue_resize n = ground arith

    n_eles-make_room : (make_room memory q).1.n_eles ≡ q.n_eles
    unfolding make_room
    n_eles-make_room = ground (arith, n_eles-cf_queue_resize (q.alloc_sz * 2 % 2 ^ 32))

    -- Room for another element, with those that are there.
    pub make_room-IsSound :
        IsMemory memory q.element_sz
        → IsSound q
        → IsGrowable (ring q)
        → (make_room memory q).0 ≡ true
        → let q' = (make_room memory q).1 in
          IsSound q' × (elements_of q' ≡ elements_of q) × (held (ring q') < q'.alloc_sz)
    make_room-IsSound law v g done =
        let (valid, kept, room) = grown in
        (
          counted-IsSound (make_room memory q).1 valid
              (n_eles-make_room ∙ counted_length q v ∙ sym (ap length kept)),
          kept,
          room,
        )
      where
        grown : Grown (ring q) (view (make_room memory q))
        grown = subst (Grown (ring q)) (sym (ring-make_room g)) (
            ensure_room-Grown memory (ring q) law v.valid g
              (ap (λ r. r.0) (sym (ring-make_room g)) ∙ done))

  -- An element behind the others, and before them.
  pub append-IsSound :
      (q : CfQueue A) (x : A)
      → IsSound q
      → held (ring q) < q.alloc_sz
      → let q' = count_element (append_element q x) in
        IsSound q' × (elements_of q' ≡ elements_of q ++ (some x ∷ []))
  append-IsSound q x v room = (
    counted-IsSound q' valid (
        n_eles-count_element (append_element q x)
        ∙ one_more q _ v room (n_eles-append_element q x)
        ∙ ap (λ n. n + 1) (held_length q)
        ∙ sym (length-append (elements_of q) (some x ∷ []))
        ∙ sym (ap length listed)),
    listed,
  )
    where
      q' : CfQueue A
      q' = count_element (append_element q x)

      valid : IsValid (ring q')
      valid = rw (ring-append q x) (push_tail-IsValid (ring q) x v.valid room)

      listed : elements_of q' ≡ elements_of q ++ (some x ∷ [])
      listed = ap contents (ring-append q x) ∙ contents-push_tail (ring q) x v.valid room

  pub prepend-IsSound :
      (q : CfQueue A) (x : A)
      → IsSound q
      → held (ring q) < q.alloc_sz
      → let q' = count_element (prepend_element q x) in
        IsSound q' × (elements_of q' ≡ some x ∷ elements_of q)
  prepend-IsSound q x v room = (
    counted-IsSound q' valid (
        n_eles-count_element (prepend_element q x)
        ∙ one_more q _ v room (n_eles-prepend_element q x)
        ∙ ap (λ n. n + 1) (held_length q)
        ∙ add_one _
        ∙ sym (ap length listed)),
    listed,
  )
    where
      add_one : (n : ℕ) → n + 1 ≡ suc n
      add_one n = omega arith

      q' : CfQueue A
      q' = count_element (prepend_element q x)

      valid : IsValid (ring q')
      valid = rw (ring-prepend q x) (push_front-IsValid (ring q) x v.valid room)

      listed : elements_of q' ≡ some x ∷ elements_of q
      listed = ap contents (ring-prepend q x) ∙ contents-push_front (ring q) x v.valid room

  -- A count and an unwrapping after a move of the offsets, which may have reached 2^31.
  pub count_element-IsSound :
      (q : CfQueue A) (n : ℕ)
      → IsRaw (ring q)
      → n < 2 ^ 30
      → q.n_eles ≡ n
      → length (elements_of q) ≡ n + 1
      → IsSound (count_element q) × (elements_of (count_element q) ≡ elements_of q)
  count_element-IsSound q n raw small e f = (
    counted-IsSound (count_element q)
        (rw (ring-count_element q) (as_queue_unwrap-IsValid (ring q) raw))
        (n_eles-count_element q ∙ omega (arith, e, f, small) ∙ sym (ap length kept)),
    kept,
  )
    where
      kept : elements_of (count_element q) ≡ elements_of q
      kept = ap contents (ring-count_element q) ∙ contents-as_queue_unwrap (ring q) raw
