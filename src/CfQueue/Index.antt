-- ===== src/CfQueue/Index.antt =====
-- `cf_queue_push_index` against insertion into a list.
use aerospike_common.Common.{ℕ, ◌+◌, ◌-◌, ◌/◌, ◌%◌, ◌^◌, ◌≤◌, ◌<◌, ◌≡◌, refl, sym, ap, ◌∙◌, arith}
use aerospike_common.Common.{List, ◌∷◌, [], ◌++◌, Option, some, Bool-cases, Option-cases, inl, inr}
use aerospike_common.Common.{
  add32, ltb, leb, length, take, drop, length-set, length-append, length-take, length-drop,
}
use aerospike_common.Memory.{Memory, IsMemory}
use aerospike_common.Ring.{window_split, take_le, drop_le, window-congr}
use aerospike_common.Queue.Contents.{IsRaw, held, front_index, front_steps}
use aerospike_common.Queue.Refine.{IsGrowable}
use aerospike_common.CfQueue.{
  CfQueue, make_room, count_element, lift_offsets, cf_q_sz, cf_q_elem, cf_queue_ok,
}
use aerospike_common.CfQueue.Ring.{
  ring, IsSound, elements_of, make_room-IsSound, append-IsSound, count_element-IsSound, held_length,
}
use aerospike_common.CfQueue.Shift.{length-shift_up, length-shift_down, shift_up, shift_down}
use aerospike_common.CfQueue.Insert.{
  insert_up, insert_down, cf_queue_push_index, window-up, window-down,
}
use aerospike_common.CfQueue.Push.{Holds, size_lem}

module _ {ℓ} {A : Type ℓ} where
  abbrev pub insert_at : ℕ → A → List (Option A) → List (Option A)
  insert_at ix x c = take ix c ++ (some x ∷ drop ix c)

  module _ (q : CfQueue A) (x : A) (ix : ℕ) (v : IsSound q) (room : held (ring q) < q.alloc_sz)
      (some_tail : ix < held (ring q)) where
    stored_of : (d : List A) → q.elements ≡ some d → length d ≡ q.alloc_sz
    stored_of d block = ground (arith, v.valid.stored)

    insert_up-IsRaw : IsRaw (ring (insert_up q x ix))
    unfolding insert_up
    insert_up-IsRaw = elim (Option-cases q.elements) [
      | inl null ↦ absurd (ground (arith, v.valid.stored))
      | inr (d, block) ↦
          let wp : ℕ = cf_q_elem q (add32 q.read_offset ix) in
          let tp : ℕ = cf_q_elem q q.write_offset in
          ground (
            arith,
            v,
            v.valid,
            block,
            stored_of d block,
            length-set (shift_up q.alloc_sz wp tp d) wp x,
            length-shift_up d q.alloc_sz wp tp,
          )
    ]

    elements_of-insert_up : elements_of (insert_up q x ix) ≡ insert_at ix x (elements_of q)
    unfolding insert_up cf_q_elem
    elements_of-insert_up = elim (Option-cases q.elements) [
      | inl null ↦ absurd (ground (arith, v.valid.stored))
      | inr (d, block) ↦
          let n : ℕ = held (ring q) in
          let more : (q.write_offset + 1) % 2 ^ 32 - q.read_offset ≡ n + 1 =
            omega (arith, v.valid.order, v.valid.bound) in
          let place : q.write_offset ≡ q.read_offset + n = omega (arith, v.valid.order) in
          let slot : (q.read_offset + ix) % 2 ^ 32 ≡ q.read_offset + ix =
            omega (arith, v.valid.order, v.valid.bound) in
          let (first, rest) = window_split d q.alloc_sz q.read_offset n ix (omega arith) in
          ground (
            arith,
            more,
            place,
            slot,
            first,
            rest,
            window-up d q.alloc_sz q.read_offset n ix x (stored_of d block) room some_tail,
          )
    ]

    abbrev front : ℕ
    front = front_index q.read_offset q.alloc_sz

    insert_down-IsRaw : IsRaw (ring (insert_down q x ix))
    unfolding insert_down lift_offsets
    insert_down-IsRaw = elim (Option-cases q.elements) [
      | inl null ↦ absurd (ground (arith, v.valid.stored))
      | inr (d, block) ↦
          let wp : ℕ = cf_q_elem q (add32 front ix) in
          let hp : ℕ = cf_q_elem q front in
          ground (
            arith,
            v,
            v.valid,
            block,
            stored_of d block,
            length-set (shift_down q.alloc_sz wp hp d) wp x,
            length-shift_down d q.alloc_sz wp hp,
          )
    ]

    elements_of-insert_down : elements_of (insert_down q x ix) ≡ insert_at ix x (elements_of q)
    unfolding insert_down cf_q_elem lift_offsets
    elements_of-insert_down = elim (Option-cases q.elements) [
      | inl null ↦ absurd (ground (arith, v.valid.stored))
      | inr (d, block) ↦
          let n : ℕ = held (ring q) in
          let (more, forth) =
            front_steps q.read_offset q.write_offset q.alloc_sz v.valid.order v.valid.small
              v.valid.bound v.valid.some_slot in
          let slot : (front + ix) % 2 ^ 32 ≡ front + ix = ground (arith, v.valid, some_tail) in
          let (first, rest) = window_split d q.alloc_sz (front + 1) n ix (omega arith) in
          ground (
            arith,
            more,
            slot,
            first,
            rest,
            window-congr d q.alloc_sz (front + 1) q.read_offset n forth,
            window-down d q.alloc_sz front n ix x (stored_of d block) room some_tail,
          )
    ]

    length-insert_at : length (insert_at ix x (elements_of q)) ≡ held (ring q) + 1
    length-insert_at = omega (
      arith,
      held_length q,
      length-append (take ix (elements_of q)) (some x ∷ drop ix (elements_of q)),
      length-take ix (elements_of q),
      length-drop ix (elements_of q),
    )

    insert_up-Holds : Holds (count_element (insert_up q x ix)) (insert_at ix x (elements_of q))
    unfolding insert_up
    insert_up-Holds =
        let (sound, kept) =
          count_element-IsSound (insert_up q x ix) (held (ring q)) insert_up-IsRaw
            (omega (arith, v.valid.small)) v.counted
            (ap length elements_of-insert_up ∙ length-insert_at) in
        (sound, kept ∙ elements_of-insert_up)

    insert_down-Holds : Holds (count_element (insert_down q x ix)) (insert_at ix x (elements_of q))
    unfolding insert_down lift_offsets
    insert_down-Holds =
        let (sound, kept) =
          count_element-IsSound (insert_down q x ix) (held (ring q)) insert_down-IsRaw
            (omega (arith, v.valid.small)) v.counted
            (ap length elements_of-insert_down ∙ length-insert_at) in
        (sound, kept ∙ elements_of-insert_down)

  -- Behind the last element, an insertion is an append.
  past_end :
      (c : List (Option A)) (ix : ℕ) (x : A) → length c ≤ ix → insert_at ix x c ≡ c ++ (some x ∷ [])
  past_end c ix x le = rw (take_le ix c le, drop_le ix c le) refl

  -- A successful `cf_queue_push_index` on a sound queue, while twice its capacity is at most 2^30
  -- elements and fewer than 2^32 bytes, elements have at least a byte, and `malloc` and `realloc`
  -- give blocks of the size they are asked for, `realloc` with what was there, with or without
  -- growth, at any index and whichever side moves, puts its element before the element of that
  -- index, or behind all of them if there is none, and keeps the queue sound.
  pub cf_queue_push_index_lem :
      (memory : Memory A) (q : CfQueue A) (x : A) (ix : ℕ)
      → IsMemory memory q.element_sz
      → IsSound q
      → IsGrowable (ring q)
      → (cf_queue_push_index memory q x ix).0 ≡ cf_queue_ok
      → Holds (cf_queue_push_index memory q x ix).1 (insert_at ix x (elements_of q))
  unfolding cf_queue_push_index
  cf_queue_push_index_lem memory q x ix law v g done = elim (Bool-cases (make_room memory q).0) [
    | inr failed ↦ absurd (ground arith)
    | inl made ↦
        let q' = (make_room memory q).1 in
        let (v', kept, room) = make_room-IsSound memory q law v g made in
        let size : cf_q_sz q ≡ length (elements_of q) = size_lem q v in
        let same : held (ring q') ≡ length (elements_of q) = held_length q' ∙ ap length kept in
        elim (Bool-cases (leb (cf_q_sz q) ix)) [
          | inl behind ↦
              let (sound, listed) = append-IsSound q' x v' room in
              rw (made, behind)
                (
                  sound,
                  listed
                      ∙ ap (λ c. c ++ (some x ∷ [])) kept
                      ∙ sym (past_end (elements_of q) ix x (ground (arith, size))),
                )
          | inr inside ↦ elim (Bool-cases (ltb (cf_q_sz q / 2) ix)) [
            | inl near_tail ↦
                let (sound, listed) =
                  insert_up-Holds q' x ix v' room (ground (arith, size, same)) in
                rw (made, inside, near_tail) (sound, listed ∙ ap (insert_at ix x) kept)
            | inr near_head ↦
                let (sound, listed) =
                  insert_down-Holds q' x ix v' room (ground (arith, size, same)) in
                rw (made, inside, near_head) (sound, listed ∙ ap (insert_at ix x) kept)
          ]
        ]
  ]
