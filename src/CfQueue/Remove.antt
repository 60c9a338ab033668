-- ===== src/CfQueue/Remove.antt =====
-- `cf_queue_delete_offset` against removal from a list.
use aerospike_common.Common.{ℕ, suc, ◌+◌, ◌-◌, ◌%◌, ◌^◌, ◌≤◌, ◌<◌, ◌≡◌, refl, sym, ap, ◌∙◌, arith}
use aerospike_common.Common.{
  List, ◌++◌, append-nil, Option, some, true, Bool-cases, Option-cases, inl, inr,
}
use aerospike_common.Common.{
  add32, sub32, ltb, ◌==◌, ==→eq, ltb→lt, not, ◌&&◌, length, take, drop, memmove, length-memmove,
  length-append, length-take, length-drop,
}
use aerospike_common.Ring.{window, window_split, slot-wrap, wrap, drop_le}
use aerospike_common.Queue.Contents.{IsValid, held}
use aerospike_common.CfQueue.{CfQueue}
use aerospike_common.CfQueue.Ring.{ring, IsSound, elements_of, counted-IsSound, held_length}
use aerospike_common.CfQueue.Push.{Holds}
use aerospike_common.CfQueue.Delete.{
  cf_queue_delete_offset, remove_at, is_first, is_last, is_high, is_low, removed_up, removed_down,
}

module _ {ℓ} {A : Type ℓ} where
  module _ (q : CfQueue A) (k : ℕ) (v : IsSound q) (some_one : k < held (ring q)) where
    n : ℕ
    n = held (ring q)

    -- One element fewer, with the head or the tail moved, in an array `e`.
    abbrev head_moved : Option (List A) → CfQueue A
    head_moved e = record q {
      n_eles = sub32 q.n_eles 1;
      elements = e;
      read_offset = add32 q.read_offset 1;
    }

    abbrev tail_moved : Option (List A) → CfQueue A
    tail_moved e = record q {
      n_eles = sub32 q.n_eles 1;
      elements = e;
      write_offset = sub32 q.write_offset 1;
    }

    length-remove_at : length (remove_at k (elements_of q)) ≡ held (ring q) - 1
    length-remove_at = omega (
      arith,
      some_one,
      held_length q,
      length-append (take k (elements_of q)) (drop (suc k) (elements_of q)),
      length-take k (elements_of q),
      length-drop (suc k) (elements_of q),
    )

    fewer : sub32 q.n_eles 1 ≡ length (remove_at k (elements_of q))
    fewer = omega (arith, v.counted, v.valid.small, v.valid.fits, some_one, length-remove_at)

    head_moved-Holds :
        (d : List A)
        → length d ≡ q.alloc_sz
        → window d q.alloc_sz (q.read_offset + 1) (held (ring q) - 1) ≡ remove_at k (elements_of q)
        → Holds (head_moved (some d)) (remove_at k (elements_of q))
    head_moved-Holds d stored e =
        (counted-IsSound (head_moved (some d)) valid (fewer ∙ sym (ap length listed)), listed)
      where
        valid : IsValid (ring (head_moved (some d)))
        valid = ground (arith, v, v.valid, some_one)

        listed : elements_of (head_moved (some d)) ≡ remove_at k (elements_of q)
        listed =
            let moved : (q.read_offset + 1) % 2 ^ 32 ≡ q.read_offset + 1 =
              omega (arith, v.valid.order, v.valid.bound) in
            let less : q.write_offset - (q.read_offset + 1) ≡ held (ring q) - 1 = omega arith in
            rw (moved, less) e

    tail_moved-Holds :
        (d : List A)
        → length d ≡ q.alloc_sz
        → window d q.alloc_sz q.read_offset (held (ring q) - 1) ≡ remove_at k (elements_of q)
        → Holds (tail_moved (some d)) (remove_at k (elements_of q))
    tail_moved-Holds d stored e =
        (counted-IsSound (tail_moved (some d)) valid (fewer ∙ sym (ap length listed)), listed)
      where
        valid : IsValid (ring (tail_moved (some d)))
        valid = ground (arith, v, v.valid, some_one)

        listed : elements_of (tail_moved (some d)) ≡ remove_at k (elements_of q)
        listed =
            let less : sub32 q.write_offset 1 - q.read_offset ≡ held (ring q) - 1 =
              omega (arith, v.valid.order, v.valid.bound, some_one) in
            rw less e

    to :
        {q' : CfQueue A} {c : List (Option A)}
        → remove_at k (elements_of q) ≡ c
        → Holds q' (remove_at k (elements_of q))
        → Holds q' c
    to e (sound, listed) = (sound, listed ∙ e)

    module _ (d : List A) (block : q.elements ≡ some d) where
      stored : length d ≡ q.alloc_sz
      stored = ground (arith, v.valid.stored)

      shown : window d q.alloc_sz q.read_offset (held (ring q)) ≡ elements_of q
      shown = rw block refl

      drop_first :
          k ≡ 0
          → window d q.alloc_sz (q.read_offset + 1) (held (ring q) - 1)
            ≡ remove_at k (elements_of q)
      drop_first e =
          (window_split d q.alloc_sz q.read_offset (held (ring q)) 1 (omega arith)).1
          ∙ ap (drop 1) shown
          ∙ sym (ap (λ j. remove_at j (elements_of q)) e)

      drop_last :
          k ≡ held (ring q) - 1
          → window d q.alloc_sz q.read_offset (held (ring q) - 1) ≡ remove_at k (elements_of q)
      drop_last e =
          ap (window d q.alloc_sz q.read_offset) (sym e)
          ∙ (window_split d q.alloc_sz q.read_offset (held (ring q)) k (omega arith)).0
          ∙ ap (take k) shown
          ∙ sym (append-nil (take k (elements_of q)))
          ∙ ap (◌++◌ (take k (elements_of q)))
              (sym (drop_le (suc k) (elements_of q) (omega (arith, held_length q))))

      index_slot :
          (q.read_offset + k) % q.alloc_sz ≡ wrap q.alloc_sz (q.read_offset % q.alloc_sz + k)
      index_slot =
          slot-wrap q.alloc_sz q.read_offset k v.valid.some_slot (omega (arith, v.valid.fits))

      tail_slot :
          q.write_offset % q.alloc_sz ≡ wrap q.alloc_sz (q.read_offset % q.alloc_sz + held (ring q))
      tail_slot =
          ap (λ w. w % q.alloc_sz)
            (let e : q.write_offset ≡ q.read_offset + held (ring q) =
                omega (arith, v.valid.order) in
              e)
          ∙ slot-wrap q.alloc_sz q.read_offset (held (ring q)) v.valid.some_slot
              (omega (arith, v.valid.fits))

      deleted :
          (c : List (Option A))
          → remove_at k (elements_of q) ≡ c
          → Holds (cf_queue_delete_offset q (q.read_offset + k)) c
      unfolding cf_queue_delete_offset
      deleted c e =
          let h : ℕ = q.read_offset % q.alloc_sz in
          let inside : h < q.alloc_sz = omega (arith, v.valid.some_slot) in
          let fits : held (ring q) ≤ q.alloc_sz = omega (arith, v.valid.fits) in
          let index : ℕ = wrap q.alloc_sz (h + k) in
          let w_index : ℕ = wrap q.alloc_sz (h + held (ring q)) in
          rw (block, index_slot, tail_slot)
            (elim (Bool-cases (index == h)) [
              | inl first ↦
                  let zero : k ≡ 0 =
                    is_first q.alloc_sz h (held (ring q)) k 0 inside fits some_one
                      (==→eq _ _ first) in
                  rw first (to e (head_moved-Holds d stored (drop_first zero)))
              | inr later ↦ elim (Bool-cases (not (w_index == 0) && (index == w_index - 1))) [
                | inl last ↦
                    let at_end : k ≡ held (ring q) - 1 =
                      is_last q.alloc_sz h (held (ring q)) k 0 inside fits some_one (ground arith)
                        (ground arith) in
                    rw (later, last) (to e (tail_moved-Holds d stored (drop_last at_end)))
                | inr middle ↦ elim (Bool-cases (ltb h index)) [
                  | inl high ↦
                      let (straight, place) =
                        is_high q.alloc_sz h (held (ring q)) k 0 inside fits some_one
                          (ltb→lt _ _ high) in
                      let back : index - h ≡ k = omega arith in
                      rw (later, middle, high, back)
                        (to e (
                          head_moved-Holds (memmove d (h + 1) h k)
                            (length-memmove d (h + 1) h k ∙ stored)
                            (removed_up d q.alloc_sz q.read_offset (held (ring q)) k stored
                                v.valid.some_slot fits some_one straight
                              ∙ ap (remove_at k) shown)))
                  | inr low ↦
                      let (turned, place, w_place, less) =
                        is_low q.alloc_sz h (held (ring q)) k 0 inside fits some_one (ground arith)
                          (ground arith) in
                      let before : ltb index w_index ≡ true = ground arith in
                      let g : ℕ = h + k - q.alloc_sz in
                      let m : ℕ = h + held (ring q) - q.alloc_sz - g - 1 in
                      rw (later, middle, low, before, place, w_place)
                        (to e (
                          tail_moved-Holds (memmove d g (g + 1) m)
                            (length-memmove d g (g + 1) m ∙ stored)
                            (removed_down d q.alloc_sz q.read_offset (held (ring q)) k stored
                                v.valid.some_slot fits some_one turned
                              ∙ ap (remove_at k) shown)))
                ]
              ]
            ])

  -- `cf_queue_delete_offset` of a sound queue, at the offset of the element number `k`, takes that
  -- element out, whichever side it moves, and keeps the queue sound.
  pub cf_queue_delete_offset_lem :
      (q : CfQueue A) (k : ℕ)
      → IsSound q
      → k < held (ring q)
      → Holds (cf_queue_delete_offset q (q.read_offset + k)) (remove_at k (elements_of q))
  cf_queue_delete_offset_lem q k v some_one = elim (Option-cases q.elements) [
    | inl null ↦ absurd (ground (arith, v.valid.stored))
    | inr (d, block) ↦ deleted q k v some_one d block (remove_at k (elements_of q)) refl
  ]
