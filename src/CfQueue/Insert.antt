-- ===== src/CfQueue/Insert.antt =====
-- `cf_queue_push_index`: an element at an index, after the elements on its nearer side have moved.
use aerospike_common.Common.{ℕ, suc, ◌+◌, ◌-◌, ◌/◌, ◌%◌, ◌≤◌, ◌<◌, ◌≡◌, ◌≢◌, ap, ap₂, ◌∙◌, arith, ℤ}
use aerospike_common.Common.{List, ◌∷◌, ◌++◌, some}
use aerospike_common.Common.{
  add32, ltb, leb, if◌then◌else◌, length, set, get_elem?, get_elem?-set_ne, get_elem?-set_self,
}
use aerospike_common.Memory.{Memory}
use aerospike_common.Ring.{window, window-add, window_pointwise, slot-wrap, wrap, mod-ne_of_ne}
use aerospike_common.CfQueue.{
  CfQueue, change, make_room, count_element, append_element, put_element, lift_offsets, cf_q_sz,
  cf_q_elem, cf_queue_ok, cf_queue_err,
}
use aerospike_common.CfQueue.Shift.{
  shift_up, shift_down, origin_up, origin_down, origin_up_behind, origin_up_before,
  origin_down_before, origin_down_behind, get_elem?-shift_up, get_elem?-shift_down, length-shift_up,
  length-shift_down,
}

later : (s ix i : ℕ) → s + ix + 1 + i ≡ s + suc (ix + i)
later s ix i = omega arith

further : (t ix i : ℕ) → t + (ix + i) ≡ t + ix + i
further t ix i = omega arith

module _ {ℓ} {A : Type ℓ} where
  -- The tail's side, and the head's.
  unfoldable pub insert_up : CfQueue A → A → ℕ → CfQueue A
  unfolding cf_q_elem shift_up put_element
  insert_up q x ix =
      let wp : ℕ = cf_q_elem q (add32 q.read_offset ix) in
      let tp : ℕ = cf_q_elem q q.write_offset in
      let q' = change q (λ d. set (shift_up q.alloc_sz wp tp d) wp x) in
      record q' { write_offset = add32 q.write_offset 1 }

  unfoldable pub insert_down : CfQueue A → A → ℕ → CfQueue A
  unfolding cf_q_elem shift_down lift_offsets
  insert_down q x ix =
      let lifted = lift_offsets q in
      let wp : ℕ = cf_q_elem q (add32 lifted.read_offset ix) in
      let hp : ℕ = cf_q_elem q lifted.read_offset in
      change lifted (λ d. set (shift_down q.alloc_sz wp hp d) wp x)

  unfoldable pub cf_queue_push_index : Memory A → CfQueue A → A → ℕ → ℤ × CfQueue A
  unfolding make_room append_element count_element cf_q_sz
  cf_queue_push_index memory q x ix =
      let size = cf_q_sz q in
      let (done, q') = make_room memory q in
      if done
      then (
        cf_queue_ok,
        count_element (
            if leb size ix
            then append_element q' x
            else if ltb (size / 2) ix
            then insert_up q' x ix
            else insert_down q' x ix),
      )
      else (cf_queue_err, q')

  -- An array whose slot for `s + ix` holds the new element, and whose others show the old ones.
  inserted :
      (d e : List A) (capacity s t n ix : ℕ) (x : A)
      → ix ≤ n
      → get_elem? e ((s + ix) % capacity) ≡ some x
      → ((i : ℕ) → i < ix → get_elem? e ((s + i) % capacity) ≡ get_elem? d ((t + i) % capacity))
      → ((i : ℕ)
          → i < n - ix
          → get_elem? e ((s + suc (ix + i)) % capacity) ≡ get_elem? d ((t + (ix + i)) % capacity))
      → window e capacity s (n + 1)
        ≡ window d capacity t ix ++ (some x ∷ window d capacity (t + ix) (n - ix))
  inserted d e capacity s t n ix x le at before behind =
      ap (window e capacity s) (let split : n + 1 ≡ ix + suc (n - ix) = omega arith in split)
      ∙ window-add e capacity s ix (suc (n - ix))
      ∙ ap₂ ◌++◌ (window_pointwise e d capacity s t ix before) (
          ap₂ ◌∷◌ at (
            window_pointwise e d capacity (s + ix + 1) (t + ix) (n - ix) (λ i lt.
              ap (λ k. get_elem? e (k % capacity)) (later s ix i)
              ∙ behind i lt
              ∙ ap (λ k. get_elem? d (k % capacity)) (further t ix i))))

  module _ (d : List A) (capacity h n ix : ℕ) (x : A) (stored : length d ≡ capacity)
      (room : n < capacity) (some_tail : ix < n) where
    some_slot : 0 < capacity
    some_slot = omega arith

    abbrev pub wp : ℕ
    wp = (h + ix) % capacity

    abbrev pub tp : ℕ
    tp = (h + n) % capacity

    inside : (k : ℕ) → k % capacity < capacity
    inside k = omega (arith, some_slot)

    abbrev pub up : List A
    up = set (shift_up capacity wp tp d) wp x

    shown_up :
        (k : ℕ)
        → k ≤ n
        → k ≢ ix
        → get_elem? up ((h + k) % capacity)
          ≡ get_elem? d (origin_up capacity wp tp ((h + k) % capacity))
    shown_up k le ne =
        get_elem?-set_ne (shift_up capacity wp tp d) wp ((h + k) % capacity) x
          (mod-ne_of_ne capacity h ix k (omega arith) (omega arith) ne)
        ∙ get_elem?-shift_up d capacity wp stored (inside _) tp ((h + k) % capacity) (inside _)

    from_slots :
        (k j : ℕ)
        → k ≤ n
        → j ≤ n
        → origin_up capacity
            (wrap capacity (h % capacity + ix))
            (wrap capacity (h % capacity + n))
            (wrap capacity (h % capacity + k))
          ≡ wrap capacity (h % capacity + j)
        → origin_up capacity wp tp ((h + k) % capacity) ≡ (h + j) % capacity
    from_slots k j k_near j_near e =
        rw
          (
            slot-wrap capacity h ix some_slot (omega arith),
            slot-wrap capacity h n some_slot (omega arith),
            slot-wrap capacity h k some_slot (omega arith),
            slot-wrap capacity h j some_slot (omega arith),
          )
          e

    pub window-up :
        window up capacity h (n + 1)
        ≡ window d capacity h ix ++ (some x ∷ window d capacity (h + ix) (n - ix))
    window-up =
        inserted d up capacity h h n ix x (omega arith)
          (get_elem?-set_self (shift_up capacity wp tp d) wp x
            (omega (arith, inside (h + ix), length-shift_up d capacity wp tp, stored)))
          (λ i lt.
            shown_up i (omega arith) (omega arith)
            ∙ ap (get_elem? d) (
                from_slots i i (omega arith) (omega arith)
                  (origin_up_before capacity (h % capacity) ix n i (inside h) some_tail room lt)))
          (λ i lt.
            shown_up (suc (ix + i)) (omega arith) (omega arith)
            ∙ ap (get_elem? d) (
                from_slots (suc (ix + i)) (ix + i) (omega arith) (omega arith)
                  (origin_up_behind capacity (h % capacity) ix n i (inside h) some_tail room lt)))

    -- The same with the head's side moved, for a head one slot before `g + 1`.
    abbrev pub hp : ℕ
    hp = h % capacity

    abbrev pub down : List A
    down = set (shift_down capacity wp hp d) wp x

    shown_down :
        (k : ℕ)
        → k ≤ n
        → k ≢ ix
        → get_elem? down ((h + k) % capacity)
          ≡ get_elem? d (origin_down capacity wp hp ((h + k) % capacity))
    shown_down k le ne =
        get_elem?-set_ne (shift_down capacity wp hp d) wp ((h + k) % capacity) x
          (mod-ne_of_ne capacity h ix k (omega arith) (omega arith) ne)
        ∙ get_elem?-shift_down d capacity wp stored (inside _) hp ((h + k) % capacity) (inside _)

    from_slots_down :
        (k j : ℕ)
        → k ≤ n
        → j ≤ n
        → origin_down capacity (wrap capacity (hp + ix)) hp (wrap capacity (hp + k))
          ≡ wrap capacity (hp + j)
        → origin_down capacity wp hp ((h + k) % capacity) ≡ (h + j) % capacity
    from_slots_down k j k_near j_near e =
        rw
          (
            slot-wrap capacity h ix some_slot (omega arith),
            slot-wrap capacity h k some_slot (omega arith),
            slot-wrap capacity h j some_slot (omega arith),
          )
          e

    step_on : (k : ℕ) → (h + suc k) % capacity ≡ (h + 1 + k) % capacity
    step_on k = ap (λ m. m % capacity) (let e : h + suc k ≡ h + 1 + k = omega arith in e)

    pub window-down :
        window down capacity h (n + 1)
        ≡ window d capacity (h + 1) ix ++ (some x ∷ window d capacity (h + 1 + ix) (n - ix))
    window-down =
        inserted d down capacity h (h + 1) n ix x (omega arith)
          (get_elem?-set_self (shift_down capacity wp hp d) wp x
            (omega (arith, inside (h + ix), length-shift_down d capacity wp hp, stored)))
          (λ i lt.
            shown_down i (omega arith) (omega arith)
            ∙ ap (get_elem? d) (
                from_slots_down i (suc i) (omega arith) (omega arith)
                  (origin_down_before capacity hp ix n i (inside h) some_tail room lt)
                ∙ step_on i))
          (λ i lt.
            shown_down (suc (ix + i)) (omega arith) (omega arith)
            ∙ ap (get_elem? d) (
                from_slots_down (suc (ix + i)) (suc (ix + i)) (omega arith) (omega arith) (
                  origin_down_behind capacity hp ix n (suc (ix + i)) (inside h) some_tail room
                    (omega arith) (omega arith))
                ∙ step_on (ix + i)))
