-- ===== src/CfQueue/Delete.antt =====
-- `cf_queue_delete_offset`: an element taken out of the middle, by moving the elements on one side.
use aerospike_common.Common.{ℕ, suc, ◌+◌, ◌-◌, ◌%◌, ◌≤◌, ◌<◌, ◌≡◌, ◌≢◌, sym, ap, ap₂, ◌∙◌, arith}
use aerospike_common.Common.{List, ◌++◌, Option}
use aerospike_common.Common.{
  add32, sub32, ltb, if◌then◌else◌, ◌==◌, not, ◌&&◌, length, get_elem?, take, drop, memmove, origin,
  get_elem?-memmove,
}
use aerospike_common.Ring.{window, window-add, window_pointwise, window_split, slot-wrap, wrap}
use aerospike_common.CfQueue.{CfQueue, change}

module _ (capacity h n k i : ℕ) (inside : h < capacity) (fits : n ≤ capacity)
    (some_one : k < n) where
  -- Where the elements come from, slot by slot, when the head's side moves up.
  head_before :
      h + k < capacity
      → i < k
      → origin (h + 1) h k (wrap capacity (h + suc i)) ≡ wrap capacity (h + i)
  unfolding wrap
  head_before straight lt = ground arith

  head_behind :
      h + k < capacity
      → i < n - suc k
      → origin (h + 1) h k (wrap capacity (h + suc (k + i))) ≡ wrap capacity (h + suc (k + i))
  unfolding wrap
  head_behind straight lt = ground arith

  -- When the tail's side moves down.
  abbrev pub gap : ℕ
  gap = h + k - capacity

  abbrev rest : ℕ
  rest = h + n - capacity - gap - 1

  tail_before :
      capacity ≤ h + k
      → i < k
      → origin gap (gap + 1) rest (wrap capacity (h + i)) ≡ wrap capacity (h + i)
  unfolding wrap
  tail_before turned lt = ground arith

  tail_behind :
      capacity ≤ h + k
      → i < n - suc k
      → origin gap (gap + 1) rest (wrap capacity (h + (k + i))) ≡ wrap capacity (h + suc (k + i))
  unfolding wrap
  tail_behind turned lt = ground arith

  -- What the tests of `cf_queue_delete_offset` say of the index.
  pub is_first : wrap capacity (h + k) ≡ h → k ≡ 0
  unfolding wrap
  is_first e = ground arith

  pub is_last :
      wrap capacity (h + n) ≢ 0 → wrap capacity (h + k) ≡ wrap capacity (h + n) - 1 → k ≡ n - 1
  unfolding wrap
  is_last some_slot e = ground arith

  pub is_high : h < wrap capacity (h + k) → (h + k < capacity) × (wrap capacity (h + k) ≡ h + k)
  unfolding wrap
  is_high gt = ground arith

  pub is_low :
      wrap capacity (h + k) ≢ h
      → wrap capacity (h + k) ≤ h
      → (capacity ≤ h + k)
        × (wrap capacity (h + k) ≡ gap)
        × (wrap capacity (h + n) ≡ h + n - capacity)
        × (gap < h + n - capacity)
  unfolding wrap
  is_low ne le = ground arith

module _ {ℓ} {A : Type ℓ} where
  unfoldable pub cf_queue_delete_offset : CfQueue A → ℕ → CfQueue A
  unfolding memmove
  cf_queue_delete_offset q offset =
      let q' = record q { n_eles = sub32 q.n_eles 1 } in
      let index : ℕ = offset % q.alloc_sz in
      let r_index : ℕ = q.read_offset % q.alloc_sz in
      let w_index : ℕ = q.write_offset % q.alloc_sz in
      if index == r_index
      then record q' { read_offset = add32 q.read_offset 1 }
      else if not (w_index == 0) && (index == w_index - 1)
      then record q' { write_offset = sub32 q.write_offset 1 }
      else if ltb r_index index
      then (let q'' = change q' (λ d. memmove d (r_index + 1) r_index (index - r_index)) in
          record q'' { read_offset = add32 q.read_offset 1 })
      else if ltb index w_index
      then (let q'' = change q' (λ d. memmove d index (index + 1) (w_index - index - 1)) in
          record q'' { write_offset = sub32 q.write_offset 1 })
      else q'

  abbrev pub remove_at : ℕ → List (Option A) → List (Option A)
  remove_at k c = take k c ++ drop (suc k) c

  removed :
      (d e : List A) (capacity s t n k : ℕ)
      → k < n
      → ((i : ℕ) → i < k → get_elem? e ((s + i) % capacity) ≡ get_elem? d ((t + i) % capacity))
      → ((i : ℕ)
          → i < n - suc k
          → get_elem? e ((s + (k + i)) % capacity) ≡ get_elem? d ((t + suc (k + i)) % capacity))
      → window e capacity s (n - 1) ≡ remove_at k (window d capacity t n)
  removed d e capacity s t n k lt before behind =
      ap (window e capacity s) (let split : n - 1 ≡ k + (n - suc k) = omega arith in split)
      ∙ window-add e capacity s k (n - suc k)
      ∙ ap₂ ◌++◌
          (window_pointwise e d capacity s t k before
            ∙ (window_split d capacity t n k (omega arith)).0)
          (window_pointwise e d capacity (s + k) (t + suc k) (n - suc k) (λ i near.
              ap (λ m. get_elem? e (m % capacity))
                (let e1 : s + k + i ≡ s + (k + i) = omega arith in e1)
              ∙ behind i near
              ∙ ap (λ m. get_elem? d (m % capacity))
                  (let e2 : t + suc (k + i) ≡ t + suc k + i = omega arith in e2))
            ∙ (window_split d capacity t n (suc k) (omega arith)).1)

  module _ (d : List A) (capacity s n k : ℕ) (stored : length d ≡ capacity)
      (some_slot : 0 < capacity) (fits : n ≤ capacity) (some_one : k < n) where
    abbrev pub h : ℕ
    h = s % capacity

    inside : h < capacity
    inside = omega (arith, some_slot)

    slot : (m : ℕ) → m ≤ n → (s + m) % capacity ≡ wrap capacity (h + m)
    slot m near = slot-wrap capacity s m some_slot (omega arith)

    step_on : (m : ℕ) → (s + 1 + m) % capacity ≡ (s + suc m) % capacity
    step_on m = ap (λ j. j % capacity) (let e : s + 1 + m ≡ s + suc m = omega arith in e)

    -- The head's side one slot up.
    pub removed_up :
        h + k < capacity
        → window (memmove d (h + 1) h k) capacity (s + 1) (n - 1)
          ≡ remove_at k (window d capacity s n)
    removed_up straight =
        removed d (memmove d (h + 1) h k) capacity (s + 1) s n k some_one
          (λ i lt.
            ap (get_elem? (memmove d (h + 1) h k)) (step_on i ∙ slot (suc i) (omega arith))
            ∙ get_elem?-memmove d (h + 1) h k _ (omega arith) (omega arith)
            ∙ ap (get_elem? d) (
                head_before capacity h n k i inside fits some_one straight lt
                ∙ sym (slot i (omega arith))))
          (λ i lt.
            ap (get_elem? (memmove d (h + 1) h k))
              (step_on (k + i) ∙ slot (suc (k + i)) (omega arith))
            ∙ get_elem?-memmove d (h + 1) h k _ (omega arith) (omega arith)
            ∙ ap (get_elem? d) (
                head_behind capacity h n k i inside fits some_one straight lt
                ∙ sym (slot (suc (k + i)) (omega arith))))

    -- The tail's side one slot down.
    pub removed_down :
        capacity ≤ h + k
        → let g : ℕ = h + k - capacity in
          window (memmove d g (g + 1) (h + n - capacity - g - 1)) capacity s (n - 1)
          ≡ remove_at k (window d capacity s n)
    removed_down turned =
        removed d e capacity s s n k some_one
          (λ i lt.
            ap (get_elem? e) (slot i (omega arith))
            ∙ get_elem?-memmove d g (g + 1) _ _ (omega arith) (omega arith)
            ∙ ap (get_elem? d) (
                tail_before capacity h n k i inside fits some_one turned lt
                ∙ sym (slot i (omega arith))))
          (λ i lt.
            ap (get_elem? e) (slot (k + i) (omega arith))
            ∙ get_elem?-memmove d g (g + 1) _ _ (omega arith) (omega arith)
            ∙ ap (get_elem? d) (
                tail_behind capacity h n k i inside fits some_one turned lt
                ∙ sym (slot (suc (k + i)) (omega arith))))
      where
        g : ℕ
        g = h + k - capacity

        e : List A
        e = memmove d g (g + 1) (h + n - capacity - g - 1)
