-- ===== src/Vector/Empty.antt =====
-- A vector whose capacity is 0.
use aerospike_common.Common.{
  ℕ, ◌^◌, ◌*◌, ◌/◌, ◌%◌, ◌≡◌, refl, ◌∙◌, arith, List, none, some, length, inl, inr, Option-cases,
}
use native.Mathlib.Nat.{zero-mul, zero-div}
use aerospike_common.Memory.{Memory, IsMemory}
use aerospike_common.Vector.{
  Vector, whole_items, put, put_last, as_vector_init, as_vector_append, with_room,
  as_vector_increase_capacity, grow_on_heap,
}

module _ {ℓ} {A : Type ℓ} (memory : Memory A) where
  put-nowhere : (d : List A) (slot : ℕ) (x : A) → length d ≡ 0 → put d slot x ≡ none
  unfolding put
  put-nowhere d slot x e = ground arith

  -- No item can be put into an array without slots.
  put_last-nowhere :
      (w : Vector A) (x : A) → ((d : List A) → w.list ≡ some d → length d ≡ 0) → put_last w x ≡ none
  unfolding put_last
  put_last-nowhere w x empty = elim (Option-cases w.list) [
    | inl null ↦ rw null refl
    | inr (d, e) ↦
        let bytes = w.size * w.item_size % 2 ^ 32 in
        elim (Option-cases (whole_items w.item_size bytes)) [
          | inl split ↦ rw (e, split) refl
          | inr (slot, whole) ↦ rw (e, whole, put-nowhere d slot x (empty d e)) refl
        ]
  ]

  no_bytes : (s : ℕ) → 0 * 2 % 2 ^ 32 * s % 2 ^ 32 / s ≡ 0
  no_bytes s = rw (zero-mul s) (zero-div s)

  no_slots :
      (s : ℕ)
      → IsMemory memory s
      → (d : List A) → (grow_on_heap memory (as_vector_init memory s 0)).list ≡ some d
      → length d ≡ 0
  unfolding grow_on_heap as_vector_init
  no_slots s law d given = elim (Option-cases (memory.malloc (0 * s % 2 ^ 32))) [
    | inl null ↦ law.malloc_sized _ d (rw null at given) ∙ no_bytes s
    | inr (d', e) ↦ law.realloc_sized d' _ d (rw e at given) ∙ no_bytes s
  ]

  -- The first `as_vector_append` to a vector made for 0 items leaves its array: twice 0 is 0.
  pub as_vector_append-as_vector_init_zero :
      (item_size : ℕ) (x : A)
      → IsMemory memory item_size
      → as_vector_append memory (as_vector_init memory item_size 0) x ≡ none
  unfolding as_vector_append with_room as_vector_increase_capacity as_vector_init put_last
  as_vector_append-as_vector_init_zero item_size x law =
      put_last-nowhere (grow_on_heap memory (as_vector_init memory item_size 0)) x
        (no_slots item_size law)
