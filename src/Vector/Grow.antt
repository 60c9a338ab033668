-- ===== src/Vector/Grow.antt =====
-- What `as_vector_increase_capacity` does to a vector, and the test for room before it.
use aerospike_common.Common.{
  ℕ, ◌*◌, ◌/◌, ◌%◌, ◌^◌, ◌≤◌, ◌<◌, ◌≡◌, refl, sym, ap, ◌∙◌, arith, List, some, length, take, write,
  ◌==◌, leb, bit_and, bit_or, Bool-cases, inl, inr, from_start, length-write,
}
use aerospike_common.Memory.{Memory, IsMemory, whole_blocks}
use aerospike_common.Vector.{
  Vector, grow_on_heap, move_to_heap, as_vector_increase_capacity, with_room, flags_heap,
}
use aerospike_common.Vector.Contents.{IsValid, contents, whole_items_lem, copy_items_lem, take-take}
use aerospike_common.Ring.{take_all}
use native.Mathlib.Nat.{mod-eq_of_lt, mul-le-mul_left}

module _ {ℓ} {A : Type ℓ} where
  -- A heap that is not exhausted.
  pub record Provides (memory : Memory A) : Type ℓ where
    pub malloc_some : (n : ℕ) → (d : List A) × (memory.malloc n ≡ some d)
    pub realloc_some : (xs : List A) (n : ℕ) → (d : List A) × (memory.realloc xs n ≡ some d)

  -- A 32-bit number counts the bytes of twice the array, which has an item at least.
  pub record IsGrowable (v : Vector A) : Type 0 where
    pub some_slot : 0 < v.capacity
    pub twice_fits : v.capacity * 2 * v.item_size < 2 ^ 32

  -- The vector `w` holds the items of `v`.
  pub record SameItems (v w : Vector A) : Type ℓ where
    pub valid : IsValid w
    pub same_size : w.size ≡ v.size
    pub same_item_size : w.item_size ≡ v.item_size
    pub same_contents : contents w ≡ contents v

  module _ (memory : Memory A) (v : Vector A) where
    pub record Grown (w : Vector A) : Type ℓ where
      pub kept : SameItems v w
      pub twice : w.capacity ≡ v.capacity * 2

    small_capacity : IsValid v → IsGrowable v → v.capacity * 2 < 2 ^ 32
    small_capacity valid can =
        omega (arith, can.twice_fits, mul-le-mul_left (v.capacity * 2) valid.some_size)

    -- An array of twice the slots that starts with the old one.
    Grown-into :
        IsValid v
        → IsGrowable v
        → (d d' : List A) (flags : ℕ) → v.list ≡ some d
        → length d ≡ v.capacity
        → length d' ≡ v.capacity * 2
        → take (length d) d' ≡ d
        → Grown (record v { list = some d'; capacity = v.capacity * 2 % 2 ^ 32; flags = flags })
    Grown-into valid can d d' flags e sized twice kept =
        let small : v.capacity * 2 % 2 ^ 32 ≡ v.capacity * 2 =
          mod-eq_of_lt (small_capacity valid can) in
        record {
          kept = record {
            valid = record {
              stored = (d', refl, twice ∙ sym small);
              some_size = valid.some_size;
              fits = omega (arith, valid.fits, small);
              bytes_fit = rw small can.twice_fits;
            };
            same_size = refl;
            same_item_size = refl;
            same_contents = rw e (
                sym (take-take d' v.size (length d) (omega (arith, valid.fits, sized)))
                ∙ ap (take v.size) kept);
          };
          twice = small;
        }

    pub as_vector_increase_capacity-Grown :
        IsMemory memory v.item_size
        → Provides memory
        → IsValid v
        → IsGrowable v
        → (w : Vector A) × (as_vector_increase_capacity memory v ≡ some w) × Grown w
    unfolding as_vector_increase_capacity grow_on_heap move_to_heap
    as_vector_increase_capacity-Grown law rich valid can =
        let (d, e, sized) = valid.stored in
        let small = mod-eq_of_lt (small_capacity valid can) in
        let room : v.capacity * 2 % 2 ^ 32 * v.item_size % 2 ^ 32 / v.item_size ≡ v.capacity * 2 =
          rw small (whole_blocks (v.capacity * 2) v.item_size valid.some_size can.twice_fits) in
        elim (Bool-cases (bit_and v.flags flags_heap == 0)) [
          | inl stack ↦
              let (tmp, given) =
                rich.malloc_some (v.capacity * 2 % 2 ^ 32 * v.item_size % 2 ^ 32) in
              let length_tmp = law.malloc_sized _ tmp given ∙ room in
              let fits : length d ≤ length tmp = omega arith in
              (
                record v {
                  list = some (write tmp 0 d);
                  capacity = v.capacity * 2 % 2 ^ 32;
                  flags = bit_or v.flags flags_heap;
                },
                rw
                    (
                      stack,
                      given,
                      e,
                      whole_items_lem v.capacity v.capacity v.item_size (omega arith)
                          valid.some_size valid.bytes_fit,
                      copy_items_lem tmp d v.capacity (omega (arith, sized)) (omega arith),
                      take_all v.capacity d sized,
                    )
                    refl,
                Grown-into valid can d (write tmp 0 d) (bit_or v.flags flags_heap) e sized
                    (length-write tmp 0 d ∙ length_tmp) (from_start tmp d fits),
              )
          | inr heap ↦
              let (d', given) =
                rich.realloc_some d (v.capacity * 2 % 2 ^ 32 * v.item_size % 2 ^ 32) in
              let twice = law.realloc_sized d _ d' given ∙ room in
              (
                record v { list = some d'; capacity = v.capacity * 2 % 2 ^ 32 },
                rw (heap, e, given) refl,
                Grown-into valid can d d' v.flags e sized twice
                    (law.realloc_kept d _ d' given (omega (arith, room, sized))),
              )
        ]

    -- The test for room leaves a slot for one more item and the items as they were.
    pub with_room_lem :
        IsMemory memory v.item_size
        → Provides memory
        → IsValid v
        → IsGrowable v
        → (w : Vector A) × (with_room memory v ≡ some w) × SameItems v w × (w.size < w.capacity)
    unfolding with_room
    with_room_lem law rich valid can = elim (Bool-cases (leb v.capacity v.size)) [
      | inl full ↦
          let (w, run, grown) = as_vector_increase_capacity-Grown law rich valid can in
          (
            w,
            rw full run,
            grown.kept,
            omega (arith, grown.kept.same_size, grown.twice, valid.fits, can.some_slot),
          )
      | inr room ↦ (
        v,
        rw room refl,
        record { valid = valid; same_size = refl; same_item_size = refl; same_contents = refl },
        ground arith,
      )
    ]
