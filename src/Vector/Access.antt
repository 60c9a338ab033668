-- ===== src/Vector/Access.antt =====
-- Reads and writes of single items of a vector, removal, and the copy into an array.
use aerospike_common.Common.{
  ℕ, zero, suc, ◌+◌, ◌-◌, ◌*◌, ◌%◌, ◌^◌, ◌≤◌, ◌<◌, ◌≡◌, refl, sym, ap, ap₂, ◌∙◌, arith, List, [],
  ◌∷◌, ◌++◌, some, true, false, length, take, drop, write, set, get_elem?, leb, length-write,
  length-set, length-take, length-drop, take-write, add32, sub32, suc_add, get_elem?-set_self,
}
use aerospike_common.Memory.{Memory, IsMemory, whole_blocks}
use aerospike_common.Vector.{
  Vector, whole_items, move_items, as_vector_remove, as_vector_set, as_vector_to_array,
  as_vector_get, as_vector_get_ptr,
}
use aerospike_common.Ring.{take_all}
use aerospike_common.Vector.Contents.{
  mul_fits, IsValid, contents, whole_items_lem, copy_items_lem, put_lem, move_items_lem, take-take,
  take-set,
}
use aerospike_common.Vector.Change.{capacity_bound}
use aerospike_common.Vector.Grow.{Provides}
use native.Mathlib.Nat.{mul_comm}

module _ {ℓ} {A : Type ℓ} where
  get_elem?-take : (n i : ℕ) (d : List A) → i < n → get_elem? (take n d) i ≡ get_elem? d i
  get_elem?-take zero i d h = absurd (omega arith)
  get_elem?-take (suc n) i [] h = refl
  get_elem?-take (suc n) zero (y ∷ d) h = refl
  get_elem?-take (suc n) (suc i) (y ∷ d) h = get_elem?-take n i d (omega arith)

  take_nil : (n : ℕ) → take {A = A} n [] ≡ []
  take_nil zero = refl
  take_nil (suc n) = refl

  drop-take : (k n : ℕ) (d : List A) → drop k (take (k + n) d) ≡ take n (drop k d)
  drop-take zero n d = ap (λ m. take m d) (let e : 0 + n ≡ n = omega arith in e)
  drop-take (suc k) n [] = rw (suc_add k n, take_nil n) refl
  drop-take (suc k) n (y ∷ d) = rw (suc_add k n) (drop-take k n d)

  take_written :
      (d : List A) (i k : ℕ) (src : List A)
      → length src ≡ k
      → i + k ≤ length d
      → take (i + k) (write d i src) ≡ take i d ++ src
  take_written d i k src e h = rw (← e) (take-write d i src (omega (arith, e)))

  -- The row behind an item moved over it.
  remove_row :
      (d : List A) (index n size : ℕ)
      → suc index + n ≡ size
      → size ≤ length d
      → take (index + n) (write d index (take n (drop (suc index) d)))
        ≡ take index (take size d) ++ drop (suc index) (take size d)
  remove_row d index n size e h =
      let row = take n (drop (suc index) d) in
      let whole : length row ≡ n =
        omega (arith, length-take n (drop (suc index) d), length-drop (suc index) d) in
      let moved : take (index + n) (write d index row) ≡ take index d ++ row =
        take_written d index n row whole (omega arith) in
      rw (← e) (
        moved
        ∙ ap₂ (λ xs ys. xs ++ ys) (sym (take-take d index (suc index + n) (omega arith)))
            (sym (drop-take (suc index) n d)))

  module _ (v : Vector A) (valid : IsValid v) where
    slot_of :
        (index : ℕ)
        → index ≤ v.capacity
        → whole_items v.item_size (index * v.item_size % 2 ^ 32) ≡ some index
    slot_of index h = whole_items_lem index v.capacity v.item_size h valid.some_size valid.bytes_fit

    -- `as_vector_set` and `as_vector_get_ptr` on an index in use stay in the array; the set replaces
    -- that item alone and the get reads it.
    pub as_vector_set_lem :
        (index : ℕ) (x : A)
        → index < v.size
        → (w : Vector A) × (as_vector_set v index x ≡ some w)
          × IsValid w
          × (contents w ≡ set (contents v) index x)
          × (as_vector_get_ptr w index ≡ some x)
    unfolding as_vector_set as_vector_get_ptr as_vector_get
    as_vector_set_lem index x h =
        let (d, e, sized) = valid.stored in
        let inside : index < length d = omega (arith, valid.fits, sized) in
        let slot = slot_of index (omega (arith, valid.fits)) in
        (
          record v { list = some (set d index x) },
          rw (e, slot, put_lem d index x inside) refl,
          record {
            stored = (set d index x, refl, length-set d index x ∙ sized);
            some_size = valid.some_size;
            fits = valid.fits;
            bytes_fit = valid.bytes_fit;
          },
          rw e (take-set d v.size index x),
          rw (mul_comm v.item_size index, slot) (get_elem?-set_self d index x inside),
        )

    pub as_vector_get_ptr_lem :
        (index : ℕ) → index < v.size → as_vector_get_ptr v index ≡ get_elem? (contents v) index
    unfolding as_vector_get_ptr as_vector_get
    as_vector_get_ptr_lem index h =
        let (d, e, sized) = valid.stored in
        rw (e, mul_comm v.item_size index, slot_of index (omega (arith, valid.fits)))
          (sym (get_elem?-take v.size index d h))

    -- `as_vector_remove` takes the item at an index in use out, keeps the others in order and stays in
    -- the array.
    pub as_vector_remove_lem :
        (index : ℕ)
        → index < v.size
        → (w : Vector A) × (as_vector_remove v index ≡ some (true, w))
          × IsValid w
          × (contents w ≡ take index (contents v) ++ drop (suc index) (contents v))
    unfolding as_vector_remove
    as_vector_remove_lem index h =
        let (d, e, sized) = valid.stored in
        let n = v.size - index - 1 in
        let bound = capacity_bound v valid in
        let next : add32 index 1 ≡ suc index = omega (arith, valid.fits) in
        let count : sub32 (sub32 v.size index) 1 ≡ n = omega (arith, valid.fits) in
        let less : sub32 v.size 1 ≡ index + n = omega (arith, valid.fits) in
        let out : leb v.size index ≡ false = ground arith in
        let from_slot : whole_items v.item_size (add32 index 1 * v.item_size % 2 ^ 32)
            ≡ some (suc index) =
          rw next (slot_of (suc index) (omega (arith, valid.fits))) in
        let count_slot : whole_items v.item_size
              (sub32 (sub32 v.size index) 1 * v.item_size % 2 ^ 32)
            ≡ some n =
          rw count (slot_of n (omega (arith, valid.fits))) in
        let moved = write d index (take n (drop (suc index) d)) in
        let inside : move_items d index (suc index) n ≡ some moved =
          move_items_lem d index (suc index) n (omega (arith, valid.fits, sized))
            (omega (arith, valid.fits, sized)) in
        (
          record v { list = some moved; size = sub32 v.size 1 },
          rw (out, e, slot_of index (omega (arith, valid.fits)), from_slot, count_slot, inside)
              refl,
          record {
            stored = (moved, refl, length-write d index _ ∙ sized);
            some_size = valid.some_size;
            fits = omega (arith, less, valid.fits);
            bytes_fit = valid.bytes_fit;
          },
          rw (e, less)
              (remove_row d index n v.size (omega arith) (omega (arith, sized, valid.fits))),
        )

  -- `as_vector_to_array` gives an array of the vector's items, and their number.
  pub as_vector_to_array_lem :
      (memory : Memory A) (v : Vector A)
      → IsMemory memory v.item_size
      → Provides memory
      → IsValid v
      → as_vector_to_array memory v ≡ some (contents v, v.size)
  unfolding as_vector_to_array
  as_vector_to_array_lem memory v law rich valid =
      let (d, e, sized) = valid.stored in
      let (array, given) = rich.malloc_some (v.size * v.item_size % 2 ^ 32) in
      let bytes : v.size * v.item_size < 2 ^ 32 =
        mul_fits v.size v.capacity v.item_size valid.fits valid.bytes_fit in
      let room : length array ≡ v.size =
        law.malloc_sized _ array given ∙ whole_blocks v.size v.item_size valid.some_size bytes in
      let row : length (take v.size d) ≡ v.size =
        omega (arith, length-take v.size d, valid.fits, sized) in
      let all : write array 0 (take v.size d) ≡ take v.size d =
        sym (
          take_all (0 + v.size) (write array 0 (take v.size d))
            (omega (arith, length-write array 0 (take v.size d), room)))
        ∙ take_written array 0 v.size (take v.size d) row (omega (arith, room)) in
      rw
        (
          given,
          e,
          slot_of v valid v.size (omega (arith, valid.fits)),
          copy_items_lem array d v.size (omega (arith, valid.fits, sized)) (omega (arith, room)),
          all,
        )
        refl
