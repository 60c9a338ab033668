-- ===== src/Vector/Change.antt =====
-- What the operations of a vector do to the items that it holds.
use aerospike_common.Common.{
  suc, ◌^◌, ◌<◌, ◌≡◌, refl, ap, ◌∙◌, arith, [], ◌∷◌, ◌++◌, some, take, set, length-set, add32,
}
use aerospike_common.Memory.{Memory, IsMemory}
use aerospike_common.Vector.{Vector, put_last, as_vector_append, as_vector_reserve, as_vector_get}
use aerospike_common.Vector.Contents.{IsValid, contents, whole_items_lem, put_lem, take-set_end}
use aerospike_common.Vector.Grow.{Provides, IsGrowable, SameItems, with_room_lem}
use native.Mathlib.Nat.{mul-le-mul_left, mul_comm}

module _ {ℓ} {A : Type ℓ} where
  pub capacity_bound : (v : Vector A) → IsValid v → v.capacity < 2 ^ 32
  capacity_bound v valid =
      omega (arith, valid.bytes_fit, mul-le-mul_left v.capacity valid.some_size)

  module _ (v w : Vector A) (x : A) (kept : SameItems v w) (room : w.size < w.capacity) where
    abbrev filled : Vector A
    filled =
        let (d, e, sized) = kept.valid.stored in
        record w { list = some (set d w.size x); size = add32 w.size 1 }

    one_more : add32 w.size 1 ≡ suc w.size
    one_more = omega (arith, capacity_bound w kept.valid)

    filled-IsValid : IsValid filled
    filled-IsValid =
        let (d, e, sized) = kept.valid.stored in
        record {
          stored = (set d w.size x, refl, length-set d w.size x ∙ sized);
          some_size = kept.valid.some_size;
          fits = omega (arith, one_more);
          bytes_fit = kept.valid.bytes_fit;
        }

    put_last-filled : put_last w x ≡ some filled
    unfolding put_last
    put_last-filled =
        let (d, e, sized) = kept.valid.stored in
        rw
          (
            e,
            whole_items_lem w.size w.capacity w.item_size (omega arith) kept.valid.some_size
                kept.valid.bytes_fit,
            put_lem d w.size x (omega (arith, sized)),
          )
          refl

    contents-filled : contents filled ≡ contents v ++ (x ∷ [])
    contents-filled =
        let (d, e, sized) = kept.valid.stored in
        rw one_more (
          take-set_end d w.size x (omega (arith, sized))
          ∙ ap (λ xs. xs ++ (x ∷ []))
              (let same : take w.size d ≡ contents w = rw e refl in same ∙ kept.same_contents))

  module _ (memory : Memory A) (v : Vector A) (x : A) where
    -- With memory at hand and room for twice the bytes, `as_vector_append` never leaves the array and
    -- puts its item behind the others of a valid vector with some capacity.
    pub as_vector_append_lem :
        IsMemory memory v.item_size
        → Provides memory
        → IsValid v
        → IsGrowable v
        → (w : Vector A) × (as_vector_append memory v x ≡ some w)
          × IsValid w
          × (contents w ≡ contents v ++ (x ∷ []))
    unfolding as_vector_append
    as_vector_append_lem law rich valid can =
        let (w, run, kept, room) = with_room_lem memory v law rich valid can in
        (
          filled v w x kept room,
          rw run (put_last-filled v w x kept room),
          filled-IsValid v w x kept room,
          contents-filled v w x kept room,
        )

    -- With memory at hand and room for twice the bytes, `as_vector_reserve` puts an item of zero bytes
    -- (here `x`) behind the others of a valid vector with some capacity, and returns its place.
    pub as_vector_reserve_lem :
        IsMemory memory v.item_size
        → Provides memory
        → IsValid v
        → IsGrowable v
        → (w : Vector A) × (as_vector_reserve memory x v ≡ some (as_vector_get w v.size, w))
          × IsValid w
          × (contents w ≡ contents v ++ (x ∷ []))
    unfolding as_vector_reserve as_vector_get
    as_vector_reserve_lem law rich valid can =
        let (w, run, kept, room) = with_room_lem memory v law rich valid can in
        (
          filled v w x kept room,
          rw (run, put_last-filled v w x kept room, kept.same_size, mul_comm v.size w.item_size)
              refl,
          filled-IsValid v w x kept room,
          contents-filled v w x kept room,
        )
