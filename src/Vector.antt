-- ===== src/Vector.antt =====
-- src/main/aerospike/as_vector.c and the inline functions of src/include/aerospike/as_vector.h: an
-- array of items of `item_size` bytes that grows when it is full. `none` is an access outside of the
-- array, through the NULL pointer or across two items.
pub mod Contents
pub mod Grow
pub mod Change
pub mod Access
pub mod Unique
pub mod Empty
mod Tests
use aerospike_common.Common.{
  ℕ, zero, suc, ◌+◌, ◌*◌, ◌/◌, ◌%◌, ◌^◌, List, [], ◌∷◌, Option, none, some, Bool, true, false,
}
use aerospike_common.Common.{ltb, leb, ◌==◌, if◌then◌else◌, bit_and, bit_or, add32, sub32}
use aerospike_common.Common.{length, get_elem?, set, take, drop, write}
use aerospike_common.Memory.{Memory}

-- `as_vector`
pub record Vector {ℓ} (A : Type ℓ) : Type ℓ where
  pub list : Option (List A)
  pub capacity : ℕ
  pub size : ℕ
  pub item_size : ℕ
  pub flags : ℕ

abbrev pub flags_heap : ℕ
flags_heap = 1

abbrev pub flags_created : ℕ
flags_created = 2

infixl 5 ◌>>=◌
abbrev ◌>>=◌ {ℓ ℓ'} : {R : Type ℓ} {S : Type ℓ'} → Option R → (R → Option S) → Option S
access >>= use_it = elim access [ none ↦ none | some r ↦ use_it r ]

-- The whole items in a number of bytes.
unfoldable pub whole_items : ℕ → ℕ → Option ℕ
whole_items item_size bytes = if bytes % item_size == 0 then some (bytes / item_size) else none

module _ {ℓ} {A : Type ℓ} where
  unfoldable pub put : List A → ℕ → A → Option (List A)
  put d slot x = if ltb slot (length d) then some (set d slot x) else none

  -- `memcpy(dst, src, n)` and `memmove(d + to, d + from, n)`, with n in items
  unfoldable pub copy_items : List A → List A → ℕ → Option (List A)
  copy_items dst src n =
      if leb n (length src)
      then if leb n (length dst) then some (write dst 0 (take n src)) else none
      else none

  unfoldable pub move_items : List A → ℕ → ℕ → ℕ → Option (List A)
  move_items d to from n =
      if leb (from + n) (length d)
      then if leb (to + n) (length d) then some (write d to (take n (drop from d))) else none
      else none

  abbrev pub slots : Vector A → List A
  slots v = elim v.list [ none ↦ [] | some d ↦ d ]

  -- The byte offset of an item.
  unfoldable pub as_vector_get : Vector A → ℕ → ℕ
  as_vector_get v index = v.item_size * index % 2 ^ 32

  unfoldable pub as_vector_get_ptr : Vector A → ℕ → Option A
  unfolding as_vector_get
  as_vector_get_ptr v index = do
    d ← v.list
    slot ← whole_items v.item_size (as_vector_get v index)
    get_elem? d slot

  unfoldable pub as_vector_set : Vector A → ℕ → A → Option (Vector A)
  as_vector_set v index x = do
    d ← v.list
    slot ← whole_items v.item_size (index * v.item_size % 2 ^ 32)
    d' ← put d slot x
    some (record v { list = some d' })

  unfoldable pub as_vector_clear : Vector A → Vector A
  as_vector_clear v = record v { size = 0 }

  -- The item pointer of `as_vector_append_unique`, over the next `n` items.
  unfoldable pub has_item : (A → A → Bool) → A → List A → ℕ → Option Bool
  has_item same x d zero = some false
  has_item same x [] (suc n) = none
  has_item same x (y ∷ d) (suc n) =
      let rest = has_item same x d n in if same y x then some true else rest

  unfoldable pub as_vector_remove : Vector A → ℕ → Option (Bool × Vector A)
  as_vector_remove v index = if leb v.size index then some (false, v) else do
    d ← v.list
    to ← whole_items v.item_size (index * v.item_size % 2 ^ 32)
    from ← whole_items v.item_size (add32 index 1 * v.item_size % 2 ^ 32)
    n ← whole_items v.item_size (sub32 (sub32 v.size index) 1 * v.item_size % 2 ^ 32)
    d' ← move_items d to from n
    some (true, record v { list = some d'; size = sub32 v.size 1 })

  -- The item stored behind the others.
  unfoldable pub put_last : Vector A → A → Option (Vector A)
  put_last w x = do
    d ← w.list
    slot ← whole_items w.item_size (w.size * w.item_size % 2 ^ 32)
    d' ← put d slot x
    some (record w { list = some d'; size = add32 w.size 1 })

  module _ (memory : Memory A) where
    unfoldable pub as_vector_init : ℕ → ℕ → Vector A
    as_vector_init item_size capacity = record {
      list = memory.malloc (capacity * item_size % 2 ^ 32);
      capacity = capacity;
      size = 0;
      item_size = item_size;
      flags = 1;
    }

    unfoldable pub as_vector_create : ℕ → ℕ → Vector A
    as_vector_create item_size capacity = record (as_vector_init item_size capacity) {
      flags = bit_or flags_heap flags_created;
    }

    unfoldable pub grow_on_heap : Vector A → Vector A
    grow_on_heap v =
        let doubled = v.capacity * 2 % 2 ^ 32 in
        let bytes = doubled * v.item_size % 2 ^ 32 in
        record v {
          capacity = doubled;
          list = elim v.list [ none ↦ memory.malloc bytes | some d ↦ memory.realloc d bytes ];
        }

    unfoldable pub move_to_heap : Vector A → Option (Vector A)
    move_to_heap v = do
      tmp ← memory.malloc (v.capacity * 2 % 2 ^ 32 * v.item_size % 2 ^ 32)
      d ← v.list
      n ← whole_items v.item_size (v.capacity * v.item_size % 2 ^ 32)
      d' ← copy_items tmp d n
      some (record v {
        list = some d';
        capacity = v.capacity * 2 % 2 ^ 32;
        flags = bit_or v.flags flags_heap;
      })

    unfoldable pub as_vector_increase_capacity : Vector A → Option (Vector A)
    unfolding grow_on_heap move_to_heap
    as_vector_increase_capacity v =
        if bit_and v.flags flags_heap == 0 then move_to_heap v else some (grow_on_heap v)

    -- The test before an item is added.
    unfoldable pub with_room : Vector A → Option (Vector A)
    with_room v = if leb v.capacity v.size then as_vector_increase_capacity v else some v

    unfoldable pub as_vector_append : Vector A → A → Option (Vector A)
    as_vector_append v x = do w ← with_room v; put_last w x

    -- The new item's byte offset, and `zeroes` an item of zero bytes.
    unfoldable pub as_vector_reserve : A → Vector A → Option (ℕ × Vector A)
    as_vector_reserve zeroes v = do
      w ← with_room v
      w' ← put_last w zeroes
      some (w.size * w.item_size % 2 ^ 32, w')

    -- `same` is `memcmp(a, b, item_size) == 0`.
    unfoldable pub as_vector_append_unique :
        (A → A → Bool) → Vector A → A → Option (Bool × Vector A)
    as_vector_append_unique same v x = do
      found ← has_item same x (slots v) v.size
      if found then some (false, v) else do w ← as_vector_append v x; some (true, w)

    unfoldable pub as_vector_to_array : Vector A → Option (List A × ℕ)
    as_vector_to_array v = do
      array ← memory.malloc (v.size * v.item_size % 2 ^ 32)
      d ← v.list
      n ← whole_items v.item_size (v.size * v.item_size % 2 ^ 32)
      array' ← copy_items array d n
      some (array', v.size)
