-- ===== src/Vector/Tests.antt =====
-- Runs of a vector, and its theorems at concrete vectors.
use aerospike_common.Common.{
  ℕ, ◌≡◌, refl, [], ◌∷◌, ◌++◌, true, some, none, arith, replicate, ◌==◌, ==→eq, take, drop, ◌/◌,
  write,
}
use aerospike_common.Memory.Blocks.{blocks, blocks-IsMemory}
use aerospike_common.Vector.{
  Vector, as_vector_append, as_vector_remove, as_vector_init, with_room,
  as_vector_increase_capacity, move_to_heap, copy_items, put_last, put, whole_items,
}
use aerospike_common.Vector.Contents.{IsValid, contents}
use aerospike_common.Vector.Grow.{Provides, IsGrowable}
use aerospike_common.Vector.Access.{as_vector_remove_lem}
use aerospike_common.Vector.Unique.{IsEquality, Uniquely, as_vector_append_unique_lem}
use aerospike_common.Vector.Empty.{as_vector_append-as_vector_init_zero}

blocks-Provides : Provides blocks
blocks-Provides = record {
  malloc_some = λ n. (replicate (n / 4) 0, refl);
  realloc_some = λ xs n. (write (replicate (n / 4) 0) 0 xs, refl);
}

-- A full vector on the stack.
abbrev pair : Vector ℕ
pair = record { list = some (7 ∷ 9 ∷ []); capacity = 2; size = 2; item_size = 4; flags = 0 }

pair-IsValid : IsValid pair
pair-IsValid = record {
  stored = (7 ∷ 9 ∷ [], refl, refl);
  some_size = omega arith;
  fits = omega arith;
  bytes_fit = omega arith;
}

pair-IsGrowable : IsGrowable pair
pair-IsGrowable = record { some_slot = omega arith; twice_fits = omega arith }

eq-IsEquality : IsEquality ◌==◌
eq-IsEquality = record { sound = ==→eq; complete = λ a. ground arith }

append_run :
    as_vector_append blocks pair 5
    ≡ some (record {
      list = some (7 ∷ 9 ∷ 5 ∷ 0 ∷ []);
      capacity = 4;
      size = 3;
      item_size = 4;
      flags = 1;
    })
unfolding as_vector_append with_room as_vector_increase_capacity move_to_heap copy_items put_last
    put whole_items
append_run = refl

as_vector_remove_lem_example :
    (w : Vector ℕ) × (as_vector_remove pair 0 ≡ some (true, w))
    × IsValid w
    × (contents w ≡ take 0 (contents pair) ++ drop 1 (contents pair))
as_vector_remove_lem_example = as_vector_remove_lem pair pair-IsValid 0 (omega arith)

as_vector_append_unique_lem_example : Uniquely blocks ◌==◌ pair 9
as_vector_append_unique_lem_example =
    as_vector_append_unique_lem blocks ◌==◌ pair 9 blocks-IsMemory blocks-Provides pair-IsValid
      pair-IsGrowable eq-IsEquality

as_vector_append-as_vector_init_zero_example :
    as_vector_append blocks (as_vector_init blocks 4 0) 5 ≡ none
as_vector_append-as_vector_init_zero_example =
    as_vector_append-as_vector_init_zero blocks 4 5 blocks-IsMemory
