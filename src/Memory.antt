-- ===== src/Memory.antt =====
-- Memory from `malloc` and `realloc` for arrays of equal items; both are outside the repository.
pub mod Blocks
use aerospike_common.Common.{ℕ, ◌*◌, ◌/◌, ◌%◌, ◌^◌, ◌≤◌, ◌<◌, ◌≡◌, List, Option, some, length, take}
use native.Mathlib.Nat.{mod-eq_of_lt, mul-div_cancel}

-- `malloc(n)` and `realloc(data, n)`, with n in bytes: the items that the block has room for, `none`
-- for NULL.
pub record Memory {ℓ} (A : Type ℓ) : Type ℓ where
  pub malloc : ℕ → Option (List A)
  pub realloc : List A → ℕ → Option (List A)

pub whole_blocks : (n s : ℕ) → 0 < s → n * s < 2 ^ 32 → n * s % 2 ^ 32 / s ≡ n
whole_blocks n s some_size small = rw (mod-eq_of_lt small) (mul-div_cancel n some_size)

module _ {ℓ} {A : Type ℓ} where
  -- Blocks have room for as many whole items as their bytes hold, and `realloc` keeps the items that
  -- were there.
  pub record IsMemory (memory : Memory A) (item_size : ℕ) : Type ℓ where
    pub malloc_sized : (n : ℕ) (d : List A) → memory.malloc n ≡ some d → length d ≡ n / item_size
    pub realloc_sized :
        (xs : List A) (n : ℕ) (d : List A) → memory.realloc xs n ≡ some d → length d ≡ n / item_size
    pub realloc_kept :
        (xs : List A) (n : ℕ) (d : List A)
        → memory.realloc xs n ≡ some d
        → length xs ≤ n / item_size
        → take (length xs) d ≡ xs
