-- ===== src/Memory/Blocks.antt =====
-- A heap of zeroed blocks of four-byte numbers.
use aerospike_common.Common.{
  ℕ, ◌/◌, arith, some, length-replicate, length-write, replicate, write, from_start,
}
use aerospike_common.Memory.{Memory, IsMemory}

abbrev pub blocks : Memory ℕ
blocks = record {
  malloc = λ n. some (replicate (n / 4) 0);
  realloc = λ xs n. some (write (replicate (n / 4) 0) 0 xs);
}

pub blocks-IsMemory : IsMemory blocks 4
blocks-IsMemory = record {
  malloc_sized = λ n d e. ground (arith, length-replicate {A = ℕ} (n / 4) 0);
  realloc_sized = λ xs n d e.
      ground (
        arith,
        length-replicate {A = ℕ} (n / 4) 0,
        length-write (replicate {A = ℕ} (n / 4) 0) 0 xs,
      );
  realloc_kept = λ xs n d e fits.
      ground
        (arith, length-replicate {A = ℕ} (n / 4) 0, from_start (replicate {A = ℕ} (n / 4) 0) xs);
}
