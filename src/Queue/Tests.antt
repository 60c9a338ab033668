-- ===== src/Queue/Tests.antt =====
-- Runs of the queue, and its theorems at concrete queues.
use aerospike_common.Common.{ℕ, ◌≡◌, refl, arith, List, [], ◌∷◌, ◌++◌, some}
use aerospike_common.Queue.{
  Queue, as_queue_push, as_queue_increase_capacity, as_queue_copy, as_queue_size,
}
use aerospike_common.Queue.Contents.{IsValid, contents}
use aerospike_common.Memory.Blocks.{blocks, blocks-IsMemory}
use aerospike_common.Queue.Refine.{IsGrowable, as_queue_push_lem}
use aerospike_common.Queue.Runs.{
  Call, push_limit, push_head_limit, pop, pop_tail, run, deque_run, run_refines,
}

-- 8, then 9, round the end of an array of three.
abbrev wrapped : Queue ℕ
wrapped = record {
  items = some (9 ∷ 7 ∷ 8 ∷ []);
  capacity = 3;
  head = 5;
  tail = 7;
  item_size = 4;
  total = 0;
  flags = 1;
}

-- 8, 9 and 7 in the same array.
abbrev full : Queue ℕ
full = record wrapped { tail = 8 }

wrapped-IsValid : IsValid wrapped
wrapped-IsValid = record {
  stored = refl;
  some_slot = omega arith;
  small = omega arith;
  order = omega arith;
  fits = omega arith;
  bound = omega arith;
}

full-IsValid : IsValid full
full-IsValid = record {
  stored = refl;
  some_slot = omega arith;
  small = omega arith;
  order = omega arith;
  fits = omega arith;
  bound = omega arith;
}

full-IsGrowable : IsGrowable full
full-IsGrowable = record {
  some_size = omega arith;
  items_fit = omega arith;
  bytes_fit = omega arith;
}

contents-full : contents full ≡ some 8 ∷ some 9 ∷ some 7 ∷ []
contents-full = refl

as_queue_push_lem_example :
    let q' = (as_queue_push blocks full 1).1 in
    IsValid q' × (contents q' ≡ contents full ++ (some 1 ∷ []))
unfolding as_queue_push as_queue_increase_capacity as_queue_copy as_queue_size
as_queue_push_lem_example =
    as_queue_push_lem blocks full 1 blocks-IsMemory full-IsValid full-IsGrowable refl

abbrev script : List (Call ℕ)
script = push_limit 1 ∷ push_head_limit 2 ∷ pop ∷ pop_tail ∷ pop ∷ pop ∷ []

run_refines_example : run wrapped script ≡ deque_run 3 (contents wrapped) script
run_refines_example = run_refines script wrapped wrapped-IsValid
