-- ===== src/QueueMt/Tests.antt =====
-- The waiting pops at concrete queues.
use mathlib.Core.List.{map}
use aerospike_common.Common.{ℕ, ◌≡◌, refl, arith, List, [], ◌∷◌, some, true}
use aerospike_common.Queue.{
  Queue, as_queue_push_limit, as_queue_unwrap, put_item, as_queue_pop, as_queue_size,
  as_queue_reset,
}
use aerospike_common.Queue.Contents.{IsValid, contents}
use aerospike_common.Queue.Refine.{pop_first}
use aerospike_common.Queue.Runs.{Call, call, push_limit, pop}
use aerospike_common.QueueMt.{returned, as_queue_mt_pop, once_woken, as_queue_forever}
use aerospike_common.QueueMt.Refine.{calls, deque_wait, seen_end, as_queue_mt_pop_refines}

-- Nothing in an array of three, with both indices at the last slot.
abbrev drained : Queue ℕ
drained = record {
  items = some (9 ∷ 7 ∷ 8 ∷ []);
  capacity = 3;
  head = 5;
  tail = 5;
  item_size = 4;
  total = 0;
  flags = 1;
}

drained-IsValid : IsValid drained
drained-IsValid = record {
  stored = refl;
  some_slot = omega arith;
  small = omega arith;
  order = omega arith;
  fits = omega arith;
  bound = omega arith;
}

-- One thread takes back what it has put there; then another puts 4 and 6.
abbrev others : List (List (Call ℕ))
others = (push_limit 2 ∷ pop ∷ []) ∷ (push_limit 4 ∷ push_limit 6 ∷ []) ∷ []

as_queue_mt_pop_refines_example :
    seen_end (as_queue_mt_pop as_queue_forever (map calls others) drained)
    ≡ once_woken pop_first (deque_wait as_queue_forever 3 others (contents drained))
as_queue_mt_pop_refines_example =
    as_queue_mt_pop_refines as_queue_forever others drained drained-IsValid

-- The pop that waits finds the 4, and leaves the 6.
pop_four :
    seen_end (as_queue_mt_pop as_queue_forever (map calls others) drained)
    ≡ returned true (some 4) (some 6 ∷ [])
unfolding as_queue_mt_pop calls call as_queue_pop as_queue_push_limit as_queue_size as_queue_unwrap
    put_item as_queue_reset
pop_four = refl
