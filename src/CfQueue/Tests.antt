-- ===== src/CfQueue/Tests.antt =====
-- Runs of cf_queue, and its theorems at concrete queues.
use aerospike_common.Common.{
  ℕ, ◌≡◌, refl, arith, ℤ, pos, negsuc, suc, List, [], ◌∷◌, Option, none, some, Bool, true, false,
}
use aerospike_common.Common.{◌==◌, if◌then◌else◌, ltb, ltb→lt, not, length, Bool-cases, inl, inr}
use aerospike_common.Memory.Blocks.{blocks, blocks-IsMemory}
use aerospike_common.Queue.{as_queue_push}
use aerospike_common.Queue.Contents.{held}
use aerospike_common.Queue.Refine.{IsGrowable}
use aerospike_common.CfQueue.{
  CfQueue, cf_queue_push, cf_queue_resize, cf_q_empty, cf_queue_ok, append_element, count_element,
  make_room, cf_queue_unwrap, put_element,
}
use aerospike_common.CfQueue.Ring.{ring, IsSound, elements_of, append-IsSound}
use aerospike_common.CfQueue.Push.{Holds, result, cf_queue_push-eq-as_queue_push}
use aerospike_common.CfQueue.Insert.{cf_queue_push_index, insert_down}
use aerospike_common.CfQueue.Index.{insert_at, cf_queue_push_index_lem}
use aerospike_common.CfQueue.Delete.{cf_queue_delete_offset, remove_at}
use aerospike_common.CfQueue.Remove.{cf_queue_delete_offset_lem}
use aerospike_common.CfQueue.Reduce.{cf_queue_reduce}
use aerospike_common.CfQueue.Scan.{reduce_list, cf_queue_reduce_lem}
use aerospike_common.CfQueue.Erase.{
  cf_queue_delete, cf_queue_delete_all, delete_from, erase_first, report, cf_queue_delete_lem,
  cf_queue_delete_all_lem,
}
use aerospike_common.CfQueue.Fuel.{delete_from-enough}
use aerospike_common.CfQueue.Wait.{
  returned, cf_queue_pop, cf_queue_reduce_pop, cf_queue_forever, cf_queue_nowait,
}
use aerospike_common.CfQueue.Wakes.{KeepSound, run_wakes, FirstFull}
use aerospike_common.CfQueue.Pop.{PopEnd, cf_queue_pop-ends, cf_queue_pop-returns}
use aerospike_common.CfQueue.Best.{BestEnd, cf_queue_reduce_pop-ends}
use aerospike_common.CfQueue.Reach.{at_start, later, pushed_index, reduced, deleted, Reach-IsSound}

-- 5, 6, 7 and 7 round the end of an array of four.
abbrev wrapped : CfQueue ℕ
wrapped = record {
  threadsafe = true;
  free_struct = true;
  alloc_sz = 4;
  read_offset = 2;
  write_offset = 6;
  n_eles = 4;
  element_sz = 4;
  elements = some (7 ∷ 7 ∷ 5 ∷ 6 ∷ []);
}

abbrev drained : CfQueue ℕ
drained = record wrapped { write_offset = 2; n_eles = 0 }

wrapped-IsSound : IsSound wrapped
wrapped-IsSound = record {
  valid = record {
    stored = refl;
    some_slot = omega arith;
    small = omega arith;
    order = omega arith;
    fits = omega arith;
    bound = omega arith;
  };
  counted = refl;
}

drained-IsSound : IsSound drained
drained-IsSound = record {
  valid = record {
    stored = refl;
    some_slot = omega arith;
    small = omega arith;
    order = omega arith;
    fits = omega arith;
    bound = omega arith;
  };
  counted = refl;
}

wrapped-IsGrowable : IsGrowable (ring wrapped)
wrapped-IsGrowable = record {
  some_size = omega arith;
  items_fit = omega arith;
  bytes_fit = omega arith;
}

elements_of-wrapped : elements_of wrapped ≡ some 5 ∷ some 6 ∷ some 7 ∷ some 7 ∷ []
elements_of-wrapped = refl

abbrev eq : ℕ → ℕ → Bool
eq m n = m == n

-- In an array that wraps, `cf_queue_delete` without `only_one` passes over the element behind one
-- that it has deleted: a 7 stays.
delete_skips :
    elements_of (cf_queue_delete eq wrapped (some 7) false).1 ≡ some 5 ∷ some 6 ∷ some 7 ∷ []
unfolding cf_queue_delete
delete_skips = refl

-- With the same elements in a row it deletes both.
delete_both :
    elements_of
      (cf_queue_delete eq
        (record wrapped { read_offset = 4; write_offset = 8; elements = some (5 ∷ 6 ∷ 7 ∷ 7 ∷ []) })
        (some 7)
        false).1
    ≡ some 5 ∷ some 6 ∷ []
unfolding cf_queue_delete
delete_both = refl

cf_queue_push_index_lem_example :
    Holds (cf_queue_push_index blocks wrapped 9 1).1 (insert_at 1 9 (elements_of wrapped))
unfolding cf_queue_push_index make_room cf_queue_resize
cf_queue_push_index_lem_example =
    cf_queue_push_index_lem blocks wrapped 9 1 blocks-IsMemory wrapped-IsSound wrapped-IsGrowable
      refl

cf_queue_delete_offset_lem_example :
    Holds (cf_queue_delete_offset wrapped 4) (remove_at 2 (elements_of wrapped))
unfolding cf_queue_delete_offset
cf_queue_delete_offset_lem_example =
    cf_queue_delete_offset_lem wrapped 2 wrapped-IsSound (omega arith)

-- The callback takes the first 7, and counts the elements that it has seen.
abbrev first_seven : ℕ → ℕ → ℤ × ℕ
first_seven x seen = (if x == 7 then negsuc 1 else pos 0, suc seen)

-- An insertion, which makes the array grow, a reduction that deletes a 7, and a deletion.
abbrev inserted : CfQueue ℕ
inserted = (cf_queue_push_index blocks wrapped 9 1).1

abbrev without_seven : CfQueue ℕ
without_seven = (cf_queue_reduce first_seven inserted 0).2

Reach-IsSound_example : IsSound (cf_queue_delete eq without_seven none true).1
unfolding cf_queue_push_index make_room cf_queue_resize cf_queue_unwrap insert_down cf_queue_reduce
Reach-IsSound_example = Reach-IsSound {S = ℕ} wrapped-IsSound (
    later {q = without_seven}
      (later {q = inserted}
        (later {q = wrapped} at_start blocks-IsMemory (pushed_index 9 1 wrapped-IsGrowable refl))
        blocks-IsMemory (reduced first_seven 0))
      blocks-IsMemory (deleted none true))

cf_queue_reduce_lem_example :
    let r = cf_queue_reduce first_seven wrapped 0 in
    let (udata', c) = reduce_list first_seven 0 (elements_of wrapped) in
    (r.0 ≡ cf_queue_ok) × (r.1 ≡ udata') × Holds r.2 c
cf_queue_reduce_lem_example = cf_queue_reduce_lem first_seven wrapped wrapped-IsSound 0

cf_queue_delete_lem_example :
    let r = cf_queue_delete eq wrapped (some 7) true in
    let (found, c) = erase_first eq 7 (elements_of wrapped) in (r.0 ≡ report eq found) × Holds r.1 c
cf_queue_delete_lem_example = cf_queue_delete_lem eq 7 wrapped wrapped-IsSound

cf_queue_delete_all_lem_example :
    let r = cf_queue_delete_all eq wrapped in
    (r.0 ≡ report eq (not (length (elements_of wrapped) == 0))) × Holds r.1 []
cf_queue_delete_all_lem_example = cf_queue_delete_all_lem eq wrapped wrapped-IsSound

delete_from-enough_example :
    delete_from eq (some 7) false 2 9 wrapped false
    ≡ delete_from eq (some 7) false 2 4 wrapped false
delete_from-enough_example =
    delete_from-enough eq (some 7) false 4 9 wrapped 2 false (omega arith) (omega arith)
      (omega arith)

cf_queue_push-eq-as_queue_push_example :
    result (cf_queue_push blocks wrapped 9) ≡ as_queue_push blocks (ring wrapped) 9
cf_queue_push-eq-as_queue_push_example =
    cf_queue_push-eq-as_queue_push blocks wrapped 9 wrapped-IsGrowable

-- While the caller waits, another thread pushes a 9.
abbrev push_nine : CfQueue ℕ → CfQueue ℕ
push_nine q = if ltb (held (ring q)) q.alloc_sz then count_element (append_element q 9) else q

push_nine-IsSound : (q : CfQueue ℕ) → IsSound q → IsSound (push_nine q)
push_nine-IsSound q v = elim (Bool-cases (ltb (held (ring q)) q.alloc_sz)) [
  | inl room ↦ rw room (append-IsSound q 9 v (ltb→lt _ _ room)).0
  | inr full ↦ rw full v
]

others-KeepSound : KeepSound (push_nine ∷ [])
unfolding KeepSound
others-KeepSound = (push_nine-IsSound, tt)

cf_queue_pop-ends_example :
    PopEnd true cf_queue_forever
      (push_nine ∷ [])
      drained
      (cf_queue_pop cf_queue_forever (push_nine ∷ []) drained)
cf_queue_pop-ends_example =
    cf_queue_pop-ends cf_queue_forever (push_nine ∷ []) drained others-KeepSound drained-IsSound

cf_queue_pop-returns_example :
    (filled : CfQueue ℕ) × (x : ℕ) × (c : List (Option ℕ)) × (q' : CfQueue ℕ) × FirstFull
      (push_nine ∷ [])
      drained
      filled
    × (elements_of filled ≡ some x ∷ c)
    × Holds q' c
    × (cf_queue_pop cf_queue_forever (push_nine ∷ []) drained ≡ returned cf_queue_ok (some x) q')
unfolding run_wakes cf_q_empty append_element count_element cf_queue_unwrap put_element
cf_queue_pop-returns_example =
    cf_queue_pop-returns (push_nine ∷ []) drained others-KeepSound drained-IsSound refl refl

cf_queue_reduce_pop-ends_example :
    BestEnd first_seven true cf_queue_nowait [] wrapped 0
      (cf_queue_reduce_pop first_seven cf_queue_nowait [] wrapped 0)
unfolding KeepSound
cf_queue_reduce_pop-ends_example =
    cf_queue_reduce_pop-ends first_seven cf_queue_nowait [] wrapped 0 tt wrapped-IsSound

-- The pop finds the 9 that arrives meanwhile.
pop_nine :
    cf_queue_pop cf_queue_forever (push_nine ∷ []) drained
    ≡ returned cf_queue_ok
        (some 9)
        (record drained { read_offset = 0; write_offset = 0; elements = some (7 ∷ 7 ∷ 9 ∷ 6 ∷ []) })
unfolding cf_queue_pop append_element count_element cf_queue_unwrap put_element
pop_nine = refl
