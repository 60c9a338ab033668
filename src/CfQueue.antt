-- ===== src/CfQueue.antt =====
-- src/main/citrusleaf/cf_queue.c and cf_queue.h: an older queue over a circular array, which also
-- inserts at an index, searches, and deletes inside. An element of `element_sz` bytes is one value. The
-- mutex and the condition variable leave no trace in a call that does not wait.
pub mod Ring
pub mod Insert
pub mod Index
pub mod Shift
pub mod Push
pub mod Delete
pub mod Remove
pub mod Reduce
pub mod Scan
pub mod Erase
pub mod Fuel
pub mod Wait
pub mod Wakes
pub mod Pop
pub mod Best
pub mod Sound
pub mod Reach
pub mod Start
mod Tests
use aerospike_common.Common.{
  ℕ, zero, suc, ◌+◌, ◌-◌, ◌*◌, ◌/◌, ◌%◌, ◌^◌, ℤ, pos, negsuc, List, [], Option, none, some, Bool,
  true, false,
}
use aerospike_common.Common.{ltb, leb, ◌==◌, if◌then◌else◌, bit_and, add32, sub32, not, ◌&&◌}
use aerospike_common.Memory.{Memory}
use aerospike_common.Common.{get_elem?, set, take, drop, write}

-- `cf_queue`
pub record CfQueue {ℓ} (A : Type ℓ) : Type ℓ where
  pub threadsafe : Bool
  pub free_struct : Bool
  pub alloc_sz : ℕ
  pub read_offset : ℕ
  pub write_offset : ℕ
  pub n_eles : ℕ
  pub element_sz : ℕ
  pub elements : Option (List A)

abbrev pub cf_queue_allocsz : ℕ
cf_queue_allocsz = 64

abbrev pub cf_queue_ok : ℤ
cf_queue_ok = pos 0

abbrev pub cf_queue_err : ℤ
cf_queue_err = negsuc 0

abbrev pub cf_queue_empty : ℤ
cf_queue_empty = negsuc 1

module _ {ℓ} {A : Type ℓ} where
  abbrev pub slots : CfQueue A → List A
  slots q = elim q.elements [ none ↦ [] | some d ↦ d ]

  -- `cf_queue_sz`
  unfoldable pub cf_queue_sz : CfQueue A → ℕ
  cf_queue_sz q = q.n_eles

  -- `CF_Q_SZ`
  unfoldable pub cf_q_sz : CfQueue A → ℕ
  cf_q_sz q = sub32 q.write_offset q.read_offset

  -- `CF_Q_EMPTY`
  unfoldable pub cf_q_empty : CfQueue A → Bool
  cf_q_empty q = q.write_offset == q.read_offset

  -- `CF_Q_ELEM_PTR`: the slot of an offset.
  unfoldable pub cf_q_elem : CfQueue A → ℕ → ℕ
  cf_q_elem q i = i % q.alloc_sz

  abbrev pub change : CfQueue A → (List A → List A) → CfQueue A
  change q f = record q { elements = elim q.elements [ none ↦ none | some d ↦ some (f d) ] }

  -- `memcpy(CF_Q_ELEM_PTR(q, i), ptr, q->element_sz)`
  unfoldable pub put_element : CfQueue A → ℕ → A → CfQueue A
  unfolding cf_q_elem
  put_element q i x = change q (λ d. set d (cf_q_elem q i) x)

  unfoldable pub cf_queue_unwrap : CfQueue A → CfQueue A
  unfolding cf_q_sz
  cf_queue_unwrap q =
      if bit_and q.write_offset 0xC0000000 == 0
      then q
      else (let sz = cf_q_sz q in
          let head : ℕ = q.read_offset % q.alloc_sz in
          record q { read_offset = head; write_offset = add32 head sz })

  -- The element and the index that moves, behind and before the others.
  unfoldable pub append_element : CfQueue A → A → CfQueue A
  append_element q x =
      let q' = put_element q q.write_offset x in record q' { write_offset = add32 q.write_offset 1 }

  unfoldable pub lift_offsets : CfQueue A → CfQueue A
  lift_offsets q =
      let lift : ℕ = if q.read_offset == 0 then q.alloc_sz else 0 in
      record q {
        read_offset = sub32 (add32 q.read_offset lift) 1;
        write_offset = add32 q.write_offset lift;
      }

  unfoldable pub prepend_element : CfQueue A → A → CfQueue A
  unfolding lift_offsets
  prepend_element q x = let q' = lift_offsets q in put_element q' q'.read_offset x

  -- What every push ends with.
  unfoldable pub count_element : CfQueue A → CfQueue A
  count_element q = cf_queue_unwrap (record q { n_eles = add32 q.n_eles 1 })

  module _ (same : A → A → Bool) where
    -- The search of `cf_queue_push_unique`, through the next `n` offsets from `i`; `same` stands for
    -- `memcmp`.
    unfoldable pub is_queued : CfQueue A → A → ℕ → ℕ → Bool
    unfolding cf_q_elem
    is_queued q x i zero = false
    is_queued q x i (suc n) =
        let rest = is_queued q x (i + 1) n in
        elim (get_elem? (slots q) (cf_q_elem q i)) [
          | none ↦ rest
          | some y ↦ if same y x then true else rest
        ]

  module _ (memory : Memory A) where
    -- The results of `pthread_mutex_init` and `pthread_cond_init` are parameters. `cf_free` leaves no
    -- trace.
    unfoldable pub cf_queue_init : Bool → Bool → ℕ → ℕ → Bool → Option (CfQueue A)
    cf_queue_init mutex_init cond_init element_sz capacity threadsafe =
        elim (memory.malloc (capacity * element_sz % 2 ^ 64)) [
          | none ↦ none
          | some d ↦
              let q : CfQueue A = record {
                threadsafe = threadsafe;
                free_struct = false;
                alloc_sz = capacity;
                read_offset = 0;
                write_offset = 0;
                n_eles = 0;
                element_sz = element_sz;
                elements = some d;
              } in
              if threadsafe
              then if mutex_init then if cond_init then some q else none else none
              else some q
        ]

    unfoldable pub cf_queue_create : Bool → Bool → Bool → ℕ → Bool → Option (CfQueue A)
    unfolding cf_queue_init
    cf_queue_create struct_block mutex_init cond_init element_sz threadsafe =
        if struct_block
        then elim (cf_queue_init mutex_init cond_init element_sz cf_queue_allocsz threadsafe) [
          | none ↦ none
          | some q ↦ some (record q { free_struct = true })
        ]
        else none

    -- A failing `cf_realloc` leaves NULL in `elements`.
    unfoldable pub cf_queue_resize : CfQueue A → ℕ → Bool × CfQueue A
    cf_queue_resize q new_sz =
        if q.read_offset % q.alloc_sz == 0
        then elim (memory.realloc (slots q) (new_sz * q.element_sz % 2 ^ 64)) [
          | none ↦ (false, record q { elements = none })
          | some d ↦ (
            true,
            record q {
              elements = some d;
              read_offset = 0;
              write_offset = q.alloc_sz;
              alloc_sz = new_sz;
            },
          )
        ]
        else elim (memory.malloc (new_sz * q.element_sz % 2 ^ 64)) [
          | none ↦ (false, q)
          | some newq ↦
              let first : ℕ = q.read_offset % q.alloc_sz in
              let end_sz : ℕ = q.alloc_sz - first in
              let upper : List A = take end_sz (drop first (slots q)) in
              let lower : List A = take (q.alloc_sz - end_sz) (slots q) in
              (
                true,
                record q {
                  elements = some (write (write newq 0 upper) end_sz lower);
                  read_offset = 0;
                  write_offset = q.alloc_sz;
                  alloc_sz = new_sz;
                },
              )
        ]

    -- The room that every push makes first.
    unfoldable pub make_room : CfQueue A → Bool × CfQueue A
    make_room q =
        if cf_q_sz q == q.alloc_sz then cf_queue_resize q (q.alloc_sz * 2 % 2 ^ 32) else (true, q)

    unfoldable pub cf_queue_push : CfQueue A → A → ℤ × CfQueue A
    unfolding make_room append_element count_element
    cf_queue_push q x =
        let (done, q') = make_room q in
        if done then (cf_queue_ok, count_element (append_element q' x)) else (cf_queue_err, q')

    unfoldable pub cf_queue_push_limit : CfQueue A → A → ℕ → Bool × CfQueue A
    unfolding make_room append_element count_element
    cf_queue_push_limit q x limit =
        if leb limit (cf_q_sz q)
        then (false, q)
        else (let (done, q') = make_room q in
            if done then (true, count_element (append_element q' x)) else (false, q'))

    unfoldable pub cf_queue_push_head : CfQueue A → A → ℤ × CfQueue A
    unfolding make_room prepend_element count_element
    cf_queue_push_head q x =
        let (done, q') = make_room q in
        if done then (cf_queue_ok, count_element (prepend_element q' x)) else (cf_queue_err, q')

    module _ (same : A → A → Bool) where
      unfoldable pub cf_queue_push_unique : CfQueue A → A → ℤ × CfQueue A
      unfolding is_queued make_room append_element count_element cf_q_sz
      cf_queue_push_unique q x =
          if not (cf_q_sz q == 0)
            && is_queued same q x q.read_offset (q.write_offset - q.read_offset)
          then (negsuc 1, q)
          else cf_queue_push q x

  -- What goes through `buf` stands beside the result.
  unfoldable pub cf_queue_peek : CfQueue A → ℤ × Option A
  unfolding cf_q_elem cf_q_empty
  cf_queue_peek q =
      if cf_q_empty q
      then (cf_queue_empty, none)
      else (cf_queue_ok, get_elem? (slots q) (cf_q_elem q q.read_offset))
