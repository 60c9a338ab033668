-- ===== src/CfQueue/Start.antt =====
-- `cf_queue_init`: the state that a queue starts in.
use native.Mathlib.Nat.{mod-eq_of_lt, mul-div_cancel}
use mathlib.Core.Path.{subst}
use aerospike_common.Common.{ℕ, ◌*◌, ◌/◌, ◌%◌, ◌^◌, ◌≤◌, ◌<◌, ◌≡◌, refl, ap, ◌∙◌, arith}
use aerospike_common.Common.{
  List, [], Option, none, some, Bool, true, false, Option-cases, inl, inr,
}
use aerospike_common.Common.{length}
use aerospike_common.Memory.{Memory, IsMemory}
use aerospike_common.CfQueue.{CfQueue, cf_queue_init}
use aerospike_common.CfQueue.Push.{Holds}

module _ {ℓ} {A : Type ℓ} where
  fresh : ℕ → ℕ → Bool → List A → CfQueue A
  fresh element_sz capacity threadsafe d = record {
    threadsafe = threadsafe;
    free_struct = false;
    alloc_sz = capacity;
    read_offset = 0;
    write_offset = 0;
    n_eles = 0;
    element_sz = element_sz;
    elements = some d;
  }

  fresh-Holds :
      (element_sz capacity : ℕ) (threadsafe : Bool) (d : List A)
      → length d ≡ capacity
      → 0 < capacity
      → capacity ≤ 2 ^ 30
      → Holds (fresh element_sz capacity threadsafe d) []
  unfolding fresh
  fresh-Holds element_sz capacity threadsafe d stored some_slot small = (
    record {
      valid = record {
        stored = stored;
        some_slot = some_slot;
        small = small;
        order = omega arith;
        fits = omega arith;
        bound = omega arith;
      };
      counted = omega arith;
    },
    refl,
  )

  or_else : CfQueue A → Option (CfQueue A) → CfQueue A
  or_else q none = q
  or_else q (some r) = r

  no_room :
      (memory : Memory A) (mutex_init cond_init : Bool) (element_sz capacity : ℕ)
      (threadsafe : Bool) (q : CfQueue A)
      → memory.malloc (capacity * element_sz % 2 ^ 64) ≡ none
      → cf_queue_init memory mutex_init cond_init element_sz capacity threadsafe ≡ some q
      → ⊥
  unfolding cf_queue_init
  no_room memory mutex_init cond_init element_sz capacity threadsafe q null e = ground arith

  made :
      (memory : Memory A) (mutex_init cond_init : Bool) (element_sz capacity : ℕ)
      (threadsafe : Bool) (q : CfQueue A) (d : List A)
      → memory.malloc (capacity * element_sz % 2 ^ 64) ≡ some d
      → cf_queue_init memory mutex_init cond_init element_sz capacity threadsafe ≡ some q
      → fresh element_sz capacity threadsafe d ≡ q
  unfolding cf_queue_init fresh or_else
  made memory m c element_sz capacity false q d given e =
      ap (or_else q) (rw (given, cf_queue_init) at e)
  made memory true true element_sz capacity true q d given e =
      ap (or_else q) (rw (given, cf_queue_init) at e)
  made memory true false element_sz capacity true q d given e = absurd (ground arith)
  made memory false c element_sz capacity true q d given e = absurd (ground arith)

  -- A new queue is sound and empty, if its capacity is from 1 to 2^30 and `malloc` gives the bytes.
  pub cf_queue_init-Holds :
      (memory : Memory A) (mutex_init cond_init : Bool) (element_sz capacity : ℕ)
      (threadsafe : Bool) (q : CfQueue A)
      → IsMemory memory element_sz
      → 0 < element_sz
      → 0 < capacity
      → capacity ≤ 2 ^ 30
      → capacity * element_sz < 2 ^ 64
      → cf_queue_init memory mutex_init cond_init element_sz capacity threadsafe ≡ some q
      → Holds q []
  cf_queue_init-Holds memory mutex_init cond_init element_sz capacity threadsafe q law size
        some_slot small fits e =
      elim (Option-cases (memory.malloc (capacity * element_sz % 2 ^ 64))) [
        | inl null ↦
            absurd (no_room memory mutex_init cond_init element_sz capacity threadsafe q null e)
        | inr (d, given) ↦
            let stored : length d ≡ capacity =
              law.malloc_sized _ d given
              ∙ ap (λ n. n / element_sz) (mod-eq_of_lt fits)
              ∙ mul-div_cancel capacity size in
            let same : fresh element_sz capacity threadsafe d ≡ q =
              made memory mutex_init cond_init element_sz capacity threadsafe q d given e in
            subst (λ r. Holds r []) same
              (fresh-Holds element_sz capacity threadsafe d stored some_slot small)
      ]
