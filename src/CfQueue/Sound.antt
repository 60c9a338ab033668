-- ===== src/CfQueue/Sound.antt =====
-- `cf_queue_delete`, in all its uses, keeps a queue sound.
use mathlib.Core.Path.{subst}
use aerospike_common.Common.{ℕ, zero, suc, ◌+◌, ◌-◌, ◌^◌, ◌≤◌, ◌<◌, ◌≡◌, arith}
use aerospike_common.Common.{Option, none, some, Bool, true, false, Bool-cases, inl, inr}
use aerospike_common.Common.{ltb, ltb→lt, ◌==◌, get_elem?}
use aerospike_common.CfQueue.{CfQueue, slots, cf_q_elem, cf_q_sz}
use aerospike_common.CfQueue.Ring.{IsSound}
use aerospike_common.CfQueue.Delete.{cf_queue_delete_offset}
use aerospike_common.CfQueue.Remove.{cf_queue_delete_offset_lem}
use aerospike_common.CfQueue.Erase.{delete_turn, delete_from, cf_queue_delete}

module _ {ℓ} {A : Type ℓ} where
  head_moves_one :
      (q : CfQueue A) (i : ℕ)
      → q.read_offset < 2 ^ 31
      → (cf_queue_delete_offset q i).read_offset ≤ q.read_offset + 1
  unfolding cf_queue_delete_offset
  head_moves_one q i bound = ground arith

  pub offset_IsSound :
      (q : CfQueue A) (i : ℕ)
      → IsSound q
      → q.read_offset ≤ i
      → i < q.write_offset
      → IsSound (cf_queue_delete_offset q i)
  offset_IsSound q i v from to =
      let place : q.read_offset + (i - q.read_offset) ≡ i = omega arith in
      subst (λ j. IsSound (cf_queue_delete_offset q j)) place
        (cf_queue_delete_offset_lem q (i - q.read_offset) v (omega arith)).0

  module _ (same : A → A → Bool) where
    turn-IsSound :
        (ptr : Option A) (only_one : Bool) (q : CfQueue A) (found : Bool) (i : ℕ)
        (next : CfQueue A → Bool → Bool × CfQueue A) (o : Option A)
        → IsSound q
        → ((b : Bool) → IsSound (next q b).1)
        → ((b : Bool) → IsSound (next (cf_queue_delete_offset q i) b).1)
        → IsSound (cf_queue_delete_offset q i)
        → IsSound (delete_turn same ptr only_one q found i next o).1
    unfolding delete_turn
    turn-IsSound none true q found i next o v kept gone less = less
    turn-IsSound none false q found i next o v kept gone less = gone true
    turn-IsSound (some x) only_one q found i next none v kept gone less = v
    turn-IsSound (some x) true q found i next (some y) v kept gone less =
        elim (Bool-cases (same y x)) [ inl hit ↦ rw hit less | inr miss ↦ rw miss (kept found) ]
    turn-IsSound (some x) false q found i next (some y) v kept gone less =
        elim (Bool-cases (same y x)) [
          | inl hit ↦ rw hit (gone true)
          | inr miss ↦ rw miss (kept found)
        ]

    delete_from-IsSound :
        (ptr : Option A) (only_one : Bool) (n : ℕ) (q : CfQueue A) (i : ℕ) (found : Bool)
        → IsSound q
        → q.read_offset ≤ i
        → IsSound (delete_from same ptr only_one i n q found).1
    unfolding delete_from
    delete_from-IsSound ptr only_one zero q i found v from = v
    delete_from-IsSound ptr only_one (suc n) q i found v from =
        elim (Bool-cases (ltb i q.write_offset)) [
          | inl inside ↦
              let less : IsSound (cf_queue_delete_offset q i) =
                offset_IsSound q i v from (ltb→lt _ _ inside) in
              rw inside (
                turn-IsSound ptr only_one q found i (delete_from same ptr only_one (i + 1) n)
                  (get_elem? (slots q) (cf_q_elem q i)) v
                  (λ b. delete_from-IsSound ptr only_one n q (i + 1) b v (omega arith))
                  (λ b.
                    delete_from-IsSound ptr only_one n (cf_queue_delete_offset q i) (i + 1) b less (
                      omega (
                        arith,
                        head_moves_one q i (omega (arith, v.valid.order, v.valid.bound)),
                        from,
                      )))
                  less)
          | inr past ↦ rw past v
        ]

    pub cf_queue_delete-IsSound :
        (q : CfQueue A) (ptr : Option A) (only_one : Bool)
        → IsSound q
        → IsSound (cf_queue_delete same q ptr only_one).1
    unfolding cf_queue_delete
    cf_queue_delete-IsSound q ptr only_one v = elim (Bool-cases (cf_q_sz q == 0)) [
      | inl empty ↦ rw empty v
      | inr some_held ↦ rw some_held (
          delete_from-IsSound ptr only_one (q.write_offset - q.read_offset) q q.read_offset false v
            (omega arith))
    ]
