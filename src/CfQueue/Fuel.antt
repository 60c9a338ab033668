-- ===== src/CfQueue/Fuel.antt =====
-- The loop of `cf_queue_delete` ends: the fuel it is given is enough.
use aerospike_common.Common.{ℕ, zero, suc, ◌+◌, ◌^◌, ◌≤◌, ◌<◌, ◌≡◌, refl, sym, ◌∙◌, arith}
use aerospike_common.Common.{Option, none, some, Bool, true, false, Bool-cases, inl, inr}
use aerospike_common.Common.{ltb, ltb→lt, le→not_ltb, get_elem?}
use aerospike_common.CfQueue.{CfQueue, slots, cf_q_elem}
use aerospike_common.CfQueue.Delete.{cf_queue_delete_offset}
use aerospike_common.CfQueue.Erase.{delete_turn, delete_from}

module _ {ℓ} {A : Type ℓ} where
  -- A deletion never moves the end of the loop further away.
  write_offset-cf_queue_delete_offset :
      (q : CfQueue A) (i : ℕ)
      → q.write_offset < 2 ^ 32
      → i < q.write_offset
      → (cf_queue_delete_offset q i).write_offset ≤ q.write_offset
  unfolding cf_queue_delete_offset
  write_offset-cf_queue_delete_offset q i bound lt = ground arith

  module _ (same : A → A → Bool) where
    delete_turn-congr :
        (ptr : Option A) (only_one : Bool) (q : CfQueue A) (found : Bool) (i : ℕ)
        (f g : CfQueue A → Bool → Bool × CfQueue A) (o : Option A)
        → ((b : Bool) → f q b ≡ g q b)
        → ((b : Bool) → f (cf_queue_delete_offset q i) b ≡ g (cf_queue_delete_offset q i) b)
        → delete_turn same ptr only_one q found i f o ≡ delete_turn same ptr only_one q found i g o
    unfolding delete_turn
    delete_turn-congr none true q found i f g o kept gone = refl
    delete_turn-congr none false q found i f g o kept gone = gone true
    delete_turn-congr (some x) only_one q found i f g none kept gone = refl
    delete_turn-congr (some x) true q found i f g (some y) kept gone =
        elim (Bool-cases (same y x)) [ inl hit ↦ rw hit refl | inr miss ↦ rw miss (kept found) ]
    delete_turn-congr (some x) false q found i f g (some y) kept gone =
        elim (Bool-cases (same y x)) [
          | inl hit ↦ rw hit (gone true)
          | inr miss ↦ rw miss (kept found)
        ]

    delete_from-past :
        (ptr : Option A) (only_one : Bool) (n : ℕ) (q : CfQueue A) (i : ℕ) (found : Bool)
        → q.write_offset ≤ i
        → delete_from same ptr only_one i n q found ≡ (found, q)
    unfolding delete_from
    delete_from-past ptr only_one zero q i found past = refl
    delete_from-past ptr only_one (suc n) q i found past =
        rw (le→not_ltb i q.write_offset past) refl

    -- The loop of `cf_queue_delete`, whatever it deletes, has the same result with any fuel from the
    -- distance between the offset and the tail on, if the tail is below 2^32.
    pub delete_from-enough :
        (ptr : Option A) (only_one : Bool) (n m : ℕ) (q : CfQueue A) (i : ℕ) (found : Bool)
        → q.write_offset < 2 ^ 32
        → q.write_offset ≤ i + n
        → n ≤ m
        → delete_from same ptr only_one i m q found ≡ delete_from same ptr only_one i n q found
    unfolding delete_from
    delete_from-enough ptr only_one zero m q i found bound past more =
        delete_from-past ptr only_one m q i found (omega arith)
        ∙ sym (delete_from-past ptr only_one zero q i found (omega arith))
    delete_from-enough ptr only_one (suc n) zero q i found bound past more = absurd (omega arith)
    delete_from-enough ptr only_one (suc n) (suc m) q i found bound past more =
        elim (Bool-cases (ltb i q.write_offset)) [
          | inl inside ↦ rw inside (
              delete_turn-congr ptr only_one q found i (delete_from same ptr only_one (i + 1) m)
                (delete_from same ptr only_one (i + 1) n) (get_elem? (slots q) (cf_q_elem q i))
                (λ b.
                  delete_from-enough ptr only_one n m q (i + 1) b bound (omega arith) (omega arith))
                (λ b.
                  let le = write_offset-cf_queue_delete_offset q i bound (ltb→lt _ _ inside) in
                  delete_from-enough ptr only_one n m (cf_queue_delete_offset q i) (i + 1) b
                    (omega (arith, le)) (omega (arith, le)) (omega arith)))
          | inr past_tail ↦ rw past_tail refl
        ]
