-- ===== src/CfQueue/Push.antt =====
-- The pushes of cf_queue at its ends, against a list and against as_queue.
use aerospike_common.Common.{ℕ, zero, suc, ◌+◌, ◌-◌, ◌%◌, ◌<◌, ◌≡◌, refl, sym, ap, ◌∙◌, arith, ℤ}
use aerospike_common.Common.{
  List, ◌∷◌, [], ◌++◌, Option, none, some, Bool, true, false, Bool-cases, Option-cases, inl, inr,
}
use aerospike_common.Common.{
  if◌then◌else◌, is_zero, leb, ◌==◌, ==→eq, not, ◌&&◌, get_elem?, length, negsuc, ◌⊎◌, ◌≤◌,
}
use aerospike_common.Ring.{window}
use aerospike_common.Memory.{Memory, IsMemory}
use aerospike_common.Queue.{Queue, as_queue_push, as_queue_push_head}
use aerospike_common.Queue.Contents.{held}
use aerospike_common.Queue.Refine.{IsGrowable}
use aerospike_common.CfQueue.{
  CfQueue, slots, make_room, cf_queue_push, cf_queue_push_head, cf_queue_push_limit,
  cf_queue_push_unique, is_queued, cf_q_sz, cf_q_elem, cf_queue_ok,
}
use aerospike_common.CfQueue.Ring.{
  ring, IsSound, elements_of, ring-append, ring-prepend, ring-make_room, make_room-IsSound,
  append-IsSound, prepend-IsSound, held_length,
}

module _ {ℓ} {A : Type ℓ} where
  -- What a successful call returns: a sound queue with these elements.
  abbrev pub Holds : CfQueue A → List (Option A) → Type ℓ
  Holds q c = IsSound q × (elements_of q ≡ c)

  -- Whether an element that `same` accepts is there.
  pub any_same : (A → A → Bool) → A → List (Option A) → Bool
  any_same same x [] = false
  any_same same x (none ∷ c) = any_same same x c
  any_same same x (some y ∷ c) = if same y x then true else any_same same x c

  is_queued_lem :
      (same : A → A → Bool) (q : CfQueue A) (x : A) (i n : ℕ)
      → is_queued same q x i n ≡ any_same same x (window (slots q) q.alloc_sz i n)
  unfolding is_queued any_same cf_q_elem
  is_queued_lem same q x i zero = refl
  is_queued_lem same q x i (suc n) = elim (Option-cases (get_elem? (slots q) (i % q.alloc_sz))) [
    | inl past ↦ ground (arith, past, is_queued_lem same q x (i + 1) n)
    | inr (y, there) ↦ ground (arith, there, is_queued_lem same q x (i + 1) n)
  ]

  pub size_lem : (q : CfQueue A) → IsSound q → cf_q_sz q ≡ length (elements_of q)
  unfolding cf_q_sz
  size_lem q v = omega (arith, held_length q, v.valid.order, v.valid.bound)

  abbrev pub result : ℤ × CfQueue A → Bool × Queue A
  result r = (is_zero r.0, ring r.1)

  module _ (memory : Memory A) (q : CfQueue A) (x : A) where
    -- A push at either end.
    pub cf_queue_push_lem :
        IsMemory memory q.element_sz
        → IsSound q
        → IsGrowable (ring q)
        → (cf_queue_push memory q x).0 ≡ cf_queue_ok
        → Holds (cf_queue_push memory q x).1 (elements_of q ++ (some x ∷ []))
    unfolding cf_queue_push
    cf_queue_push_lem law v g done = elim (Bool-cases (make_room memory q).0) [
      | inl made ↦
          let (v', kept, room) = make_room-IsSound memory q law v g made in
          let (sound, listed) = append-IsSound (make_room memory q).1 x v' room in
          rw made (sound, listed ∙ ap (λ c. c ++ (some x ∷ [])) kept)
      | inr failed ↦ absurd (ground arith)
    ]

    pub cf_queue_push_head_lem :
        IsMemory memory q.element_sz
        → IsSound q
        → IsGrowable (ring q)
        → (cf_queue_push_head memory q x).0 ≡ cf_queue_ok
        → Holds (cf_queue_push_head memory q x).1 (some x ∷ elements_of q)
    unfolding cf_queue_push_head
    cf_queue_push_head_lem law v g done = elim (Bool-cases (make_room memory q).0) [
      | inl made ↦
          let (v', kept, room) = make_room-IsSound memory q law v g made in
          let (sound, listed) = prepend-IsSound (make_room memory q).1 x v' room in
          rw made (sound, listed ∙ ap (◌∷◌ (some x)) kept)
      | inr failed ↦ absurd (ground arith)
    ]

    -- On a queue whose items and bytes can be doubled, `cf_queue_push` and `as_queue_push` succeed alike
    -- and leave the same array and offsets.
    pub cf_queue_push-eq-as_queue_push :
        IsGrowable (ring q) → result (cf_queue_push memory q x) ≡ as_queue_push memory (ring q) x
    unfolding cf_queue_push as_queue_push
    cf_queue_push-eq-as_queue_push g =
        rw (← ring-make_room memory q g) (elim (Bool-cases (make_room memory q).0) [
          | inl made ↦ rw made (ap (λ r. (true, r)) (ring-append (make_room memory q).1 x))
          | inr failed ↦ rw failed refl
        ])

    -- The same of the pushes before the head.
    pub cf_queue_push_head-eq-as_queue_push_head :
        IsGrowable (ring q)
        → result (cf_queue_push_head memory q x) ≡ as_queue_push_head memory (ring q) x
    unfolding cf_queue_push_head as_queue_push_head
    cf_queue_push_head-eq-as_queue_push_head g =
        rw (← ring-make_room memory q g) (elim (Bool-cases (make_room memory q).0) [
          | inl made ↦ rw made (ap (λ r. (true, r)) (ring-prepend (make_room memory q).1 x))
          | inr failed ↦ rw failed refl
        ])

    -- The guard of `cf_queue_push_limit`, and what it does behind it.
    pub cf_queue_push_limit_lem :
        (limit : ℕ)
        → IsMemory memory q.element_sz
        → IsSound q
        → IsGrowable (ring q)
        → let r = cf_queue_push_limit memory q x limit in
          ((length (elements_of q) < limit)
            × (r.0 ≡ true)
            × Holds r.1 (elements_of q ++ (some x ∷ [])))
          ⊎ (limit ≤ length (elements_of q)) × (r ≡ (false, q))
          ⊎ (length (elements_of q) < limit) × ((make_room memory q).0 ≡ false) × (r.0 ≡ false)
    unfolding cf_queue_push_limit
    cf_queue_push_limit_lem limit law v g = elim (Bool-cases (leb limit (cf_q_sz q))) [
      | inl reached ↦ inr (inl ((ground (arith, size_lem q v)), rw reached refl))
      | inr below ↦ elim (Bool-cases (make_room memory q).0) [
        | inl made ↦
            let (v', kept, room) = make_room-IsSound memory q law v g made in
            let (sound, listed) = append-IsSound (make_room memory q).1 x v' room in
            inl (
              ground (arith, size_lem q v),
              rw (below, made) refl,
              rw (below, made) (sound, listed ∙ ap (λ c. c ++ (some x ∷ [])) kept),
            )
        | inr failed ↦ inr (inr (ground (arith, size_lem q v), failed, rw (below, failed) refl))
      ]
    ]

    -- `cf_queue_push_unique` on a sound queue.
    pub cf_queue_push_unique_lem :
        (same : A → A → Bool)
        → IsSound q
        → cf_queue_push_unique memory same q x
          ≡ (if any_same same x (elements_of q) then (negsuc 1, q) else cf_queue_push memory q x)
    unfolding cf_queue_push_unique
    cf_queue_push_unique_lem same v = rw (searched) refl
      where
        searched :
            (not (cf_q_sz q == 0)
              && is_queued same q x q.read_offset (q.write_offset - q.read_offset))
            ≡ any_same same x (elements_of q)
        searched = elim (Bool-cases (cf_q_sz q == 0)) [
          | inl empty ↦
              let none_held : held (ring q) ≡ 0 =
                held_length q ∙ sym (size_lem q v) ∙ ==→eq _ _ empty in
              unfold any_same in rw (empty, none_held) refl
          | inr full ↦ rw full (is_queued_lem same q x q.read_offset (held (ring q)))
        ]
