-- ===== src/CfQueue/Wakes.antt =====
-- How the waits of `cf_queue_pop` and `cf_queue_reduce_pop` end, whatever the other threads do
-- meanwhile.
use aerospike_common.Common.{◌≡◌, refl, ap, ◌∙◌, arith, ℤ, pos, negsuc, eq_int}
use aerospike_common.Common.{List, ◌∷◌, [], Bool, true, false, ◌&&◌, Bool-cases, inl, inr}
use aerospike_common.Common.{if◌then◌else◌}
use aerospike_common.CfQueue.{CfQueue, cf_q_empty}
use aerospike_common.CfQueue.Ring.{IsSound}
use aerospike_common.CfQueue.Wait.{
  Waited, ready, gave_up, waiting, wait_loop, cf_queue_wait, cf_queue_forever, cf_queue_nowait,
}

forever_waits :
    (ms_wait : ℤ) → eq_int cf_queue_forever ms_wait ≡ true → eq_int cf_queue_nowait ms_wait ≡ false
forever_waits (pos n) e = absurd (ground arith)
forever_waits (negsuc n) e = refl

module _ {ℓ} {A : Type ℓ} where
  -- What the other threads do keeps the queue sound and leaves its kind alone.
  unfoldable pub KeepSound : List (CfQueue A → CfQueue A) → Type ℓ
  KeepSound [] = Unit
  KeepSound (wake ∷ wakes) = ((q : CfQueue A) → IsSound q → IsSound (wake q)) × KeepSound wakes

  -- The queue is in this state at the start or after some of the wakes.
  pub data Passed : List (CfQueue A → CfQueue A) → CfQueue A → CfQueue A → Type ℓ where
    here : {wakes : List (CfQueue A → CfQueue A)} {q : CfQueue A} → Passed wakes q q
    later :
        {wake : CfQueue A → CfQueue A} {wakes : List (CfQueue A → CfQueue A)} {q q' : CfQueue A}
        → Passed wakes (wake q) q'
        → Passed (wake ∷ wakes) q q'

  -- How a wait may end on a sound queue.
  pub data WaitEnd (threadsafe : Bool) (ms_wait : ℤ) (wakes : List (CfQueue A → CfQueue A))
      (start : CfQueue A) : Waited A → Type ℓ where
    filled :
        {q : CfQueue A}
        → Passed wakes start q
        → IsSound q
        → cf_q_empty q ≡ false
        → WaitEnd threadsafe ms_wait wakes start (ready q)
    elapsed :
        {q : CfQueue A}
        → Passed wakes start q
        → IsSound q
        → cf_q_empty q ≡ true
        → (threadsafe && eq_int cf_queue_forever ms_wait) ≡ false
        → WaitEnd threadsafe ms_wait wakes start (gave_up q)
    asleep :
        {q : CfQueue A}
        → Passed wakes start q
        → IsSound q
        → cf_q_empty q ≡ true
        → eq_int cf_queue_nowait ms_wait ≡ false
        → WaitEnd threadsafe ms_wait wakes start (waiting q)

  after_wake :
      {ms_wait : ℤ} {wake : CfQueue A → CfQueue A} {wakes : List (CfQueue A → CfQueue A)}
      {q : CfQueue A} {w : Waited A}
      → WaitEnd true ms_wait wakes (wake q) w
      → WaitEnd true ms_wait (wake ∷ wakes) q w
  after_wake (filled p v full) = filled (later p) v full
  after_wake (elapsed p v empty limited) = elapsed (later p) v empty limited
  after_wake (asleep p v empty may_wait) = asleep (later p) v empty may_wait

  wait_loop-ends :
      (ms_wait : ℤ) (wakes : List (CfQueue A → CfQueue A)) (q : CfQueue A)
      → KeepSound wakes
      → IsSound q
      → WaitEnd true ms_wait wakes q (wait_loop ms_wait wakes q)
  unfolding wait_loop KeepSound
  wait_loop-ends ms_wait [] q ks v = elim (Bool-cases (cf_q_empty q)) [
    | inr full ↦ rw full (filled here v full)
    | inl empty ↦ elim (Bool-cases (eq_int cf_queue_forever ms_wait)) [
      | inl forever ↦ rw (empty, forever) (asleep here v empty (forever_waits ms_wait forever))
      | inr limited ↦ elim (Bool-cases (eq_int cf_queue_nowait ms_wait)) [
        | inl now ↦ rw (empty, limited, now) (elapsed here v empty limited)
        | inr timed ↦ rw (empty, limited, timed) (asleep here v empty timed)
      ]
    ]
  ]
  wait_loop-ends ms_wait (wake ∷ wakes) q ks v = elim (Bool-cases (cf_q_empty q)) [
    | inr full ↦ rw full (filled here v full)
    | inl empty ↦ elim (Bool-cases (eq_int cf_queue_forever ms_wait)) [
      | inl forever ↦
          rw (empty, forever) (after_wake (wait_loop-ends ms_wait wakes (wake q) ks.1 (ks.0 q v)))
      | inr limited ↦ elim (Bool-cases (eq_int cf_queue_nowait ms_wait)) [
        | inl now ↦ rw (empty, limited, now) (elapsed here v empty limited)
        | inr timed ↦ elim (Bool-cases (cf_q_empty (wake q))) [
          | inl still ↦
              rw (empty, limited, timed, still) (elapsed (later here) (ks.0 q v) still limited)
          | inr some_there ↦
              rw (empty, limited, timed, some_there)
                (after_wake (wait_loop-ends ms_wait wakes (wake q) ks.1 (ks.0 q v)))
        ]
      ]
    ]
  ]

  either_ends :
      (threadsafe : Bool) (ms_wait : ℤ) (wakes : List (CfQueue A → CfQueue A)) (q : CfQueue A)
      → KeepSound wakes
      → IsSound q
      → WaitEnd threadsafe ms_wait wakes q (
          if threadsafe
          then wait_loop ms_wait wakes q
          else if cf_q_empty q
          then gave_up q
          else ready q)
  either_ends true ms_wait wakes q ks v = wait_loop-ends ms_wait wakes q ks v
  either_ends false ms_wait wakes q ks v = elim (Bool-cases (cf_q_empty q)) [
    | inl empty ↦ rw empty (elapsed here v empty refl)
    | inr full ↦ rw full (filled here v full)
  ]

  pub cf_queue_wait-ends :
      (ms_wait : ℤ) (wakes : List (CfQueue A → CfQueue A)) (q : CfQueue A)
      → KeepSound wakes
      → IsSound q
      → WaitEnd q.threadsafe ms_wait wakes q (cf_queue_wait ms_wait wakes q)
  unfolding cf_queue_wait
  cf_queue_wait-ends ms_wait wakes q ks v = either_ends q.threadsafe ms_wait wakes q ks v

  -- The state after the last of the wakes.
  unfoldable pub run_wakes : List (CfQueue A → CfQueue A) → CfQueue A → CfQueue A
  run_wakes [] q = q
  run_wakes (wake ∷ wakes) q = run_wakes wakes (wake q)

  -- The first state in which the queue is not empty, of those that it passes.
  pub data FirstFull : List (CfQueue A → CfQueue A) → CfQueue A → CfQueue A → Type ℓ where
    at_once :
        {wakes : List (CfQueue A → CfQueue A)} {q : CfQueue A}
        → cf_q_empty q ≡ false
        → FirstFull wakes q q
    after :
        {wake : CfQueue A → CfQueue A} {wakes : List (CfQueue A → CfQueue A)} {q q' : CfQueue A}
        → cf_q_empty q ≡ true
        → FirstFull wakes (wake q) q'
        → FirstFull (wake ∷ wakes) q q'

  wait_loop-ready :
      (wakes : List (CfQueue A → CfQueue A)) (q : CfQueue A)
      → KeepSound wakes
      → IsSound q
      → cf_q_empty (run_wakes wakes q) ≡ false
      → (q' : CfQueue A) × (wait_loop cf_queue_forever wakes q ≡ ready q')
        × FirstFull wakes q q'
        × IsSound q'
        × (cf_q_empty q' ≡ false)
  unfolding wait_loop run_wakes KeepSound
  wait_loop-ready [] q ks v full = (q, rw full refl, at_once full, v, full)
  wait_loop-ready (wake ∷ wakes) q ks v full = elim (Bool-cases (cf_q_empty q)) [
    | inr now ↦ (q, rw now refl, at_once now, v, now)
    | inl empty ↦
        let (q', e, first, v', full') = wait_loop-ready wakes (wake q) ks.1 (ks.0 q v) full in
        (q', rw empty e, after empty first, v', full')
  ]

  -- A call that waits for ever goes on from the first state in which the queue is not empty.
  pub cf_queue_wait-ready :
      (wakes : List (CfQueue A → CfQueue A)) (q : CfQueue A)
      → KeepSound wakes
      → IsSound q
      → q.threadsafe ≡ true
      → cf_q_empty (run_wakes wakes q) ≡ false
      → (q' : CfQueue A) × (cf_queue_wait cf_queue_forever wakes q ≡ ready q')
        × FirstFull wakes q q'
        × IsSound q'
        × (cf_q_empty q' ≡ false)
  unfolding cf_queue_wait
  cf_queue_wait-ready wakes q ks v shared full =
      let (q', e, first, v', full') = wait_loop-ready wakes q ks v full in
      (q', chosen shared ∙ e, first, v', full')
    where
      chosen :
          q.threadsafe ≡ true
          → (if q.threadsafe
              then wait_loop cf_queue_forever wakes q
              else if cf_q_empty q
              then gave_up q
              else ready q)
            ≡ wait_loop cf_queue_forever wakes q
      chosen e =
          ap
            (λ b.
              if b
              then wait_loop cf_queue_forever wakes q
              else if cf_q_empty q
              then gave_up q
              else ready q)
            e
