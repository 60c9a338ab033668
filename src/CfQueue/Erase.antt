-- ===== src/CfQueue/Erase.antt =====
-- `cf_queue_delete` and `cf_queue_delete_all`.
use aerospike_common.Common.{
  ℕ, zero, suc, ◌+◌, ◌-◌, ◌%◌, ◌<◌, ◌≡◌, refl, sym, ap, ◌∙◌, arith, ℤ, pos,
}
use aerospike_common.Common.{
  List, ◌∷◌, [], Option, none, some, Bool, true, false, Bool-cases, Option-cases, inl, inr,
}
use aerospike_common.Common.{add32, ltb, if◌then◌else◌, ◌==◌, ==→eq, lt→ltb, not, get_elem?, length}
use mathlib.Core.Path.{subst}
use aerospike_common.Ring.{window}
use aerospike_common.Queue.Contents.{held}
use aerospike_common.CfQueue.{CfQueue, slots, cf_q_sz, cf_q_elem, cf_queue_ok, cf_queue_empty}
use aerospike_common.CfQueue.Ring.{ring, IsSound, elements_of, held_length}
use aerospike_common.CfQueue.Push.{Holds, size_lem}
use aerospike_common.CfQueue.Delete.{cf_queue_delete_offset}
use aerospike_common.CfQueue.Remove.{cf_queue_delete_offset_lem}
use aerospike_common.CfQueue.Reduce.{visit, reduce_from, cf_queue_reduce, take_it}
use aerospike_common.CfQueue.Scan.{reduce_list, cf_queue_reduce_lem}

-- Whether a loop that deletes `n` elements has found one.
abbrev found_or : ℕ → Bool → Bool
found_or zero found = found
found_or (suc n) found = true

found_some : (n : ℕ) → (n == 0) ≡ false → found_or n false ≡ true
found_some zero e = absurd (ground arith)
found_some (suc n) e = refl

module _ {ℓ} {A : Type ℓ} (same : A → A → Bool) where
  -- One turn of the loop; `ptr` is `none` for NULL, and `next` is the rest of the loop.
  unfoldable pub delete_turn :
      Option A
      → Bool
      → CfQueue A
      → Bool
      → ℕ
      → (CfQueue A → Bool → Bool × CfQueue A)
      → Option A
      → Bool × CfQueue A
  unfolding cf_queue_delete_offset
  delete_turn none only_one q found i next o =
      let q' = cf_queue_delete_offset q i in if only_one then (true, q') else next q' true
  delete_turn (some x) only_one q found i next none = (found, q)
  delete_turn (some x) only_one q found i next (some y) =
      if same y x
      then (let q' = cf_queue_delete_offset q i in if only_one then (true, q') else next q' true)
      else next q found

  -- The loop from offset `i`, which ends at `write_offset`; `write_offset` never grows, so that a fuel
  -- of its distance to `i` is enough.
  unfoldable pub delete_from : Option A → Bool → ℕ → ℕ → CfQueue A → Bool → Bool × CfQueue A
  unfolding cf_q_elem delete_turn
  delete_from ptr only_one i zero q found = (found, q)
  delete_from ptr only_one i (suc n) q found =
      if ltb i q.write_offset
      then delete_turn ptr only_one q found i (delete_from ptr only_one (i + 1) n)
          (get_elem? (slots q) (cf_q_elem q i))
      else (found, q)

  unfoldable pub cf_queue_delete : CfQueue A → Option A → Bool → ℤ × CfQueue A
  unfolding delete_from cf_q_sz
  cf_queue_delete q ptr only_one =
      let (found, q') =
        if not (cf_q_sz q == 0)
        then delete_from ptr only_one q.read_offset (q.write_offset - q.read_offset) q false
        else (false, q) in
      (if found then cf_queue_ok else cf_queue_empty, q')

  unfoldable pub cf_queue_delete_all : CfQueue A → ℤ × CfQueue A
  unfolding cf_queue_delete
  cf_queue_delete_all q = cf_queue_delete q none false

  -- With `only_one`, the loop is the one of `cf_queue_reduce` with this callback.
  abbrev seek : A → A → Bool → ℤ × Bool
  seek x y found = if same y x then (take_it, true) else (pos 0, found)

  delete_from-eq-reduce_from :
      (x : A) (q : CfQueue A) (i n : ℕ) (found : Bool)
      → i + n ≡ q.write_offset
      → delete_from (some x) true i n q found ≡ reduce_from (seek x) q i n found
  unfolding delete_from reduce_from delete_turn visit cf_q_elem
  delete_from-eq-reduce_from x q i zero found e = refl
  delete_from-eq-reduce_from x q i (suc n) found e =
      elim (Option-cases (get_elem? (slots q) (i % q.alloc_sz))) [
        | inl past ↦ rw (lt→ltb i q.write_offset (omega arith), past) refl
        | inr (y, there) ↦ elim (Bool-cases (same y x)) [
          | inl hit ↦ rw (lt→ltb i q.write_offset (omega arith), there, hit) refl
          | inr miss ↦
              rw (lt→ltb i q.write_offset (omega arith), there, miss)
                (delete_from-eq-reduce_from x q (i + 1) n found (omega arith))
        ]
      ]

  -- The first element that `same` accepts, taken out of a list, and whether there is one.
  pub erase_first : A → List (Option A) → Bool × List (Option A)
  erase_first x [] = (false, [])
  erase_first x (none ∷ c) = (false, none ∷ c)
  erase_first x (some y ∷ c) =
      let (found, c') = erase_first x c in if same y x then (true, c) else (found, some y ∷ c')

  reduce_list-seek : (x : A) (c : List (Option A)) → reduce_list (seek x) false c ≡ erase_first x c
  unfolding reduce_list erase_first
  reduce_list-seek x [] = refl
  reduce_list-seek x (none ∷ c) = refl
  reduce_list-seek x (some y ∷ c) = elim (Bool-cases (same y x)) [
    | inl hit ↦ rw hit refl
    | inr miss ↦ rw miss (ap (λ r. (r.0, some y ∷ r.1)) (reduce_list-seek x c))
  ]

  -- The code and the queue of a call that reports whether it has found something.
  abbrev pub report : Bool → ℤ
  report found = if found then cf_queue_ok else cf_queue_empty

  delete-eq-reduce :
      (x : A) (q : CfQueue A)
      → IsSound q
      → cf_queue_delete q (some x) true
        ≡ (let r = cf_queue_reduce (seek x) q false in (report r.1, r.2))
  unfolding cf_queue_delete cf_queue_reduce
  delete-eq-reduce x q v = elim (Bool-cases (cf_q_sz q == 0)) [
    | inl empty ↦ rw empty refl
    | inr some_held ↦
        rw
          (
            some_held,
            delete_from-eq-reduce_from x q q.read_offset (held (ring q)) false
                (omega (arith, v.valid.order)),
          )
          refl
  ]

  -- `cf_queue_delete` of a sound queue with an element and `only_one` takes the first equal element
  -- out, returns CF_QUEUE_OK if there is one and CF_QUEUE_EMPTY if not, and keeps the queue sound.
  pub cf_queue_delete_lem :
      (x : A) (q : CfQueue A)
      → IsSound q
      → let r = cf_queue_delete q (some x) true in
        let (found, c) = erase_first x (elements_of q) in (r.0 ≡ report found) × Holds r.1 c
  cf_queue_delete_lem x q v =
      let (code, found, holds) = cf_queue_reduce_lem (seek x) q v false in
      rw (delete-eq-reduce x q v, ← reduce_list-seek x (elements_of q)) (ap report found, holds)

  -- The head is deleted without a move.
  delete_head :
      (q : CfQueue A)
      → let q' = cf_queue_delete_offset q q.read_offset in
        (q'.read_offset ≡ add32 q.read_offset 1) × (q'.write_offset ≡ q.write_offset)
  unfolding cf_queue_delete_offset
  delete_head q = ground arith

  head_gone :
      (q : CfQueue A) (i : ℕ)
      → IsSound q
      → i ≡ q.read_offset
      → 0 < held (ring q)
      → let q' = cf_queue_delete_offset q i in
        IsSound q' × (q'.read_offset ≡ add32 q.read_offset 1) × (q'.write_offset ≡ q.write_offset)
  head_gone q i v e some_held =
      let at : q.read_offset + 0 ≡ i = omega (arith, e) in
      let (first, same_tail) = delete_head q in
      (
        subst (λ j. IsSound (cf_queue_delete_offset q j)) at
            (cf_queue_delete_offset_lem q 0 v some_held).0,
        ap (λ j. (cf_queue_delete_offset q j).read_offset) e ∙ first,
        ap (λ j. (cf_queue_delete_offset q j).write_offset) e ∙ same_tail,
      )

  delete_from-all :
      (n : ℕ) (q : CfQueue A) (i : ℕ) (found : Bool)
      → IsSound q
      → i ≡ q.read_offset
      → held (ring q) ≡ n
      → let r = delete_from none false i n q found in (r.0 ≡ found_or n found) × Holds r.1 []
  unfolding delete_from delete_turn cf_q_elem
  delete_from-all zero q i found v e all =
      (refl, (v, ap (window (slots q) q.alloc_sz q.read_offset) all))
  delete_from-all (suc n) q i found v e all =
      let q' = cf_queue_delete_offset q i in
      let (sound, head, tail) = head_gone q i v e (omega (arith, all)) in
      let (found', holds) =
        delete_from-all n q' (i + 1) true sound
          (omega (arith, head, e, v.valid.order, v.valid.bound, all))
          (omega (arith, head, tail, e, v.valid.order, v.valid.bound, all)) in
      rw (lt→ltb i q.write_offset (omega arith)) (found' ∙ both n, holds)
    where
      both : (m : ℕ) → found_or m true ≡ true
      both zero = refl
      both (suc m) = refl

  -- `cf_queue_delete_all` of a sound queue leaves none of its elements, keeps it sound, and returns
  -- CF_QUEUE_EMPTY only if it was empty.
  pub cf_queue_delete_all_lem :
      (q : CfQueue A)
      → IsSound q
      → let r = cf_queue_delete_all q in
        (r.0 ≡ report (not (length (elements_of q) == 0))) × Holds r.1 []
  unfolding cf_queue_delete_all cf_queue_delete
  cf_queue_delete_all_lem q v =
      let (found, holds) = delete_from-all (held (ring q)) q q.read_offset false v refl refl in
      elim (Bool-cases (cf_q_sz q == 0)) [
        | inl empty ↦
            let none_held : length (elements_of q) ≡ 0 = sym (size_lem q v) ∙ ==→eq _ _ empty in
            rw (empty, none_held)
              (
                refl,
                (v, ap (window (slots q) q.alloc_sz q.read_offset) (held_length q ∙ none_held)),
              )
        | inr some_held ↦
            rw (some_held, ← size_lem q v, some_held)
              (ap report (found ∙ found_some (held (ring q)) (filled some_held)), holds)
      ]
    where
      filled : (cf_q_sz q == 0) ≡ false → (held (ring q) == 0) ≡ false
      filled e = ground (arith, size_lem q v, held_length q)
