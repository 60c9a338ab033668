-- ===== src/CfLl/Walk.antt =====
-- The calls of cf_ll that walk along the list without a change: `cf_ll_search` and the iterator. A walk
-- has a bound on its steps as fuel.
use aerospike_common.Common.{
  ℕ, zero, suc, ◌<◌, ◌≡◌, refl, ap, arith, ℤ, pos, eq_int, List, [], ◌∷◌, ◌++◌, Bool, true, false,
  if◌then◌else◌, ◌==◌, length,
}
use aerospike_common.CfLl.{CfLl}
use aerospike_common.CfLl.Segments.{Seg}
use aerospike_common.CfLl.Lists.{IsList}

abbrev pub cf_ll_reduce_matched : ℤ
cf_ll_reduce_matched = pos 3

abbrev pub cf_ll_reduce_not_matched : ℤ
cf_ll_reduce_not_matched = pos 4

-- `forward ? cur->next : cur->prev`
abbrev pub onward : CfLl → Bool → ℕ → ℕ
onward l forward cur = if forward then l.next cur else l.prev cur

-- The loop of `cf_ll_search_lockfree`; `fn` is the callback with the element that is looked for.
unfoldable pub search_from : CfLl → Bool → (ℕ → ℤ) → ℕ → ℕ → ℕ
search_from l forward fn zero cur = 0
search_from l forward fn (suc n) cur =
    let rest = search_from l forward fn n (onward l forward cur) in
    let rv = fn cur in
    if cur == 0
    then 0
    else if eq_int rv cf_ll_reduce_matched
    then cur
    else if eq_int rv cf_ll_reduce_not_matched
    then rest
    else 0

unfoldable pub cf_ll_search : CfLl → Bool → (ℕ → ℤ) → ℕ → ℕ
unfolding search_from
cf_ll_search l forward fn fuel =
    if l.head == 0 then 0 else search_from l forward fn fuel (if forward then l.head else l.tail)

-- `cf_ll_iterator`: `cf_ll_getIterator` starts it, and `cf_ll_getNext` gives an element, or NULL.
pub record CfLlIterator : Type 0 where
  pub next : ℕ
  pub forward : Bool

unfoldable pub cf_ll_get_iterator : CfLl → Bool → CfLlIterator
cf_ll_get_iterator l forward = record {
  next = if forward then l.head else l.tail;
  forward = forward;
}

unfoldable pub cf_ll_get_next_of : CfLl → CfLlIterator → ℕ × CfLlIterator
cf_ll_get_next_of l iter =
    if iter.next == 0
    then (0, iter)
    else (iter.next, record iter { next = onward l iter.forward iter.next })

-- What `cf_ll_getNext` gives in `n` calls.
pub nexts : CfLl → ℕ → CfLlIterator → List ℕ
unfolding cf_ll_get_next_of
nexts l zero iter = []
nexts l (suc n) iter = let (e, iter') = cf_ll_get_next_of l iter in e ∷ nexts l n iter'

-- The first element that the callback matches, if it does not stop before.
pub first_match : (ℕ → ℤ) → List ℕ → ℕ
first_match fn [] = 0
first_match fn (x ∷ xs) =
    let rest = first_match fn xs in
    if eq_int (fn x) cf_ll_reduce_matched
    then x
    else if eq_int (fn x) cf_ll_reduce_not_matched
    then rest
    else 0

search_from-Seg :
    (l : CfLl) (fn : ℕ → ℤ) (xs : List ℕ) (p h t n : ℕ)
    → Seg l.next l.prev p h xs t 0
    → length xs < n
    → search_from l true fn n h ≡ first_match fn xs
unfolding search_from first_match
search_from-Seg l fn xs p h t zero s lt = absurd (omega arith)
search_from-Seg l fn [] p h t (suc n) (at, last) lt = ground (arith, at)
search_from-Seg l fn (x ∷ xs) p h t (suc n) (at, some_x, back, s) lt =
    ground (arith, at, some_x, search_from-Seg l fn xs x (l.next x) t n s (omega arith))

-- With fuel for all elements and one more, `cf_ll_search` from the head finds the first element that
-- the callback matches, and gives NULL if there is none or the callback stops before.
pub cf_ll_search-first_match :
    (l : CfLl) (fn : ℕ → ℤ) (xs : List ℕ) (n : ℕ)
    → IsList l xs
    → length xs < n
    → cf_ll_search l true fn n ≡ first_match fn xs
unfolding cf_ll_search
cf_ll_search-first_match l fn [] n v lt =
    let (at, last) = v.linked in unfold first_match in ground (arith, at)
cf_ll_search-first_match l fn (x ∷ xs) n v lt =
    let (at, some_x, back, s) = v.linked in
    ground (arith, at, some_x, search_from-Seg l fn (x ∷ xs) 0 l.head l.tail n v.linked lt)

nexts-Seg :
    (l : CfLl) (xs : List ℕ) (p h t : ℕ)
    → Seg l.next l.prev p h xs t 0
    → nexts l (suc (length xs)) (record { next = h; forward = true }) ≡ xs ++ (0 ∷ [])
unfolding nexts cf_ll_get_next_of
nexts-Seg l [] p h t (at, last) = rw at refl
nexts-Seg l (x ∷ xs) p h t (at, some_x, back, s) =
    let there : (x == 0) ≡ false = ground arith in
    rw (at, there) (ap (◌∷◌ x) (nexts-Seg l xs x (l.next x) t s))

-- An iterator from the head gives the elements of a list in order, and then NULL.
pub nexts-cf_ll_get_iterator :
    (l : CfLl) (xs : List ℕ)
    → IsList l xs
    → nexts l (suc (length xs)) (cf_ll_get_iterator l true) ≡ xs ++ (0 ∷ [])
unfolding cf_ll_get_iterator
nexts-cf_ll_get_iterator l xs v = nexts-Seg l xs 0 l.head l.tail v.linked
