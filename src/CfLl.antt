-- ===== src/CfLl.antt =====
-- src/main/citrusleaf/cf_ll.c and cf_ll.h: a doubly linked list of elements that the caller owns. An
-- element is its address, 0 for NULL; the list carries the links of all elements in memory. The
-- result `none` is a read or a write through NULL. A call of the destructor is a mark in `destroyed`;
-- what it does to its element is the caller's. The lock leaves no trace.
pub mod Segments
pub mod Links
pub mod Lists
pub mod Delete
pub mod Walk
pub mod Insert
mod Tests
use aerospike_common.Common.{
  ℕ, zero, suc, ◌+◌, ◌-◌, ℤ, pos, negsuc, List, [], ◌∷◌, Option, none, some, Bool, true, false,
  if◌then◌else◌, ◌==◌, add32, sub32,
}

-- `cf_ll`, with `next` and `prev` of every element; `has_destroy_fn` tells whether `destroy_fn` is set, and
-- `destroyed` has the elements that it has been called with, the last one first.
pub record CfLl : Type 0 where
  pub head : ℕ
  pub tail : ℕ
  pub sz : ℕ
  pub next : ℕ → ℕ
  pub prev : ℕ → ℕ
  pub has_destroy_fn : Bool
  pub destroyed : List ℕ

-- `cf_ll_init`, in a memory with these links
unfoldable pub cf_ll_init : (ℕ → ℕ) → (ℕ → ℕ) → Bool → CfLl
cf_ll_init next prev has_destroy_fn = record {
  head = 0;
  tail = 0;
  sz = 0;
  next = next;
  prev = prev;
  has_destroy_fn = has_destroy_fn;
  destroyed = [];
}

abbrev pub update : (ℕ → ℕ) → ℕ → ℕ → ℕ → ℕ
update f e v a = if a == e then v else f a

infixl 5 ◌>>=◌
abbrev ◌>>=◌ : {A B : Type 0} → Option A → (A → Option B) → Option B
none >>= f = none
some a >>= f = f a

-- `e->next`, `e->prev`, and the assignments to them
abbrev pub get_next : CfLl → ℕ → Option ℕ
get_next l e = if e == 0 then none else some (l.next e)

abbrev pub get_prev : CfLl → ℕ → Option ℕ
get_prev l e = if e == 0 then none else some (l.prev e)

abbrev pub set_next : ℕ → ℕ → CfLl → Option CfLl
set_next e v l = if e == 0 then none else some (record l { next = update l.next e v })

abbrev pub set_prev : ℕ → ℕ → CfLl → Option CfLl
set_prev e v l = if e == 0 then none else some (record l { prev = update l.prev e v })

abbrev pub set_head : ℕ → CfLl → CfLl
set_head e l = record l { head = e }

abbrev pub set_tail : ℕ → CfLl → CfLl
set_tail e l = record l { tail = e }

-- `ll->sz++` and `ll->sz--`
abbrev pub more : CfLl → CfLl
more l = record l { sz = add32 l.sz 1 }

abbrev pub fewer : CfLl → CfLl
fewer l = record l { sz = sub32 l.sz 1 }

abbrev only_element : CfLl → ℕ → Option CfLl
only_element l e = do
  l1 ← set_next e 0 (set_tail e (set_head e l))
  l2 ← set_prev e 0 l1
  some (more l2)

unfoldable pub cf_ll_prepend : CfLl → ℕ → Option CfLl
cf_ll_prepend l e = if l.head == 0 then only_element l e else do
  l1 ← set_next e l.head l
  l2 ← set_prev e 0 l1
  l3 ← set_prev l2.head e l2
  some (more (set_head e l3))

unfoldable pub cf_ll_append : CfLl → ℕ → Option CfLl
cf_ll_append l e = if l.head == 0 then only_element l e else do
  l1 ← set_next e 0 l
  l2 ← set_prev e l.tail l1
  l3 ← set_next l2.tail e l2
  some (more (set_tail e l3))

unfoldable pub cf_ll_insert_after : CfLl → ℕ → ℕ → Option CfLl
cf_ll_insert_after l cur ins = do
  following ← get_next l cur
  l1 ← set_next ins following l
  l2 ← set_prev ins cur l1
  next ← get_next l2 cur
  l3 ← (if next == 0 then some (set_tail ins l2) else set_prev next ins l2)
  l4 ← set_next cur ins l3
  some (more l4)

unfoldable pub cf_ll_insert_before : CfLl → ℕ → ℕ → Option CfLl
cf_ll_insert_before l cur ins = do
  l1 ← set_next ins cur l
  before ← get_prev l1 cur
  l2 ← set_prev ins before l1
  prev ← get_prev l2 cur
  l3 ← (if prev == 0 then some (set_head ins l2) else set_next prev ins l2)
  l4 ← set_prev cur ins l3
  some (more l4)

-- `if (ll->destroy_fn) (ll->destroy_fn)(e);`
abbrev pub destroy : ℕ → CfLl → CfLl
destroy e l = record l { destroyed = if l.has_destroy_fn then e ∷ l.destroyed else l.destroyed }

unfoldable pub cf_ll_delete_lockfree : CfLl → ℕ → Option CfLl
cf_ll_delete_lockfree l e =
    if l.sz == 1
    then some (destroy e (fewer (set_tail 0 (set_head 0 l))))
    else if e == l.head
    then (do
      next ← get_next l e
      l1 ← set_prev next 0 (set_head next l)
      some (destroy e (fewer l1)))
    else if e == l.tail
    then (do
      prev ← get_prev l e
      l1 ← set_next prev 0 (set_tail prev l)
      some (destroy e (fewer l1)))
    else (do
      prev ← get_prev l e
      next ← get_next l e
      l1 ← set_next prev next l
      following ← get_next l1 e
      before ← get_prev l1 e
      l2 ← set_prev following before l1
      some (destroy e (fewer l2)))

unfoldable pub cf_ll_delete : CfLl → ℕ → Option CfLl
unfolding cf_ll_delete_lockfree
cf_ll_delete l e = if l.sz == 0 then some l else cf_ll_delete_lockfree l e

unfoldable pub cf_ll_size : CfLl → ℕ
cf_ll_size l = l.sz

-- `cf_ll_index`: some steps along the list, from either end.
unfoldable pub steps : (ℕ → ℕ) → ℕ → ℕ → ℕ
steps link zero e = e
steps link (suc n) e = let rest = steps link n (link e) in if e == 0 then e else rest

unfoldable pub cf_ll_index : CfLl → ℤ → ℕ
unfolding steps
cf_ll_index l (pos n) = steps l.next n l.head
cf_ll_index l (negsuc n) = steps l.prev n l.tail
