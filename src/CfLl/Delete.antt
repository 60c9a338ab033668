-- ===== src/CfLl/Delete.antt =====
-- `cf_ll_delete` against a list of the elements.
use mathlib.Core.Path.{subst}
use aerospike_common.Common.{
  ℕ, ◌≡◌, refl, sym, ◌∙◌, arith, List, [], ◌∷◌, ◌++◌, append-nil, true, false, inl, inr, ◌==◌,
  length-append, some, if◌then◌else◌,
}
use aerospike_common.CfLl.{CfLl, update, cf_ll_delete_lockfree, cf_ll_delete, fewer, destroy}
use aerospike_common.CfLl.Lists.{IsList}
use aerospike_common.CfLl.Segments.{
  Seg, Distinct, split, set_first, set_last, last-eq, last-cases, Distinct-remove, Avoids-append,
  start_ne, end_ne, unlink,
}

-- The list that `cf_ll_delete` of an element leaves: these elements, and a call of the destructor with
-- the element where there is one.
abbrev pub Loses : CfLl → ℕ → List ℕ → Type 0
Loses l e xs =
    (l' : CfLl) × (cf_ll_delete l e ≡ some l')
    × IsList l' xs
    × (l'.destroyed ≡ (if l.has_destroy_fn then e ∷ l.destroyed else l.destroyed))

module _ (l : CfLl) (e : ℕ) where
  delete_only : IsList l (e ∷ []) → Loses l e []
  unfolding cf_ll_delete cf_ll_delete_lockfree
  delete_only v =
      let one : l.sz ≡ 1 = v.counted in
      (
        destroy e (fewer (record l { head = 0; tail = 0 })),
        rw one refl,
        record {
          linked = (refl, refl);
          distinct = tt;
          counted = omega (arith, one);
          few = omega arith;
        },
        refl,
      )

  delete_head : (y : ℕ) (zs : List ℕ) → IsList l (e ∷ y ∷ zs) → Loses l e (y ∷ zs)
  unfolding cf_ll_delete cf_ll_delete_lockfree
  delete_head y zs v =
      let (at, some_e, back, (next_is, some_y, back_y, s)) = v.linked in
      let some_held : (l.sz == 0) ≡ false = ground (arith, v.counted) in
      let several : (l.sz == 1) ≡ false = ground (arith, v.counted) in
      let first : (e == l.head) ≡ true = ground (arith, at) in
      let nonzero : (e == 0) ≡ false = ground arith in
      let next_there : (l.next e == 0) ≡ false = ground (arith, next_is, some_y) in
      (
        destroy e (fewer (record l { head = l.next e; prev = update l.prev (l.next e) 0 })),
        rw (some_held, several, first, nonzero, next_there) refl,
        record {
          linked =
              subst (λ a. Seg l.next (update l.prev a 0) 0 (l.next e) (y ∷ zs) l.tail 0)
                (sym next_is)
                (set_first l.next l.prev e 0 (l.next e) y zs l.tail 0 v.distinct.1.0
                  (next_is, some_y, back_y, s));
          distinct = v.distinct.1;
          counted = omega (arith, v.counted, v.few);
          few = omega (arith, v.few);
        },
        refl,
      )

  delete_tail :
      (ws : List ℕ) (z : ℕ) → IsList l ((ws ++ (z ∷ [])) ++ (e ∷ [])) → Loses l e (ws ++ (z ∷ []))
  unfolding cf_ll_delete cf_ll_delete_lockfree
  delete_tail ws z v =
      let xs = ws ++ (z ∷ []) in
      let (m, k, first, (at, some_e, back, (end, last))) =
        split l.next l.prev 0 l.head xs (e ∷ []) l.tail 0 v.linked in
      let (m_is, some_z) = last-eq l.next l.prev 0 l.head ws z m k first in
      let (out, out_ys, distinct) = Distinct-remove xs [] e v.distinct in
      let size = length-append xs (e ∷ []) in
      let size_xs = length-append ws (z ∷ []) in
      let some_held : (l.sz == 0) ≡ false = ground (arith, v.counted, size) in
      let several : (l.sz == 1) ≡ false = ground (arith, v.counted, size, size_xs) in
      let other : (e == l.head) ≡ false =
        ground (arith, start_ne l.next l.prev 0 l.head ws z m k e out first) in
      let at_end : (e == l.tail) ≡ true = ground (arith, last) in
      let nonzero : (e == 0) ≡ false = ground arith in
      let prev_is : l.prev e ≡ z = back ∙ m_is in
      let prev_there : (l.prev e == 0) ≡ false = ground (arith, prev_is, some_z) in
      let here : Distinct xs = subst Distinct (append-nil xs) distinct in
      (
        destroy e (fewer (record l { tail = l.prev e; next = update l.next (l.prev e) 0 })),
        rw (some_held, several, other, at_end, nonzero, prev_there) refl,
        record {
          linked =
              subst (λ a. Seg (update l.next a 0) l.prev 0 l.head xs a 0) (sym prev_is)
                (set_last l.next l.prev 0 l.head ws z z k 0 (Distinct-remove ws [] z here).0
                  (subst (λ a. Seg l.next l.prev 0 l.head xs a k) m_is first));
          distinct = here;
          counted = omega (arith, v.counted, v.few, size);
          few = omega (arith, v.few, size);
        },
        refl,
      )

  delete_middle :
      (ws : List ℕ) (z y : ℕ) (zs : List ℕ)
      → IsList l ((ws ++ (z ∷ [])) ++ (e ∷ y ∷ zs))
      → Loses l e ((ws ++ (z ∷ [])) ++ (y ∷ zs))
  unfolding cf_ll_delete cf_ll_delete_lockfree
  delete_middle ws z y zs v =
      let xs = ws ++ (z ∷ []) in
      let (m, k, first, (at, some_e, back, (next_is, some_y, back_y, s))) =
        split l.next l.prev 0 l.head xs (e ∷ y ∷ zs) l.tail 0 v.linked in
      let (m_is, some_z) = last-eq l.next l.prev 0 l.head ws z m k first in
      let (out, out_ys, distinct) = Distinct-remove xs (y ∷ zs) e v.distinct in
      let (z_ne_e, none_left) = Avoids-append e ws (z ∷ []) out in
      let size = length-append xs (e ∷ y ∷ zs) in
      let size' = length-append xs (y ∷ zs) in
      let some_held : (l.sz == 0) ≡ false = ground (arith, v.counted, size) in
      let several : (l.sz == 1) ≡ false = ground (arith, v.counted, size) in
      let other : (e == l.head) ≡ false =
        ground (arith, start_ne l.next l.prev 0 l.head ws z m k e out first) in
      let inner : (e == l.tail) ≡ false = ground (
        arith,
        end_ne l.next l.prev e (l.next e) y zs l.tail 0 e out_ys (next_is, some_y, back_y, s),
      ) in
      let nonzero : (e == 0) ≡ false = ground arith in
      let prev_is : l.prev e ≡ z = back ∙ m_is in
      let prev_there : (l.prev e == 0) ≡ false = ground (arith, prev_is, some_z) in
      let next_there : (l.next e == 0) ≡ false = ground (arith, next_is, some_y) in
      let apart : (e == l.prev e) ≡ false = ground (arith, prev_is, none_left.0) in
      let next' = update l.next (l.prev e) (l.next e) in
      let prev' = update l.prev (l.next e) (l.prev e) in
      (
        destroy e (fewer (record l { next = next'; prev = prev' })),
        rw (some_held, several, other, inner, nonzero, prev_there, apart, next_there) refl,
        record {
          linked =
              rw (prev_is, next_is)
                (unlink l.next l.prev l.head ws z k e y zs l.tail distinct
                  (subst (λ a. Seg l.next l.prev 0 l.head xs a k) m_is first)
                  (refl, some_y, back_y, s));
          distinct = distinct;
          counted = omega (arith, v.counted, v.few, size, size');
          few = omega (arith, v.few, size, size');
        },
        refl,
      )

-- `cf_ll_delete` of an element of a list, at its head, at its tail, between or alone, reads and writes
-- no link through NULL, leaves the list of the others in order, and calls the destructor, if there is
-- one, with that element and no other.
pub cf_ll_delete-IsList :
    (l : CfLl) (xs ys : List ℕ) (e : ℕ) → IsList l (xs ++ (e ∷ ys)) → Loses l e (xs ++ ys)
cf_ll_delete-IsList l xs [] e v = elim (last-cases xs) [
  | inl none_before ↦
      subst (λ c. Loses l e (c ++ [])) (sym none_before)
        (delete_only l e (subst (λ c. IsList l (c ++ (e ∷ []))) none_before v))
  | inr (ws, z, some_before) ↦
      subst (Loses l e) (sym (append-nil xs ∙ some_before))
        (delete_tail l e ws z (subst (λ c. IsList l (c ++ (e ∷ []))) some_before v))
]
cf_ll_delete-IsList l xs (y ∷ zs) e v = elim (last-cases xs) [
  | inl none_before ↦
      subst (λ c. Loses l e (c ++ (y ∷ zs))) (sym none_before)
        (delete_head l e y zs (subst (λ c. IsList l (c ++ (e ∷ y ∷ zs))) none_before v))
  | inr (ws, z, some_before) ↦
      subst (λ c. Loses l e (c ++ (y ∷ zs))) (sym some_before)
        (delete_middle l e ws z y zs (subst (λ c. IsList l (c ++ (e ∷ y ∷ zs))) some_before v))
]
