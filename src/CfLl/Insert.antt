-- ===== src/CfLl/Insert.antt =====
-- `cf_ll_append` and the two insertions against a list of the elements.
use mathlib.Core.Path.{subst}
use aerospike_common.Common.{
  ℕ, suc, ◌^◌, ◌<◌, ◌≡◌, ◌≢◌, refl, sym, ◌∙◌, arith, List, [], ◌∷◌, ◌++◌, append-nil, true, false,
  inl, inr, ◌==◌, length, length-append,
}
use aerospike_common.CfLl.{
  CfLl, update, cf_ll_append, cf_ll_insert_after, cf_ll_insert_before, more,
}
use aerospike_common.CfLl.Lists.{IsList, Becomes}
use aerospike_common.CfLl.Links.{link_start, link_end, link_between}
use aerospike_common.CfLl.Segments.{
  Seg, Avoids, Distinct, update_eq, split, last-eq, last-cases, Distinct-remove, Distinct-insert,
  Avoids-append, last_next, Distinct-last,
}

start_some :
    (next prev : ℕ → ℕ) (p h : ℕ) (ws : List ℕ) (z t n : ℕ)
    → Seg next prev p h (ws ++ (z ∷ [])) t n
    → h ≢ 0
start_some next prev p h [] z t n (at, some_z, back, s) same = some_z (sym at ∙ same)
start_some next prev p h (w ∷ ws) z t n (at, some_w, back, s) same = some_w (sym at ∙ same)

-- A new element keeps the elements different.
fresh_last : (xs : List ℕ) (e : ℕ) → Distinct xs → Avoids e xs → Distinct (xs ++ (e ∷ []))
fresh_last xs e d out = Distinct-insert xs [] e out tt (subst Distinct (sym (append-nil xs)) d)

module _ (l : CfLl) (e : ℕ) (some_e : e ≢ 0) where
  append_many :
      (ws : List ℕ) (z : ℕ)
      → IsList l (ws ++ (z ∷ []))
      → Avoids e (ws ++ (z ∷ []))
      → suc (length (ws ++ (z ∷ []))) < 2 ^ 32
      → Becomes (cf_ll_append l e) ((ws ++ (z ∷ [])) ++ (e ∷ []))
  unfolding cf_ll_append
  append_many ws z v out room =
      let xs = ws ++ (z ∷ []) in
      let (last_is, some_z) = last-eq l.next l.prev 0 l.head ws z l.tail 0 v.linked in
      let full : (l.head == 0) ≡ false =
        ground (arith, start_some l.next l.prev 0 l.head ws z l.tail 0 v.linked) in
      let nonzero : (e == 0) ≡ false = ground arith in
      let tail_there : (l.tail == 0) ≡ false = ground (arith, last_is, some_z) in
      let size = length-append xs (e ∷ []) in
      let next' = update (update l.next e 0) l.tail e in
      let prev' = update l.prev e l.tail in
      (
        more (record l { tail = e; next = next'; prev = prev' }),
        rw (full, nonzero, tail_there) refl,
        record {
          linked = rw last_is (
              link_end l.next l.prev l.head ws z e some_e out (Distinct-remove ws [] z v.distinct).0
                (subst (λ a. Seg l.next l.prev 0 l.head xs a 0) last_is v.linked));
          distinct = fresh_last xs e v.distinct out;
          counted = omega (arith, v.counted, size, room);
          few = omega (arith, size, room);
        },
      )

  append_first : IsList l [] → Becomes (cf_ll_append l e) (e ∷ [])
  unfolding cf_ll_append
  append_first v =
      let (at, last) = v.linked in
      let empty : (l.head == 0) ≡ true = ground arith in
      let nonzero : (e == 0) ≡ false = ground arith in
      (
        more (record l { head = e; tail = e; next = update l.next e 0; prev = update l.prev e 0 }),
        rw (empty, nonzero) refl,
        record {
          linked = (refl, some_e, update_eq l.prev e 0, (update_eq l.next e 0, refl));
          distinct = (tt, tt);
          counted = omega (arith, v.counted);
          few = omega arith;
        },
      )

  -- `cf_ll_append` puts an element that is not NULL and not in the list behind the others, without a
  -- write through NULL, while the count stays below 2^32.
  pub cf_ll_append-IsList :
      (xs : List ℕ)
      → IsList l xs
      → Avoids e xs
      → suc (length xs) < 2 ^ 32
      → Becomes (cf_ll_append l e) (xs ++ (e ∷ []))
  cf_ll_append-IsList xs v out room = elim (last-cases xs) [
    | inl none_there ↦
        subst (λ c. Becomes (cf_ll_append l e) (c ++ (e ∷ []))) (sym none_there)
          (append_first (subst (IsList l) none_there v))
    | inr (ws, z, some_there) ↦
        subst (λ c. Becomes (cf_ll_append l e) (c ++ (e ∷ []))) (sym some_there)
          (append_many ws z (subst (IsList l) some_there v) (subst (Avoids e) some_there out)
            (subst (λ c. suc (length c) < 2 ^ 32) some_there room))
  ]

  -- Between two elements, whichever of them the call names.
  between :
      (ws : List ℕ) (z y : ℕ) (zs : List ℕ)
      → IsList l ((ws ++ (z ∷ [])) ++ (y ∷ zs))
      → Avoids e ((ws ++ (z ∷ [])) ++ (y ∷ zs))
      → suc (length ((ws ++ (z ∷ [])) ++ (y ∷ zs))) < 2 ^ 32
      → IsList
          (more (record l {
            next = update (update l.next e y) z e;
            prev = update (update l.prev e z) y e;
          }))
          ((ws ++ (z ∷ [])) ++ (e ∷ y ∷ zs))
  between ws z y zs v out room =
      let xs = ws ++ (z ∷ []) in
      let (m, k, first, (at, some_y, back, s)) =
        split l.next l.prev 0 l.head xs (y ∷ zs) l.tail 0 v.linked in
      let (m_is, some_z) = last-eq l.next l.prev 0 l.head ws z m k first in
      let (out_xs, out_ys) = Avoids-append e xs (y ∷ zs) out in
      let (z_out, z_out_ys) = Distinct-last ws (y ∷ zs) z v.distinct in
      let (y_out, y_out_zs, left) = Distinct-remove xs zs y v.distinct in
      let size = length-append xs (e ∷ y ∷ zs) in
      let size' = length-append xs (y ∷ zs) in
      record {
        linked =
            link_between l.next l.prev l.head ws z e some_e out_xs z_out k y zs l.tail out_ys
              z_out_ys y_out y_out_zs (subst (λ a. Seg l.next l.prev 0 l.head xs a k) m_is first)
              (refl, some_y, back ∙ m_is, s);
        distinct = Distinct-insert xs (y ∷ zs) e out_xs out_ys v.distinct;
        counted = omega (arith, v.counted, size, size', room);
        few = omega (arith, size, size', room);
      }

  after_inner :
      (ws : List ℕ) (z y : ℕ) (zs : List ℕ)
      → IsList l ((ws ++ (z ∷ [])) ++ (y ∷ zs))
      → Avoids e ((ws ++ (z ∷ [])) ++ (y ∷ zs))
      → suc (length ((ws ++ (z ∷ [])) ++ (y ∷ zs))) < 2 ^ 32
      → Becomes (cf_ll_insert_after l z e) ((ws ++ (z ∷ [])) ++ (e ∷ y ∷ zs))
  unfolding cf_ll_insert_after
  after_inner ws z y zs v out room =
      let xs = ws ++ (z ∷ []) in
      let (m, k, first, (at, some_y, back, s)) =
        split l.next l.prev 0 l.head xs (y ∷ zs) l.tail 0 v.linked in
      let (m_is, some_z) = last-eq l.next l.prev 0 l.head ws z m k first in
      let next_is : l.next z ≡ y = last_next l.next l.prev 0 l.head ws z m k first ∙ at in
      let (in_ws, (ne, none_left)) =
        Avoids-append e ws (z ∷ []) (Avoids-append e xs (y ∷ zs) out).0 in
      let z_there : (z == 0) ≡ false = ground arith in
      let nonzero : (e == 0) ≡ false = ground arith in
      let y_there : (y == 0) ≡ false = ground arith in
      let apart : (z == e) ≡ false = ground arith in
      (_, rw (z_there, nonzero, apart, next_is, y_there) refl, between ws z y zs v out room)

  before_inner :
      (ws : List ℕ) (z y : ℕ) (zs : List ℕ)
      → IsList l ((ws ++ (z ∷ [])) ++ (y ∷ zs))
      → Avoids e ((ws ++ (z ∷ [])) ++ (y ∷ zs))
      → suc (length ((ws ++ (z ∷ [])) ++ (y ∷ zs))) < 2 ^ 32
      → Becomes (cf_ll_insert_before l y e) ((ws ++ (z ∷ [])) ++ (e ∷ y ∷ zs))
  unfolding cf_ll_insert_before
  before_inner ws z y zs v out room =
      let xs = ws ++ (z ∷ []) in
      let (m, k, first, (at, some_y, back, s)) =
        split l.next l.prev 0 l.head xs (y ∷ zs) l.tail 0 v.linked in
      let (m_is, some_z) = last-eq l.next l.prev 0 l.head ws z m k first in
      let prev_is : l.prev y ≡ z = back ∙ m_is in
      let (ne, out_zs) = (Avoids-append e xs (y ∷ zs) out).1 in
      let z_there : (z == 0) ≡ false = ground arith in
      let nonzero : (e == 0) ≡ false = ground arith in
      let y_there : (y == 0) ≡ false = ground arith in
      let apart : (y == e) ≡ false = ground arith in
      (_, rw (nonzero, y_there, apart, prev_is, z_there) refl, between ws z y zs v out room)

  after_last :
      (ws : List ℕ) (z : ℕ)
      → IsList l (ws ++ (z ∷ []))
      → Avoids e (ws ++ (z ∷ []))
      → suc (length (ws ++ (z ∷ []))) < 2 ^ 32
      → Becomes (cf_ll_insert_after l z e) ((ws ++ (z ∷ [])) ++ (e ∷ []))
  unfolding cf_ll_insert_after
  after_last ws z v out room =
      let xs = ws ++ (z ∷ []) in
      let (last_is, some_z) = last-eq l.next l.prev 0 l.head ws z l.tail 0 v.linked in
      let next_is : l.next z ≡ 0 = last_next l.next l.prev 0 l.head ws z l.tail 0 v.linked in
      let (in_ws, (ne, none_left)) = Avoids-append e ws (z ∷ []) out in
      let z_there : (z == 0) ≡ false = ground arith in
      let nonzero : (e == 0) ≡ false = ground arith in
      let apart : (z == e) ≡ false = ground arith in
      let size = length-append xs (e ∷ []) in
      (
        more (record l {
          tail = e;
          next = update (update l.next e 0) z e;
          prev = update l.prev e z;
        }),
        rw (z_there, nonzero, apart, next_is) refl,
        record {
          linked =
              link_end l.next l.prev l.head ws z e some_e out (Distinct-remove ws [] z v.distinct).0
                (subst (λ a. Seg l.next l.prev 0 l.head xs a 0) last_is v.linked);
          distinct = fresh_last xs e v.distinct out;
          counted = omega (arith, v.counted, size, room);
          few = omega (arith, size, room);
        },
      )

  -- `cf_ll_insert_after` puts an element that is not NULL and not in the list behind one that is, at its
  -- end or inside, without a read or a write through NULL, while the count stays below 2^32.
  pub cf_ll_insert_after-IsList :
      (xs : List ℕ) (cur : ℕ) (ys : List ℕ)
      → IsList l ((xs ++ (cur ∷ [])) ++ ys)
      → Avoids e ((xs ++ (cur ∷ [])) ++ ys)
      → suc (length ((xs ++ (cur ∷ [])) ++ ys)) < 2 ^ 32
      → Becomes (cf_ll_insert_after l cur e) ((xs ++ (cur ∷ [])) ++ (e ∷ ys))
  cf_ll_insert_after-IsList xs cur [] v out room =
      let same : (xs ++ (cur ∷ [])) ++ [] ≡ xs ++ (cur ∷ []) = append-nil (xs ++ (cur ∷ [])) in
      after_last xs cur (subst (IsList l) same v) (subst (Avoids e) same out)
        (subst (λ c. suc (length c) < 2 ^ 32) same room)
  cf_ll_insert_after-IsList xs cur (y ∷ zs) v out room = after_inner xs cur y zs v out room

  before_first :
      (y : ℕ) (zs : List ℕ)
      → IsList l (y ∷ zs)
      → Avoids e (y ∷ zs)
      → suc (length (y ∷ zs)) < 2 ^ 32
      → Becomes (cf_ll_insert_before l y e) (e ∷ y ∷ zs)
  unfolding cf_ll_insert_before
  before_first y zs v out room =
      let (at, some_y, back, s) = v.linked in
      let y_there : (y == 0) ≡ false = ground arith in
      let nonzero : (e == 0) ≡ false = ground arith in
      let apart : (y == e) ≡ false = ground (arith, out.0) in
      (
        more (record l {
          head = e;
          next = update l.next e y;
          prev = update (update l.prev e 0) y e;
        }),
        rw (nonzero, y_there, apart, back) refl,
        record {
          linked =
              link_start l.next l.prev y zs l.tail e some_e out v.distinct.0
                (refl, some_y, back, s);
          distinct = (out, v.distinct);
          counted = omega (arith, v.counted, room);
          few = room;
        },
      )

  -- `cf_ll_insert_before` puts an element that is not NULL and not in the list before one that is, at
  -- its start or inside, without a read or a write through NULL, while the count stays below 2^32.
  pub cf_ll_insert_before-IsList :
      (xs : List ℕ) (cur : ℕ) (ys : List ℕ)
      → IsList l (xs ++ (cur ∷ ys))
      → Avoids e (xs ++ (cur ∷ ys))
      → suc (length (xs ++ (cur ∷ ys))) < 2 ^ 32
      → Becomes (cf_ll_insert_before l cur e) (xs ++ (e ∷ cur ∷ ys))
  cf_ll_insert_before-IsList xs cur ys v out room = elim (last-cases xs) [
    | inl none_before ↦
        subst (λ c. Becomes (cf_ll_insert_before l cur e) (c ++ (e ∷ cur ∷ ys))) (sym none_before)
          (before_first cur ys (subst (λ c. IsList l (c ++ (cur ∷ ys))) none_before v)
            (subst (λ c. Avoids e (c ++ (cur ∷ ys))) none_before out)
            (subst (λ c. suc (length (c ++ (cur ∷ ys))) < 2 ^ 32) none_before room))
    | inr (ws, z, some_before) ↦
        subst (λ c. Becomes (cf_ll_insert_before l cur e) (c ++ (e ∷ cur ∷ ys))) (sym some_before)
          (before_inner ws z cur ys (subst (λ c. IsList l (c ++ (cur ∷ ys))) some_before v)
            (subst (λ c. Avoids e (c ++ (cur ∷ ys))) some_before out)
            (subst (λ c. suc (length (c ++ (cur ∷ ys))) < 2 ^ 32) some_before room))
  ]
