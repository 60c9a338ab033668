-- ===== src/CfLl/Lists.antt =====
-- The operations of cf_ll against a list of its elements.
use mathlib.Core.Path.{subst}
use aerospike_common.Common.{
  ℕ, suc, ◌^◌, ◌<◌, ◌≡◌, ◌≢◌, refl, sym, arith, List, [], ◌∷◌, Option, some, true, false, ◌==◌,
  length,
}
use aerospike_common.CfLl.{CfLl, update, cf_ll_prepend, more}
use aerospike_common.CfLl.Links.{link_start}
use aerospike_common.CfLl.Segments.{Seg, Avoids, Distinct, update_eq}

-- The list holds these elements, each once, linked both ways, and counts them.
pub record IsList (l : CfLl) (xs : List ℕ) : Type 0 where
  pub linked : Seg l.next l.prev 0 l.head xs l.tail 0
  pub distinct : Distinct xs
  pub counted : l.sz ≡ length xs
  pub few : length xs < 2 ^ 32

abbrev pub Becomes : Option CfLl → List ℕ → Type 0
Becomes r xs = (l : CfLl) × (r ≡ some l) × IsList l xs

pub cf_ll_prepend-IsList :
    (l : CfLl) (xs : List ℕ) (e : ℕ)
    → IsList l xs
    → e ≢ 0
    → Avoids e xs
    → suc (length xs) < 2 ^ 32
    → Becomes (cf_ll_prepend l e) (e ∷ xs)
unfolding cf_ll_prepend
cf_ll_prepend-IsList l [] e v some_e out room =
    let (at, last) = v.linked in
    let empty : (l.head == 0) ≡ true = ground arith in
    let nonzero : (e == 0) ≡ false = ground arith in
    (
      more (record l { head = e; tail = e; next = update l.next e 0; prev = update l.prev e 0 }),
      rw (empty, nonzero) refl,
      record {
        linked = (refl, some_e, update_eq l.prev e 0, (update_eq l.next e 0, refl));
        distinct = (tt, tt);
        counted = omega (arith, v.counted);
        few = room;
      },
    )
cf_ll_prepend-IsList l (x ∷ xs) e v some_e out room =
    let (at, some_x, back, s) = v.linked in
    let full : (l.head == 0) ≡ false = ground arith in
    let nonzero : (e == 0) ≡ false = ground arith in
    let next' = update l.next e l.head in
    let prev' = update (update l.prev e 0) l.head e in
    (
      more (record l { head = e; next = next'; prev = prev' }),
      rw (full, nonzero, full) refl,
      record {
        linked =
            subst
              (λ h.
                Seg (update l.next e h) (update (update l.prev e 0) h e) 0 e (e ∷ x ∷ xs) l.tail 0)
              (sym at)
              (link_start l.next l.prev x xs l.tail e some_e out v.distinct.0
                (refl, some_x, back, s));
        distinct = (out, v.distinct);
        counted = omega (arith, v.counted);
        few = room;
      },
    )
