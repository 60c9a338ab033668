-- ===== src/CfLl/Tests.antt =====
-- cf_ll at concrete lists.
use aerospike_common.Common.{ℕ, ◌≡◌, some, true, refl, arith, [], ◌∷◌, ◌==◌, if◌then◌else◌}
use aerospike_common.CfLl.{CfLl, cf_ll_insert_after, cf_ll_insert_before, cf_ll_delete}
use aerospike_common.CfLl.Lists.{IsList, Becomes}
use aerospike_common.CfLl.Delete.{cf_ll_delete-IsList}
use aerospike_common.CfLl.Insert.{cf_ll_insert_after-IsList, cf_ll_insert_before-IsList}

abbrev next_of : ℕ → ℕ
next_of a = if a == 10 then 20 else if a == 20 then 30 else 0

abbrev prev_of : ℕ → ℕ
prev_of a = if a == 30 then 20 else if a == 20 then 10 else 0

-- The elements at 10, 20 and 30.
abbrev three : CfLl
three = record {
  head = 10;
  tail = 30;
  sz = 3;
  next = next_of;
  prev = prev_of;
  has_destroy_fn = true;
  destroyed = [];
}

three-IsList : IsList three (10 ∷ 20 ∷ 30 ∷ [])
three-IsList = record {
  linked = (
    refl,
    (λ e. absurd (omega arith)),
    refl,
    (
      refl,
      (λ e. absurd (omega arith)),
      refl,
      (refl, (λ e. absurd (omega arith)), refl, (refl, refl)),
    ),
  );
  distinct = (
    ((λ e. absurd (omega arith)), ((λ e. absurd (omega arith)), tt)),
    (((λ e. absurd (omega arith)), tt), (tt, tt)),
  );
  counted = refl;
  few = omega arith;
}

cf_ll_delete-IsList_example :
    (l : CfLl) × (cf_ll_delete three 20 ≡ some l)
    × IsList l (10 ∷ 30 ∷ [])
    × (l.destroyed ≡ 20 ∷ [])
cf_ll_delete-IsList_example = cf_ll_delete-IsList three (10 ∷ []) (30 ∷ []) 20 three-IsList

cf_ll_insert_after-IsList_example : Becomes (cf_ll_insert_after three 30 5) (10 ∷ 20 ∷ 30 ∷ 5 ∷ [])
cf_ll_insert_after-IsList_example =
    cf_ll_insert_after-IsList three 5 (λ e. absurd (omega arith)) (10 ∷ 20 ∷ []) 30 [] three-IsList
      (
        (λ e. absurd (omega arith)),
        ((λ e. absurd (omega arith)), ((λ e. absurd (omega arith)), tt)),
      )
      (omega arith)

cf_ll_insert_before-IsList_example :
    Becomes (cf_ll_insert_before three 20 5) (10 ∷ 5 ∷ 20 ∷ 30 ∷ [])
cf_ll_insert_before-IsList_example =
    cf_ll_insert_before-IsList three 5 (λ e. absurd (omega arith)) (10 ∷ []) 20 (30 ∷ [])
      three-IsList
      (
        (λ e. absurd (omega arith)),
        ((λ e. absurd (omega arith)), ((λ e. absurd (omega arith)), tt)),
      )
      (omega arith)
