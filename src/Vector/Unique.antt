-- ===== src/Vector/Unique.antt =====
-- The search of `as_vector_append_unique`.
use aerospike_common.Common.{
  ℕ, zero, suc, ◌≤◌, ◌≡◌, ◌⊎◌, refl, sym, arith, List, [], ◌∷◌, ◌++◌, some, Bool, true, false,
  length, take, if◌then◌else◌, inl, inr, Bool-cases,
}
use mathlib.Core.List.{Mem, not-mem-nil, mem-cons, mem-cons_self, mem_of_ne_of_mem}
use mathlib.Core.Path.{subst}
use aerospike_common.Memory.{Memory, IsMemory}
use aerospike_common.Vector.{Vector, slots, has_item, as_vector_append_unique}
use aerospike_common.Vector.Contents.{IsValid, contents}
use aerospike_common.Vector.Grow.{Provides, IsGrowable}
use aerospike_common.Vector.Change.{as_vector_append_lem}

module _ {ℓ} {A : Type ℓ} where
  -- `memcmp` of two items is 0 for equal items only.
  pub record IsEquality (same : A → A → Bool) : Type ℓ where
    pub sound : (a b : A) → same a b ≡ true → a ≡ b
    pub complete : (a : A) → same a a ≡ true

  abbrev pub Searched : A → List A → Bool → Type ℓ
  Searched x xs true = Mem x xs
  Searched x xs false = ¬ Mem x xs

  search_step :
      (same : A → A → Bool) (x y : A) (xs : List A) (b : Bool)
      → IsEquality same
      → Searched x xs b
      → Searched x (y ∷ xs) (if same y x then true else b)
  search_step same x y xs b law found = elim (Bool-cases (same y x)) [
    | inl hit ↦ rw hit (subst (λ z. Mem x (z ∷ xs)) (sym (law.sound y x hit)) mem-cons_self)
    | inr miss ↦ rw miss (further b found miss)
  ]
    where
      further : (b : Bool) → Searched x xs b → same y x ≡ false → Searched x (y ∷ xs) b
      further true found miss = mem-cons.1 (∣ inr found ∣₁)
      further false found miss =
          λ among. found (mem_of_ne_of_mem (λ e. let c = law.complete y in cc) among)

  has_item_lem :
      (same : A → A → Bool) (x : A) (d : List A) (n : ℕ)
      → IsEquality same
      → n ≤ length d
      → (b : Bool) × (has_item same x d n ≡ some b) × Searched x (take n d) b
  unfolding has_item
  has_item_lem same x d zero law h = (false, refl, not-mem-nil)
  has_item_lem same x [] (suc n) law h = absurd (omega arith)
  has_item_lem same x (y ∷ d) (suc n) law h =
      let (b, run, found) = has_item_lem same x d n law (omega arith) in
      (
        if same y x then true else b,
        rw run (pick (same y x) b),
        search_step same x y (take n d) b law found,
      )
    where
      pick : (c b : Bool) → (if c then some true else some b) ≡ some (if c then true else b)
      pick true b = refl
      pick false b = refl

  module _ (memory : Memory A) (same : A → A → Bool) (v : Vector A) (x : A) where
    -- What `as_vector_append_unique` may do: it finds the item and changes nothing, or puts an item
    -- that was not there behind the others.
    pub Uniquely : Type ℓ
    Uniquely =
        (Mem x (contents v) × (as_vector_append_unique memory same v x ≡ some (false, v)))
        ⊎ (¬ Mem x (contents v)
            × ((w : Vector A) × (as_vector_append_unique memory same v x ≡ some (true, w))
                × IsValid w
                × (contents w ≡ contents v ++ (x ∷ []))))

    -- With memory at hand, room for twice the bytes and a comparison that holds for equal items only,
    -- `as_vector_append_unique` on a valid vector with some capacity stays in the array: it finds an
    -- item that is in the vector and changes nothing, or puts one that is not behind the others.
    pub as_vector_append_unique_lem :
        IsMemory memory v.item_size
        → Provides memory
        → IsValid v
        → IsGrowable v
        → IsEquality same
        → Uniquely
    unfolding as_vector_append_unique Uniquely
    as_vector_append_unique_lem law rich valid can equality =
        let (d, e, sized) = valid.stored in
        let in_reach : v.size ≤ length (slots v) = rw e (omega (arith, valid.fits, sized)) in
        let (b, run, found) = has_item_lem same x (slots v) v.size equality in_reach in
        outcome b run found
      where
        outcome :
            (b : Bool)
            → has_item same x (slots v) v.size ≡ some b
            → Searched x (contents v) b
            → Uniquely
        outcome true run found = inl (found, rw run refl)
        outcome false run found =
            let (w, appended, valid', items) = as_vector_append_lem memory v x law rich valid can in
            inr (found, (w, rw (run, appended) refl, valid', items))
