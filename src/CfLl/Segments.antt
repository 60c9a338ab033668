-- ===== src/CfLl/Segments.antt =====
-- Runs of linked elements: what a write to a link changes, and how runs are joined and taken apart.
use aerospike_common.Common.{
  ℕ, ◌≡◌, ◌≢◌, refl, sym, ap, ◌∙◌, arith, List, [], ◌∷◌, ◌++◌, ◌⊎◌, inl, inr,
}
use aerospike_common.CfLl.{update}

-- From `h` the links `next` lead through `xs` to `n`, and `prev` back to `p`; `t` is the last one, or
-- `p` if there is none.
abbrev pub Seg : (ℕ → ℕ) → (ℕ → ℕ) → ℕ → ℕ → List ℕ → ℕ → ℕ → Type 0
Seg next prev p h [] t n = (h ≡ n) × (t ≡ p)
Seg next prev p h (x ∷ xs) t n = (h ≡ x) × (x ≢ 0) × (prev x ≡ p) × Seg next prev x (next x) xs t n

abbrev pub Avoids : ℕ → List ℕ → Type 0
Avoids e [] = Unit
Avoids e (x ∷ xs) = (x ≢ e) × Avoids e xs

abbrev pub Distinct : List ℕ → Type 0
Distinct [] = Unit
Distinct (x ∷ xs) = Avoids x xs × Distinct xs

pub update_ne : (f : ℕ → ℕ) (e v a : ℕ) → a ≢ e → update f e v a ≡ f a
update_ne f e v a ne = ground arith

pub update_eq : (f : ℕ → ℕ) (e v : ℕ) → update f e v e ≡ v
update_eq f e v = ground arith

-- Writes to an element elsewhere.
pub frame-next :
    (next prev : ℕ → ℕ) (p h : ℕ) (xs : List ℕ) (t n e v : ℕ)
    → Avoids e xs
    → Seg next prev p h xs t n
    → Seg (update next e v) prev p h xs t n
frame-next next prev p h [] t n e v a s = s
frame-next next prev p h (x ∷ xs) t n e v (ne, a) (at, some_x, back, s) = (
  at,
  some_x,
  back,
  rw (update_ne next e v x ne) (frame-next next prev x (next x) xs t n e v a s),
)

pub frame-prev :
    (next prev : ℕ → ℕ) (p h : ℕ) (xs : List ℕ) (t n e v : ℕ)
    → Avoids e xs
    → Seg next prev p h xs t n
    → Seg next (update prev e v) p h xs t n
frame-prev next prev p h [] t n e v a s = s
frame-prev next prev p h (x ∷ xs) t n e v (ne, a) (at, some_x, back, s) =
    (at, some_x, update_ne prev e v x ne ∙ back, frame-prev next prev x (next x) xs t n e v a s)

-- Two runs in a row, and one taken apart.
pub join :
    (next prev : ℕ → ℕ) (p h : ℕ) (xs ys : List ℕ) (m k t n : ℕ)
    → Seg next prev p h xs m k
    → Seg next prev m k ys t n
    → Seg next prev p h (xs ++ ys) t n
join next prev p h [] ys m k t n (e, f) s = rw (e, ← f) s
join next prev p h (x ∷ xs) ys m k t n (at, some_x, back, r) s =
    (at, some_x, back, join next prev x (next x) xs ys m k t n r s)

pub split :
    (next prev : ℕ → ℕ) (p h : ℕ) (xs ys : List ℕ) (t n : ℕ)
    → Seg next prev p h (xs ++ ys) t n
    → (m : ℕ) × (k : ℕ) × Seg next prev p h xs m k × Seg next prev m k ys t n
split next prev p h [] ys t n s = (p, h, (refl, refl), s)
split next prev p h (x ∷ xs) ys t n (at, some_x, back, s) =
    let (m, k, first, rest) = split next prev x (next x) xs ys t n s in
    (m, k, (at, some_x, back, first), rest)

-- The first element's `prev`, and the last one's `next`.
pub set_first :
    (next prev : ℕ → ℕ) (p q h x : ℕ) (xs : List ℕ) (t n : ℕ)
    → Avoids x xs
    → Seg next prev p h (x ∷ xs) t n
    → Seg next (update prev x q) q h (x ∷ xs) t n
set_first next prev p q h x xs t n a (at, some_x, back, s) =
    (at, some_x, update_eq prev x q, frame-prev next prev x (next x) xs t n x q a s)

pub set_last :
    (next prev : ℕ → ℕ) (p h : ℕ) (ys : List ℕ) (z t n v : ℕ)
    → Avoids z ys
    → Seg next prev p h (ys ++ (z ∷ [])) t n
    → Seg (update next z v) prev p h (ys ++ (z ∷ [])) t v
set_last next prev p h ys z t n v a s =
    let (m, k, first, (at, some_z, back, (end, last))) = split next prev p h ys (z ∷ []) t n s in
    join (update next z v) prev p h ys (z ∷ []) m k t v
      (frame-next next prev p h ys m k z v a first) (at, some_z, back, (update_eq next z v, last))

pub last-eq :
    (next prev : ℕ → ℕ) (p h : ℕ) (ys : List ℕ) (z t n : ℕ)
    → Seg next prev p h (ys ++ (z ∷ [])) t n
    → (t ≡ z) × (z ≢ 0)
last-eq next prev p h ys z t n s =
    let (m, k, first, (at, some_z, back, (end, last))) = split next prev p h ys (z ∷ []) t n s in
    (last, some_z)

-- Lists of different elements.
pub Avoids-append : (e : ℕ) (xs ys : List ℕ) → Avoids e (xs ++ ys) → Avoids e xs × Avoids e ys
Avoids-append e [] ys a = (tt, a)
Avoids-append e (x ∷ xs) ys (ne, a) = let (b, c) = Avoids-append e xs ys a in ((ne, b), c)

pub append-Avoids : (e : ℕ) (xs ys : List ℕ) → Avoids e xs → Avoids e ys → Avoids e (xs ++ ys)
append-Avoids e [] ys a b = b
append-Avoids e (x ∷ xs) ys (ne, a) b = (ne, append-Avoids e xs ys a b)

pub Distinct-remove :
    (xs ys : List ℕ) (e : ℕ)
    → Distinct (xs ++ (e ∷ ys))
    → Avoids e xs × Avoids e ys × Distinct (xs ++ ys)
Distinct-remove [] ys e (a, d) = (tt, a, d)
Distinct-remove (x ∷ xs) ys e (a, d) =
    let (b, c, f) = Distinct-remove xs ys e d in
    let (from_xs, (ne, from_ys)) = Avoids-append x xs (e ∷ ys) a in
    ((λ k. ne (sym k), b), c, (append-Avoids x xs ys from_xs from_ys, f))

pub Distinct-insert :
    (xs ys : List ℕ) (e : ℕ)
    → Avoids e xs
    → Avoids e ys
    → Distinct (xs ++ ys)
    → Distinct (xs ++ (e ∷ ys))
Distinct-insert [] ys e a b d = (b, d)
Distinct-insert (x ∷ xs) ys e (ne, a) b (c, d) =
    let (from_xs, from_ys) = Avoids-append x xs ys c in
    (append-Avoids x xs (e ∷ ys) from_xs (λ k. ne (sym k), from_ys), Distinct-insert xs ys e a b d)

-- A list is empty or has a last element.
pub last-cases : (xs : List ℕ) → (xs ≡ []) ⊎ ((ys : List ℕ) × (z : ℕ) × (xs ≡ ys ++ (z ∷ [])))
last-cases [] = inl refl
last-cases (x ∷ xs) = elim (last-cases xs) [
  | inl empty ↦ inr ([], x, ap (◌∷◌ x) empty)
  | inr (ys, z, e) ↦ inr (x ∷ ys, z, ap (◌∷◌ x) e)
]

-- An element elsewhere is neither at the start nor at the end.
pub start_ne :
    (next prev : ℕ → ℕ) (p h : ℕ) (ws : List ℕ) (z t n e : ℕ)
    → Avoids e (ws ++ (z ∷ []))
    → Seg next prev p h (ws ++ (z ∷ [])) t n
    → e ≢ h
start_ne next prev p h [] z t n e (ne, a) (at, some_z, back, s) same = ne (sym at ∙ sym same)
start_ne next prev p h (w ∷ ws) z t n e (ne, a) (at, some_z, back, s) same = ne (sym at ∙ sym same)

pub end_ne :
    (next prev : ℕ → ℕ) (p h y : ℕ) (zs : List ℕ) (t n e : ℕ)
    → Avoids e (y ∷ zs)
    → Seg next prev p h (y ∷ zs) t n
    → e ≢ t
end_ne next prev p h y [] t n e (ne, a) (at, some_y, back, (end, last)) =
    λ same. ne (sym last ∙ sym same)
end_ne next prev p h y (z ∷ zs) t n e (ne, a) (at, some_y, back, s) =
    end_ne next prev y (next y) z zs t n e a s

pub Distinct-last :
    (ws ys : List ℕ) (z : ℕ) → Distinct ((ws ++ (z ∷ [])) ++ ys) → Avoids z ws × Avoids z ys
Distinct-last [] ys z (a, d) = (tt, a)
Distinct-last (w ∷ ws) ys z (a, d) =
    let (b, c) = Distinct-last ws ys z d in
    let (in_front, behind) = Avoids-append w (ws ++ (z ∷ [])) ys a in
    let (in_ws, (ne, none_left)) = Avoids-append w ws (z ∷ []) in_front in ((λ k. ne (sym k), b), c)

-- Two runs linked past what was between them.
pub unlink :
    (next prev : ℕ → ℕ) (h : ℕ) (ws : List ℕ) (z k e y : ℕ) (zs : List ℕ) (t : ℕ)
    → Distinct ((ws ++ (z ∷ [])) ++ (y ∷ zs))
    → Seg next prev 0 h (ws ++ (z ∷ [])) z k
    → Seg next prev e y (y ∷ zs) t 0
    → Seg (update next z y) (update prev y z) 0 h ((ws ++ (z ∷ [])) ++ (y ∷ zs)) t 0
unlink next prev h ws z k e y zs t distinct first rest =
    let xs = ws ++ (z ∷ []) in
    let (z_out, z_out_ys) = Distinct-last ws (y ∷ zs) z distinct in
    let (y_out, y_out_zs, left) = Distinct-remove xs zs y distinct in
    join (update next z y) (update prev y z) 0 h xs (y ∷ zs) z y t 0
      (frame-prev (update next z y) prev 0 h xs z y y z y_out
        (set_last next prev 0 h ws z z k y z_out first))
      (set_first (update next z y) prev e z y y zs t 0 y_out_zs
        (frame-next next prev e y (y ∷ zs) t 0 z y z_out_ys rest))

pub last_next :
    (next prev : ℕ → ℕ) (p h : ℕ) (ys : List ℕ) (z t n : ℕ)
    → Seg next prev p h (ys ++ (z ∷ [])) t n
    → next z ≡ n
last_next next prev p h ys z t n s =
    let (m, k, first, (at, some_z, back, (end, last))) = split next prev p h ys (z ∷ []) t n s in
    end
