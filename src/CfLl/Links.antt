-- ===== src/CfLl/Links.antt =====
-- New elements linked into a run: at its start, at its end, and between two elements.
use mathlib.Core.Path.{subst}
use aerospike_common.Common.{ℕ, ◌≢◌, refl, sym, ◌∙◌, List, [], ◌∷◌, ◌++◌}
use aerospike_common.CfLl.{update}
use aerospike_common.CfLl.Segments.{
  Seg, Avoids, update_ne, update_eq, frame-next, frame-prev, join, set_first, set_last,
  Avoids-append,
}

pub link_start :
    (next prev : ℕ → ℕ) (x : ℕ) (xs : List ℕ) (t e : ℕ)
    → e ≢ 0
    → Avoids e (x ∷ xs)
    → Avoids x xs
    → Seg next prev 0 x (x ∷ xs) t 0
    → Seg (update next e x) (update (update prev e 0) x e) 0 e (e ∷ x ∷ xs) t 0
link_start next prev x xs t e some_e (ne, out) x_out s =
    let next' = update next e x in
    let prev' = update (update prev e 0) x e in
    (
      refl,
      some_e,
      update_ne (update prev e 0) x e e (λ same. ne (sym same)) ∙ update_eq prev e 0,
      subst (λ h. Seg next' prev' e h (x ∷ xs) t 0) (sym (update_eq next e x))
          (set_first next' (update prev e 0) 0 e x x xs t 0 x_out (
            frame-prev next' prev 0 x (x ∷ xs) t 0 e 0 (ne, out)
              (frame-next next prev 0 x (x ∷ xs) t 0 e x (ne, out) s))),
    )

module _ (next prev : ℕ → ℕ) (h : ℕ) (ws : List ℕ) (z e : ℕ) (some_e : e ≢ 0)
    (out : Avoids e (ws ++ (z ∷ []))) (z_out : Avoids z ws) where
  z_ne : z ≢ e
  z_ne = (Avoids-append e ws (z ∷ []) out).1.0

  -- The run before the new element.
  before :
      (k y : ℕ)
      → Seg next prev 0 h (ws ++ (z ∷ [])) z k
      → Seg (update (update next e y) z e) (update prev e z) 0 h (ws ++ (z ∷ [])) z e
  before k y s = set_last (update next e y) (update prev e z) 0 h ws z z k e z_out (
      frame-prev (update next e y) prev 0 h (ws ++ (z ∷ [])) z k e z out
        (frame-next next prev 0 h (ws ++ (z ∷ [])) z k e y out s))

  pub link_end :
      Seg next prev 0 h (ws ++ (z ∷ [])) z 0
      → Seg (update (update next e 0) z e) (update prev e z) 0 h ((ws ++ (z ∷ [])) ++ (e ∷ [])) e 0
  link_end s =
      join (update (update next e 0) z e) (update prev e z) 0 h (ws ++ (z ∷ [])) (e ∷ []) z e e 0
        (before 0 0 s)
        (
          refl,
          some_e,
          update_eq prev e z,
          (update_ne (update next e 0) z e e (λ same. z_ne (sym same)) ∙ update_eq next e 0, refl),
        )

  pub link_between :
      (k y : ℕ) (zs : List ℕ) (t : ℕ)
      → Avoids e (y ∷ zs)
      → Avoids z (y ∷ zs)
      → Avoids y (ws ++ (z ∷ []))
      → Avoids y zs
      → Seg next prev 0 h (ws ++ (z ∷ [])) z k
      → Seg next prev z y (y ∷ zs) t 0
      → Seg
          (update (update next e y) z e)
          (update (update prev e z) y e)
          0
          h
          ((ws ++ (z ∷ [])) ++ (e ∷ y ∷ zs))
          t
          0
  link_between k y zs t e_out z_out_ys y_out y_out_zs s r =
      let next' = update (update next e y) z e in
      let prev' = update (update prev e z) y e in
      let (y_ne, e_out_zs) = e_out in
      join next' prev' 0 h (ws ++ (z ∷ [])) (e ∷ y ∷ zs) z e t 0
        (frame-prev next' (update prev e z) 0 h (ws ++ (z ∷ [])) z e y e y_out (before k y s))
        (
          refl,
          some_e,
          update_ne (update prev e z) y e e (λ same. y_ne (sym same)) ∙ update_eq prev e z,
          subst (λ a. Seg next' prev' e a (y ∷ zs) t 0)
              (sym
                (update_ne (update next e y) z e e (λ same. z_ne (sym same)) ∙ update_eq next e y))
              (set_first next' (update prev e z) z e y y zs t 0 y_out_zs (
                frame-prev next' prev z y (y ∷ zs) t 0 e z e_out (
                  frame-next (update next e y) prev z y (y ∷ zs) t 0 z e z_out_ys
                    (frame-next next prev z y (y ∷ zs) t 0 e y e_out r)))),
        )
