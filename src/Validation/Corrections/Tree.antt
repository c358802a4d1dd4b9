-- ===== src/Validation/Corrections/Tree.antt =====
-- Correcting the whole tree: a second run corrects nothing, and the record of corrections is empty
-- exactly when the restaurant stays as it is.
use hungrx_agent.Prelude.{ℕ, ◌+◌, ◌≡◌, refl, ap, ◌↔◌, List, [], ◌∷◌, ◌++◌}
use hungrx_agent.Text.{Unicode, IsLawful}
use hungrx_agent.Schema.Menu.{Dish, MenuCategory, category, Categories, nil, cons, Menu}
use hungrx_agent.Schema.Restaurant.{Restaurant}
use hungrx_agent.Validation.Result.{Place, key, index}
use hungrx_agent.Validation.Corrections.{
  correct_dishes, correct_category, correct_categories, correct_menus, apply_safe_corrections,
}
use hungrx_agent.Validation.Corrections.Dishes.{correct_dish_idem, correct_dish_recorded}

module _ (u : Unicode) (law : IsLawful u) where
  correct_dishes_idem :
      (p q : Place) (i j : ℕ) (ds : List Dish)
      → correct_dishes u q j (correct_dishes u p i ds).0 ≡ ((correct_dishes u p i ds).0, [])
  unfolding correct_dishes
  correct_dishes_idem p q i j [] = refl
  correct_dishes_idem p q i j (d ∷ ds) = rw (
    correct_dish_idem u law d (p ++ (key "dishes" ∷ index i ∷ []))
        (q ++ (key "dishes" ∷ index j ∷ [])),
    correct_dishes_idem p q (i + 1) (j + 1) ds,
  )

  mutual
    unfolding correct_category

    correct_category_idem :
        (c : MenuCategory) (p q : Place)
        → correct_category u q (correct_category u p c).0 ≡ ((correct_category u p c).0, [])
    correct_category_idem (category id name order children dishes) p q =
        rw (correct_dishes_idem p q 0 0 dishes, correct_categories_idem children p q 0 0)

    correct_categories_idem :
        (cs : Categories) (p q : Place) (i j : ℕ)
        → correct_categories u q j (correct_categories u p i cs).0
          ≡ ((correct_categories u p i cs).0, [])
    correct_categories_idem nil p q i j = refl
    correct_categories_idem (cons c cs) p q i j = rw (
      correct_category_idem c (p ++ (key "categories" ∷ index i ∷ []))
          (q ++ (key "categories" ∷ index j ∷ [])),
      correct_categories_idem cs p q (i + 1) (j + 1),
    )

  correct_menus_idem :
      (ms : List Menu) (i : ℕ)
      → correct_menus u i (correct_menus u i ms).0 ≡ ((correct_menus u i ms).0, [])
  unfolding correct_menus
  correct_menus_idem [] i = refl
  correct_menus_idem (m ∷ ms) i = rw (
    correct_categories_idem m.categories (key "menus" ∷ index i ∷ []) (key "menus" ∷ index i ∷ []) 0
        0,
    correct_menus_idem ms (i + 1),
  )

  -- For lawful character tables, the safe corrections of a corrected restaurant leave it as it is and
  -- record nothing.
  pub apply_safe_corrections_idem :
      (r : Restaurant)
      → apply_safe_corrections u (apply_safe_corrections u r).0
        ≡ ((apply_safe_corrections u r).0, [])
  unfolding apply_safe_corrections
  apply_safe_corrections_idem r = rw (correct_menus_idem r.menus 0)

append-eq-nil {ℓ} : {A : Type ℓ} (xs ys : List A) → xs ++ ys ≡ [] → (xs ≡ []) × (ys ≡ [])
append-eq-nil [] ys h = (refl, h)
append-eq-nil (x ∷ xs) ys h = absurd (cc h)

-- Two records of corrections, one behind the other, of two things that make up a third.
recorded_append {ℓ κ} :
    {A : Type ℓ} {P Q R : Type κ} (xs ys : List A)
    → P ↔ (xs ≡ [])
    → Q ↔ (ys ≡ [])
    → (P × Q) ↔ R
    → R ↔ (xs ++ ys ≡ [])
recorded_append xs ys first rest join = (
  λ r. rw (first.0 (join.1 r).0) (rest.0 (join.1 r).1),
  λ e. let both = append-eq-nil xs ys e in join.0 (first.1 both.0, rest.1 both.1),
)

cons_inj {ℓ} : {A : Type ℓ} {x y : A} {xs ys : List A} → x ∷ xs ≡ y ∷ ys → (x ≡ y) × (xs ≡ ys)
cons_inj e = (cc e, cc e)

module _ (u : Unicode) where
  correct_dishes_recorded :
      (p : Place) (i : ℕ) (ds : List Dish)
      → ((correct_dishes u p i ds).0 ≡ ds) ↔ ((correct_dishes u p i ds).1 ≡ [])
  unfolding correct_dishes
  correct_dishes_recorded p i [] = (λ e. refl, λ e. refl)
  correct_dishes_recorded p i (d ∷ ds) =
      let first = correct_dish_recorded u d (p ++ (key "dishes" ∷ index i ∷ [])) in
      let rest = correct_dishes_recorded p (i + 1) ds in
      recorded_append _ _ first rest (λ h. cc (h.0, h.1), λ e. (cc e, cc e))

  mutual
    unfolding correct_category

    correct_category_recorded :
        (c : MenuCategory) (p : Place)
        → ((correct_category u p c).0 ≡ c) ↔ ((correct_category u p c).1 ≡ [])
    correct_category_recorded (category id name order children dishes) p =
        let first = correct_dishes_recorded p 0 dishes in
        let rest = correct_categories_recorded children p 0 in
        recorded_append _ _ first rest (λ h. cc (h.0, h.1), λ e. (cc e, cc e))

    correct_categories_recorded :
        (cs : Categories) (p : Place) (i : ℕ)
        → ((correct_categories u p i cs).0 ≡ cs) ↔ ((correct_categories u p i cs).1 ≡ [])
    correct_categories_recorded nil p i = (λ e. refl, λ e. refl)
    correct_categories_recorded (cons c cs) p i =
        let first = correct_category_recorded c (p ++ (key "categories" ∷ index i ∷ [])) in
        let rest = correct_categories_recorded cs p (i + 1) in
        recorded_append _ _ first rest (λ h. cc (h.0, h.1), λ e. (cc e, cc e))

  correct_menus_recorded :
      (ms : List Menu) (i : ℕ) → ((correct_menus u i ms).0 ≡ ms) ↔ ((correct_menus u i ms).1 ≡ [])
  unfolding correct_menus
  correct_menus_recorded [] i = (λ e. refl, λ e. refl)
  correct_menus_recorded (m ∷ ms) i =
      let first = correct_categories_recorded m.categories (key "menus" ∷ index i ∷ []) 0 in
      let rest = correct_menus_recorded ms (i + 1) in
      recorded_append _ _ first rest
        (λ h. cc (h.0, h.1), λ e. (ap (λ (m : Menu). m.categories) (cons_inj e).0, (cons_inj e).1))

  -- A restaurant stays as it is under the safe corrections exactly when none is recorded.
  pub apply_safe_corrections_recorded :
      (r : Restaurant)
      → ((apply_safe_corrections u r).0 ≡ r) ↔ ((apply_safe_corrections u r).1 ≡ [])
  unfolding apply_safe_corrections
  apply_safe_corrections_recorded r =
      let menus = correct_menus_recorded r.menus 0 in
      (λ e. menus.0 (ap (λ (s : Restaurant). s.menus) e), λ e. cc (menus.1 e))
