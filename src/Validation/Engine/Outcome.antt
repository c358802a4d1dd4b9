-- ===== src/Validation/Engine/Outcome.antt =====
-- core/validation/engine.py: what the outcome of a validation says.
use hungrx_agent.Prelude.{
  ℕ, ◌+◌, ◌≡◌, ◌≢◌, ◌↔◌, refl, sym, ◌∙◌, inl, inr, true, false, not, List, [], ◌∷◌, arith, All,
  All-append_iff, All-append_known, any, is_empty, is_empty-append, is_empty-keep_if, Bool-cases,
}
use hungrx_agent.Text.{Unicode, IsLawful}
use hungrx_agent.Schema.Menu.{Dish, Menu}
use hungrx_agent.Schema.Restaurant.{RestaurantLocation, Restaurant}
use hungrx_agent.Validation.Result.{Place, key, index, is_error, is_valid}
use hungrx_agent.Validation.RequiredFields.{
  location_issues, content_issues, check_required_fields, menu_has_any_dish,
}
use hungrx_agent.Validation.Corrections.{apply_safe_corrections}
use hungrx_agent.Validation.Corrections.Tree.{apply_safe_corrections_idem}
use hungrx_agent.Validation.Engine.{
  dish_issues, all_dish_issues, menu_issues, all_menu_issues, rule_issues, iter_dishes, parsed,
  finish, validate,
}
use hungrx_agent.Validation.Engine.Dishes.{menus_dishes, dishes_of, is_empty-iter_dishes}
use hungrx_agent.Validation.Engine.Sound.{
  NoErrors, IsSoundDish, NoErrors-dish_issues, NoErrors-check_duplicate_dishes,
}

not_empty {ℓ} : {A : Type ℓ} (xs : List A) → not (is_empty xs) ≡ true → xs ≢ []
not_empty [] h e = absurd (cc h)
not_empty (x ∷ xs) h e = cc e

is_empty_of_ne {ℓ} : {A : Type ℓ} (xs : List A) → xs ≢ [] → not (is_empty xs) ≡ true
is_empty_of_ne [] h = absurd (h refl)
is_empty_of_ne (x ∷ xs) h = refl

any_menu_has_dish :
    (ms : List Menu) (i : ℕ) → any menu_has_any_dish ms ≡ not (is_empty (menus_dishes i ms))
unfolding any menu_has_any_dish menus_dishes
any_menu_has_dish [] i = refl
any_menu_has_dish (m ∷ ms) i = rw is_empty-append (
    ground (
      arith,
      is_empty-iter_dishes m.categories (key "menus" ∷ index i ∷ []) 0,
      any_menu_has_dish ms (i + 1),
    ))

NoErrors-location_issues : (ls : List RestaurantLocation) → NoErrors (location_issues ls)
unfolding location_issues
NoErrors-location_issues [] = (refl, tt)
NoErrors-location_issues (l ∷ ls) = tt

NoErrors-content_issues :
    (ms : List Menu) → NoErrors (content_issues ms) ↔ (any menu_has_any_dish ms ≡ true)
unfolding content_issues any
NoErrors-content_issues [] = (λ h. absurd (cc h.0), λ h. absurd (cc h))
NoErrors-content_issues (m ∷ ms) = elim (Bool-cases (any menu_has_any_dish (m ∷ ms))) [
  | inl e ↦ rw e (λ h. refl, λ h. tt)
  | inr e ↦ rw e (λ h. absurd (cc h.0), λ h. absurd (cc h))
]

-- A restaurant with a dish has no missing or empty menus, and conversely.
NoErrors-check_required_fields :
    (r : Restaurant) → NoErrors (check_required_fields r) ↔ (dishes_of r ≢ [])
unfolding check_required_fields dishes_of
NoErrors-check_required_fields r =
    let dish = any_menu_has_dish r.menus 0 in
    let known =
      All-append_known _ _ (content_issues r.menus) (NoErrors-location_issues r.locations) in
    let content = NoErrors-content_issues r.menus in
    (
      λ h. not_empty _ (sym dish ∙ content.0 (known.0 h)),
      λ h. known.1 (content.1 (dish ∙ is_empty_of_ne _ h)),
    )

module _ (u : Unicode) where
  -- Every dish is sound.
  abbrev pub SoundDishes : List (Dish × Place) → Type 0
  SoundDishes = All (λ d. IsSoundDish u d.0)

  -- The restaurant has a dish, and all its dishes are sound.
  pub record IsPublishable (r : Restaurant) : Type 0 where
    pub has_dish : dishes_of r ≢ []
    pub sound : SoundDishes (dishes_of r)

  NoErrors-all_dish_issues :
      (ds : List (Dish × Place)) → NoErrors (all_dish_issues u ds) ↔ SoundDishes ds
  unfolding all_dish_issues
  NoErrors-all_dish_issues [] = (λ h. tt, λ h. tt)
  NoErrors-all_dish_issues ((d, p) ∷ ds) =
      let first = NoErrors-dish_issues u d p in
      let rest = NoErrors-all_dish_issues ds in
      let both =
        All-append_iff (λ i. is_error i ≡ false) (dish_issues u (d, p)) (all_dish_issues u ds) in
      (λ h. (first.0 (both.0 h).0, rest.0 (both.0 h).1), λ h. both.1 (first.1 h.0, rest.1 h.1))

  NoErrors-all_menu_issues :
      (ms : List Menu) (i : ℕ) → NoErrors (all_menu_issues u i ms) ↔ SoundDishes (menus_dishes i ms)
  unfolding all_menu_issues menu_issues menus_dishes
  NoErrors-all_menu_issues [] i = (λ h. tt, λ h. tt)
  NoErrors-all_menu_issues (m ∷ ms) i =
      let ds = iter_dishes (key "menus" ∷ index i ∷ []) 0 m.categories in
      let known =
        All-append_known _ _ (all_dish_issues u ds) (NoErrors-check_duplicate_dishes u ds) in
      let first = NoErrors-all_dish_issues ds in
      let rest = NoErrors-all_menu_issues ms (i + 1) in
      let both =
        All-append_iff (λ i. is_error i ≡ false) (menu_issues u i m)
          (all_menu_issues u (i + 1) ms) in
      let sounds =
        All-append_iff (λ (d : Dish × Place). IsSoundDish u d.0) ds (menus_dishes (i + 1) ms) in
      (
        λ h. sounds.1 (first.0 (known.0 (both.0 h).0), rest.0 (both.0 h).1),
        λ h. both.1 (known.1 (first.1 (sounds.0 h).0), rest.1 (sounds.0 h).1),
      )

  NoErrors-rule_issues : (r : Restaurant) → NoErrors (rule_issues u r) ↔ IsPublishable r
  unfolding rule_issues dishes_of
  NoErrors-rule_issues r =
      let first = NoErrors-check_required_fields r in
      let rest = NoErrors-all_menu_issues r.menus 0 in
      let both =
        All-append_iff (λ i. is_error i ≡ false) (check_required_fields r)
          (all_menu_issues u 0 r.menus) in
      (
        λ h. record { has_dish = first.0 (both.0 h).0; sound = rest.0 (both.0 h).1 },
        λ h. both.1 (first.1 h.has_dish, rest.1 h.sound),
      )

  -- The engine calls a restaurant valid exactly when the restaurant, after the safe corrections, has a
  -- dish and each of its dishes is sound: price and nutrients within their bounds, no part above its
  -- whole, and a currency of three letters.
  pub is_valid-validate :
      (r : Restaurant)
      → (is_valid (validate u (parsed r)) ≡ true) ↔ IsPublishable (apply_safe_corrections u r).0
  unfolding validate finish is_valid
  is_valid-validate r =
      let empty = is_empty-keep_if is_error (rule_issues u (apply_safe_corrections u r).0) in
      let rules = NoErrors-rule_issues (apply_safe_corrections u r).0 in
      (λ h. rules.0 (empty.0 h), λ h. empty.1 (rules.1 h))

  -- For lawful character tables, validating the corrected restaurant again gives the same outcome, but
  -- for the record of corrections, which is empty.
  pub validate-corrected :
      IsLawful u
      → (r : Restaurant)
      → validate u (parsed (apply_safe_corrections u r).0)
        ≡ record (validate u (parsed r)) { corrected_fields = [] }
  unfolding validate finish
  validate-corrected law r = rw (apply_safe_corrections_idem u law r)
