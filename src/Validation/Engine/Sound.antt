-- ===== src/Validation/Engine/Sound.antt =====
-- The rules of core/validation on one dish: when they find no error.
use hungrx_agent.Prelude.{
  ◌≡◌, ◌↔◌, inl, inr, All-append_known, refl, true, false, Option, none, some, List, [], ◌∷◌, ◌++◌,
  map, length, arith, All, All-append, All-append_left, All-append_right, Bool-cases, ltb,
}
use hungrx_agent.Text.{Text, Unicode, is_alpha}
use hungrx_agent.Decimal.{Decimal, decimal, less}
use hungrx_agent.Schema.Menu.{Allergen, Dish}
use hungrx_agent.Validation.Result.{Place, key, ValidationIssue, is_error}
use hungrx_agent.Validation.RequiredFields.{check_dish_required_fields}
use hungrx_agent.Validation.NutritionRules.{
  check_nutrition, check_serving_size_present, check_atwater_consistency, check_plausible_bounds,
  compare_with_atwater,
}
use hungrx_agent.Validation.PriceRules.{check_price}
use hungrx_agent.Validation.ImpossibleValues.{check_impossible_values}
use hungrx_agent.Validation.AllergenRules.{check_allergens, undeclared_issue, undeclared_allergens}
use hungrx_agent.Validation.Duplicates.{
  ByName, check_duplicate_dishes, report_duplicates, name_issues, duplicate_issue, group_by_name,
}
use hungrx_agent.Validation.Engine.{dish_issues}

-- The issues hold no error.
abbrev pub NoErrors : List ValidationIssue → Type 0
NoErrors = All (λ i. is_error i ≡ false)

-- A value that is given is at most the bound.
abbrev pub IsAtMost : Option Decimal → Decimal → Type 0
IsAtMost none bound = Unit
IsAtMost (some value) bound = less bound value ≡ false

-- A part and a whole that are both given: the part is at most the whole.
abbrev pub IsPartOf : Option Decimal → Option Decimal → Type 0
IsPartOf (some part) (some whole) = less whole part ≡ false
IsPartOf _ _ = Unit

pub record IsSoundDish (u : Unicode) (dish : Dish) : Type 0 where
  pub price : IsAtMost dish.price (decimal 500)
  pub alphabetic : is_alpha u dish.currency ≡ true
  pub three_letters : length dish.currency ≡ 3
  pub calories : IsAtMost dish.nutrition.macros.calories (decimal 5000)
  pub sodium : IsAtMost dish.nutrition.macros.sodium_mg (decimal 10000)
  pub saturated_fat : IsPartOf dish.nutrition.macros.saturated_fat_g dish.nutrition.macros.fat_g
  pub trans_fat : IsPartOf dish.nutrition.macros.trans_fat_g dish.nutrition.macros.fat_g
  pub sugar : IsPartOf dish.nutrition.macros.sugar_g dish.nutrition.macros.carbohydrates_g
  pub fiber : IsPartOf dish.nutrition.macros.fiber_g dish.nutrition.macros.carbohydrates_g

NoErrors-check_dish_required_fields :
    (dish : Dish) (p : Place) → NoErrors (check_dish_required_fields dish p)
unfolding check_dish_required_fields
NoErrors-check_dish_required_fields dish p = ground arith

NoErrors-map_undeclared :
    (p : Place) (as' : List Allergen) → NoErrors (map (undeclared_issue p) as')
unfolding undeclared_issue
NoErrors-map_undeclared p [] = tt
NoErrors-map_undeclared p (a ∷ as') = (refl, NoErrors-map_undeclared p as')

NoErrors-check_allergens :
    (u : Unicode) (dish : Dish) (p : Place) → NoErrors (check_allergens u dish p)
unfolding check_allergens
NoErrors-check_allergens u dish p = NoErrors-map_undeclared p (undeclared_allergens u dish)

NoErrors-map_duplicate :
    (name : Text) (paths ps : List Place) → NoErrors (map (duplicate_issue name paths) ps)
unfolding duplicate_issue
NoErrors-map_duplicate name paths [] = tt
NoErrors-map_duplicate name paths (p ∷ ps) = (refl, NoErrors-map_duplicate name paths ps)

NoErrors-name_issues : (name : Text) (paths : List Place) → NoErrors (name_issues name paths)
unfolding name_issues
NoErrors-name_issues name paths = elim (Bool-cases (ltb (length paths) 2)) [
  | inl e ↦ rw e tt
  | inr e ↦ rw e (NoErrors-map_duplicate name paths paths)
]

NoErrors-report_duplicates : (d : ByName) → NoErrors (report_duplicates d)
unfolding report_duplicates
NoErrors-report_duplicates [] = tt
NoErrors-report_duplicates ((name, paths) ∷ d) =
    All-append _ _ _ (NoErrors-name_issues name paths) (NoErrors-report_duplicates d)

pub NoErrors-check_duplicate_dishes :
    (u : Unicode) (ds : List (Dish × Place)) → NoErrors (check_duplicate_dishes u ds)
unfolding check_duplicate_dishes
NoErrors-check_duplicate_dishes u ds = NoErrors-report_duplicates (group_by_name u ds [])

module _ (u : Unicode) (dish : Dish) (p : Place) where
  open dish.nutrition use {macros}

  NoErrors-check_price : NoErrors (check_price u dish p) ↔ (
      IsAtMost dish.price (decimal 500)
      × (is_alpha u dish.currency ≡ true)
      × (length dish.currency ≡ 3))
  unfolding check_price
  NoErrors-check_price = ground arith

  NoErrors-check_serving_size : NoErrors (check_serving_size_present dish p)
  unfolding check_serving_size_present
  NoErrors-check_serving_size = ground arith

  NoErrors-check_atwater : NoErrors (check_atwater_consistency macros p)
  unfolding check_atwater_consistency compare_with_atwater
  NoErrors-check_atwater = ground arith

  NoErrors-check_plausible_bounds :
      NoErrors (check_plausible_bounds dish p)
      ↔ (IsAtMost macros.calories (decimal 5000) × IsAtMost macros.sodium_mg (decimal 10000))
  unfolding check_plausible_bounds
  NoErrors-check_plausible_bounds = ground arith

  NoErrors-check_impossible_values : NoErrors (check_impossible_values dish p) ↔ (
      IsPartOf macros.saturated_fat_g macros.fat_g
      × IsPartOf macros.trans_fat_g macros.fat_g
      × IsPartOf macros.sugar_g macros.carbohydrates_g
      × IsPartOf macros.fiber_g macros.carbohydrates_g)
  unfolding check_impossible_values
  NoErrors-check_impossible_values = ground arith

module _ (u : Unicode) (dish : Dish) (p : Place) where
  NoErrors-check_nutrition : NoErrors (check_nutrition dish p) ↔ (
      IsAtMost dish.nutrition.macros.calories (decimal 5000)
      × IsAtMost dish.nutrition.macros.sodium_mg (decimal 10000))
  unfolding check_nutrition
  NoErrors-check_nutrition =
      let bounds = NoErrors-check_plausible_bounds u dish (p) in
      let after_size =
        All-append_known _ _
          (check_atwater_consistency dish.nutrition.macros p ++ check_plausible_bounds dish p)
          (NoErrors-check_serving_size u dish p) in
      let after_atwater =
        All-append_known _ _ (check_plausible_bounds dish p) (NoErrors-check_atwater u dish p) in
      (
        λ h. bounds.0 (after_atwater.0 (after_size.0 h)),
        λ h. after_size.1 (after_atwater.1 (bounds.1 h)),
      )

module _ (u : Unicode) (dish : Dish) (p : Place) where
  -- The rules find no error in a dish exactly when it is sound.
  pub NoErrors-dish_issues : NoErrors (dish_issues u (dish, p)) ↔ IsSoundDish u dish
  unfolding dish_issues
  NoErrors-dish_issues =
      let nutrition = NoErrors-check_nutrition u dish (p ++ (key "nutrition" ∷ [])) in
      let price = NoErrors-check_price u dish p in
      let parts = NoErrors-check_impossible_values u dish p in
      let required = NoErrors-check_dish_required_fields dish p in
      let allergens = NoErrors-check_allergens u dish p in
      (
        λ h.
            let after_required = All-append_right _ _ _ h in
            let after_nutrition =
              All-append_right _ (check_nutrition dish (p ++ (key "nutrition" ∷ []))) _
                after_required in
            let after_allergens = All-append_right _ (check_allergens u dish p) _ after_nutrition in
            let n = nutrition.0 (All-append_left _ _ _ after_required) in
            let m = price.0 (All-append_left _ (check_price u dish p) _ after_allergens) in
            let q = parts.0 (All-append_right _ (check_price u dish p) _ after_allergens) in
            record {
              price = m.0;
              alphabetic = m.1;
              three_letters = m.2;
              calories = n.0;
              sodium = n.1;
              saturated_fat = q.0;
              trans_fat = q.1;
              sugar = q.2;
              fiber = q.3;
            },
        λ s. All-append _ _ _ required (
            All-append _ _ _ (nutrition.1 (s.calories, s.sodium)) (
              All-append _ _ _ allergens (
                All-append _ _ _ (price.1 (s.price, s.alphabetic, s.three_letters))
                  (parts.1 (s.saturated_fat, s.trans_fat, s.sugar, s.fiber))))),
      )
