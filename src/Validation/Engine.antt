-- ===== src/Validation/Engine.antt =====
-- core/validation/engine.py
pub mod Dishes
pub mod Sound
pub mod Outcome
use hungrx_agent.Prelude.{
  ℕ, ◌+◌, Bool, Option, none, some, List, [], ◌∷◌, ◌++◌, keep_if, if◌then◌else◌,
}
use hungrx_agent.Text.{Unicode}
use hungrx_agent.Schema.Menu.{Dish, MenuCategory, category, Categories, nil, cons, Menu}
use hungrx_agent.Schema.Restaurant.{Restaurant}
use hungrx_agent.Validation.Result.{
  Place, key, index, ValidationIssue, ValidationOutcome, is_error, is_warning,
}
use hungrx_agent.Validation.SchemaCheck.{SchemaResult, validate_schema}
use hungrx_agent.Validation.RequiredFields.{check_required_fields, check_dish_required_fields}
use hungrx_agent.Validation.NutritionRules.{check_nutrition}
use hungrx_agent.Validation.PriceRules.{check_price}
use hungrx_agent.Validation.ImpossibleValues.{check_impossible_values}
use hungrx_agent.Validation.AllergenRules.{check_allergens}
use hungrx_agent.Validation.Duplicates.{check_duplicate_dishes}
use hungrx_agent.Validation.Corrections.{apply_safe_corrections}

-- The inner loop of `_iter_dishes`, from an index on.
unfoldable pub place_dishes : Place → ℕ → List Dish → List (Dish × Place)
place_dishes prefix i [] = []
place_dishes prefix i (dish ∷ rest) =
    (dish, prefix ++ (key "dishes" ∷ index i ∷ [])) ∷ place_dishes prefix (i + 1) rest

unfoldable mutual
  -- One round of the outer loop; `prefix` is the place of the category itself.
  pub category_dishes : Place → MenuCategory → List (Dish × Place)
  category_dishes prefix (category id name order children dishes) =
      place_dishes prefix 0 dishes ++ iter_dishes prefix 0 children

  -- The outer loop, from an index on.
  pub iter_dishes : Place → ℕ → Categories → List (Dish × Place)
  iter_dishes prefix i nil = []
  iter_dishes prefix i (cons c cs) =
      category_dishes (prefix ++ (key "categories" ∷ index i ∷ [])) c
      ++ iter_dishes prefix (i + 1) cs

module _ (u : Unicode) where
  unfoldable pub dish_issues : Dish × Place → List ValidationIssue
  dish_issues (dish, place) =
      check_dish_required_fields dish place
      ++ (check_nutrition dish (place ++ (key "nutrition" ∷ []))
          ++ (check_allergens u dish place
              ++ (check_price u dish place ++ check_impossible_values dish place)))

  -- `for dish, field_path in dishes`
  unfoldable pub all_dish_issues : List (Dish × Place) → List ValidationIssue
  all_dish_issues [] = []
  all_dish_issues (d ∷ rest) = dish_issues d ++ all_dish_issues rest

  unfoldable pub menu_issues : ℕ → Menu → List ValidationIssue
  menu_issues i menu =
      let dishes = iter_dishes (key "menus" ∷ index i ∷ []) 0 menu.categories in
      check_duplicate_dishes u dishes ++ all_dish_issues dishes

  -- The loop over the menus, from an index on.
  unfoldable pub all_menu_issues : ℕ → List Menu → List ValidationIssue
  all_menu_issues i [] = []
  all_menu_issues i (menu ∷ rest) = menu_issues i menu ++ all_menu_issues (i + 1) rest

  -- Every issue of a restaurant that has been corrected.
  unfoldable pub rule_issues : Restaurant → List ValidationIssue
  rule_issues restaurant = check_required_fields restaurant ++ all_menu_issues 0 restaurant.menus

-- `payload`: a `dict`, with what Pydantic makes of it, or a `Restaurant`.
pub data Payload : Type 0 where
  raw : SchemaResult → Payload
  parsed : Restaurant → Payload

module _ (u : Unicode) where
  -- What `validate` does after the schema check.
  unfoldable pub finish : Option Restaurant → List ValidationIssue → ValidationOutcome
  finish none schema_issues = record {
    errors = keep_if is_error schema_issues;
    warnings = keep_if is_warning schema_issues;
    corrected_fields = [];
    corrected_restaurant = none;
  }
  finish (some restaurant) schema_issues =
      let (corrected, fields) = apply_safe_corrections u restaurant in
      let all_issues = schema_issues ++ rule_issues u corrected in
      record {
        errors = keep_if is_error all_issues;
        warnings = keep_if is_warning all_issues;
        corrected_fields = fields;
        corrected_restaurant = some corrected;
      }

  unfoldable pub validate : Payload → ValidationOutcome
  validate (parsed restaurant) = finish (some restaurant) []
  validate (raw result) =
      let (restaurant, schema_issues) = validate_schema result in finish restaurant schema_issues
