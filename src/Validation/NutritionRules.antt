-- ===== src/Validation/NutritionRules.antt =====
-- core/validation/nutrition_rules.py
pub mod Atwater
use hungrx_agent.Prelude.{
  Bool, true, false, ◌&&◌, Option, none, some, List, [], ◌∷◌, ◌++◌, is_empty, if◌then◌else◌,
}
use hungrx_agent.Text.{Text}
use hungrx_agent.Decimal.{Decimal, decimal, less, add, mul, distance, greatest}
use hungrx_agent.Schema.Nutrition.{Macros}
use hungrx_agent.Schema.Menu.{Dish}
use hungrx_agent.Validation.Result.{
  Place, at, key, ValidationIssue, error, warning, missing_serving_size, atwater_mismatch,
  implausible_calories, implausible_sodium, no_serving_size, calories_diverge, calories_exceed,
  sodium_exceeds,
}
use hungrx_agent.Validation.RequiredFields.{has_any_nutrition}

abbrev pub kcal_per_g_protein : Decimal
kcal_per_g_protein = decimal 4

abbrev pub kcal_per_g_carb : Decimal
kcal_per_g_carb = decimal 4

abbrev pub kcal_per_g_fat : Decimal
kcal_per_g_fat = decimal 9

abbrev pub atwater_relative_tolerance : Decimal
atwater_relative_tolerance = record { coefficient = 35; exponent = 2 }

abbrev pub atwater_min_absolute_tolerance_kcal : Decimal
atwater_min_absolute_tolerance_kcal = decimal 50

abbrev pub max_plausible_calories : Decimal
max_plausible_calories = decimal 5000

abbrev pub max_plausible_sodium_mg : Decimal
max_plausible_sodium_mg = decimal 10000

unfoldable pub atwater_expected_calories : Decimal → Decimal → Decimal → Decimal
atwater_expected_calories protein_g carbohydrates_g fat_g =
    add (add (mul protein_g kcal_per_g_protein) (mul carbohydrates_g kcal_per_g_carb))
      (mul fat_g kcal_per_g_fat)

-- `not serving_size`: it is `None` or empty.
unfoldable pub lacks_serving_size : Option Text → Bool
lacks_serving_size none = true
lacks_serving_size (some s) = is_empty s

unfoldable pub check_serving_size_present : Dish → Place → List ValidationIssue
check_serving_size_present dish prefix =
    if has_any_nutrition dish.nutrition.macros && lacks_serving_size dish.nutrition.serving_size
    then record {
      field_path = at (prefix ++ (key "serving_size" ∷ []));
      code = missing_serving_size;
      message = no_serving_size;
      severity = warning;
    }
      ∷ []
    else []

unfoldable pub atwater_tolerance : Decimal → Decimal
atwater_tolerance expected =
    greatest atwater_min_absolute_tolerance_kcal (mul expected atwater_relative_tolerance)

-- The comparison, once all four values are known.
unfoldable pub compare_with_atwater : Decimal → Decimal → Place → List ValidationIssue
unfolding atwater_tolerance
compare_with_atwater calories expected prefix =
    if less (atwater_tolerance expected) (distance calories expected)
    then record {
      field_path = at (prefix ++ (key "macros" ∷ key "calories" ∷ []));
      code = atwater_mismatch;
      message = calories_diverge calories expected (atwater_tolerance expected);
      severity = warning;
    }
      ∷ []
    else []

-- `None` for any of the four ends the check.
atwater_check :
    Option Decimal → Option Decimal → Option Decimal → Option Decimal → Place → List ValidationIssue
atwater_check (some calories) (some protein) (some carbohydrates) (some fat) prefix =
    compare_with_atwater calories (atwater_expected_calories protein carbohydrates fat) prefix
atwater_check _ _ _ _ prefix = []

unfoldable pub check_atwater_consistency : Macros → Place → List ValidationIssue
unfolding atwater_check
check_atwater_consistency macros =
    atwater_check macros.calories macros.protein_g macros.carbohydrates_g macros.fat_g

-- `value is not None and value > bound`
unfoldable pub is_above : Option Decimal → Decimal → Bool
is_above none bound = false
is_above (some value) bound = less bound value

calories_issue : Option Decimal → Place → List ValidationIssue
calories_issue none prefix = []
calories_issue (some calories) prefix =
    if less max_plausible_calories calories
    then record {
      field_path = at (prefix ++ (key "macros" ∷ key "calories" ∷ []));
      code = implausible_calories;
      message = calories_exceed calories;
      severity = error;
    }
      ∷ []
    else []

sodium_issue : Option Decimal → Place → List ValidationIssue
sodium_issue none prefix = []
sodium_issue (some sodium) prefix =
    if less max_plausible_sodium_mg sodium
    then record {
      field_path = at (prefix ++ (key "macros" ∷ key "sodium_mg" ∷ []));
      code = implausible_sodium;
      message = sodium_exceeds sodium;
      severity = error;
    }
      ∷ []
    else []

unfoldable pub check_plausible_bounds : Dish → Place → List ValidationIssue
unfolding calories_issue sodium_issue
check_plausible_bounds dish prefix =
    calories_issue dish.nutrition.macros.calories prefix
    ++ sodium_issue dish.nutrition.macros.sodium_mg prefix

unfoldable pub check_nutrition : Dish → Place → List ValidationIssue
unfolding check_serving_size_present check_atwater_consistency check_plausible_bounds
check_nutrition dish prefix =
    check_serving_size_present dish prefix
    ++ (check_atwater_consistency dish.nutrition.macros prefix
        ++ check_plausible_bounds dish prefix)
