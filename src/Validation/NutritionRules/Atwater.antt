-- ===== src/Validation/NutritionRules/Atwater.antt =====
-- core/validation/nutrition_rules.py: when calories are held against the macros, and when they diverge.
use hungrx_agent.Prelude.{◌≡◌, ◌≢◌, ◌↔◌, refl, true, Option, some, [], arith}
use hungrx_agent.Decimal.{Decimal, decimal, less, mul, distance}
use hungrx_agent.Decimal.Order.{less-greatest}
use hungrx_agent.Schema.Nutrition.{Macros}
use hungrx_agent.Validation.Result.{Place}
use hungrx_agent.Validation.NutritionRules.{
  atwater_check, check_atwater_consistency, compare_with_atwater, atwater_expected_calories,
  atwater_relative_tolerance,
}

-- The four values are given, and the calories lie further from the estimate than 50 kcal and
-- than 35 % of the estimate.
abbrev pub Diverges : Option Decimal → Option Decimal → Option Decimal → Option Decimal → Type 0
Diverges (some calories) (some protein) (some carbohydrates) (some fat) =
    let expected = atwater_expected_calories protein carbohydrates fat in
    (less (decimal 50) (distance calories expected) ≡ true)
    × (less (mul expected atwater_relative_tolerance) (distance calories expected) ≡ true)
Diverges _ _ _ _ = ⊥

compare_with_atwater-ne-nil :
    (calories expected : Decimal) (p : Place)
    → (compare_with_atwater calories expected p ≢ []) ↔ (
        (less (decimal 50) (distance calories expected) ≡ true)
        × (less (mul expected atwater_relative_tolerance) (distance calories expected) ≡ true))
unfolding compare_with_atwater
compare_with_atwater-ne-nil calories expected p = ground (
  arith,
  less-greatest (decimal 50) (mul expected atwater_relative_tolerance) (distance calories expected),
)

atwater_check-ne-nil :
    (calories protein carbohydrates fat : Option Decimal) (p : Place)
    → (atwater_check calories protein carbohydrates fat p ≢ [])
      ↔ Diverges calories protein carbohydrates fat
unfolding atwater_check
atwater_check-ne-nil (some c) (some q) (some h) (some f) p =
    compare_with_atwater-ne-nil c (atwater_expected_calories q h f) p
atwater_check-ne-nil _ _ _ _ p = (λ n. absurd (n refl), λ d. absurd d)

-- The Atwater check reports an issue exactly when calories, protein, carbohydrates and fat are all given
-- and the calories lie more than 50 kcal and more than 35 % of the estimate 4p + 4c + 9f away from it.
pub check_atwater_warns :
    (m : Macros) (p : Place)
    → (check_atwater_consistency m p ≢ [])
      ↔ Diverges m.calories m.protein_g m.carbohydrates_g m.fat_g
unfolding check_atwater_consistency
check_atwater_warns m p = atwater_check-ne-nil m.calories m.protein_g m.carbohydrates_g m.fat_g p
