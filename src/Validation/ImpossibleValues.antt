-- ===== src/Validation/ImpossibleValues.antt =====
-- core/validation/impossible_value_detection.py
use hungrx_agent.Prelude.{Option, some, String, List, [], ◌∷◌, ◌++◌, if◌then◌else◌}
use hungrx_agent.Decimal.{Decimal, less}
use hungrx_agent.Schema.Menu.{Dish}
use hungrx_agent.Validation.Result.{
  Place, at, key, IssueCode, ValidationIssue, error, cannot_exceed, saturated_fat_exceeds_total_fat,
  trans_fat_exceeds_total_fat, sugar_exceeds_total_carbohydrates, fiber_exceeds_total_carbohydrates,
}

-- The check that the four rules share: a part that is greater than the whole, both given.
part_exceeds :
    IssueCode → String → Option Decimal → String → Option Decimal → Place → List ValidationIssue
part_exceeds code part (some p) whole (some w) prefix =
    if less w p
    then record {
      field_path = at (prefix ++ (key "macros" ∷ key part ∷ []));
      code = code;
      message = cannot_exceed part p whole w;
      severity = error;
    }
      ∷ []
    else []
part_exceeds code part _ whole _ prefix = []

unfoldable pub check_impossible_values : Dish → Place → List ValidationIssue
unfolding part_exceeds
check_impossible_values dish prefix =
    part_exceeds saturated_fat_exceeds_total_fat "saturated_fat_g" macros.saturated_fat_g "fat_g"
      macros.fat_g prefix
    ++ (part_exceeds trans_fat_exceeds_total_fat "trans_fat_g" macros.trans_fat_g "fat_g"
          macros.fat_g prefix
        ++ (part_exceeds sugar_exceeds_total_carbohydrates "sugar_g" macros.sugar_g
              "carbohydrates_g" macros.carbohydrates_g prefix
            ++ part_exceeds fiber_exceeds_total_carbohydrates "fiber_g" macros.fiber_g
                "carbohydrates_g" macros.carbohydrates_g prefix))
  where
    open dish.nutrition use {macros}
