-- ===== src/Validation/Result.antt =====
-- core/validation/result.py: what the rules report.
--
-- A field path is kept by its segments: `menus[0].name` is `key "menus"`, `index 0`, `key "name"`.
-- A message is kept as its template with the values that are put into it.
use hungrx_agent.Prelude.{ℕ, Bool, true, false, not, String, Option, List, is_empty}
use hungrx_agent.Text.{Text}
use hungrx_agent.Decimal.{Decimal}
use hungrx_agent.Schema.Restaurant.{Restaurant}

pub data Segment : Type 0 where
  key : String → Segment
  index : ℕ → Segment

abbrev pub Place : Type 0
Place = List Segment

-- `at` is written with brackets, `menus[0].name`. Pydantic's locations are joined by dots,
-- `menus.0.name`, and the empty one is `<root>`.
pub data FieldPath : Type 0 where
  at : Place → FieldPath
  dotted : Place → FieldPath

pub data ValidationSeverity : Type 0 where
  error warning : ValidationSeverity

pub data IssueCode : Type 0 where
  schema_violation : IssueCode
  missing_locations missing_menus empty_menus missing_price missing_nutrition : IssueCode
  missing_serving_size atwater_mismatch implausible_calories implausible_sodium : IssueCode
  implausible_price zero_price malformed_currency_code lowercase_currency_code : IssueCode
  saturated_fat_exceeds_total_fat trans_fat_exceeds_total_fat : IssueCode
  sugar_exceeds_total_carbohydrates fiber_exceeds_total_carbohydrates : IssueCode
  possible_undeclared_allergen duplicate_dish_name : IssueCode

pub data Message : Type 0 where
  schema_message : Text → Message
  no_locations no_menus no_dishes : Message
  no_price no_nutrition_data : Text → Message
  no_serving_size : Message
  calories_diverge : Decimal → Decimal → Decimal → Message
  calories_exceed sodium_exceeds : Decimal → Message
  price_exceeds : Decimal → Text → Message
  price_is_zero : Message
  currency_malformed : Text → Message
  currency_should_be : Text → Text → Message
  cannot_exceed : String → Decimal → String → Decimal → Message
  allergen_suggested : Text → Message
  name_appears : Text → ℕ → List Place → Message

pub record ValidationIssue : Type 0 where
  pub field_path : FieldPath
  pub code : IssueCode
  pub message : Message
  pub severity : ValidationSeverity

-- An old or new value: a text, or the list of ingredient names that the source prints by `str`.
pub data CorrectedValue : Type 0 where
  plain : Text → CorrectedValue
  names : List Text → CorrectedValue

pub record CorrectedField : Type 0 where
  pub field_path : Place
  pub old_value : Option CorrectedValue
  pub new_value : Option CorrectedValue
  pub reason : String

pub record ValidationOutcome : Type 0 where
  pub errors : List ValidationIssue
  pub warnings : List ValidationIssue
  pub corrected_fields : List CorrectedField
  pub corrected_restaurant : Option Restaurant

unfoldable pub is_valid : ValidationOutcome → Bool
is_valid o = is_empty o.errors

abbrev pub severity_is_error : ValidationSeverity → Bool
severity_is_error error = true
severity_is_error warning = false

-- `issue.severity == ValidationSeverity.ERROR`
abbrev pub is_error : ValidationIssue → Bool
is_error i = severity_is_error i.severity

-- `issue.severity == ValidationSeverity.WARNING`
abbrev pub is_warning : ValidationIssue → Bool
is_warning i = not (severity_is_error i.severity)
