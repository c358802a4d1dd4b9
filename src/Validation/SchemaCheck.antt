-- ===== src/Validation/SchemaCheck.antt =====
-- core/validation/schema_validation.py. `Restaurant.model_validate` is Pydantic's: a parameter.
use hungrx_agent.Prelude.{Option, none, some, List, [], map}
use hungrx_agent.Text.{Text}
use hungrx_agent.Schema.Restaurant.{Restaurant}
use hungrx_agent.Validation.Result.{
  Place, dotted, ValidationIssue, schema_violation, schema_message, error,
}

-- An entry of `ValidationError.errors()`: where, and what is wrong.
pub record SchemaError : Type 0 where
  pub loc : Place
  pub msg : Text

-- What `Restaurant.model_validate` returns or raises.
pub data SchemaResult : Type 0 where
  accepted : Restaurant → SchemaResult
  refused : List SchemaError → SchemaResult

unfoldable pub schema_issue : SchemaError → ValidationIssue
schema_issue e = record {
  field_path = dotted e.loc;
  code = schema_violation;
  message = schema_message e.msg;
  severity = error;
}

-- The parsed restaurant, or the issues.
unfoldable pub validate_schema : SchemaResult → Option Restaurant × List ValidationIssue
unfolding schema_issue
validate_schema (accepted restaurant) = (some restaurant, [])
validate_schema (refused errors) = (none, map schema_issue errors)
