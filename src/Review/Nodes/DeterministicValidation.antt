-- ===== src/Review/Nodes/DeterministicValidation.antt =====
-- workflows/collector_workflow/nodes/deterministic_validation.py
use hungrx_agent.Prelude.{
  ◌||◌, not, Option, none, some, List, [], ◌∷◌, ◌++◌, map, keep_if, is_empty, if◌then◌else◌,
}
use hungrx_agent.Text.{Unicode}
use hungrx_agent.Schema.Menu.{Uuid}
use hungrx_agent.Schema.Restaurant.{Restaurant}
use hungrx_agent.Validation.Result.{
  ValidationIssue, ValidationOutcome, CorrectedField, is_valid, is_error,
}
use hungrx_agent.Validation.Engine.{raw, validate}
use hungrx_agent.Review.Rows.{
  StateIssue, ValidationSummary, Database, errors_found, inputs_required, agent_run_trigger,
}
use hungrx_agent.Review.Repositories.{log}
use hungrx_agent.Review.State.{
  CollectorState, StateUpdate, WorkflowError, deterministic_validation, no_update, error_update,
}
use hungrx_agent.Review.Nodes.{Pydantic, fail_run}

unfoldable pub to_state_issue : ValidationIssue → StateIssue
to_state_issue issue = record {
  field_path = issue.field_path;
  message = issue.message;
  severity = issue.severity;
}

unfoldable pub summary : ValidationOutcome → ValidationSummary
summary outcome = record {
  is_valid = is_valid outcome;
  issues = map to_state_issue (outcome.errors ++ outcome.warnings);
}

unfoldable pub found_errors : ValidationOutcome → List WorkflowError
found_errors outcome =
    if is_valid outcome
    then []
    else record { node = deterministic_validation; message = errors_found outcome.errors } ∷ []

module _ {J : Type 0} where
  -- An audit row, if the run has an id and there are errors or corrections.
  unfoldable pub log_outcome : Option Uuid → ValidationOutcome → Database J → Database J
  log_outcome none outcome db = db
  log_outcome (some id) outcome db =
      if not (is_empty (keep_if is_error outcome.errors)) || not (is_empty outcome.corrected_fields)
      then log agent_run_trigger id none none none db
      else db

  unfoldable pub record_outcome : Option Uuid → ValidationOutcome → Database J → Database J
  record_outcome run_id outcome db =
      let logged = log_outcome run_id outcome db in
      if is_valid outcome then logged else fail_run run_id (errors_found outcome.errors) logged

module _ {J : Type 0} (u : Unicode) (py : Pydantic J) where
  -- The corrected restaurant's JSON, if a correction was made.
  unfoldable pub corrected_json : List CorrectedField → Option Restaurant → Option J
  corrected_json (field ∷ fields) (some restaurant) = some (py.model_dump restaurant)
  corrected_json _ _ = none

  unfoldable pub validation_update : ValidationOutcome → StateUpdate J
  validation_update outcome = record no_update {
    structured_json = corrected_json outcome.corrected_fields outcome.corrected_restaurant;
    validation_result = some (summary outcome);
    errors = found_errors outcome;
  }

  unfoldable pub validate_json : J → ValidationOutcome
  validate_json json = validate u (raw (py.model_validate json))

  unfoldable pub validate_given : Option J → Option Uuid → Database J → StateUpdate J × Database J
  validate_given none run_id db = (error_update deterministic_validation inputs_required, db)
  validate_given (some json) run_id db =
      (validation_update (validate_json json), record_outcome run_id (validate_json json) db)

  unfoldable pub deterministic_validation_node :
      CollectorState J → Database J → StateUpdate J × Database J
  deterministic_validation_node state db =
      validate_given state.structured_json state.agent_run_id db
