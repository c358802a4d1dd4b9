-- ===== src/Reviewer/Nodes/DeltaValidation.antt =====
-- workflows/reviewer_workflow/nodes/delta_validation.py
use package.text.Mathlib.Text.{◌==◌ as ◌≐◌}
use hungrx_agent.Prelude.{
  Bool, true, false, ◌&&◌, ◌||◌, not, Option, none, some, List, [], ◌∷◌, ◌++◌, map, keep_if,
  is_empty, ◌==◌, any, if◌then◌else◌,
}
use hungrx_agent.Text.{Unicode}
use hungrx_agent.Schema.Menu.{Uuid}
use hungrx_agent.Schema.Restaurant.{Restaurant}
use hungrx_agent.Validation.Result.{
  Place, Segment, key, index, FieldPath, at, dotted, ValidationIssue, ValidationOutcome, is_valid,
}
use hungrx_agent.Review.Rows.{
  ValidationSummary, Database, errors_found, inputs_required, agent_run_trigger,
}
use hungrx_agent.Review.Repositories.{log, mark_failed}
use hungrx_agent.Review.State.{delta_validation}
use hungrx_agent.Review.Nodes.{Pydantic}
use hungrx_agent.Review.Nodes.DeterministicValidation.{to_state_issue, validate_json}
use hungrx_agent.Reviewer.Delta.{is_removed, FieldDelta, JsonDelta}
use hungrx_agent.Reviewer.State.{ReviewerState, no_keys, error_keys}

unfoldable pub same_segment : Segment → Segment → Bool
same_segment (key a) (key b) = a ≐ b
same_segment (index i) (index j) = i == j
same_segment _ _ = false

unfoldable pub same_place : Place → Place → Bool
unfolding same_segment
same_place [] [] = true
same_place (s ∷ p) (t ∷ q) = same_segment s t && same_place p q
same_place _ _ = false

abbrev pub prepend : Place → Option Place → Option Place
prepend front none = none
prepend front (some p) = some (front ++ p)

-- `(?:\.children\[\d+\])*\.dishes\[\d+\]` at the beginning: what it matches
unfoldable pub children_prefix : Place → Option Place
children_prefix (key name ∷ index k ∷ rest) =
    let deeper = children_prefix rest in
    if name ≐ "dishes"
    then some (key name ∷ index k ∷ [])
    else if name ≐ "children"
    then prepend (key name ∷ index k ∷ []) deeper
    else none
children_prefix _ = none

-- `_DISH_PREFIX_RE.match(path)`: its group
unfoldable pub dish_prefix : Place → Option Place
unfolding children_prefix
dish_prefix (key m ∷ index i ∷ key c ∷ index j ∷ rest) =
    if (m ≐ "menus") && (c ≐ "categories")
    then prepend (key m ∷ index i ∷ key c ∷ index j ∷ []) (children_prefix rest)
    else none
dish_prefix _ = none

abbrev pub add_prefix : Option Place → List Place → List Place
add_prefix none prefixes = prefixes
add_prefix (some p) prefixes = p ∷ prefixes

-- The loop of `_touched_dish_prefixes`
unfoldable pub field_prefixes : List FieldDelta → List Place
unfolding dish_prefix
field_prefixes [] = []
field_prefixes (f ∷ fields) =
    let rest = field_prefixes fields in
    if is_removed f.op then rest else add_prefix (dish_prefix f.path) rest

unfoldable pub touched_dish_prefixes : Option JsonDelta → Option (List Place)
unfolding field_prefixes
touched_dish_prefixes none = none
touched_dish_prefixes (some delta) = some (field_prefixes delta.fields)

abbrev pub is_touched : List Place → Option Place → Bool
is_touched prefixes none = true
is_touched prefixes (some p) = any (same_place p) prefixes

-- A schema complaint's path has no brackets, so the pattern does not match it.
unfoldable pub issue_prefix : FieldPath → Option Place
unfolding dish_prefix
issue_prefix (at place) = dish_prefix place
issue_prefix (dotted place) = none

unfoldable pub is_reportable : Option (List Place) → ValidationIssue → Bool
unfolding issue_prefix
is_reportable none issue = true
is_reportable (some prefixes) issue = is_touched prefixes (issue_prefix issue.field_path)

unfoldable pub scoped_summary : Option JsonDelta → ValidationOutcome → ValidationSummary
scoped_summary delta outcome = record {
  is_valid = is_valid outcome;
  issues =
      map to_state_issue (
        keep_if (is_reportable (touched_dish_prefixes delta)) (outcome.errors ++ outcome.warnings));
}

module _ {J : Type 0} where
  unfoldable pub log_delta_outcome : Option Uuid → ValidationOutcome → Database J → Database J
  log_delta_outcome none outcome db = db
  log_delta_outcome (some id) outcome db =
      if not (is_valid outcome) || not (is_empty outcome.corrected_fields)
      then (let logged = log agent_run_trigger id none none none db in
          if is_valid outcome then logged else mark_failed id (errors_found outcome.errors) logged)
      else db

module _ {J : Type 0} (u : Unicode) (py : Pydantic J) where
  -- The corrected restaurant's JSON, or the given one if the schema refused it
  unfoldable pub validated_json : Option Restaurant → J → J
  validated_json none json = json
  validated_json (some restaurant) json = py.model_dump restaurant

  unfoldable pub validate_delta_given :
      Option J → Option JsonDelta → Option Uuid → Database J → ReviewerState J × Database J
  validate_delta_given none delta run_id db = (error_keys delta_validation inputs_required, db)
  validate_delta_given (some json) delta run_id db =
      let outcome = validate_json u py json in
      (
        record no_keys {
          validation_result = some (scoped_summary delta outcome);
          validated_structured_json = some (validated_json outcome.corrected_restaurant json);
        },
        log_delta_outcome run_id outcome db,
      )

  unfoldable pub delta_validation_node : ReviewerState J → Database J → ReviewerState J × Database J
  delta_validation_node state db =
      validate_delta_given state.reextracted_structured_json state.delta state.agent_run_id db
