-- ===== src/Reviewer/Nodes/Publish.antt =====
-- workflows/reviewer_workflow/nodes/publish.py
use hungrx_agent.Prelude.{Bool, Option, none, some, map, if◌then◌else◌}
use hungrx_agent.Text.{Unicode}
use hungrx_agent.Json.{Json}
use hungrx_agent.Schema.Menu.{Uuid}
use hungrx_agent.Schema.Restaurant.{Restaurant}
use hungrx_agent.Validation.Result.{is_valid}
use hungrx_agent.Validation.SchemaCheck.{SchemaResult, accepted, refused}
use hungrx_agent.Review.Rows.{
  published, Database, NodeMessage, inputs_required, approval_missing, revalidation_failed,
  not_in_production, proposed_change_publish, Result, ok, raised, validation_error, ◌>>=◌,
}
use hungrx_agent.Review.Repositories.{update_status, log}
use hungrx_agent.Review.Production.{has_id}
use hungrx_agent.Review.State.{publish}
use hungrx_agent.Review.Nodes.{Pydantic, fail_run, succeed_run}
use hungrx_agent.Review.Nodes.DeterministicValidation.{validate_json}
use hungrx_agent.Review.Nodes.Publish.{has_approval}
use hungrx_agent.Reviewer.Delta.{JsonDelta}
use hungrx_agent.Reviewer.Patch.{apply_patch}
use hungrx_agent.Reviewer.State.{ReviewerState, no_keys, error_keys}

module _ {J : Type 0} where
  -- `_fail`
  unfoldable pub refuse_update :
      Option Uuid → NodeMessage → Database J → ReviewerState J × Database J
  refuse_update run_id message db = (error_keys publish message, fail_run run_id message db)

  -- `session.get(RestaurantRow, id) is not None`
  unfoldable pub is_in_production : Uuid → Database J → Bool
  is_in_production id db = has_id id (map (λ (r : Restaurant). r.id) db.restaurants)

module _ {J : Type 0} (read_uuid : Json → Option Uuid) where
  unfoldable pub patch_existing :
      Uuid
      → Option Uuid
      → JsonDelta
      → Restaurant
      → Database J
      → Result (ReviewerState J × Database J)
  patch_existing change_id run_id delta r db = apply_patch read_uuid r.id r delta db >>= λ patched.
      ok (
        record no_keys { published_restaurant_id = some r.id },
        succeed_run run_id (
            log proposed_change_publish change_id none none none
              (update_status change_id published patched)),
      )

  unfoldable pub publish_existing :
      Uuid
      → Option Uuid
      → JsonDelta
      → Restaurant
      → Database J
      → Result (ReviewerState J × Database J)
  publish_existing change_id run_id delta r db =
      if is_in_production r.id db
      then patch_existing change_id run_id delta r db
      else ok (refuse_update run_id (not_in_production r.id) db)

  -- `Restaurant.model_validate(validated_json)`
  unfoldable pub publish_model :
      Uuid
      → Option Uuid
      → JsonDelta
      → SchemaResult
      → Database J
      → Result (ReviewerState J × Database J)
  publish_model change_id run_id delta (accepted r) db =
      publish_existing change_id run_id delta r db
  publish_model change_id run_id delta (refused complaints) db = raised validation_error

module _ {J : Type 0} (u : Unicode) (py : Pydantic J) (read_uuid : Json → Option Uuid) where
  unfoldable pub publish_delta :
      J → Uuid → JsonDelta → Option Uuid → Database J → Result (ReviewerState J × Database J)
  publish_delta json change_id delta run_id db =
      if is_valid (validate_json u py json)
      then publish_model read_uuid change_id run_id delta (py.model_validate json) db
      else ok (refuse_update run_id (revalidation_failed (validate_json u py json).errors) db)

  unfoldable pub publish_given :
      Option J
      → Option Uuid
      → Option JsonDelta
      → Option Uuid
      → Database J
      → Result (ReviewerState J × Database J)
  publish_given (some json) (some change_id) (some delta) run_id db =
      publish_delta json change_id delta run_id db
  publish_given _ _ _ run_id db = ok (refuse_update run_id inputs_required db)

  unfoldable pub publish_update_node :
      ReviewerState J → Database J → Result (ReviewerState J × Database J)
  publish_update_node state db =
      if has_approval state.human_approval_status
      then publish_given state.validated_structured_json state.proposed_change_id state.delta
          state.agent_run_id db
      else ok (refuse_update state.agent_run_id approval_missing db)
