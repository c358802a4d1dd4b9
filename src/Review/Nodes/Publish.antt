-- ===== src/Review/Nodes/Publish.antt =====
-- workflows/collector_workflow/nodes/publish.py
use hungrx_agent.Prelude.{Bool, false, Option, none, some, ◌==◌, if◌then◌else◌}
use hungrx_agent.Text.{Unicode}
use hungrx_agent.Schema.Menu.{Uuid}
use hungrx_agent.Schema.Restaurant.{Restaurant}
use hungrx_agent.Validation.Result.{is_valid}
use hungrx_agent.Validation.SchemaCheck.{SchemaResult, accepted, refused}
use hungrx_agent.Review.Rows.{
  ProposedChangeStatus, published, is_approved, ProposedChange, Database, NodeMessage,
  inputs_required, approval_missing, revalidation_failed, already_published,
  proposed_change_publish, Result, ok, raised, validation_error, ◌>>=◌,
}
use hungrx_agent.Review.Repositories.{get_published_for_entity, update_status, log}
use hungrx_agent.Review.Production.{persist_tree}
use hungrx_agent.Review.State.{CollectorState, StateUpdate, publish, no_update, error_update}
use hungrx_agent.Review.Nodes.{Pydantic, fail_run, succeed_run}
use hungrx_agent.Review.Nodes.DeterministicValidation.{validate_json}

-- `state.get("human_approval_status") == ProposedChangeStatus.APPROVED`
abbrev pub has_approval : Option ProposedChangeStatus → Bool
has_approval none = false
has_approval (some status) = is_approved status

module _ {J : Type 0} where
  -- `_fail`
  unfoldable pub refuse : Option Uuid → NodeMessage → Database J → StateUpdate J × Database J
  refuse run_id message db = (error_update publish message, fail_run run_id message db)

  -- The id of a published change of the entity that is not this change.
  unfoldable pub other_change : Uuid → Option (ProposedChange J) → Option Uuid
  other_change change_id none = none
  other_change change_id (some existing) =
      if existing.id == change_id then none else some existing.id

  unfoldable pub write_tree :
      Uuid → Option Uuid → Restaurant → Database J → Result (StateUpdate J × Database J)
  write_tree change_id run_id r db = persist_tree r db >>= λ written. ok (
    record no_update { published_restaurant_id = some r.id },
    succeed_run run_id (
        log proposed_change_publish change_id none none none
          (update_status change_id published written)),
  )

  -- Refuses if another change is published for the entity.
  unfoldable pub write_unless :
      Option Uuid
      → Uuid
      → Option Uuid
      → Restaurant
      → Database J
      → Result (StateUpdate J × Database J)
  write_unless (some existing) change_id run_id r db =
      ok (refuse run_id (already_published r.id existing) db)
  write_unless none change_id run_id r db = write_tree change_id run_id r db

  unfoldable pub publish_restaurant :
      Uuid → Option Uuid → Restaurant → Database J → Result (StateUpdate J × Database J)
  publish_restaurant change_id run_id r db =
      write_unless (other_change change_id (get_published_for_entity r.id db)) change_id run_id r db

  -- `Restaurant.model_validate(structured_json)`
  unfoldable pub publish_parsed :
      Uuid → Option Uuid → SchemaResult → Database J → Result (StateUpdate J × Database J)
  publish_parsed change_id run_id (accepted r) db = publish_restaurant change_id run_id r db
  publish_parsed change_id run_id (refused complaints) db = raised validation_error

module _ {J : Type 0} (u : Unicode) (py : Pydantic J) where
  unfoldable pub publish_json :
      J → Uuid → Option Uuid → Database J → Result (StateUpdate J × Database J)
  publish_json json change_id run_id db =
      if is_valid (validate_json u py json)
      then publish_parsed change_id run_id (py.model_validate json) db
      else ok (refuse run_id (revalidation_failed (validate_json u py json).errors) db)

  -- The JSON and the change of the state, if both are set.
  unfoldable pub publish_approved :
      Option J → Option Uuid → Option Uuid → Database J → Result (StateUpdate J × Database J)
  publish_approved (some json) (some change_id) run_id db = publish_json json change_id run_id db
  publish_approved _ _ run_id db = ok (refuse run_id inputs_required db)

  unfoldable pub publish_node : CollectorState J → Database J → Result (StateUpdate J × Database J)
  publish_node state db =
      if has_approval state.human_approval_status
      then publish_approved state.structured_json state.proposed_change_id state.agent_run_id db
      else ok (refuse state.agent_run_id approval_missing db)
