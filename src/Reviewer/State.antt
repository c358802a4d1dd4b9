-- ===== src/Reviewer/State.antt =====
-- workflows/reviewer_workflow/state.py. A key that is not set is `none`, as is one that is set to None.
-- A node returns an update, which LangGraph merges: a key that is set replaces the old value, and the
-- errors are appended.
use hungrx_agent.Prelude.{Bool, Option, none, List, [], ◌∷◌, ◌++◌}
use hungrx_agent.Text.{Text}
use hungrx_agent.Schema.Menu.{Uuid}
use hungrx_agent.Schema.Restaurant.{Restaurant}
use hungrx_agent.Review.Rows.{
  Source, SourceSnapshot, ValidationSummary, NodeMessage, ProposedChangeStatus,
}
use hungrx_agent.Review.State.{Node, WorkflowError, or_else}
use hungrx_agent.Reviewer.Delta.{JsonDelta}

-- The keys of `reextraction_source_refs`: a dish's id, or `"restaurant_profile"`
pub data RefKey : Type 0 where
  dish_ref : Uuid → RefKey
  profile_ref : RefKey

abbrev pub SourceRefs : Type 0
SourceRefs = List (RefKey × List Text)

pub record ReviewerState (J : Type 0) : Type 0 where
  pub agent_run_id : Option Uuid
  pub restaurant : Option Restaurant
  pub source : Option Source
  pub previous_content_hash : Option Text
  pub current_content_hash : Option Text
  pub hash_changed : Option Bool
  pub polled_snapshot : Option SourceSnapshot
  pub reextraction_snapshots : Option (List SourceSnapshot)
  pub reextracted_structured_json : Option J
  pub reextraction_source_refs : Option SourceRefs
  pub delta : Option JsonDelta
  pub validation_result : Option ValidationSummary
  pub validated_structured_json : Option J
  pub proposed_change_id : Option Uuid
  pub human_approval_status : Option ProposedChangeStatus
  pub published_restaurant_id : Option Uuid
  pub errors : List WorkflowError

module _ {J : Type 0} where
  -- `{}`, as a state in which nothing is set: an update is such a state.
  abbrev pub no_keys : ReviewerState J
  no_keys = record {
    agent_run_id = none;
    restaurant = none;
    source = none;
    previous_content_hash = none;
    current_content_hash = none;
    hash_changed = none;
    polled_snapshot = none;
    reextraction_snapshots = none;
    reextracted_structured_json = none;
    reextraction_source_refs = none;
    delta = none;
    validation_result = none;
    validated_structured_json = none;
    proposed_change_id = none;
    human_approval_status = none;
    published_restaurant_id = none;
    errors = [];
  }

  -- `{"errors": [{"node": …, "message": …}]}`
  abbrev pub error_keys : Node → NodeMessage → ReviewerState J
  error_keys node message = record no_keys {
    errors = record { node = node; message = message } ∷ [];
  }

  abbrev pub merge_keys : ReviewerState J → ReviewerState J → ReviewerState J
  merge_keys state update = record {
    agent_run_id = or_else update.agent_run_id state.agent_run_id;
    restaurant = or_else update.restaurant state.restaurant;
    source = or_else update.source state.source;
    previous_content_hash = or_else update.previous_content_hash state.previous_content_hash;
    current_content_hash = or_else update.current_content_hash state.current_content_hash;
    hash_changed = or_else update.hash_changed state.hash_changed;
    polled_snapshot = or_else update.polled_snapshot state.polled_snapshot;
    reextraction_snapshots = or_else update.reextraction_snapshots state.reextraction_snapshots;
    reextracted_structured_json =
        or_else update.reextracted_structured_json state.reextracted_structured_json;
    reextraction_source_refs =
        or_else update.reextraction_source_refs state.reextraction_source_refs;
    delta = or_else update.delta state.delta;
    validation_result = or_else update.validation_result state.validation_result;
    validated_structured_json =
        or_else update.validated_structured_json state.validated_structured_json;
    proposed_change_id = or_else update.proposed_change_id state.proposed_change_id;
    human_approval_status = or_else update.human_approval_status state.human_approval_status;
    published_restaurant_id = or_else update.published_restaurant_id state.published_restaurant_id;
    errors = state.errors ++ update.errors;
  }
