-- ===== src/Review/State.antt =====
-- workflows/collector_workflow/state.py: a key that is not set is `none`; `proposed_changes`, which no
-- node sets, is left out. A node returns an update, which LangGraph merges into the state: a key
-- that is set replaces the old value, and the errors are appended (`operator.add`).
use hungrx_agent.Prelude.{ℕ, Option, none, some, List, [], ◌∷◌, ◌++◌}
use hungrx_agent.Schema.Menu.{Uuid}
use hungrx_agent.Schema.Restaurant.{Restaurant}
use hungrx_agent.Text.{Text}
use hungrx_agent.Decimal.{Decimal}
use hungrx_agent.Review.Rows.{
  Source, SourceSnapshot, ValidationSummary, NodeMessage, ProposedChangeStatus,
}
use hungrx_agent.Extraction.{ExtractionOutput}

-- The nodes of both graphs; each has a node `publish`.
pub data Node : Type 0 where
  source_authority extraction multimodal_translation : Node
  deterministic_validation human_review publish : Node
  temporal_hash_polling targeted_reextraction json_delta_generation : Node
  delta_validation human_final_sync : Node

pub record WorkflowError : Type 0 where
  pub node : Node
  pub message : NodeMessage

-- The payload is kept as the model's output; the confidence is a sum and the number of its terms.
pub record ExtractionResult : Type 0 where
  pub raw_payload : ExtractionOutput
  pub model_name : Text
  pub confidence : Option (Decimal × ℕ)

pub record CollectorState (J : Type 0) : Type 0 where
  pub agent_run_id : Option Uuid
  pub restaurant : Option Restaurant
  pub source : Option Source
  pub source_url : Option Text
  pub nutrition_url : Option Text
  pub source_snapshots : Option (List SourceSnapshot)
  pub extraction_result : Option ExtractionResult
  pub structured_json : Option J
  pub validation_result : Option ValidationSummary
  pub proposed_change_id : Option Uuid
  pub human_approval_status : Option ProposedChangeStatus
  pub published_restaurant_id : Option Uuid
  pub errors : List WorkflowError

-- What the nodes may return.
pub record StateUpdate (J : Type 0) : Type 0 where
  pub agent_run_id : Option Uuid
  pub source : Option Source
  pub source_url : Option Text
  pub source_snapshots : Option (List SourceSnapshot)
  pub extraction_result : Option ExtractionResult
  pub structured_json : Option J
  pub validation_result : Option ValidationSummary
  pub proposed_change_id : Option Uuid
  pub human_approval_status : Option ProposedChangeStatus
  pub published_restaurant_id : Option Uuid
  pub errors : List WorkflowError

abbrev pub or_else {ℓ} : {A : Type ℓ} → Option A → Option A → Option A
or_else none old = old
or_else (some new) old = some new

module _ {J : Type 0} where
  -- `{}`
  abbrev pub no_update : StateUpdate J
  no_update = record {
    agent_run_id = none;
    source = none;
    source_url = none;
    source_snapshots = none;
    extraction_result = none;
    structured_json = none;
    validation_result = none;
    proposed_change_id = none;
    human_approval_status = none;
    published_restaurant_id = none;
    errors = [];
  }

  -- `{"errors": [{"node": …, "message": …}]}`
  abbrev pub error_update : Node → NodeMessage → StateUpdate J
  error_update node message = record no_update {
    errors = record { node = node; message = message } ∷ [];
  }

  abbrev pub merge : CollectorState J → StateUpdate J → CollectorState J
  merge state update = record state {
    agent_run_id = or_else update.agent_run_id state.agent_run_id;
    source = or_else update.source state.source;
    source_url = or_else update.source_url state.source_url;
    source_snapshots = or_else update.source_snapshots state.source_snapshots;
    extraction_result = or_else update.extraction_result state.extraction_result;
    structured_json = or_else update.structured_json state.structured_json;
    validation_result = or_else update.validation_result state.validation_result;
    proposed_change_id = or_else update.proposed_change_id state.proposed_change_id;
    human_approval_status = or_else update.human_approval_status state.human_approval_status;
    published_restaurant_id = or_else update.published_restaurant_id state.published_restaurant_id;
    errors = state.errors ++ update.errors;
  }
