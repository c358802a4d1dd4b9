-- ===== src/Review/Nodes/HumanReview.antt =====
-- workflows/collector_workflow/nodes/human_review.py. `interrupt` pauses the run on the first entry and
-- returns the decision when the node is replayed.
use hungrx_agent.Prelude.{Option, none, some}
use hungrx_agent.Text.{Text}
use hungrx_agent.Schema.Menu.{Uuid}
use hungrx_agent.Schema.Restaurant.{Restaurant}
use hungrx_agent.Review.Rows.{
  restaurant, approved, rejected, Source, ProposedChange, Database, inputs_required,
  decision_unusable, action_unrecognized, proposed_change_create, Result, ok, ◌>>=◌,
}
use hungrx_agent.Review.Repositories.{get_by_thread_id, create_change, log}
use hungrx_agent.Review.State.{CollectorState, StateUpdate, human_review, no_update, error_update}

pub data Action : Type 0 where
  approve edit_then_approve reject : Action
  unrecognized : Text → Action

pub record Decision (J : Type 0) : Type 0 where
  pub action : Action
  pub edited_structured_json : Option J

-- Why the node runs: for the first time, or with what the run was resumed with (`none`: no dict, or an
-- empty one).
pub data Entry (J : Type 0) : Type 0 where
  first_entry : Entry J
  resumed : Option (Decision J) → Entry J

pub data NodeResult (J : Type 0) : Type 0 where
  paused : Database J → NodeResult J
  returned : StateUpdate J → Database J → NodeResult J

unfoldable pub source_id : Option Source → Option Uuid
source_id none = none
source_id (some source) = some source.id

module _ {J : Type 0} where
  unfoldable pub decision_update : Action → Option J → Uuid → StateUpdate J
  decision_update approve edited id = record no_update {
    proposed_change_id = some id;
    human_approval_status = some approved;
  }
  decision_update edit_then_approve edited id = record no_update {
    proposed_change_id = some id;
    human_approval_status = some approved;
    structured_json = edited;
  }
  decision_update reject edited id = record no_update {
    proposed_change_id = some id;
    human_approval_status = some rejected;
  }
  decision_update (unrecognized action) edited id =
      error_update human_review (action_unrecognized action)

  unfoldable pub apply_decision : Option (Decision J) → Uuid → StateUpdate J
  apply_decision none id = error_update human_review decision_unusable
  apply_decision (some decision) id =
      decision_update decision.action decision.edited_structured_json id

  -- The row of the thread, created if there is none.
  unfoldable pub ensure_change :
      Option (ProposedChange J)
      → J
      → Restaurant
      → Uuid
      → CollectorState J
      → Database J
      → ProposedChange J × Database J
  ensure_change (some row) json r run_id state db = (row, db)
  ensure_change none json r run_id state db =
      let (row, created) =
        create_change restaurant r.id json state.validation_result (some run_id)
          (source_id state.source) (some run_id) db in
      (row, log proposed_change_create row.id none none none created)

  unfoldable pub find_or_create :
      J → Restaurant → Uuid → CollectorState J → Database J → Result (ProposedChange J × Database J)
  find_or_create json r run_id state db =
      get_by_thread_id run_id db >>= λ found. ok (ensure_change found json r run_id state db)

  unfoldable pub answer : Entry J → ProposedChange J × Database J → NodeResult J
  answer first_entry (row, db) = paused db
  answer (resumed decision) (row, db) = returned (apply_decision decision row.id) db

  -- The three values that the node needs, if all are set.
  unfoldable pub review_given :
      Option J
      → Option Restaurant
      → Option Uuid
      → Entry J
      → CollectorState J
      → Database J
      → Result (NodeResult J)
  review_given (some json) (some r) (some run_id) entry state db =
      find_or_create json r run_id state db >>= λ found. ok (answer entry found)
  review_given _ _ _ entry state db = ok (returned (error_update human_review inputs_required) db)

  unfoldable pub human_review_node : Entry J → CollectorState J → Database J → Result (NodeResult J)
  human_review_node entry state db =
      review_given state.structured_json state.restaurant state.agent_run_id entry state db
