-- ===== src/Reviewer/Nodes/FinalSync.antt =====
-- workflows/reviewer_workflow/nodes/human_final_sync.py. `interrupt` pauses the run on the first entry and
-- returns the decision when the node is replayed.
use hungrx_agent.Prelude.{Option, none, some}
use hungrx_agent.Schema.Menu.{Uuid}
use hungrx_agent.Schema.Restaurant.{Restaurant}
use hungrx_agent.Review.Rows.{
  restaurant, approved, rejected, ProposedChange, Database, inputs_required, decision_unusable,
  action_unrecognized, proposed_change_create, Result, ok, ◌>>=◌,
}
use hungrx_agent.Review.Repositories.{get_by_thread_id, create_change, log}
use hungrx_agent.Review.State.{human_final_sync}
use hungrx_agent.Review.Nodes.HumanReview.{
  Action, approve, edit_then_approve, reject, unrecognized, Decision, Entry, first_entry, resumed,
  source_id,
}
use hungrx_agent.Reviewer.State.{ReviewerState, no_keys, error_keys}

pub data SyncResult (J : Type 0) : Type 0 where
  sync_paused : Database J → SyncResult J
  sync_returned : ReviewerState J → Database J → SyncResult J

module _ {J : Type 0} where
  unfoldable pub decision_keys : Action → Option J → Uuid → ReviewerState J
  decision_keys approve edited id = record no_keys {
    proposed_change_id = some id;
    human_approval_status = some approved;
  }
  decision_keys edit_then_approve edited id = record no_keys {
    proposed_change_id = some id;
    human_approval_status = some approved;
    validated_structured_json = edited;
  }
  decision_keys reject edited id = record no_keys {
    proposed_change_id = some id;
    human_approval_status = some rejected;
  }
  decision_keys (unrecognized action) edited id =
      error_keys human_final_sync (action_unrecognized action)

  -- `_apply_decision`
  unfoldable pub sync_decision : Option (Decision J) → Uuid → ReviewerState J
  sync_decision none id = error_keys human_final_sync decision_unusable
  sync_decision (some decision) id =
      decision_keys decision.action decision.edited_structured_json id

  -- The row of the thread, created if there is none.
  unfoldable pub ensure_synced :
      Option (ProposedChange J)
      → J
      → Restaurant
      → Uuid
      → ReviewerState J
      → Database J
      → ProposedChange J × Database J
  ensure_synced (some row) json r run_id state db = (row, db)
  ensure_synced none json r run_id state db =
      let (row, created) =
        create_change restaurant r.id json state.validation_result (some run_id)
          (source_id state.source) (some run_id) db in
      (row, log proposed_change_create row.id none none none created)

  unfoldable pub find_or_sync :
      J → Restaurant → Uuid → ReviewerState J → Database J → Result (ProposedChange J × Database J)
  find_or_sync json r run_id state db =
      get_by_thread_id run_id db >>= λ found. ok (ensure_synced found json r run_id state db)

  unfoldable pub sync_answer : Entry J → ProposedChange J × Database J → SyncResult J
  sync_answer first_entry (row, db) = sync_paused db
  sync_answer (resumed decision) (row, db) = sync_returned (sync_decision decision row.id) db

  -- The three values that the node needs, if all are set.
  unfoldable pub sync_given :
      Option J
      → Option Restaurant
      → Option Uuid
      → Entry J
      → ReviewerState J
      → Database J
      → Result (SyncResult J)
  sync_given (some json) (some r) (some run_id) entry state db =
      find_or_sync json r run_id state db >>= λ found. ok (sync_answer entry found)
  sync_given _ _ _ entry state db =
      ok (sync_returned (error_keys human_final_sync inputs_required) db)

  unfoldable pub human_final_sync_node :
      Entry J → ReviewerState J → Database J → Result (SyncResult J)
  human_final_sync_node entry state db =
      sync_given state.validated_structured_json state.restaurant state.agent_run_id entry state db
