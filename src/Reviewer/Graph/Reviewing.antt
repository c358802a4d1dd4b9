-- ===== src/Reviewer/Graph/Reviewing.antt =====
-- workflows/reviewer_workflow/nodes/human_final_sync.py and publish.py: the tables that they keep.
use hungrx_agent.Prelude.{◌≡◌, refl, false, Option, none, some, List, [], ◌∷◌, keep_if}
use hungrx_agent.Schema.Menu.{Uuid}
use hungrx_agent.Schema.Restaurant.{Restaurant}
use hungrx_agent.Review.Rows.{
  ProposedChange, Database, inputs_required, ok, Gives, Gives-bind, ◌>>=◌,
}
use hungrx_agent.Review.Repositories.{
  has_thread, scalar_one_or_none, get_by_thread_id, get_by_id, create_change, log,
}
use hungrx_agent.Review.State.{human_final_sync}
use hungrx_agent.Review.Nodes.HumanReview.{
  Action, approve, edit_then_approve, reject, unrecognized, Decision, Entry, first_entry, resumed,
}
use hungrx_agent.Review.Nodes.Publish.{has_approval}
use hungrx_agent.Review.Collector.Steps.{find_change-cons}
use hungrx_agent.Reviewer.State.{ReviewerState, error_keys}
use hungrx_agent.Reviewer.Nodes.FinalSync.{
  SyncResult, sync_paused, sync_returned, decision_keys, sync_decision, ensure_synced, find_or_sync,
  sync_answer, sync_given, human_final_sync_node,
}
use hungrx_agent.Review.Kept.{IsKept}

module _ {J : Type 0} where
  find_or_sync-IsKept :
      (json : J) (r : Restaurant) (run_id : Uuid) (state : ReviewerState J) (db : Database J)
      → Gives
          (λ (p : ProposedChange J × Database J). IsKept db p.1)
          (λ e. Unit)
          (find_or_sync json r run_id state db)
  unfolding find_or_sync get_by_thread_id scalar_one_or_none ensure_synced create_change log
      get_by_id
  find_or_sync-IsKept json r run_id state db =
      by_rows (keep_if (has_thread run_id) db.proposed_changes)
    where
      by_rows :
          (rows : List (ProposedChange J))
          → Gives
              (λ (p : ProposedChange J × Database J). IsKept db p.1)
              (λ e. Unit)
              (scalar_one_or_none rows >>= λ found. ok (ensure_synced found json r run_id state db))
      by_rows [] = (
        record { changes = λ id h. find_change-cons id _ db.proposed_changes h; approvals = refl },
        refl,
      )
      by_rows (row ∷ []) = (record { changes = λ id h. h; approvals = refl }, refl)
      by_rows (row ∷ other ∷ rows) = tt

  -- What the review's node comes to on the first entry: it pauses, or returns without a decision.
  abbrev pub Asks : Database J → SyncResult J → Type 0
  Asks db (sync_paused db') = IsKept db db'
  Asks db (sync_returned update db') = IsKept db db' × (update.human_approval_status ≡ none)

  -- What it comes to when it is resumed
  abbrev pub Answers : Decision J → Database J → SyncResult J → Type 0
  Answers d db (sync_paused db') = ⊥
  Answers d db (sync_returned update db') =
      IsKept db db' × (d.action ≡ reject → has_approval update.human_approval_status ≡ false)

  reject_is_no_approval :
      (a : Action) (edited : Option J) (id : Uuid)
      → a ≡ reject
      → has_approval (decision_keys a edited id).human_approval_status ≡ false
  unfolding decision_keys
  reject_is_no_approval approve edited id h = absurd (cc h)
  reject_is_no_approval edit_then_approve edited id h = absurd (cc h)
  reject_is_no_approval reject edited id h = refl
  reject_is_no_approval (unrecognized a) edited id h = refl

  sync_given-Gives :
      (P : SyncResult J → Type 0) (json : Option J) (r : Option Restaurant) (run_id : Option Uuid)
      (entry : Entry J) (state : ReviewerState J) (db : Database J)
      → ((p : ProposedChange J × Database J) → IsKept db p.1 → P (sync_answer entry p))
      → P (sync_returned (error_keys human_final_sync inputs_required) db)
      → Gives P (λ e. Unit) (sync_given json r run_id entry state db)
  unfolding sync_given
  sync_given-Gives P (some json) (some r) (some run_id) entry state db f e =
      Gives-bind (λ (p : ProposedChange J × Database J). IsKept db p.1) P (λ e. Unit)
        (find_or_sync json r run_id state db) _ (find_or_sync-IsKept json r run_id state db) f
  sync_given-Gives P none r run_id entry state db f e = e
  sync_given-Gives P (some json) none run_id entry state db f e = e
  sync_given-Gives P (some json) (some r) none entry state db f e = e

  pub final_sync-Asks :
      (state : ReviewerState J) (db : Database J)
      → Gives (Asks db) (λ e. Unit) (human_final_sync_node first_entry state db)
  unfolding human_final_sync_node sync_answer
  final_sync-Asks state db =
      sync_given-Gives (Asks db) state.validated_structured_json state.restaurant state.agent_run_id
        first_entry state db (λ p h. h)
        ((record { changes = λ id h. h; approvals = refl }, refl), refl)

  pub final_sync-Answers :
      (d : Decision J) (state : ReviewerState J) (db : Database J)
      → Gives (Answers d db) (λ e. Unit) (human_final_sync_node (resumed (some d)) state db)
  unfolding human_final_sync_node sync_answer sync_decision
  final_sync-Answers d state db =
      sync_given-Gives (Answers d db) state.validated_structured_json state.restaurant
        state.agent_run_id (resumed (some d)) state db
        (λ p h. (h, reject_is_no_approval d.action d.edited_structured_json p.0.id))
        ((record { changes = λ id h. h; approvals = refl }, refl), λ h. refl)
