-- ===== src/Review/Rejection.antt =====
-- apps/api/app/services/review_service.py and the collector's graph: a rejection goes through.
use mathlib.Core.Path.{subst}
use hungrx_agent.Prelude.{◌≡◌, refl, ◌∷◌, ap, ◌∙◌, Option, none, some}
use hungrx_agent.Text.{Text, Unicode}
use hungrx_agent.Schema.Menu.{Uuid}
use hungrx_agent.Schema.Restaurant.{Restaurant}
use hungrx_agent.Review.Nodes.{Pydantic}
use hungrx_agent.Review.Rows.{pending, rejected, collector, ProposedChange, Result, ok, Gives}
use hungrx_agent.Review.Repositories.{get_by_id, get_by_thread_id, create_approval, log}
use hungrx_agent.Review.State.{CollectorState, merge}
use hungrx_agent.Review.Nodes.HumanReview.{
  reject, Decision, human_review_node, review_given, find_or_create, ensure_change, answer,
  apply_decision, decision_update,
}
use hungrx_agent.Review.Graph.{
  World, paused_at, ended_at, find_checkpoint, continue, resume, run_human_review,
  after_human_review, follow, route_after_human_review, save, state_of,
}
use hungrx_agent.Review.Service.{
  Workflow, ReviewOutcome, resume_review, reject_change, apply_decided, graph_for,
  workflow_type_for, require_pending, get_detail, expect_change, check_pending, require_thread,
  decision_status, record_decision, conclude, final_status,
}
use hungrx_agent.Review.Decisions.{IsFresh, IsLawful, IsDecided, resume_review_lem}
use hungrx_agent.Review.Collector.Steps.{output}
use hungrx_agent.Review.Collector.{collector_graph, collector_graph-IsLawful}

module _ {J : Type 0} where
  abbrev rejection : Decision J
  rejection = record { action = reject; edited_structured_json = none }

  -- The change is pending, and the collector's run that filed it waits for a decision on it.
  pub record IsWaiting (id : Uuid) (w : World J) (row : ProposedChange J) (thread : Uuid)
      (s : CollectorState J) : Type 0 where
    pub found : get_by_id id w.database ≡ some row
    pub is_pending : row.status ≡ pending
    pub of_thread : row.thread_id ≡ some thread
    pub of_collector : workflow_type_for row w.database ≡ collector
    pub waits : find_checkpoint thread w.checkpoints ≡ some (paused_at s)
    pub json : J
    pub has_json : s.structured_json ≡ some json
    pub about : Restaurant
    pub has_restaurant : s.restaurant ≡ some about
    pub has_run : s.agent_run_id ≡ some thread
    pub filed : get_by_thread_id thread w.database ≡ ok (some row)
    pub unpublished : s.published_restaurant_id ≡ none

module _ {J : Type 0} (u : Unicode) (py : Pydantic J) (other : Workflow J) where
  module _ (id reviewer_id : Uuid) (reason : Option Text) (w : World J) where
    abbrev decided_world : ProposedChange J → World J
    decided_world row = record w {
      database = record_decision row.id reject rejected reviewer_id reason w.database;
    }

    resume_rejection :
        (row : ProposedChange J) (thread : Uuid) (s : CollectorState J)
        → IsWaiting id w row thread s
        → let merged = merge s (apply_decision (some rejection) row.id) in
          resume u py thread rejection (decided_world row)
          ≡ ok (
            merged,
            record w {
              database = (decided_world row).database;
              checkpoints = (thread, ended_at merged) ∷ w.checkpoints;
            },
          )
    unfolding resume continue run_human_review human_review_node review_given find_or_create
        ensure_change answer get_by_thread_id after_human_review follow route_after_human_review
        save state_of apply_decision decision_update record_decision log create_approval
    resume_rejection row thread s h =
        rw h.waits (rw h.has_json (rw h.has_restaurant (rw h.has_run (rw h.filed refl))))

    -- What the service returns.
    abbrev rejected_result : ProposedChange J → Uuid → CollectorState J → ReviewOutcome J × World J
    rejected_result row thread s =
        let merged = merge s (apply_decision (some rejection) row.id) in
        conclude row.id rejected (
          output (
            merged,
            record w {
              database = (decided_world row).database;
              checkpoints = (thread, ended_at merged) ∷ w.checkpoints;
            },
          ))

    require_waiting :
        (row : ProposedChange J)
        → get_by_id id w.database ≡ some row
        → row.status ≡ pending
        → require_pending id w.database ≡ ok row
    unfolding require_pending get_detail expect_change check_pending
    require_waiting row found p = rw found (rw p refl)

    type-decided_world :
        (row : ProposedChange J)
        → workflow_type_for row w.database ≡ collector
        → workflow_type_for row (decided_world row).database ≡ collector
    unfolding workflow_type_for record_decision log create_approval
    type-decided_world row h = h

    unpublished-rejected_result :
        (row : ProposedChange J) (thread : Uuid) (s : CollectorState J)
        → s.published_restaurant_id ≡ none
        → (rejected_result row thread s).0.published_restaurant_id ≡ none
    unfolding conclude output apply_decision decision_update
    unpublished-rejected_result row thread s h = h

    marked_rejected :
        (o : ReviewOutcome J) (w' : World J) (d : IsDecided id rejection reviewer_id w o w')
        → o.published_restaurant_id ≡ none
        → d.row.status ≡ rejected
    unfolding decision_status final_status
    marked_rejected o w' d h =
        let same : d.status ≡ rejected = cc d.decided in
        d.marked ∙ ap (λ p. final_status p d.status) h ∙ same

    apply_rejection :
        (row : ProposedChange J) (thread : Uuid) (s : CollectorState J)
        → IsWaiting id w row thread s
        → apply_decided
            (collector_graph u py)
            other
            row
            thread
            rejection
            rejected
            reviewer_id
            reason
            w
          ≡ ok (rejected_result row thread s)
    unfolding apply_decided graph_for collector_graph
    apply_rejection row thread s h =
        let kind : workflow_type_for row (decided_world row).database ≡ collector =
          type-decided_world row h.of_collector in
        rw kind (rw (resume_rejection row thread s h) refl)

    reject_returns :
        (row : ProposedChange J) (thread : Uuid) (s : CollectorState J)
        → IsWaiting id w row thread s
        → reject_change (collector_graph u py) other id reviewer_id reason w
          ≡ ok (rejected_result row thread s)
    unfolding reject_change resume_review require_thread decision_status
    reject_returns row thread s h =
        let thread_given : require_thread row.thread_id ≡ ok thread =
          ap require_thread h.of_thread in
        rw (require_waiting row h.found h.is_pending)
          (simp thread_given (apply_rejection row thread s h))

    -- A rejection that has gone through, with what it returns and leaves behind
    pub record IsRejected (r : Result (ReviewOutcome J × World J)) : Type 0 where
      pub outcome : ReviewOutcome J
      pub world : World J
      pub returns : r ≡ ok (outcome, world)
      pub decided : IsDecided id rejection reviewer_id w outcome world
      pub is_unpublished : outcome.published_restaurant_id ≡ none
      pub is_marked : decided.row.status ≡ rejected

    -- Where a change is pending and the collector's run that filed it waits for the decision on it, in a world in
    -- which no paused run has been decided, a rejection returns: the change is marked rejected, what a decision
    -- leaves behind is there, and nothing is published.
    pub reject_change_lem :
        (row : ProposedChange J) (thread : Uuid) (s : CollectorState J)
        → IsLawful other
        → IsFresh w
        → IsWaiting id w row thread s
        → IsRejected (reject_change (collector_graph u py) other id reviewer_id reason w)
    unfolding reject_change
    reject_change_lem row thread s lawful fresh h =
        let (o, w') = rejected_result row thread s in
        let returns = reject_returns row thread s h in
        let d : IsDecided id rejection reviewer_id w o w' =
          subst (Gives (λ p. IsDecided id rejection reviewer_id w p.0 p.1) (λ e. Unit)) returns (
            resume_review_lem (collector_graph u py) other (collector_graph-IsLawful u py) lawful
              rejection reviewer_id reason w fresh id) in
        let none_published : o.published_restaurant_id ≡ none =
          unpublished-rejected_result row thread s h.unpublished in
        record {
          outcome = o;
          world = w';
          returns = returns;
          decided = d;
          is_unpublished = none_published;
          is_marked = marked_rejected o w' d none_published;
        }
