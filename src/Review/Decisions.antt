-- ===== src/Review/Decisions.antt =====
-- apps/api/app/services/review_service.py: what a decision leaves behind, for any two workflows that keep
-- to `IsLawful`; and that a change is decided once.
use mathlib.Core.Path.{subst}
use hungrx_agent.Prelude.{
  ◌≡◌, refl, inl, inr, Option, none, some, List, [], ◌∷◌, true, ◌∙◌, Bool-cases, ap, sym, ◌==◌,
  is_some, ==_iff,
}
use hungrx_agent.Text.{Text}
use hungrx_agent.Schema.Menu.{Uuid}
use hungrx_agent.Review.Rows.{
  pending, approved, rejected, published, is_pending, ProposedChangeStatus, Approval,
  AgentWorkflowType, collector, reviewer, ProposedChange, Database, ok, Gives, Gives-map,
  Gives-bind, ◌>>=◌,
}
use hungrx_agent.Review.Repositories.{
  find_change, get_by_id, set_status, update_status, create_approval, log,
}
use hungrx_agent.Review.Nodes.HumanReview.{
  Action, approve, reject, edit_then_approve, unrecognized, Decision,
}
use hungrx_agent.Review.Graph.{World, paused_at, paused_review, find_checkpoint}
use hungrx_agent.Review.State.{CollectorState}
use hungrx_agent.Reviewer.State.{ReviewerState}
use hungrx_agent.Review.Service.{
  GraphOutput, Workflow, ReviewOutcome, decision_status, final_status, get_detail, expect_change,
  check_pending, require_pending, require_thread, record_decision, conclude, graph_for,
  apply_decided, resume_review, workflow_type_for,
}

is_pending_lem : (s : ProposedChangeStatus) → is_pending s ≡ true → s ≡ pending
is_pending_lem pending h = refl
is_pending_lem approved h = absurd (cc h)
is_pending_lem rejected h = absurd (cc h)
is_pending_lem published h = absurd (cc h)

module _ {J : Type 0} where
  abbrev pub HasChange : Uuid → Database J → Type 0
  HasChange id db = is_some (get_by_id id db) ≡ true

  -- No paused run of either graph has an approval status.
  pub record IsFresh (w : World J) : Type 0 where
    pub collecting :
        (thread : Uuid) (state : CollectorState J)
        → find_checkpoint thread w.checkpoints ≡ some (paused_at state)
        → state.human_approval_status ≡ none
    pub reviewing :
        (thread : Uuid) (state : ReviewerState J)
        → find_checkpoint thread w.reviews ≡ some (paused_review state)
        → state.human_approval_status ≡ none

  -- What the service relies on when a resumed graph returns: it removes no change, leaves the approvals,
  -- and leaves the production tables if it was told to reject or reports no publication.
  pub record IsLawfulRun (d : Decision J) (w : World J) (o : GraphOutput) (w' : World J)
      : Type 0 where
    pub keeps : (id : Uuid) → HasChange id w.database → HasChange id w'.database
    pub approvals : w'.database.approvals ≡ w.database.approvals
    pub rejecting : d.action ≡ reject → w'.database.restaurants ≡ w.database.restaurants
    pub unpublished :
        o.published_restaurant_id ≡ none → w'.database.restaurants ≡ w.database.restaurants
    pub fresh : IsFresh w'

  pub record IsLawful (workflow : Workflow J) : Type 0 where
    pub run :
        (thread : Uuid) (d : Decision J) (w : World J)
        → IsFresh w
        → Gives
            (λ (p : GraphOutput × World J). IsLawfulRun d w p.0 p.1)
            (λ e. Unit)
            (workflow.resume thread d w)

  -- What a decision leaves behind.
  pub record IsDecided (id : Uuid) (d : Decision J) (reviewer_id : Uuid) (w : World J)
      (o : ReviewOutcome J) (w' : World J) : Type 0 where
    pub old : ProposedChange J
    pub was_found : get_by_id id w.database ≡ some old
    pub was_pending : old.status ≡ pending
    pub status : ProposedChangeStatus
    pub decided : decision_status d.action ≡ ok status
    pub row : ProposedChange J
    pub found : get_by_id id w'.database ≡ some row
    pub marked : row.status ≡ final_status o.published_restaurant_id status
    pub shown : o.proposed_change ≡ some row
    pub approval : Approval
    pub approvals : w'.database.approvals ≡ approval ∷ w.database.approvals
    pub of_change : approval.proposed_change_id ≡ id
    pub by_reviewer : approval.reviewer_user_id ≡ reviewer_id
    pub as_decided : approval.decision ≡ status
    pub rejecting : d.action ≡ reject → w'.database.restaurants ≡ w.database.restaurants
    pub unpublished :
        o.published_restaurant_id ≡ none → w'.database.restaurants ≡ w.database.restaurants
    pub fresh : IsFresh w'

  find_change-id :
      (id : Uuid) (rows : List (ProposedChange J)) (row : ProposedChange J)
      → find_change id rows ≡ some row
      → row.id ≡ id
  unfolding find_change
  find_change-id id [] row h = cc h
  find_change-id id (x ∷ rows) row h = elim (Bool-cases (x.id == id)) [
    | inl e ↦
        let same : x ≡ row = cc (rw e at h) in
        ap (λ (r : ProposedChange J). r.id) (sym same) ∙ (==_iff x.id id).0 e
    | inr e ↦ find_change-id id rows row (rw e at h)
  ]

  -- After an update of its status, a change that is there is found with that status.
  find_change-set_status :
      (id : Uuid) (s : ProposedChangeStatus) (rows : List (ProposedChange J))
      → is_some (find_change id rows) ≡ true
      → (row : ProposedChange J) × (find_change id (set_status id s rows) ≡ some row)
        × (row.status ≡ s)
  unfolding find_change set_status
  find_change-set_status id s [] h = absurd (cc h)
  find_change-set_status id s (x ∷ rows) h = elim (Bool-cases (x.id == id)) [
    | inl e ↦ (record x { status = s }, rw e (rw e refl), refl)
    | inr e ↦
        let (row, f, g) = find_change-set_status id s rows (rw e at h) in (row, rw e (rw e f), g)
  ]

  require_pending_lem :
      (id : Uuid) (db : Database J)
      → Gives
          (λ row. (get_by_id id db ≡ some row) × (row.status ≡ pending))
          (λ e. Unit)
          (require_pending id db)
  unfolding require_pending get_detail expect_change check_pending
  require_pending_lem id db = go (get_by_id id db) refl
    where
      status_lem :
          (row : ProposedChange J)
          → (get_by_id id db ≡ some row)
          → Gives
              (λ r. (get_by_id id db ≡ some r) × (r.status ≡ pending))
              (λ e. Unit)
              (check_pending row)
      status_lem row h = elim (Bool-cases (is_pending row.status)) [
        | inl e ↦ rw e (h, is_pending_lem row.status e)
        | inr e ↦ rw e tt
      ]

      go :
          (found : Option (ProposedChange J))
          → get_by_id id db ≡ found
          → Gives
              (λ row. (get_by_id id db ≡ some row) × (row.status ≡ pending))
              (λ e. Unit)
              (expect_change found >>= check_pending)
      go none h = tt
      go (some row) h = status_lem row h

decision_status_lem :
    (a : Action) → Gives (λ s. decision_status a ≡ ok s) (λ e. Unit) (decision_status a)
unfolding decision_status
decision_status_lem approve = refl
decision_status_lem edit_then_approve = refl
decision_status_lem reject = refl
decision_status_lem (unrecognized action) = tt

require_thread_lem : (t : Option Uuid) → Gives (λ t. Unit) (λ e. Unit) (require_thread t)
unfolding require_thread
require_thread_lem none = tt
require_thread_lem (some t) = tt

module _ {J : Type 0} (cw rw' : Workflow J) (lc : IsLawful cw) (lr : IsLawful rw') where
  graph_for-IsLawful : (t : AgentWorkflowType) → IsLawful (graph_for cw rw' t)
  unfolding graph_for
  graph_for-IsLawful collector = lc
  graph_for-IsLawful reviewer = lr

  module _ (d : Decision J) (reviewer_id : Uuid) (reason : Option Text) (w : World J)
      (fresh : IsFresh w) where
    conclude_lem :
        (row : ProposedChange J) (status : ProposedChangeStatus)
        → get_by_id row.id w.database ≡ some row
        → row.status ≡ pending
        → decision_status d.action ≡ ok status
        → (o : GraphOutput) (w' : World J)
        → IsLawfulRun d
            (record w {
              database = record_decision row.id d.action status reviewer_id reason w.database;
            })
            o
            w'
        → IsDecided row.id d reviewer_id w
            (conclude row.id status (o, w')).0
            (conclude row.id status (o, w')).1
    unfolding conclude update_status record_decision get_by_id create_approval log
    conclude_lem row status found pend ds o w' h =
        let (new, f, m) =
          find_change-set_status row.id (final_status o.published_restaurant_id status)
            w'.database.proposed_changes (h.keeps row.id (ap is_some found)) in
        record {
          old = row;
          was_found = found;
          was_pending = pend;
          status = status;
          decided = ds;
          row = new;
          found = f;
          marked = m;
          shown = f;
          approval = _;
          approvals = h.approvals;
          of_change = refl;
          by_reviewer = refl;
          as_decided = refl;
          rejecting = h.rejecting;
          unpublished = h.unpublished;
          fresh = record { collecting = h.fresh.collecting; reviewing = h.fresh.reviewing };
        }

    apply_decided_lem :
        (row : ProposedChange J) (thread : Uuid) (status : ProposedChangeStatus)
        → get_by_id row.id w.database ≡ some row
        → row.status ≡ pending
        → decision_status d.action ≡ ok status
        → Gives
            (λ (p : ReviewOutcome J × World J). IsDecided row.id d reviewer_id w p.0 p.1)
            (λ e. Unit)
            (apply_decided cw rw' row thread d status reviewer_id reason w)
    unfolding apply_decided
    apply_decided_lem row thread status found pend ds =
        let decided : World J = record w {
          database = record_decision row.id d.action status reviewer_id reason w.database;
        } in
        Gives-bind (λ (p : GraphOutput × World J). IsLawfulRun d decided p.0 p.1)
          (λ (p : ReviewOutcome J × World J). IsDecided row.id d reviewer_id w p.0 p.1) (λ e. Unit)
          ((graph_for cw rw' (workflow_type_for row decided.database)).resume thread d decided)
          (λ result. ok (conclude row.id status result))
          ((graph_for-IsLawful (workflow_type_for row decided.database)).run thread d decided
            (record { collecting = fresh.collecting; reviewing = fresh.reviewing }))
          (λ p h. conclude_lem row status found pend ds p.0 p.1 h)

    -- For two lawful workflows and a world in which no paused run has been decided, when the service returns
    -- from a decision on a change, that is still so, and the change was
    -- pending; it is now marked published if the workflow reports a publication and with the decided
    -- status if not; one approval was added, of this change, by the reviewer, with the decided status; and
    -- the production tables are as they were if the decision was a rejection or nothing was published.
    pub resume_review_lem :
        (id : Uuid)
        → Gives
            (λ (p : ReviewOutcome J × World J). IsDecided id d reviewer_id w p.0 p.1)
            (λ e. Unit)
            (resume_review cw rw' id d reviewer_id reason w)
    unfolding resume_review get_by_id
    resume_review_lem id =
        let Q : ReviewOutcome J × World J → Type 0 = λ p. IsDecided id d reviewer_id w p.0 p.1 in
        Gives-bind
          (λ (row : ProposedChange J).
            (get_by_id id w.database ≡ some row) × (row.status ≡ pending))
          Q (λ e. Unit) (require_pending id w.database) _ (require_pending_lem id w.database)
          (λ row h.
            let same = find_change-id id w.database.proposed_changes row h.0 in
            Gives-bind (λ t. Unit) Q (λ e. Unit) (require_thread row.thread_id) _
              (require_thread_lem row.thread_id)
              (λ thread t.
                Gives-bind (λ s. decision_status d.action ≡ ok s) Q (λ e. Unit)
                  (decision_status d.action) _ (decision_status_lem d.action)
                  (λ status ds.
                    Gives-map _ Q _ _
                      (apply_decided cw rw' row thread d status reviewer_id reason w)
                      (λ p i. subst (λ k. IsDecided k d reviewer_id w p.0 p.1) same i) (λ e i. i)
                      (apply_decided_lem row thread status (rw (sym same) at h.0) h.1 ds))))
