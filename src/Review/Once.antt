-- ===== src/Review/Once.antt =====
-- apps/api/app/services/review_service.py: a change is decided once.
use hungrx_agent.Prelude.{◌≡◌, ◌≢◌, ◌∙◌, refl, ap, false, Option, none, some}
use hungrx_agent.Text.{Text}
use hungrx_agent.Schema.Menu.{Uuid}
use hungrx_agent.Review.Rows.{
  pending, is_pending, ProposedChangeStatus, ProposedChange, ok, raised, conflict, ◌>>=◌,
}
use hungrx_agent.Review.Repositories.{get_by_id}
use hungrx_agent.Review.Nodes.HumanReview.{
  Action, approve, reject, edit_then_approve, unrecognized, Decision,
}
use hungrx_agent.Review.Graph.{World}
use hungrx_agent.Review.Service.{
  Workflow, ReviewOutcome, decision_status, final_status, get_detail, expect_change, check_pending,
  require_pending, resume_review,
}
use hungrx_agent.Review.Decisions.{IsFresh, IsLawful, IsDecided, resume_review_lem}

final_status_decided :
    (a : Action) (p : Option Uuid) (s : ProposedChangeStatus)
    → decision_status a ≡ ok s
    → is_pending (final_status p s) ≡ false
unfolding decision_status final_status
final_status_decided a (some id) s h = refl
final_status_decided approve none s h = cc h
final_status_decided edit_then_approve none s h = cc h
final_status_decided reject none s h = cc h
final_status_decided (unrecognized x) none s h = cc h

module _ {J : Type 0} (cw rw' : Workflow J) where
  require_pending_conflict :
      (id : Uuid) (w : World J) (row : ProposedChange J)
      → get_by_id id w.database ≡ some row
      → is_pending row.status ≡ false
      → require_pending id w.database ≡ raised (conflict row.status)
  unfolding require_pending get_detail expect_change check_pending
  require_pending_conflict id w row h n =
      ap (λ found. expect_change found >>= check_pending) h ∙ rw n

  -- A change that is not pending is refused, whatever the decision.
  resume_review_conflict :
      (id : Uuid) (d : Decision J) (reviewer_id : Uuid) (reason : Option Text) (w : World J)
      (row : ProposedChange J)
      → get_by_id id w.database ≡ some row
      → is_pending row.status ≡ false
      → resume_review cw rw' id d reviewer_id reason w ≡ raised (conflict row.status)
  unfolding resume_review
  resume_review_conflict id d reviewer_id reason w row h n =
      rw (require_pending_conflict id w row h n)

  -- For two lawful workflows and a world in which no paused run has been decided, when the service has returned from a decision on a change, every further
  -- decision on that change is refused as a conflict with a status that is not pending.
  pub resume_review_once :
      IsLawful cw
      → IsLawful rw'
      → (w : World J) → IsFresh w
      → (id : Uuid) (d : Decision J) (reviewer_id : Uuid) (reason : Option Text) (w' : World J)
        (o : ReviewOutcome J)
      → resume_review cw rw' id d reviewer_id reason w ≡ ok (o, w')
      → (s : ProposedChangeStatus) × (s ≢ pending)
        × ((d' : Decision J) (reviewer_id' : Uuid) (reason' : Option Text)
            → resume_review cw rw' id d' reviewer_id' reason' w' ≡ raised (conflict s))
  resume_review_once lc lr w fresh id d reviewer_id reason w' o h =
      let x : IsDecided id d reviewer_id w o w' =
        rw h at (resume_review_lem cw rw' lc lr d reviewer_id reason w fresh id) in
      let n : is_pending x.row.status ≡ false =
        ap is_pending x.marked
        ∙ final_status_decided d.action o.published_restaurant_id x.status x.decided in
      (
        x.row.status,
        λ e. cc (n, ap is_pending e),
        λ d' r' m. resume_review_conflict id d' r' m w' x.row x.found n,
      )
