-- ===== src/Review/Collector/Steps.antt =====
-- workflows/collector_workflow: what the steps after the resumption keep.
use hungrx_agent.Prelude.{
  ◌≡◌, refl, arith, inl, inr, Option, none, some, List, [], ◌∷◌, true, false, is_some,
}
use hungrx_agent.Schema.Menu.{Uuid}
use hungrx_agent.Review.Rows.{
  ProposedChangeStatus, ProposedChange, Database, ok, Gives, Gives-map, Gives-bind,
}
use hungrx_agent.Review.Repositories.{find_change, get_by_id, set_status}
use hungrx_agent.Review.State.{CollectorState, or_else}
use hungrx_agent.Review.Nodes.HumanReview.{
  Action, approve, reject, edit_then_approve, unrecognized, Decision, resumed, NodeResult, paused,
  returned, review_given, find_or_create, answer, apply_decision, decision_update,
}
use hungrx_agent.Review.Nodes.Publish.{has_approval}
use hungrx_agent.Review.Replay.{IsFiled, find_or_create_lem}
use hungrx_agent.Review.Graph.{Checkpoint, paused_at, ended_at, World}
use hungrx_agent.Review.Service.{GraphOutput}
use hungrx_agent.Review.Decisions.{HasChange}

pub set_not_none : (new old : Option Uuid) (id : Uuid) → new ≡ some id → or_else new old ≡ none → ⊥
set_not_none none old id h e = cc h
set_not_none (some x) old id h e = cc e

-- An update without approval leaves an undecided state without approval.
pub unapproved :
    (new old : Option ProposedChangeStatus)
    → has_approval new ≡ false
    → old ≡ none
    → has_approval (or_else new old) ≡ false
unapproved none old n h = rw h refl
unapproved (some s) old n h = n

module _ {J : Type 0} where
  unfoldable pub output : CollectorState J × World J → GraphOutput × World J
  output (state, world) = (
    record { published_restaurant_id = state.published_restaurant_id; errors = state.errors },
    world,
  )

  -- Setting a status loses no row.
  pub find_change-set_status_kept :
      (id c : Uuid) (s : ProposedChangeStatus) (rows : List (ProposedChange J))
      → is_some (find_change id rows) ≡ true
      → is_some (find_change id (set_status c s rows)) ≡ true
  unfolding find_change set_status
  find_change-set_status_kept id c s [] h = h
  find_change-set_status_kept id c s (x ∷ rows) h =
      ground (arith, find_change-set_status_kept id c s rows)

  -- A new row hides none.
  pub find_change-cons :
      (id : Uuid) (x : ProposedChange J) (rows : List (ProposedChange J))
      → is_some (find_change id rows) ≡ true
      → is_some (find_change id (x ∷ rows)) ≡ true
  unfolding find_change
  find_change-cons id x rows h = ground arith

  -- No change is lost, and the approvals and production tables are as they were.
  pub record Keeps (db db' : Database J) : Type 0 where
    pub changes : (id : Uuid) → HasChange id db → HasChange id db'
    pub approvals : db'.approvals ≡ db.approvals

  pub IsFiled-Keeps :
      (run_id : Uuid) (json : J) (r : _) (db : Database J) (row : ProposedChange J)
      (db' : Database J)
      → IsFiled run_id json r db row db'
      → Keeps db db'
  unfolding get_by_id
  IsFiled-Keeps run_id json r db row db' f = record {
    changes = λ id h. elim f.changes [
      | inl e ↦ rw e h
      | inr (e, _, _, _, _, _) ↦ rw e (find_change-cons id row db.proposed_changes h)
    ];
    approvals = f.approvals;
  }

  -- What the resumed node returns.
  abbrev pub Returned : Decision J → Database J → NodeResult J → Type 0
  Returned d db (paused db') = ⊥
  Returned d db (returned update db') =
      Keeps db db'
      × (db'.restaurants ≡ db.restaurants)
      × (d.action ≡ reject → has_approval update.human_approval_status ≡ false)

  reject_is_no_approval :
      (a : Action) (edited : Option J) (id : Uuid)
      → a ≡ reject
      → has_approval (decision_update a edited id).human_approval_status ≡ false
  unfolding decision_update
  reject_is_no_approval approve edited id h = absurd (cc h)
  reject_is_no_approval edit_then_approve edited id h = absurd (cc h)
  reject_is_no_approval reject edited id h = refl
  reject_is_no_approval (unrecognized a) edited id h = refl

  pub review_given-Returned :
      (json : Option J) (r : Option _) (run_id : Option Uuid) (d : Decision J)
      (state : CollectorState J) (db : Database J)
      → Gives (Returned d db) (λ e. Unit) (review_given json r run_id (resumed (some d)) state db)
  unfolding review_given answer apply_decision
  review_given-Returned (some json) (some r) (some run_id) d state db =
      Gives-bind (λ (p : ProposedChange J × Database J). IsFiled run_id json r db p.0 p.1)
        (Returned d db) (λ e. Unit) (find_or_create json r run_id state db)
        (λ found. ok (answer (resumed (some d)) found))
        (Gives-map _ _ _ _ (find_or_create json r run_id state db) (λ p f. f) (λ e h. tt)
          (find_or_create_lem json r run_id state db))
        (λ p f. (
          IsFiled-Keeps run_id json r db p.0 p.1 f,
          f.restaurants,
          reject_is_no_approval d.action d.edited_structured_json p.0.id,
        ))
  review_given-Returned none r run_id d state db =
      (record { changes = λ id h. h; approvals = refl }, refl, λ h. refl)
  review_given-Returned (some json) none run_id d state db =
      (record { changes = λ id h. h; approvals = refl }, refl, λ h. refl)
  review_given-Returned (some json) (some r) none d state db =
      (record { changes = λ id h. h; approvals = refl }, refl, λ h. refl)

  -- What the run comes to after the review.
  abbrev pub Ended : Database J → Checkpoint J × Database J → Type 0
  Ended db (paused_at state, db') = ⊥
  Ended db (ended_at state, db') =
      Keeps db db' × (state.published_restaurant_id ≡ none → db'.restaurants ≡ db.restaurants)
