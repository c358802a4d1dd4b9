-- ===== src/Review/Collector/Waiting.antt =====
-- workflows/collector_workflow/graph.py: the part of a started run from the validation to the pause for the
-- review.
use hungrx_agent.Prelude.{
  ◌≡◌, refl, sym, Bool, Bool-cases, inl, inr, true, false, Option, none, some, ◌∷◌, ◌==◌, is_empty,
  not, ◌||◌, keep_if, if◌then◌else◌,
}
use hungrx_agent.Text.{Unicode}
use hungrx_agent.Schema.Menu.{Uuid}
use hungrx_agent.Schema.Restaurant.{Restaurant}
use hungrx_agent.Validation.Result.{ValidationOutcome, is_valid, is_error}
use hungrx_agent.Review.Rows.{
  agent_run_trigger, errors_found, ProposedChange, Database, Result, ok, Gives, Gives-map,
  Gives-bind,
}
use hungrx_agent.Review.Repositories.{log}
use hungrx_agent.Review.State.{CollectorState, human_review, merge}
use hungrx_agent.Review.Nodes.{Pydantic}
use hungrx_agent.Review.Nodes.DeterministicValidation.{
  log_outcome, record_outcome, validate_given, validate_json, validation_update,
  deterministic_validation_node,
}
use hungrx_agent.Review.Nodes.HumanReview.{
  first_entry, NodeResult, paused, returned, review_given, find_or_create, answer,
  human_review_node,
}
use hungrx_agent.Review.Graph.{
  to, end, Checkpoint, paused_at, ended_at, World, find_checkpoint, state_of, route_if_no_errors,
  route_after_human_review, follow, after_human_review, run_human_review, after_validation,
  run_from_validation,
}
use hungrx_agent.Review.Decisions.{IsFresh}
use hungrx_agent.Review.Replay.{IsFiled, find_or_create_lem}
use hungrx_agent.Review.Kept.{
  IsUntouched, IsUntouched-trans, same, fail_run-IsUntouched, IsKept, IsUntouched-IsKept,
  IsKept-trans, undecided_still,
}
use hungrx_agent.Review.Collector.Steps.{IsFiled-Keeps}
use hungrx_agent.Review.Collector.Nodes.{IsEarly}

module _ {J : Type 0} where
  log_outcome-IsUntouched :
      (run_id : Option Uuid) (outcome : ValidationOutcome) (db : Database J)
      → IsUntouched db (log_outcome run_id outcome db)
  unfolding log_outcome log
  log_outcome-IsUntouched none outcome db = same db
  log_outcome-IsUntouched (some id) outcome db =
      by_test (
        not (is_empty (keep_if is_error outcome.errors)) || not (is_empty outcome.corrected_fields))
    where
      by_test :
          (b : Bool) → IsUntouched db (if b then log agent_run_trigger id none none none db else db)
      by_test true = record { changes = refl; approvals = refl; restaurants = refl }
      by_test false = same db

  record_outcome-IsUntouched :
      (run_id : Option Uuid) (outcome : ValidationOutcome) (db : Database J)
      → IsUntouched db (record_outcome run_id outcome db)
  unfolding record_outcome
  record_outcome-IsUntouched run_id outcome db = elim (Bool-cases (is_valid outcome)) [
    | inl e ↦ rw e (log_outcome-IsUntouched run_id outcome db)
    | inr e ↦ rw e (
        IsUntouched-trans db (log_outcome run_id outcome db) _
          (log_outcome-IsUntouched run_id outcome db)
          (fail_run-IsUntouched run_id (errors_found outcome.errors) _))
  ]

  -- No change is lost, the approvals and the production tables are as they were, and the thread's state has
  -- no approval status.
  abbrev pub Waits : Database J → Checkpoint J × Database J → Type 0
  Waits db p = IsKept db p.1 × ((state_of p.0).human_approval_status ≡ none)

  pub Waits-map :
      (db db' : Database J)
      → IsUntouched db db'
      → (r : Result (Checkpoint J × Database J)) → Gives (Waits db') (λ e. Unit) r
      → Gives (Waits db) (λ e. Unit) r
  Waits-map db db' k r h =
      Gives-map _ _ _ _ r (λ p i. (IsKept-trans db db' p.1 (IsUntouched-IsKept db db' k) i.0, i.1))
        (λ e t. t) h

  pub ended-Waits :
      (state : CollectorState J) (db : Database J)
      → state.human_approval_status ≡ none
      → Waits db (ended_at state, db)
  unfolding state_of
  ended-Waits state db n = (IsUntouched-IsKept db db (same db), n)

  -- The last checkpoint of a thread, after one is added
  pub added-IsFresh :
      (thread : Uuid) (c : Checkpoint J) (db : Database J) (w : World J)
      → (state_of c).human_approval_status ≡ none
      → IsFresh w
      → IsFresh (record w { database = db; checkpoints = (thread, c) ∷ w.checkpoints })
  unfolding find_checkpoint state_of
  added-IsFresh thread c db w undecided fresh = record {
    reviewing = fresh.reviewing;
    collecting = λ t s h. elim (Bool-cases (thread == t)) [
      | inl e ↦ by_checkpoint c s undecided (rw e at h)
      | inr e ↦ fresh.collecting t s (rw e at h)
    ];
  }
    where
      by_checkpoint :
          (c : Checkpoint J) (s : CollectorState J)
          → (state_of c).human_approval_status ≡ none
          → some c ≡ some (paused_at s)
          → s.human_approval_status ≡ none
      by_checkpoint (paused_at state) s h e = let same : state ≡ s = cc e in rw (sym same) h
      by_checkpoint (ended_at state) s h e = absurd (cc e)

  -- What the review's node comes to on the first entry
  abbrev Asks : Database J → NodeResult J → Type 0
  Asks db (paused db') = IsKept db db'
  Asks db (returned update db') = IsUntouched db db' × (update.human_approval_status ≡ none)

  human_review-Asks :
      (state : CollectorState J) (db : Database J)
      → Gives (Asks db) (λ e. Unit) (human_review_node first_entry state db)
  unfolding human_review_node review_given answer
  human_review-Asks state db = by_inputs state.structured_json state.restaurant state.agent_run_id
    where
      by_inputs :
          (json : Option J) (r : Option Restaurant) (run_id : Option Uuid)
          → Gives (Asks db) (λ e. Unit) (review_given json r run_id first_entry state db)
      by_inputs (some json) (some r) (some run_id) =
          Gives-bind (λ (p : ProposedChange J × Database J). IsFiled run_id json r db p.0 p.1)
            (Asks db) (λ e. Unit) (find_or_create json r run_id state db)
            (λ found. ok (answer first_entry found))
            (Gives-map _ _ _ _ (find_or_create json r run_id state db) (λ p f. f) (λ e h. tt)
              (find_or_create_lem json r run_id state db))
            (λ p f. (IsFiled-Keeps run_id json r db p.0 p.1 f, f.restaurants))
      by_inputs none r run_id = (same db, refl)
      by_inputs (some json) none run_id = (same db, refl)
      by_inputs (some json) (some r) none = (same db, refl)

module _ {J : Type 0} (u : Unicode) (py : Pydantic J) where
  after_asking :
      (state : CollectorState J) (db : Database J) (r : NodeResult J)
      → state.human_approval_status ≡ none
      → Asks db r
      → Gives (Waits db) (λ e. Unit) (after_human_review u py state r)
  unfolding after_human_review route_after_human_review follow state_of
  after_asking state db (paused db') n h = (h, n)
  after_asking state db (returned update db') n h =
      let still = undecided_still update.human_approval_status state.human_approval_status h.1 n in
      rw still (IsUntouched-IsKept db db' h.0, refl)

  review-Waits :
      (state : CollectorState J) (db : Database J)
      → state.human_approval_status ≡ none
      → Gives (Waits db) (λ e. Unit) (run_human_review u py first_entry state db)
  unfolding run_human_review
  review-Waits state db n =
      Gives-bind (Asks db) (Waits db) (λ e. Unit) (human_review_node first_entry state db)
        (after_human_review u py state) (human_review-Asks state db)
        (λ r h. after_asking state db r n h)

  validation-IsEarly :
      (state : CollectorState J) (db : Database J)
      → IsEarly db (deterministic_validation_node u py state db)
  unfolding deterministic_validation_node validate_given validation_update
  validation-IsEarly state db = by_json state.structured_json
    where
      by_json : (json : Option J) → IsEarly db (validate_given u py json state.agent_run_id db)
      by_json none = (same db, refl)
      by_json (some json) =
          (record_outcome-IsUntouched state.agent_run_id (validate_json u py json) db, refl)

  pub from_validation-Waits :
      (state : CollectorState J) (db : Database J)
      → state.human_approval_status ≡ none
      → Gives (Waits db) (λ e. Unit) (run_from_validation u py state db)
  unfolding run_from_validation route_if_no_errors after_validation
  from_validation-Waits state db n =
      let validated = deterministic_validation_node u py state db in
      let quiet = validation-IsEarly state db in
      let merged = merge state validated.0 in
      let still =
        undecided_still validated.0.human_approval_status state.human_approval_status quiet.1 n in
      Waits-map db validated.1 quiet.0 _
        (by_route (is_empty merged.errors) merged validated.1 still)
    where
      by_route :
          (b : Bool) (state : CollectorState J) (db : Database J)
          → state.human_approval_status ≡ none
          → Gives
              (Waits db)
              (λ e. Unit)
              (after_validation u py (if b then to human_review else end) state db)
      by_route true state db n = review-Waits state db n
      by_route false state db n = ended-Waits state db n
