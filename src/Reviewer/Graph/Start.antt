-- ===== src/Reviewer/Graph/Start.antt =====
-- workflows/reviewer_workflow/graph.py: what a run leaves behind when it is started, up to the pause for
-- the review.
use hungrx_agent.Prelude.{
  ◌≡◌, refl, sym, Bool, Bool-cases, inl, inr, true, false, Option, none, some, ◌∷◌, ◌==◌,
  if◌then◌else◌,
}
use hungrx_agent.Text.{Unicode}
use hungrx_agent.Json.{Json}
use hungrx_agent.Extraction.Extractor.{Extractor}
use hungrx_agent.Review.Kept.{undecided_still, IsKept, IsKept-trans, IsUntouched-IsKept}
use hungrx_agent.Schema.Menu.{Uuid}
use hungrx_agent.Review.Rows.{Database, Result, ok, Gives, Gives-map, Gives-bind}
use hungrx_agent.Review.State.{targeted_reextraction}
use hungrx_agent.Review.Nodes.{Pydantic}
use hungrx_agent.Review.Nodes.HumanReview.{first_entry}
use hungrx_agent.Review.Graph.{
  to, end, ReviewerCheckpoint, paused_review, ended_review, World, find_checkpoint,
}
use hungrx_agent.Review.Decisions.{IsFresh}
use hungrx_agent.Reviewer.State.{ReviewerState, merge_keys}
use hungrx_agent.Reviewer.Nodes.HashPolling.{Fetcher, temporal_hash_polling_node}
use hungrx_agent.Reviewer.Nodes.Reextraction.{targeted_reextraction_node}
use hungrx_agent.Reviewer.Nodes.DeltaGeneration.{Differ, json_delta_generation_node}
use hungrx_agent.Reviewer.Nodes.DeltaValidation.{delta_validation_node}
use hungrx_agent.Reviewer.Nodes.FinalSync.{
  SyncResult, sync_paused, sync_returned, human_final_sync_node,
}
use hungrx_agent.Reviewer.Graph.{
  is_set_true, route_after_hash_polling, route_after_human_final_sync, review_state, save_review,
  follow_sync, after_final_sync, run_final_sync, run_from_delta, after_polling, run_from_polling,
  start_review,
}
use hungrx_agent.Reviewer.Graph.Steps.{
  IsQuiet, polling-IsQuiet, reextraction-IsQuiet, delta_generation_undecided,
  delta_validation-IsQuiet,
}
use hungrx_agent.Reviewer.Graph.Reviewing.{Asks, final_sync-Asks}

module _ {J : Type 0} where
  -- The last checkpoint of a thread, after one is added
  added-IsFresh :
      (thread : Uuid) (c : ReviewerCheckpoint J) (db : Database J) (w : World J)
      → (review_state c).human_approval_status ≡ none
      → IsFresh w
      → IsFresh (record w { database = db; reviews = (thread, c) ∷ w.reviews })
  unfolding find_checkpoint review_state
  added-IsFresh thread c db w undecided fresh = record {
    collecting = fresh.collecting;
    reviewing = λ t s h. elim (Bool-cases (thread == t)) [
      | inl e ↦ by_checkpoint c s undecided (rw e at h)
      | inr e ↦ fresh.reviewing t s (rw e at h)
    ];
  }
    where
      by_checkpoint :
          (c : ReviewerCheckpoint J) (s : ReviewerState J)
          → (review_state c).human_approval_status ≡ none
          → some c ≡ some (paused_review s)
          → s.human_approval_status ≡ none
      by_checkpoint (paused_review state) s h e = let same : state ≡ s = cc e in rw (sym same) h
      by_checkpoint (ended_review state) s h e = absurd (cc e)

  -- No change is lost, the approvals and the production tables are as they were, and the thread's state has
  -- no approval status.
  abbrev pub Waits : Database J → ReviewerCheckpoint J × Database J → Type 0
  Waits db p = IsKept db p.1 × ((review_state p.0).human_approval_status ≡ none)

  Waits-map :
      (db db' : Database J)
      → IsKept db db'
      → (r : Result (ReviewerCheckpoint J × Database J)) → Gives (Waits db') (λ e. Unit) r
      → Gives (Waits db) (λ e. Unit) r
  Waits-map db db' k r h =
      Gives-map _ _ _ _ r (λ p i. (IsKept-trans db db' p.1 k i.0, i.1)) (λ e t. t) h

module _ {J : Type 0} (u : Unicode) (py : Pydantic J) (read_uuid : Json → Option Uuid) where
  after_asking :
      (state : ReviewerState J) (db : Database J) (r : SyncResult J)
      → state.human_approval_status ≡ none
      → Asks db r
      → Gives (Waits db) (λ e. Unit) (after_final_sync u py read_uuid state r)
  unfolding after_final_sync route_after_human_final_sync follow_sync review_state
  after_asking state db (sync_paused db') n h = (h, n)
  after_asking state db (sync_returned update db') n h =
      let still = undecided_still update.human_approval_status state.human_approval_status h.1 n in
      rw still (h.0, refl)

  first_sync-Waits :
      (state : ReviewerState J) (db : Database J)
      → state.human_approval_status ≡ none
      → Gives (Waits db) (λ e. Unit) (run_final_sync u py read_uuid first_entry state db)
  unfolding run_final_sync
  first_sync-Waits state db n =
      Gives-bind (Asks db) (Waits db) (λ e. Unit) (human_final_sync_node first_entry state db)
        (after_final_sync u py read_uuid state) (final_sync-Asks state db)
        (λ r h. after_asking state db r n h)

  module _ (fetch : Fetcher) (ex : Extractor) (differ : Differ) where
    from_delta-Waits :
        (state : ReviewerState J) (db : Database J)
        → state.human_approval_status ≡ none
        → Gives (Waits db) (λ e. Unit) (run_from_delta u py read_uuid fetch ex differ state db)
    unfolding run_from_delta
    from_delta-Waits state db n =
        Gives-bind (λ (update : ReviewerState J). update.human_approval_status ≡ none) (Waits db)
          (λ e. Unit) (json_delta_generation_node py differ state db) _
          (delta_generation_undecided u py differ state db)
          (λ update h.
            let compared = merge_keys state update in
            let validated = delta_validation_node u py compared db in
            let quiet = delta_validation-IsQuiet u py compared db in
            Waits-map db validated.1 (IsUntouched-IsKept db validated.1 quiet.0) _ (
              first_sync-Waits (merge_keys compared validated.0) validated.1 (
                undecided_still validated.0.human_approval_status compared.human_approval_status
                  quiet.1
                  (undecided_still update.human_approval_status state.human_approval_status h n))))

    changed-Waits :
        (state : ReviewerState J) (db : Database J)
        → state.human_approval_status ≡ none
        → Gives
            (Waits db)
            (λ e. Unit)
            (after_polling u py read_uuid fetch ex differ (to targeted_reextraction) state db)
    unfolding after_polling
    changed-Waits state db n =
        Gives-bind (IsQuiet db) (Waits db) (λ e. Unit) (targeted_reextraction_node u py ex state db)
          _ (reextraction-IsQuiet u py ex state db)
          (λ p h. Waits-map db p.1 (IsUntouched-IsKept db p.1 h.0) _ (
            from_delta-Waits (merge_keys state p.0) p.1
              (undecided_still p.0.human_approval_status state.human_approval_status h.1 n)))

    after_polling-Waits :
        (changed : Bool) (state : ReviewerState J) (db : Database J)
        → state.human_approval_status ≡ none
        → Gives
            (Waits db)
            (λ e. Unit)
            (after_polling u py read_uuid fetch ex differ
              (if changed then to targeted_reextraction else end)
              state
              db)
    unfolding after_polling review_state
    after_polling-Waits true state db n = changed-Waits state db n
    after_polling-Waits false state db n =
        ((record { changes = λ id h. h; approvals = refl }, refl), n)

    from_polling-Waits :
        (state : ReviewerState J) (db : Database J)
        → state.human_approval_status ≡ none
        → Gives (Waits db) (λ e. Unit) (run_from_polling u py read_uuid fetch ex differ state db)
    unfolding run_from_polling route_after_hash_polling
    from_polling-Waits state db n =
        let polled = temporal_hash_polling_node fetch state db in
        let merged = merge_keys state polled.0 in
        let quiet = polling-IsQuiet fetch state db in
        Waits-map db polled.1 (IsUntouched-IsKept db polled.1 quiet.0) _ (
          after_polling-Waits (is_set_true merged.hash_changed) merged polled.1
            (undecided_still polled.0.human_approval_status state.human_approval_status quiet.1 n))

    -- Started in a world in which no paused run has been decided, with a state that has no approval status,
    -- the reviewer's graph, when it returns, has published nothing, recorded no approval and lost no proposed
    -- change, the state that it returns has no approval status, and still no paused run has been decided:
    -- a run reaches the production tables only by way of a decision.
    pub start_review-IsFresh :
        (thread : Uuid) (state : ReviewerState J) (w : World J)
        → IsFresh w
        → state.human_approval_status ≡ none
        → Gives
            (λ (q : ReviewerState J × World J).
              IsKept w.database q.1.database × (q.0.human_approval_status ≡ none) × IsFresh q.1)
            (λ e. Unit)
            (start_review u py read_uuid fetch ex differ thread state w)
    unfolding start_review save_review
    start_review-IsFresh thread state w fresh n =
        Gives-bind (Waits w.database) _ (λ e. Unit)
          (run_from_polling u py read_uuid fetch ex differ state w.database)
          (λ reached. ok (save_review thread w reached)) (from_polling-Waits state w.database n)
          (λ p h. (h.0, h.1, added-IsFresh thread p.0 p.1 w h.1 fresh))
