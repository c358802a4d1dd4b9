-- ===== src/Reviewer/Graph/Resumption.antt =====
-- workflows/reviewer_workflow/graph.py: what a resumed run leaves behind.
use hungrx_agent.Prelude.{
  ◌≡◌, refl, ◌∙◌, Bool, Bool-cases, inl, inr, true, false, Option, none, some, ◌∷◌, ◌==◌,
  if◌then◌else◌,
}
use hungrx_agent.Text.{Unicode}
use hungrx_agent.Json.{Json}
use hungrx_agent.Review.Kept.{IsKept}
use hungrx_agent.Schema.Menu.{Uuid}
use hungrx_agent.Review.Rows.{Database, ok, Gives, Gives-map, Gives-bind, Result, raised}
use hungrx_agent.Review.State.{publish, or_else}
use hungrx_agent.Review.Nodes.{Pydantic}
use hungrx_agent.Review.Nodes.HumanReview.{reject, Decision, resumed}
use hungrx_agent.Review.Nodes.Publish.{has_approval}
use hungrx_agent.Review.Graph.{
  to, end, ReviewerCheckpoint, paused_review, ended_review, World, find_checkpoint,
}
use hungrx_agent.Review.Collector.Steps.{Keeps, unapproved}
use hungrx_agent.Review.Collector.{collector_graph, collector_graph-IsLawful}
use hungrx_agent.Review.Decisions.{IsFresh, IsLawfulRun, IsLawful}
use hungrx_agent.Reviewer.State.{ReviewerState, merge_keys}
use hungrx_agent.Reviewer.Nodes.FinalSync.{
  SyncResult, sync_paused, sync_returned, human_final_sync_node,
}
use hungrx_agent.Reviewer.Nodes.Publish.{publish_update_node}
use hungrx_agent.Reviewer.Graph.{
  route_after_human_final_sync, review_state, save_review, review_output, run_publish_update,
  follow_sync, after_final_sync, run_final_sync, continue_review, resume_update, reviewer_graph,
}
use hungrx_agent.Reviewer.Graph.Reviewing.{Answers, final_sync-Answers}
use hungrx_agent.Reviewer.Graph.Publishing.{IsPublishing, publish_update-IsPublishing}

or_else-none {ℓ} : {A : Type ℓ} (new old : Option A) → or_else new old ≡ none → new ≡ none
or_else-none none old h = refl
or_else-none (some x) old h = absurd (cc h)

module _ {J : Type 0} where
  -- What a resumed run comes to: it has ended, with no change lost, and without a publication the
  -- production tables are as they were.
  abbrev pub Concludes : Database J → ReviewerCheckpoint J × Database J → Type 0
  Concludes db (paused_review state, db') = ⊥
  Concludes db (ended_review state, db') =
      Keeps db db' × (state.published_restaurant_id ≡ none → db'.restaurants ≡ db.restaurants)

  abbrev nothing_done : (db : Database J) → Keeps db db
  nothing_done db = record { changes = λ id h. h; approvals = refl }

  Concludes-trans :
      (db db' : Database J) (p : ReviewerCheckpoint J × Database J)
      → IsKept db db'
      → Concludes db' p
      → Concludes db p
  Concludes-trans db db' (paused_review s, e) k h = h
  Concludes-trans db db' (ended_review s, e) k h = (
    record {
      changes = λ id c. h.0.changes id (k.0.changes id c);
      approvals = h.0.approvals ∙ k.0.approvals;
    },
    λ n. h.1 n ∙ k.1,
  )

  ended-IsFresh :
      (thread : Uuid) (state : ReviewerState J) (db : Database J) (w : World J)
      → IsFresh w
      → IsFresh (record w { database = db; reviews = (thread, ended_review state) ∷ w.reviews })
  unfolding find_checkpoint
  ended-IsFresh thread state db w fresh = record {
    collecting = fresh.collecting;
    reviewing = λ t s h. elim (Bool-cases (thread == t)) [
      | inl e ↦ absurd (cc (rw e at h))
      | inr e ↦ fresh.reviewing t s (rw e at h)
    ];
  }

module _ {J : Type 0} (u : Unicode) (py : Pydantic J) (read_uuid : Json → Option Uuid) where
  run_publish_update-Concludes :
      (state : ReviewerState J) (db : Database J)
      → Gives (Concludes db) (λ e. Unit) (run_publish_update u py read_uuid state db)
  unfolding run_publish_update
  run_publish_update-Concludes state db =
      Gives-bind (IsPublishing db) (Concludes db) (λ e. Unit)
        (publish_update_node u py read_uuid state db) _
        (publish_update-IsPublishing u py read_uuid state db)
        (λ p h. (
          h.keeps,
          λ e.
              h.unpublished
                (or_else-none p.0.published_restaurant_id state.published_restaurant_id e),
        ))

  -- After the review; nothing is published if it is not approved.
  abbrev Followed : Bool → Database J → ReviewerCheckpoint J × Database J → Type 0
  Followed approval db p = Concludes db p × (approval ≡ false → p.1.restaurants ≡ db.restaurants)

  follow_sync_lem :
      (state : ReviewerState J) (db : Database J) (approval : Bool)
      → Gives
          (Followed approval db)
          (λ e. Unit)
          (follow_sync u py read_uuid (if approval then to publish else end) state db)
  unfolding follow_sync
  follow_sync_lem state db true =
      Gives-map _ _ _ _ (run_publish_update u py read_uuid state db)
        (λ p i. (i, λ e. absurd (cc e))) (λ e i. tt) (run_publish_update-Concludes state db)
  follow_sync_lem state db false = ((nothing_done db, λ e. refl), λ e. refl)

  -- A resumed run's end, and that a rejection publishes nothing
  abbrev pub Resumed : Decision J → Database J → ReviewerCheckpoint J × Database J → Type 0
  Resumed d db p = Concludes db p × (d.action ≡ reject → p.1.restaurants ≡ db.restaurants)

  after_final_sync-Resumed :
      (d : Decision J) (state : ReviewerState J) (db : Database J) (r : SyncResult J)
      → state.human_approval_status ≡ none
      → Answers d db r
      → Gives (Resumed d db) (λ e. Unit) (after_final_sync u py read_uuid state r)
  unfolding after_final_sync route_after_human_final_sync
  after_final_sync-Resumed d state db (sync_paused db') h k = absurd k
  after_final_sync-Resumed d state db (sync_returned update db') h (k, n) =
      Gives-map _ _ _ _
        (follow_sync u py read_uuid
          (if has_approval (or_else update.human_approval_status state.human_approval_status)
            then to publish
            else end)
          (merge_keys state update) db')
        (λ p i. (
          Concludes-trans db db' p k i.0,
          λ e.
              i.1 (unapproved update.human_approval_status state.human_approval_status (n e) h)
              ∙ k.1,
        ))
        (λ e i. tt) (follow_sync_lem (merge_keys state update) db' _)

  continue_review-Resumed :
      (unknown : Result (ReviewerState J)) (c : Option (ReviewerCheckpoint J)) (d : Decision J)
      (db : Database J)
      → ((state : ReviewerState J)
          → c ≡ some (paused_review state)
          → state.human_approval_status ≡ none)
      → Gives (Resumed d db) (λ e. Unit) (continue_review u py read_uuid unknown c d db)
  unfolding continue_review run_final_sync
  continue_review-Resumed (raised e) none d db h = tt
  continue_review-Resumed (ok state) none d db h = ((nothing_done db, λ e. refl), λ e. refl)
  continue_review-Resumed unknown (some (ended_review state)) d db h =
      ((nothing_done db, λ e. refl), λ e. refl)
  continue_review-Resumed unknown (some (paused_review state)) d db h =
      Gives-bind (Answers d db) (Resumed d db) (λ e. Unit)
        (human_final_sync_node (resumed (some d)) state db) (after_final_sync u py read_uuid state)
        (final_sync-Answers d state db)
        (λ r k. after_final_sync-Resumed d state db r (h state refl) k)

  saved_lem :
      (d : Decision J) (thread : Uuid) (w : World J) (p : ReviewerCheckpoint J × Database J)
      → IsFresh w
      → Resumed d w.database p
      → IsLawfulRun d w
          (review_output (save_review thread w p)).0
          (review_output (save_review thread w p)).1
  unfolding review_output save_review review_state
  saved_lem d thread w (paused_review state, db) fresh h = absurd h.0
  saved_lem d thread w (ended_review state, db) fresh h = record {
    keeps = h.0.0.changes;
    approvals = h.0.0.approvals;
    rejecting = h.1;
    unpublished = h.0.1;
    fresh = ended-IsFresh thread state db w fresh;
  }

  reviewer_graph-IsLawful : IsLawful (reviewer_graph u py read_uuid)
  unfolding reviewer_graph resume_update
  reviewer_graph-IsLawful = record {
    run = λ thread d w fresh.
        Gives-bind
          (λ (q : ReviewerState J × World J).
            IsLawfulRun d w (review_output q).0 (review_output q).1)
          (λ q. IsLawfulRun d w q.0 q.1) (λ e. Unit) (resume_update u py read_uuid thread d w)
          (λ result. ok (review_output result))
          (Gives-bind (Resumed d w.database)
            (λ (q : ReviewerState J × World J).
              IsLawfulRun d w (review_output q).0 (review_output q).1)
            (λ e. Unit)
            (continue_review u py read_uuid w.unknown_review (find_checkpoint thread w.reviews) d
              w.database)
            (λ reached. ok (save_review thread w reached))
            (continue_review-Resumed w.unknown_review (find_checkpoint thread w.reviews) d
              w.database (fresh.reviewing thread))
            (λ p h. saved_lem d thread w p fresh h))
          (λ q h. h);
  }

  -- The collector's and the reviewer's graph keep to what the review service relies on: resumed with a decision
  -- in a world in which no paused run has been decided, either one, when it returns, has lost no change and left
  -- the approvals as they were; the production tables are as they were if the decision is a rejection or no
  -- restaurant is reported as published; and still no paused run has been decided.
  pub both_graphs-IsLawful :
      IsLawful (collector_graph u py) × IsLawful (reviewer_graph u py read_uuid)
  both_graphs-IsLawful = (collector_graph-IsLawful u py, reviewer_graph-IsLawful)
