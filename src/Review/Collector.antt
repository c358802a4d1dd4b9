-- ===== src/Review/Collector.antt =====
-- workflows/collector_workflow/graph.py as the workflow that the review service resumes, and the thread
-- under which apps/worker/app/jobs/collector_workflow.py starts it.
pub mod Steps
pub mod Nodes
pub mod Waiting
pub mod Start
use hungrx_agent.Prelude.{
  Bool, ◌≡◌, refl, arith, inl, inr, ◌∙◌, Option, none, some, List, [], ◌∷◌, true, false, Bool-cases,
  is_some, ◌==◌, if◌then◌else◌,
}
use hungrx_agent.Text.{Unicode}
use hungrx_agent.Schema.Menu.{Uuid}
use hungrx_agent.Review.Rows.{
  ProposedChangeStatus, ProposedChange, Database, Result, ok, raised, Gives, Gives-map, Gives-bind,
  published, ◌>>=◌,
}
use hungrx_agent.Review.Repositories.{find_change, get_by_id, set_status}
use hungrx_agent.Review.State.{CollectorState, StateUpdate, publish, merge, or_else}
use hungrx_agent.Review.Nodes.{Pydantic}
use hungrx_agent.Review.Nodes.HumanReview.{
  Action, approve, reject, edit_then_approve, unrecognized, Decision, resumed, NodeResult, paused,
  returned, human_review_node, review_given, find_or_create, answer, apply_decision,
  decision_update,
}
use hungrx_agent.Review.Nodes.Publish.{has_approval, publish_node}
use hungrx_agent.Review.Publication.{IsPublishStep, publish_node_lem}
use hungrx_agent.Review.Replay.{IsFiled, find_or_create_lem}
use hungrx_agent.Review.Graph.{
  to, end, Checkpoint, paused_at, ended_at, World, route_after_human_review, find_checkpoint,
  state_of, save, run_publish, follow, after_human_review, run_human_review, continue, resume,
}
use hungrx_agent.Review.Service.{GraphOutput, Workflow}
use hungrx_agent.Review.Decisions.{HasChange, IsFresh, IsLawfulRun, IsLawful}
use hungrx_agent.Review.Collector.Steps.{
  set_not_none, unapproved, output, find_change-set_status_kept, Keeps, Returned,
  review_given-Returned, Ended,
}

module _ {J : Type 0} (u : Unicode) (py : Pydantic J) where
  IsPublishStep-Keeps :
      (state : CollectorState J) (db db' : Database J) (update : StateUpdate J)
      → IsPublishStep u py state db (update, db')
      → Ended db (ended_at (merge state update), db')
  unfolding get_by_id
  IsPublishStep-Keeps state db db' update (inl n) =
      (record { changes = λ id h. rw n.changes h; approvals = n.approvals }, λ e. n.restaurants)
  IsPublishStep-Keeps state db db' update (inr p) =
      let i = p.insertion in
      (
        record {
          changes = λ id h.
              rw i.changes
                (find_change-set_status_kept id p.change_id published db.proposed_changes h);
          approvals = i.approvals;
        },
        λ e. absurd (
            set_not_none update.published_restaurant_id state.published_restaurant_id p.tree.id
              i.reported e),
      )

  run_publish-Ended :
      (state : CollectorState J) (db : Database J)
      → Gives (Ended db) (λ e. Unit) (run_publish u py state db)
  unfolding run_publish
  run_publish-Ended state db =
      Gives-bind (IsPublishStep u py state db) (Ended db) (λ e. Unit) (publish_node u py state db)
        (λ p. ok (ended_at (merge state p.0), p.1))
        (Gives-map _ _ _ _ (publish_node u py state db) (λ p h. h) (λ e h. tt)
          (publish_node_lem u py state db))
        (λ p h. IsPublishStep-Keeps state db p.1 p.0 h)

  Ended-Keeps :
      (db db' : Database J) (p : Checkpoint J × Database J)
      → Keeps db db'
      → db'.restaurants ≡ db.restaurants
      → Ended db' p
      → Ended db p
  Ended-Keeps db db' (paused_at s, e) k r h = h
  Ended-Keeps db db' (ended_at s, e) k r h = (
    record {
      changes = λ id c. h.0.changes id (k.changes id c);
      approvals = h.0.approvals ∙ k.approvals;
    },
    λ n. h.1 n ∙ r,
  )

  -- After the review: the run has ended, and nothing is published if it is not approved.
  abbrev pub Followed : Bool → Database J → Checkpoint J × Database J → Type 0
  Followed approval db p = Ended db p × (approval ≡ false → p.1.restaurants ≡ db.restaurants)

  pub follow_lem :
      (state : CollectorState J) (db : Database J) (approval : Bool)
      → has_approval state.human_approval_status ≡ approval
      → Gives
          (Followed approval db)
          (λ e. Unit)
          (follow u py (if approval then to publish else end) state db)
  unfolding follow
  follow_lem state db true h =
      Gives-map _ _ _ _ (run_publish u py state db) (λ p i. (i, λ e. absurd (cc e))) (λ e i. tt)
        (run_publish-Ended state db)
  follow_lem state db false h =
      ((record { changes = λ id c. c; approvals = refl }, λ e. refl), λ e. refl)

  after_human_review_lem :
      (d : Decision J) (state : CollectorState J) (db : Database J) (r : NodeResult J)
      → state.human_approval_status ≡ none
      → Returned d db r
      → Gives
          (λ p. Ended db p × (d.action ≡ reject → p.1.restaurants ≡ db.restaurants))
          (λ e. Unit)
          (after_human_review u py state r)
  unfolding after_human_review route_after_human_review
  after_human_review_lem d state db (paused db') h k = absurd k
  after_human_review_lem d state db (returned update db') h (k, r, n) =
      Gives-map _ _ _ _
        (follow u py
          (if has_approval (or_else update.human_approval_status state.human_approval_status)
            then to publish
            else end)
          (merge state update) db')
        (λ p i. (
          Ended-Keeps db db' p k r i.0,
          λ e.
              i.1 (unapproved update.human_approval_status state.human_approval_status (n e) h) ∙ r,
        ))
        (λ e i. tt) (follow_lem (merge state update) db' _ refl)

  continue_lem :
      (unknown : Result (CollectorState J)) (c : Option (Checkpoint J)) (d : Decision J)
      (db : Database J)
      → ((state : CollectorState J)
          → c ≡ some (paused_at state)
          → state.human_approval_status ≡ none)
      → Gives
          (λ p. Ended db p × (d.action ≡ reject → p.1.restaurants ≡ db.restaurants))
          (λ e. Unit)
          (continue u py unknown c d db)
  unfolding continue run_human_review human_review_node
  continue_lem (raised e) none d db h = tt
  continue_lem (ok state) none d db h =
      ((record { changes = λ id c. c; approvals = refl }, λ e. refl), λ e. refl)
  continue_lem unknown (some (ended_at state)) d db h =
      ((record { changes = λ id c. c; approvals = refl }, λ e. refl), λ e. refl)
  continue_lem unknown (some (paused_at state)) d db h =
      Gives-bind (Returned d db)
        (λ p. Ended db p × (d.action ≡ reject → p.1.restaurants ≡ db.restaurants)) (λ e. Unit)
        (review_given state.structured_json state.restaurant state.agent_run_id (resumed (some d))
          state db)
        (after_human_review u py state)
        (review_given-Returned state.structured_json state.restaurant state.agent_run_id d state db)
        (λ r k. after_human_review_lem d state db r (h state refl) k)

  -- The collector's graph, as the service resumes it.
  unfoldable pub collector_graph : Workflow J
  unfolding output
  collector_graph = record {
    resume =
        λ thread decision world. resume u py thread decision world >>= λ result. ok (output result);
  }

  ended-IsFresh :
      (thread : Uuid) (state : CollectorState J) (db : Database J) (w : World J)
      → IsFresh w
      → IsFresh (record w { database = db; checkpoints = (thread, ended_at state) ∷ w.checkpoints })
  unfolding find_checkpoint
  ended-IsFresh thread state db w fresh = record {
    collecting = λ t s h. elim (Bool-cases (thread == t)) [
      | inl e ↦ absurd (cc (rw e at h))
      | inr e ↦ fresh.collecting t s (rw e at h)
    ];
    reviewing = fresh.reviewing;
  }

  saved_lem :
      (d : Decision J) (thread : Uuid) (w : World J) (p : Checkpoint J × Database J)
      → IsFresh w
      → Ended w.database p × (d.action ≡ reject → p.1.restaurants ≡ w.database.restaurants)
      → IsLawfulRun d w (output (save thread w p)).0 (output (save thread w p)).1
  unfolding output save state_of
  saved_lem d thread w (paused_at state, db) fresh h = absurd h.0
  saved_lem d thread w (ended_at state, db) fresh h = record {
    keeps = h.0.0.changes;
    approvals = h.0.0.approvals;
    rejecting = h.1;
    unpublished = h.0.1;
    fresh = ended-IsFresh thread state db w fresh;
  }

  resume-IsLawfulRun :
      (thread : Uuid) (d : Decision J) (w : World J)
      → IsFresh w
      → Gives
          (λ (q : CollectorState J × World J). IsLawfulRun d w (output q).0 (output q).1)
          (λ e. Unit)
          (resume u py thread d w)
  unfolding resume
  resume-IsLawfulRun thread d w fresh =
      Gives-bind
        (λ p. Ended w.database p × (d.action ≡ reject → p.1.restaurants ≡ w.database.restaurants))
        (λ q. IsLawfulRun d w (output q).0 (output q).1) (λ e. Unit)
        (continue u py w.unknown_thread (find_checkpoint thread w.checkpoints) d w.database)
        (λ p. ok (save thread w p))
        (continue_lem w.unknown_thread (find_checkpoint thread w.checkpoints) d w.database
          (fresh.collecting thread))
        (λ p h. saved_lem d thread w p fresh h)

  -- The graph keeps to what the review service relies on.
  pub collector_graph-IsLawful : IsLawful collector_graph
  unfolding collector_graph
  collector_graph-IsLawful = record {
    run = λ thread d w fresh.
        Gives-bind (λ q. IsLawfulRun d w (output q).0 (output q).1) (λ q. IsLawfulRun d w q.0 q.1)
          (λ e. Unit) (resume u py thread d w) (λ result. ok (output result))
          (resume-IsLawfulRun thread d w fresh) (λ q h. h);
  }
