-- ===== src/Review/Threads.antt =====
-- workflows/collector_workflow/graph.py: under which thread a paused run can be resumed. The change is
-- filed under the run's id, and apps/worker/app/jobs/collector_workflow.py starts the graph under a
-- thread id of its own.
use mathlib.Core.Path.{subst}
use hungrx_agent.Prelude.{
  ◌≡◌, refl, ap, sym, ◌∙◌, Bool, Option, some, List, ◌∷◌, true, false, if◌then◌else◌, is_empty,
  ==_self,
}
use hungrx_agent.Text.{Unicode}
use hungrx_agent.Schema.Menu.{Uuid}
use hungrx_agent.Review.Rows.{Database, Result, ok, raised, Gives, Gives-map, ◌>>=◌}
use hungrx_agent.Review.State.{CollectorState, StateUpdate, human_review, publish, merge}
use hungrx_agent.Review.Nodes.{Pydantic}
use hungrx_agent.Review.Nodes.DeterministicValidation.{deterministic_validation_node}
use hungrx_agent.Review.Nodes.HumanReview.{
  Decision, reject, first_entry, resumed, NodeResult, paused, returned, human_review_node,
  apply_decision, decision_update,
}
use hungrx_agent.Review.Nodes.Publish.{has_approval}
use hungrx_agent.Review.Replay.{IsPause, human_review_node_pauses}
use hungrx_agent.Review.Graph.{
  to, end, Checkpoint, paused_at, ended_at, World, route_if_no_errors, route_after_human_review,
  find_checkpoint, state_of, save, follow, after_human_review, run_human_review, after_validation,
  run_from_validation, continue, resume,
}
use hungrx_agent.Review.Collector.{follow_lem}
use hungrx_agent.Review.Collector.Steps.{Ended}

module _ {J : Type 0} (u : Unicode) (py : Pydantic J) where
  -- A run that paused did so in the review node.
  abbrev PausedBy : Checkpoint J × Database J → Type 0
  PausedBy (paused_at state, db') =
      (db : Database J) × (human_review_node first_entry state db ≡ ok (paused db'))
  PausedBy (ended_at state, db') = Unit

  Ended-PausedBy : (db : Database J) (p : Checkpoint J × Database J) → Ended db p → PausedBy p
  Ended-PausedBy db (paused_at state, db') h = absurd h
  Ended-PausedBy db (ended_at state, db') h = tt

  review_result :
      (state : CollectorState J) (db : Database J) (r : Result (NodeResult J))
      → human_review_node first_entry state db ≡ r
      → Gives PausedBy (λ e. Unit) (r >>= after_human_review u py state)
  unfolding after_human_review route_after_human_review
  review_result state db (ok (paused db')) h = (db, h)
  review_result state db (ok (returned update db')) h =
      let merged = merge state update in
      Gives-map _ _ _ _
        (follow u py (if has_approval merged.human_approval_status then to publish else end) merged
          db')
        (λ p i. Ended-PausedBy db' p i.0) (λ e i. tt) (follow_lem u py merged db' _ refl)
  review_result state db (raised e) h = tt

  after_validation_lem :
      (clean : Bool) (state : CollectorState J) (db : Database J)
      → Gives PausedBy
          (λ e. Unit)
          (after_validation u py (if clean then to human_review else end) state db)
  unfolding after_validation run_human_review
  after_validation_lem true state db = review_result state db _ refl
  after_validation_lem false state db = tt

  run_from_validation_lem :
      (state : CollectorState J) (db : Database J)
      → Gives PausedBy (λ e. Unit) (run_from_validation u py state db)
  unfolding run_from_validation route_if_no_errors
  run_from_validation_lem state db =
      let (update, logged) = deterministic_validation_node u py state db in
      after_validation_lem (is_empty (merge state update).errors) (merge state update) logged

  record IsStarted (thread : Uuid) (w : World J) (s : CollectorState J) (w' : World J)
      : Type 0 where
    checkpoint : Checkpoint J
    returned_state : state_of checkpoint ≡ s
    checkpoints : w'.checkpoints ≡ (thread, checkpoint) ∷ w.checkpoints
    paused_by : PausedBy (checkpoint, w'.database)

  started :
      (thread : Uuid) (w : World J) (s : CollectorState J) (w' : World J)
      (r : Result (Checkpoint J × Database J))
      → Gives PausedBy (λ e. Unit) r
      → (r >>= λ reached. ok (save thread w reached)) ≡ ok (s, w')
      → IsStarted thread w s w'
  unfolding save
  started thread w s w' (ok (c, db)) h e =
      let same : record w { database = db; checkpoints = (thread, c) ∷ w.checkpoints } ≡ w' =
        cc e in
      record {
        checkpoint = c;
        returned_state = cc e;
        checkpoints = ap (λ (x : World J). x.checkpoints) (sym same);
        paused_by = subst (λ (x : World J). PausedBy (c, x.database)) same h;
      }
  started thread w s w' (raised f) h e = cc e

  start_lem :
      (thread : Uuid) (state s : CollectorState J) (w w' : World J)
      → (run_from_validation u py state w.database >>= λ reached. ok (save thread w reached))
        ≡ ok (s, w')
      → IsStarted thread w s w'
  start_lem thread state s w w' h =
      started thread w s w' (run_from_validation u py state w.database)
        (run_from_validation_lem state w.database) h

  -- What a pause under the run's own thread allows.
  pub record IsResumable (run_id : Uuid) (s : CollectorState J) (w : World J) : Type 0 where
    pub before : Database J
    pub pause : IsPause s before w.database
    pub resumed_with :
        (d : Decision J)
        → let merged = merge s (apply_decision (some d) pause.row.id) in
          resume u py run_id d w ≡ (
            follow u py (route_after_human_review merged) merged w.database >>= λ reached.
            ok (save run_id w reached))
    pub rejected_with :
        (edited : Option J)
        → let merged = merge s (
            apply_decision
              (some (record { action = reject; edited_structured_json = edited }))
              pause.row.id) in
          resume u py run_id (record { action = reject; edited_structured_json = edited }) w
          ≡ ok (merged, record w { checkpoints = (run_id, ended_at merged) ∷ w.checkpoints })

  resumed_step :
      (unknown : Result (CollectorState J)) (s : CollectorState J) (db : Database J)
      (d : Decision J) (update : StateUpdate J)
      → human_review_node (resumed (some d)) s db ≡ ok (returned update db)
      → continue u py unknown (some (paused_at s)) d db
        ≡ follow u py (route_after_human_review (merge s update)) (merge s update) db
  unfolding continue run_human_review after_human_review
  resumed_step unknown s db d update h = ap (λ r. r >>= after_human_review u py s) h

  own_checkpoint :
      (run_id : Uuid) (c : Checkpoint J) (s : CollectorState J) (rest : List (Uuid × Checkpoint J))
      → find_checkpoint run_id ((run_id, c) ∷ rest) ≡ some (paused_at s)
      → c ≡ paused_at s
  unfolding find_checkpoint
  own_checkpoint run_id c s rest h = cc (rw (==_self run_id) at h)

  rejection_ends :
      (run_id : Uuid) (s : CollectorState J) (w : World J) (edited : Option J) (id : Uuid)
      → let merged = merge s (
          apply_decision (some (record { action = reject; edited_structured_json = edited })) id) in
        (follow u py (route_after_human_review merged) merged w.database >>= λ reached.
        ok (save run_id w reached))
        ≡ ok (merged, record w { checkpoints = (run_id, ended_at merged) ∷ w.checkpoints })
  unfolding follow route_after_human_review apply_decision decision_update save state_of
  rejection_ends run_id s w edited id = refl

  resumable :
      (run_id : Uuid) (s : CollectorState J) (w : World J)
      → find_checkpoint run_id w.checkpoints ≡ some (paused_at s)
      → (before : Database J) (p : IsPause s before w.database) → IsResumable run_id s w
  unfolding resume
  resumable run_id s w h before p =
      let step : (d : Decision J) → _ = λ d.
        ap
          (λ c.
            continue u py w.unknown_thread c d w.database >>= λ reached. ok (save run_id w reached))
          h
        ∙ ap (λ r. r >>= λ reached. ok (save run_id w reached))
            (resumed_step w.unknown_thread s w.database d (apply_decision (some d) p.row.id)
              (p.replayed (some d))) in
      record {
        before = before;
        pause = p;
        resumed_with = step;
        rejected_with = λ edited.
            step (record { action = reject; edited_structured_json = edited })
            ∙ rejection_ends run_id s w edited p.row.id;
      }

  -- When a run comes to the validation under a thread that is its own id and pauses, exactly one change is filed for it. To resume it
  -- with a decision files no second one: the decision is applied to that change, and the run goes on to
  -- publish or ends as the route says. With a rejection it ends, and the database is as it was.
  pub resume_own_thread :
      (run_id : Uuid) (state s : CollectorState J) (w w' : World J)
      → (run_from_validation u py state w.database >>= λ reached. ok (save run_id w reached))
        ≡ ok (s, w')
      → find_checkpoint run_id w'.checkpoints ≡ some (paused_at s)
      → IsResumable run_id s w'
  resume_own_thread run_id state s w w' e h =
      let i = start_lem run_id state s w w' e in
      let c = own_checkpoint run_id i.checkpoint s w.checkpoints (rw i.checkpoints at h) in
      let (before, paused_there) = subst (λ k. PausedBy (k, w'.database)) c i.paused_by in
      resumable run_id s w' h before (human_review_node_pauses s before w'.database paused_there)
