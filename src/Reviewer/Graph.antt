-- ===== src/Reviewer/Graph.antt =====
-- workflows/reviewer_workflow/graph.py, with LangGraph's part written out: it merges a node's update into the
-- state and keeps, for each thread, the state at which the thread paused or ended.
pub mod Steps
pub mod Reviewing
pub mod Publishing
pub mod Resumption
pub mod Start
pub mod Polling
use hungrx_agent.Prelude.{Bool, true, false, Option, none, some, List, ◌∷◌, if◌then◌else◌}
use hungrx_agent.Text.{Unicode}
use hungrx_agent.Json.{Json}
use hungrx_agent.Extraction.Extractor.{Extractor}
use hungrx_agent.Schema.Menu.{Uuid}
use hungrx_agent.Review.Rows.{Database, Result, ok, ◌>>=◌}
use hungrx_agent.Review.State.{Node, targeted_reextraction, publish}
use hungrx_agent.Review.Nodes.{Pydantic}
use hungrx_agent.Review.Nodes.HumanReview.{Decision, Entry, first_entry, resumed}
use hungrx_agent.Review.Nodes.Publish.{has_approval}
use hungrx_agent.Review.Graph.{
  Route, to, end, ReviewerCheckpoint, paused_review, ended_review, World, find_checkpoint,
}
use hungrx_agent.Review.Service.{GraphOutput, Workflow}
use hungrx_agent.Reviewer.State.{ReviewerState, merge_keys}
use hungrx_agent.Reviewer.Nodes.HashPolling.{Fetcher, temporal_hash_polling_node}
use hungrx_agent.Reviewer.Nodes.Reextraction.{targeted_reextraction_node}
use hungrx_agent.Reviewer.Nodes.DeltaGeneration.{Differ, json_delta_generation_node}
use hungrx_agent.Reviewer.Nodes.DeltaValidation.{delta_validation_node}
use hungrx_agent.Reviewer.Nodes.FinalSync.{
  SyncResult, sync_paused, sync_returned, human_final_sync_node,
}
use hungrx_agent.Reviewer.Nodes.Publish.{publish_update_node}

abbrev pub is_set_true : Option Bool → Bool
is_set_true none = false
is_set_true (some b) = b

module _ {J : Type 0} where
  -- `_route_after_hash_polling`
  unfoldable pub route_after_hash_polling : ReviewerState J → Route
  route_after_hash_polling state =
      if is_set_true state.hash_changed then to targeted_reextraction else end

  -- `_route_after_human_final_sync`
  unfoldable pub route_after_human_final_sync : ReviewerState J → Route
  route_after_human_final_sync state =
      if has_approval state.human_approval_status then to publish else end

  unfoldable pub review_state : ReviewerCheckpoint J → ReviewerState J
  review_state (paused_review state) = state
  review_state (ended_review state) = state

  -- The state that `ainvoke` returns, and the world with the thread's new checkpoint
  unfoldable pub save_review :
      Uuid → World J → ReviewerCheckpoint J × Database J → ReviewerState J × World J
  unfolding review_state
  save_review thread world (checkpoint, db) = (
    review_state checkpoint,
    record world { database = db; reviews = (thread, checkpoint) ∷ world.reviews },
  )

  unfoldable pub review_output : ReviewerState J × World J → GraphOutput × World J
  review_output (state, world) = (
    record { published_restaurant_id = state.published_restaurant_id; errors = state.errors },
    world,
  )

module _ {J : Type 0} (u : Unicode) (py : Pydantic J) (read_uuid : Json → Option Uuid) where
  unfoldable pub run_publish_update :
      ReviewerState J → Database J → Result (ReviewerCheckpoint J × Database J)
  run_publish_update state db = publish_update_node u py read_uuid state db >>= λ (update, written).
      ok (ended_review (merge_keys state update), written)

  unfoldable pub follow_sync :
      Route → ReviewerState J → Database J → Result (ReviewerCheckpoint J × Database J)
  follow_sync (to publish) state db = run_publish_update state db
  follow_sync _ state db = ok (ended_review state, db)

  unfoldable pub after_final_sync :
      ReviewerState J → SyncResult J → Result (ReviewerCheckpoint J × Database J)
  after_final_sync state (sync_paused db) = ok (paused_review state, db)
  after_final_sync state (sync_returned update db) =
      let merged = merge_keys state update in
      follow_sync (route_after_human_final_sync merged) merged db

  unfoldable pub run_final_sync :
      Entry J → ReviewerState J → Database J → Result (ReviewerCheckpoint J × Database J)
  run_final_sync entry state db = human_final_sync_node entry state db >>= after_final_sync state

  unfoldable pub continue_review :
      Result (ReviewerState J)
      → Option (ReviewerCheckpoint J)
      → Decision J
      → Database J
      → Result (ReviewerCheckpoint J × Database J)
  continue_review unknown none decision db = unknown >>= λ state. ok (ended_review state, db)
  continue_review unknown (some (ended_review state)) decision db = ok (ended_review state, db)
  continue_review unknown (some (paused_review state)) decision db =
      run_final_sync (resumed (some decision)) state db

  -- `graph.ainvoke(Command(resume=decision), {"configurable": {"thread_id": thread}})`
  unfoldable pub resume_update : Uuid → Decision J → World J → Result (ReviewerState J × World J)
  resume_update thread decision world =
      continue_review world.unknown_review (find_checkpoint thread world.reviews) decision
        world.database
      >>= λ reached. ok (save_review thread world reached)

  -- The reviewer's graph, as the review service resumes it
  unfoldable pub reviewer_graph : Workflow J
  unfolding review_output
  reviewer_graph = record {
    resume = λ thread decision world.
        resume_update thread decision world >>= λ result. ok (review_output result);
  }

  module _ (fetch : Fetcher) (ex : Extractor) (differ : Differ) where
    -- From the delta's generation on, after the re-extraction
    unfoldable pub run_from_delta :
        ReviewerState J → Database J → Result (ReviewerCheckpoint J × Database J)
    run_from_delta state db = json_delta_generation_node py differ state db >>= λ delta_update.
        let compared = merge_keys state delta_update in
        let (validation_update, logged) = delta_validation_node u py compared db in
        run_final_sync first_entry (merge_keys compared validation_update) logged

    unfoldable pub after_polling :
        Route → ReviewerState J → Database J → Result (ReviewerCheckpoint J × Database J)
    after_polling (to targeted_reextraction) state db =
        targeted_reextraction_node u py ex state db >>= λ (update, written).
        run_from_delta (merge_keys state update) written
    after_polling _ state db = ok (ended_review state, db)

    unfoldable pub run_from_polling :
        ReviewerState J → Database J → Result (ReviewerCheckpoint J × Database J)
    run_from_polling state db =
        let (update, written) = temporal_hash_polling_node fetch state db in
        let merged = merge_keys state update in
        after_polling (route_after_hash_polling merged) merged written

    -- `graph.ainvoke(initial_state, {"configurable": {"thread_id": thread}})`
    unfoldable pub start_review :
        Uuid → ReviewerState J → World J → Result (ReviewerState J × World J)
    start_review thread state world =
        run_from_polling state world.database >>= λ reached. ok (save_review thread world reached)
