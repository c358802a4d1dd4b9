-- ===== src/Review/Graph.antt =====
-- workflows/collector_workflow/graph.py: the routes, the run of a new state, from the first node or from the
-- validation on, and the resumption of a paused run. LangGraph's part is written out: it merges a node's
-- update into the state and keeps, for each thread, the state at which the thread paused or ended.
use hungrx_agent.Prelude.{Option, none, some, List, [], ◌∷◌, is_empty, ◌==◌, if◌then◌else◌}
use hungrx_agent.Text.{Unicode}
use hungrx_agent.Schema.Menu.{Uuid}
use hungrx_agent.Review.Rows.{Database, Result, ok, ◌>>=◌}
use hungrx_agent.Review.State.{
  CollectorState, Node, extraction, multimodal_translation, deterministic_validation, human_review,
  publish, merge,
}
use hungrx_agent.Schema.Restaurant.{Restaurant}
use hungrx_agent.Crawler.Guard.{Network}
use hungrx_agent.Sources.Results.{EntityCandidate}
use hungrx_agent.Sources.Urls.{Urls}
use hungrx_agent.Extraction.Extractor.{Extractor}
use hungrx_agent.Review.Nodes.SourceAuthority.{source_authority_node}
use hungrx_agent.Review.Nodes.Extraction.{extraction_node}
use hungrx_agent.Review.Nodes.Translation.{multimodal_translation_node}
use hungrx_agent.Reviewer.State.{ReviewerState}
use hungrx_agent.Review.Nodes.{Pydantic}
use hungrx_agent.Review.Nodes.DeterministicValidation.{deterministic_validation_node}
use hungrx_agent.Review.Nodes.HumanReview.{
  Decision, Entry, first_entry, resumed, NodeResult, paused, returned, human_review_node,
}
use hungrx_agent.Review.Nodes.Publish.{has_approval, publish_node}

-- A node, or `END`
pub data Route : Type 0 where
  to : Node → Route
  end : Route

pub data Checkpoint (J : Type 0) : Type 0 where
  paused_at ended_at : CollectorState J → Checkpoint J

-- A checkpoint of the reviewer's graph
pub data ReviewerCheckpoint (J : Type 0) : Type 0 where
  paused_review ended_review : ReviewerState J → ReviewerCheckpoint J

-- The database, the checkpoints of the threads of the two graphs, and the parameters for LangGraph
pub record World (J : Type 0) : Type 0 where
  pub database : Database J
  pub checkpoints : List (Uuid × Checkpoint J)
  pub reviews : List (Uuid × ReviewerCheckpoint J)
  -- What `ainvoke(Command(resume=…))` comes to on a thread of either graph that has no checkpoint: LangGraph
  -- has no node to go on with, and raises or returns some state.
  pub unknown_thread : Result (CollectorState J)
  pub unknown_review : Result (ReviewerState J)

-- The last checkpoint of the thread.
unfoldable pub find_checkpoint : {C : Type 0} → Uuid → List (Uuid × C) → Option C
find_checkpoint thread [] = none
find_checkpoint thread ((t, checkpoint) ∷ rest) =
    let earlier = find_checkpoint thread rest in if t == thread then some checkpoint else earlier

module _ {J : Type 0} where
  unfoldable pub route_if_no_errors : Node → CollectorState J → Route
  route_if_no_errors next_node state = if is_empty state.errors then to next_node else end

  unfoldable pub route_after_human_review : CollectorState J → Route
  route_after_human_review state =
      if has_approval state.human_approval_status then to publish else end

  unfoldable pub state_of : Checkpoint J → CollectorState J
  state_of (paused_at state) = state
  state_of (ended_at state) = state

  -- The state that `ainvoke` returns, and the world with the thread's new checkpoint.
  unfoldable pub save : Uuid → World J → Checkpoint J × Database J → CollectorState J × World J
  save thread world (checkpoint, db) = (
    state_of checkpoint,
    record world { database = db; checkpoints = (thread, checkpoint) ∷ world.checkpoints },
  )

module _ {J : Type 0} (u : Unicode) (py : Pydantic J) where
  unfoldable pub run_publish : CollectorState J → Database J → Result (Checkpoint J × Database J)
  run_publish state db = publish_node u py state db >>= λ (update, written).
      ok (ended_at (merge state update), written)

  unfoldable pub follow : Route → CollectorState J → Database J → Result (Checkpoint J × Database J)
  follow (to publish) state db = run_publish state db
  follow _ state db = ok (ended_at state, db)

  unfoldable pub after_human_review :
      CollectorState J → NodeResult J → Result (Checkpoint J × Database J)
  after_human_review state (paused db) = ok (paused_at state, db)
  after_human_review state (returned update db) =
      let merged = merge state update in follow (route_after_human_review merged) merged db

  unfoldable pub run_human_review :
      Entry J → CollectorState J → Database J → Result (Checkpoint J × Database J)
  run_human_review entry state db = human_review_node entry state db >>= after_human_review state

  unfoldable pub after_validation :
      Route → CollectorState J → Database J → Result (Checkpoint J × Database J)
  after_validation (to human_review) state db = run_human_review first_entry state db
  after_validation _ state db = ok (ended_at state, db)

  unfoldable pub run_from_validation :
      CollectorState J → Database J → Result (Checkpoint J × Database J)
  run_from_validation state db =
      let (update, logged) = deterministic_validation_node u py state db in
      let merged = merge state update in
      after_validation (route_if_no_errors human_review merged) merged logged

  -- A thread without a checkpoint runs no node. One that has ended runs none either.
  unfoldable pub continue :
      Result (CollectorState J)
      → Option (Checkpoint J)
      → Decision J
      → Database J
      → Result (Checkpoint J × Database J)
  continue unknown none decision db = unknown >>= λ state. ok (ended_at state, db)
  continue unknown (some (ended_at state)) decision db = ok (ended_at state, db)
  continue unknown (some (paused_at state)) decision db =
      run_human_review (resumed (some decision)) state db

  -- `graph.ainvoke(Command(resume=decision), {"configurable": {"thread_id": thread}})`
  unfoldable pub resume : Uuid → Decision J → World J → Result (CollectorState J × World J)
  resume thread decision world =
      continue world.unknown_thread (find_checkpoint thread world.checkpoints) decision
        world.database
      >>= λ reached. ok (save thread world reached)

  module _ (net : Network) (urls : Urls) (provider : Restaurant → List EntityCandidate)
      (ex : Extractor) where
    unfoldable pub after_translation :
        Route → CollectorState J → Database J → Result (Checkpoint J × Database J)
    after_translation (to deterministic_validation) state db = run_from_validation state db
    after_translation _ state db = ok (ended_at state, db)

    unfoldable pub run_translation :
        CollectorState J → Database J → Result (Checkpoint J × Database J)
    run_translation state db = multimodal_translation_node u py ex state db >>= λ (update, written).
        after_translation (route_if_no_errors deterministic_validation (merge state update))
          (merge state update) written

    unfoldable pub after_extraction :
        Route → CollectorState J → Database J → Result (Checkpoint J × Database J)
    after_extraction (to multimodal_translation) state db = run_translation state db
    after_extraction _ state db = ok (ended_at state, db)

    unfoldable pub after_source_authority :
        Route → CollectorState J → Database J → Result (Checkpoint J × Database J)
    after_source_authority (to extraction) state db =
        let (update, written) = extraction_node u ex state db in
        after_extraction (route_if_no_errors multimodal_translation (merge state update))
          (merge state update) written
    after_source_authority _ state db = ok (ended_at state, db)

    unfoldable pub run_from_source_authority :
        CollectorState J → Database J → Result (Checkpoint J × Database J)
    run_from_source_authority state db =
        source_authority_node u net urls provider state db >>= λ (update, written).
        after_source_authority (route_if_no_errors extraction (merge state update))
          (merge state update) written

    -- `graph.ainvoke(initial_state, {"configurable": {"thread_id": thread}})`
    unfoldable pub start_collecting :
        Uuid → CollectorState J → World J → Result (CollectorState J × World J)
    start_collecting thread state world =
        run_from_source_authority state world.database >>= λ reached. ok (save thread world reached)
