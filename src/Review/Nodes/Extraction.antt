-- ===== src/Review/Nodes/Extraction.antt =====
-- workflows/collector_workflow/nodes/extraction.py: the node. The state's `source_snapshot` is the first of its
-- `source_snapshots`, and is not kept apart.
use hungrx_agent.Prelude.{Option, some, List, [], ◌∷◌}
use hungrx_agent.Text.{Text, Unicode}
use hungrx_agent.Schema.Menu.{Uuid}
use hungrx_agent.Review.Rows.{
  Source, SourceSnapshot, Database, inputs_required, capture_failed, nothing_captured,
  agent_run_trigger,
}
use hungrx_agent.Review.State.{CollectorState, StateUpdate, no_update, error_update, extraction}
use hungrx_agent.Review.Nodes.{fail_run, log_run}
use hungrx_agent.Extraction.{Asked, answered, failed_with}
use hungrx_agent.Extraction.Capture.{capture_source_material}
use hungrx_agent.Extraction.Extractor.{Extractor}

module _ {J : Type 0} where
  unfoldable pub record_capture :
      Source → Option Uuid → Database J → Asked (List SourceSnapshot) → StateUpdate J × Database J
  unfolding log_run fail_run
  record_capture source run_id db (failed_with error) =
      let message = capture_failed source.id error in
      (
        error_update extraction message,
        fail_run run_id message (log_run agent_run_trigger run_id db),
      )
  record_capture source run_id db (answered []) =
      (error_update extraction (nothing_captured source.id), db)
  record_capture source run_id db (answered (s ∷ snapshots)) =
      (record no_update { source_snapshots = some (s ∷ snapshots) }, db)

module _ {J : Type 0} (u : Unicode) (ex : Extractor) where
  -- An empty URL counts as none.
  unfoldable pub capture_given :
      Option Source
      → Option Text
      → Option Text
      → Option Uuid
      → Database J
      → StateUpdate J × Database J
  unfolding record_capture capture_source_material
  capture_given (some source) (some (c ∷ source_url)) nutrition_url run_id db =
      record_capture source run_id db
        (capture_source_material u ex.hostname ex.pages source (c ∷ source_url) nutrition_url)
  capture_given _ _ nutrition_url run_id db = (error_update extraction inputs_required, db)

  unfoldable pub extraction_node : CollectorState J → Database J → StateUpdate J × Database J
  extraction_node state db =
      capture_given state.source state.source_url state.nutrition_url state.agent_run_id db
