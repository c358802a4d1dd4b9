-- ===== src/Reviewer/Nodes/Reextraction.antt =====
-- workflows/reviewer_workflow/nodes/targeted_reextraction.py
use hungrx_agent.Prelude.{Option, some, List, is_empty, if◌then◌else◌}
use hungrx_agent.Text.{Text, Unicode}
use hungrx_agent.Schema.Menu.{Uuid}
use hungrx_agent.Schema.Restaurant.{Restaurant}
use hungrx_agent.Review.Rows.{
  Source, SourceSnapshot, Database, NodeMessage, inputs_required, capture_failed, nothing_captured,
  no_text_material, ai_call_failed, agent_run_trigger, ai_extraction, AuditAction, Result, ok,
  ◌>>=◌,
}
use hungrx_agent.Review.State.{targeted_reextraction}
use hungrx_agent.Review.Nodes.{Pydantic, fail_run, log_run}
use hungrx_agent.Extraction.Extractor.{Extractor, system_prompt}
use hungrx_agent.Reviewer.State.{ReviewerState, no_keys, error_keys}
use hungrx_agent.Extraction.{Asked, answered, failed_with}
use hungrx_agent.Extraction.Chunked.{ChunkedResult, run_chunked_extraction}
use hungrx_agent.Extraction.Mapping.{map_onto_current}
use hungrx_agent.Extraction.Capture.{recapture_source_material}
use hungrx_agent.Extraction.Material.{read_text_materials, build_user_content}

module _ {J : Type 0} where
  unfoldable pub extraction_failure :
      AuditAction → NodeMessage → Option Uuid → Database J → ReviewerState J × Database J
  unfolding log_run
  extraction_failure action message run_id db =
      (error_keys targeted_reextraction message, fail_run run_id message (log_run action run_id db))

module _ {J : Type 0} (u : Unicode) (py : Pydantic J) (ex : Extractor) where
  unfoldable pub map_answer :
      Restaurant
      → List SourceSnapshot
      → Option Uuid
      → Database J
      → Asked ChunkedResult
      → Result (ReviewerState J × Database J)
  unfolding log_run
  map_answer r snapshots run_id db (failed_with error) =
      ok (extraction_failure ai_extraction (ai_call_failed r.id error) run_id db)
  map_answer r snapshots run_id db (answered result) =
      map_onto_current u db.next_id result.output r >>= λ mapped. ok (
        record no_keys {
          reextraction_snapshots = some snapshots;
          reextracted_structured_json = some (py.model_dump mapped.0);
          reextraction_source_refs = some mapped.1;
        },
        log_run ai_extraction run_id (record db { next_id = mapped.2 }),
      )

  unfoldable pub ask_provider :
      Restaurant
      → List SourceSnapshot
      → Option Uuid
      → Database J
      → List (SourceSnapshot × Text)
      → Result (ReviewerState J × Database J)
  unfolding run_chunked_extraction build_user_content
  ask_provider r snapshots run_id db materials =
      if is_empty materials
      then ok (error_keys targeted_reextraction no_text_material, db)
      else map_answer r snapshots run_id db (
          run_chunked_extraction ex.provider system_prompt
            (build_user_content ex.show_id materials))

  unfoldable pub extract_captured :
      Source
      → Restaurant
      → Option Uuid
      → Database J
      → Asked (List SourceSnapshot)
      → Result (ReviewerState J × Database J)
  unfolding read_text_materials
  extract_captured source r run_id db (failed_with error) =
      ok (extraction_failure agent_run_trigger (capture_failed source.id error) run_id db)
  extract_captured source r run_id db (answered snapshots) =
      if is_empty snapshots
      then ok (error_keys targeted_reextraction (nothing_captured source.id), db)
      else (read_text_materials ex.read_text snapshots >>= ask_provider r snapshots run_id db)

  unfoldable pub reextract_given :
      Option Source
      → Option Restaurant
      → Option Uuid
      → Database J
      → Result (ReviewerState J × Database J)
  unfolding recapture_source_material
  reextract_given (some source) (some r) run_id db =
      extract_captured source r run_id db (recapture_source_material u ex.hostname ex.pages source)
  reextract_given _ _ run_id db = ok (error_keys targeted_reextraction inputs_required, db)

  unfoldable pub targeted_reextraction_node :
      ReviewerState J → Database J → Result (ReviewerState J × Database J)
  targeted_reextraction_node state db =
      reextract_given state.source state.restaurant state.agent_run_id db
