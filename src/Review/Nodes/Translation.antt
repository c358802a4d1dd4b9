-- ===== src/Review/Nodes/Translation.antt =====
-- workflows/collector_workflow/nodes/multimodal_translation.py: the node. Material that the storage does not
-- give raises; that there is none counts as a failure of the provider.
use hungrx_agent.Prelude.{Option, some, List, [], ◌∷◌}
use hungrx_agent.Text.{Text, text, Unicode}
use hungrx_agent.Schema.Menu.{Uuid}
use hungrx_agent.Schema.Restaurant.{Restaurant}
use hungrx_agent.Review.Rows.{
  SourceSnapshot, Database, inputs_required, ai_call_failed, ai_extraction, Result, ok, ◌>>=◌,
}
use hungrx_agent.Review.State.{
  CollectorState, StateUpdate, no_update, error_update, multimodal_translation,
}
use hungrx_agent.Review.Nodes.{Pydantic, fail_run, log_run}
use hungrx_agent.Extraction.{Asked, answered, failed_with}
use hungrx_agent.Extraction.Chunked.{ChunkedResult, run_chunked_extraction}
use hungrx_agent.Extraction.Mapping.{map_to_restaurant}
use hungrx_agent.Extraction.Material.{read_text_materials, build_user_content}
use hungrx_agent.Extraction.Extractor.{Extractor, system_prompt}

module _ {J : Type 0} (u : Unicode) (py : Pydantic J) (ex : Extractor) where
  unfoldable pub record_translation :
      Restaurant
      → Option Uuid
      → Database J
      → Asked ChunkedResult
      → Result (StateUpdate J × Database J)
  unfolding log_run fail_run map_to_restaurant
  record_translation r run_id db (failed_with error) =
      let message = ai_call_failed r.id error in
      ok (
        error_update multimodal_translation message,
        fail_run run_id message (log_run ai_extraction run_id db),
      )
  record_translation r run_id db (answered result) =
      map_to_restaurant u db.next_id result.output r >>= λ mapped. ok (
        record no_update {
          extraction_result = some (record {
            raw_payload = result.output;
            model_name = result.model_name;
            confidence = result.overall_confidence;
          });
          structured_json = some (py.model_dump mapped.0);
        },
        log_run ai_extraction run_id (record db { next_id = mapped.1 }),
      )

  unfoldable pub ask_for_menus : List (SourceSnapshot × Text) → Asked ChunkedResult
  unfolding run_chunked_extraction build_user_content
  ask_for_menus [] = failed_with (text "no text-readable source material available to translate")
  ask_for_menus (m ∷ materials) =
      run_chunked_extraction ex.provider system_prompt
        (build_user_content ex.show_id (m ∷ materials))

  unfoldable pub translate_given :
      Option Restaurant
      → Option (List SourceSnapshot)
      → Option Uuid
      → Database J
      → Result (StateUpdate J × Database J)
  unfolding record_translation ask_for_menus read_text_materials
  translate_given (some r) (some (s ∷ snapshots)) run_id db =
      read_text_materials ex.read_text (s ∷ snapshots) >>= λ materials.
      record_translation r run_id db (ask_for_menus materials)
  translate_given _ _ run_id db = ok (error_update multimodal_translation inputs_required, db)

  unfoldable pub multimodal_translation_node :
      CollectorState J → Database J → Result (StateUpdate J × Database J)
  multimodal_translation_node state db =
      translate_given state.restaurant state.source_snapshots state.agent_run_id db
