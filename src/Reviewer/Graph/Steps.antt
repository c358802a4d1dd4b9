-- ===== src/Reviewer/Graph/Steps.antt =====
-- workflows/reviewer_workflow: what the nodes before and after the review leave in the database.
use hungrx_agent.Prelude.{
  ◌≡◌, refl, Bool, Bool-cases, inl, inr, true, false, Option, none, some, List, is_empty, not, ◌||◌,
  if◌then◌else◌,
}
use hungrx_agent.Text.{Text, Unicode}
use hungrx_agent.Extraction.Extractor.{Extractor}
use hungrx_agent.Review.Nodes.{log_run}
use hungrx_agent.Review.Kept.{
  any_result, IsUntouched, IsUntouched-trans, same, log_run-IsUntouched, fail_run-IsUntouched,
}
use hungrx_agent.Schema.Menu.{Uuid}
use hungrx_agent.Schema.Restaurant.{Restaurant}
use hungrx_agent.Validation.Result.{ValidationOutcome, is_valid}
use hungrx_agent.Validation.SchemaCheck.{accepted, refused}
use hungrx_agent.Review.Rows.{
  reviewer, agent_run_trigger, errors_found, Source, SourceSnapshot, Database, NodeMessage,
  AuditAction, Result, Gives, Gives-bind,
}
use hungrx_agent.Review.Repositories.{log, mark_failed, mark_succeeded}
use hungrx_agent.Review.Nodes.{Pydantic}
use hungrx_agent.Reviewer.State.{ReviewerState}
use hungrx_agent.Reviewer.Repositories.{create_run, create_snapshot, update_metrics}
use hungrx_agent.Reviewer.Nodes.HashPolling.{
  Fetcher, Fetched, fetched, fetch_error, active_source, hash_differs, poll_failure, poll_success,
  close_unchanged, poll_fetched, poll_source, poll_restaurant, temporal_hash_polling_node,
}
use hungrx_agent.Reviewer.Nodes.Reextraction.{
  extraction_failure, map_answer, ask_provider, extract_captured, reextract_given,
  targeted_reextraction_node,
}
use hungrx_agent.Reviewer.Nodes.DeltaGeneration.{
  Differ, delta_of_parsed, delta_of_production, delta_of_given, json_delta_generation_node,
}
use hungrx_agent.Reviewer.Nodes.DeltaValidation.{
  log_delta_outcome, validate_delta_given, delta_validation_node,
}
use hungrx_agent.Extraction.{Asked, answered, failed_with}
use hungrx_agent.Extraction.Chunked.{ChunkedResult}
use hungrx_agent.Reviewer.Repositories.{get_verified_website_for_restaurant, get_latest_for_source}
use hungrx_agent.Extraction.Mapping.{map_onto_current}
use hungrx_agent.Extraction.Material.{read_text_materials}

module _ {J : Type 0} where
  -- A node's update and database: nothing is decided, and those tables are as they were.
  abbrev pub IsQuiet : Database J → ReviewerState J × Database J → Type 0
  IsQuiet db (update, db') = IsUntouched db db' × (update.human_approval_status ≡ none)

  close_unchanged-IsUntouched :
      (differs : Bool) (run_id : Uuid) (db : Database J)
      → IsUntouched db (close_unchanged differs run_id db)
  unfolding close_unchanged mark_succeeded log
  close_unchanged-IsUntouched true run_id db = same db
  close_unchanged-IsUntouched false run_id db = record {
    changes = refl;
    approvals = refl;
    restaurants = refl;
  }

  pub poll_source-IsQuiet :
      (fetch : Fetcher) (id : Uuid) (source : Option Source) (db : Database J)
      → IsQuiet db (poll_source fetch id source db)
  unfolding poll_source poll_fetched poll_failure poll_success mark_failed update_metrics log
      create_run create_snapshot
  poll_source-IsQuiet fetch id none db = (same db, refl)
  poll_source-IsQuiet fetch id (some source) db = by_fetch (fetch source.id source.url)
    where
      by_fetch :
          (got : Fetched)
          → IsQuiet db (
              poll_fetched source
                (create_run reviewer (some id) db).0
                got
                (create_run reviewer (some id) db).1)
      by_fetch (fetch_error error) =
          (record { changes = refl; approvals = refl; restaurants = refl }, refl)
      by_fetch (fetched fresh) =
          let kept =
            close_unchanged-IsUntouched
              (hash_differs (get_latest_for_source source.id (create_run reviewer (some id) db).1)
                fresh)
              _ _ in
          (
            record {
              changes = kept.changes;
              approvals = kept.approvals;
              restaurants = kept.restaurants;
            },
            refl,
          )

  pub polling-IsQuiet :
      (fetch : Fetcher) (state : ReviewerState J) (db : Database J)
      → IsQuiet db (temporal_hash_polling_node fetch state db)
  unfolding temporal_hash_polling_node poll_restaurant
  polling-IsQuiet fetch state db = by_restaurant state.restaurant
    where
      by_restaurant : (r : Option Restaurant) → IsQuiet db (poll_restaurant fetch r state.source db)
      by_restaurant none = (same db, refl)
      by_restaurant (some r) =
          poll_source-IsQuiet fetch r.id
            (active_source (get_verified_website_for_restaurant r.id db) state.source) db

  extraction_failure-IsQuiet :
      (action : AuditAction) (message : NodeMessage) (run_id : Option Uuid) (db : Database J)
      → IsQuiet db (extraction_failure action message run_id db)
  unfolding extraction_failure
  extraction_failure-IsQuiet action message run_id db = (
    IsUntouched-trans db (log_run action run_id db) _ (log_run-IsUntouched action run_id db)
        (fail_run-IsUntouched run_id message _),
    refl,
  )

module _ {J : Type 0} (u : Unicode) (py : Pydantic J) where
  module _ (ex : Extractor) where
    map_answer-IsQuiet :
        (r : Restaurant) (snapshots : List SourceSnapshot) (run_id : Option Uuid) (db : Database J)
        (asked : Asked ChunkedResult)
        → Gives (IsQuiet db) (λ e. Unit) (map_answer u py ex r snapshots run_id db asked)
    unfolding map_answer
    map_answer-IsQuiet r snapshots run_id db (failed_with error) =
        extraction_failure-IsQuiet _ _ run_id db
    map_answer-IsQuiet r snapshots run_id db (answered result) =
        Gives-bind (λ m. Unit) (IsQuiet db) (λ e. Unit)
          (map_onto_current u db.next_id result.output r) _
          (any_result (map_onto_current u db.next_id result.output r))
          (λ mapped t.
            let kept = log_run-IsUntouched _ run_id (record db { next_id = mapped.2 }) in
            (
              record {
                changes = kept.changes;
                approvals = kept.approvals;
                restaurants = kept.restaurants;
              },
              refl,
            ))

    ask_provider-IsQuiet :
        (r : Restaurant) (snapshots : List SourceSnapshot) (run_id : Option Uuid) (db : Database J)
        (materials : List (SourceSnapshot × Text))
        → Gives (IsQuiet db) (λ e. Unit) (ask_provider u py ex r snapshots run_id db materials)
    unfolding ask_provider
    ask_provider-IsQuiet r snapshots run_id db materials = elim (Bool-cases (is_empty materials)) [
      | inl e ↦ rw e (same db, refl)
      | inr e ↦ rw e (map_answer-IsQuiet r snapshots run_id db _)
    ]

    extract_captured-IsQuiet :
        (source : Source) (r : Restaurant) (run_id : Option Uuid) (db : Database J)
        (captured : Asked (List SourceSnapshot))
        → Gives (IsQuiet db) (λ e. Unit) (extract_captured u py ex source r run_id db captured)
    unfolding extract_captured
    extract_captured-IsQuiet source r run_id db (failed_with error) =
        extraction_failure-IsQuiet _ _ run_id db
    extract_captured-IsQuiet source r run_id db (answered snapshots) =
        elim (Bool-cases (is_empty snapshots)) [
          | inl e ↦ rw e (same db, refl)
          | inr e ↦ rw e (
              Gives-bind (λ m. Unit) (IsQuiet db) (λ e. Unit)
                (read_text_materials ex.read_text snapshots) _
                (any_result (read_text_materials ex.read_text snapshots))
                (λ materials t. ask_provider-IsQuiet r snapshots run_id db materials))
        ]

    pub reextraction-IsQuiet :
        (state : ReviewerState J) (db : Database J)
        → Gives (IsQuiet db) (λ e. Unit) (targeted_reextraction_node u py ex state db)
    unfolding targeted_reextraction_node reextract_given
    reextraction-IsQuiet state db = by_inputs state.source state.restaurant
      where
        by_inputs :
            (source : Option Source) (r : Option Restaurant)
            → Gives
                (IsQuiet db)
                (λ e. Unit)
                (reextract_given u py ex source r state.agent_run_id db)
        by_inputs (some source) (some r) = extract_captured-IsQuiet source r state.agent_run_id db _
        by_inputs none r = (same db, refl)
        by_inputs (some source) none = (same db, refl)

  pub delta_generation_undecided :
      (differ : Differ) (state : ReviewerState J) (db : Database J)
      → Gives
          (λ (update : ReviewerState J). update.human_approval_status ≡ none)
          (λ e. Unit)
          (json_delta_generation_node py differ state db)
  unfolding json_delta_generation_node delta_of_given delta_of_production delta_of_parsed
  delta_generation_undecided differ state db =
      by_inputs state.restaurant state.reextracted_structured_json
    where
      Undecided : Result (ReviewerState J) → Type 0
      Undecided =
          Gives (λ (update : ReviewerState J). update.human_approval_status ≡ none) (λ e. Unit)

      by_parsed :
          (current : Restaurant) (p : _)
          → Undecided (delta_of_parsed py differ current state.reextraction_source_refs p)
      by_parsed current (accepted r) = refl
      by_parsed current (refused complaints) = tt

      by_production :
          (id : Uuid) (found : Option Restaurant) (json : J)
          → Undecided (delta_of_production py differ id found state.reextraction_source_refs json)
      by_production id none json = refl
      by_production id (some current) json = by_parsed current (py.model_validate json)

      by_inputs :
          (r : Option Restaurant) (json : Option J)
          → Undecided (delta_of_given py differ r json state.reextraction_source_refs db)
      by_inputs (some r) (some json) = by_production r.id _ json
      by_inputs none json = refl
      by_inputs (some r) none = refl

  log_delta_outcome-IsUntouched :
      (run_id : Option Uuid) (outcome : ValidationOutcome) (db : Database J)
      → IsUntouched db (log_delta_outcome run_id outcome db)
  unfolding log_delta_outcome log mark_failed
  log_delta_outcome-IsUntouched none outcome db = same db
  log_delta_outcome-IsUntouched (some id) outcome db =
      by_tests (not (is_valid outcome) || not (is_empty outcome.corrected_fields))
        (is_valid outcome)
    where
      by_tests :
          (b c : Bool)
          → IsUntouched db (
              if b
              then (if c
                  then log agent_run_trigger id none none none db
                  else mark_failed id
                      (errors_found outcome.errors)
                      (log agent_run_trigger id none none none db))
              else db)
      by_tests false c = same db
      by_tests true true = record { changes = refl; approvals = refl; restaurants = refl }
      by_tests true false = record { changes = refl; approvals = refl; restaurants = refl }

  pub delta_validation-IsQuiet :
      (state : ReviewerState J) (db : Database J) → IsQuiet db (delta_validation_node u py state db)
  unfolding delta_validation_node validate_delta_given
  delta_validation-IsQuiet state db = by_json state.reextracted_structured_json
    where
      by_json :
          (json : Option J)
          → IsQuiet db (validate_delta_given u py json state.delta state.agent_run_id db)
      by_json none = (same db, refl)
      by_json (some json) = (log_delta_outcome-IsUntouched state.agent_run_id _ db, refl)
