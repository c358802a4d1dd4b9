-- ===== src/Reviewer/Repositories.antt =====
-- database/repositories/source_repository.py, source_snapshot_repository.py and the rest of
-- agent_run_repository.py. The rows of a table stand newest first, as the source's queries order them.
use hungrx_agent.Prelude.{
  ◌+◌, Bool, true, false, ◌&&◌, Option, none, some, List, [], ◌∷◌, ◌==◌, if◌then◌else◌,
}
use hungrx_agent.Schema.Menu.{Uuid}
use hungrx_agent.Review.Rows.{
  Source, SourceType, restaurant_website, SourceSnapshot, AgentWorkflowType, running, AgentRun,
  RunMetrics, no_metrics, Database,
}
use hungrx_agent.Review.State.{or_else}

abbrev pub is_website : SourceType → Bool
is_website restaurant_website = true
is_website _ = false

unfoldable pub verified_website : Uuid → List Source → Option Source
verified_website restaurant_id [] = none
verified_website restaurant_id (s ∷ rest) =
    let later = verified_website restaurant_id rest in
    if (s.restaurant_id == restaurant_id) && (is_website s.source_type && s.is_verified_domain)
    then some s
    else later

unfoldable pub latest_for_source : Uuid → List SourceSnapshot → Option SourceSnapshot
latest_for_source source_id [] = none
latest_for_source source_id (s ∷ rest) =
    let later = latest_for_source source_id rest in
    if s.source_id == source_id then some s else later

-- `{**record.metrics, **metrics}`
abbrev pub merge_metrics : RunMetrics → RunMetrics → RunMetrics
merge_metrics old new = record {
  content_length_bytes = or_else new.content_length_bytes old.content_length_bytes;
  hash_changed = or_else new.hash_changed old.hash_changed;
  outcome = or_else new.outcome old.outcome;
}

unfoldable pub measure_run : Uuid → RunMetrics → List AgentRun → List AgentRun
measure_run id metrics [] = []
measure_run id metrics (run ∷ runs) =
    let later = measure_run id metrics runs in
    if run.id == id
    then record run { metrics = merge_metrics run.metrics metrics } ∷ runs
    else run ∷ later

module _ {J : Type 0} where
  -- `SourceRepository.get_verified_website_for_restaurant`
  unfoldable pub get_verified_website_for_restaurant : Uuid → Database J → Option Source
  get_verified_website_for_restaurant restaurant_id db = verified_website restaurant_id db.sources

  -- `SourceSnapshotRepository.get_latest_for_source`
  unfoldable pub get_latest_for_source : Uuid → Database J → Option SourceSnapshot
  get_latest_for_source source_id db = latest_for_source source_id db.snapshots

  -- `SourceSnapshotRepository.create`
  unfoldable pub create_snapshot : SourceSnapshot → Database J → Database J
  create_snapshot snapshot db = record db { snapshots = snapshot ∷ db.snapshots }

  -- `AgentRunRepository.create`: the run's id, and the database
  unfoldable pub create_run : AgentWorkflowType → Option Uuid → Database J → Uuid × Database J
  create_run workflow_type restaurant_id db =
      let run : AgentRun = record {
        id = db.next_id;
        workflow_type = workflow_type;
        restaurant_id = restaurant_id;
        status = running;
        error_message = none;
        metrics = no_metrics;
      } in
      (db.next_id, record db { agent_runs = run ∷ db.agent_runs; next_id = db.next_id + 1 })

  -- `AgentRunRepository.update_metrics`
  unfoldable pub update_metrics : Uuid → RunMetrics → Database J → Database J
  update_metrics id metrics db = record db { agent_runs = measure_run id metrics db.agent_runs }
