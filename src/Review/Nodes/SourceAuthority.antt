-- ===== src/Review/Nodes/SourceAuthority.antt =====
-- workflows/collector_workflow/nodes/source_authority.py. The provider's candidates for a restaurant are the
-- argument `provider`.
use hungrx_agent.Prelude.{Option, none, some, List, [], ◌∷◌, ◌==◌, if◌then◌else◌}
use hungrx_agent.Text.{Unicode}
use hungrx_agent.Schema.Menu.{Uuid}
use hungrx_agent.Schema.Restaurant.{Restaurant}
use hungrx_agent.Crawler.Guard.{Network}
use hungrx_agent.Sources.Results.{
  ResolutionStatus, verified, needs_review, not_found, rejected, EntityCandidate,
  SourceAuthorityResult,
}
use hungrx_agent.Sources.Urls.{Urls}
use hungrx_agent.Sources.Authority.{resolve_official_website}
use hungrx_agent.Review.Rows.{
  Source, Database, inputs_required, website_unverified, collector, agent_run_trigger, Result, ok,
  raised, validation_error, ◌>>=◌,
}
use hungrx_agent.Review.Repositories.{log, mark_failed}
use hungrx_agent.Review.State.{
  CollectorState, StateUpdate, no_update, error_update, source_authority,
}
use hungrx_agent.Reviewer.Repositories.{create_run}

-- `SourceRepository.get_by_id`
unfoldable pub find_source : Uuid → List Source → Option Source
find_source id [] = none
find_source id (s ∷ rest) = let later = find_source id rest in if s.id == id then some s else later

unfoldable pub source_of_id : Option Uuid → List Source → Option Source
unfolding find_source
source_of_id none rows = none
source_of_id (some id) rows = find_source id rows

module _ {J : Type 0} where
  -- The row is validated as a `Source`; there must be one.
  unfoldable pub take_source :
      Uuid
      → SourceAuthorityResult
      → Option Source
      → Database J
      → Result (StateUpdate J × Database J)
  take_source run_id result none db = raised validation_error
  take_source run_id result (some source) db = ok (
    record no_update {
      agent_run_id = some run_id;
      source = some source;
      source_url = result.resolved_url;
    },
    db,
  )

  unfoldable pub source_unverified :
      Uuid → Uuid → ResolutionStatus → Database J → StateUpdate J × Database J
  source_unverified run_id restaurant_id status db =
      let message = website_unverified restaurant_id status in
      (
        record (error_update source_authority message) { agent_run_id = some run_id },
        mark_failed run_id message (log agent_run_trigger run_id none none none db),
      )

  unfoldable pub record_resolution :
      Uuid → SourceAuthorityResult × Database J → Result (StateUpdate J × Database J)
  unfolding take_source source_unverified source_of_id
  record_resolution run_id (result, db) = elim result.status [
    | verified ↦ take_source run_id result (source_of_id result.source_id db.sources) db
    | needs_review ↦ ok (source_unverified run_id result.restaurant_id needs_review db)
    | not_found ↦ ok (source_unverified run_id result.restaurant_id not_found db)
    | rejected ↦ ok (source_unverified run_id result.restaurant_id rejected db)
  ]

module _ {J : Type 0} (u : Unicode) (net : Network) (urls : Urls)
    (provider : Restaurant → List EntityCandidate) where
  unfoldable pub resolve_restaurant :
      Option Restaurant → Database J → Result (StateUpdate J × Database J)
  unfolding record_resolution resolve_official_website
  resolve_restaurant none db = ok (error_update source_authority inputs_required, db)
  resolve_restaurant (some r) db =
      let (run_id, created) = create_run collector (some r.id) db in
      resolve_official_website u net urls r.id (provider r) created >>= record_resolution run_id

  unfoldable pub source_authority_node :
      CollectorState J → Database J → Result (StateUpdate J × Database J)
  source_authority_node state db = resolve_restaurant state.restaurant db
