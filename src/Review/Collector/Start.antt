-- ===== src/Review/Collector/Start.antt =====
-- workflows/collector_workflow/graph.py: what a run leaves behind when it is started, up to the pause for the
-- review.
use hungrx_agent.Prelude.{◌≡◌, Bool, true, false, none, List, is_empty, if◌then◌else◌}
use hungrx_agent.Text.{Unicode}
use hungrx_agent.Schema.Menu.{Uuid}
use hungrx_agent.Schema.Restaurant.{Restaurant}
use hungrx_agent.Crawler.Guard.{Network}
use hungrx_agent.Sources.Results.{EntityCandidate}
use hungrx_agent.Sources.Urls.{Urls}
use hungrx_agent.Extraction.Extractor.{Extractor}
use hungrx_agent.Review.Rows.{Database, ok, Gives, Gives-bind}
use hungrx_agent.Review.State.{
  CollectorState, extraction, multimodal_translation, deterministic_validation, merge,
}
use hungrx_agent.Review.Nodes.{Pydantic}
use hungrx_agent.Review.Nodes.SourceAuthority.{source_authority_node}
use hungrx_agent.Review.Nodes.Extraction.{extraction_node}
use hungrx_agent.Review.Nodes.Translation.{multimodal_translation_node}
use hungrx_agent.Review.Graph.{
  to, end, World, save, route_if_no_errors, after_translation, run_translation, after_extraction,
  after_source_authority, run_from_source_authority, start_collecting,
}
use hungrx_agent.Review.Decisions.{IsFresh}
use hungrx_agent.Review.Kept.{IsKept, undecided_still}
use hungrx_agent.Review.Collector.Nodes.{
  IsEarly, source_authority-IsEarly, extraction-IsEarly, translation-IsEarly,
}
use hungrx_agent.Review.Collector.Waiting.{
  Waits, Waits-map, ended-Waits, added-IsFresh, from_validation-Waits,
}

module _ {J : Type 0} (u : Unicode) (py : Pydantic J) where
  module _ (net : Network) (urls : Urls) (provider : Restaurant → List EntityCandidate)
      (ex : Extractor) where
    translation-Waits :
        (state : CollectorState J) (db : Database J)
        → state.human_approval_status ≡ none
        → Gives (Waits db) (λ e. Unit) (run_translation u py net urls provider ex state db)
    unfolding run_translation route_if_no_errors after_translation
    translation-Waits state db n =
        Gives-bind (IsEarly db) (Waits db) (λ e. Unit)
          (multimodal_translation_node u py ex state db) _ (translation-IsEarly u py ex state db)
          (λ p h.
            let merged = merge state p.0 in
            let still =
              undecided_still p.0.human_approval_status state.human_approval_status h.1 n in
            Waits-map db p.1 h.0 _ (by_route (is_empty merged.errors) merged p.1 still))
      where
        by_route :
            (b : Bool) (state : CollectorState J) (db : Database J)
            → state.human_approval_status ≡ none
            → Gives
                (Waits db)
                (λ e. Unit)
                (after_translation u py net urls provider ex
                  (if b then to deterministic_validation else end)
                  state
                  db)
        by_route true state db n = from_validation-Waits u py state db n
        by_route false state db n = ended-Waits state db n

    after_source-Waits :
        (b : Bool) (state : CollectorState J) (db : Database J)
        → state.human_approval_status ≡ none
        → Gives
            (Waits db)
            (λ e. Unit)
            (after_source_authority u py net urls provider ex
              (if b then to extraction else end)
              state
              db)
    unfolding after_source_authority route_if_no_errors after_extraction
    after_source-Waits false state db n = ended-Waits state db n
    after_source-Waits true state db n =
        let captured = extraction_node u ex state db in
        let quiet = extraction-IsEarly u ex state db in
        let merged = merge state captured.0 in
        let still =
          undecided_still captured.0.human_approval_status state.human_approval_status quiet.1 n in
        Waits-map db captured.1 quiet.0 _
          (by_route (is_empty merged.errors) merged captured.1 still)
      where
        by_route :
            (b : Bool) (state : CollectorState J) (db : Database J)
            → state.human_approval_status ≡ none
            → Gives
                (Waits db)
                (λ e. Unit)
                (after_extraction u py net urls provider ex
                  (if b then to multimodal_translation else end)
                  state
                  db)
        by_route true state db n = translation-Waits state db n
        by_route false state db n = ended-Waits state db n

    source_authority-Waits :
        (state : CollectorState J) (db : Database J)
        → state.human_approval_status ≡ none
        → Gives
            (Waits db)
            (λ e. Unit)
            (run_from_source_authority u py net urls provider ex state db)
    unfolding run_from_source_authority route_if_no_errors
    source_authority-Waits state db n =
        Gives-bind (IsEarly db) (Waits db) (λ e. Unit)
          (source_authority_node u net urls provider state db) _
          (source_authority-IsEarly u net urls provider state db)
          (λ p h.
            let merged = merge state p.0 in
            let still =
              undecided_still p.0.human_approval_status state.human_approval_status h.1 n in
            Waits-map db p.1 h.0 _ (after_source-Waits (is_empty merged.errors) merged p.1 still))

    -- Started in a world in which no paused run has been decided, with a state that has no approval status,
    -- the collector's graph, when it returns, has published nothing, recorded no approval and lost no proposed
    -- change, the state that it returns has no approval status, and still no paused run has been decided:
    -- a run reaches the production tables only by way of a decision.
    pub start_collecting-IsFresh :
        (thread : Uuid) (state : CollectorState J) (w : World J)
        → IsFresh w
        → state.human_approval_status ≡ none
        → Gives
            (λ (q : CollectorState J × World J).
              IsKept w.database q.1.database × (q.0.human_approval_status ≡ none) × IsFresh q.1)
            (λ e. Unit)
            (start_collecting u py net urls provider ex thread state w)
    unfolding start_collecting save
    start_collecting-IsFresh thread state w fresh n =
        Gives-bind (Waits w.database) _ (λ e. Unit)
          (run_from_source_authority u py net urls provider ex state w.database)
          (λ reached. ok (save thread w reached)) (source_authority-Waits state w.database n)
          (λ p h. (h.0, h.1, added-IsFresh thread p.0 p.1 w h.1 fresh))
