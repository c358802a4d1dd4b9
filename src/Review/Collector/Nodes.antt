-- ===== src/Review/Collector/Nodes.antt =====
-- workflows/collector_workflow/nodes: what the nodes before the review leave in the database.
use hungrx_agent.Prelude.{◌≡◌, refl, inl, inr, Option, none, some, List, [], ◌∷◌, ◌++◌}
use hungrx_agent.Text.{Text, Unicode}
use hungrx_agent.Schema.Menu.{Uuid}
use hungrx_agent.Schema.Restaurant.{Restaurant}
use hungrx_agent.Crawler.Guard.{Network}
use hungrx_agent.Sources.Results.{
  ResolutionStatus, verified, needs_review, not_found, rejected, ConfidenceLevel, high, medium, low,
  EntityCandidate, SourceAuthorityResult,
}
use hungrx_agent.Sources.Urls.{Urls, Checked-cases, validate_official_domain}
use hungrx_agent.Sources.Authority.{
  create_source, finalize, confidence_level, rank, try_candidates, resolve_official_website,
}
use hungrx_agent.Review.Rows.{
  Source, SourceSnapshot, collector, agent_run_trigger, Database, ok, Gives, Gives-map, Gives-bind,
}
use hungrx_agent.Review.Repositories.{log, mark_failed}
use hungrx_agent.Review.State.{CollectorState, StateUpdate}
use hungrx_agent.Review.Nodes.{Pydantic, log_run}
use hungrx_agent.Review.Nodes.SourceAuthority.{
  source_of_id, take_source, source_unverified, record_resolution, resolve_restaurant,
  source_authority_node,
}
use hungrx_agent.Review.Nodes.Extraction.{record_capture, capture_given, extraction_node}
use hungrx_agent.Review.Nodes.Translation.{
  record_translation, translate_given, multimodal_translation_node,
}
use hungrx_agent.Review.Kept.{
  any_result, IsUntouched, IsUntouched-trans, same, log_run-IsUntouched, fail_run-IsUntouched,
}
use hungrx_agent.Reviewer.Repositories.{create_run}
use hungrx_agent.Extraction.{Asked, answered, failed_with}
use hungrx_agent.Extraction.Chunked.{ChunkedResult}
use hungrx_agent.Extraction.Mapping.{map_to_restaurant}
use hungrx_agent.Extraction.Material.{read_text_materials}
use hungrx_agent.Extraction.Extractor.{Extractor}

module _ {J : Type 0} where
  -- A node's update and database: nothing is decided, and the tables of the review are as they were.
  abbrev pub IsEarly : Database J → StateUpdate J × Database J → Type 0
  IsEarly db (update, db') = IsUntouched db db' × (update.human_approval_status ≡ none)

  untouched :
      (db db' : Database J)
      → db'.proposed_changes ≡ db.proposed_changes
      → db'.approvals ≡ db.approvals
      → db'.restaurants ≡ db.restaurants
      → IsUntouched db db'
  untouched db db' a b c = record { changes = a; approvals = b; restaurants = c }

  record_resolution-IsEarly :
      (run_id : Uuid) (result : SourceAuthorityResult) (db : Database J)
      → Gives (IsEarly db) (λ e. Unit) (record_resolution run_id (result, db))
  unfolding record_resolution source_unverified take_source mark_failed log
  record_resolution-IsEarly run_id result db = by_status result.status
    where
      by_source :
          (o : Option Source) → Gives (IsEarly db) (λ e. Unit) (take_source run_id result o db)
      by_source none = tt
      by_source (some source) = (same db, refl)

      by_status :
          (status : ResolutionStatus)
          → Gives
              (IsEarly db)
              (λ e. Unit)
              (elim status [
                | verified ↦ take_source run_id result (source_of_id result.source_id db.sources) db
                | needs_review ↦ ok (source_unverified run_id result.restaurant_id needs_review db)
                | not_found ↦ ok (source_unverified run_id result.restaurant_id not_found db)
                | rejected ↦ ok (source_unverified run_id result.restaurant_id rejected db)
              ])
      by_status verified = by_source (source_of_id result.source_id db.sources)
      by_status needs_review = (untouched _ _ refl refl refl, refl)
      by_status not_found = (untouched _ _ refl refl refl, refl)
      by_status rejected = (untouched _ _ refl refl refl, refl)

  finalize-IsUntouched :
      (id : Uuid) (url : Text) (level : ConfidenceLevel) (refused : List Text) (db : Database J)
      → IsUntouched db (finalize id url level refused db).1
  unfolding finalize create_source
  finalize-IsUntouched id url high refused db = untouched _ _ refl refl refl
  finalize-IsUntouched id url medium refused db = same db
  finalize-IsUntouched id url low refused db = same db

  module _ (u : Unicode) (net : Network) (urls : Urls) where
    -- A search leaves the tables of the review.
    abbrev Leaves : Database J → SourceAuthorityResult × Database J → Type 0
    Leaves db p = IsUntouched db p.1

    try_candidates-Leaves :
        (id : Uuid) (cs : List EntityCandidate) (refused : List Text) (db : Database J)
        → Gives (Leaves db) (λ e. Unit) (try_candidates u net urls id cs refused db)
    unfolding try_candidates
    try_candidates-Leaves id [] refused db = same db
    try_candidates-Leaves id (c ∷ cs) refused db =
        elim (Checked-cases (validate_official_domain u net urls c.url)) [
          | inl ((normalized, domain), e) ↦
              rw (e, try_candidates)
                (finalize-IsUntouched id normalized (confidence_level c.provider_confidence) refused
                  db)
          | inr (inl e) ↦
              rw (e, try_candidates) (try_candidates-Leaves id cs (refused ++ (c.url ∷ [])) db)
          | inr (inr e) ↦ rw (e, try_candidates) tt
        ]

    resolve-Leaves :
        (id : Uuid) (cs : List EntityCandidate) (db : Database J)
        → Gives (Leaves db) (λ e. Unit) (resolve_official_website u net urls id cs db)
    unfolding resolve_official_website
    resolve-Leaves id [] db = same db
    resolve-Leaves id (c ∷ cs) db = try_candidates-Leaves id (rank (c ∷ cs)) [] db

    pub source_authority-IsEarly :
        (provider : Restaurant → List EntityCandidate) (state : CollectorState J) (db : Database J)
        → Gives (IsEarly db) (λ e. Unit) (source_authority_node u net urls provider state db)
    unfolding source_authority_node resolve_restaurant create_run
    source_authority-IsEarly provider state db = by_restaurant state.restaurant
      where
        by_restaurant :
            (r : Option Restaurant)
            → Gives (IsEarly db) (λ e. Unit) (resolve_restaurant u net urls provider r db)
        by_restaurant none = (same db, refl)
        by_restaurant (some r) =
            let created = (create_run collector (some r.id) db).1 in
            Gives-bind (Leaves created) (IsEarly db) (λ e. Unit)
              (resolve_official_website u net urls r.id (provider r) created)
              (record_resolution db.next_id) (resolve-Leaves r.id (provider r) created)
              (λ resolved kept.
                let before = untouched db resolved.1 kept.changes kept.approvals kept.restaurants in
                Gives-map (IsEarly resolved.1) (IsEarly db) (λ e. Unit) (λ e. Unit)
                  (record_resolution db.next_id resolved)
                  (λ p h. (IsUntouched-trans db resolved.1 p.1 before h.0, h.1)) (λ e t. t)
                  (record_resolution-IsEarly db.next_id resolved.0 resolved.1))

  record_capture-IsEarly :
      (source : Source) (run_id : Option Uuid) (db : Database J)
      (captured : Asked (List SourceSnapshot))
      → IsEarly db (record_capture source run_id db captured)
  unfolding record_capture
  record_capture-IsEarly source run_id db (failed_with error) = (
    IsUntouched-trans db (log_run agent_run_trigger run_id db) _
        (log_run-IsUntouched agent_run_trigger run_id db) (fail_run-IsUntouched run_id _ _),
    refl,
  )
  record_capture-IsEarly source run_id db (answered []) = (same db, refl)
  record_capture-IsEarly source run_id db (answered (s ∷ snapshots)) = (same db, refl)

  pub extraction-IsEarly :
      (u : Unicode) (ex : Extractor) (state : CollectorState J) (db : Database J)
      → IsEarly db (extraction_node u ex state db)
  unfolding extraction_node capture_given
  extraction-IsEarly u ex state db = by_inputs state.source state.source_url
    where
      by_inputs :
          (source : Option Source) (url : Option Text)
          → IsEarly db (capture_given u ex source url state.nutrition_url state.agent_run_id db)
      by_inputs (some source) (some (c ∷ url)) =
          record_capture-IsEarly source state.agent_run_id db _
      by_inputs (some source) (some []) = (same db, refl)
      by_inputs (some source) none = (same db, refl)
      by_inputs none url = (same db, refl)

module _ {J : Type 0} (u : Unicode) (py : Pydantic J) (ex : Extractor) where
  record_translation-IsEarly :
      (r : Restaurant) (run_id : Option Uuid) (db : Database J) (asked : Asked ChunkedResult)
      → Gives (IsEarly db) (λ e. Unit) (record_translation u py ex r run_id db asked)
  unfolding record_translation
  record_translation-IsEarly r run_id db (failed_with error) = (
    IsUntouched-trans db (log_run _ run_id db) _ (log_run-IsUntouched _ run_id db)
        (fail_run-IsUntouched run_id _ _),
    refl,
  )
  record_translation-IsEarly r run_id db (answered result) =
      Gives-bind (λ m. Unit) (IsEarly db) (λ e. Unit)
        (map_to_restaurant u db.next_id result.output r) _
        (any_result (map_to_restaurant u db.next_id result.output r))
        (λ mapped t.
          let kept = log_run-IsUntouched _ run_id (record db { next_id = mapped.1 }) in
          (untouched _ _ kept.changes kept.approvals kept.restaurants, refl))

  pub translation-IsEarly :
      (state : CollectorState J) (db : Database J)
      → Gives (IsEarly db) (λ e. Unit) (multimodal_translation_node u py ex state db)
  unfolding multimodal_translation_node translate_given
  translation-IsEarly state db = by_inputs state.restaurant state.source_snapshots
    where
      by_inputs :
          (r : Option Restaurant) (snapshots : Option (List SourceSnapshot))
          → Gives
              (IsEarly db)
              (λ e. Unit)
              (translate_given u py ex r snapshots state.agent_run_id db)
      by_inputs (some r) (some (s ∷ snapshots)) =
          Gives-bind (λ m. Unit) (IsEarly db) (λ e. Unit)
            (read_text_materials ex.read_text (s ∷ snapshots)) _
            (any_result (read_text_materials ex.read_text (s ∷ snapshots)))
            (λ materials t. record_translation-IsEarly r state.agent_run_id db _)
      by_inputs (some r) (some []) = (same db, refl)
      by_inputs (some r) none = (same db, refl)
      by_inputs none snapshots = (same db, refl)
