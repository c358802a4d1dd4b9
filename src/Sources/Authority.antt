-- ===== src/Sources/Authority.antt =====
-- apps/api/app/services/source_authority_service.py and manual_source_verification.py. The candidates that the
-- provider gives are an argument. Python's `sorted` with `reverse=True` keeps the order of equal elements.
pub mod Ranking
pub mod Resolution
use hungrx_agent.Prelude.{
  ◌+◌, Bool, true, false, Option, none, some, List, [], ◌∷◌, ◌++◌, if◌then◌else◌,
}
use hungrx_agent.Text.{Text, Unicode}
use hungrx_agent.Decimal.{Decimal, decimal, less}
use hungrx_agent.Schema.Menu.{Uuid}
use hungrx_agent.Crawler.Guard.{Network}
use hungrx_agent.Review.Rows.{
  Source, SourceType, restaurant_website, Database, Result, ok, raised, value_error,
}
use hungrx_agent.Sources.Results.{
  verified, needs_review, not_found, rejected, ConfidenceLevel, high, medium, low, EntityCandidate,
  SourceAuthorityResult,
}
use hungrx_agent.Sources.Urls.{Urls, Checked, valid, invalid, broken, validate_official_domain}

abbrev pub auto_verify_confidence_threshold : Decimal
auto_verify_confidence_threshold = record { coefficient = 75; exponent = 2 }

abbrev pub medium_confidence_threshold : Decimal
medium_confidence_threshold = record { coefficient = 5; exponent = 1 }

-- `_confidence_level`
unfoldable pub confidence_level : Decimal → ConfidenceLevel
unfolding less
confidence_level score =
    if less score auto_verify_confidence_threshold
    then (if less score medium_confidence_threshold then low else medium)
    else high

-- `sorted(candidates, key=λ c. c.provider_confidence, reverse=True)`
unfoldable pub insert_ranked : EntityCandidate → List EntityCandidate → List EntityCandidate
unfolding less
insert_ranked c [] = c ∷ []
insert_ranked c (d ∷ ds) =
    let rest = insert_ranked c ds in
    if less c.provider_confidence d.provider_confidence then d ∷ rest else c ∷ d ∷ ds

unfoldable pub rank : List EntityCandidate → List EntityCandidate
unfolding insert_ranked
rank [] = []
rank (c ∷ cs) = insert_ranked c (rank cs)

module _ {J : Type 0} where
  -- `SourceRepository.create`
  unfoldable pub create_source : Uuid → SourceType → Text → Bool → Database J → Source × Database J
  create_source restaurant_id source_type url is_verified_domain db =
      let source : Source = record {
        id = db.next_id;
        restaurant_id = restaurant_id;
        source_type = source_type;
        url = url;
        is_verified_domain = is_verified_domain;
      } in
      (source, record db { sources = source ∷ db.sources; next_id = db.next_id + 1 })

  -- `_finalize`
  unfoldable pub finalize :
      Uuid → Text → ConfidenceLevel → List Text → Database J → SourceAuthorityResult × Database J
  unfolding create_source
  finalize restaurant_id url high refused db =
      let (source, created) = create_source restaurant_id restaurant_website url true db in
      (
        record {
          restaurant_id = restaurant_id;
          status = verified;
          confidence = some high;
          resolved_url = some url;
          rejected_candidates = refused;
          source_id = some source.id;
        },
        created,
      )
  finalize restaurant_id url level refused db = (
    record {
      restaurant_id = restaurant_id;
      status = needs_review;
      confidence = some level;
      resolved_url = some url;
      rejected_candidates = refused;
      source_id = none;
    },
    db,
  )

  module _ (u : Unicode) (net : Network) (urls : Urls) where
    -- The loop over the ranked candidates, with those that were refused so far
    unfoldable pub try_candidates :
        Uuid
        → List EntityCandidate
        → List Text
        → Database J
        → Result (SourceAuthorityResult × Database J)
    unfolding finalize confidence_level validate_official_domain
    try_candidates restaurant_id [] refused db = ok (
      record {
        restaurant_id = restaurant_id;
        status = rejected;
        confidence = none;
        resolved_url = none;
        rejected_candidates = refused;
        source_id = none;
      },
      db,
    )
    try_candidates restaurant_id (c ∷ cs) refused db =
        elim (validate_official_domain u net urls c.url) [
          | invalid ↦ try_candidates restaurant_id cs (refused ++ (c.url ∷ [])) db
          | broken ↦ raised value_error
          | valid (normalized, domain) ↦ ok (
              finalize restaurant_id normalized (confidence_level c.provider_confidence) refused db)
        ]

    unfoldable pub resolve_official_website :
        Uuid → List EntityCandidate → Database J → Result (SourceAuthorityResult × Database J)
    unfolding try_candidates rank
    resolve_official_website restaurant_id [] db = ok (
      record {
        restaurant_id = restaurant_id;
        status = not_found;
        confidence = none;
        resolved_url = none;
        rejected_candidates = [];
        source_id = none;
      },
      db,
    )
    resolve_official_website restaurant_id (c ∷ cs) db =
        try_candidates restaurant_id (rank (c ∷ cs)) [] db

    -- `verify_and_persist_manual_source`, invalid for the ManualSourceRejectedError
    unfoldable pub verify_and_persist_manual_source :
        Uuid → Text → Database J → Checked (Source × Database J)
    unfolding validate_official_domain create_source
    verify_and_persist_manual_source restaurant_id raw_url db =
        elim (validate_official_domain u net urls raw_url) [
          | invalid ↦ invalid
          | broken ↦ broken
          | valid (normalized, domain) ↦
              valid (create_source restaurant_id restaurant_website normalized true db)
        ]
