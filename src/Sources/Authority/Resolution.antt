-- ===== src/Sources/Authority/Resolution.antt =====
-- apps/api/app/services/source_authority_service.py: what a search for a restaurant's website comes to.
use hungrx_agent.Prelude.{◌≡◌, ◌⊎◌, true, false, some, List, [], All}
use hungrx_agent.Text.{Text, Unicode}
use hungrx_agent.Decimal.{less}
use hungrx_agent.Schema.Menu.{Uuid}
use hungrx_agent.Crawler.Guard.{Network}
use hungrx_agent.Review.Rows.{restaurant_website, Database, Failure, value_error}
use hungrx_agent.Sources.Results.{
  ResolutionStatus, verified, needs_review, not_found, rejected, EntityCandidate,
  SourceAuthorityResult,
}
use hungrx_agent.Sources.Urls.{Urls, Checked, valid, invalid, broken, validate_official_domain}
use hungrx_agent.Sources.Authority.{auto_verify_confidence_threshold, create_source}
use hungrx_agent.Sources.Authority.Ranking.{IsOneOf}

module _ (u : Unicode) (net : Network) (urls : Urls) where
  abbrev pub validated : EntityCandidate → Checked (Text × Text)
  validated c = validate_official_domain u net urls c.url

  -- The candidate's check comes to `v`, and every other is refused or has no more confidence.
  pub record IsBest (cs : List EntityCandidate) (c : EntityCandidate) (v : Checked (Text × Text))
      : Type 0 where
    pub is_one : IsOneOf c cs
    pub check : validated c ≡ v
    pub others :
        All
          (λ d.
            (less c.provider_confidence d.provider_confidence ≡ false) ⊎ (validated d ≡ invalid))
          cs

  abbrev IsNoBetter : EntityCandidate → EntityCandidate → Type 0
  IsNoBetter c d =
      (less c.provider_confidence d.provider_confidence ≡ false) ⊎ (validated d ≡ invalid)

  -- A search ends with an exception where the check of the best candidate raises a ValueError.
  abbrev pub Breaks : List EntityCandidate → Failure → Type 0
  Breaks cs e = (e ≡ value_error) × ((c : EntityCandidate) × IsBest cs c broken)

  module _ {J : Type 0} (id : Uuid) where
    -- What the status of a search among candidates says of them and of the new database
    abbrev pub Settles :
        ResolutionStatus
        → List EntityCandidate
        → Database J
        → SourceAuthorityResult × Database J
        → Type 0
    Settles verified cs db (result, db') =
        (c : EntityCandidate) × (url domain : Text) × IsBest cs c (valid (url, domain))
        × (less c.provider_confidence auto_verify_confidence_threshold ≡ false)
        × (result.resolved_url ≡ some url)
        × (db' ≡ (create_source id restaurant_website url true db).1)
    Settles needs_review cs db (result, db') =
        (c : EntityCandidate) × (url domain : Text) × IsBest cs c (valid (url, domain))
        × (less c.provider_confidence auto_verify_confidence_threshold ≡ true)
        × (result.resolved_url ≡ some url)
        × (db' ≡ db)
    Settles rejected cs db (result, db') = All (λ c. validated c ≡ invalid) cs × (db' ≡ db)
    Settles not_found cs db (result, db') = ⊥

    abbrev pub IsOutcome :
        ResolutionStatus
        → List EntityCandidate
        → Database J
        → SourceAuthorityResult × Database J
        → Type 0
    IsOutcome not_found cs db (result, db') = (cs ≡ []) × (db' ≡ db)
    IsOutcome verified cs db p = Settles verified cs db p
    IsOutcome needs_review cs db p = Settles needs_review cs db p
    IsOutcome rejected cs db p = Settles rejected cs db p
