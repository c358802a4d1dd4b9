-- ===== src/Sources/Results.antt =====
-- core/schemas/source_authority.py. The query for the provider is the restaurant.
use hungrx_agent.Prelude.{Option, List}
use hungrx_agent.Text.{Text}
use hungrx_agent.Decimal.{Decimal}
use hungrx_agent.Schema.Menu.{Uuid}

pub data ResolutionStatus : Type 0 where
  verified needs_review not_found rejected : ResolutionStatus

pub data ConfidenceLevel : Type 0 where
  high medium low : ConfidenceLevel

pub record EntityCandidate : Type 0 where
  pub url : Text
  pub provider_confidence : Decimal

-- The reason's text is told by the status.
pub record SourceAuthorityResult : Type 0 where
  pub restaurant_id : Uuid
  pub status : ResolutionStatus
  pub confidence : Option ConfidenceLevel
  pub resolved_url : Option Text
  pub rejected_candidates : List Text
  pub source_id : Option Uuid
