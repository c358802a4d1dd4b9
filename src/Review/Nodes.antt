-- ===== src/Review/Nodes.antt =====
-- The nodes of workflows/collector_workflow/nodes, and what they share.
pub mod DeterministicValidation
pub mod HumanReview
pub mod Publish
pub mod SourceAuthority
pub mod Extraction
pub mod Translation
use hungrx_agent.Prelude.{Option, none, some}
use hungrx_agent.Schema.Menu.{Uuid}
use hungrx_agent.Schema.Restaurant.{Restaurant}
use hungrx_agent.Validation.SchemaCheck.{SchemaResult}
use hungrx_agent.Review.Rows.{Database, NodeMessage, AuditAction}
use hungrx_agent.Review.Repositories.{mark_failed, mark_succeeded, log}

-- Pydantic: `Restaurant.model_validate` and `restaurant.model_dump(mode="json")`
pub record Pydantic (J : Type 0) : Type 0 where
  pub model_validate : J → SchemaResult
  pub model_dump : Restaurant → J

module _ {J : Type 0} where
  -- `if run_id is not None: await agent_runs.mark_failed(…)`
  unfoldable pub fail_run : Option Uuid → NodeMessage → Database J → Database J
  fail_run none message db = db
  fail_run (some id) message db = mark_failed id message db

  unfoldable pub succeed_run : Option Uuid → Database J → Database J
  succeed_run none db = db
  succeed_run (some id) db = mark_succeeded id db

  -- `if run_id is not None: await audit.log(…)`
  unfoldable pub log_run : AuditAction → Option Uuid → Database J → Database J
  log_run action none db = db
  log_run action (some id) db = log action id none none none db
