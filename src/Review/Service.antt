-- ===== src/Review/Service.antt =====
-- apps/api/app/services/review_service.py
use hungrx_agent.Prelude.{Option, none, some, List, if◌then◌else◌}
use hungrx_agent.Text.{Text}
use hungrx_agent.Schema.Menu.{Uuid}
use hungrx_agent.Review.Rows.{
  ProposedChangeStatus, approved, rejected, published, is_pending, ProposedChange, AgentRun,
  AgentWorkflowType, collector, reviewer, AuditAction, proposed_change_approve,
  proposed_change_reject, proposed_change_edit, Database, Result, ok, raised, not_found, conflict,
  no_thread, key_error, ◌>>=◌,
}
use hungrx_agent.Review.Repositories.{get_by_id, update_status, create_approval, log, find_run}
use hungrx_agent.Review.State.{WorkflowError}
use hungrx_agent.Review.Nodes.HumanReview.{
  Action, approve, reject, edit_then_approve, unrecognized, Decision,
}
use hungrx_agent.Review.Graph.{World}

-- What the service reads from the state that a graph returns.
pub record GraphOutput : Type 0 where
  pub published_restaurant_id : Option Uuid
  pub errors : List WorkflowError

-- A compiled graph, as the service uses it: it is resumed on a thread with a decision.
pub record Workflow (J : Type 0) : Type 0 where
  pub resume : Uuid → Decision J → World J → Result (GraphOutput × World J)

pub record ReviewOutcome (J : Type 0) : Type 0 where
  pub proposed_change : Option (ProposedChange J)
  pub published_restaurant_id : Option Uuid
  pub errors : List WorkflowError

-- `decision_status[action]`
unfoldable pub decision_status : Action → Result ProposedChangeStatus
decision_status approve = ok approved
decision_status edit_then_approve = ok approved
decision_status reject = ok rejected
decision_status (unrecognized action) = raised key_error

unfoldable pub audit_action : Action → AuditAction
audit_action reject = proposed_change_reject
audit_action _ = proposed_change_approve

unfoldable pub final_status : Option Uuid → ProposedChangeStatus → ProposedChangeStatus
final_status none decision = decision
final_status (some restaurant_id) decision = published

unfoldable pub type_of_run : Option AgentRun → AgentWorkflowType
type_of_run none = collector
type_of_run (some run) = run.workflow_type

-- `if not record.thread_id`
unfoldable pub require_thread : Option Uuid → Result Uuid
require_thread none = raised no_thread
require_thread (some thread) = ok thread

module _ {J : Type 0} where
  -- `if record is None: raise NotFoundError(…)`
  unfoldable pub expect_change : Option (ProposedChange J) → Result (ProposedChange J)
  expect_change none = raised not_found
  expect_change (some row) = ok row

  unfoldable pub get_detail : Uuid → Database J → Result (ProposedChange J)
  get_detail id db = expect_change (get_by_id id db)

  unfoldable pub check_pending : ProposedChange J → Result (ProposedChange J)
  check_pending row = if is_pending row.status then ok row else raised (conflict row.status)

  unfoldable pub require_pending : Uuid → Database J → Result (ProposedChange J)
  require_pending id db = get_detail id db >>= check_pending

  -- The kind of the graph that is resumed.
  unfoldable pub workflow_type_for : ProposedChange J → Database J → AgentWorkflowType
  workflow_type_for row db = elim row.agent_run_id [
    | none ↦ collector
    | some run_id ↦ type_of_run (find_run run_id db.agent_runs)
  ]

  -- The rows that record the decision, written before the graph is resumed.
  unfoldable pub record_decision :
      Uuid → Action → ProposedChangeStatus → Uuid → Option Text → Database J → Database J
  record_decision id action status reviewer_id reason db =
      log (audit_action action) id (some reviewer_id) none none
        (create_approval id status reviewer_id reason db)

  unfoldable pub conclude :
      Uuid → ProposedChangeStatus → GraphOutput × World J → ReviewOutcome J × World J
  conclude id status (output, world) =
      let db =
        update_status id (final_status output.published_restaurant_id status) world.database in
      (
        record {
          proposed_change = get_by_id id db;
          published_restaurant_id = output.published_restaurant_id;
          errors = output.errors;
        },
        record world { database = db },
      )

module _ {J : Type 0} (collector_workflow reviewer_workflow : Workflow J) where
  -- `_graph_builder_for`
  unfoldable pub graph_for : AgentWorkflowType → Workflow J
  graph_for collector = collector_workflow
  graph_for reviewer = reviewer_workflow

  -- `_resume` from the decision's status on
  unfoldable pub apply_decided :
      ProposedChange J
      → Uuid
      → Decision J
      → ProposedChangeStatus
      → Uuid
      → Option Text
      → World J
      → Result (ReviewOutcome J × World J)
  apply_decided row thread decision status reviewer_id reason world =
      let decided = record world {
        database = record_decision row.id decision.action status reviewer_id reason world.database;
      } in
      (graph_for (workflow_type_for row decided.database)).resume thread decision decided
      >>= λ result. ok (conclude row.id status result)

  -- `_resume`
  unfoldable pub resume_review :
      Uuid → Decision J → Uuid → Option Text → World J → Result (ReviewOutcome J × World J)
  resume_review id decision reviewer_id reason world = require_pending id world.database >>= λ row.
      require_thread row.thread_id >>= λ thread. decision_status decision.action >>= λ status.
      apply_decided row thread decision status reviewer_id reason world

  unfoldable pub approve_change :
      Uuid → Uuid → Option Text → World J → Result (ReviewOutcome J × World J)
  approve_change id = resume_review id (record { action = approve; edited_structured_json = none })

  unfoldable pub reject_change :
      Uuid → Uuid → Option Text → World J → Result (ReviewOutcome J × World J)
  reject_change id = resume_review id (record { action = reject; edited_structured_json = none })

  -- The edit is logged first, with the values before and after.
  unfoldable pub edit_then_approve_change :
      Uuid → J → Uuid → Option Text → World J → Result (ReviewOutcome J × World J)
  edit_then_approve_change id edited reviewer_id reason world =
      require_pending id world.database >>= λ row.
      resume_review id (record { action = edit_then_approve; edited_structured_json = some edited })
        reviewer_id reason
        (record world {
          database =
              log proposed_change_edit row.id (some reviewer_id) (some row.structured_json)
                (some edited) world.database;
        })
