-- ===== src/Review/Repositories.antt =====
-- database/repositories/proposed_change_repository.py, agent_run_repository.py and
-- restaurant_repository.py (its writing half), and the row that apps/api/app/services/audit_service.py adds.
use hungrx_agent.Prelude.{
  ℕ, zero, suc, ◌+◌, Bool, false, ◌&&◌, Option, none, some, List, [], ◌∷◌, keep_if, ◌==◌,
  if◌then◌else◌,
}
use hungrx_agent.Text.{Text}
use hungrx_agent.Schema.Menu.{Uuid}
use hungrx_agent.Review.Rows.{
  ProposedChangeEntityType, ProposedChangeStatus, pending, is_pending, is_published,
  ValidationSummary, NodeMessage, ProposedChange, Approval, AgentRunStatus, succeeded, failed,
  AgentRun, AuditAction, Database, multiple_results_found, Result, ok, raised,
}

module _ {J : Type 0} where
  -- `session.get(ProposedChange, id)`
  unfoldable pub find_change : Uuid → List (ProposedChange J) → Option (ProposedChange J)
  find_change id [] = none
  find_change id (row ∷ rows) =
      let later = find_change id rows in if row.id == id then some row else later

  unfoldable pub get_by_id : Uuid → Database J → Option (ProposedChange J)
  get_by_id id db = find_change id db.proposed_changes

  -- `ProposedChange.thread_id == thread_id`; a NULL equals nothing.
  unfoldable pub has_thread : Uuid → ProposedChange J → Bool
  has_thread thread_id row = elim row.thread_id [ none ↦ false | some t ↦ t == thread_id ]

  -- `scalar_one_or_none()`
  unfoldable pub scalar_one_or_none : List (ProposedChange J) → Result (Option (ProposedChange J))
  scalar_one_or_none [] = ok none
  scalar_one_or_none (row ∷ []) = ok (some row)
  scalar_one_or_none (row ∷ other ∷ rows) = raised multiple_results_found

  unfoldable pub get_by_thread_id : Uuid → Database J → Result (Option (ProposedChange J))
  get_by_thread_id thread_id db =
      scalar_one_or_none (keep_if (has_thread thread_id) db.proposed_changes)

  unfoldable pub first_row : List (ProposedChange J) → Option (ProposedChange J)
  first_row [] = none
  first_row (row ∷ rows) = some row

  unfoldable pub get_published_for_entity : Uuid → Database J → Option (ProposedChange J)
  get_published_for_entity entity_id db =
      first_row (
        keep_if (λ row. (row.entity_id == entity_id) && is_published row.status)
          db.proposed_changes)

  unfoldable pub take_rows : ℕ → List (ProposedChange J) → List (ProposedChange J)
  take_rows zero rows = []
  take_rows (suc n) [] = []
  take_rows (suc n) (row ∷ rows) = row ∷ take_rows n rows

  -- `order_by(desc(created_at)).limit(limit)`
  unfoldable pub list_pending : ℕ → Database J → List (ProposedChange J)
  list_pending limit db =
      take_rows limit (keep_if (λ row. is_pending row.status) db.proposed_changes)

  -- `ProposedChangeRepository.create`, with the arguments that its callers give
  unfoldable pub create_change :
      ProposedChangeEntityType
      → Uuid
      → J
      → Option ValidationSummary
      → Option Uuid
      → Option Uuid
      → Option Uuid
      → Database J
      → ProposedChange J × Database J
  create_change entity_type entity_id structured_json validation_result agent_run_id source_id
        thread_id db =
      let row : ProposedChange J = record {
        id = db.next_id;
        entity_type = entity_type;
        entity_id = entity_id;
        structured_json = structured_json;
        validation_result = validation_result;
        status = pending;
        agent_run_id = agent_run_id;
        source_id = source_id;
        thread_id = thread_id;
      } in
      (row, record db { proposed_changes = row ∷ db.proposed_changes; next_id = db.next_id + 1 })

  unfoldable pub set_status :
      Uuid → ProposedChangeStatus → List (ProposedChange J) → List (ProposedChange J)
  set_status id status [] = []
  set_status id status (row ∷ rows) =
      let later = set_status id status rows in
      if row.id == id then record row { status = status } ∷ rows else row ∷ later

  -- `update_status` without `structured_json`, as all its callers call it
  unfoldable pub update_status : Uuid → ProposedChangeStatus → Database J → Database J
  update_status id status db = record db {
    proposed_changes = set_status id status db.proposed_changes;
  }

  -- `ApprovalRepository.create`
  unfoldable pub create_approval :
      Uuid → ProposedChangeStatus → Uuid → Option Text → Database J → Database J
  create_approval proposed_change_id decision reviewer_user_id reason db =
      let row : Approval = record {
        id = db.next_id;
        proposed_change_id = proposed_change_id;
        decision = decision;
        reviewer_user_id = reviewer_user_id;
        reason = reason;
      } in
      record db { approvals = row ∷ db.approvals; next_id = db.next_id + 1 }

  -- `AuditService.log`
  unfoldable pub log :
      AuditAction → Uuid → Option Uuid → Option J → Option J → Database J → Database J
  log action entity_id actor_id old_values new_values db = record db {
    audit_log =
        record {
          action = action;
          entity_id = entity_id;
          actor_id = actor_id;
          old_values = old_values;
          new_values = new_values;
        }
        ∷ db.audit_log;
  }

unfoldable pub find_run : Uuid → List AgentRun → Option AgentRun
find_run id [] = none
find_run id (run ∷ runs) = let later = find_run id runs in if run.id == id then some run else later

-- `record.status = …`, `record.error_message = …` of the run with the id, if there is one
unfoldable pub finish_run :
    Uuid → AgentRunStatus → Option NodeMessage → List AgentRun → List AgentRun
finish_run id status message [] = []
finish_run id status message (run ∷ runs) =
    let later = finish_run id status message runs in
    if run.id == id
    then record run { status = status; error_message = message } ∷ runs
    else run ∷ later

-- The message that a run has: `mark_succeeded` leaves it.
unfoldable pub message_of_run : Option AgentRun → Option NodeMessage
message_of_run none = none
message_of_run (some run) = run.error_message

module _ {J : Type 0} where
  unfoldable pub mark_succeeded : Uuid → Database J → Database J
  mark_succeeded id db = record db {
    agent_runs = finish_run id succeeded (message_of_run (find_run id db.agent_runs)) db.agent_runs;
  }

  unfoldable pub mark_failed : Uuid → NodeMessage → Database J → Database J
  mark_failed id message db = record db {
    agent_runs = finish_run id failed (some message) db.agent_runs;
  }
