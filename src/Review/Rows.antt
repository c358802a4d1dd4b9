-- ===== src/Review/Rows.antt =====
-- core/schemas/proposed_change.py, agent_run.py, audit.py and source.py, and the tables of
-- database/models that keep them. The text `str(id)` of a UUID is written as the UUID itself.
-- `J` stands for a JSON value; times and the free metadata of the audit log are left out.
use hungrx_agent.Prelude.{ℕ, Bool, true, false, Option, none, List}
use hungrx_agent.Text.{Text}
use hungrx_agent.Schema.Menu.{Uuid}
use hungrx_agent.Schema.Restaurant.{Restaurant}
use hungrx_agent.Sources.Results.{ResolutionStatus}
use hungrx_agent.Validation.Result.{FieldPath, Message, ValidationSeverity, ValidationIssue}

pub data ProposedChangeEntityType : Type 0 where
  restaurant restaurant_location menu menu_category dish : ProposedChangeEntityType

pub data ProposedChangeStatus : Type 0 where
  pending approved rejected published : ProposedChangeStatus

-- `status == ProposedChangeStatus.PENDING`, and so on
abbrev pub is_pending : ProposedChangeStatus → Bool
is_pending pending = true
is_pending _ = false

abbrev pub is_approved : ProposedChangeStatus → Bool
is_approved approved = true
is_approved _ = false

abbrev pub is_published : ProposedChangeStatus → Bool
is_published published = true
is_published _ = false

pub data SourceType : Type 0 where
  restaurant_website third_party_menu_provider pdf_menu manual_entry : SourceType

pub record Source : Type 0 where
  pub id : Uuid
  pub restaurant_id : Uuid
  pub source_type : SourceType
  pub url : Text
  pub is_verified_domain : Bool

pub data SnapshotContentType : Type 0 where
  html pdf screenshot : SnapshotContentType

-- `content_hash` is the digest's text; the times are left out.
pub record SourceSnapshot : Type 0 where
  pub id : Uuid
  pub source_id : Uuid
  pub content_type : SnapshotContentType
  pub content_hash : Text
  pub storage_path : Text
  pub http_status : Option ℕ
  pub content_length_bytes : Option ℕ

-- `_to_state_issue`
pub record StateIssue : Type 0 where
  pub field_path : FieldPath
  pub message : Message
  pub severity : ValidationSeverity

pub record ValidationSummary : Type 0 where
  pub is_valid : Bool
  pub issues : List StateIssue

-- The messages of failed nodes, with what they print.
pub data NodeMessage : Type 0 where
  inputs_required decision_unusable approval_missing : NodeMessage
  action_unrecognized : Text → NodeMessage
  errors_found revalidation_failed : List ValidationIssue → NodeMessage
  already_published : Uuid → Uuid → NodeMessage
  no_verified_source not_in_production nothing_captured : Uuid → NodeMessage
  no_text_material : NodeMessage
  website_unverified : Uuid → ResolutionStatus → NodeMessage
  fetch_failed capture_failed ai_call_failed : Uuid → Text → NodeMessage

pub record ProposedChange (J : Type 0) : Type 0 where
  pub id : Uuid
  pub entity_type : ProposedChangeEntityType
  pub entity_id : Uuid
  pub structured_json : J
  pub validation_result : Option ValidationSummary
  pub status : ProposedChangeStatus
  pub agent_run_id : Option Uuid
  pub source_id : Option Uuid
  pub thread_id : Option Uuid

pub record Approval : Type 0 where
  pub id : Uuid
  pub proposed_change_id : Uuid
  pub decision : ProposedChangeStatus
  pub reviewer_user_id : Uuid
  pub reason : Option Text

-- `waiting` is the source's `PENDING`.
pub data AgentRunStatus : Type 0 where
  waiting running succeeded failed cancelled : AgentRunStatus

pub data AgentWorkflowType : Type 0 where
  collector reviewer : AgentWorkflowType

pub data PollOutcome : Type 0 where
  poll_failed changed unchanged : PollOutcome

-- `AgentRun.metrics`: a key that is missing is `none`; the duration of the fetch is left out.
pub record RunMetrics : Type 0 where
  pub content_length_bytes : Option (Option ℕ)
  pub hash_changed : Option Bool
  pub outcome : Option PollOutcome

abbrev pub no_metrics : RunMetrics
no_metrics = record { content_length_bytes = none; hash_changed = none; outcome = none }

pub record AgentRun : Type 0 where
  pub id : Uuid
  pub workflow_type : AgentWorkflowType
  pub restaurant_id : Option Uuid
  pub status : AgentRunStatus
  pub error_message : Option NodeMessage
  pub metrics : RunMetrics

-- The actions that the modelled code logs.
pub data AuditAction : Type 0 where
  agent_run_trigger ai_extraction : AuditAction
  proposed_change_create proposed_change_edit proposed_change_approve : AuditAction
  proposed_change_reject proposed_change_publish : AuditAction

pub record AuditLog (J : Type 0) : Type 0 where
  pub action : AuditAction
  pub entity_id : Uuid
  pub actor_id : Option Uuid
  pub old_values : Option J
  pub new_values : Option J

-- The tables, newest row first; `restaurants` holds the production trees. `next_id` is what the next
-- `uuid4()` returns: the counter stands for the assumption that a UUID is never drawn twice.
pub record Database (J : Type 0) : Type 0 where
  pub proposed_changes : List (ProposedChange J)
  pub approvals : List Approval
  pub audit_log : List (AuditLog J)
  pub agent_runs : List AgentRun
  pub restaurants : List Restaurant
  pub sources : List Source
  pub snapshots : List SourceSnapshot
  pub next_id : Uuid

-- The exceptions that the modelled code lets escape.
pub data Failure : Type 0 where
  multiple_results_found integrity_error key_error not_found no_thread : Failure
  validation_error storage_failed value_error data_error : Failure
  conflict : ProposedChangeStatus → Failure

pub data Result {ℓ} (A : Type ℓ) : Type ℓ where
  ok : A → Result A
  raised : Failure → Result A

infixl 5 ◌>>=◌
abbrev pub ◌>>=◌ {ℓ κ} : {A : Type ℓ} {B : Type κ} → Result A → (A → Result B) → Result B
ok a >>= f = f a
raised e >>= f = raised e

-- The result satisfies `P` if it is one, and the exception `E` if it is raised.
abbrev pub Gives {ℓ} : {A : Type ℓ} → (A → Type 0) → (Failure → Type 0) → Result A → Type 0
Gives P E (ok a) = P a
Gives P E (raised e) = E e

pub Gives-map {ℓ} :
    {A : Type ℓ} (P Q : A → Type 0) (E F : Failure → Type 0) (r : Result A)
    → ((a : A) → P a → Q a)
    → ((e : Failure) → E e → F e)
    → Gives P E r
    → Gives Q F r
Gives-map P Q E F (ok a) f g h = f a h
Gives-map P Q E F (raised e) f g h = g e h

pub Gives-bind {ℓ κ} :
    {A : Type ℓ} {B : Type κ} (P : A → Type 0) (Q : B → Type 0) (E : Failure → Type 0)
    (m : Result A) (f : A → Result B)
    → Gives P E m
    → ((a : A) → P a → Gives Q E (f a))
    → Gives Q E (m >>= f)
Gives-bind P Q E (ok a) f h k = k a h
Gives-bind P Q E (raised e) f h k = h
