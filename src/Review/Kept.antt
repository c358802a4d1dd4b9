-- ===== src/Review/Kept.antt =====
-- The workflows' nodes: which tables they leave as they were.
use hungrx_agent.Prelude.{◌≡◌, refl, ◌∙◌, Option, none, some}
use hungrx_agent.Schema.Menu.{Uuid}
use hungrx_agent.Review.Rows.{Database, NodeMessage, AuditAction, Result, ok, raised, Gives}
use hungrx_agent.Review.Repositories.{get_by_id, log, mark_failed}
use hungrx_agent.Review.State.{or_else}
use hungrx_agent.Review.Nodes.{fail_run, log_run}
use hungrx_agent.Review.Collector.Steps.{Keeps}

pub any_result {ℓ} : {A : Type ℓ} (m : Result A) → Gives (λ a. Unit) (λ e. Unit) m
any_result (ok a) = tt
any_result (raised e) = tt

pub undecided_still {ℓ} :
    {A : Type ℓ} (new old : Option A) → new ≡ none → old ≡ none → or_else new old ≡ none
undecided_still none old n h = h
undecided_still (some x) old n h = absurd (cc n)

module _ {J : Type 0} where
  -- The proposed changes, the approvals and the production tables are as they were.
  pub record IsUntouched (db db' : Database J) : Type 0 where
    pub changes : db'.proposed_changes ≡ db.proposed_changes
    pub approvals : db'.approvals ≡ db.approvals
    pub restaurants : db'.restaurants ≡ db.restaurants

  pub IsUntouched-trans : (a b c : Database J) → IsUntouched a b → IsUntouched b c → IsUntouched a c
  IsUntouched-trans a b c h k = record {
    changes = k.changes ∙ h.changes;
    approvals = k.approvals ∙ h.approvals;
    restaurants = k.restaurants ∙ h.restaurants;
  }

  abbrev pub same : (db : Database J) → IsUntouched db db
  same db = record { changes = refl; approvals = refl; restaurants = refl }

  pub log_run-IsUntouched :
      (action : AuditAction) (run_id : Option Uuid) (db : Database J)
      → IsUntouched db (log_run action run_id db)
  unfolding log_run log
  log_run-IsUntouched action none db = same db
  log_run-IsUntouched action (some id) db = record {
    changes = refl;
    approvals = refl;
    restaurants = refl;
  }

  pub fail_run-IsUntouched :
      (run_id : Option Uuid) (message : NodeMessage) (db : Database J)
      → IsUntouched db (fail_run run_id message db)
  unfolding fail_run mark_failed
  fail_run-IsUntouched none message db = same db
  fail_run-IsUntouched (some id) message db = record {
    changes = refl;
    approvals = refl;
    restaurants = refl;
  }

  -- No change is lost, and the approvals and the production tables are as they were.
  abbrev pub IsKept : Database J → Database J → Type 0
  IsKept db db' = Keeps db db' × (db'.restaurants ≡ db.restaurants)

  pub IsUntouched-IsKept : (db db' : Database J) → IsUntouched db db' → IsKept db db'
  unfolding get_by_id
  IsUntouched-IsKept db db' n =
      (record { changes = λ id h. rw n.changes h; approvals = n.approvals }, n.restaurants)

  pub IsKept-trans : (a b c : Database J) → IsKept a b → IsKept b c → IsKept a c
  IsKept-trans a b c h k = (
    record {
      changes = λ id e. k.0.changes id (h.0.changes id e);
      approvals = k.0.approvals ∙ h.0.approvals;
    },
    k.1 ∙ h.1,
  )
