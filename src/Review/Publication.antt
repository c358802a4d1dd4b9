-- ===== src/Review/Publication.antt =====
-- workflows/collector_workflow/nodes/publish.py: what the publish node writes, and when it refuses.
use hungrx_agent.Prelude.{
  ◌≡◌, ◌≢◌, refl, inl, inr, ◌⊎◌, Option, none, some, List, [], ◌∷◌, true, false, Bool-cases,
}
use hungrx_agent.Text.{Unicode}
use hungrx_agent.Schema.Menu.{Uuid}
use hungrx_agent.Schema.Restaurant.{Restaurant}
use hungrx_agent.Validation.Result.{is_valid}
use hungrx_agent.Validation.SchemaCheck.{
  SchemaError, SchemaResult, accepted, refused, validate_schema,
}
use hungrx_agent.Validation.Corrections.{apply_safe_corrections}
use hungrx_agent.Validation.Engine.{raw, validate}
use hungrx_agent.Validation.Engine.Outcome.{IsPublishable, is_valid-validate}
use hungrx_agent.Review.Rows.{
  approved, published, Database, NodeMessage, Gives, Gives-map, Failure, validation_error,
  ProposedChangeStatus, pending, rejected, already_published, integrity_error, data_error,
  proposed_change_publish,
}
use hungrx_agent.Review.Repositories.{
  set_status, get_published_for_entity, update_status, mark_failed, mark_succeeded, log,
}
use hungrx_agent.Review.Columns.{tree_fits}
use hungrx_agent.Review.Production.{breaks_key, stored, persist_tree}
use hungrx_agent.Review.State.{CollectorState, StateUpdate}
use hungrx_agent.Review.Nodes.{Pydantic, fail_run, succeed_run}
use hungrx_agent.Review.Nodes.DeterministicValidation.{validate_json}
use hungrx_agent.Review.Nodes.Publish.{
  has_approval, refuse, other_change, write_tree, publish_restaurant, publish_parsed, write_unless,
  publish_json, publish_approved, publish_node,
}

module _ {J : Type 0} where
  -- Nothing was published: the production tables, the changes and the approvals are as they were, and an
  -- error is reported.
  pub record IsRefusal (db db' : Database J) (update : StateUpdate J) : Type 0 where
    pub unpublished : update.published_restaurant_id ≡ none
    pub restaurants : db'.restaurants ≡ db.restaurants
    pub changes : db'.proposed_changes ≡ db.proposed_changes
    pub approvals : db'.approvals ≡ db.approvals
    pub reports : update.errors ≢ []

  -- The restaurant was inserted, the change marked, and the restaurant's id reported.
  pub record IsInsertion (change_id : Uuid) (r : Restaurant) (db db' : Database J)
      (update : StateUpdate J) : Type 0 where
    pub new_keys : breaks_key r db.restaurants ≡ false
    pub fitting : tree_fits r ≡ true
    pub sole : other_change change_id (get_published_for_entity r.id db) ≡ none
    pub restaurants : db'.restaurants ≡ stored r ∷ db.restaurants
    pub changes : db'.proposed_changes ≡ set_status change_id published db.proposed_changes
    pub approvals : db'.approvals ≡ db.approvals
    pub reported : update.published_restaurant_id ≡ some r.id
    pub silent : update.errors ≡ []

  refuse-IsRefusal :
      (run_id : Option Uuid) (m : NodeMessage) (db : Database J)
      → IsRefusal db (refuse run_id m db).1 (refuse run_id m db).0
  unfolding refuse fail_run mark_failed
  refuse-IsRefusal none m db = record {
    unpublished = refl;
    restaurants = refl;
    changes = refl;
    approvals = refl;
    reports = λ e. cc e;
  }
  refuse-IsRefusal (some id) m db = record {
    unpublished = refl;
    restaurants = refl;
    changes = refl;
    approvals = refl;
    reports = λ e. cc e;
  }

  -- The approved restaurant was inserted.
  pub record IsPublication (u : Unicode) (py : Pydantic J) (state : CollectorState J)
      (db db' : Database J) (update : StateUpdate J) : Type 0 where
    pub json : J
    pub tree : Restaurant
    pub change_id : Uuid
    pub approval : state.human_approval_status ≡ some approved
    pub json_of_state : state.structured_json ≡ some json
    pub change_of_state : state.proposed_change_id ≡ some change_id
    pub parsed_json : py.model_validate json ≡ accepted tree
    pub sound : IsPublishable u (apply_safe_corrections u tree).0
    pub insertion : IsInsertion change_id tree db db' update

  update_status-keeps :
      (c : Uuid) (run_id : Option Uuid) (db : Database J)
      → let db' =
          succeed_run run_id
            (log proposed_change_publish c none none none (update_status c published db)) in
        (db'.restaurants ≡ db.restaurants)
        × (db'.proposed_changes ≡ set_status c published db.proposed_changes)
        × (db'.approvals ≡ db.approvals)
  unfolding succeed_run mark_succeeded log update_status
  update_status-keeps c none db = (refl, refl, refl)
  update_status-keeps c (some id) db = (refl, refl, refl)

  -- The exceptions of an insert, each with its reason
  abbrev pub IsRefusedInsert : Restaurant → Database J → Failure → Type 0
  IsRefusedInsert r db e =
      ((e ≡ integrity_error) × (breaks_key r db.restaurants ≡ true))
      ⊎ ((e ≡ data_error) × (tree_fits r ≡ false))

  write_tree_lem :
      (c : Uuid) (run_id : Option Uuid) (r : Restaurant) (db : Database J)
      → other_change c (get_published_for_entity r.id db) ≡ none
      → Gives
          (λ (p : StateUpdate J × Database J). IsInsertion c r db p.1 p.0)
          (IsRefusedInsert r db)
          (write_tree c run_id r db)
  unfolding write_tree persist_tree
  write_tree_lem c run_id r db sole = elim (Bool-cases (breaks_key r db.restaurants)) [
    | inl e ↦ rw e (inl (refl, e))
    | inr e ↦ elim (Bool-cases (tree_fits r)) [
      | inr n ↦ rw e (rw n (inr (refl, n)))
      | inl y ↦ rw e (
          rw y (
            let (a, b, d) =
              update_status-keeps c run_id
                (record db { restaurants = stored r ∷ db.restaurants }) in
            record {
              new_keys = e;
              fitting = y;
              sole = sole;
              restaurants = a;
              changes = b;
              approvals = d;
              reported = refl;
              silent = refl;
            }))
    ]
  ]

  write_unless_lem :
      (other : Option Uuid) (c : Uuid) (run_id : Option Uuid) (r : Restaurant) (db : Database J)
      → other_change c (get_published_for_entity r.id db) ≡ other
      → Gives
          (λ (p : StateUpdate J × Database J). IsRefusal db p.1 p.0 ⊎ IsInsertion c r db p.1 p.0)
          (IsRefusedInsert r db)
          (write_unless other c run_id r db)
  unfolding write_unless
  write_unless_lem (some x) c run_id r db h =
      inl (refuse-IsRefusal run_id (already_published r.id x) db)
  write_unless_lem none c run_id r db h =
      Gives-map _ _ _ _ (write_tree c run_id r db) (λ p i. inr i) (λ f i. i)
        (write_tree_lem c run_id r db h)

module _ {J : Type 0} (u : Unicode) (py : Pydantic J) where
  -- What a run of the node is, when it returns.
  abbrev pub IsPublishStep : CollectorState J → Database J → StateUpdate J × Database J → Type 0
  IsPublishStep state db (update, db') =
      IsRefusal db db' update ⊎ IsPublication u py state db db' update

  -- An exception of the node: the insert of the parsed restaurant was refused, or the JSON does not parse
  -- though the engine finds it valid.
  abbrev pub IsPublishFailure : CollectorState J → Database J → Failure → Type 0
  IsPublishFailure state db e =
      (json : J) × (state.structured_json ≡ some json)
      × (((r : Restaurant) × (py.model_validate json ≡ accepted r) × IsRefusedInsert r db e)
          ⊎ ((es : List SchemaError) × (py.model_validate json ≡ refused es)
              × (is_valid (validate u (raw (refused es))) ≡ true)
              × (e ≡ validation_error)))

  module _ (state : CollectorState J) (db : Database J) (json : J) (c : Uuid)
      (approval : state.human_approval_status ≡ some approved)
      (hj : state.structured_json ≡ some json) (hc : state.proposed_change_id ≡ some c) where
    publish_parsed_lem :
        (s : SchemaResult)
        → py.model_validate json ≡ s
        → is_valid (validate u (raw s)) ≡ true
        → Gives
            (IsPublishStep state db)
            (IsPublishFailure state db)
            (publish_parsed c state.agent_run_id s db)
    unfolding publish_parsed publish_restaurant validate validate_schema
    publish_parsed_lem (refused es) hs v = (json, hj, inr (es, hs, v, refl))
    publish_parsed_lem (accepted r) hs v =
        Gives-map _ _ _ _
          (write_unless (other_change c (get_published_for_entity r.id db)) c state.agent_run_id r
            db)
          (λ p h. elim h [
            | inl n ↦ inl n
            | inr i ↦ inr (record {
              json = json;
              tree = r;
              change_id = c;
              approval = approval;
              json_of_state = hj;
              change_of_state = hc;
              parsed_json = hs;
              sound = (is_valid-validate u r).0 v;
              insertion = i;
            })
          ])
          (λ f h. (json, hj, inl (r, hs, h))) (write_unless_lem _ c state.agent_run_id r db refl)

    publish_json_lem :
        Gives
          (IsPublishStep state db)
          (IsPublishFailure state db)
          (publish_json u py json c state.agent_run_id db)
    unfolding publish_json validate_json
    publish_json_lem = elim (Bool-cases (is_valid (validate u (raw (py.model_validate json))))) [
      | inl v ↦ rw v (publish_parsed_lem (py.model_validate json) refl v)
      | inr v ↦ rw v (inl (refuse-IsRefusal state.agent_run_id _ db))
    ]

  publish_approved_lem :
      (json : Option J) (c : Option Uuid) (state : CollectorState J) (db : Database J)
      → state.human_approval_status ≡ some approved
      → state.structured_json ≡ json
      → state.proposed_change_id ≡ c
      → Gives
          (IsPublishStep state db)
          (IsPublishFailure state db)
          (publish_approved u py json c state.agent_run_id db)
  unfolding publish_approved
  publish_approved_lem (some json) (some c) state db a hj hc =
      publish_json_lem state db json c a hj hc
  publish_approved_lem none c state db a hj hc = inl (refuse-IsRefusal state.agent_run_id _ db)
  publish_approved_lem (some json) none state db a hj hc =
      inl (refuse-IsRefusal state.agent_run_id _ db)

  has_approval_lem : (s : Option ProposedChangeStatus) → has_approval s ≡ true → s ≡ some approved
  has_approval_lem none h = cc h
  has_approval_lem (some pending) h = cc h
  has_approval_lem (some approved) h = refl
  has_approval_lem (some rejected) h = cc h
  has_approval_lem (some published) h = cc h

  -- The publish node, when it returns, either refuses and leaves the production tables, the changes and
  -- the approvals as they were, or the change of the state was approved, its JSON parses to a restaurant
  -- that is publishable after the safe corrections, and the node has inserted this restaurant, marked the
  -- change published and reported the id. It raises an exception only if the JSON parses to a restaurant
  -- of which a primary key is taken or a row does not fit its columns, an integrity error and a data error, or
  -- does not parse though it was found valid, a validation error.
  pub publish_node_lem :
      (state : CollectorState J) (db : Database J)
      → Gives (IsPublishStep state db) (IsPublishFailure state db) (publish_node u py state db)
  unfolding publish_node
  publish_node_lem state db = elim (Bool-cases (has_approval state.human_approval_status)) [
    | inl a ↦ rw a (publish_approved_lem _ _ state db (has_approval_lem _ a) refl refl)
    | inr a ↦ rw a (inl (refuse-IsRefusal state.agent_run_id _ db))
  ]
