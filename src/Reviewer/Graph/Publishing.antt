-- ===== src/Reviewer/Graph/Publishing.antt =====
-- workflows/reviewer_workflow/nodes/publish.py: the tables that it keeps.
use hungrx_agent.Prelude.{
  ◌≡◌, refl, ◌∙◌, Bool, Bool-cases, inl, inr, true, false, Option, none, some, List, [], ◌∷◌, ◌||◌,
  map, if◌then◌else◌,
}
use hungrx_agent.Text.{Unicode}
use hungrx_agent.Json.{Json}
use hungrx_agent.Review.Kept.{fail_run-IsUntouched, IsUntouched-IsKept}
use hungrx_agent.Schema.Menu.{Uuid, Dish}
use hungrx_agent.Schema.Restaurant.{Restaurant}
use hungrx_agent.Validation.Result.{is_valid}
use hungrx_agent.Validation.SchemaCheck.{SchemaResult, accepted, refused}
use hungrx_agent.Review.Rows.{
  published, proposed_change_publish, Database, NodeMessage, integrity_error, ok, raised, Gives,
  Gives-bind,
}
use hungrx_agent.Review.Repositories.{get_by_id, log, update_status, mark_succeeded}
use hungrx_agent.Review.Columns.{dish_fits, all_of}
use hungrx_agent.Review.Production.{has_id, collect, category_keys}
use hungrx_agent.Review.Nodes.{Pydantic, succeed_run}
use hungrx_agent.Review.Nodes.DeterministicValidation.{validate_json}
use hungrx_agent.Review.Nodes.Publish.{has_approval}
use hungrx_agent.Review.Collector.Steps.{Keeps, find_change-set_status_kept}
use hungrx_agent.Reviewer.Delta.{DeltaOp, is_removed, FieldDelta, JsonDelta}
use hungrx_agent.Reviewer.State.{ReviewerState}
use hungrx_agent.Reviewer.Patch.{
  Position, scalar_fits, set_scalars, touch_all, removed_dish, target_dish, remove_named,
  write_named, apply_touched, apply_dishes, apply_patch,
}
use hungrx_agent.Reviewer.Patch.Rows.{
  dish_rows, find_dish, change_row, add_row, edit_rows, insert_dish, insert_or_update, write_dish,
  write_got, delete_dish, delete_all, delete_row, get_row, flush, is_doomed, holds, held_if_found,
  row_written, Session, update_restaurant,
}
use hungrx_agent.Reviewer.Nodes.Publish.{
  refuse_update, is_in_production, patch_existing, publish_existing, publish_model, publish_delta,
  publish_given, publish_update_node,
}

module _ {J : Type 0} where
  -- The changes and the approvals are as they were.
  pub record SameReviews (db db' : Database J) : Type 0 where
    pub changes : db'.proposed_changes ≡ db.proposed_changes
    pub approvals : db'.approvals ≡ db.approvals

  SameReviews-trans : (a b c : Database J) → SameReviews a b → SameReviews b c → SameReviews a c
  SameReviews-trans a b c h k = record {
    changes = k.changes ∙ h.changes;
    approvals = k.approvals ∙ h.approvals;
  }

  insert_or_update-SameReviews :
      (o : Option Dish) (d : Dish) (db : Database J)
      → Gives (SameReviews db) (λ e. Unit) (insert_or_update o d db)
  unfolding insert_or_update insert_dish edit_rows
  insert_or_update-SameReviews o d db = elim (Bool-cases (dish_fits d)) [
    | inl fitting ↦ rw fitting (by_row o)
    | inr large ↦ rw large tt
  ]
    where
      by_key :
          (b : Bool)
          → Gives
              (SameReviews db)
              (λ e. Unit)
              (if b then ok (edit_rows (add_row d) db) else raised integrity_error)
      by_key true = record { changes = refl; approvals = refl }
      by_key false = tt

      by_row :
          (o : Option Dish)
          → Gives
              (SameReviews db)
              (λ e. Unit)
              (elim o [
                | none ↦ insert_dish d db
                | some old ↦ ok (edit_rows (λ id. map (change_row d)) db)
              ])
      by_row none = by_key (has_id d.category_id (collect category_keys db.restaurants))
      by_row (some row) = record { changes = refl; approvals = refl }

  delete_all-SameReviews : (ids : List Uuid) (db : Database J) → SameReviews db (delete_all ids db)
  unfolding delete_all delete_dish edit_rows
  delete_all-SameReviews [] db = record { changes = refl; approvals = refl }
  delete_all-SameReviews (id ∷ ids) db =
      let h = delete_all-SameReviews ids (delete_dish id db) in
      record { changes = h.changes; approvals = h.approvals }

  abbrev InSession : Database J → Session J → Type 0
  InSession db s = SameReviews db s.database

  flush-InSession : (db : Database J) (s : Session J) → InSession db s → InSession db (flush s)
  unfolding flush
  flush-InSession db s h =
      SameReviews-trans db s.database (delete_all s.doomed s.database) h
        (delete_all-SameReviews s.doomed s.database)

  get_row-InSession :
      (id : Uuid) (db : Database J) (s : Session J) → InSession db s → InSession db (get_row id s)
  unfolding get_row
  get_row-InSession id db s h = elim (Bool-cases (holds s.existing id || is_doomed id s)) [
    | inl e ↦ rw e h
    | inr e ↦ rw e (flush-InSession db s h)
  ]

  write_got-InSession :
      (d : Dish) (db : Database J) (s : Session J)
      → InSession db s
      → Gives (InSession db) (λ e. Unit) (write_got d s)
  unfolding write_got row_written
  write_got-InSession d db s h = elim (Bool-cases (is_doomed d.id s)) [
    | inl e ↦ rw e h
    | inr e ↦
        let row = find_dish d.id (dish_rows s.database.restaurants) in
        rw e (
          Gives-bind (SameReviews s.database) (InSession db) (λ e. Unit)
            (insert_or_update row d s.database) (λ db'. ok (row_written (held_if_found row) s db'))
            (insert_or_update-SameReviews row d s.database)
            (λ db' k. SameReviews-trans db s.database db' h k))
  ]

  module _ (read_uuid : Json → Option Uuid) (target : Restaurant) (fields : List FieldDelta) where
    apply_touched-InSession :
        (p : Position) (op : DeltaOp) (db : Database J) (s : Session J)
        → InSession db s
        → Gives (InSession db) (λ e. Unit) (apply_touched read_uuid target fields p op s)
    unfolding apply_touched remove_named write_named delete_row write_dish
    apply_touched-InSession p op db s h = by_op (is_removed op)
      where
        removing : (id : Option Uuid) → InSession db (remove_named id s)
        removing none = h
        removing (some id) = get_row-InSession id db s h

        writing : (d : Option Dish) → Gives (InSession db) (λ e. Unit) (write_named d s)
        writing none = h
        writing (some d) = write_got-InSession d db (get_row d.id s) (get_row-InSession d.id db s h)

        by_op :
            (b : Bool)
            → Gives
                (InSession db)
                (λ e. Unit)
                (if b
                  then ok (remove_named (removed_dish read_uuid p fields) s)
                  else write_named (target_dish target p) s)
        by_op true = removing (removed_dish read_uuid p fields)
        by_op false = writing (target_dish target p)

    apply_dishes-InSession :
        (touched : List (Position × DeltaOp)) (db : Database J) (s : Session J)
        → InSession db s
        → Gives (InSession db) (λ e. Unit) (apply_dishes read_uuid target fields touched s)
    unfolding apply_dishes
    apply_dishes-InSession [] db s h = h
    apply_dishes-InSession ((p, op) ∷ rest) db s h =
        Gives-bind (InSession db) (InSession db) (λ e. Unit)
          (apply_touched read_uuid target fields p op s) (apply_dishes read_uuid target fields rest)
          (apply_touched-InSession p op db s h) (λ s' k. apply_dishes-InSession rest db s' k)

  apply_patch-SameReviews :
      (read_uuid : Json → Option Uuid) (id : Uuid) (target : Restaurant) (delta : JsonDelta)
      (db : Database J)
      → Gives (SameReviews db) (λ e. Unit) (apply_patch read_uuid id target delta db)
  unfolding apply_patch update_restaurant
  apply_patch-SameReviews read_uuid id target delta db =
      let touched = touch_all delta.fields (record { scalars = []; dishes = [] }) in
      let session : Session J = record {
        database = update_restaurant id (set_scalars target touched.scalars) db;
        doomed = [];
        existing = none;
      } in
      elim (Bool-cases (all_of (scalar_fits target) touched.scalars)) [
        | inr large ↦ rw large tt
        | inl fitting ↦ rw fitting (
            Gives-bind (InSession db) (SameReviews db) (λ e. Unit)
              (apply_dishes read_uuid target delta.fields touched.dishes session)
              (λ s. ok (flush s).database)
              (apply_dishes-InSession read_uuid target delta.fields touched.dishes db session
                (record { changes = refl; approvals = refl }))
              (λ s h. flush-InSession db s h))
      ]

  -- A publication that has not taken place leaves the production tables.
  pub record IsPublishing (db : Database J) (p : ReviewerState J × Database J) : Type 0 where
    pub keeps : Keeps db p.1
    pub unpublished : p.0.published_restaurant_id ≡ none → p.1.restaurants ≡ db.restaurants

  refuse_update-IsPublishing :
      (run_id : Option Uuid) (message : NodeMessage) (db : Database J)
      → IsPublishing db (refuse_update run_id message db)
  unfolding refuse_update
  refuse_update-IsPublishing run_id message db =
      let kept = IsUntouched-IsKept db _ (fail_run-IsUntouched run_id message db) in
      record { keeps = kept.0; unpublished = λ e. kept.1 }

  succeeded-Keeps :
      (change_id : Uuid) (run_id : Option Uuid) (db db' : Database J)
      → SameReviews db db'
      → Keeps db (
          succeed_run run_id (
            log proposed_change_publish change_id none none none
              (update_status change_id published db')))
  unfolding succeed_run log update_status mark_succeeded get_by_id
  succeeded-Keeps change_id none db db' h = record {
    changes = λ id k.
        find_change-set_status_kept id change_id published db'.proposed_changes (rw h.changes k);
    approvals = h.approvals;
  }
  succeeded-Keeps change_id (some run) db db' h = record {
    changes = λ id k.
        find_change-set_status_kept id change_id published db'.proposed_changes (rw h.changes k);
    approvals = h.approvals;
  }

  module _ (read_uuid : Json → Option Uuid) where
    publish_existing-IsPublishing :
        (change_id : Uuid) (run_id : Option Uuid) (delta : JsonDelta) (r : Restaurant)
        (db : Database J)
        → Gives
            (IsPublishing db)
            (λ e. Unit)
            (publish_existing read_uuid change_id run_id delta r db)
    unfolding publish_existing patch_existing
    publish_existing-IsPublishing change_id run_id delta r db =
        elim (Bool-cases (is_in_production r.id db)) [
          | inr e ↦ rw e (refuse_update-IsPublishing run_id _ db)
          | inl e ↦ rw e (
              Gives-bind (SameReviews db) (IsPublishing db) (λ e. Unit)
                (apply_patch read_uuid r.id r delta db) _
                (apply_patch-SameReviews read_uuid r.id r delta db)
                (λ db' h. record {
                  keeps = succeeded-Keeps change_id run_id db db' h;
                  unpublished = λ e. absurd (cc e);
                }))
        ]

module _ {J : Type 0} (u : Unicode) (py : Pydantic J) (read_uuid : Json → Option Uuid) where
  publish_delta-IsPublishing :
      (json : J) (change_id : Uuid) (delta : JsonDelta) (run_id : Option Uuid) (db : Database J)
      → Gives
          (IsPublishing db)
          (λ e. Unit)
          (publish_delta u py read_uuid json change_id delta run_id db)
  unfolding publish_delta publish_model
  publish_delta-IsPublishing json change_id delta run_id db =
      elim (Bool-cases (is_valid (validate_json u py json))) [
        | inl e ↦ rw e (by_model (py.model_validate json))
        | inr e ↦ rw e (refuse_update-IsPublishing run_id _ db)
      ]
    where
      by_model :
          (m : SchemaResult)
          → Gives
              (IsPublishing db)
              (λ e. Unit)
              (publish_model read_uuid change_id run_id delta m db)
      by_model (accepted r) = publish_existing-IsPublishing read_uuid change_id run_id delta r db
      by_model (refused complaints) = tt

  -- The last node loses no change and leaves the approvals; without a publication it leaves the tables.
  pub publish_update-IsPublishing :
      (state : ReviewerState J) (db : Database J)
      → Gives (IsPublishing db) (λ e. Unit) (publish_update_node u py read_uuid state db)
  unfolding publish_update_node publish_given
  publish_update-IsPublishing state db =
      elim (Bool-cases (has_approval state.human_approval_status)) [
        | inr e ↦ rw e (refuse_update-IsPublishing state.agent_run_id _ db)
        | inl e ↦
            rw e (by_keys state.validated_structured_json state.proposed_change_id state.delta)
      ]
    where
      by_keys :
          (json : Option J) (id : Option Uuid) (delta : Option JsonDelta)
          → Gives
              (IsPublishing db)
              (λ e. Unit)
              (publish_given u py read_uuid json id delta state.agent_run_id db)
      by_keys (some json) (some id) (some delta) =
          publish_delta-IsPublishing json id delta state.agent_run_id db
      by_keys none id delta = refuse_update-IsPublishing state.agent_run_id _ db
      by_keys (some json) none delta = refuse_update-IsPublishing state.agent_run_id _ db
      by_keys (some json) (some id) none = refuse_update-IsPublishing state.agent_run_id _ db
