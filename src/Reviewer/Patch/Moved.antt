-- ===== src/Reviewer/Patch/Moved.antt =====
-- workflows/reviewer_workflow/nodes/delta_patch.py: a dish that has been moved to another place.
use hungrx_agent.Prelude.{◌≡◌, refl, ◌∙◌, true, false, Option, none, some, [], ◌∷◌, ==_self, ap}
use hungrx_agent.Json.{Json}
use hungrx_agent.Schema.Menu.{Uuid, Dish}
use hungrx_agent.Schema.Restaurant.{Restaurant}
use hungrx_agent.Review.Columns.{all_of}
use hungrx_agent.Review.Production.{has_id}
use hungrx_agent.Review.Rows.{Database, ok, ◌>>=◌}
use hungrx_agent.Reviewer.Delta.{is_removed, FieldDelta}
use hungrx_agent.Reviewer.Patch.{
  Position, dish_position, scalar_field, note_touched, same_position, touch_dish, touch_as,
  touch_all, set_scalars, target_dish, dish_id_from_value, removed_dish, remove_named, write_named,
  apply_touched, apply_dishes, apply_patch,
}
use hungrx_agent.Reviewer.Patch.Rows.{
  dish_rows, find_dish, delete_dish, delete_all, Session, flush, is_doomed, get_row, delete_row,
  write_got, write_dish, update_restaurant,
}
use hungrx_agent.Reviewer.Patch.Named.{same_position_self, map-same}

module _ (read_uuid : Json → Option Uuid) {J : Type 0} (restaurant_id : Uuid) (target : Restaurant)
    (p q : Position) (removal added : FieldDelta) (dish : Dish) (db : Database J) where
  -- A delta that removes the dish at one place and adds it at another
  pub record IsMove : Type 0 where
    pub removal_at : dish_position removal.path ≡ some p
    pub added_at : dish_position added.path ≡ some q
    pub removal_no_scalar : scalar_field removal.path ≡ none
    pub added_no_scalar : scalar_field added.path ≡ none
    pub is_removal : is_removed removal.op ≡ true
    pub is_no_removal : is_removed added.op ≡ false
    pub apart : same_position p q ≡ false
    pub removes : dish_id_from_value read_uuid removal.old_value ≡ some dish.id
    pub adds : target_dish target q ≡ some dish
    pub row : Dish
    pub there : find_dish dish.id (dish_rows db.restaurants) ≡ some row

  -- The session once the dish has been deleted in it
  abbrev doomed_session : Session J
  doomed_session = record { database = db; doomed = dish.id ∷ []; existing = none }

  removed_first :
      remove_named (some dish.id) (record { database = db; doomed = []; existing = none })
      ≡ doomed_session
  unfolding remove_named delete_row get_row flush is_doomed has_id delete_all
  removed_first = refl

  doomed_again : IsMove → is_doomed dish.id doomed_session ≡ true
  unfolding is_doomed has_id
  doomed_again h = rw (==_self dish.id) (rw h.there refl)

  got_again : IsMove → get_row dish.id doomed_session ≡ doomed_session
  unfolding get_row
  got_again h = rw (doomed_again h) refl

  lost :
      IsMove
      → write_got dish doomed_session ≡ ok (record doomed_session { existing = some dish.id })
  unfolding write_got
  lost h = rw (doomed_again h) refl

  -- The write comes to the row that is to be deleted.
  write_lost :
      IsMove
      → write_dish dish
          (remove_named (some dish.id) (record { database = db; doomed = []; existing = none }))
        ≡ ok (record doomed_session { existing = some dish.id })
  unfolding write_dish
  write_lost h =
      ap (λ s. write_got dish (get_row dish.id s)) removed_first
      ∙ ap (write_got dish) (got_again h)
      ∙ lost h

  -- When a delta removes a dish of the production tables at one place and then adds the dish with its id at
  -- another, the patch deletes the dish and does not write it again.
  pub apply_patch-move :
      IsMove
      → apply_patch read_uuid restaurant_id target (record { fields = removal ∷ added ∷ [] }) db
        ≡ ok (delete_dish dish.id db)
  unfolding apply_patch touch_all touch_as touch_dish note_touched apply_dishes apply_touched
      removed_dish set_scalars update_restaurant all_of write_named flush delete_all
  apply_patch-move h =
      let self = same_position_self p in
      let same = map-same restaurant_id db.restaurants in
      simp
        (
          h.removal_no_scalar, h.added_no_scalar, h.removal_at, h.added_at, h.is_removal,
          h.is_no_removal, h.apart, h.removes, h.adds, self, same,
        )
        (ap (λ r. (r >>= λ s. ok s) >>= λ (s : Session J). ok (flush s).database) (write_lost h))
