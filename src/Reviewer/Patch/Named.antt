-- ===== src/Reviewer/Patch/Named.antt =====
-- workflows/reviewer_workflow/nodes/delta_patch.py: a patch touches the dishes that the delta names, and not
-- always those.
use hungrx_agent.Prelude.{
  ◌≡◌, refl, ap, inl, inr, true, false, Option, none, some, List, [], ◌∷◌, ◌==◌, Bool-cases, All,
  map, ==_self, if◌then◌else◌,
}
use hungrx_agent.Json.{Json}
use hungrx_agent.Schema.Menu.{Uuid, Dish}
use hungrx_agent.Schema.Restaurant.{Restaurant}
use hungrx_agent.Review.Rows.{Database, ok, Gives, Gives-bind}
use hungrx_agent.Reviewer.Delta.{DeltaOp, is_removed, FieldDelta, JsonDelta}
use hungrx_agent.Reviewer.Patch.{
  ScalarField, scalar_fits, scalar_field, Position, dish_position, note_touched, same_position,
  Touched, touch_dish, touch_as, touch_all, set_scalars, target_dish, dish_id_from_value,
  removed_dish, is_at, remove_named, write_named, apply_touched, apply_dishes, apply_patch,
}
use hungrx_agent.Reviewer.Patch.Rows.{
  Session, flush, delete_row, get_row, delete_dish, delete_all, is_doomed, find_dish,
  update_restaurant,
}
use hungrx_agent.Review.Columns.{all_of}
use hungrx_agent.Review.Production.{has_id}
use hungrx_agent.Reviewer.Patch.Untouched.{
  KeepsDish, KeepsInSession, flush-KeepsInSession, delete_row-KeepsInSession,
  write_dish-KeepsInSession, dish_rows-update, menus-set_scalars,
}

module _ (read_uuid : Json → Option Uuid) (target : Restaurant) (x : Uuid) where
  abbrev pub IsOther : Option Uuid → Type 0
  IsOther none = Unit
  IsOther (some id) = (id == x) ≡ false

  abbrev pub IsOtherDish : Option Dish → Type 0
  IsOtherDish none = Unit
  IsOtherDish (some d) = (d.id == x) ≡ false

  abbrev pub IsOtherAt : Option Position → Type 0
  IsOtherAt none = Unit
  IsOtherAt (some p) = IsOtherDish (target_dish target p)

  -- The entry does not name the dish `x`: the target has another dish at its path, and the dish that it
  -- removes, if it removes one, is another.
  abbrev pub IsUnnamed : FieldDelta → Type 0
  IsUnnamed f =
      IsOtherAt (dish_position f.path)
      × (if is_removed f.op then IsOther (dish_id_from_value read_uuid f.old_value) else Unit)

  removed_dish-IsOther :
      (p : Position) (fields : List FieldDelta)
      → All IsUnnamed fields
      → IsOther (removed_dish read_uuid p fields)
  unfolding removed_dish
  removed_dish-IsOther p [] h = tt
  removed_dish-IsOther p (f ∷ fields) (u, h) = elim (Bool-cases (is_removed f.op)) [
    | inl r ↦ elim (Bool-cases (is_at p (dish_position f.path))) [
      | inl a ↦ rw r (rw a (rw r at u.1))
      | inr a ↦ rw r (rw a (removed_dish-IsOther p fields h))
    ]
    | inr r ↦ rw r (removed_dish-IsOther p fields h)
  ]

  abbrev OthersTouched : List (Position × DeltaOp) → Type 0
  OthersTouched = All (λ (q : Position × DeltaOp). IsOtherDish (target_dish target q.0))

  note_touched-OthersTouched :
      (p : Position) (op : DeltaOp) (touched : List (Position × DeltaOp))
      → IsOtherDish (target_dish target p)
      → OthersTouched touched
      → OthersTouched (note_touched p op touched)
  unfolding note_touched
  note_touched-OthersTouched p op [] h k = (h, tt)
  note_touched-OthersTouched p op ((q, o) ∷ rest) h (k, ks) =
      elim (Bool-cases (same_position q p)) [
        | inl e ↦ rw e (k, ks)
        | inr e ↦ rw e (k, note_touched-OthersTouched p op rest h ks)
      ]

  touch_as-OthersTouched :
      (s : Option ScalarField) (f : FieldDelta) (t : Touched)
      → IsOtherAt (dish_position f.path)
      → OthersTouched t.dishes
      → OthersTouched (touch_as s f t).dishes
  unfolding touch_as
  touch_as-OthersTouched (some field) f t h k = k
  touch_as-OthersTouched none f t h k = by_position (dish_position f.path) h
    where
      by_position : (o : Option Position) → IsOtherAt o → OthersTouched (touch_dish o f.op t).dishes
      by_position none i = k
      by_position (some p) i = note_touched-OthersTouched p f.op t.dishes i k

  touch_all-OthersTouched :
      (fields : List FieldDelta) (t : Touched)
      → All IsUnnamed fields
      → OthersTouched t.dishes
      → OthersTouched (touch_all fields t).dishes
  unfolding touch_all
  touch_all-OthersTouched [] t h k = k
  touch_all-OthersTouched (f ∷ fields) t h k =
      touch_all-OthersTouched fields (touch_as (scalar_field f.path) f t) h.1
        (touch_as-OthersTouched (scalar_field f.path) f t h.0.0 k)

  module _ {J : Type 0} (fields : List FieldDelta) (unnamed : All IsUnnamed fields) where
    apply_touched-KeepsInSession :
        (p : Position) (op : DeltaOp) (db : Database J) (s : Session J)
        → IsOtherDish (target_dish target p)
        → KeepsInSession x db s
        → Gives (KeepsInSession x db) (λ e. Unit) (apply_touched read_uuid target fields p op s)
    unfolding apply_touched remove_named write_named
    apply_touched-KeepsInSession p op db s h k = elim (Bool-cases (is_removed op)) [
      | inl e ↦
          rw e (removal (removed_dish read_uuid p fields) (removed_dish-IsOther p fields unnamed))
      | inr e ↦ rw e (writing (target_dish target p) h)
    ]
      where
        removal : (o : Option Uuid) → IsOther o → KeepsInSession x db (remove_named o s)
        removal none i = k
        removal (some id) i = delete_row-KeepsInSession x id db s i k

        writing :
            (o : Option Dish)
            → IsOtherDish o
            → Gives (KeepsInSession x db) (λ e. Unit) (write_named o s)
        writing none i = k
        writing (some d) i = write_dish-KeepsInSession x d db s i k

    apply_dishes-KeepsInSession :
        (touched : List (Position × DeltaOp)) (db : Database J) (s : Session J)
        → OthersTouched touched
        → KeepsInSession x db s
        → Gives (KeepsInSession x db) (λ e. Unit) (apply_dishes read_uuid target fields touched s)
    unfolding apply_dishes
    apply_dishes-KeepsInSession [] db s h k = k
    apply_dishes-KeepsInSession ((p, op) ∷ rest) db s h k =
        Gives-bind (KeepsInSession x db) (KeepsInSession x db) (λ e. Unit)
          (apply_touched read_uuid target fields p op s) (apply_dishes read_uuid target fields rest)
          (apply_touched-KeepsInSession p op db s h.0 k)
          (λ s' k'. apply_dishes-KeepsInSession rest db s' h.1 k')

  module _ {J : Type 0} where
    -- A patch that goes through leaves every dish that its delta does not name as it was, and of the database
    -- it writes only the production trees; it names the dishes that the target has at the paths of its
    -- entries, and those whose ids stand in the old values of its removals.
    pub apply_patch-KeepsDish :
        (restaurant_id : Uuid) (delta : JsonDelta) (db : Database J)
        → All IsUnnamed delta.fields
        → Gives (KeepsDish x db) (λ e. Unit) (apply_patch read_uuid restaurant_id target delta db)
    unfolding apply_patch update_restaurant
    apply_patch-KeepsDish restaurant_id delta db h =
        let touched = touch_all delta.fields (record { scalars = []; dishes = [] }) in
        let f = set_scalars target touched.scalars in
        let updated = update_restaurant restaurant_id f db in
        let first : KeepsDish x db updated = record {
          found = ap (find_dish x) (
              dish_rows-update restaurant_id f (menus-set_scalars target touched.scalars)
                db.restaurants);
          elsewhere = refl;
        } in
        let session : Session J = record { database = updated; doomed = []; existing = none } in
        elim (Bool-cases (all_of (scalar_fits target) touched.scalars)) [
          | inr large ↦ rw large tt
          | inl fitting ↦ rw fitting (
              Gives-bind (KeepsInSession x db) (KeepsDish x db) (λ e. Unit)
                (apply_dishes read_uuid target delta.fields touched.dishes session)
                (λ s. ok (flush s).database)
                (apply_dishes-KeepsInSession delta.fields h touched.dishes db session
                  (touch_all-OthersTouched delta.fields (record { scalars = []; dishes = [] }) h tt)
                  (record { kept = first; others = tt }))
                (λ s k. (flush-KeepsInSession x db s k).kept))
        ]

pub same_position_self : (p : Position) → same_position p p ≡ true
unfolding same_position
same_position_self (i, j, k) = rw (==_self i) (rw (==_self j) (rw (==_self k) refl))

pub map-same :
    (id : Uuid) (rs : List Restaurant)
    → map (λ (r : Restaurant). if r.id == id then r else r) rs ≡ rs
map-same id [] = refl
map-same id (r ∷ rs) = elim (Bool-cases (r.id == id)) [
  | inl e ↦ rw e (ap (λ rest. r ∷ rest) (map-same id rs))
  | inr e ↦ rw e (ap (λ rest. r ∷ rest) (map-same id rs))
]

module _ (read_uuid : Json → Option Uuid) {J : Type 0} (restaurant_id : Uuid) (target : Restaurant)
    (p : Position) (removal other : FieldDelta) (db : Database J) where
  -- Two entries of a delta at one dish's place: a removal, and another that is none
  pub record ShareDish : Type 0 where
    pub removal_at : dish_position removal.path ≡ some p
    pub other_at : dish_position other.path ≡ some p
    pub removal_no_scalar : scalar_field removal.path ≡ none
    pub other_no_scalar : scalar_field other.path ≡ none
    pub is_removal : is_removed removal.op ≡ true
    pub is_no_removal : is_removed other.op ≡ false

  abbrev pub without_named : Option Uuid → Database J
  without_named none = db
  without_named (some id) = delete_dish id db

  flush-remove_named :
      (o : Option Uuid)
      → (flush (remove_named o (record { database = db; doomed = []; existing = none }))).database
        ≡ without_named o
  unfolding remove_named delete_row get_row flush is_doomed delete_all has_id
  flush-remove_named none = refl
  flush-remove_named (some id) = refl

  -- Of two entries at one dish's place of which one is a removal, in either order, only the removal is
  -- applied: the dish whose id its old value has is deleted, none if it has no id, and nothing is written.
  pub apply_patch-removal :
      ShareDish
      → (apply_patch read_uuid restaurant_id target (record { fields = removal ∷ other ∷ [] }) db
          ≡ ok (without_named (dish_id_from_value read_uuid removal.old_value)))
        × (apply_patch read_uuid restaurant_id target (record { fields = other ∷ removal ∷ [] }) db
            ≡ ok (without_named (dish_id_from_value read_uuid removal.old_value)))
  unfolding apply_patch touch_all touch_as touch_dish note_touched apply_dishes apply_touched
      removed_dish set_scalars update_restaurant all_of
  apply_patch-removal h =
      let self = same_position_self p in
      let same = map-same restaurant_id db.restaurants in
      let flushed = flush-remove_named (dish_id_from_value read_uuid removal.old_value) in
      (
        simp
            (
              h.removal_no_scalar, h.other_no_scalar, h.removal_at, h.other_at, h.is_removal,
              h.is_no_removal, self, same,
            )
            (ap ok flushed),
        simp
            (
              h.removal_no_scalar, h.other_no_scalar, h.removal_at, h.other_at, h.is_removal,
              h.is_no_removal, self, same,
            )
            (ap ok flushed),
      )
