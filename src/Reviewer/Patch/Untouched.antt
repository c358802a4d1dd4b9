-- ===== src/Reviewer/Patch/Untouched.antt =====
-- workflows/reviewer_workflow/nodes/delta_patch.py: the dishes that a delta does not name.
use hungrx_agent.Prelude.{
  ◌≡◌, refl, ap, ◌∙◌, sym, inl, inr, Bool, true, false, Option, none, some, List, [], ◌∷◌, ◌++◌,
  map, ◌==◌, ◌||◌, All, arith, Bool-cases, keep_if, if◌then◌else◌,
}
use hungrx_agent.Schema.Menu.{Uuid, Dish, MenuCategory, category, Categories, nil, cons, Menu}
use hungrx_agent.Schema.Restaurant.{Restaurant}
use hungrx_agent.Review.Rows.{Database, integrity_error, ok, raised, Gives, Gives-bind}
use hungrx_agent.Review.Columns.{dish_fits, stored_price}
use hungrx_agent.Review.Production.{has_id, collect, category_keys}
use hungrx_agent.Reviewer.Patch.{ScalarField, set_scalar, set_scalars}
use hungrx_agent.Reviewer.Patch.Rows.{
  category_dish_rows, children_dish_rows, menus_dish_rows, dish_rows, find_dish, edit_category,
  edit_children, edit_menus, edit_restaurants, change_row, add_row, without_row, edit_rows,
  insert_dish, insert_or_update, write_dish, write_got, delete_dish, delete_all, delete_row,
  get_row, flush, is_doomed, holds, held_if_found, row_written, Session, apply_dish_row_fields,
}

abbrev pub or_first {ℓ} : {A : Type ℓ} → Option A → Option A → Option A
or_first none later = later
or_first (some x) later = some x

or_first-none {ℓ} : {A : Type ℓ} (o : Option A) → or_first o none ≡ o
or_first-none none = refl
or_first-none (some x) = refl

pub find_dish-append :
    (x : Uuid) (xs ys : List Dish)
    → find_dish x (xs ++ ys) ≡ or_first (find_dish x xs) (find_dish x ys)
unfolding find_dish
find_dish-append x [] ys = refl
find_dish-append x (d ∷ xs) ys = ground (arith, find_dish-append x xs ys)

-- An edit that keeps the look-up of `x` in each category keeps it in the tables.
module _ (x : Uuid) (edit : Uuid → List Dish → List Dish)
    (keeps : (id : Uuid) (ds : List Dish) → find_dish x (edit id ds) ≡ find_dish x ds) where
  mutual
    unfolding category_dish_rows children_dish_rows edit_category edit_children

    find-category :
        (c : MenuCategory)
        → find_dish x (category_dish_rows (edit_category edit c))
          ≡ find_dish x (category_dish_rows c)
    find-category (category id name order children dishes) =
        find_dish-append x (edit id dishes) (children_dish_rows (edit_children edit children))
        ∙ rw (keeps id dishes) (
            rw (find-children children)
              (sym (find_dish-append x dishes (children_dish_rows children))))

    find-children :
        (cs : Categories)
        → find_dish x (children_dish_rows (edit_children edit cs))
          ≡ find_dish x (children_dish_rows cs)
    find-children nil = refl
    find-children (cons c cs) =
        find_dish-append x (category_dish_rows (edit_category edit c))
          (children_dish_rows (edit_children edit cs))
        ∙ rw (find-category c) (
            rw (find-children cs)
              (sym (find_dish-append x (category_dish_rows c) (children_dish_rows cs))))

  find-menus :
      (ms : List Menu)
      → find_dish x (menus_dish_rows (edit_menus edit ms)) ≡ find_dish x (menus_dish_rows ms)
  unfolding menus_dish_rows edit_menus
  find-menus [] = refl
  find-menus (m ∷ ms) =
      find_dish-append x (children_dish_rows (edit_children edit m.categories))
        (menus_dish_rows (edit_menus edit ms))
      ∙ rw (find-children m.categories) (
          rw (find-menus ms)
            (sym (find_dish-append x (children_dish_rows m.categories) (menus_dish_rows ms))))

  pub find_dish-edit_restaurants :
      (rs : List Restaurant)
      → find_dish x (dish_rows (edit_restaurants edit rs)) ≡ find_dish x (dish_rows rs)
  unfolding dish_rows edit_restaurants
  find_dish-edit_restaurants [] = refl
  find_dish-edit_restaurants (r ∷ rs) =
      find_dish-append x (menus_dish_rows (edit_menus edit r.menus))
        (dish_rows (edit_restaurants edit rs))
      ∙ rw (find-menus r.menus) (
          rw (find_dish-edit_restaurants rs)
            (sym (find_dish-append x (menus_dish_rows r.menus) (dish_rows rs))))

find_dish-change_row :
    (x : Uuid) (d : Dish) (ds : List Dish)
    → (d.id == x) ≡ false
    → find_dish x (map (change_row d) ds) ≡ find_dish x ds
unfolding find_dish apply_dish_row_fields
find_dish-change_row x d [] h = refl
find_dish-change_row x d (e ∷ ds) h = ground (arith, find_dish-change_row x d ds h)

find_dish-add_row :
    (x : Uuid) (d : Dish) (id : Uuid) (ds : List Dish)
    → (d.id == x) ≡ false
    → find_dish x (add_row d id ds) ≡ find_dish x ds
unfolding find_dish
find_dish-add_row x d id ds h = elim (Bool-cases (id == d.category_id)) [
  | inl e ↦
      let row : Dish = record d { price = stored_price d.price } in
      let none_there : find_dish x (row ∷ []) ≡ none = rw h refl in
      rw e (find_dish-append x ds (row ∷ []) ∙ rw none_there (or_first-none (find_dish x ds)))
  | inr e ↦ rw e refl
]

find_dish-without_row :
    (x id : Uuid) (ds : List Dish)
    → (id == x) ≡ false
    → find_dish x (without_row id ds) ≡ find_dish x ds
unfolding find_dish keep_if
find_dish-without_row x id [] h = refl
find_dish-without_row x id (e ∷ ds) h = ground (arith, find_dish-without_row x id ds h)

-- An update of the restaurant's own columns leaves the dishes.
pub dish_rows-update :
    (id : Uuid) (f : Restaurant → Restaurant)
    → ((r : Restaurant) → (f r).menus ≡ r.menus)
    → (rs : List Restaurant)
    → dish_rows (map (λ (r : Restaurant). if r.id == id then f r else r) rs) ≡ dish_rows rs
unfolding dish_rows
dish_rows-update id f keeps [] = refl
dish_rows-update id f keeps (r ∷ rs) = elim (Bool-cases (r.id == id)) [
  | inl e ↦ rw e (rw (keeps r) (rw (dish_rows-update id f keeps rs) refl))
  | inr e ↦ rw e (rw (dish_rows-update id f keeps rs) refl)
]

pub menus-set_scalars :
    (target : Restaurant) (fields : List ScalarField) (r : Restaurant)
    → (set_scalars target fields r).menus ≡ r.menus
unfolding set_scalars
menus-set_scalars target [] r = refl
menus-set_scalars target (field ∷ fields) r =
    menus-set_scalars target fields (set_scalar target field r) ∙ menus-set_scalar target field r
  where
    menus-set_scalar :
        (target : Restaurant) (field : ScalarField) (r : Restaurant)
        → (set_scalar target field r).menus ≡ r.menus
    menus-set_scalar target ScalarField.description r = refl
    menus-set_scalar target ScalarField.logo_url r = refl
    menus-set_scalar target ScalarField.cover_image_url r = refl
    menus-set_scalar target ScalarField.cuisine_types r = refl
    menus-set_scalar target ScalarField.website_url r = refl
    menus-set_scalar target ScalarField.gallery_image_urls r = refl

-- Nothing but the production trees differs, and the look-up of a dish is as it was.
pub record KeepsDish {J : Type 0} (x : Uuid) (db db' : Database J) : Type 0 where
  pub found : find_dish x (dish_rows db'.restaurants) ≡ find_dish x (dish_rows db.restaurants)
  pub elsewhere : record db' { restaurants = db.restaurants } ≡ db

abbrev pub AreOthers : Uuid → List Uuid → Type 0
AreOthers x = All (λ id. (id == x) ≡ false)

module _ {J : Type 0} (x : Uuid) where
  pub KeepsDish-trans : (a b c : Database J) → KeepsDish x a b → KeepsDish x b c → KeepsDish x a c
  KeepsDish-trans a b c h k = record {
    found = k.found ∙ h.found;
    elsewhere =
        ap (λ (d : Database J). record d { restaurants = a.restaurants }) k.elsewhere ∙ h.elsewhere;
  }

  pub edit_rows-KeepsDish :
      (edit : Uuid → List Dish → List Dish)
      → ((id : Uuid) (ds : List Dish) → find_dish x (edit id ds) ≡ find_dish x ds)
      → (db : Database J) → KeepsDish x db (edit_rows edit db)
  unfolding edit_rows
  edit_rows-KeepsDish edit keeps db = record {
    found = find_dish-edit_restaurants x edit keeps db.restaurants;
    elsewhere = refl;
  }

  insert_or_update-KeepsDish :
      (o : Option Dish) (d : Dish) (db : Database J)
      → (d.id == x) ≡ false
      → Gives (KeepsDish x db) (λ e. Unit) (insert_or_update o d db)
  unfolding insert_or_update insert_dish
  insert_or_update-KeepsDish o d db h = elim (Bool-cases (dish_fits d)) [
    | inl fitting ↦ rw fitting (by_row o)
    | inr large ↦ rw large tt
  ]
    where
      inserted :
          (b : Bool)
          → Gives
              (KeepsDish x db)
              (λ e. Unit)
              (if b then ok (edit_rows (add_row d) db) else raised integrity_error)
      inserted true = edit_rows-KeepsDish (add_row d) (λ id ds. find_dish-add_row x d id ds h) db
      inserted false = tt

      by_row :
          (o : Option Dish)
          → Gives
              (KeepsDish x db)
              (λ e. Unit)
              (elim o [
                | none ↦ insert_dish d db
                | some old ↦ ok (edit_rows (λ id. map (change_row d)) db)
              ])
      by_row none = inserted (has_id d.category_id (collect category_keys db.restaurants))
      by_row (some row) =
          edit_rows-KeepsDish (λ id. map (change_row d)) (λ id ds. find_dish-change_row x d ds h) db

  delete_dish-KeepsDish :
      (id : Uuid) (db : Database J) → (id == x) ≡ false → KeepsDish x db (delete_dish id db)
  unfolding delete_dish
  delete_dish-KeepsDish id db h =
      edit_rows-KeepsDish (λ c. without_row id) (λ c ds. find_dish-without_row x id ds h) db

  delete_all-KeepsDish :
      (ids : List Uuid) (db : Database J) → AreOthers x ids → KeepsDish x db (delete_all ids db)
  unfolding delete_all
  delete_all-KeepsDish [] db h = record { found = refl; elsewhere = refl }
  delete_all-KeepsDish (id ∷ ids) db h =
      KeepsDish-trans db (delete_dish id db) (delete_all ids (delete_dish id db))
        (delete_dish-KeepsDish id db h.0) (delete_all-KeepsDish ids (delete_dish id db) h.1)

  -- The session has kept the dish, and does not delete it at its next flush.
  pub record KeepsInSession (db : Database J) (s : Session J) : Type 0 where
    pub kept : KeepsDish x db s.database
    pub others : AreOthers x s.doomed

  pub flush-KeepsInSession :
      (db : Database J) (s : Session J) → KeepsInSession db s → KeepsInSession db (flush s)
  unfolding flush
  flush-KeepsInSession db s h = record {
    kept =
        KeepsDish-trans db s.database (delete_all s.doomed s.database) h.kept
          (delete_all-KeepsDish s.doomed s.database h.others);
    others = tt;
  }

  get_row-KeepsInSession :
      (id : Uuid) (db : Database J) (s : Session J)
      → KeepsInSession db s
      → KeepsInSession db (get_row id s)
  unfolding get_row
  get_row-KeepsInSession id db s h = elim (Bool-cases (holds s.existing id || is_doomed id s)) [
    | inl e ↦ rw e h
    | inr e ↦ rw e (flush-KeepsInSession db s h)
  ]

  pub delete_row-KeepsInSession :
      (id : Uuid) (db : Database J) (s : Session J)
      → (id == x) ≡ false
      → KeepsInSession db s
      → KeepsInSession db (delete_row id s)
  unfolding delete_row
  delete_row-KeepsInSession id db s other h =
      let got = get_row-KeepsInSession id db s h in
      record { kept = got.kept; others = (other, got.others) }

  write_got-KeepsInSession :
      (d : Dish) (db : Database J) (s : Session J)
      → (d.id == x) ≡ false
      → KeepsInSession db s
      → Gives (KeepsInSession db) (λ e. Unit) (write_got d s)
  unfolding write_got row_written
  write_got-KeepsInSession d db s other h = elim (Bool-cases (is_doomed d.id s)) [
    | inl e ↦ rw e (record { kept = h.kept; others = h.others })
    | inr e ↦
        let row = find_dish d.id (dish_rows s.database.restaurants) in
        rw e (
          Gives-bind (KeepsDish x s.database) (KeepsInSession db) (λ e. Unit)
            (insert_or_update row d s.database) (λ db'. ok (row_written (held_if_found row) s db'))
            (insert_or_update-KeepsDish row d s.database other)
            (λ db' k. record {
              kept = KeepsDish-trans db s.database db' h.kept k;
              others = h.others;
            }))
  ]

  pub write_dish-KeepsInSession :
      (d : Dish) (db : Database J) (s : Session J)
      → (d.id == x) ≡ false
      → KeepsInSession db s
      → Gives (KeepsInSession db) (λ e. Unit) (write_dish d s)
  unfolding write_dish
  write_dish-KeepsInSession d db s other h =
      write_got-KeepsInSession d db (get_row d.id s) other (get_row-KeepsInSession d.id db s h)
