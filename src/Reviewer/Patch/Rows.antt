-- ===== src/Reviewer/Patch/Rows.antt =====
-- The rows that workflows/reviewer_workflow/nodes/delta_patch.py reads and writes: `session.get(DishRow, …)`,
-- `session.add`, `session.delete`, and the assignments to the columns of a row. SQLAlchemy's session deletes a row
-- at the next flush. It flushes before it asks the database for a row, but gives a row that it refers to as it is:
-- one that is to be deleted, or the one that the variable `existing_row` holds. The rest of a flush is seen by
-- every later look-up, so that it may as well be written at once.
use hungrx_agent.Prelude.{
  Bool, false, ◌&&◌, ◌||◌, is_some, not, Option, none, some, List, [], ◌∷◌, ◌++◌, map, keep_if,
  ◌==◌, if◌then◌else◌,
}
use hungrx_agent.Schema.Menu.{Uuid, Dish, MenuCategory, category, Categories, nil, cons, Menu}
use hungrx_agent.Schema.Restaurant.{Restaurant}
use hungrx_agent.Review.Rows.{Database, integrity_error, data_error, Result, ok, raised, ◌>>=◌}
use hungrx_agent.Review.Columns.{stored_price, dish_fits}
use hungrx_agent.Review.Production.{has_id, collect, category_keys}

unfoldable mutual
  -- The dishes of a tree of categories
  pub category_dish_rows : MenuCategory → List Dish
  category_dish_rows (category id name order children dishes) =
      dishes ++ children_dish_rows children

  pub children_dish_rows : Categories → List Dish
  children_dish_rows nil = []
  children_dish_rows (cons c cs) = category_dish_rows c ++ children_dish_rows cs

unfoldable pub menus_dish_rows : List Menu → List Dish
menus_dish_rows [] = []
menus_dish_rows (menu ∷ menus) = children_dish_rows menu.categories ++ menus_dish_rows menus

-- The table of dishes
unfoldable pub dish_rows : List Restaurant → List Dish
dish_rows [] = []
dish_rows (r ∷ rs) = menus_dish_rows r.menus ++ dish_rows rs

-- `session.get(DishRow, id)`
unfoldable pub find_dish : Uuid → List Dish → Option Dish
find_dish id [] = none
find_dish id (dish ∷ dishes) =
    let later = find_dish id dishes in if dish.id == id then some dish else later

-- `edit` makes of a category's id and dishes its new dishes.
module _ (edit : Uuid → List Dish → List Dish) where
  unfoldable mutual
    pub edit_category : MenuCategory → MenuCategory
    edit_category (category id name order children dishes) =
        category id name order (edit_children children) (edit id dishes)

    pub edit_children : Categories → Categories
    edit_children nil = nil
    edit_children (cons c cs) = cons (edit_category c) (edit_children cs)

  unfoldable pub edit_menus : List Menu → List Menu
  edit_menus [] = []
  edit_menus (menu ∷ menus) =
      record menu { categories = edit_children menu.categories } ∷ edit_menus menus

  unfoldable pub edit_restaurants : List Restaurant → List Restaurant
  edit_restaurants [] = []
  edit_restaurants (r ∷ rs) = record r { menus = edit_menus r.menus } ∷ edit_restaurants rs

-- `_apply_dish_row_fields`
unfoldable pub apply_dish_row_fields : Dish → Dish → Dish
apply_dish_row_fields row dish = record row {
  name = dish.name;
  description = dish.description;
  image_url = dish.image_url;
  nutrition = dish.nutrition;
  allergens = dish.allergens;
  ingredients = dish.ingredients;
  quantity = dish.quantity;
  price = stored_price dish.price;
  currency = dish.currency;
  review_state = dish.review_state;
}

abbrev pub change_row : Dish → Dish → Dish
change_row dish row = if row.id == dish.id then apply_dish_row_fields row dish else row

-- The row that `_dish_row_from_schema` makes is the dish, under its own category, with the price as it is stored.
abbrev pub add_row : Dish → Uuid → List Dish → List Dish
add_row dish id dishes =
    if id == dish.category_id
    then dishes ++ (record dish { price = stored_price dish.price } ∷ [])
    else dishes

abbrev pub without_row : Uuid → List Dish → List Dish
without_row id = keep_if (λ (row : Dish). not (row.id == id))

module _ {J : Type 0} where
  unfoldable pub edit_rows : (Uuid → List Dish → List Dish) → Database J → Database J
  edit_rows edit db = record db { restaurants = edit_restaurants edit db.restaurants }

  -- The foreign key: the row's category must be there.
  unfoldable pub insert_dish : Dish → Database J → Result (Database J)
  insert_dish dish db =
      if has_id dish.category_id (collect category_keys db.restaurants)
      then ok (edit_rows (add_row dish) db)
      else raised integrity_error

  -- The row's values must fit the columns.
  unfoldable pub insert_or_update : Option Dish → Dish → Database J → Result (Database J)
  unfolding dish_fits
  insert_or_update row dish db = if not (dish_fits dish) then raised data_error else elim row [
    | none ↦ insert_dish dish db
    | some old ↦ ok (edit_rows (λ id. map (change_row dish)) db)
  ]

  unfoldable pub delete_dish : Uuid → Database J → Database J
  delete_dish id db = edit_rows (λ c. without_row id) db

  unfoldable pub delete_all : List Uuid → Database J → Database J
  delete_all [] db = db
  delete_all (id ∷ ids) db = delete_all ids (delete_dish id db)

  unfoldable pub update_restaurant : Uuid → (Restaurant → Restaurant) → Database J → Database J
  update_restaurant id f db = record db {
    restaurants = map (λ (r : Restaurant). if r.id == id then f r else r) db.restaurants;
  }

-- The tables, the rows that are to be deleted at the next flush, and the row that `existing_row` holds
pub record Session (J : Type 0) : Type 0 where
  pub database : Database J
  pub doomed : List Uuid
  pub existing : Option Uuid

abbrev pub unless_doomed : List Uuid → Option Uuid → Option Uuid
unless_doomed doomed none = none
unless_doomed doomed (some id) = if has_id id doomed then none else some id

abbrev pub holds : Option Uuid → Uuid → Bool
holds none id = false
holds (some held) id = held == id

abbrev pub held_if_found : Option Dish → Option Uuid
held_if_found none = none
held_if_found (some row) = some row.id

module _ {J : Type 0} where
  unfoldable pub flush : Session J → Session J
  unfolding delete_all has_id
  flush s = record {
    database = delete_all s.doomed s.database;
    doomed = [];
    existing = unless_doomed s.doomed s.existing;
  }

  unfoldable pub is_doomed : Uuid → Session J → Bool
  unfolding has_id find_dish dish_rows
  is_doomed id s = has_id id s.doomed && is_some (find_dish id (dish_rows s.database.restaurants))

  -- The session after `session.get(DishRow, id)`
  unfoldable pub get_row : Uuid → Session J → Session J
  unfolding flush is_doomed
  get_row id s = if holds s.existing id || is_doomed id s then s else flush s

  -- `session.get` and `session.delete`
  unfoldable pub delete_row : Uuid → Session J → Session J
  unfolding get_row
  delete_row id s = let got = get_row id s in record got { doomed = id ∷ got.doomed }

  unfoldable pub row_written : Option Uuid → Session J → Database J → Session J
  row_written held s db = record s { database = db; existing = held }

  -- `session.get`, then the new row or the changed columns. A change of a row that is to be deleted is lost.
  unfoldable pub write_got : Dish → Session J → Result (Session J)
  unfolding is_doomed insert_or_update row_written
  write_got dish got =
      if is_doomed dish.id got
      then ok (record got { existing = some dish.id })
      else insert_or_update (find_dish dish.id (dish_rows got.database.restaurants)) dish
          got.database
        >>= λ db. ok (
            row_written (held_if_found (find_dish dish.id (dish_rows got.database.restaurants))) got
              db)

  unfoldable pub write_dish : Dish → Session J → Result (Session J)
  unfolding get_row write_got
  write_dish dish s = write_got dish (get_row dish.id s)
