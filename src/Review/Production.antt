-- ===== src/Review/Production.antt =====
-- RestaurantRepository.persist_tree of database/repositories/restaurant_repository.py. The production
-- tables are the list of the trees whose rows they hold. The primary keys of a table are unique, so a
-- tree with an id that its table has already, or twice, is refused, as is one that does not fit the columns. Of a
-- tree that has both faults the model gives the first; which one the database meets first is not said.
use hungrx_agent.Prelude.{
  Bool, false, not, ◌||◌, ◌++◌, none, List, [], ◌∷◌, map, ◌==◌, if◌then◌else◌,
}
use hungrx_agent.Schema.Menu.{Uuid, Dish, MenuCategory, category, Categories, nil, cons, Menu}
use hungrx_agent.Schema.Restaurant.{RestaurantLocation, Restaurant}
use hungrx_agent.Review.Columns.{numeric, stored_price, tree_fits}
use hungrx_agent.Review.Rows.{Database, integrity_error, data_error, Result, ok, raised}

unfoldable pub has_id : Uuid → List Uuid → Bool
has_id id [] = false
has_id id (x ∷ xs) = (x == id) || has_id id xs

-- An id of the new rows is in the table, or stands twice among them.
unfoldable pub collides : List Uuid → List Uuid → Bool
unfolding has_id
collides [] table = false
collides (id ∷ ids) table = has_id id table || collides ids (id ∷ table)

unfoldable mutual
  -- The ids of the categories, and of the dishes, of a tree of categories.
  pub category_ids : MenuCategory → List Uuid
  category_ids (category id name order children dishes) = id ∷ categories_ids children

  pub categories_ids : Categories → List Uuid
  categories_ids nil = []
  categories_ids (cons c cs) = category_ids c ++ categories_ids cs

unfoldable mutual
  pub dish_ids_of : MenuCategory → List Uuid
  dish_ids_of (category id name order children dishes) =
      map (λ (dish : Dish). dish.id) dishes ++ dish_ids_in children

  pub dish_ids_in : Categories → List Uuid
  dish_ids_in nil = []
  dish_ids_in (cons c cs) = dish_ids_of c ++ dish_ids_in cs

-- The concatenation of what `f` gives for each element.
unfoldable pub collect {ℓ} : {A : Type ℓ} → (A → List Uuid) → List A → List Uuid
collect f [] = []
collect f (x ∷ xs) = f x ++ collect f xs

unfoldable pub location_keys : Restaurant → List Uuid
location_keys r = map (λ (l : RestaurantLocation). l.id) r.locations

unfoldable pub menu_keys : Restaurant → List Uuid
menu_keys r = map (λ (m : Menu). m.id) r.menus

unfoldable pub category_keys : Restaurant → List Uuid
category_keys r = collect (λ (m : Menu). categories_ids m.categories) r.menus

unfoldable pub dish_keys : Restaurant → List Uuid
dish_keys r = collect (λ (m : Menu). dish_ids_in m.categories) r.menus

-- An insert of the tree's rows breaks a primary key.
unfoldable pub breaks_key : Restaurant → List Restaurant → Bool
breaks_key r production =
    has_id r.id (map (λ (s : Restaurant). s.id) production)
    || (collides (location_keys r) (collect location_keys production)
        || (collides (menu_keys r) (collect menu_keys production)
            || (collides (category_keys r) (collect category_keys production)
                || collides (dish_keys r) (collect dish_keys production))))

-- Each dish of a category is stored with the category's id, and its price with the digits of its column.
unfoldable pub file_dishes : Uuid → List Dish → List Dish
unfolding numeric
file_dishes id =
    map (λ (dish : Dish). record dish { category_id = id; price = stored_price dish.price })

unfoldable mutual
  pub stored_category : MenuCategory → MenuCategory
  stored_category (category id name order children dishes) =
      category id name order (stored_categories children) (file_dishes id dishes)

  pub stored_categories : Categories → Categories
  stored_categories nil = nil
  stored_categories (cons c cs) = cons (stored_category c) (stored_categories cs)

-- The tree that the inserted rows make up; its times are the database's.
unfoldable pub stored : Restaurant → Restaurant
stored r = record r {
  menus = map (λ (m : Menu). record m { categories = stored_categories m.categories }) r.menus;
  created_at = none;
  updated_at = none;
}

module _ {J : Type 0} where
  unfoldable pub persist_tree : Restaurant → Database J → Result (Database J)
  persist_tree r db =
      if breaks_key r db.restaurants
      then raised integrity_error
      else if not (tree_fits r)
      then raised data_error
      else ok (record db { restaurants = stored r ∷ db.restaurants })
