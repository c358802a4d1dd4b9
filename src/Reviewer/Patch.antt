-- ===== src/Reviewer/Patch.antt =====
-- workflows/reviewer_workflow/nodes/delta_patch.py, over the session of `Reviewer.Patch.Rows`. The restaurant's own columns are those of its tree in the production tables.
pub mod Rows
pub mod Untouched
pub mod Named
pub mod Moved
use package.text.Mathlib.Text.{◌==◌ as ◌≐◌}
use hungrx_agent.Prelude.{
  ℕ, zero, suc, Bool, false, true, not, ◌&&◌, String, Option, none, some, List, [], ◌∷◌, ◌==◌,
  if◌then◌else◌,
}
use hungrx_agent.Text.{Text, text}
use hungrx_agent.Json.{Json, null, boolean, number, str, arr, obj, get_member}
use hungrx_agent.Schema.Menu.{Uuid, Dish, MenuCategory, category, Categories, nil, cons, Menu}
use hungrx_agent.Schema.Restaurant.{Restaurant}
use hungrx_agent.Validation.Result.{Place, key, index}
use hungrx_agent.Review.Rows.{Database, Result, ok, raised, data_error, ◌>>=◌}
use hungrx_agent.Reviewer.Delta.{DeltaOp, is_removed, FieldDelta, JsonDelta}
use hungrx_agent.Reviewer.Patch.Rows.{Session, flush, write_dish, delete_row, update_restaurant}
use hungrx_agent.Review.Columns.{fits_if_given, all_of, has_no_nul}

-- `_RESTAURANT_SCALAR_FIELDS`
pub data ScalarField : Type 0 where
  description logo_url cover_image_url cuisine_types website_url gallery_image_urls : ScalarField

abbrev pub restaurant_scalar_fields : List (String × ScalarField)
restaurant_scalar_fields =
    ("description", description)
    ∷ ("logo_url", logo_url)
    ∷ ("cover_image_url", cover_image_url)
    ∷ ("cuisine_types", cuisine_types)
    ∷ ("website_url", website_url)
    ∷ ("gallery_image_urls", gallery_image_urls)
    ∷ []

unfoldable pub scalar_named : String → List (String × ScalarField) → Option ScalarField
scalar_named name [] = none
scalar_named name ((n, field) ∷ rest) =
    let later = scalar_named name rest in if n ≐ name then some field else later

-- The field of the restaurant whose name the path begins with
unfoldable pub scalar_field : Place → Option ScalarField
unfolding scalar_named
scalar_field (key name ∷ rest) = scalar_named name restaurant_scalar_fields
scalar_field _ = none

abbrev pub Position : Type 0
Position = ℕ × ℕ × ℕ

-- `(?:\.children\[\d+\])*\.dishes\[(\d+)\]` at the beginning
unfoldable pub after_children : Place → Option ℕ
after_children (key name ∷ index k ∷ rest) =
    let deeper = after_children rest in
    if name ≐ "dishes" then some k else if name ≐ "children" then deeper else none
after_children _ = none

abbrev pub with_menu : ℕ → ℕ → Option ℕ → Option Position
with_menu i j none = none
with_menu i j (some k) = some (i, j, k)

-- `_DISH_PATH_RE.match(path)`
unfoldable pub dish_position : Place → Option Position
unfolding after_children
dish_position (key m ∷ index i ∷ key c ∷ index j ∷ rest) =
    if (m ≐ "menus") && (c ≐ "categories") then with_menu i j (after_children rest) else none
dish_position _ = none

unfoldable pub same_position : Position → Position → Bool
same_position (i, j, k) (i', j', k') = (i == i') && ((j == j') && (k == k'))

-- `touched_dish_paths[key] = field.op`, if the key is new or the operation is a removal
unfoldable pub note_touched :
    Position → DeltaOp → List (Position × DeltaOp) → List (Position × DeltaOp)
unfolding same_position
note_touched p op [] = (p, op) ∷ []
note_touched p op ((q, o) ∷ rest) =
    let later = note_touched p op rest in
    if same_position q p then (q, (if is_removed op then op else o)) ∷ rest else (q, o) ∷ later

-- `restaurant_scalar_touched` and `touched_dish_paths`
pub record Touched : Type 0 where
  pub scalars : List ScalarField
  pub dishes : List (Position × DeltaOp)

unfoldable pub touch_dish : Option Position → DeltaOp → Touched → Touched
touch_dish none op touched = touched
touch_dish (some p) op touched = record touched { dishes = note_touched p op touched.dishes }

unfoldable pub touch_as : Option ScalarField → FieldDelta → Touched → Touched
unfolding touch_dish
touch_as (some field) f touched = record touched { scalars = field ∷ touched.scalars }
touch_as none f touched = touch_dish (dish_position f.path) f.op touched

-- The loop over `delta.fields`
unfoldable pub touch_all : List FieldDelta → Touched → Touched
unfolding touch_as
touch_all [] touched = touched
touch_all (f ∷ fields) touched = touch_all fields (touch_as (scalar_field f.path) f touched)

-- `setattr(restaurant_row, scalar_field, getattr(target, scalar_field))`
unfoldable pub set_scalar : Restaurant → ScalarField → Restaurant → Restaurant
set_scalar target description r = record r { description = target.description }
set_scalar target logo_url r = record r { logo_url = target.logo_url }
set_scalar target cover_image_url r = record r { cover_image_url = target.cover_image_url }
set_scalar target cuisine_types r = record r { cuisine_types = target.cuisine_types }
set_scalar target website_url r = record r { website_url = target.website_url }
set_scalar target gallery_image_urls r = record r { gallery_image_urls = target.gallery_image_urls }

unfoldable pub set_scalars : Restaurant → List ScalarField → Restaurant → Restaurant
unfolding set_scalar
set_scalars target [] r = r
set_scalars target (field ∷ fields) r = set_scalars target fields (set_scalar target field r)

-- The new value of the field fits its column.
unfoldable pub scalar_fits : Restaurant → ScalarField → Bool
unfolding fits_if_given all_of
scalar_fits target description = fits_if_given 2000 target.description
scalar_fits target logo_url = fits_if_given 2048 target.logo_url
scalar_fits target cover_image_url = fits_if_given 2048 target.cover_image_url
scalar_fits target cuisine_types = all_of has_no_nul target.cuisine_types
scalar_fits target website_url = fits_if_given 2048 target.website_url
scalar_fits target gallery_image_urls = all_of has_no_nul target.gallery_image_urls

-- `xs[i]`, none past the end
unfoldable pub nth {ℓ} : {A : Type ℓ} → ℕ → List A → Option A
nth i [] = none
nth zero (x ∷ xs) = some x
nth (suc i) (x ∷ xs) = nth i xs

unfoldable pub nth_category : ℕ → Categories → Option MenuCategory
nth_category i nil = none
nth_category zero (cons c cs) = some c
nth_category (suc i) (cons c cs) = nth_category i cs

unfoldable pub dishes_of_category : Option MenuCategory → List Dish
dishes_of_category none = []
dishes_of_category (some (category id name order children dishes)) = dishes

unfoldable pub dishes_of_menu : ℕ → Option Menu → List Dish
unfolding dishes_of_category
dishes_of_menu j none = []
dishes_of_menu j (some menu) = dishes_of_category (nth_category j menu.categories)

-- `_find_dish_in_target(target, …)[dish_index]`, none past the end
unfoldable pub target_dish : Restaurant → Position → Option Dish
unfolding dishes_of_menu
target_dish target (i, j, k) = nth k (dishes_of_menu j (nth i target.menus))

abbrev pub is_at : Position → Option Position → Bool
is_at p none = false
is_at p (some q) = same_position q p

module _ {J : Type 0} where
  unfoldable pub remove_named : Option Uuid → Session J → Session J
  remove_named none s = s
  remove_named (some id) s = delete_row id s

  unfoldable pub write_named : Option Dish → Session J → Result (Session J)
  write_named none s = ok s
  write_named (some dish) s = write_dish dish s

-- `read_uuid` is `uuid.UUID(str(value))`, none for a ValueError.
module _ (read_uuid : Json → Option Uuid) where
  unfoldable pub id_if_filed : Option Json → Option Json → Option Uuid
  id_if_filed (some id) (some category_id) = read_uuid id
  id_if_filed _ _ = none

  -- `_dish_id_from_value`
  unfoldable pub dish_id_from_value : Json → Option Uuid
  unfolding id_if_filed
  dish_id_from_value (obj members) =
      id_if_filed (get_member (text "id") members) (get_member (text "category_id") members)
  dish_id_from_value _ = none

  -- The id in the old value of the first removal at the position
  unfoldable pub removed_dish : Position → List FieldDelta → Option Uuid
  unfolding dish_id_from_value
  removed_dish p [] = none
  removed_dish p (f ∷ fields) =
      let later = removed_dish p fields in
      if is_removed f.op && is_at p (dish_position f.path)
      then dish_id_from_value f.old_value
      else later

  module _ {J : Type 0} (target : Restaurant) (fields : List FieldDelta) where
    unfoldable pub apply_touched : Position → DeltaOp → Session J → Result (Session J)
    unfolding remove_named write_named
    apply_touched p op s =
        if is_removed op
        then ok (remove_named (removed_dish p fields) s)
        else write_named (target_dish target p) s

    -- The loop over `touched_dish_paths.items()`
    unfoldable pub apply_dishes : List (Position × DeltaOp) → Session J → Result (Session J)
    unfolding apply_touched
    apply_dishes [] s = ok s
    apply_dishes ((p, op) ∷ rest) s = apply_touched p op s >>= apply_dishes rest

  module _ {J : Type 0} where
    unfoldable pub apply_patch : Uuid → Restaurant → JsonDelta → Database J → Result (Database J)
    unfolding touch_all set_scalars apply_dishes scalar_fits flush
    apply_patch restaurant_id target delta db =
        let touched = touch_all delta.fields (record { scalars = []; dishes = [] }) in
        if not (all_of (scalar_fits target) touched.scalars)
        then raised data_error
        else apply_dishes target delta.fields touched.dishes (record {
          database = update_restaurant restaurant_id (set_scalars target touched.scalars) db;
          doomed = [];
          existing = none;
        })
          >>= λ s. ok (flush s).database
