-- ===== src/Schema/Fields.antt =====
-- The field validators of core/schemas/menu.py and restaurant.py. Pydantic tests the length first.
pub mod Names
pub mod Unique
use hungrx_agent.Prelude.{
  ℕ, Bool, ◌&&◌, ◌||◌, false, Option, none, some, List, [], ◌∷◌, ◌++◌, leb, length, is_empty,
  if◌then◌else◌,
}
use hungrx_agent.Text.{Text, Unicode, strip}
use hungrx_agent.Schema.Menu.{Allergen, same_allergen}

-- `Field(min_length=lo, max_length=hi)`
unfoldable pub has_length : ℕ → ℕ → Text → Bool
has_length lo hi s = leb lo (length s) && leb (length s) hi

module _ (u : Unicode) where
  -- The validator that the names of ingredients, dishes, categories, menus and restaurants share.
  unfoldable pub strip_and_require_non_blank : Text → Option Text
  strip_and_require_non_blank value =
      let stripped = strip u value in if is_empty stripped then none else some stripped

  -- A `name` field: the length as it was given, then the validator.
  unfoldable pub name_field : Text → Option Text
  unfolding has_length strip_and_require_non_blank
  name_field value = if has_length 1 255 value then strip_and_require_non_blank value else none

  -- `country`
  unfoldable pub uppercase_country : Text → Text
  uppercase_country = u.upper

unfoldable pub is_declared : Allergen → List Allergen → Bool
is_declared a [] = false
is_declared a (b ∷ bs) = same_allergen b a || is_declared a bs

-- `dict.fromkeys`: a key keeps the place where it came first.
from_keys : List Allergen → List Allergen → List Allergen
from_keys seen [] = seen
from_keys seen (a ∷ rest) = from_keys (if is_declared a seen then seen else seen ++ (a ∷ [])) rest

unfoldable pub unique_allergens : List Allergen → List Allergen
unfolding from_keys is_declared
unique_allergens value = from_keys [] value
