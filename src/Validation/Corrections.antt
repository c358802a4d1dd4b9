-- ===== src/Validation/Corrections.antt =====
-- core/validation/safe_corrections.py
pub mod Dishes
pub mod Tree
use mathlib.Core.Option
use hungrx_agent.Prelude.{
  ℕ, ◌+◌, Bool, true, false, ◌&&◌, not, Option, none, some, List, [], ◌∷◌, ◌++◌, map, length, ◌==◌,
  is_empty, if◌then◌else◌,
}
use hungrx_agent.Text.{Text, Unicode, text_eq, is_member, collapse, name_key, is_alpha}
use hungrx_agent.Schema.Menu.{Ingredient, Dish, MenuCategory, category, Categories, nil, cons, Menu}
use hungrx_agent.Schema.Restaurant.{Restaurant}
use hungrx_agent.Validation.Result.{Place, key, index, plain, names, CorrectedField}

module _ (u : Unicode) where
  -- The loop of `_deduplicate_ingredients`, with the set `seen`.
  unfoldable pub first_entries : List Text → List Ingredient → List Ingredient
  first_entries seen [] = []
  first_entries seen (i ∷ rest) =
      let kept = i ∷ first_entries (name_key u i.name ∷ seen) rest in
      let skipped = first_entries seen rest in
      if is_member (name_key u i.name) seen then skipped else kept

  unfoldable pub deduplicate_ingredients : List Ingredient → List Ingredient × Bool
  unfolding first_entries
  deduplicate_ingredients ingredients =
      let deduplicated = first_entries [] ingredients in
      (deduplicated, not (length deduplicated == length ingredients))

  -- The new currency, if it is a code of three letters that is not in upper case.
  unfoldable pub corrected_currency : Text → Option Text
  corrected_currency c =
      if is_alpha u c && (length c == 3 && not (text_eq c (u.upper c)))
      then some (u.upper c)
      else none

  -- The new description, if collapsing its white space changes it.
  unfoldable pub corrected_description : Option Text → Option Text
  corrected_description none = none
  corrected_description (some d) =
      if not (text_eq (collapse u d) d) then some (collapse u d) else none

  -- The new ingredients, if one was removed.
  unfoldable pub corrected_ingredients : List Ingredient → Option (List Ingredient)
  corrected_ingredients is =
      let (deduplicated, removed_any) = deduplicate_ingredients is in
      if removed_any then some deduplicated else none

-- `dish.model_copy(update=updates)`, an update by an update
abbrev pub set_currency : Option Text → Dish → Dish
set_currency none dish = dish
set_currency (some c) dish = record dish { currency = c }

abbrev pub set_description : Option Text → Dish → Dish
set_description none dish = dish
set_description (some d) dish = record dish { description = some d }

abbrev pub set_ingredients : Option (List Ingredient) → Dish → Dish
set_ingredients none dish = dish
set_ingredients (some is) dish = record dish { ingredients = is }

currency_correction : Option Text → Dish → Place → List CorrectedField
currency_correction none dish prefix = []
currency_correction (some c) dish prefix =
    record {
      field_path = prefix ++ (key "currency" ∷ []);
      old_value = some (plain dish.currency);
      new_value = some (plain c);
      reason = "Normalized currency code casing to uppercase ISO 4217.";
    }
    ∷ []

description_correction : Option Text → Dish → Place → List CorrectedField
description_correction none dish prefix = []
description_correction (some d) dish prefix =
    record {
      field_path = prefix ++ (key "description" ∷ []);
      old_value = Option.map plain dish.description;
      new_value = some (plain d);
      reason = "Collapsed redundant whitespace.";
    }
    ∷ []

ingredients_correction : Option (List Ingredient) → Dish → Place → List CorrectedField
ingredients_correction none dish prefix = []
ingredients_correction (some is) dish prefix =
    record {
      field_path = prefix ++ (key "ingredients" ∷ []);
      old_value = some (names (map (λ i. i.name) dish.ingredients));
      new_value = some (names (map (λ i. i.name) is));
      reason = "Removed exact-duplicate ingredient entries.";
    }
    ∷ []

module _ (u : Unicode) where
  -- With no update the source returns the dish itself and an empty list, as this does.
  unfoldable pub correct_dish : Dish → Place → Dish × List CorrectedField
  unfolding currency_correction description_correction ingredients_correction
  correct_dish dish prefix =
      let c = corrected_currency u dish.currency in
      let d = corrected_description u dish.description in
      let is = corrected_ingredients u dish.ingredients in
      (
        set_ingredients is (set_description d (set_currency c dish)),
        currency_correction c dish prefix
            ++ (description_correction d dish prefix ++ ingredients_correction is dish prefix),
      )

  -- The loop over `category.dishes`, from an index on.
  unfoldable pub correct_dishes : Place → ℕ → List Dish → List Dish × List CorrectedField
  correct_dishes prefix i [] = ([], [])
  correct_dishes prefix i (dish ∷ rest) =
      let (dish', now) = correct_dish dish (prefix ++ (key "dishes" ∷ index i ∷ [])) in
      let (rest', later) = correct_dishes prefix (i + 1) rest in (dish' ∷ rest', now ++ later)

  unfoldable mutual
    -- `prefix` is the place of the category itself.
    pub correct_category : Place → MenuCategory → MenuCategory × List CorrectedField
    correct_category prefix (category id name order children dishes) =
        let (dishes', now) = correct_dishes prefix 0 dishes in
        let (children', below) = correct_categories prefix 0 children in
        (category id name order children' dishes', now ++ below)

    -- The loop over the categories, from an index on; `prefix` is the place of their owner.
    pub correct_categories : Place → ℕ → Categories → Categories × List CorrectedField
    correct_categories prefix i nil = (nil, [])
    correct_categories prefix i (cons c cs) =
        let (c', now) = correct_category (prefix ++ (key "categories" ∷ index i ∷ [])) c in
        let (cs', later) = correct_categories prefix (i + 1) cs in (cons c' cs', now ++ later)

  unfoldable pub correct_menus : ℕ → List Menu → List Menu × List CorrectedField
  correct_menus i [] = ([], [])
  correct_menus i (menu ∷ rest) =
      let (categories', now) = correct_categories (key "menus" ∷ index i ∷ []) 0 menu.categories in
      let (rest', later) = correct_menus (i + 1) rest in
      (record menu { categories = categories' } ∷ rest', now ++ later)

  unfoldable pub apply_safe_corrections : Restaurant → Restaurant × List CorrectedField
  apply_safe_corrections restaurant =
      let (menus', corrections) = correct_menus 0 restaurant.menus in
      (record restaurant { menus = menus' }, corrections)
