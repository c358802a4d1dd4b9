-- ===== src/Extraction/Mapping.antt =====
-- `_map_dish`, `_map_category` and `_map_onto_current` of
-- workflows/reviewer_workflow/nodes/targeted_reextraction.py, and `_map_to_restaurant` of
-- workflows/collector_workflow/nodes/multimodal_translation.py, whose `_map_dish` and `_map_category` are the
-- same without the source references. Each new object takes the next id. A constructor whose validator
-- refuses the values raises Pydantic's ValidationError.
use hungrx_agent.Prelude.{
  ◌+◌, false, Option, none, some, List, [], ◌∷◌, ◌++◌, is_empty, if◌then◌else◌,
}
use hungrx_agent.Text.{Text, text, Unicode, strip}
use hungrx_agent.Schema.Menu.{
  pos, Uuid, Ingredient, ReviewState, Dish, MenuCategory, category, Categories, nil, cons, Menu,
}
use hungrx_agent.Schema.Restaurant.{Restaurant}
use hungrx_agent.Schema.Fields.{name_field, unique_allergens}
use hungrx_agent.Review.Rows.{Result, ok, raised, validation_error, ◌>>=◌}
use hungrx_agent.Reviewer.State.{dish_ref, profile_ref, SourceRefs}
use hungrx_agent.Extraction.{
  ExtractedDish, ExtractedMenuCategory, ExtractedMenu, ExtractedRestaurantProfile, ExtractionOutput,
}

abbrev pub valid_or_raise {ℓ} : {A : Type ℓ} → Option A → Result A
valid_or_raise none = raised validation_error
valid_or_raise (some a) = ok a

-- `new or old`, of texts and of lists
abbrev pub text_or : Option Text → Option Text → Option Text
text_or none old = old
text_or (some []) old = old
text_or (some (c ∷ s)) old = some (c ∷ s)

abbrev pub list_or {ℓ} : {A : Type ℓ} → List A → List A → List A
list_or [] old = old
list_or (x ∷ xs) old = x ∷ xs

-- `extracted.currency or "USD"`
abbrev pub currency_or_usd : Option Text → Text
currency_or_usd none = text "USD"
currency_or_usd (some []) = text "USD"
currency_or_usd (some (c ∷ s)) = c ∷ s

module _ (u : Unicode) where
  -- `[Ingredient(name=name) for name in names if name.strip()]`
  unfoldable pub map_ingredients : List Text → Result (List Ingredient)
  map_ingredients [] = ok []
  map_ingredients (name ∷ names) =
      let kept = valid_or_raise (name_field u name) >>= λ valid.
      map_ingredients names >>= λ rest. ok (record { name = valid; is_optional = false } ∷ rest) in
      let skipped = map_ingredients names in if is_empty (strip u name) then skipped else kept

  unfoldable pub refs_of_dish : Uuid → List Text → SourceRefs
  refs_of_dish id [] = []
  refs_of_dish id (s ∷ ids) = (dish_ref id, s ∷ ids) ∷ []

  -- `_map_dish`: the dish takes the id `next`.
  unfoldable pub map_dish : Uuid → Uuid → ExtractedDish → Result (Dish × SourceRefs)
  unfolding map_ingredients refs_of_dish
  map_dish next category_id extracted =
      map_ingredients extracted.ingredient_names >>= λ ingredients.
      valid_or_raise (name_field u extracted.name) >>= λ name. ok (
        record {
          id = next;
          category_id = category_id;
          name = name;
          description = extracted.description;
          image_url = extracted.image_url;
          nutrition = extracted.nutrition;
          allergens = unique_allergens extracted.allergens;
          ingredients = ingredients;
          quantity = extracted.quantity;
          price = extracted.price;
          currency = currency_or_usd extracted.currency;
          review_state = ReviewState.pending;
        },
        refs_of_dish next extracted.source_snapshot_ids,
      )

  -- The dishes with the ids from `next` on, their references, and the next id
  unfoldable pub map_dishes :
      Uuid → Uuid → List ExtractedDish → Result (List Dish × SourceRefs × Uuid)
  unfolding map_dish
  map_dishes next category_id [] = ok ([], [], next)
  map_dishes next category_id (extracted ∷ rest) = map_dish next category_id extracted >>= λ first.
      map_dishes (next + 1) category_id rest >>= λ others.
      ok (first.0 ∷ others.0, first.1 ++ others.1, others.2)

  -- `_map_category`: the category takes the id `next`.
  unfoldable pub map_category :
      Uuid → ExtractedMenuCategory → Result (MenuCategory × SourceRefs × Uuid)
  unfolding map_dishes
  map_category next extracted = valid_or_raise (name_field u extracted.name) >>= λ name.
      map_dishes (next + 1) next extracted.dishes >>= λ dishes.
      ok (category next name (pos 0) nil dishes.0, dishes.1, dishes.2)

  unfoldable pub map_categories :
      Uuid → List ExtractedMenuCategory → Result (Categories × SourceRefs × Uuid)
  unfolding map_category
  map_categories next [] = ok (nil, [], next)
  map_categories next (extracted ∷ rest) = map_category next extracted >>= λ first.
      map_categories first.2 rest >>= λ others.
      ok (cons first.0 others.0, first.1 ++ others.1, others.2)

  -- A menu takes its id after its categories.
  unfoldable pub map_menu : Uuid → ExtractedMenu → Result (Menu × SourceRefs × Uuid)
  unfolding map_categories
  map_menu next extracted = map_categories next extracted.categories >>= λ categories.
      valid_or_raise (name_field u extracted.name) >>= λ name. ok (
        record { id = categories.2; name = name; categories = categories.0 },
        categories.1,
        categories.2 + 1,
      )

  unfoldable pub map_menus : Uuid → List ExtractedMenu → Result (List Menu × SourceRefs × Uuid)
  unfolding map_menu
  map_menus next [] = ok ([], [], next)
  map_menus next (extracted ∷ rest) = map_menu next extracted >>= λ first.
      map_menus first.2 rest >>= λ others. ok (first.0 ∷ others.0, first.1 ++ others.1, others.2)

  unfoldable pub refs_of_profile : List Text → SourceRefs
  refs_of_profile [] = []
  refs_of_profile (s ∷ ids) = (profile_ref, s ∷ ids) ∷ []

  -- `current.model_copy(update=…)`
  unfoldable pub with_profile : ExtractedRestaurantProfile → List Menu → Restaurant → Restaurant
  with_profile profile menus current = record current {
    description = text_or profile.description current.description;
    cuisine_types = list_or profile.cuisine_types current.cuisine_types;
    logo_url = text_or profile.logo_url current.logo_url;
    cover_image_url = text_or profile.cover_image_url current.cover_image_url;
    menus = menus;
  }

  unfoldable pub map_onto_current :
      Uuid → ExtractionOutput → Restaurant → Result (Restaurant × SourceRefs × Uuid)
  unfolding map_menus refs_of_profile with_profile
  map_onto_current next output current = map_menus next output.menus >>= λ mapped. ok (
    with_profile output.restaurant_profile (list_or mapped.0 current.menus) current,
    refs_of_profile output.restaurant_profile.source_snapshot_ids ++ mapped.1,
    mapped.2,
  )

  unfoldable pub map_to_restaurant :
      Uuid → ExtractionOutput → Restaurant → Result (Restaurant × Uuid)
  unfolding map_menus with_profile
  map_to_restaurant next output base_restaurant = map_menus next output.menus >>= λ mapped.
      ok (with_profile output.restaurant_profile mapped.0 base_restaurant, mapped.2)
