-- ===== src/Validation/RequiredFields.antt =====
-- core/validation/required_fields.py
use hungrx_agent.Prelude.{
  Bool, false, ◌||◌, not, List, [], ◌∷◌, ◌++◌, any, is_empty, is_some, is_none, if◌then◌else◌,
}
use hungrx_agent.Schema.Nutrition.{Macros}
use hungrx_agent.Schema.Menu.{Dish, MenuCategory, category, Categories, nil, cons, Menu}
use hungrx_agent.Schema.Restaurant.{RestaurantLocation, Restaurant}
use hungrx_agent.Validation.Result.{
  Place, at, key, ValidationIssue, error, warning, missing_locations, missing_menus, empty_menus,
  missing_price, missing_nutrition, no_locations, no_menus, no_dishes, no_price, no_nutrition_data,
}

unfoldable mutual
  pub category_has_any_dish : MenuCategory → Bool
  category_has_any_dish (category id name order children dishes) =
      not (is_empty dishes) || any_category_has_dish children

  -- `any(_category_has_any_dish(c) for c in categories)`
  pub any_category_has_dish : Categories → Bool
  any_category_has_dish nil = false
  any_category_has_dish (cons c cs) = category_has_any_dish c || any_category_has_dish cs

unfoldable pub menu_has_any_dish : Menu → Bool
menu_has_any_dish menu = any_category_has_dish menu.categories

-- `if not restaurant.locations`
unfoldable pub location_issues : List RestaurantLocation → List ValidationIssue
location_issues [] =
    record {
      field_path = at (key "locations" ∷ []);
      code = missing_locations;
      message = no_locations;
      severity = warning;
    }
    ∷ []
location_issues (l ∷ ls) = []

-- `if not restaurant.menus … elif not any(…)`
unfoldable pub content_issues : List Menu → List ValidationIssue
content_issues [] =
    record {
      field_path = at (key "menus" ∷ []);
      code = missing_menus;
      message = no_menus;
      severity = error;
    }
    ∷ []
content_issues (m ∷ ms) =
    if not (any menu_has_any_dish (m ∷ ms))
    then record {
      field_path = at (key "menus" ∷ []);
      code = empty_menus;
      message = no_dishes;
      severity = error;
    }
      ∷ []
    else []

unfoldable pub check_required_fields : Restaurant → List ValidationIssue
unfolding location_issues content_issues
check_required_fields restaurant =
    location_issues restaurant.locations ++ content_issues restaurant.menus

-- Of calories, protein, carbohydrates and fat, one is given.
unfoldable pub has_any_nutrition : Macros → Bool
has_any_nutrition m =
    is_some m.calories || (is_some m.protein_g || (is_some m.carbohydrates_g || is_some m.fat_g))

unfoldable pub check_dish_required_fields : Dish → Place → List ValidationIssue
unfolding has_any_nutrition
check_dish_required_fields dish prefix =
    (if is_none dish.price
      then record {
        field_path = at (prefix ++ (key "price" ∷ []));
        code = missing_price;
        message = no_price dish.name;
        severity = warning;
      }
        ∷ []
      else [])
    ++ (if not (has_any_nutrition dish.nutrition.macros)
        then record {
          field_path = at (prefix ++ (key "nutrition" ∷ []));
          code = missing_nutrition;
          message = no_nutrition_data dish.name;
          severity = warning;
        }
          ∷ []
        else [])
