-- ===== src/Tests/Samples.antt =====
-- The data that the examples run on: a small restaurant whose only dish needs all three corrections.
use hungrx_agent.Prelude.{true, false, none, some, [], ◌∷◌}
use hungrx_agent.Text.{text}
use hungrx_agent.Decimal.{decimal}
use hungrx_agent.Schema.Nutrition.{Macros, no_macros, no_nutrition}
use hungrx_agent.Schema.Menu.{
  Ingredient, pending, Dish, MenuCategory, category, nil, cons, Menu, pos,
}
use hungrx_agent.Schema.Restaurant.{Restaurant}

abbrev pub cheese : Ingredient
cheese = record { name = text "Cheese"; is_optional = false }

abbrev pub cream : Ingredient
cream = record { name = text " cheese "; is_optional = true }

abbrev pub macros : Macros
macros = record no_macros {
  calories = some (decimal 900);
  protein_g = some (decimal 10);
  carbohydrates_g = some (decimal 20);
  fat_g = some (decimal 5);
}

abbrev pub fondue : Dish
fondue = record {
  id = 7;
  category_id = 3;
  name = text "Fondue";
  description = some (text "warm  cheese");
  image_url = none;
  nutrition = record no_nutrition { macros = macros };
  allergens = [];
  ingredients = cheese ∷ cream ∷ [];
  quantity = none;
  price = some (decimal 12);
  currency = text "usd";
  review_state = pending;
}

abbrev pub mains : MenuCategory
mains = category 3 (text "Mains") (pos 0) nil (fondue ∷ [])

abbrev pub lunch : Menu
lunch = record { id = 2; name = text "Lunch"; categories = cons mains nil }

abbrev pub diner : Restaurant
diner = record {
  id = 1;
  name = text "Diner";
  description = none;
  logo_url = none;
  cover_image_url = none;
  gallery_image_urls = [];
  website_url = none;
  cuisine_types = [];
  locations = [];
  menus = lunch ∷ [];
  is_active = true;
  created_at = none;
  updated_at = none;
}
