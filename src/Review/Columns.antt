-- ===== src/Review/Columns.antt =====
-- database/models/restaurant.py: what the columns of the production tables hold. PostgreSQL refuses a text that is
-- longer than its column or has a NUL, an integer beyond 32 bits, and a number that has more digits than
-- its column; it rounds a number to the digits of its column, a half away from zero.
use hungrx_agent.Prelude.{
  ℕ, ◌+◌, ◌*◌, ◌/◌, ◌^◌, Bool, true, not, ◌&&◌, any, ◌==◌, ltb, length, Option, none, some, List,
  [], ◌∷◌,
}
use hungrx_agent.Text.{Text}
use hungrx_agent.Decimal.{Decimal}
use hungrx_agent.Schema.Menu.{
  ℤ, pos, negsuc, Ingredient, Dish, MenuCategory, category, Categories, nil, cons, Menu,
}
use hungrx_agent.Schema.Restaurant.{RestaurantLocation, Restaurant}

abbrev pub has_nul : Text → Bool
has_nul = any (λ c. c == 0)

-- `String(n)`
unfoldable pub fits : ℕ → Text → Bool
fits n s = not (ltb n (length s)) && not (has_nul s)

unfoldable pub fits_if_given : ℕ → Option Text → Bool
unfolding fits
fits_if_given n none = true
fits_if_given n (some s) = fits n s

-- Each text of a `JSONB` column is free of NULs.
unfoldable pub all_of {ℓ} : {A : Type ℓ} → (A → Bool) → List A → Bool
all_of p [] = true
all_of p (x ∷ xs) = p x && all_of p xs

abbrev pub has_no_nul : Text → Bool
has_no_nul s = not (has_nul s)

abbrev pub has_no_nul_if_given : Option Text → Bool
has_no_nul_if_given none = true
has_no_nul_if_given (some s) = has_no_nul s

-- `Integer`
abbrev pub fits_integer : ℤ → Bool
fits_integer (pos n) = ltb n (2 ^ 31)
fits_integer (negsuc n) = ltb n (2 ^ 31)

-- `Numeric(10, 2)`: the number as it is stored, in hundredths
unfoldable pub numeric : Decimal → Decimal
numeric d = record {
  coefficient = (200 * d.coefficient + 10 ^ d.exponent) / (2 * 10 ^ d.exponent);
  exponent = 2;
}

abbrev pub fits_numeric : Option Decimal → Bool
fits_numeric none = true
fits_numeric (some d) = ltb (numeric d).coefficient (10 ^ 10)

abbrev pub stored_price : Option Decimal → Option Decimal
stored_price none = none
stored_price (some d) = some (numeric d)

unfoldable pub location_fits : RestaurantLocation → Bool
unfolding fits fits_if_given
location_fits l =
    fits_if_given 255 l.label
    && (fits 255 l.address_line1
        && (fits_if_given 255 l.address_line2
            && (fits 120 l.city
                && (fits_if_given 120 l.region
                    && (fits_if_given 20 l.postal_code
                        && (fits 2 l.country && fits_if_given 50 l.phone))))))

unfoldable pub dish_fits : Dish → Bool
unfolding fits fits_if_given all_of numeric
dish_fits d =
    fits 255 d.name
    && (fits_if_given 2000 d.description
        && (fits_if_given 2048 d.image_url
            && (has_no_nul_if_given d.nutrition.serving_size
                && (all_of (λ (i : Ingredient). has_no_nul i.name) d.ingredients
                    && (fits_if_given 100 d.quantity
                        && (fits_numeric d.price && fits 3 d.currency))))))

unfoldable mutual
  unfolding fits dish_fits all_of

  pub category_fits : MenuCategory → Bool
  category_fits (category id name order children dishes) =
      fits 255 name && (fits_integer order && (all_of dish_fits dishes && categories_fit children))

  pub categories_fit : Categories → Bool
  categories_fit nil = true
  categories_fit (cons c cs) = category_fits c && categories_fit cs

unfoldable pub menu_fits : Menu → Bool
unfolding fits categories_fit
menu_fits m = fits 255 m.name && categories_fit m.categories

-- Each row of the tree fits its table.
unfoldable pub tree_fits : Restaurant → Bool
unfolding fits fits_if_given all_of location_fits menu_fits
tree_fits r =
    fits 255 r.name
    && (fits_if_given 2000 r.description
        && (fits_if_given 2048 r.logo_url
            && (fits_if_given 2048 r.cover_image_url
                && (all_of has_no_nul r.gallery_image_urls
                    && (fits_if_given 2048 r.website_url
                        && (all_of has_no_nul r.cuisine_types
                            && (all_of location_fits r.locations && all_of menu_fits r.menus)))))))
