-- ===== src/Schema/Restaurant.antt =====
-- core/schemas/restaurant.py. Coordinates and times are only carried along: a `float` is its bit
-- pattern, a `datetime` its number of microseconds.
use hungrx_agent.Prelude.{ℕ, Bool, Option, List}
use hungrx_agent.Text.{Text}
use hungrx_agent.Schema.Menu.{Uuid, Menu}

abbrev pub Float64 : Type 0
Float64 = ℕ

abbrev pub DateTime : Type 0
DateTime = ℕ

pub record RestaurantLocation : Type 0 where
  pub id : Uuid
  pub label : Option Text
  pub address_line1 : Text
  pub address_line2 : Option Text
  pub city : Text
  pub region : Option Text
  pub postal_code : Option Text
  pub country : Text
  pub latitude : Option Float64
  pub longitude : Option Float64
  pub phone : Option Text

pub record Restaurant : Type 0 where
  pub id : Uuid
  pub name : Text
  pub description : Option Text
  pub logo_url : Option Text
  pub cover_image_url : Option Text
  pub gallery_image_urls : List Text
  pub website_url : Option Text
  pub cuisine_types : List Text
  pub locations : List RestaurantLocation
  pub menus : List Menu
  pub is_active : Bool
  pub created_at : Option DateTime
  pub updated_at : Option DateTime
