-- ===== src/Extraction.antt =====
-- core/schemas/extraction_output.py, and what the code under it makes of a model's answers. A `float` of the
-- source stands as the decimal of its shortest notation, which is what Pydantic turns it into.
pub mod Chunked
pub mod Mapping
pub mod Capture
pub mod Material
pub mod Extractor
use hungrx_agent.Prelude.{Option, List}
use hungrx_agent.Text.{Text}
use hungrx_agent.Decimal.{Decimal}
use hungrx_agent.Schema.Nutrition.{Nutrition}
use hungrx_agent.Schema.Menu.{Allergen}

-- `ExtractedNutrition`, `ExtractedMacros` and `ExtractedMicronutrients` have the fields of `Nutrition`.
abbrev pub ExtractedNutrition : Type 0
ExtractedNutrition = Nutrition

pub record ExtractedDish : Type 0 where
  pub name : Text
  pub description : Option Text
  pub image_url : Option Text
  pub nutrition : ExtractedNutrition
  pub allergens : List Allergen
  pub ingredient_names : List Text
  pub quantity : Option Text
  pub price : Option Decimal
  pub currency : Option Text
  pub confidence : Option Decimal
  pub source_snapshot_ids : List Text

pub record ExtractedMenuCategory : Type 0 where
  pub name : Text
  pub dishes : List ExtractedDish

pub record ExtractedMenu : Type 0 where
  pub name : Text
  pub categories : List ExtractedMenuCategory

pub record ExtractedRestaurantProfile : Type 0 where
  pub description : Option Text
  pub cuisine_types : List Text
  pub logo_url : Option Text
  pub cover_image_url : Option Text
  pub confidence : Option Decimal
  pub source_snapshot_ids : List Text

pub record ExtractionOutput : Type 0 where
  pub restaurant_profile : ExtractedRestaurantProfile
  pub menus : List ExtractedMenu

pub record ExtractedMenuCategoryStub : Type 0 where
  pub menu_name : Text
  pub category_name : Text

pub record ExtractedDiscovery : Type 0 where
  pub restaurant_profile : ExtractedRestaurantProfile
  pub categories : List ExtractedMenuCategoryStub

-- infrastructure/ai/provider.py: `AIProviderResult`
pub record Answer (A : Type 0) : Type 0 where
  pub output : A
  pub model_name : Text
  pub overall_confidence : Option Decimal

-- What a call gives, or the exception's text
pub data Asked {ℓ} (A : Type ℓ) : Type ℓ where
  answered : A → Asked A
  failed_with : Text → Asked A

infixl 5 ◌>>=◌
abbrev pub ◌>>=◌ {ℓ κ} : {A : Type ℓ} {B : Type κ} → Asked A → (A → Asked B) → Asked B
answered a >>= f = f a
failed_with e >>= f = failed_with e

-- `generate_structured` at the two response models, on a system prompt and the user's content. An
-- `ExtractedCategoryDishes` is its list of dishes.
pub record AiProvider : Type 0 where
  pub discover : Text → Text → Asked (Answer ExtractedDiscovery)
  pub list_dishes : Text → Text → Asked (Answer (List ExtractedDish))
