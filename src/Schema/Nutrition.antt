-- ===== src/Schema/Nutrition.antt =====
-- core/schemas/nutrition.py: the fixed set of nutrients.
use hungrx_agent.Prelude.{Option, none}
use hungrx_agent.Text.{Text}
use hungrx_agent.Decimal.{Decimal}

pub record Macros : Type 0 where
  pub calories : Option Decimal
  pub protein_g : Option Decimal
  pub carbohydrates_g : Option Decimal
  pub fat_g : Option Decimal
  pub saturated_fat_g : Option Decimal
  pub trans_fat_g : Option Decimal
  pub fiber_g : Option Decimal
  pub sugar_g : Option Decimal
  pub sodium_mg : Option Decimal
  pub cholesterol_mg : Option Decimal

pub record Micronutrients : Type 0 where
  pub vitamin_a_mcg : Option Decimal
  pub vitamin_c_mg : Option Decimal
  pub vitamin_d_mcg : Option Decimal
  pub calcium_mg : Option Decimal
  pub iron_mg : Option Decimal
  pub potassium_mg : Option Decimal

pub record Nutrition : Type 0 where
  pub serving_size : Option Text
  pub macros : Macros
  pub micronutrients : Micronutrients

-- The defaults: every nutrient is `None`.
abbrev pub no_macros : Macros
no_macros = record {
  calories = none;
  protein_g = none;
  carbohydrates_g = none;
  fat_g = none;
  saturated_fat_g = none;
  trans_fat_g = none;
  fiber_g = none;
  sugar_g = none;
  sodium_mg = none;
  cholesterol_mg = none;
}

abbrev pub no_micronutrients : Micronutrients
no_micronutrients = record {
  vitamin_a_mcg = none;
  vitamin_c_mg = none;
  vitamin_d_mcg = none;
  calcium_mg = none;
  iron_mg = none;
  potassium_mg = none;
}

abbrev pub no_nutrition : Nutrition
no_nutrition = record {
  serving_size = none;
  macros = no_macros;
  micronutrients = no_micronutrients;
}
