-- ===== src/Schema/Menu.antt =====
-- core/schemas/menu.py: menus, the tree of categories, dishes, ingredients, allergens.
-- A UUID is its 128-bit number.
use mathlib.Core.Bool.{decide}
use hungrx_agent.Prelude.{◌≡◌, ◌↔◌, true, refl, ℕ, Bool, Option, List}
use hungrx_agent.Text.{Text, text}
use hungrx_agent.Decimal.{Decimal}
use hungrx_agent.Schema.Nutrition.{Nutrition}

abbrev pub Uuid : Type 0
Uuid = ℕ

-- A Python `int` that may be negative; the program only carries it along. `negsuc n` is -(n + 1).
pub data ℤ : Type 0 where
  pos : ℕ → ℤ
  negsuc : ℕ → ℤ

pub data Allergen : Type 0 where
  milk eggs fish shellfish tree_nuts peanuts wheat soy sesame gluten : Allergen

unfoldable pub Allergen-discrete : Discrete Allergen
Allergen-discrete = hlevel

-- `a == b` of two members of the enumeration
unfoldable pub same_allergen : Allergen → Allergen → Bool
unfolding Allergen-discrete
same_allergen a b = decide (Allergen-discrete a b)

decide_iff {ℓ} : {P : Type ℓ} (d : Dec P) → (decide d ≡ true) ↔ P
unfolding decide
decide_iff (yes p) = (λ e. p, λ q. refl)
decide_iff (no n) = (λ e. cc, λ q. absurd (n q))

pub same_allergen_iff : (a b : Allergen) → (same_allergen a b ≡ true) ↔ (a ≡ b)
unfolding same_allergen
same_allergen_iff a b = decide_iff (Allergen-discrete a b)

-- `allergen.value`
unfoldable pub allergen_value : Allergen → Text
allergen_value milk = text "milk"
allergen_value eggs = text "eggs"
allergen_value fish = text "fish"
allergen_value shellfish = text "shellfish"
allergen_value tree_nuts = text "tree_nuts"
allergen_value peanuts = text "peanuts"
allergen_value wheat = text "wheat"
allergen_value soy = text "soy"
allergen_value sesame = text "sesame"
allergen_value gluten = text "gluten"

pub record Ingredient : Type 0 where
  pub name : Text
  pub is_optional : Bool

pub data ReviewState : Type 0 where
  pending confirmed rejected : ReviewState

pub record Dish : Type 0 where
  pub id : Uuid
  pub category_id : Uuid
  pub name : Text
  pub description : Option Text
  pub image_url : Option Text
  pub nutrition : Nutrition
  pub allergens : List Allergen
  pub ingredients : List Ingredient
  pub quantity : Option Text
  pub price : Option Decimal
  pub currency : Text
  pub review_state : ReviewState

-- `MenuCategory` with the fields `id`, `name`, `display_order`, `children` and `dishes`, and the
-- lists of categories.
mutual
  pub data MenuCategory : Type 0 where
    category : Uuid → Text → ℤ → Categories → List Dish → MenuCategory

  pub data Categories : Type 0 where
    nil : Categories
    cons : MenuCategory → Categories → Categories

pub record Menu : Type 0 where
  pub id : Uuid
  pub name : Text
  pub categories : Categories
