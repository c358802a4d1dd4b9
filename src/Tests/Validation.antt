-- ===== src/Tests/Validation.antt =====
-- core/validation on the sample restaurant.
use hungrx_agent.Prelude.{
  ◌≡◌, ◌≢◌, ◌↔◌, refl, true, not, ◌&&◌, List, [], ◌∷◌, map, length, if◌then◌else◌, ltb,
}
use hungrx_agent.Text.{
  text, is_alpha, all_alpha, text_eq, is_member, name_key, strip, collapse, split, split_head,
  join_words, drop_spaces, drop_trailing,
}
use hungrx_agent.Text.Ascii.{ascii, ascii-IsLawful}
use hungrx_agent.Schema.Menu.{Allergen, Dish}
use hungrx_agent.Schema.Fields.{is_declared}
use hungrx_agent.Schema.Fields.Unique.{IsUnique}
use hungrx_agent.Validation.Result.{Place, key, index, is_valid}
use hungrx_agent.Validation.SchemaCheck.{SchemaError}
use hungrx_agent.Validation.NutritionRules.{check_atwater_consistency}
use hungrx_agent.Validation.NutritionRules.Atwater.{Diverges, check_atwater_warns}
use hungrx_agent.Validation.AllergenRules.{undeclared_allergens}
use hungrx_agent.Validation.AllergenRules.Undeclared.{
  IsSorted, is_implied, undeclared_allergens_lem,
}
use hungrx_agent.Validation.Duplicates.{check_duplicate_dishes, duplicate_issue}
use hungrx_agent.Validation.Duplicates.Names.{occurrences, named, named-check_duplicate_dishes}
use hungrx_agent.Validation.Corrections.{
  correct_dish, apply_safe_corrections, correct_menus, correct_categories, correct_dishes,
  corrected_currency, corrected_description, corrected_ingredients, deduplicate_ingredients,
  first_entries,
}
use hungrx_agent.Validation.Corrections.Dishes.{IsSafeEdit, correct_dish-IsSafeEdit}
use hungrx_agent.Validation.Corrections.Tree.{
  apply_safe_corrections_idem, apply_safe_corrections_recorded,
}
use hungrx_agent.Validation.Engine.{parsed, validate}
use hungrx_agent.Validation.Engine.Dishes.{
  dishes_of, correct_at, corrections_at, dishes_of-apply_safe_corrections,
}
use hungrx_agent.Validation.Engine.Outcome.{IsPublishable, is_valid-validate, validate-corrected}
use hungrx_agent.Tests.Samples.{fondue, macros, diner}

abbrev place : Place
place = key "menus" ∷ index 0 ∷ key "categories" ∷ index 0 ∷ key "dishes" ∷ index 0 ∷ []

abbrev two_fondues : List (Dish × Place)
two_fondues = (fondue, place) ∷ (fondue, key "menus" ∷ []) ∷ []

abbrev no_name : SchemaError
no_name = record { loc = key "name" ∷ []; msg = text "Field required" }

-- Three fields of the diner's dish are corrected.
corrections_of_diner : length (apply_safe_corrections ascii diner).1 ≡ 3
unfolding apply_safe_corrections correct_menus correct_categories correct_dishes correct_dish
    corrected_currency corrected_description corrected_ingredients deduplicate_ingredients
    first_entries is_alpha all_alpha text_eq is_member name_key strip collapse split split_head
    join_words drop_spaces drop_trailing
corrections_of_diner = refl

is_valid-validate_example :
    (is_valid (validate ascii (parsed diner)) ≡ true)
    ↔ IsPublishable ascii (apply_safe_corrections ascii diner).0
is_valid-validate_example = is_valid-validate ascii diner

validate-corrected_example :
    validate ascii (parsed (apply_safe_corrections ascii diner).0)
    ≡ record (validate ascii (parsed diner)) { corrected_fields = [] }
validate-corrected_example = validate-corrected ascii ascii-IsLawful diner

apply_safe_corrections_idem_example :
    apply_safe_corrections ascii (apply_safe_corrections ascii diner).0
    ≡ ((apply_safe_corrections ascii diner).0, [])
apply_safe_corrections_idem_example = apply_safe_corrections_idem ascii ascii-IsLawful diner

apply_safe_corrections_recorded_example :
    ((apply_safe_corrections ascii diner).0 ≡ diner) ↔ ((apply_safe_corrections ascii diner).1 ≡ [])
apply_safe_corrections_recorded_example = apply_safe_corrections_recorded ascii diner

dishes_of-apply_safe_corrections_example :
    (dishes_of (apply_safe_corrections ascii diner).0 ≡ map (correct_at ascii) (dishes_of diner))
    × ((apply_safe_corrections ascii diner).1 ≡ corrections_at ascii (dishes_of diner))
dishes_of-apply_safe_corrections_example = dishes_of-apply_safe_corrections ascii diner

correct_dish-IsSafeEdit_example : IsSafeEdit ascii fondue (correct_dish ascii fondue place).0
correct_dish-IsSafeEdit_example = correct_dish-IsSafeEdit ascii ascii-IsLawful fondue place

named-check_duplicate_dishes_example :
    let places = occurrences ascii (text "fondue") two_fondues in
    named (text "fondue") (check_duplicate_dishes ascii two_fondues)
    ≡ (if ltb (length places) 2 then [] else map (duplicate_issue (text "fondue") places) places)
named-check_duplicate_dishes_example =
    named-check_duplicate_dishes ascii (text "fondue")
      ((fondue, place) ∷ (fondue, key "menus" ∷ []) ∷ [])

check_atwater_warns_example :
    (check_atwater_consistency macros place ≢ [])
    ↔ Diverges macros.calories macros.protein_g macros.carbohydrates_g macros.fat_g
check_atwater_warns_example = check_atwater_warns macros place

undeclared_allergens_lem_example :
    IsUnique (undeclared_allergens ascii fondue)
    × IsSorted (undeclared_allergens ascii fondue)
    × ((a : Allergen)
        → is_declared a (undeclared_allergens ascii fondue)
          ≡ (is_implied ascii a fondue.ingredients && not (is_declared a fondue.allergens)))
undeclared_allergens_lem_example = undeclared_allergens_lem ascii fondue
