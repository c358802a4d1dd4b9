-- ===== src/Validation/AllergenRules.antt =====
-- core/validation/allergen_rules.py. A set of allergens is a list without repetitions.
pub mod Undeclared
use hungrx_agent.Prelude.{
  Bool, true, false, not, List, [], ◌∷◌, ◌++◌, map, ltb, ◌==◌, keep_if, if◌then◌else◌,
}
use hungrx_agent.Text.{Text, text, Unicode, contains_text}
use hungrx_agent.Schema.Menu.{
  Allergen, milk, eggs, shellfish, peanuts, tree_nuts, wheat, soy, sesame, allergen_value,
  Ingredient, Dish,
}
use hungrx_agent.Schema.Fields.{is_declared}
use hungrx_agent.Validation.Result.{
  Place, at, key, ValidationIssue, warning, possible_undeclared_allergen, allergen_suggested,
}

abbrev pub ingredient_allergen_keywords : List (Text × Allergen)
ingredient_allergen_keywords =
    (text "milk", milk)
    ∷ (text "cheese", milk)
    ∷ (text "butter", milk)
    ∷ (text "cream", milk)
    ∷ (text "yogurt", milk)
    ∷ (text "egg", eggs)
    ∷ (text "mayonnaise", eggs)
    ∷ (text "shrimp", shellfish)
    ∷ (text "crab", shellfish)
    ∷ (text "lobster", shellfish)
    ∷ (text "peanut", peanuts)
    ∷ (text "almond", tree_nuts)
    ∷ (text "walnut", tree_nuts)
    ∷ (text "cashew", tree_nuts)
    ∷ (text "pecan", tree_nuts)
    ∷ (text "wheat", wheat)
    ∷ (text "flour", wheat)
    ∷ (text "soy", soy)
    ∷ (text "tofu", soy)
    ∷ (text "sesame", sesame)
    ∷ (text "tahini", sesame)
    ∷ []

-- `implied.add(allergen)`
add_allergen : Allergen → List Allergen → List Allergen
add_allergen a set = if is_declared a set then set else set ++ (a ∷ [])

-- The loop over the keywords, for one lowered ingredient name.
match_keywords : Text → List (Text × Allergen) → List Allergen → List Allergen
match_keywords lowered [] implied = implied
match_keywords lowered ((keyword, allergen) ∷ rest) implied =
    match_keywords lowered rest
      (if contains_text lowered keyword then add_allergen allergen implied else implied)

match_ingredients :
    Unicode → List (Text × Allergen) → List Ingredient → List Allergen → List Allergen
match_ingredients u keywords [] implied = implied
match_ingredients u keywords (i ∷ rest) implied =
    match_ingredients u keywords rest (match_keywords (u.lower i.name) keywords implied)

unfoldable pub implied_allergens : Unicode → Dish → List Allergen
unfolding match_ingredients match_keywords add_allergen
implied_allergens u dish = match_ingredients u ingredient_allergen_keywords dish.ingredients []

-- `a <= b` of two texts, by code points
unfoldable pub text_le : Text → Text → Bool
text_le [] t = true
text_le (c ∷ s) [] = false
text_le (c ∷ s) (d ∷ t) = if c == d then text_le s t else ltb c d

insert_by_value : Allergen → List Allergen → List Allergen
insert_by_value a [] = a ∷ []
insert_by_value a (b ∷ bs) =
    if text_le (allergen_value a) (allergen_value b) then a ∷ b ∷ bs else b ∷ insert_by_value a bs

-- `sorted(..., key=lambda allergen: allergen.value)`
unfoldable pub sort_by_value : List Allergen → List Allergen
unfolding insert_by_value
sort_by_value [] = []
sort_by_value (a ∷ as') = insert_by_value a (sort_by_value as')

-- `sorted(implied - declared)`
unfoldable pub undeclared_allergens : Unicode → Dish → List Allergen
undeclared_allergens u dish =
    sort_by_value (keep_if (λ a. not (is_declared a dish.allergens)) (implied_allergens u dish))

unfoldable pub undeclared_issue : Place → Allergen → ValidationIssue
undeclared_issue prefix a = record {
  field_path = at (prefix ++ (key "allergens" ∷ []));
  code = possible_undeclared_allergen;
  message = allergen_suggested (allergen_value a);
  severity = warning;
}

unfoldable pub check_allergens : Unicode → Dish → Place → List ValidationIssue
unfolding undeclared_issue
check_allergens u dish prefix = map (undeclared_issue prefix) (undeclared_allergens u dish)
