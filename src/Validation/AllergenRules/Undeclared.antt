-- ===== src/Validation/AllergenRules/Undeclared.antt =====
-- The allergens that core/validation/allergen_rules.py suggests, and the keyword table's part in them.
use hungrx_agent.Prelude.{
  ◌≡◌, refl, ◌∙◌, inl, inr, Bool, true, false, ◌&&◌, ◌||◌, not, List, [], ◌∷◌, any, arith, keep_if,
  Bool-cases,
}
use hungrx_agent.Text.{Text, Unicode, contains_text}
use hungrx_agent.Schema.Menu.{
  Allergen, same_allergen, same_allergen_iff, allergen_value, Ingredient, Dish,
}
use hungrx_agent.Schema.Fields.{is_declared}
use hungrx_agent.Schema.Fields.Unique.{IsUnique, IsUnique-snoc, is_declared-append}
use hungrx_agent.Validation.AllergenRules.{
  ingredient_allergen_keywords, add_allergen, match_keywords, match_ingredients, implied_allergens,
  text_le, insert_by_value, sort_by_value, undeclared_allergens,
}

-- One of the keywords of the allergen stands in the lowered name.
pub suggests : Allergen → List (Text × Allergen) → Text → Bool
suggests a keywords lowered = any (λ k. contains_text lowered k.0 && same_allergen k.1 a) keywords

-- A keyword of the allergen stands in the lowered name of an ingredient.
pub is_implied : Unicode → Allergen → List Ingredient → Bool
is_implied u a = any (λ i. suggests a ingredient_allergen_keywords (u.lower i.name))

is_declared-add_allergen :
    (a b : Allergen) (set : List Allergen)
    → is_declared a (add_allergen b set) ≡ (is_declared a set || same_allergen b a)
unfolding add_allergen is_declared
is_declared-add_allergen a b set =
    ground (arith, is_declared-append a set (b ∷ []), same_allergen_iff b a)

is_declared-match_keywords :
    (a : Allergen) (lowered : Text) (keywords : List (Text × Allergen)) (set : List Allergen)
    → is_declared a (match_keywords lowered keywords set)
      ≡ (is_declared a set || suggests a keywords lowered)
unfolding match_keywords suggests any
is_declared-match_keywords a lowered [] set = ground arith
is_declared-match_keywords a lowered ((k, b) ∷ keywords) set =
    is_declared-match_keywords a lowered keywords _
    ∙ ground (arith, is_declared-add_allergen a b set)

is_declared-match_ingredients :
    (u : Unicode) (a : Allergen) (keywords : List (Text × Allergen)) (is : List Ingredient)
    (set : List Allergen)
    → is_declared a (match_ingredients u keywords is set)
      ≡ (is_declared a set || any (λ i. suggests a keywords (u.lower i.name)) is)
unfolding match_ingredients any
is_declared-match_ingredients u a keywords [] set = ground arith
is_declared-match_ingredients u a keywords (i ∷ is) set =
    is_declared-match_ingredients u a keywords is _
    ∙ ground (arith, is_declared-match_keywords a (u.lower i.name) keywords set)

add_allergen-IsUnique :
    (b : Allergen) (set : List Allergen) → IsUnique set → IsUnique (add_allergen b set)
unfolding add_allergen
add_allergen-IsUnique b set h = elim (Bool-cases (is_declared b set)) [
  | inl e ↦ rw e h
  | inr e ↦ rw e (IsUnique-snoc set b h e)
]

match_keywords-IsUnique :
    (lowered : Text) (keywords : List (Text × Allergen)) (set : List Allergen)
    → IsUnique set
    → IsUnique (match_keywords lowered keywords set)
unfolding match_keywords
match_keywords-IsUnique lowered [] set h = h
match_keywords-IsUnique lowered ((k, b) ∷ keywords) set h =
    match_keywords-IsUnique lowered keywords _ (elim (Bool-cases (contains_text lowered k)) [
      | inl e ↦ rw e (add_allergen-IsUnique b set h)
      | inr e ↦ rw e h
    ])

match_ingredients-IsUnique :
    (u : Unicode) (keywords : List (Text × Allergen)) (is : List Ingredient) (set : List Allergen)
    → IsUnique set
    → IsUnique (match_ingredients u keywords is set)
unfolding match_ingredients
match_ingredients-IsUnique u keywords [] set h = h
match_ingredients-IsUnique u keywords (i ∷ is) set h =
    match_ingredients-IsUnique u keywords is _
      (match_keywords-IsUnique (u.lower i.name) keywords set h)

is_declared-keep_if :
    (p : Allergen → Bool) (a : Allergen) (xs : List Allergen)
    → is_declared a (keep_if p xs) ≡ (is_declared a xs && p a)
unfolding keep_if is_declared
is_declared-keep_if p a [] = refl
is_declared-keep_if p a (x ∷ xs) = ground (arith, is_declared-keep_if p a xs, same_allergen_iff x a)

keep_if-IsUnique :
    (p : Allergen → Bool) (xs : List Allergen) → IsUnique xs → IsUnique (keep_if p xs)
unfolding keep_if
keep_if-IsUnique p [] h = tt
keep_if-IsUnique p (x ∷ xs) h = elim (Bool-cases (p x)) [
  | inl e ↦ rw e (is_declared-keep_if p x xs ∙ rw h.0, keep_if-IsUnique p xs h.1)
  | inr e ↦ rw e (keep_if-IsUnique p xs h.1)
]

is_declared-insert :
    (a b : Allergen) (xs : List Allergen)
    → is_declared a (insert_by_value b xs) ≡ (same_allergen b a || is_declared a xs)
unfolding insert_by_value is_declared
is_declared-insert a b [] = refl
is_declared-insert a b (x ∷ xs) = ground (arith, is_declared-insert a b xs)

is_declared-sort :
    (a : Allergen) (xs : List Allergen) → is_declared a (sort_by_value xs) ≡ is_declared a xs
unfolding sort_by_value is_declared
is_declared-sort a [] = refl
is_declared-sort a (x ∷ xs) = is_declared-insert a x (sort_by_value xs) ∙ rw (is_declared-sort a xs)

insert-IsUnique :
    (b : Allergen) (xs : List Allergen)
    → is_declared b xs ≡ false
    → IsUnique xs
    → IsUnique (insert_by_value b xs)
unfolding insert_by_value is_declared
insert-IsUnique b [] n h = (refl, tt)
insert-IsUnique b (x ∷ xs) n h = elim (Bool-cases (text_le (allergen_value b) (allergen_value x))) [
  | inl e ↦ rw e (n, h)
  | inr e ↦ rw e (
    is_declared-insert x b xs ∙ ground (arith, same_allergen_iff b x, same_allergen_iff x b),
    insert-IsUnique b xs (ground arith) h.1,
  )
]

sort-IsUnique : (xs : List Allergen) → IsUnique xs → IsUnique (sort_by_value xs)
unfolding sort_by_value
sort-IsUnique [] h = tt
sort-IsUnique (x ∷ xs) h =
    insert-IsUnique x (sort_by_value xs) (is_declared-sort x xs ∙ h.0) (sort-IsUnique xs h.1)

text_le_total : (s t : Text) → text_le s t ≡ false → text_le t s ≡ true
unfolding text_le
text_le_total [] t h = cc
text_le_total (c ∷ s) [] h = refl
text_le_total (c ∷ s) (d ∷ t) h = ground (arith, text_le_total s t)

-- In the order of their values.
abbrev pub IsSorted : List Allergen → Type 0
IsSorted [] = Unit
IsSorted (a ∷ []) = Unit
IsSorted (a ∷ b ∷ xs) = (text_le (allergen_value a) (allergen_value b) ≡ true) × IsSorted (b ∷ xs)

-- The allergen comes no later than the first of the list.
abbrev IsBefore : Allergen → List Allergen → Type 0
IsBefore x [] = Unit
IsBefore x (y ∷ ys) = text_le (allergen_value x) (allergen_value y) ≡ true

IsSorted-cons :
    (x : Allergen) (ys : List Allergen) → IsBefore x ys → IsSorted ys → IsSorted (x ∷ ys)
IsSorted-cons x [] h s = tt
IsSorted-cons x (y ∷ ys) h s = (h, s)

IsBefore-insert :
    (x b : Allergen) (ys : List Allergen)
    → text_le (allergen_value x) (allergen_value b) ≡ true
    → IsBefore x ys
    → IsBefore x (insert_by_value b ys)
unfolding insert_by_value
IsBefore-insert x b [] hb h = hb
IsBefore-insert x b (y ∷ ys) hb h =
    elim (Bool-cases (text_le (allergen_value b) (allergen_value y))) [
      | inl e ↦ rw e hb
      | inr e ↦ rw e h
    ]

IsSorted-insert :
    (b : Allergen) (xs : List Allergen) → IsSorted xs → IsSorted (insert_by_value b xs)
unfolding insert_by_value
IsSorted-insert b [] h = tt
IsSorted-insert b (x ∷ []) h = elim (Bool-cases (text_le (allergen_value b) (allergen_value x))) [
  | inl e ↦ rw e (e, tt)
  | inr e ↦ rw e (text_le_total _ _ e, tt)
]
IsSorted-insert b (x ∷ y ∷ xs) h =
    elim (Bool-cases (text_le (allergen_value b) (allergen_value x))) [
      | inl e ↦ rw e (e, h)
      | inr e ↦ rw e (
          IsSorted-cons x _ (IsBefore-insert x b (y ∷ xs) (text_le_total _ _ e) h.0)
            (IsSorted-insert b (y ∷ xs) h.1))
    ]

IsSorted-sort : (xs : List Allergen) → IsSorted (sort_by_value xs)
unfolding sort_by_value
IsSorted-sort [] = tt
IsSorted-sort (x ∷ xs) = IsSorted-insert x (sort_by_value xs) (IsSorted-sort xs)

-- The allergens that the allergen check suggests for a dish are exactly those that a keyword of the table
-- implies for the name of an ingredient and the dish does not declare: each of them once, in the order of
-- their values.
pub undeclared_allergens_lem :
    (u : Unicode) (dish : Dish)
    → IsUnique (undeclared_allergens u dish)
      × IsSorted (undeclared_allergens u dish)
      × ((a : Allergen)
          → is_declared a (undeclared_allergens u dish)
            ≡ (is_implied u a dish.ingredients && not (is_declared a dish.allergens)))
unfolding undeclared_allergens implied_allergens is_implied is_declared
undeclared_allergens_lem u dish = (
  sort-IsUnique _ (
      keep_if-IsUnique _ _
        (match_ingredients-IsUnique u ingredient_allergen_keywords dish.ingredients [] tt)),
  IsSorted-sort _,
  λ a.
      is_declared-sort a _
      ∙ is_declared-keep_if _ a _
      ∙ rw (is_declared-match_ingredients u a ingredient_allergen_keywords dish.ingredients [])
          refl,
)
