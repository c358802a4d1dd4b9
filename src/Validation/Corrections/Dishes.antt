-- ===== src/Validation/Corrections/Dishes.antt =====
-- core/validation/safe_corrections.py: correcting a single dish.
use mathlib.Core.Option
use hungrx_agent.Prelude.{
  ◌≤◌, ◌≡◌, ◌↔◌, ◌⊎◌, refl, sym, ap, ◌∙◌, inl, inr, true, false, ◌||◌, Option, none, some, List, [],
  ◌∷◌, length, arith, Bool-cases, Option-cases,
}
use hungrx_agent.Text.{Text, Unicode, IsLawful, text_eq, is_member, collapse, name_key, split}
use hungrx_agent.Text.Words.{text_eq_iff, collapse_idem, split-collapse}
use hungrx_agent.Schema.Menu.{Ingredient, Dish}
use hungrx_agent.Validation.Result.{Place}
use hungrx_agent.Validation.Corrections.{
  first_entries, deduplicate_ingredients, corrected_currency, corrected_description,
  corrected_ingredients, correct_dish,
}

module _ (u : Unicode) where
  -- The currency, description and ingredients that the corrected dish has.
  abbrev pub new_currency : Text → Text
  new_currency c = elim (corrected_currency u c) [ none ↦ c | some c' ↦ c' ]

  abbrev pub new_description : Option Text → Option Text
  new_description d = elim (corrected_description u d) [ none ↦ d | some d' ↦ some d' ]

  abbrev pub new_ingredients : List Ingredient → List Ingredient
  new_ingredients is = elim (corrected_ingredients u is) [ none ↦ is | some is' ↦ is' ]

  first_entries_idem :
      (seen : List Text) (is : List Ingredient)
      → first_entries u seen (first_entries u seen is) ≡ first_entries u seen is
  unfolding first_entries
  first_entries_idem seen [] = refl
  first_entries_idem seen (i ∷ is) = elim (Bool-cases (is_member (name_key u i.name) seen)) [
    | inl old ↦ rw old (first_entries_idem seen is)
    | inr new ↦
        rw (new, first_entries, new)
          (ap (λ r. i ∷ r) (first_entries_idem (name_key u i.name ∷ seen) is))
  ]

  length-first_entries :
      (seen : List Text) (is : List Ingredient) → length (first_entries u seen is) ≤ length is
  unfolding first_entries
  length-first_entries seen [] = omega arith
  length-first_entries seen (i ∷ is) =
      ground
        (arith, length-first_entries seen is, length-first_entries (name_key u i.name ∷ seen) is)

  first_entries-eq_self :
      (seen : List Text) (is : List Ingredient)
      → length (first_entries u seen is) ≡ length is
      → first_entries u seen is ≡ is
  unfolding first_entries
  first_entries-eq_self seen [] h = refl
  first_entries-eq_self seen (i ∷ is) h =
      ground
        (arith, length-first_entries seen is, first_entries-eq_self (name_key u i.name ∷ seen) is)

  corrected_currency-eq-some :
      (c c' : Text)
      → corrected_currency u c ≡ some c'
      → (c' ≡ u.upper c) × (text_eq c (u.upper c) ≡ false)
  unfolding corrected_currency
  corrected_currency-eq-some c c' h = ground arith

  corrected_currency_of_upper :
      (c : Text) → text_eq c (u.upper c) ≡ true → corrected_currency u c ≡ none
  unfolding corrected_currency
  corrected_currency_of_upper c h = ground arith

  pub corrected_currency_idem :
      IsLawful u → (c : Text) → corrected_currency u (new_currency c) ≡ none
  corrected_currency_idem law c = elim (Option-cases (corrected_currency u c)) [
    | inl e ↦ rw (e, new_currency) e
    | inr (c', e) ↦
        let (same, _) = corrected_currency-eq-some c c' e in
        rw (e, new_currency, same)
          (corrected_currency_of_upper (u.upper c) ((text_eq_iff _ _).1 (sym (law.upper_idem c))))
  ]

  pub corrected_description_idem :
      IsLawful u → (d : Option Text) → corrected_description u (new_description d) ≡ none
  unfolding corrected_description
  corrected_description_idem law none = refl
  corrected_description_idem law (some d) =
      ground (arith, collapse_idem u law d, text_eq_iff (collapse u (collapse u d)) (collapse u d))

  pub corrected_ingredients_idem :
      (is : List Ingredient) → corrected_ingredients u (new_ingredients is) ≡ none
  unfolding corrected_ingredients deduplicate_ingredients
  corrected_ingredients_idem is = ground (arith, first_entries_idem [] is)

  -- The corrected dish, field by field.
  pub correct_dish_lem :
      (dish : Dish) (p : Place)
      → (correct_dish u dish p).0 ≡ record dish {
        currency = new_currency dish.currency;
        description = new_description dish.description;
        ingredients = new_ingredients dish.ingredients;
      }
  unfolding correct_dish
  correct_dish_lem dish p = ground arith

  pub ingredient_keys : List Ingredient → List Text
  ingredient_keys [] = []
  ingredient_keys (i ∷ is) = name_key u i.name ∷ ingredient_keys is

  -- The keys that are seen, or that an entry has, are those that are seen or that a kept entry has.
  is_member-first_entries :
      (k : Text) (seen : List Text) (is : List Ingredient)
      → (is_member k seen || is_member k (ingredient_keys (first_entries u seen is)))
        ≡ (is_member k seen || is_member k (ingredient_keys is))
  unfolding first_entries ingredient_keys is_member
  is_member-first_entries k seen [] = refl
  is_member-first_entries k seen (i ∷ is) = ground (
    arith,
    is_member-first_entries k seen is,
    is_member-first_entries k (name_key u i.name ∷ seen) is,
    text_eq_iff (name_key u i.name) k,
  )

  -- The new currency is the old one or its upper case.
  currency_only_cased : (c : Text) → (new_currency c ≡ c) ⊎ (new_currency c ≡ u.upper c)
  unfolding corrected_currency
  currency_only_cased c = ground arith

  words_kept :
      IsLawful u
      → (d : Option Text) → Option.map (split u) (new_description d) ≡ Option.map (split u) d
  unfolding corrected_description
  words_kept law none = refl
  words_kept law (some d) = ground (arith, split-collapse u law d)

  keys_kept :
      (k : Text) (is : List Ingredient)
      → is_member k (ingredient_keys (new_ingredients is)) ≡ is_member k (ingredient_keys is)
  unfolding corrected_ingredients deduplicate_ingredients is_member
  keys_kept k is = ground (arith, is_member-first_entries k [] is)

  corrected_currency-eq-none : (c : Text) → new_currency c ≡ c → corrected_currency u c ≡ none
  unfolding corrected_currency
  corrected_currency-eq-none c h = ground (arith, text_eq_iff c (u.upper c))

  corrected_description-eq-none :
      (d : Option Text) → new_description d ≡ d → corrected_description u d ≡ none
  unfolding corrected_description
  corrected_description-eq-none none h = refl
  corrected_description-eq-none (some d) h = ground (arith, text_eq_iff (collapse u d) d)

  corrected_ingredients-eq-none :
      (is : List Ingredient) → new_ingredients is ≡ is → corrected_ingredients u is ≡ none
  unfolding corrected_ingredients deduplicate_ingredients
  corrected_ingredients-eq-none is h = ground (arith, ap length h)

  unchanged_record :
      (dish : Dish) (p : Place)
      → corrected_currency u dish.currency ≡ none
      → corrected_description u dish.description ≡ none
      → corrected_ingredients u dish.ingredients ≡ none
      → correct_dish u dish p ≡ (dish, [])
  unfolding correct_dish
  unchanged_record dish p c d i = rw (c, d, i)

  pub correct_dish_idem :
      IsLawful u
      → (dish : Dish) (p q : Place)
      → correct_dish u (correct_dish u dish p).0 q ≡ ((correct_dish u dish p).0, [])
  correct_dish_idem law dish p q = rw (correct_dish_lem dish p) (
      unchanged_record _ q (corrected_currency_idem law dish.currency)
        (corrected_description_idem law dish.description)
        (corrected_ingredients_idem dish.ingredients))

  nothing_to_correct :
      (dish : Dish) (p : Place)
      → (correct_dish u dish p).1 ≡ []
      → correct_dish u dish p ≡ (dish, [])
  unfolding correct_dish
  nothing_to_correct dish p h = ground arith

  -- A dish stays as it is exactly when no correction is recorded.
  pub correct_dish_recorded :
      (dish : Dish) (p : Place)
      → ((correct_dish u dish p).0 ≡ dish) ↔ ((correct_dish u dish p).1 ≡ [])
  correct_dish_recorded dish p = (
    λ same.
        let e = sym (correct_dish_lem dish p) ∙ same in
        ap (λ r. r.1)
          (unchanged_record dish p
            (corrected_currency-eq-none dish.currency (ap (λ d. d.currency) e))
            (corrected_description-eq-none dish.description (ap (λ d. d.description) e))
            (corrected_ingredients-eq-none dish.ingredients (ap (λ d. d.ingredients) e))),
    λ h. ap (λ r. r.0) (nothing_to_correct dish p h),
  )

  -- What a correction may do to a dish.
  pub record IsSafeEdit (old new : Dish) : Type 0 where
    pub rest :
        record new {
          currency = old.currency;
          description = old.description;
          ingredients = old.ingredients;
        }
        ≡ old
    pub currency : (new.currency ≡ old.currency) ⊎ (new.currency ≡ u.upper old.currency)
    pub description : Option.map (split u) new.description ≡ Option.map (split u) old.description
    pub ingredients :
        (k : Text)
        → is_member k (ingredient_keys new.ingredients)
          ≡ is_member k (ingredient_keys old.ingredients)

  -- For lawful character tables, the corrected dish differs from the dish in its currency, description
  -- and ingredients at most: its currency is the old one or the old one in upper case, its description
  -- has the same words, and the set of its ingredients' names is the same, where names that differ only in
  -- case, outer blanks and the amount of white space between words count as one.
  pub correct_dish-IsSafeEdit :
      IsLawful u → (dish : Dish) (p : Place) → IsSafeEdit dish (correct_dish u dish p).0
  correct_dish-IsSafeEdit law dish p = rw (correct_dish_lem dish p) (record {
    rest = refl;
    currency = currency_only_cased dish.currency;
    description = words_kept law dish.description;
    ingredients = λ k. keys_kept k dish.ingredients;
  })
