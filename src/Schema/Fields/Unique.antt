-- ===== src/Schema/Fields/Unique.antt =====
-- core/schemas/menu.py: the validator `unique_allergens` of dishes.
use hungrx_agent.Prelude.{
  ◌≡◌, refl, sym, ◌∙◌, inl, inr, false, ◌||◌, List, [], ◌∷◌, ◌++◌, arith, Bool-cases, append-nil,
  append_assoc,
}
use hungrx_agent.Schema.Menu.{Allergen, same_allergen_iff}
use hungrx_agent.Schema.Fields.{is_declared, from_keys, unique_allergens}

abbrev pub IsUnique : List Allergen → Type 0
IsUnique [] = Unit
IsUnique (a ∷ as') = (is_declared a as' ≡ false) × IsUnique as'

pub is_declared-append :
    (a : Allergen) (xs ys : List Allergen)
    → is_declared a (xs ++ ys) ≡ (is_declared a xs || is_declared a ys)
unfolding is_declared
is_declared-append a [] ys = refl
is_declared-append a (x ∷ xs) ys = ground (arith, is_declared-append a xs ys)

pub IsUnique-snoc :
    (xs : List Allergen) (a : Allergen)
    → IsUnique xs
    → is_declared a xs ≡ false
    → IsUnique (xs ++ (a ∷ []))
unfolding is_declared
IsUnique-snoc [] a h n = (refl, tt)
IsUnique-snoc (x ∷ xs) a h n = (
  rw is_declared-append (ground (arith, same_allergen_iff x a, same_allergen_iff a x)),
  IsUnique-snoc xs a h.1 (ground arith),
)

from_keys-IsUnique : (seen value : List Allergen) → IsUnique seen → IsUnique (from_keys seen value)
unfolding from_keys
from_keys-IsUnique seen [] h = h
from_keys-IsUnique seen (a ∷ rest) h = elim (Bool-cases (is_declared a seen)) [
  | inl old ↦ rw old (from_keys-IsUnique seen rest h)
  | inr new ↦ rw new (from_keys-IsUnique (seen ++ (a ∷ [])) rest (IsUnique-snoc seen a h new))
]

is_declared-from_keys :
    (b : Allergen) (seen value : List Allergen)
    → is_declared b (from_keys seen value) ≡ (is_declared b seen || is_declared b value)
unfolding from_keys is_declared
is_declared-from_keys b seen [] = ground arith
is_declared-from_keys b seen (a ∷ rest) = ground (
  arith,
  is_declared-from_keys b seen rest,
  is_declared-from_keys b (seen ++ (a ∷ [])) rest,
  is_declared-append b seen (a ∷ []),
  same_allergen_iff a b,
)

is_declared_of_IsUnique :
    (seen : List Allergen) (a : Allergen) (rest : List Allergen)
    → IsUnique (seen ++ (a ∷ rest))
    → is_declared a seen ≡ false
unfolding is_declared
is_declared_of_IsUnique [] a rest h = refl
is_declared_of_IsUnique (x ∷ seen) a rest h =
    let fresh = rw is_declared-append at h.0 in
    ground (
      arith,
      is_declared_of_IsUnique seen a rest h.1,
      same_allergen_iff x a,
      same_allergen_iff a x,
      same_allergen_iff a a,
    )

from_keys_of_IsUnique :
    (seen value : List Allergen) → IsUnique (seen ++ value) → from_keys seen value ≡ seen ++ value
unfolding from_keys
from_keys_of_IsUnique seen [] h = sym (append-nil seen)
from_keys_of_IsUnique seen (a ∷ rest) h = rw (is_declared_of_IsUnique seen a rest h) (
    from_keys_of_IsUnique (seen ++ (a ∷ [])) rest (rw append_assoc h)
    ∙ append_assoc seen (a ∷ []) rest)

-- What the validator of `Dish.allergens` returns has no repetition and the same members as what it is
-- given, and it is that list itself when nothing repeats in it.
pub unique_allergens_lem :
    (value : List Allergen)
    → IsUnique (unique_allergens value)
      × ((b : Allergen) → is_declared b (unique_allergens value) ≡ is_declared b value)
      × (IsUnique value → unique_allergens value ≡ value)
unfolding unique_allergens
unique_allergens_lem value = (
  from_keys-IsUnique [] value tt,
  λ b. is_declared-from_keys b [] value,
  from_keys_of_IsUnique [] value,
)
