-- ===== src/Validation/Engine/Dishes.antt =====
-- core/validation/engine.py and safe_corrections.py: the walk over the dishes and the corrections.
use hungrx_agent.Prelude.{
  ℕ, ◌+◌, ◌≡◌, refl, not, List, [], ◌∷◌, ◌++◌, map, arith, is_empty, is_empty-append, append_assoc,
}
use hungrx_agent.Text.{Unicode}
use hungrx_agent.Schema.Menu.{Dish, MenuCategory, category, Categories, nil, cons, Menu}
use hungrx_agent.Schema.Restaurant.{Restaurant}
use hungrx_agent.Validation.Result.{Place, key, index, CorrectedField}
use hungrx_agent.Validation.RequiredFields.{category_has_any_dish, any_category_has_dish}
use hungrx_agent.Validation.Corrections.{
  correct_dish, correct_dishes, correct_category, correct_categories, correct_menus,
  apply_safe_corrections,
}
use hungrx_agent.Validation.Engine.{place_dishes, category_dishes, iter_dishes}
use mathlib.Core.List.{map-append}

-- Every dish of a restaurant, at its place.
unfoldable pub menus_dishes : ℕ → List Menu → List (Dish × Place)
menus_dishes i [] = []
menus_dishes i (menu ∷ rest) =
    iter_dishes (key "menus" ∷ index i ∷ []) 0 menu.categories ++ menus_dishes (i + 1) rest

unfoldable pub dishes_of : Restaurant → List (Dish × Place)
dishes_of r = menus_dishes 0 r.menus

is_empty-place_dishes :
    (p : Place) (i : ℕ) (ds : List Dish) → is_empty (place_dishes p i ds) ≡ is_empty ds
unfolding place_dishes
is_empty-place_dishes p i [] = refl
is_empty-place_dishes p i (d ∷ ds) = refl

mutual
  unfolding category_dishes category_has_any_dish

  is_empty-category_dishes :
      (c : MenuCategory) (p : Place)
      → category_has_any_dish c ≡ not (is_empty (category_dishes p c))
  is_empty-category_dishes (category id name order children dishes) p =
      rw (is_empty-append, is_empty-place_dishes p 0 dishes)
        (ground (arith, is_empty-iter_dishes children p 0))

  -- The walk meets no dish exactly when no category has one, at any depth.
  pub is_empty-iter_dishes :
      (cs : Categories) (p : Place) (i : ℕ)
      → any_category_has_dish cs ≡ not (is_empty (iter_dishes p i cs))
  is_empty-iter_dishes nil p i = refl
  is_empty-iter_dishes (cons c cs) p i = rw is_empty-append (
      ground (
        arith,
        is_empty-category_dishes c (p ++ (key "categories" ∷ index i ∷ [])),
        is_empty-iter_dishes cs p (i + 1),
      ))

module _ (u : Unicode) where
  pub correct_at : Dish × Place → Dish × Place
  correct_at (dish, p) = ((correct_dish u dish p).0, p)

  pub corrections_at : List (Dish × Place) → List CorrectedField
  corrections_at [] = []
  corrections_at ((dish, p) ∷ rest) = (correct_dish u dish p).1 ++ corrections_at rest

  corrections_at-append :
      (xs ys : List (Dish × Place))
      → corrections_at (xs ++ ys) ≡ corrections_at xs ++ corrections_at ys
  unfolding corrections_at
  corrections_at-append [] ys = refl
  corrections_at-append (x ∷ xs) ys = rw (corrections_at-append xs ys, append_assoc)

  place_dishes-correct_dishes :
      (p : Place) (i : ℕ) (ds : List Dish)
      → (place_dishes p i (correct_dishes u p i ds).0 ≡ map correct_at (place_dishes p i ds))
        × ((correct_dishes u p i ds).1 ≡ corrections_at (place_dishes p i ds))
  unfolding place_dishes correct_dishes correct_at corrections_at
  place_dishes-correct_dishes p i [] = (refl, refl)
  place_dishes-correct_dishes p i (d ∷ ds) =
      let (ih, ih') = place_dishes-correct_dishes p (i + 1) ds in (rw ih, rw ih')

  mutual
    unfolding category_dishes correct_category corrections_at

    category_dishes_correct :
        (c : MenuCategory) (p : Place)
        → (category_dishes p (correct_category u p c).0 ≡ map correct_at (category_dishes p c))
          × ((correct_category u p c).1 ≡ corrections_at (category_dishes p c))
    category_dishes_correct (category id name order children dishes) p =
        let (a, b) = place_dishes-correct_dishes p 0 dishes in
        let (c, d) = iter_dishes_correct children p 0 in
        (rw (a, c, map-append), rw (b, d, corrections_at-append))

    iter_dishes_correct :
        (cs : Categories) (p : Place) (i : ℕ)
        → (iter_dishes p i (correct_categories u p i cs).0 ≡ map correct_at (iter_dishes p i cs))
          × ((correct_categories u p i cs).1 ≡ corrections_at (iter_dishes p i cs))
    iter_dishes_correct nil p i = (refl, refl)
    iter_dishes_correct (cons c cs) p i =
        let (a, b) = category_dishes_correct c (p ++ (key "categories" ∷ index i ∷ [])) in
        let (d, e) = iter_dishes_correct cs p (i + 1) in
        (rw (a, d, map-append), rw (b, e, corrections_at-append))

  menus_dishes-correct_menus :
      (ms : List Menu) (i : ℕ)
      → (menus_dishes i (correct_menus u i ms).0 ≡ map correct_at (menus_dishes i ms))
        × ((correct_menus u i ms).1 ≡ corrections_at (menus_dishes i ms))
  unfolding menus_dishes correct_menus corrections_at
  menus_dishes-correct_menus [] i = (refl, refl)
  menus_dishes-correct_menus (m ∷ ms) i =
      let (a, b) = iter_dishes_correct m.categories (key "menus" ∷ index i ∷ []) 0 in
      let (d, e) = menus_dishes-correct_menus ms (i + 1) in
      (rw (a, d, map-append), rw (b, e, corrections_at-append))

  -- The corrected restaurant has the corrected dishes, each at its old place, and the record of
  -- corrections is that of its dishes, in the order of the walk.
  pub dishes_of-apply_safe_corrections :
      (r : Restaurant)
      → (dishes_of (apply_safe_corrections u r).0 ≡ map correct_at (dishes_of r))
        × ((apply_safe_corrections u r).1 ≡ corrections_at (dishes_of r))
  unfolding dishes_of apply_safe_corrections
  dishes_of-apply_safe_corrections r = menus_dishes-correct_menus r.menus 0
