-- ===== src/Validation/Duplicates.antt =====
-- core/validation/duplicate_detection.py. The dict of paths by name keeps its order of insertion.
pub mod Names
use hungrx_agent.Prelude.{ℕ, List, [], ◌∷◌, ◌++◌, map, length, ltb, if◌then◌else◌}
use hungrx_agent.Text.{Text, Unicode, text_eq, name_key}
use hungrx_agent.Schema.Menu.{Dish}
use hungrx_agent.Validation.Result.{
  Place, at, key, ValidationIssue, warning, duplicate_dish_name, name_appears,
}

abbrev pub ByName : Type 0
ByName = List (Text × List Place)

-- `by_name[k].append(path)`
unfoldable pub append_path : Text → Place → ByName → ByName
append_path k p [] = (k, p ∷ []) ∷ []
append_path k p ((j, ps) ∷ rest) =
    if text_eq j k then (j, ps ++ (p ∷ [])) ∷ rest else (j, ps) ∷ append_path k p rest

module _ (u : Unicode) where
  -- The first loop.
  unfoldable pub group_by_name : List (Dish × Place) → ByName → ByName
  group_by_name [] by_name = by_name
  group_by_name ((dish, p) ∷ rest) by_name =
      group_by_name rest (append_path (name_key u dish.name) p by_name)

unfoldable pub duplicate_issue : Text → List Place → Place → ValidationIssue
duplicate_issue name paths p = record {
  field_path = at (p ++ (key "name" ∷ []));
  code = duplicate_dish_name;
  message = name_appears name (length paths) paths;
  severity = warning;
}

-- The issues of one name.
unfoldable pub name_issues : Text → List Place → List ValidationIssue
name_issues name paths = if ltb (length paths) 2 then [] else map (duplicate_issue name paths) paths

-- The second loop.
unfoldable pub report_duplicates : ByName → List ValidationIssue
unfolding name_issues duplicate_issue
report_duplicates [] = []
report_duplicates ((name, paths) ∷ rest) = name_issues name paths ++ report_duplicates rest

unfoldable pub check_duplicate_dishes : Unicode → List (Dish × Place) → List ValidationIssue
unfolding group_by_name report_duplicates
check_duplicate_dishes u dishes = report_duplicates (group_by_name u dishes [])
