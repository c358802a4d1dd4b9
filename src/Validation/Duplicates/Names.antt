-- ===== src/Validation/Duplicates/Names.antt =====
-- core/validation/duplicate_detection.py: the issues that name a given dish.
use hungrx_agent.Prelude.{
  ◌≡◌, refl, sym, ◌∙◌, inl, inr, Bool, false, ◌||◌, List, [], ◌∷◌, ◌++◌, map, length, ltb, arith,
  keep_if, keep_if-append, append-nil, append_assoc, Bool-cases, if◌then◌else◌,
}
use hungrx_agent.Text.{Text, Unicode, text_eq, name_key}
use hungrx_agent.Text.Words.{text_eq_iff}
use hungrx_agent.Schema.Menu.{Dish}
use hungrx_agent.Validation.Result.{Place, ValidationIssue, Message, name_appears}
use hungrx_agent.Validation.Duplicates.{
  ByName, append_path, group_by_name, duplicate_issue, name_issues, report_duplicates,
  check_duplicate_dishes,
}

-- The places of the dishes whose name has the key `k`, in the order of the list.
pub occurrences : Unicode → Text → List (Dish × Place) → List Place
occurrences u k [] = []
occurrences u k ((dish, p) ∷ rest) =
    let later = occurrences u k rest in
    if text_eq (name_key u dish.name) k then p ∷ later else later

abbrev message_names : Text → Message → Bool
message_names k (name_appears name n paths) = text_eq name k
message_names k _ = false

-- The issues that report the name `k`.
pub named : Text → List ValidationIssue → List ValidationIssue
named k = keep_if (λ i. message_names k i.message)

entry : Text → ByName → List Place
entry k [] = []
entry k ((j, ps) ∷ rest) = if text_eq j k then ps else entry k rest

has_key : Text → ByName → Bool
has_key k [] = false
has_key k ((j, ps) ∷ rest) = text_eq j k || has_key k rest

abbrev HasDistinctKeys : ByName → Type 0
HasDistinctKeys [] = Unit
HasDistinctKeys ((j, ps) ∷ rest) = (has_key j rest ≡ false) × HasDistinctKeys rest

entry-append_path :
    (k j : Text) (p : Place) (d : ByName)
    → entry k (append_path j p d) ≡ (if text_eq j k then entry k d ++ (p ∷ []) else entry k d)
unfolding entry append_path
entry-append_path k j p [] = ground arith
entry-append_path k j p ((i, ps) ∷ d) =
    ground (arith, entry-append_path k j p d, text_eq_iff i j, text_eq_iff i k, text_eq_iff j k)

has_key-append_path :
    (k j : Text) (p : Place) (d : ByName)
    → has_key k (append_path j p d) ≡ (has_key k d || text_eq j k)
unfolding has_key append_path
has_key-append_path k j p [] = ground arith
has_key-append_path k j p ((i, ps) ∷ d) =
    ground (arith, has_key-append_path k j p d, text_eq_iff i j, text_eq_iff i k, text_eq_iff j k)

append_path-HasDistinctKeys :
    (j : Text) (p : Place) (d : ByName) → HasDistinctKeys d → HasDistinctKeys (append_path j p d)
unfolding append_path has_key
append_path-HasDistinctKeys j p [] h = (refl, tt)
append_path-HasDistinctKeys j p ((i, ps) ∷ d) h = elim (Bool-cases (text_eq i j)) [
  | inl e ↦ rw e h
  | inr e ↦ rw e (
    rw has_key-append_path (ground (arith, text_eq_iff i j, text_eq_iff j i)),
    append_path-HasDistinctKeys j p d h.1,
  )
]

module _ (u : Unicode) where
  group_by_name-HasDistinctKeys :
      (ds : List (Dish × Place)) (d : ByName)
      → HasDistinctKeys d
      → HasDistinctKeys (group_by_name u ds d)
  unfolding group_by_name
  group_by_name-HasDistinctKeys [] d h = h
  group_by_name-HasDistinctKeys ((dish, p) ∷ ds) d h =
      group_by_name-HasDistinctKeys ds _ (append_path-HasDistinctKeys (name_key u dish.name) p d h)

  entry-group_by_name :
      (k : Text) (ds : List (Dish × Place)) (d : ByName)
      → entry k (group_by_name u ds d) ≡ entry k d ++ occurrences u k ds
  unfolding group_by_name occurrences
  entry-group_by_name k [] d = sym (append-nil _)
  entry-group_by_name k ((dish, p) ∷ ds) d =
      entry-group_by_name k ds (append_path (name_key u dish.name) p d)
      ∙ elim (Bool-cases (text_eq (name_key u dish.name) k)) [
        | inl e ↦ rw (entry-append_path, e) (append_assoc (entry k d) (p ∷ []) (occurrences u k ds))
        | inr e ↦ rw (entry-append_path, e) refl
      ]

named-map_duplicate :
    (k j : Text) (paths ps : List Place)
    → named k (map (duplicate_issue j paths) ps)
      ≡ (if text_eq j k then map (duplicate_issue j paths) ps else [])
unfolding named keep_if duplicate_issue
named-map_duplicate k j paths [] = ground arith
named-map_duplicate k j paths (p ∷ ps) = ground (arith, named-map_duplicate k j paths ps)

named_nil : (k j : Text) → named k [] ≡ (if text_eq j k then [] else [])
unfolding named keep_if
named_nil k j = ground arith

named-append :
    (k : Text) (xs ys : List ValidationIssue) → named k (xs ++ ys) ≡ named k xs ++ named k ys
unfolding named
named-append k xs ys = keep_if-append _ xs ys

named-name_issues :
    (k j : Text) (ps : List Place)
    → named k (name_issues j ps) ≡ (if text_eq j k then name_issues j ps else [])
unfolding name_issues
named-name_issues k j ps = elim (Bool-cases (ltb (length ps) 2)) [
  | inl e ↦ rw e (named_nil k j)
  | inr e ↦ rw e (named-map_duplicate k j ps ps)
]

entry_of_absent : (k : Text) (d : ByName) → has_key k d ≡ false → entry k d ≡ []
unfolding entry has_key
entry_of_absent k [] h = refl
entry_of_absent k ((j, ps) ∷ d) h = ground (arith, entry_of_absent k d)

first_entry :
    (k j : Text) (ps : List Place) (d : ByName)
    → has_key j d ≡ false
    → (if text_eq j k then name_issues j ps else []) ++ name_issues k (entry k d)
      ≡ name_issues k (entry k ((j, ps) ∷ d))
unfolding entry name_issues
first_entry k j ps d h = elim (Bool-cases (text_eq j k)) [
  | inl e ↦
      let same : j ≡ k = (text_eq_iff j k).0 e in
      rw (e, entry_of_absent k d (rw same at h), same) (append-nil (name_issues k ps))
  | inr e ↦ rw e
]

named-report_duplicates :
    (k : Text) (d : ByName)
    → HasDistinctKeys d
    → named k (report_duplicates d) ≡ name_issues k (entry k d)
unfolding report_duplicates entry name_issues named keep_if
named-report_duplicates k [] h = refl
named-report_duplicates k ((j, ps) ∷ d) h =
    named-append k (name_issues j ps) (report_duplicates d)
    ∙ rw (named-name_issues k j ps, named-report_duplicates k d h.1) (first_entry k j ps d h.0)

-- Of the duplicate check's issues, those that report a given name are one for each dish with that name
-- (up to case, outer blanks and the amount of white space between words), in their order, if two dishes or
-- more have it, and none if not.
pub named-check_duplicate_dishes :
    (u : Unicode) (k : Text) (ds : List (Dish × Place))
    → let places = occurrences u k ds in
      named k (check_duplicate_dishes u ds)
      ≡ (if ltb (length places) 2 then [] else map (duplicate_issue k places) places)
unfolding check_duplicate_dishes name_issues entry
named-check_duplicate_dishes u k ds =
    named-report_duplicates k (group_by_name u ds []) (group_by_name-HasDistinctKeys u ds [] tt)
    ∙ rw (entry-group_by_name u k ds [])
