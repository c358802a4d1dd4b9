-- ===== src/Reviewer/Paths.antt =====
-- workflows/reviewer_workflow/nodes/json_delta_generation.py: the texts of the paths, which the rest of the
-- model keeps as lists of keys and indices. DeepDiff's `root['menus'][0]` is rewritten as `menus[0]`, which is
-- read back in two ways. Characters are code points: 39 is `'`, 46 is `.`, 91 and 93 are the brackets.
pub mod Dotted
pub mod Reading
use hungrx_agent.Prelude.{
  ℕ, Bool, true, false, ◌&&◌, ◌||◌, Option, none, some, List, [], ◌∷◌, ◌++◌, ◌==◌, is_empty,
  if◌then◌else◌,
}
use hungrx_agent.Text.{Text, text, starts_with}
use hungrx_agent.Crawler.Domains.{drop_four}

unfoldable pub ends_with : Text → ℕ → Bool
ends_with [] q = false
ends_with (c ∷ []) q = c == q
ends_with (c ∷ d ∷ s) q = ends_with (d ∷ s) q

-- `s[:-1]`
unfoldable pub drop_last : Text → Text
drop_last [] = []
drop_last (c ∷ []) = []
drop_last (c ∷ d ∷ s) = c ∷ drop_last (d ∷ s)

abbrev pub drop_first : Text → Text
drop_first [] = []
drop_first (c ∷ s) = s

-- `key.startswith("'") and key.endswith("'")`
unfoldable pub is_quoted : Text → Bool
unfolding starts_with ends_with
is_quoted key = starts_with key (39 ∷ []) && ends_with key 39

-- `if token: parts.append(token)`
abbrev pub if_token : Text → List Text → List Text
if_token [] parts = parts
if_token (c ∷ token) parts = (c ∷ token) ∷ parts

abbrev pub then_parts : (List Text → List Text) → Option (List Text) → Option (List Text)
then_parts f none = none
then_parts f (some parts) = some (f parts)

-- Where `_dotted_path` stands: outside the brackets, with the token read so far, or inside, with the key too
pub data Scan : Type 0 where
  outside : Text → Scan
  inside : Text → Text → Scan

-- The loop of `_dotted_path`: the parts, none for the ValueError of a bracket that is not closed
unfoldable pub dotted_parts : Scan → Text → Option (List Text)
unfolding is_quoted drop_last
dotted_parts (outside token) [] = some (if_token token [])
dotted_parts (inside token key) [] = none
dotted_parts (outside token) (c ∷ s) = elim (c == 91) [
  | true ↦ dotted_parts (inside token []) s
  | false ↦ dotted_parts (outside (token ++ (c ∷ []))) s
]
dotted_parts (inside token key) (c ∷ s) = elim (c == 93) [
  | true ↦ elim (is_quoted key) [
    | true ↦
        then_parts (λ parts. if_token token (drop_last (drop_first key) ∷ parts))
          (dotted_parts (outside []) s)
    | false ↦
        then_parts (λ parts. (91 ∷ (key ++ (93 ∷ []))) ∷ parts) (dotted_parts (outside token) s)
  ]
  | false ↦ dotted_parts (inside token (key ++ (c ∷ []))) s
]

unfoldable pub join_part : Text → Text → Text
unfolding starts_with
join_part result part =
    if starts_with part (91 ∷ [])
    then result ++ part
    else if is_empty result
    then part
    else result ++ (46 ∷ part)

-- The loop over the parts
unfoldable pub join_parts : Text → List Text → Text
unfolding join_part
join_parts result [] = result
join_parts result (part ∷ parts) = join_parts (join_part result part) parts

abbrev pub join_all : Option (List Text) → Option Text
join_all none = none
join_all (some parts) = some (join_parts [] parts)

-- `_dotted_path`
unfoldable pub dotted_path : Text → Option Text
unfolding dotted_parts join_parts starts_with
dotted_path path =
    join_all
      (dotted_parts (outside []) (if starts_with path (text "root") then drop_four path else path))

-- Where `_lookup` stands: outside the brackets, with the token read so far, or inside, with the key
pub data Cursor : Type 0 where
  at_token : Text → Cursor
  at_key : Text → Cursor

-- The tokens that `_lookup` reads, none for the ValueError of a bracket that is not closed
unfoldable pub lookup_tokens : Cursor → Text → Option (List Text)
lookup_tokens (at_token token) [] = some (if_token token [])
lookup_tokens (at_key key) [] = none
lookup_tokens (at_token token) (c ∷ s) = elim (c == 46) [
  | true ↦ then_parts (if_token token) (lookup_tokens (at_token []) s)
  | false ↦ elim (c == 91) [
    | true ↦ then_parts (if_token token) (lookup_tokens (at_key []) s)
    | false ↦ lookup_tokens (at_token (token ++ (c ∷ []))) s
  ]
]
lookup_tokens (at_key key) (c ∷ s) = elim (c == 93) [
  | true ↦ then_parts (λ tokens. key ∷ tokens) (lookup_tokens (at_token []) s)
  | false ↦ lookup_tokens (at_key (key ++ (c ∷ []))) s
]

-- The tokens of `_resolve_source_refs`: `path.replace("]", "").replace("[", ".").split(".")`, without the
-- empty ones
unfoldable pub reference_tokens : Text → Text → List Text
reference_tokens token [] = if_token token []
reference_tokens token (c ∷ s) = elim (c == 93) [
  | true ↦ reference_tokens token s
  | false ↦ elim (c == 46 || c == 91) [
    | true ↦ if_token token (reference_tokens [] s)
    | false ↦ reference_tokens (token ++ (c ∷ [])) s
  ]
]
