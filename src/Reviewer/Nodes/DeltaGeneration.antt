-- ===== src/Reviewer/Nodes/DeltaGeneration.antt =====
-- workflows/reviewer_workflow/nodes/json_delta_generation.py. DeepDiff is the argument `deep_diff`: for each kind of
-- its report the paths with the values that it gives. A path `root['menus'][0]` is the list of its keys and indices,
-- whose texts `Reviewer.Paths` models.
use package.text.Mathlib.Text.{◌==◌ as ◌≐◌}
use hungrx_agent.Prelude.{
  Bool, true, false, ◌||◌, String, Option, none, some, List, [], ◌∷◌, ◌++◌, ◌==◌, if◌then◌else◌,
}
use hungrx_agent.Text.{Text, text}
use hungrx_agent.Json.{Json, null, arr, obj, get_member, get_item}
use hungrx_agent.Schema.Menu.{Uuid}
use hungrx_agent.Schema.Restaurant.{Restaurant}
use hungrx_agent.Validation.Result.{Place, Segment, key, index}
use hungrx_agent.Validation.SchemaCheck.{SchemaResult, accepted, refused}
use hungrx_agent.Review.Rows.{
  Database, inputs_required, not_in_production, Result, ok, raised, validation_error,
}
use hungrx_agent.Review.State.{json_delta_generation}
use hungrx_agent.Review.Nodes.{Pydantic}
use hungrx_agent.Reviewer.Delta.{DeltaOp, added, removed, changed, FieldDelta, JsonDelta}
use hungrx_agent.Reviewer.State.{
  RefKey, dish_ref, profile_ref, SourceRefs, ReviewerState, no_keys, error_keys,
}

pub data DiffKind : Type 0 where
  dictionary_item_added iterable_item_added dictionary_item_removed iterable_item_removed : DiffKind
  values_changed type_changes other_kind : DiffKind

-- A path of the report, with the old and the new value where the report has them
pub record DiffEntry : Type 0 where
  pub path : Place
  pub values : Option (Json × Json)

-- `model_dump(mode="json")`, DeepDiff with the options of the source, and `uuid.UUID(str(value))`
pub record Differ : Type 0 where
  pub dump : Restaurant → Json
  pub deep_diff : Json → Json → List (DiffKind × List DiffEntry)
  pub read_uuid : Json → Option Uuid

-- `_op_for`
unfoldable pub op_for : DiffKind → Option DeltaOp
op_for dictionary_item_added = some added
op_for iterable_item_added = some added
op_for dictionary_item_removed = some removed
op_for iterable_item_removed = some removed
op_for values_changed = some changed
op_for type_changes = some changed
op_for other_kind = none

-- The first key of a path is one of `names`.
unfoldable pub begins_with : List String → Place → Bool
begins_with (name ∷ names) (key k ∷ rest) = (k ≐ name) || begins_with names (key k ∷ rest)
begins_with _ _ = false

abbrev pub ignored_top_level_fields : List String
ignored_top_level_fields = "id" ∷ "created_at" ∷ "updated_at" ∷ []

abbrev pub profile_fields : List String
profile_fields = "description" ∷ "cuisine_types" ∷ "logo_url" ∷ "cover_image_url" ∷ []

-- One step into a value: a key of an object, or an index of a list
unfoldable pub step_into : Segment → Option Json → Option Json
step_into (key k) (some (obj members)) = get_member (text k) members
step_into (index i) (some (arr items)) = get_item i items
step_into _ _ = none

-- `_lookup`: what stands at the path, `null` where nothing does
unfoldable pub lookup_from : Option Json → Place → Json
unfolding step_into
lookup_from none place = null
lookup_from (some value) [] = value
lookup_from (some value) (s ∷ place) = lookup_from (step_into s (some value)) place

abbrev pub lookup_path : Json → Place → Json
lookup_path value = lookup_from (some value)

unfoldable pub same_ref : RefKey → RefKey → Bool
same_ref (dish_ref a) (dish_ref b) = a == b
same_ref profile_ref profile_ref = true
same_ref _ _ = false

unfoldable pub find_refs : RefKey → SourceRefs → Option (List Text)
unfolding same_ref
find_refs wanted [] = none
find_refs wanted ((k, ids) ∷ rest) =
    let later = find_refs wanted rest in if same_ref k wanted then some ids else later

module _ (differ : Differ) where
  -- `cursor["id"]`, if the value has the keys of a dish
  unfoldable pub dish_id_at : Option Json → Option Uuid
  dish_id_at (some (obj members)) = elim (get_member (text "id") members) [
    | none ↦ none
    | some id ↦ elim (get_member (text "category_id") members) [
      | none ↦ none
      | some c ↦ differ.read_uuid id
    ]
  ]
  dish_id_at _ = none

  abbrev pub refs_at : SourceRefs → Option Uuid → Option (List Text)
  refs_at refs none = none
  refs_at refs (some id) = find_refs (dish_ref id) refs

  -- The walk along the path: the references of the first dish on it that has some
  unfoldable pub refs_on_path : SourceRefs → Option Json → Place → Option (List Text)
  unfolding step_into dish_id_at find_refs
  refs_on_path refs cursor [] = none
  refs_on_path refs cursor (s ∷ place) =
      let deeper = refs_on_path refs (step_into s cursor) place in
      elim (refs_at refs (dish_id_at (step_into s cursor))) [ none ↦ deeper | some ids ↦ some ids ]

  abbrev pub ids_or_empty : Option (List Text) → List Text
  ids_or_empty none = []
  ids_or_empty (some ids) = ids

  -- `_resolve_source_refs`
  unfoldable pub resolve_source_refs : Json → SourceRefs → Place → List Text
  unfolding refs_on_path begins_with
  resolve_source_refs reextracted refs place = elim (refs_on_path refs (some reextracted) place) [
    | some ids ↦ ids
    | none ↦
        if begins_with profile_fields place then ids_or_empty (find_refs profile_ref refs) else []
  ]

  abbrev pub old_of : Option (Json × Json) → Json
  old_of none = null
  old_of (some (old, new)) = old

  abbrev pub new_of : Option (Json × Json) → Json
  new_of none = null
  new_of (some (old, new)) = new

  -- The entry of a change, an addition or a removal
  unfoldable pub field_delta : Json → Json → SourceRefs → DeltaOp → DiffEntry → FieldDelta
  unfolding lookup_from resolve_source_refs
  field_delta current reextracted refs added entry = record {
    path = entry.path;
    op = added;
    old_value = null;
    new_value = lookup_path reextracted entry.path;
    source_snapshot_ids = resolve_source_refs reextracted refs entry.path;
  }
  field_delta current reextracted refs removed entry = record {
    path = entry.path;
    op = removed;
    old_value = lookup_path current entry.path;
    new_value = null;
    source_snapshot_ids = [];
  }
  field_delta current reextracted refs changed entry = record {
    path = entry.path;
    op = changed;
    old_value = old_of entry.values;
    new_value = new_of entry.values;
    source_snapshot_ids = resolve_source_refs reextracted refs entry.path;
  }

  unfoldable pub entry_fields :
      Json → Json → SourceRefs → DeltaOp → List DiffEntry → List FieldDelta
  unfolding field_delta begins_with
  entry_fields current reextracted refs op [] = []
  entry_fields current reextracted refs op (entry ∷ entries) =
      let rest = entry_fields current reextracted refs op entries in
      if begins_with ignored_top_level_fields entry.path
      then rest
      else field_delta current reextracted refs op entry ∷ rest

  unfoldable pub kind_fields :
      Json → Json → SourceRefs → Option DeltaOp → List DiffEntry → List FieldDelta
  unfolding entry_fields
  kind_fields current reextracted refs none entries = []
  kind_fields current reextracted refs (some op) entries =
      entry_fields current reextracted refs op entries

  -- The loop over the kinds of the report
  unfoldable pub report_fields :
      Json → Json → SourceRefs → List (DiffKind × List DiffEntry) → List FieldDelta
  unfolding kind_fields op_for
  report_fields current reextracted refs [] = []
  report_fields current reextracted refs ((kind, entries) ∷ rest) =
      kind_fields current reextracted refs (op_for kind) entries
      ++ report_fields current reextracted refs rest

  unfoldable pub compute_delta : Restaurant → Restaurant → SourceRefs → JsonDelta
  unfolding report_fields
  compute_delta current reextracted refs =
      let old = differ.dump current in
      let new = differ.dump reextracted in
      record { fields = report_fields old new refs (differ.deep_diff old new) }

-- The tree of an id in the production tables
unfoldable pub find_restaurant : Uuid → List Restaurant → Option Restaurant
find_restaurant id [] = none
find_restaurant id (r ∷ rs) =
    let later = find_restaurant id rs in if r.id == id then some r else later

abbrev pub refs_or_empty : Option SourceRefs → SourceRefs
refs_or_empty none = []
refs_or_empty (some refs) = refs

module _ {J : Type 0} where
  -- `RestaurantRepository.get_full_tree`
  unfoldable pub get_full_tree : Uuid → Database J → Option Restaurant
  unfolding find_restaurant
  get_full_tree id db = find_restaurant id db.restaurants

module _ {J : Type 0} (py : Pydantic J) (differ : Differ) where
  unfoldable pub delta_of_parsed :
      Restaurant → Option SourceRefs → SchemaResult → Result (ReviewerState J)
  unfolding compute_delta
  delta_of_parsed current refs (accepted r) =
      ok (record no_keys { delta = some (compute_delta differ current r (refs_or_empty refs)) })
  delta_of_parsed current refs (refused complaints) = raised validation_error

  unfoldable pub delta_of_production :
      Uuid → Option Restaurant → Option SourceRefs → J → Result (ReviewerState J)
  delta_of_production id none refs json =
      ok (error_keys json_delta_generation (not_in_production id))
  delta_of_production id (some current) refs json =
      delta_of_parsed current refs (py.model_validate json)

  unfoldable pub delta_of_given :
      Option Restaurant → Option J → Option SourceRefs → Database J → Result (ReviewerState J)
  unfolding get_full_tree
  delta_of_given (some r) (some json) refs db =
      delta_of_production r.id (get_full_tree r.id db) refs json
  delta_of_given _ _ refs db = ok (error_keys json_delta_generation inputs_required)

  -- The node writes nothing.
  unfoldable pub json_delta_generation_node :
      ReviewerState J → Database J → Result (ReviewerState J)
  json_delta_generation_node state db =
      delta_of_given state.restaurant state.reextracted_structured_json
        state.reextraction_source_refs db
