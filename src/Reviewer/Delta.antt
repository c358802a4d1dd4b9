-- ===== src/Reviewer/Delta.antt =====
-- core/schemas/diff.py. A path such as `menus[0].categories[1]` is the list of its keys and indices.
use hungrx_agent.Prelude.{Bool, true, false, List, is_empty}
use hungrx_agent.Text.{Text}
use hungrx_agent.Validation.Result.{Place}
use hungrx_agent.Json.{Json}

pub data DeltaOp : Type 0 where
  added removed changed : DeltaOp

-- `op == DeltaOp.REMOVED`
abbrev pub is_removed : DeltaOp → Bool
is_removed removed = true
is_removed _ = false

-- A value that is not given is `null`.
pub record FieldDelta : Type 0 where
  pub path : Place
  pub op : DeltaOp
  pub old_value : Json
  pub new_value : Json
  pub source_snapshot_ids : List Text

pub record JsonDelta : Type 0 where
  pub fields : List FieldDelta

unfoldable pub delta_is_empty : JsonDelta → Bool
delta_is_empty delta = is_empty delta.fields
