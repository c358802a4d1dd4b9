-- ===== src/Json.antt =====
-- The values of a JSON document, as Python's `json` reads them: what `model_dump(mode="json")` gives and
-- what a delta carries. The keys of an object stand in the order in which they were written.
use hungrx_agent.Prelude.{ℕ, zero, suc, Bool, Option, none, some, if◌then◌else◌}
use hungrx_agent.Text.{Text, text_eq}
use hungrx_agent.Decimal.{Decimal}

mutual
  pub data Json : Type 0 where
    null : Json
    boolean : Bool → Json
    number : Decimal → Json
    str : Text → Json
    arr : Items → Json
    obj : Members → Json

  pub data Items : Type 0 where
    nil : Items
    cons : Json → Items → Items

  pub data Members : Type 0 where
    end : Members
    member : Text → Json → Members → Members

-- `d[key]`, none for a KeyError
unfoldable pub get_member : Text → Members → Option Json
unfolding text_eq
get_member key end = none
get_member key (member k v rest) =
    let later = get_member key rest in if text_eq k key then some v else later

-- `xs[i]`, none for an IndexError
unfoldable pub get_item : ℕ → Items → Option Json
get_item i nil = none
get_item zero (cons x xs) = some x
get_item (suc i) (cons x xs) = get_item i xs
