-- ===== src/Base/Json.antt =====
-- What `json.loads` gives: Python's values of a JSON text, with dictionaries in their order. A number
-- stands as the text spells it.
use Prim.Native.String.{String}
use mathlib.Core.Bool.{Bool}
use mathlib.Core.Option.{Option, none, some}
use text.Mathlib.Text.{◌==◌ as text_eq}
use control_ok_a_v.Base.Tests.{if◌then◌else◌}

mutual
  pub data Json : Type 0 where
    null : Json
    boolean : Bool → Json
    number : String → Json
    str : String → Json
    array : Items → Json
    object : Fields → Json

  pub data Items : Type 0 where
    no_items : Items
    item : Json → Items → Items

  pub data Fields : Type 0 where
    no_fields : Fields
    field : String → Json → Fields → Fields

-- `d.get(name)`; a `null` that stands there is `some null`.
abbrev pub get : String → Fields → Option Json
get name no_fields = none
get name (field other value fields) = if text_eq other name then some value else get name fields
