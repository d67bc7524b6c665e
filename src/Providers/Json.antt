-- ===== src/Providers/Json.antt =====
-- encoding/json's values as the adapters see them, a map[string]any as a list of fields. A parse is
-- a parameter of what decodes bytes.
use maestro_llms.Base.{String, Bool, Option, none, some, if◌then◌else◌, str_eq}

mutual
  -- A number is the text of a json.Number.
  pub data Json : Type 0 where
    null : Json
    bool : Bool → Json
    number text : String → Json
    array : Items → Json
    object : Fields → Json

  pub data Items : Type 0 where
    no_items : Items
    item : Json → Items → Items

  pub data Fields : Type 0 where
    no_fields : Fields
    field : String → Json → Fields → Fields

-- `m[k]`
unfoldable pub get : Fields → String → Option Json
get Fields.no_fields k = none
get (Fields.field k' v rest) k = if str_eq k' k then some v else get rest k

-- `m[k] = v`
unfoldable pub set : Fields → String → Json → Fields
set Fields.no_fields k v = Fields.field k v Fields.no_fields
set (Fields.field k' v' rest) k v =
    if str_eq k' k then Fields.field k v rest else Fields.field k' v' (set rest k v)

-- `v.(map[string]any)`
abbrev pub as_object : Json → Option Fields
as_object (Json.object f) = some f
as_object _ = none

-- `m[k].(map[string]any)`
unfoldable pub object_at : Fields → String → Option Fields
unfolding get
object_at m k = elim (get m k) [ none ↦ none | some v ↦ as_object v ]
