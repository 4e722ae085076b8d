-- ===== src/Api/Json.antt =====
-- JSON as encoding/json decodes it into `any`: a `map[string]any` has the fields in some order. A
-- float64 is its bit pattern.
use fuse_stream_mvp.Base.{ℕ, Bool, Option, none, some, if◌then◌else◌}
use fuse_stream_mvp.Base.Maps.{Text, text_beq}

mutual
  pub data Value : Type 0 where
    null : Value
    boolean : Bool → Value
    number : ℕ → Value
    string : Text → Value
    array : Values → Value
    object : Fields → Value

  pub data Values : Type 0 where
    no_values : Values
    value : Value → Values → Values

  pub data Fields : Type 0 where
    no_fields : Fields
    field : Text → Value → Fields → Fields

-- `v, ok := m[key]`
unfoldable pub lookup : Text → Fields → Option Value
lookup key no_fields = none
lookup key (field name v fields) = if text_beq name key then some v else lookup key fields

-- `v.(map[string]any)` of a key's value
unfoldable pub get_object : Text → Fields → Option Fields
get_object key fields = elim (lookup key fields) [ some (object m) ↦ some m | _ ↦ none ]

-- `v.([]any)` of a key's value
unfoldable pub get_array : Text → Fields → Option Values
get_array key fields = elim (lookup key fields) [ some (array vs) ↦ some vs | _ ↦ none ]
