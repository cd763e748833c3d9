-- ===== src/Json.antt =====
-- JSON as encoding/json reads it: values, and the raw messages that the code carries about.
use tidewise_ai.Prelude.{String, Bool, Option, none, some, if◌then◌else◌, str_eq}
use tidewise_ai.Prelude.Text.{str_lt}

-- A number keeps its literal, as under Decoder.UseNumber; texts and keys are unquoted.
mutual
  pub data Json : Type 0 where
    null : Json
    bool : Bool → Json
    num : String → Json
    text : String → Json
    arr : Items → Json
    obj : Fields → Json

  pub data Items : Type 0 where
    nil : Items
    cons : Json → Items → Items

  pub data Fields : Type 0 where
    end : Fields
    field : String → Json → Fields → Fields

-- A json.RawMessage with what encoding/json finds in its bytes: nothing, no JSON, or one value with
-- the bytes of its compact form (json.Compact).
pub data RawMessage : Type 0 where
  absent : RawMessage
  malformed : String → RawMessage
  document : String → String → Json → RawMessage

-- Decoding into a map: of two fields with one key the later is kept. A map is its fields in the
-- order of the keys.
unfoldable pub put_field : String → Json → Fields → Fields
put_field k v end = field k v end
put_field k v (field j w fs) =
    let rest = put_field k v fs in
    if str_lt k j
    then field k v (field j w fs)
    else if str_eq k j
    then field k v fs
    else field j w rest

unfoldable pub merge : Fields → Fields → Fields
unfolding put_field
merge seen end = seen
merge seen (field k v fs) = merge (put_field k v seen) fs

-- The entries of the map that a JSON object decodes to.
unfoldable pub entries : Fields → Fields
unfolding merge
entries fs = merge end fs

unfoldable pub find_field : String → Fields → Option Json
find_field k end = none
find_field k (field j v fs) = if str_eq j k then some v else find_field k fs
