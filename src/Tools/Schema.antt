-- ===== src/Tools/Schema.antt =====
-- The JSON schemas that tools/schema.go makes of Go types. A type is what `reflect` shows of it, as
-- a tree, so a type that contains itself, for which the code does not return, is not modelled.
pub mod Shape
mod Tests
use Prim.Native.Char.{code}
use Prim.Native.String.{[] as end, ◌∷◌ as ◌then◌}
use text.Mathlib.Text.{starts_with}
use xgc_agent.Prelude.{
  String, Bool, true, false, not, ◌&&◌, ◌||◌, ◌==◌, List, [], ◌∷◌, ◌++◌, if◌then◌else◌, length,
  ◌=?◌, string_eq,
}

mutual
  pub data GoType : Type 0 where
    string int uint float bool other : GoType
    slice array map_of pointer : GoType → GoType
    struct : Fields → GoType

  -- The fields of a struct, each with its name, whether it is exported, its tag at `json`, and its
  -- type.
  pub data Fields : Type 0 where
    no_fields : Fields
    field : String → Bool → String → GoType → Fields → Fields

mutual
  -- A schema of a type name alone, of an array with its items, of a map with its values, or of an
  -- object with its properties and the names of those that are required.
  pub data Schema : Type 0 where
    plain : String → Schema
    array_schema map_schema : Schema → Schema
    object : Properties → List String → Schema

  pub data Properties : Type 0 where
    no_properties : Properties
    property : String → Schema → Properties → Properties

-- `jsonTag[:strings.Index(jsonTag, ",")]`, or the whole tag where there is no comma.
unfoldable pub before_comma : String → String
before_comma end = end
before_comma (c then s) = let rest = before_comma s in if code c == 44 then end else c then rest

-- `jsonTag[strings.Index(jsonTag, ","):]`, or nothing.
unfoldable pub from_comma : String → String
from_comma end = end
from_comma (c then s) = let rest = from_comma s in if code c == 44 then c then s else rest

-- `strings.Contains(s, "omitempty")`
unfoldable pub has_omit_empty : String → Bool
has_omit_empty end = false
has_omit_empty (c then s) =
    let rest = has_omit_empty s in starts_with (c then s) "omitempty" || rest

unfoldable pub field_name : String → String → String
field_name name tag = if tag =? "" then name else before_comma tag

unfoldable pub is_omit_empty : String → Bool
is_omit_empty tag = has_omit_empty (from_comma tag)

-- The field is exported and its tag is not a dash.
unfoldable pub is_visible : Bool → String → Bool
is_visible exported tag = exported && not (tag =? "-")

unfoldable pub is_pointer : GoType → Bool
is_pointer (pointer t) = true
is_pointer _ = false

-- `properties[name] = schema`
unfoldable pub insert_property : String → Schema → Properties → Properties
insert_property name s no_properties = property name s no_properties
insert_property name s (property k t ps) =
    let rest = insert_property name s ps in if k =? name then property k s ps else property k t rest

unfoldable mutual
  pub generate_field_schema : GoType → Schema
  generate_field_schema string = plain "string"
  generate_field_schema int = plain "integer"
  generate_field_schema uint = plain "integer"
  generate_field_schema float = plain "number"
  generate_field_schema bool = plain "boolean"
  generate_field_schema (slice t) = array_schema (generate_field_schema t)
  generate_field_schema (array t) = array_schema (generate_field_schema t)
  generate_field_schema (map_of t) = map_schema (generate_field_schema t)
  generate_field_schema (pointer t) = generate_field_schema t
  generate_field_schema (struct fs) = object (field_properties fs no_properties) []
  generate_field_schema other = plain "object"

  -- The loop over the fields, from the properties found so far.
  pub field_properties : Fields → Properties → Properties
  field_properties no_fields ps = ps
  field_properties (field name exported tag t fs) ps = field_properties fs (
      if is_visible exported tag
      then insert_property (field_name name tag) (generate_field_schema t) ps
      else ps)

-- The names that the loop of `GenerateJSONSchema` appends to `required`.
unfoldable pub required_fields : Fields → List String
required_fields no_fields = []
required_fields (field name exported tag t fs) =
    let rest = required_fields fs in
    if is_visible exported tag && not (is_pointer t) && not (is_omit_empty tag)
    then field_name name tag ∷ rest
    else rest

unfoldable pub generate_json_schema : GoType → Schema
generate_json_schema (struct fs) = object (field_properties fs no_properties) (required_fields fs)
generate_json_schema (pointer t) = generate_field_schema t
generate_json_schema t = generate_field_schema t
