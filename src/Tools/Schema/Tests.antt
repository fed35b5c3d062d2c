-- ===== src/Tools/Schema/Tests.antt =====
-- Concrete schemas.
use xgc_agent.Prelude.{◌≡◌, refl, true, false, [], ◌∷◌}
use xgc_agent.Tools.Schema.{
  string, int, slice, pointer, struct, Fields, no_fields, field, plain, array_schema, object,
  Properties, no_properties, property, before_comma, from_comma, has_omit_empty, field_name,
  is_omit_empty, is_visible, is_pointer, insert_property, generate_field_schema, required_fields,
  generate_json_schema,
}
use xgc_agent.Tools.Schema.Shape.{IsWellFormed, generate_json_schema-IsWellFormed}

abbrev address : Fields
address = field "City" true "city" string no_fields

-- A field with a name of its own, one that may be left out, a pointer, one that is hidden and one
-- that is not exported.
abbrev person : Fields
person = field "Name" true "name" string (
    field "Tags" true "tags,omitempty" (slice string) (
      field "Home" true "" (pointer (struct address))
        (field "Secret" true "-" int (field "age" false "" int no_fields))))

abbrev person_properties : Properties
person_properties = property "name" (plain "string") (
    property "tags" (array_schema (plain "string"))
      (property "Home" (object (property "city" (plain "string") no_properties) []) no_properties))

schema_of_person : generate_json_schema (struct person) ≡ object person_properties ("name" ∷ [])
unfolding before_comma from_comma has_omit_empty field_name is_omit_empty is_visible is_pointer
    insert_property generate_field_schema required_fields generate_json_schema
schema_of_person = refl

-- A pointer to the struct gives the schema of a nested one, in which nothing is required.
schema_of_pointer : generate_json_schema (pointer (struct person)) ≡ object person_properties []
unfolding before_comma from_comma has_omit_empty field_name is_omit_empty is_visible is_pointer
    insert_property generate_field_schema required_fields generate_json_schema
schema_of_pointer = refl

generate_json_schema-IsWellFormed_example : IsWellFormed (generate_json_schema (struct person))
generate_json_schema-IsWellFormed_example = generate_json_schema-IsWellFormed (struct person)
