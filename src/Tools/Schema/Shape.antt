-- ===== src/Tools/Schema/Shape.antt =====
-- The shape of the schemas of tools/schema.go.
use xgc_agent.Prelude.{
  ◌≡◌, refl, ◌∙◌, String, Bool, true, false, not, ◌&&◌, ◌||◌, List, [], ◌∷◌, arith, if◌then◌else◌,
  ◌=?◌, string_eq, string_iff, contains, All, All-map_of, Bool-cases, inl, inr,
}
use xgc_agent.Tools.Schema.{
  GoType, string, int, uint, float, bool, other, slice, array, map_of, pointer, struct, Fields,
  no_fields, field, Schema, plain, array_schema, map_schema, object, Properties, no_properties,
  property, field_name, is_omit_empty, is_visible, is_pointer, insert_property,
  generate_field_schema, field_properties, required_fields, generate_json_schema,
}

abbrev pub has_property : Properties → String → Bool
has_property no_properties k = false
has_property (property j s ps) k = j =? k || has_property ps k

-- The names of the types of JSON values.
abbrev pub type_names : List String
type_names = "string" ∷ "integer" ∷ "number" ∷ "boolean" ∷ "object" ∷ []

mutual
  -- The type is one of JSON's, every property is well formed, and what is required is a property.
  pub IsWellFormed : Schema → Type 0
  IsWellFormed (plain t) = contains type_names t ≡ true
  IsWellFormed (array_schema s) = IsWellFormed s
  IsWellFormed (map_schema s) = IsWellFormed s
  IsWellFormed (object ps required) =
      AreWellFormed ps × All (λ k. has_property ps k ≡ true) required

  pub AreWellFormed : Properties → Type 0
  AreWellFormed no_properties = Unit
  AreWellFormed (property k s ps) = IsWellFormed s × AreWellFormed ps

insert_property-AreWellFormed :
    (k : String) (s : Schema) (ps : Properties)
    → IsWellFormed s
    → AreWellFormed ps
    → AreWellFormed (insert_property k s ps)
unfolding insert_property IsWellFormed
insert_property-AreWellFormed k s no_properties v w = (v, tt)
insert_property-AreWellFormed k s (property j t ps) v w =
    ground (arith, insert_property-AreWellFormed k s ps v w.1)

has_property-insert_property :
    (k j : String) (s : Schema) (ps : Properties)
    → has_property (insert_property k s ps) j ≡ (k =? j || has_property ps j)
unfolding insert_property
has_property-insert_property k j s no_properties = refl
has_property-insert_property k j s (property i t ps) =
    ground
      (arith, has_property-insert_property k j s ps, string_iff i k, string_iff i j, string_iff k j)

-- JSON shows a field of this name.
abbrev pub shows : Fields → String → Bool
shows no_fields k = false
shows (field name exported tag t fs) k =
    (is_visible exported tag && field_name name tag =? k) || shows fs k

mutual
  unfolding generate_field_schema IsWellFormed

  generate_field_schema_lem : (t : GoType) → IsWellFormed (generate_field_schema t)
  generate_field_schema_lem string = refl
  generate_field_schema_lem int = refl
  generate_field_schema_lem uint = refl
  generate_field_schema_lem float = refl
  generate_field_schema_lem bool = refl
  generate_field_schema_lem other = refl
  generate_field_schema_lem (slice t) = generate_field_schema_lem t
  generate_field_schema_lem (array t) = generate_field_schema_lem t
  generate_field_schema_lem (map_of t) = generate_field_schema_lem t
  generate_field_schema_lem (pointer t) = generate_field_schema_lem t
  generate_field_schema_lem (struct fs) = (field_properties_lem fs no_properties tt, tt)

  field_properties_lem :
      (fs : Fields) (ps : Properties) → AreWellFormed ps → AreWellFormed (field_properties fs ps)
  field_properties_lem no_fields ps w = w
  field_properties_lem (field name exported tag t fs) ps w =
      field_properties_lem fs
        (if is_visible exported tag
          then insert_property (field_name name tag) (generate_field_schema t) ps
          else ps)
        (elim (Bool-cases (is_visible exported tag)) [
          | inl e ↦ rw e (
              insert_property-AreWellFormed (field_name name tag) (generate_field_schema t) ps
                (generate_field_schema_lem t) w)
          | inr e ↦ rw e w
        ])

has_property-field_properties :
    (fs : Fields) (ps : Properties) (k : String)
    → has_property (field_properties fs ps) k ≡ (shows fs k || has_property ps k)
unfolding generate_field_schema
has_property-field_properties no_fields ps k = refl
has_property-field_properties (field name exported tag t fs) ps k =
    elim (Bool-cases (is_visible exported tag)) [
      | inl e ↦ rw e (
          has_property-field_properties fs
            (insert_property (field_name name tag) (generate_field_schema t) ps) k
          ∙ ground (
            arith,
            has_property-insert_property (field_name name tag) k (generate_field_schema t) ps,
          ))
      | inr e ↦ rw e (has_property-field_properties fs ps k)
    ]

-- The properties of a struct's schema are named by the fields that JSON shows.
pub has_property-struct :
    (fs : Fields) (k : String) → has_property (field_properties fs no_properties) k ≡ shows fs k
has_property-struct fs k = has_property-field_properties fs no_properties k ∙ ground arith

shows_later :
    (name : String) (exported : Bool) (tag : String) (t : GoType) (fs : Fields) (k : String)
    → shows fs k ≡ true
    → shows (field name exported tag t fs) k ≡ true
shows_later name exported tag t fs k h = ground arith

shows_first :
    (name : String) (exported : Bool) (tag : String) (t : GoType) (fs : Fields)
    → (is_visible exported tag && not (is_pointer t) && not (is_omit_empty tag)) ≡ true
    → shows (field name exported tag t fs) (field_name name tag) ≡ true
shows_first name exported tag t fs h =
    ground (arith, string_iff (field_name name tag) (field_name name tag))

required-shows : (fs : Fields) → All (λ k. shows fs k ≡ true) (required_fields fs)
unfolding required_fields
required-shows no_fields = tt
required-shows (field name exported tag t fs) =
    let rest =
      All-map_of (λ k. shows fs k ≡ true) (λ k. shows (field name exported tag t fs) k ≡ true)
        (required_fields fs) (λ k h. shows_later name exported tag t fs k h) (required-shows fs) in
    elim (Bool-cases (is_visible exported tag && not (is_pointer t) && not (is_omit_empty tag))) [
      | inl e ↦ rw e (shows_first name exported tag t fs e, rest)
      | inr e ↦ rw e rest
    ]

-- Every schema that is generated is well formed: its types are JSON's, at every depth, and what it
-- requires is among its properties.
pub generate_json_schema-IsWellFormed : (t : GoType) → IsWellFormed (generate_json_schema t)
unfolding generate_json_schema IsWellFormed
generate_json_schema-IsWellFormed (struct fs) = (
  field_properties_lem fs no_properties tt,
  All-map_of (λ k. shows fs k ≡ true)
      (λ k. has_property (field_properties fs no_properties) k ≡ true) (required_fields fs)
      (λ k h. has_property-struct fs k ∙ h) (required-shows fs),
)
generate_json_schema-IsWellFormed (pointer t) = generate_field_schema_lem t
generate_json_schema-IsWellFormed t = generate_field_schema_lem t
