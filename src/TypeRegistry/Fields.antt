-- ===== src/TypeRegistry/Fields.antt =====
-- internal/typeregistry/fields.go: wrapper types of package `fields`.
use core_swag.Base.{
  suc, ◌-◌, Bool, true, false, ◌||◌, not, [], ◌∷◌, Option, none, some, if◌then◌else◌, take, drop,
  leb,
}
use core_swag.Base.Text.{Text, codes, contains, has_prefix, index, last_index}
use core_swag.Spec.{Schema, plain, no_props}
use core_swag.TypeRegistry.{clean_type}

-- `FieldsResult`
pub record FieldsResult : Type 0 where
  pub schema : Option Schema
  pub inner_type : Text
  pub is_enum : Bool
  pub fallback_schema_type : Text

-- `IsFieldsWrapper`
unfoldable pub is_fields_wrapper : Text → Bool
is_fields_wrapper type_name =
    let clean = clean_type type_name in
    has_prefix clean (codes "fields.") || contains clean (codes "/fields.")

-- `ExtractConstantFieldEnumType`
unfoldable pub extract_constant_field_enum_type : Text → Text
extract_constant_field_enum_type type_str = elim (index type_str b'[') [
  | none ↦ []
  | some start ↦ elim (last_index type_str b']') [
    | none ↦ []
    | some stop ↦ if leb stop start then [] else take (stop - suc start) (drop (suc start) type_str)
  ]
]

abbrev pub enum_of : Text → Text → FieldsResult
enum_of inner fallback = record {
  schema = none;
  inner_type = inner;
  is_enum = true;
  fallback_schema_type = fallback;
}

abbrev simple : Text → Text → FieldsResult
simple t f = record {
  schema = some (plain (record no_props { type = t ∷ []; format = f }));
  inner_type = [];
  is_enum = false;
  fallback_schema_type = [];
}

-- the wrappers that have a schema of their own
unfoldable pub resolve_simple : Text → FieldsResult
resolve_simple type_name =
    if contains type_name (codes "UUIDField")
    then simple (codes "string") (codes "uuid")
    else if contains type_name (codes "StringField")
    then simple (codes "string") []
    else if contains type_name (codes "IntField") || contains type_name (codes "DecimalField")
    then simple (codes "integer") []
    else if contains type_name (codes "BoolField")
    then simple (codes "boolean") []
    else if contains type_name (codes "FloatField")
    then simple (codes "number") []
    else if contains type_name (codes "TimeField")
    then simple (codes "string") (codes "date-time")
    else simple (codes "string") []

-- `ResolveFieldsWrapper`; `none` is the result that is not a wrapper
unfoldable pub resolve_fields_wrapper : Text → Option FieldsResult
resolve_fields_wrapper type_name =
    if not (is_fields_wrapper type_name)
    then none
    else if contains type_name (codes "IntConstantField[")
    then some (enum_of (extract_constant_field_enum_type type_name) (codes "integer"))
    else if contains type_name (codes "StringConstantField[")
    then some (enum_of (extract_constant_field_enum_type type_name) (codes "string"))
    else if contains type_name (codes "StructField[")
    then some (record {
      schema = none;
      inner_type = extract_constant_field_enum_type type_name;
      is_enum = false;
      fallback_schema_type = [];
    })
    else some (resolve_simple type_name)
