-- ===== src/Route/TypeNames.antt =====
-- The type names of annotations: `convertType` of internal/parser/route/parameter.go,
-- `convertTypeToSchemaType` of response.go, `isPrimitiveType` and `isWildcardMapValue` of
-- allof.go, and `isModelType` of schema.go.
pub mod Agreement
pub mod Tests
use core_swag.Base.{Bool, true, false, ◌||◌, List, [], ◌∷◌, Option, none, some, if◌then◌else◌}
use core_swag.Base.Text.{Text, codes, text_eq, mem, contains}
use core_swag.TypeRegistry.{TypeEntry, clean_type, lookup, is_extended_primitive}

-- `convertType`: the schema type and the format
unfoldable pub convert_type : Text → Text × Text
convert_type t =
    if mem t (
      codes "int"
      ∷ codes "int32"
      ∷ codes "int64"
      ∷ codes "uint"
      ∷ codes "uint32"
      ∷ codes "uint64"
      ∷ [])
    then (codes "integer", t)
    else if mem t (codes "float32" ∷ codes "float64" ∷ [])
    then (codes "number", t)
    else if text_eq (codes "bool") t
    then (codes "boolean", [])
    else if text_eq (codes "string") t
    then (codes "string", [])
    else if text_eq (codes "byte") t
    then (codes "string", codes "byte")
    else if text_eq (codes "rune") t
    then (codes "integer", codes "int32")
    else if text_eq (codes "object") t
    then (codes "object", [])
    else if text_eq (codes "array") t
    then (codes "array", [])
    else if text_eq (codes "file") t
    then (codes "file", [])
    else (codes "object", [])

abbrev pub integer_types : List Text
integer_types =
    codes "int"
    ∷ codes "int8"
    ∷ codes "int16"
    ∷ codes "int32"
    ∷ codes "int64"
    ∷ codes "uint"
    ∷ codes "uint8"
    ∷ codes "uint16"
    ∷ codes "uint32"
    ∷ codes "uint64"
    ∷ codes "byte"
    ∷ codes "rune"
    ∷ []

-- the returns of `convertTypeToSchemaType`
unfoldable pub schema_type_of : Text → Option TypeEntry → Text
schema_type_of clean extended =
    if mem clean integer_types
    then codes "integer"
    else if mem clean (codes "float32" ∷ codes "float64" ∷ [])
    then codes "number"
    else if text_eq (codes "bool") clean
    then codes "boolean"
    else if mem clean (codes "string" ∷ codes "[]byte" ∷ codes "[]uint8" ∷ [])
    then codes "string"
    else elim extended [ some e ↦ e.schema_type | none ↦ codes "object" ]

-- `convertTypeToSchemaType`
unfoldable pub convert_type_to_schema_type : Text → Text
convert_type_to_schema_type data_type = schema_type_of (clean_type data_type) (lookup data_type)

abbrev pub other_primitives : List Text
other_primitives =
    codes "float32"
    ∷ codes "float64"
    ∷ codes "bool"
    ∷ codes "string"
    ∷ codes "[]byte"
    ∷ codes "[]uint8"
    ∷ codes "any"
    ∷ codes "interface{}"
    ∷ codes "object"
    ∷ []

-- `isPrimitiveType`
unfoldable pub is_primitive_type : Text → Bool
is_primitive_type t = mem t integer_types || mem t other_primitives

-- `isWildcardMapValue`
unfoldable pub is_wildcard_map_value : Text → Bool
is_wildcard_map_value t = text_eq t (codes "any") || text_eq t (codes "interface{}")

-- `isModelType`
unfoldable pub is_model_type : Text → Bool
is_model_type t =
    if mem (clean_type t) integer_types
      || mem (clean_type t) (
          codes "float32"
          ∷ codes "float64"
          ∷ codes "bool"
          ∷ codes "string"
          ∷ codes "any"
          ∷ codes "interface{}"
          ∷ codes "object"
          ∷ codes "array"
          ∷ codes "file"
          ∷ [])
    then false
    else if is_extended_primitive t
    then false
    else if contains (clean_type t) (codes ".")
    then true
    else true
