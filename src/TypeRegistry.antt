-- ===== src/TypeRegistry.antt =====
-- internal/typeregistry/registry.go and the primitive types of internal/domain/utils.go: the names
-- of Go types that have a schema of their own.
pub mod Fields
pub mod Laws
pub mod Wrappers
pub mod Tests
use core_swag.Base.{
  ◌≡◌, refl, Bool, true, false, ◌||◌, List, [], ◌∷◌, Option, none, some, if◌then◌else◌,
}
use core_swag.Base.Text.{Text, codes, text_eq, mem, trim_prefix}
use core_swag.Spec.{Schema, plain, Props, no_props}

-- `TypeEntry`
pub record TypeEntry : Type 0 where
  pub schema_type : Text
  pub format : Text

abbrev entry : Text → Text → TypeEntry
entry t f = record { schema_type = t; format = f }

abbrev pub uuid_names : List Text
uuid_names =
    codes "types.UUID"
    ∷ codes "uuid.UUID"
    ∷ codes "github.com/google/uuid.UUID"
    ∷ codes "github.com/griffnb/core/lib/types.UUID"
    ∷ []

abbrev pub urn_names : List Text
urn_names = codes "types.URN" ∷ codes "github.com/griffnb/core/lib/types.URN" ∷ []

abbrev pub decimal_names : List Text
decimal_names = codes "decimal.Decimal" ∷ codes "github.com/shopspring/decimal.Decimal" ∷ []

abbrev pub json_names : List Text
json_names = codes "json.RawMessage" ∷ codes "encoding/json.RawMessage" ∷ []

abbrev pub bytes_names : List Text
bytes_names = codes "[]byte" ∷ codes "[]uint8" ∷ []

-- `strings.TrimPrefix(typeName, "*")`
unfoldable pub clean_type : Text → Text
unfolding trim_prefix
clean_type t = trim_prefix t (codes "*")

-- the map `registry`, by the groups of keys that share an entry
unfoldable pub registry : Text → Option TypeEntry
registry clean =
    if text_eq (codes "time.Time") clean
    then some (entry (codes "string") (codes "date-time"))
    else if mem clean uuid_names
    then some (entry (codes "string") (codes "uuid"))
    else if mem clean urn_names
    then some (entry (codes "string") (codes "uri"))
    else if mem clean decimal_names
    then some (entry (codes "string") [])
    else if mem clean json_names
    then some (entry (codes "object") [])
    else if mem clean bytes_names
    then some (entry (codes "string") (codes "byte"))
    else none

-- `Lookup`
unfoldable pub lookup : Text → Option TypeEntry
lookup type_name = registry (clean_type type_name)

-- `IsExtendedPrimitive`
unfoldable pub is_extended_primitive : Text → Bool
is_extended_primitive type_name = elim (lookup type_name) [ none ↦ false | some e ↦ true ]

unfoldable pub entry_schema : Option TypeEntry → Option Schema
entry_schema none = none
entry_schema (some e) =
    some (plain (record no_props { type = e.schema_type ∷ []; format = e.format }))

-- `ToSchema`; a format that is empty is left empty
unfoldable pub to_schema : Text → Option Schema
to_schema type_name = entry_schema (lookup type_name)

abbrev pub golang_primitives : List Text
golang_primitives =
    codes "uint"
    ∷ codes "int"
    ∷ codes "uint8"
    ∷ codes "int8"
    ∷ codes "uint16"
    ∷ codes "int16"
    ∷ codes "byte"
    ∷ codes "uint32"
    ∷ codes "int32"
    ∷ codes "rune"
    ∷ codes "uint64"
    ∷ codes "int64"
    ∷ codes "float32"
    ∷ codes "float64"
    ∷ codes "bool"
    ∷ codes "string"
    ∷ []

-- `IsGolangPrimitiveType`
unfoldable pub is_golang_primitive_type : Text → Bool
is_golang_primitive_type type_name = mem type_name golang_primitives

-- `IsExtendedPrimitiveType`
unfoldable pub is_extended_primitive_type : Text → Bool
is_extended_primitive_type type_name =
    if is_golang_primitive_type (clean_type type_name)
    then true
    else is_extended_primitive type_name

abbrev typed : Text → Text → Schema
typed t f = plain (record no_props { type = t ∷ []; format = f })

-- the switch of `TransToValidPrimitiveSchema`
unfoldable pub basic_schema : Text → Option Schema
basic_schema clean =
    if mem clean (codes "int" ∷ codes "uint" ∷ [])
    then some (typed (codes "integer") [])
    else if mem clean (
        codes "uint8"
        ∷ codes "int8"
        ∷ codes "uint16"
        ∷ codes "int16"
        ∷ codes "byte"
        ∷ codes "int32"
        ∷ codes "uint32"
        ∷ codes "rune"
        ∷ [])
    then some (typed (codes "integer") (codes "int32"))
    else if mem clean (codes "uint64" ∷ codes "int64" ∷ [])
    then some (typed (codes "integer") (codes "int64"))
    else if text_eq (codes "float32") clean
    then some (typed (codes "number") (codes "float"))
    else if text_eq (codes "float64") clean
    then some (typed (codes "number") (codes "double"))
    else if text_eq (codes "bool") clean
    then some (typed (codes "boolean") [])
    else if text_eq (codes "string") clean
    then some (typed (codes "string") [])
    else none

-- the returns of `TransToValidPrimitiveSchema`
unfoldable pub choose_schema : Text → Option Schema → Option Schema → Schema
choose_schema type_name (some s) extended = s
choose_schema type_name none (some s) = s
choose_schema type_name none none = typed type_name []

-- `TransToValidPrimitiveSchema`
unfoldable pub trans_to_valid_primitive_schema : Text → Schema
trans_to_valid_primitive_schema type_name =
    choose_schema type_name (basic_schema (clean_type type_name)) (to_schema type_name)
