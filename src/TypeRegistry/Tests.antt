-- ===== src/TypeRegistry/Tests.antt =====
-- Runs of the type tables, and the theorems on them there.
use core_swag.Base.{◌≡◌, refl, true, [], ◌∷◌, ◌++◌, some}
use core_swag.Base.Text.{codes, text_eq, mem, index, has_prefix, trim_prefix, contains, last_index}
use core_swag.TypeRegistry.{
  is_extended_primitive_type, trans_to_valid_primitive_schema, is_extended_primitive, lookup,
  registry, clean_type, is_golang_primitive_type,
}
use core_swag.TypeRegistry.Laws.{trans_to_valid_primitive_schema-pointer}
use core_swag.TypeRegistry.Fields.{
  resolve_fields_wrapper, extract_constant_field_enum_type, enum_of, is_fields_wrapper,
  resolve_simple,
}
use core_swag.TypeRegistry.Wrappers.{
  extract_constant_field_enum_type-brackets, resolve_fields_wrapper-int_constant,
}

evaluation : Unit {0}
unfolding text_eq mem index has_prefix trim_prefix contains last_index is_extended_primitive_type
    is_extended_primitive lookup registry clean_type is_golang_primitive_type resolve_fields_wrapper
    extract_constant_field_enum_type is_fields_wrapper resolve_simple
evaluation = tt

uuid_is_extended : is_extended_primitive_type (codes "*uuid.UUID") ≡ true
unfolding evaluation
uuid_is_extended = refl

trans_to_valid_primitive_schema-pointer_example :
    (is_extended_primitive_type (codes "uuid.UUID") ≡ true)
    × (trans_to_valid_primitive_schema (codes "*uuid.UUID")
        ≡ trans_to_valid_primitive_schema (codes "uuid.UUID"))
trans_to_valid_primitive_schema-pointer_example =
    trans_to_valid_primitive_schema-pointer (codes "uuid.UUID") (unfold evaluation in refl)
      uuid_is_extended

extract_constant_field_enum_type-brackets_example :
    extract_constant_field_enum_type
      (codes "fields.StringConstantField" ++ b'[' ∷ (codes "set.Of[constants.Role]" ++ b']' ∷ []))
    ≡ codes "set.Of[constants.Role]"
extract_constant_field_enum_type-brackets_example =
    extract_constant_field_enum_type-brackets (codes "fields.StringConstantField")
      (codes "set.Of[constants.Role]") (unfold evaluation in refl)

resolve_fields_wrapper-int_constant_example :
    (resolve_fields_wrapper
        (codes "fields.IntConstantField[" ++ (codes "constants.Role" ++ b']' ∷ []))
      ≡ some (enum_of (codes "constants.Role") (codes "integer")))
    × (resolve_fields_wrapper
          (codes "*fields.IntConstantField[" ++ (codes "constants.Role" ++ b']' ∷ []))
        ≡ some (enum_of (codes "constants.Role") (codes "integer")))
resolve_fields_wrapper-int_constant_example =
    resolve_fields_wrapper-int_constant (codes "constants.Role")
