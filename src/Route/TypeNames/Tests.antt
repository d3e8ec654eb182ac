-- ===== src/Route/TypeNames/Tests.antt =====
-- Runs of the tables of the route parser, and the theorems on them there.
use core_swag.Base.{◌≡◌, refl, false, [], ◌∷◌}
use core_swag.Base.Text.{codes, text_eq, mem, has_prefix, trim_prefix}
use core_swag.TypeRegistry.{
  is_extended_primitive_type, trans_to_valid_primitive_schema, is_extended_primitive, lookup,
  registry, clean_type, is_golang_primitive_type,
}
use core_swag.Route.TypeNames.{
  convert_type, convert_type_to_schema_type, is_primitive_type, is_model_type,
}
use core_swag.Route.TypeNames.Agreement.{
  types_of, convert_type_to_schema_type-trans_to_valid_primitive_schema,
  convert_type-short_integers, is_model_type-primitive,
}

evaluation : Unit {0}
unfolding text_eq mem has_prefix trim_prefix is_extended_primitive_type is_extended_primitive lookup
    registry clean_type is_golang_primitive_type is_primitive_type
evaluation = tt

convert_type_to_schema_type-trans_to_valid_primitive_schema_example :
    types_of (trans_to_valid_primitive_schema (codes "*time.Time"))
    ≡ convert_type_to_schema_type (codes "*time.Time") ∷ []
convert_type_to_schema_type-trans_to_valid_primitive_schema_example =
    convert_type_to_schema_type-trans_to_valid_primitive_schema (codes "*time.Time")
      (unfold evaluation in refl)

convert_type-short_integers_example :
    (convert_type (codes "uint16") ≡ (codes "object", []))
    × (convert_type_to_schema_type (codes "uint16") ≡ codes "integer")
convert_type-short_integers_example =
    convert_type-short_integers (codes "uint16") (unfold evaluation in refl)

is_model_type-primitive_example : is_model_type (codes "float32") ≡ false
is_model_type-primitive_example =
    is_model_type-primitive (codes "float32") (unfold evaluation in refl)
