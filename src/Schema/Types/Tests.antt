-- ===== src/Schema/Types/Tests.antt =====
-- Schemas of the tag swaggertype and merged schemas of internal/schema/types.go
use core_swag.Base.{◌≡◌, refl, true, [], ◌∷◌}
use core_swag.Base.Text.{codes, text_eq, mem}
use core_swag.Spec.{Schema, plain, no_props, documented}
use core_swag.Schema.Types.{
  built, failed, build_custom_schema, merge_schema, primitive_schema, is_complex_schema,
}
use core_swag.Schema.Types.Merge.{Merged, merge_schema-Merged}
use core_swag.Schema.Types.Print.{
  simple, array_of, map_of, print, schema_of, build_custom_schema-print,
}

alone :
    build_custom_schema documented (codes "array" ∷ [])
    ≡ failed (codes "need array item type after array")
unfolding build_custom_schema text_eq
alone = refl

objects : is_complex_schema (primitive_schema (codes "object")) ≡ true
unfolding is_complex_schema mem text_eq
objects = refl

build_custom_schema-print_example :
    build_custom_schema documented (codes "array" ∷ codes "object" ∷ codes "integer" ∷ [])
    ≡ built (schema_of documented (array_of (map_of (simple (codes "integer")))))
unfolding print mem text_eq
build_custom_schema-print_example =
    build_custom_schema-print documented (array_of (map_of (simple (codes "integer")))) refl

described : Schema
described = plain (record no_props { description = codes "A name" })

merge_schema-Merged_example :
    Merged described
      (primitive_schema (codes "string"))
      (merge_schema described (primitive_schema (codes "string")))
merge_schema-Merged_example = merge_schema-Merged described (primitive_schema (codes "string"))
