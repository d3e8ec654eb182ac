-- ===== src/Route/Response/Combined.antt =====
-- `resolveOverrideTypeSchema` and `buildAllOfResponseSchema` of internal/parser/route/allof.go, and
-- `buildSchemaWithPackageAndPublic` of response.go: the schema of a response.
use core_swag.Base.{
  ℕ, zero, suc, ◌+◌, ◌&&◌, ◌||◌, List, [], ◌∷◌, ◌++◌, Option, none, some, length, drop, ltb,
  if◌then◌else◌,
}
use core_swag.Base.Text.{Text, codes, text_eq, has_prefix, contains, index}
use core_swag.Spec.{
  Schema, schema, plain, no_props, nil, Fields, end, field, present, items_of, no_additional,
  absent, Functions,
}
use core_swag.Schema.AllOf.{Result, ok, err, parse_combined_type, build_all_of_schema}
use core_swag.Route.Domain.{
  DomainSchema, domain, null, points, no_pointers, no_properties, domain_type,
}
use core_swag.Route.TypeNames.{
  convert_type_to_schema_type, is_primitive_type, is_wildcard_map_value,
}
use core_swag.Route.Convert.{convert_spec_schema_to_domain}
use core_swag.Route.Response.{
  Context, qualified, is_struct_type, build_schema_for_type, resolve_type_paths,
}

module _ {File : Type 0} (lib : Functions) (c : Context File) where
  -- the branches of `resolveOverrideTypeSchema` behind the maps
  unfoldable pub resolve_named : Text → Schema
  resolve_named t =
      let name = qualified c.package_name t in
      if text_eq t (codes "any") || text_eq t (codes "interface{}")
      then plain no_props
      else if is_primitive_type t
      then plain (record no_props { type = convert_type_to_schema_type t ∷ [] })
      else if c.is_public && is_struct_type c.registry name
      then plain (record no_props {
        ref = lib.create_ref (codes "#/definitions/" ++ (name ++ codes "Public"));
      })
      else plain (record no_props { ref = lib.create_ref (codes "#/definitions/" ++ name) })

  -- a map to a type
  unfoldable pub map_to : (Text → Schema) → Text → Schema
  map_to inner v =
      if is_wildcard_map_value v
      then plain (record no_props { type = codes "object" ∷ [] })
      else lib.map_property (inner v)

  -- the branch of the maps, by the index of the closing bracket
  unfoldable pub resolve_map : (Text → Schema) → Text → Option ℕ → Schema
  resolve_map inner t none = resolve_named t
  resolve_map inner t (some i) =
      if ltb (i + 1) (length t) then map_to inner (drop (i + 1) t) else resolve_named t

  -- The body of `resolveOverrideTypeSchema`, over the function that it calls for a shorter type.
  unfoldable pub resolve_step : (Text → Schema) → Text → Schema
  resolve_step inner t =
      if has_prefix t (codes "[]")
      then schema (record no_props { type = codes "array" ∷ [] })
          (items_of (present (inner (drop 2 t))) nil) end no_additional nil nil nil absent end
      else if has_prefix t (codes "map[")
      then resolve_map inner t (index t b']')
      else resolve_named t

  -- `resolveOverrideTypeSchema`: the recursion, which takes at least two characters off the type, to
  -- a depth
  unfoldable pub resolve_to : ℕ → Text → Schema
  resolve_to zero t = resolve_step (λ v. plain no_props) t
  resolve_to (suc n) t = resolve_step (resolve_to n) t

  unfoldable pub resolve_override_type_schema : Text → Schema
  resolve_override_type_schema t = resolve_to (length t) t

  unfoldable pub override_schemas : List (Text × Text) → Fields
  override_schemas [] = end
  override_schemas ((k, t) ∷ os) = field k (resolve_override_type_schema t) (override_schemas os)

  -- the composition of a base type and fields
  unfoldable pub build_composition : Text → Fields → DomainSchema
  build_composition base fs = resolve_type_paths c.registry c.ast_file (
      convert_spec_schema_to_domain (
        build_all_of_schema lib
          (present (
            plain (record no_props {
              ref = lib.create_ref (codes "#/definitions/" ++ qualified c.package_name base);
            })))
          fs))

  -- the returns of `buildAllOfResponseSchema`
  unfoldable pub build_parsed : Text → Result (Text × List (Text × Text)) → DomainSchema
  build_parsed t (err e) = build_schema_for_type c t
  build_parsed t (ok (base, [])) = build_schema_for_type c base
  build_parsed t (ok (base, o ∷ os)) = build_composition base (override_schemas (o ∷ os))

  -- `buildAllOfResponseSchema`
  unfoldable pub build_all_of_response_schema : Text → DomainSchema
  build_all_of_response_schema t = build_parsed t (parse_combined_type t)

  -- `buildSchemaWithPackageAndPublic`
  unfoldable pub build_schema : Text → Text → DomainSchema
  build_schema schema_type data_type =
      if contains data_type (codes "{")
      then build_all_of_response_schema data_type
      else if text_eq schema_type (codes "file")
      then domain_type (codes "file")
      else if text_eq schema_type (codes "array")
      then domain (codes "array") [] [] (points (build_schema_for_type c data_type)) no_properties
          null no_pointers [] []
      else build_schema_for_type c data_type
