-- ===== src/Schema/AllOf/Tests.antt =====
-- Runs of the combined type parser, and its theorems at concrete inputs.
use core_swag.Base.{◌≡◌, refl, ◌||◌, List, [], ◌∷◌, ◌++◌, none, All}
use core_swag.Base.Text.{
  Text, codes, mem, index, text_eq, is_space, has_suffix, count, last_index, trim_space,
}
use core_swag.Base.Text.Slices.{solid}
use core_swag.Spec.{
  Schema, plain, no_props, Fields, end, field, present, documented, documented-IsDocumented,
}
use core_swag.Schema.Cleanup.Names.{schema_names, fields_names}
use core_swag.Schema.AllOf.{
  ok, err, missing_closing_brace, extra_closing_brace, empty_type, parse_combined_type,
  parse_braces, parse_field_overrides, overrides_loop, override_step, parse_override, split_fields,
  split_loop, split_step, up, down, is_zero, emit, put, build_all_of_schema,
}
use core_swag.Schema.AllOf.Split.{closes}
use core_swag.Schema.AllOf.RoundTrip.{print_combined, IsOverride, parse_combined_type-print}
use core_swag.Schema.AllOf.Compose.{IsNamed, parse_combined_type-ok, build_all_of_schema-names}

-- What a run computes with.
evaluation : Unit {0}
unfolding parse_combined_type parse_braces parse_field_overrides overrides_loop override_step
    parse_override split_fields split_loop split_step up down is_zero emit put closes solid index
    text_eq is_space has_suffix count last_index trim_space build_all_of_schema
evaluation = tt

abbrev overrides : List (Text × Text)
overrides = (codes "data", codes "Inner{a=B,c=D}") ∷ (codes "meta", codes "Meta") ∷ []

abbrev nested : Text
nested = codes "Response{data=Inner{a=B,c=D},meta=Meta}"

errors :
    (parse_combined_type [] ≡ err empty_type)
    × (parse_combined_type (codes "R{a=B") ≡ err (missing_closing_brace (codes "R{a=B")))
    × (parse_combined_type (codes "R{a=B}}") ≡ err (extra_closing_brace (codes "R{a=B}}")))
    × (parse_combined_type (codes "R{}") ≡ ok (codes "R", []))
    × (parse_combined_type (codes "R{ a = B , }") ≡ ok (codes "R", (codes "a", codes "B") ∷ []))
unfolding evaluation
errors = (refl, refl, refl, refl, refl)

data_IsOverride : IsOverride (codes "data", codes "Inner{a=B,c=D}")
unfolding evaluation
data_IsOverride = record {
  name_starts = refl;
  name_ends = refl;
  name_closes = refl;
  no_equals = refl;
  type_starts = refl;
  type_ends = refl;
  type_closes = refl;
}

meta_IsOverride : IsOverride (codes "meta", codes "Meta")
unfolding evaluation
meta_IsOverride = record {
  name_starts = refl;
  name_ends = refl;
  name_closes = refl;
  no_equals = refl;
  type_starts = refl;
  type_ends = refl;
  type_closes = refl;
}

parse_combined_type-print_example :
    parse_combined_type (print_combined (codes "Response") overrides)
    ≡ ok (codes "Response", overrides)
unfolding evaluation
parse_combined_type-print_example =
    parse_combined_type-print (codes "Response") overrides refl
      (data_IsOverride, (meta_IsOverride, tt)) (tt, ((refl, tt), tt))

nested_parsed : parse_combined_type nested ≡ ok (codes "Response", overrides)
unfolding evaluation
nested_parsed = refl

parse_combined_type-ok_example :
    (index (codes "Response") b'{' ≡ none)
    × All IsNamed overrides
    × ((rest : Text) × (nested ≡ codes "Response" ++ rest))
parse_combined_type-ok_example =
    parse_combined_type-ok nested (codes "Response") overrides nested_parsed

abbrev wrapper : Schema
wrapper = plain (record no_props { ref = codes "#/definitions/Response" })

abbrev account_field : Fields
account_field =
    field (codes "data") (plain (record no_props { ref = codes "#/definitions/Account" })) end

build_all_of_schema-names_example :
    mem
      (codes "Account")
      (schema_names (build_all_of_schema documented (present wrapper) account_field))
    ≡ (mem (codes "Account") (schema_names wrapper)
        || mem (codes "Account") (fields_names account_field))
build_all_of_schema-names_example =
    build_all_of_schema-names documented documented-IsDocumented wrapper account_field
      (codes "Account")
