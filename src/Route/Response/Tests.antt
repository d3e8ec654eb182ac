-- ===== src/Route/Response/Tests.antt =====
-- Runs of the response annotations, and the theorems on them there.
use core_swag.Base.{◌≡◌, ℕ, refl, true, List, [], ◌∷◌, none, some, if◌then◌else◌}
use core_swag.Base.Text.{
  Text, codes, text_eq, mem, has_prefix, has_suffix, trim_prefix, contains, index, trim_space,
  split, to_lower, last_index, count,
}
use core_swag.Base.Pattern.{find, is_word, is_blank, not_blank, match_at, span, tries, no_groups}
use core_swag.Spec.{documented, documented-IsDocumented}
use core_swag.Schema.AllOf.{
  parse_combined_type, build_all_of_schema, parse_braces, parse_field_overrides, overrides_loop,
  override_step, parse_override, put, split_fields, split_loop, split_step, up, down, is_zero, emit,
  no_fields, should_use_all_of, is_empty_object, starts_object, with_properties,
}
use core_swag.TypeRegistry.{clean_type, lookup, registry}
use core_swag.Route.Domain.{
  domain, null, points, no_pointers, pointer, no_properties, property, domain_ref, domain_type,
  DomainResponse,
}
use core_swag.Route.Domain.Each.{EachRef}
use core_swag.Route.TypeNames.{
  convert_type_to_schema_type, is_primitive_type, is_wildcard_map_value, schema_type_of,
}
use core_swag.Route.Convert.{convert_spec_schema_to_domain}
use core_swag.Route.Response.{
  TypeSpecDef, Registry, Context, full_path, qualified, resolve_type_path, is_struct_type,
  has_no_public_annotation, reference_to, build_schema_for_type, type_path_of, resolve_type_paths,
}
use core_swag.Route.Response.Combined.{
  resolve_named, resolve_map, map_to, resolve_step, resolve_to, resolve_override_type_schema,
  override_schemas, build_composition, build_parsed, build_all_of_response_schema, build_schema,
}
use core_swag.Route.Response.Parse.{
  atoi, digits, lookup_response, put_response, each_code, existing_headers, set_response,
  default_description, parse_response, parse_response_with_schema, parse_header, set_header,
  put_header,
}
use core_swag.Route.Response.Located.{Located}
use core_swag.Route.Response.Schemas.{build_schema-Located}
use core_swag.Route.Response.Recursion.{resolve_override_type_schema-step}
use core_swag.Route.Response.Responses.{parse_response-sets, among}

evaluation : Unit {0}
unfolding text_eq mem has_prefix has_suffix trim_prefix contains index trim_space split to_lower
    last_index count find is_word is_blank not_blank match_at span tries no_groups
    parse_combined_type build_all_of_schema parse_braces parse_field_overrides overrides_loop
    override_step parse_override put split_fields split_loop split_step up down is_zero emit
    no_fields should_use_all_of is_empty_object starts_object with_properties clean_type lookup
    registry convert_type_to_schema_type is_primitive_type is_wildcard_map_value schema_type_of
    convert_spec_schema_to_domain full_path qualified resolve_type_path is_struct_type
    has_no_public_annotation reference_to build_schema_for_type type_path_of resolve_type_paths
    resolve_named resolve_map map_to resolve_step resolve_to resolve_override_type_schema
    override_schemas build_composition build_parsed build_all_of_response_schema build_schema atoi
    digits lookup_response put_response each_code existing_headers set_response default_description
    parse_response parse_response_with_schema parse_header set_header put_header among
evaluation = tt

-- A registry that knows one struct, and files that are numbers.
abbrev account : TypeSpecDef
account = record {
  pkg_path = codes "app/account";
  name = codes "Account";
  is_struct = true;
  declaration_comments = [];
  spec_comments = [];
}

abbrev types : Registry ℕ
types = record {
  find_type_spec = λ t f. if text_eq t (codes "account.Account") then some account else none;
}

abbrev public : Context ℕ
public = record {
  registry = some types;
  package_name = codes "account";
  is_public = true;
  ast_file = none;
}

-- The wrapper keeps its name, and the struct in it is the public one.
composed :
    build_schema documented public (codes "object") (codes "api.Page{data=[]Account}")
    ≡ domain [] [] [] null no_properties null
        (pointer (points (domain_ref (codes "#/definitions/api.Page") [])) (
          pointer
            (points (
              domain
                (codes "object")
                []
                []
                null
                (property
                  (codes "data")
                  (points (
                    domain
                      (codes "array")
                      []
                      []
                      (points (domain_ref (codes "#/definitions/account.AccountPublic") []))
                      no_properties
                      null
                      no_pointers
                      []
                      []))
                  no_properties)
                null
                no_pointers
                []
                []))
            no_pointers))
        []
        []
unfolding evaluation
composed = refl

-- With the file, the path of the type is found.
with_file :
    build_schema documented (record public { ast_file = some 1 }) (codes "object") (codes "Account")
    ≡ domain_ref (codes "#/definitions/account.AccountPublic") (codes "app/account.AccountPublic")
unfolding evaluation
with_file = refl

build_schema-Located_example :
    EachRef
      (Located {File = ℕ} none)
      (build_schema documented public (codes "object") (codes "api.Page{data=[]Account}"))
build_schema-Located_example =
    build_schema-Located documented documented-IsDocumented public (codes "object")
      (codes "api.Page{data=[]Account}")

resolve_override_type_schema-step_example :
    resolve_override_type_schema documented public (codes "map[string][]Account")
    ≡ resolve_step documented public
        (resolve_override_type_schema documented public)
        (codes "map[string][]Account")
resolve_override_type_schema-step_example =
    resolve_override_type_schema-step documented public (codes "map[string][]Account")

abbrev before : List (ℕ × DomainResponse)
before =
    (
      404,
      record {
        description = codes "missing";
        schema = null;
        headers =
            (codes "X-Id", record { type = codes "string"; description = []; format = [] }) ∷ [];
      },
    )
    ∷ []

abbrev line : Text
line = codes "200,404 {object} string \"done\""

parse_response-sets_example :
    ((parse_response documented public line before).1 ≡ none)
    × ((k : ℕ)
        → lookup_response k (parse_response documented public line before).0 ≡ (
            if among k (200 ∷ 404 ∷ [])
            then some (record {
              description = codes "done";
              schema = points (domain_type (codes "string"));
              headers = existing_headers k before;
            })
            else lookup_response k before))
unfolding evaluation
parse_response-sets_example =
    parse_response-sets documented public line line (codes "200,404") (codes "object")
      (codes "string") (codes "done") [] (200 ∷ 404 ∷ []) before refl (refl, (refl, tt))
