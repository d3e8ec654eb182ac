-- ===== src/Route/Operation/Tests.antt =====
-- The routes of a file with one handler, and the theorems on them there.
use core_swag.Base.{◌≡◌, refl, true, false, [], ◌∷◌, none, some, All, if◌then◌else◌}
use core_swag.Base.Text.{
  Text, codes, text_eq, mem, has_prefix, has_suffix, trim_prefix, contains, index, trim_space,
  split, join, fields, to_lower, to_upper,
}
use core_swag.Base.Pattern.{find, is_word, is_blank, not_blank, match_at, span, tries, no_groups}
use core_swag.Spec.{documented, documented-IsDocumented, Swagger}
use core_swag.TypeRegistry.{clean_type, lookup, registry}
use core_swag.Route.Domain.{points, domain_ref, Route, DomainResponse}
use core_swag.Route.TypeNames.{convert_type_to_schema_type, schema_type_of}
use core_swag.Route.Register.{register_routes}
use core_swag.Route.Response.{
  TypeSpecDef, Registry, full_path, qualified, resolve_type_path, is_struct_type,
  has_no_public_annotation, reference_to, build_schema_for_type,
}
use core_swag.Route.Response.Combined.{build_schema}
use core_swag.Route.Response.Parse.{
  atoi, digits, lookup_response, put_response, each_code, existing_headers, set_response,
  default_description, parse_response_with_schema, parse_response,
}
use core_swag.Route.Parameter.{Numbers}
use core_swag.Route.Operation.{
  FuncDecl, AstFile, add_router_path, add_matched_router, parse_router, path_or_word, is_path,
  comment_line, parse_tags, scheme_of, add_scheme, parse_security, backwards,
}
use core_swag.Route.Operation.Parse.{
  Service, context_of, apply, attribute_of, attribute_among, parse_fields, parse_comment,
  parse_comments, new_operation, operation_to_routes, routes_of, routes_of_all, parse_routes,
}
use core_swag.Route.Operation.Routes.{
  IsSoundRoute, parse_routes-IsSoundRoute, register_routes-parse_routes,
}

evaluation : Unit {0}
unfolding text_eq mem has_prefix has_suffix trim_prefix contains index trim_space split join fields
    to_lower to_upper find is_word is_blank not_blank match_at span tries no_groups clean_type
    lookup registry convert_type_to_schema_type schema_type_of full_path qualified resolve_type_path
    is_struct_type has_no_public_annotation reference_to build_schema_for_type build_schema atoi
    digits lookup_response put_response each_code existing_headers set_response default_description
    parse_response_with_schema parse_response add_router_path add_matched_router parse_router
    path_or_word is_path comment_line parse_tags scheme_of add_scheme parse_security context_of
    apply attribute_of attribute_among parse_fields parse_comment parse_comments new_operation
    operation_to_routes routes_of routes_of_all parse_routes
evaluation = tt

-- The registry knows the type and its path.
abbrev account : TypeSpecDef
account = record {
  pkg_path = codes "app/account";
  name = codes "Account";
  is_struct = true;
  declaration_comments = [];
  spec_comments = [];
}

abbrev types : Registry AstFile
types = record {
  find_type_spec = λ t f. if text_eq t (codes "account.Account") then some account else none;
}

abbrev integers : Numbers
integers = record { scan_float = λ t. none; float_of = λ b n. n }

abbrev service : Service
service = record { lib = documented; nums = integers; registry = some types; markdown = λ t. none }

abbrev show : FuncDecl
show = record {
  name = codes "Show";
  doc = some (
      codes "// Show an account."
      ∷ codes "// @Tags a, b"
      ∷ codes "// @Success 200 {object} Account"
      ∷ codes "// @Router /a/{id} [get]"
      ∷ codes "// @DeprecatedRouter /b/{id} [patch]"
      ∷ codes "// @Router /b/{id} [trace]"
      ∷ []);
  line = 7;
}

abbrev file : AstFile
file = record { name = some (codes "account"); decls = none ∷ some show ∷ [] }

abbrev answer : DomainResponse
answer = record {
  description = codes "OK";
  schema = points (domain_ref (codes "#/definitions/account.Account") []);
  headers = [];
}

abbrev route : Route
route = record {
  method = codes "GET";
  path = codes "/a/{id}";
  summary = [];
  description = [];
  tags = codes "a" ∷ codes "b" ∷ [];
  parameters = [];
  responses = (200, answer) ∷ [];
  security = [];
  consumes = [];
  produces = [];
  is_public = false;
  deprecated = false;
  operation_id = [];
  file_path = codes "a.go";
  function_name = codes "Show";
  line_number = 7;
}

abbrev old_route : Route
old_route = record route { method = codes "PATCH"; path = codes "/b/{id}"; deprecated = true }

-- The path of the type is not in the response although the registry has it.
parsed : parse_routes service file (codes "a.go") true ≡ some (route ∷ old_route ∷ [])
unfolding evaluation
parsed = refl

-- A line with its brackets the wrong way round ends the program.
security_fault : scheme_of (codes "key]scope[") ≡ backwards
unfolding evaluation
security_fault = refl

parse_routes-IsSoundRoute_example : All IsSoundRoute (route ∷ old_route ∷ [])
parse_routes-IsSoundRoute_example =
    parse_routes-IsSoundRoute service documented-IsDocumented file (codes "a.go") true
      (route ∷ old_route ∷ []) parsed

abbrev nothing : Swagger
nothing = record { paths = none; parameters = []; responses = []; definitions = none }

register_routes-parse_routes_example :
    (register_routes documented nothing (route ∷ old_route ∷ []) false).1 ≡ none
register_routes-parse_routes_example =
    register_routes-parse_routes service documented-IsDocumented nothing file (codes "a.go") true
      (route ∷ old_route ∷ []) parsed
