-- ===== src/Route/Parameter/Tests.antt =====
-- Runs of the parameter annotation, and the theorems on it there.
use core_swag.Base.{◌≡◌, ℕ, refl, true, false, [], ◌∷◌, none, some}
use core_swag.Base.Text.{
  codes, text_eq, mem, has_prefix, trim_prefix, contains, index, trim_space, split, to_lower,
}
use core_swag.Base.Pattern.{
  find, find_all, is_word, is_blank, not_blank, match_at, span, tries, no_groups,
}
use core_swag.Spec.{number, text}
use core_swag.TypeRegistry.{clean_type, is_extended_primitive, lookup, registry}
use core_swag.Route.Domain.{
  null, points, domain, no_properties, no_pointers, domain_ref, DomainParameter,
}
use core_swag.Route.Domain.Each.{EachAt}
use core_swag.Route.TypeNames.{convert_type, is_model_type, is_primitive_type}
use core_swag.Route.Response.{Context, qualified, resolve_type_path}
use core_swag.Route.Response.Located.{Located}
use core_swag.Route.Parameter.{
  Numbers, scan_int, scan_signed, signed, digit_onto, leading_digits, skip_space, drop_quotes, flip,
  trim_quotes, parse_finite_float, enum_value, enum_values, default_value, finite_or, int_or,
  set_attribute, set_attributes, parse_param_attributes, map_value, build_map_param_schema,
  body_schema, param_of, parse_matched_param, parse_param,
}
use core_swag.Route.Parameter.Located.{param_of-Located}
use core_swag.Route.Parameter.Fractions.{default_value-fraction}

evaluation : Unit {0}
unfolding text_eq mem has_prefix trim_prefix contains index trim_space split to_lower find find_all
    is_word is_blank not_blank match_at span tries no_groups clean_type is_extended_primitive lookup
    registry convert_type is_model_type is_primitive_type qualified resolve_type_path scan_int
    scan_signed signed digit_onto leading_digits skip_space drop_quotes flip trim_quotes
    parse_finite_float enum_value enum_values default_value finite_or int_or set_attribute
    set_attributes parse_param_attributes map_value build_map_param_schema body_schema param_of
    parse_matched_param parse_param
evaluation = tt

-- No floating-point number is found, and an integer is kept as it is.
abbrev integers : Numbers
integers = record { scan_float = λ t. none; float_of = λ b n. n }

abbrev in_account : Context ℕ
in_account = record {
  registry = none;
  package_name = codes "account";
  is_public = false;
  ast_file = none;
}

abbrev body : DomainParameter
body = record {
  name = codes "rows";
  in_ = codes "body";
  type = [];
  required = true;
  description = codes "the rows";
  schema = points (
      domain (codes "array") [] [] (points (domain_ref (codes "#/definitions/account.Row") []))
        no_properties null no_pointers [] []);
  items = none;
  default = none;
  format = [];
  enum = number 1 ∷ text (codes "a") ∷ [];
  minimum = none;
  maximum = none;
  min_length = some 2;
  max_length = none;
}

parse_body :
    parse_param integers in_account
      (codes "rows body []Row true \"the rows\" Enums(1, 'a') MinLength(2)")
    ≡ some body
unfolding evaluation
parse_body = refl

param_of-Located_example :
    EachAt
      (Located {File = ℕ} none)
      (param_of integers in_account
        (codes "rows")
        (codes "body")
        (codes "map[string]Row")
        (codes "true")
        (codes "the rows")
        []).schema
param_of-Located_example =
    param_of-Located integers in_account (codes "rows") (codes "body") (codes "map[string]Row")
      (codes "true") (codes "the rows") []

default_value-fraction_example :
    (enum_value integers (codes "1.5") ≡ number 1)
    × (default_value integers (codes "1.5") ≡ number 1)
default_value-fraction_example =
    default_value-fraction integers (codes "1") (codes "5") false 1 (unfold evaluation in refl)
