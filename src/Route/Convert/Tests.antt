-- ===== src/Route/Convert/Tests.antt =====
-- Conversions of one route, and the theorems on them there.
use core_swag.Base.{◌≡◌, refl, false, [], ◌∷◌, none, some, ◌^◌, ◌*◌, ◌+◌}
use core_swag.Base.Text.{codes}
use core_swag.Spec.{number, text, item, documented, is_finite}
use core_swag.Route.Domain.{
  DomainSchema, domain, null, points, no_pointers, pointer, no_properties, property, DomainItems,
  DomainParameter, domain_ref,
}
use core_swag.Route.Convert.{
  parameter_to_spec, float_to_int64, items_of_parameter, simple_parameter, sanitize_enum_values,
  is_infinite,
}
use core_swag.Route.Convert.Finite.{GivesFiniteItems, IsFiniteParameter, parameter_to_spec-IsFinite}

-- `Page{data=[]Account}`, as the parser leaves it
abbrev accounts : DomainSchema
accounts =
    domain (codes "array") [] [] (points (domain_ref (codes "#/definitions/Account") []))
      no_properties null no_pointers [] (codes "the accounts")

abbrev page : DomainSchema
page =
    domain [] [] [] null no_properties null
      (pointer (points (domain_ref (codes "#/definitions/Page") [])) (
        pointer
          (points (
            domain (codes "object") [] [] null
              (property (codes "data") (points accounts) no_properties) null no_pointers [] []))
          no_pointers))
      [] []

-- A query parameter with an infinity as its default and its largest value.
abbrev limit : DomainParameter
limit = record {
  name = codes "limit";
  in_ = codes "query";
  type = codes "number";
  required = false;
  description = [];
  schema = null;
  items = none;
  default = some (number (2047 * 2 ^ 52));
  format = [];
  enum = number (1023 * 2 ^ 52) ∷ number (2047 * 2 ^ 52) ∷ text (codes "all") ∷ [];
  minimum = some (1023 * 2 ^ 52);
  maximum = some (2047 * 2 ^ 52);
  min_length = none;
  max_length = none;
}

limit_enum :
    (parameter_to_spec documented limit).enum ≡ number (1023 * 2 ^ 52) ∷ text (codes "all") ∷ []
unfolding parameter_to_spec simple_parameter sanitize_enum_values is_infinite is_finite
limit_enum = refl

-- An array of numbers with two values
abbrev items : DomainItems
items = record {
  type = codes "number";
  format = [];
  enum = number (1023 * 2 ^ 52) ∷ text (codes "all") ∷ [];
}

abbrev limits : DomainParameter
limits = record limit { type = codes "array"; items = some items }

limits-GivesFiniteItems : GivesFiniteItems limits.items
unfolding is_infinite is_finite
limits-GivesFiniteItems = (refl, (refl, tt))

parameter_to_spec-IsFinite_example : IsFiniteParameter (parameter_to_spec documented limits)
parameter_to_spec-IsFinite_example =
    parameter_to_spec-IsFinite documented limits limits-GivesFiniteItems

-- An infinity in the items stays.
infinite_items :
    (parameter_to_spec documented
      (record limit { items = some (record items { enum = number (2047 * 2 ^ 52) ∷ [] }) })).items
    ≡ some (
        item (record {
          ref = [];
          type = codes "number";
          format = [];
          enum = number (2047 * 2 ^ 52) ∷ [];
        }))
unfolding parameter_to_spec simple_parameter items_of_parameter
infinite_items = refl

-- 300.5 is cut off to 300, and so is its negative.
float_to_int64_up : float_to_int64 (1031 * 2 ^ 52 + 781684581400576) ≡ 300
unfolding float_to_int64
float_to_int64_up = refl
