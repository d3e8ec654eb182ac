-- ===== src/Route/Register/Tests.antt =====
-- Runs of `RegisterRoutes`, and the theorems on it there.
use core_swag.Base.{◌≡◌, ◌↔◌, refl, false, true, [], ◌∷◌, none, some, All}
use core_swag.Base.Text.{codes, text_eq, contains, has_prefix}
use core_swag.Spec.{documented, Swagger}
use core_swag.Route.Domain.{null, Route, DomainParameter}
use core_swag.Route.Convert.{route_to_spec_operation, parameter_to_spec, simple_parameter}
use core_swag.Route.Register.{
  declared_multiple_times, register_routes, register_all, register_route, register_at,
  ref_route_method_op, paths_of, item_at, lookup_path, set_path, read, write, registered_operation,
  filter_valid_path_parameters, is_valid_in, get,
}
use core_swag.Route.Register.Slots.{operation_at, declares}
use core_swag.Route.Register.Lenient.{HasMethod, last_declared, register_routes-last}
use core_swag.Route.Register.Strict.{
  EachIsFree, same_place, register_routes-succeeds_iff, register_routes-keeps,
}
use core_swag.Route.Register.Parameters.{StandsIn, elsewhere, registered_operation-parameters}

evaluation : Unit {0}
unfolding text_eq contains has_prefix register_routes register_all register_route register_at
    ref_route_method_op paths_of item_at lookup_path set_path read write operation_at same_place
    declares last_declared
evaluation = tt

abbrev id_of_account : DomainParameter
id_of_account = record {
  name = codes "id";
  in_ = codes "path";
  type = codes "string";
  required = true;
  description = [];
  schema = null;
  items = none;
  default = none;
  format = [];
  enum = [];
  minimum = none;
  maximum = none;
  min_length = none;
  max_length = none;
}

abbrev show : Route
show = record {
  method = codes "GET";
  path = codes "/a/{id}";
  summary = [];
  description = [];
  tags = [];
  parameters =
      id_of_account
      ∷ record id_of_account { name = codes "team" }
      ∷ record id_of_account { in_ = codes "query" }
      ∷ [];
  responses = [];
  security = [];
  consumes = [];
  produces = [];
  is_public = false;
  deprecated = false;
  operation_id = [];
  file_path = [];
  function_name = [];
  line_number = 0;
}

abbrev replace : Route
replace = record show { method = codes "PUT" }

abbrev show_again : Route
show_again = record show { summary = codes "again" }

abbrev nothing : Swagger
nothing = record { paths = none; parameters = []; responses = []; definitions = none }

abbrev first : Swagger
first = (register_routes documented nothing (show ∷ []) true).0

parameters_of_show :
    (registered_operation documented show).parameters
    ≡ parameter_to_spec documented id_of_account
      ∷ parameter_to_spec documented (record id_of_account { in_ = codes "query" })
      ∷ []
unfolding registered_operation filter_valid_path_parameters is_valid_in route_to_spec_operation
    parameter_to_spec simple_parameter text_eq contains has_prefix
parameters_of_show = refl

registered_operation-parameters_example :
    All (StandsIn show.path) (registered_operation documented show).parameters
    × (elsewhere (registered_operation documented show).parameters
        ≡ elsewhere (route_to_spec_operation documented show).parameters)
registered_operation-parameters_example = registered_operation-parameters documented show

second_is_refused :
    (register_routes documented nothing (show ∷ show_again ∷ []) true).1
    ≡ some (declared_multiple_times (codes "GET") (codes "/a/{id}"))
unfolding evaluation
second_is_refused = refl

show-HasMethod : (r : Route) → r.method ≡ codes "GET" → HasMethod r
unfolding evaluation
show-HasMethod r h = rw (h, HasMethod) (get, refl)

register_routes-last_example :
    ((register_routes documented nothing (show ∷ show_again ∷ []) false).1 ≡ none)
    × (operation_at get
          (codes "/a/{id}")
          (paths_of (register_routes documented nothing (show ∷ show_again ∷ []) false).0)
        ≡ some (registered_operation documented show_again))
unfolding evaluation
register_routes-last_example =
    register_routes-last documented nothing (show ∷ show_again ∷ []) get (codes "/a/{id}")
      ((get, refl), ((get, refl), tt))

register_routes-succeeds_iff_example :
    ((register_routes documented nothing (show ∷ replace ∷ []) true).1 ≡ none)
    ↔ EachIsFree (paths_of nothing) (show ∷ replace ∷ [])
register_routes-succeeds_iff_example =
    register_routes-succeeds_iff documented nothing (show ∷ replace ∷ [])

register_routes-keeps_example :
    operation_at get
      (codes "/a/{id}")
      (paths_of (register_routes documented first (replace ∷ show_again ∷ []) true).0)
    ≡ some (registered_operation documented show)
register_routes-keeps_example =
    register_routes-keeps documented first (replace ∷ show_again ∷ []) get (codes "/a/{id}")
      (registered_operation documented show) (unfold evaluation in refl)
