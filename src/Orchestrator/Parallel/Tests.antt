-- ===== src/Orchestrator/Parallel/Tests.antt =====
-- Runs of the merge, and the theorems on it there.
use core_swag.Base.{◌≡◌, refl, false, [], ◌∷◌, some}
use core_swag.Base.Text.{codes, text_eq}
use core_swag.Spec.{documented}
use core_swag.Route.Domain.{Route}
use core_swag.Route.Convert.{route_to_spec_operation}
use core_swag.Route.Register.{ref_route_method_op, get, read, item_at, lookup_path}
use core_swag.Route.Register.Slots.{operation_at, declares}
use core_swag.Orchestrator.Parallel.{
  FileRoutes, text_less, add_file, collect_files, insert_file, sort_files, all_routes, count_routes,
  parse_routes_parallel,
}
use core_swag.Orchestrator.Parallel.Order.{swap, EachDiffers, parse_routes_parallel-Reordered}
use core_swag.Orchestrator.Parallel.Merge.{last_of, parse_routes_parallel-last}

evaluation : Unit {0}
unfolding text_eq ref_route_method_op read item_at lookup_path operation_at declares text_less
    add_file collect_files insert_file sort_files all_routes count_routes parse_routes_parallel
    last_of
evaluation = tt

abbrev show : Route
show = record {
  method = codes "GET";
  path = codes "/a";
  summary = [];
  description = [];
  tags = [];
  parameters = [];
  responses = [];
  security = [];
  consumes = [];
  produces = [];
  is_public = false;
  deprecated = false;
  operation_id = [];
  file_path = [];
  function_name = [];
  line_number = 0;
}

abbrev show_again : Route
show_again = record show { summary = codes "again" }

abbrev first : FileRoutes
first = record { file_path = codes "a/b.go"; routes = show ∷ [] }

abbrev second : FileRoutes
second = record { file_path = codes "a/c.go"; routes = show_again ∷ [] }

sorted : (parse_routes_parallel documented (second ∷ first ∷ []) []).0 ≡ show ∷ show_again ∷ []
unfolding evaluation
sorted = refl

differ : EachDiffers (second ∷ first ∷ [])
unfolding evaluation
differ = ((refl, tt), (tt, tt))

parse_routes_parallel-Reordered_example :
    parse_routes_parallel documented (second ∷ first ∷ []) []
    ≡ parse_routes_parallel documented (first ∷ second ∷ []) []
parse_routes_parallel-Reordered_example =
    parse_routes_parallel-Reordered documented (second ∷ first ∷ []) (first ∷ second ∷ []) [] differ
      (swap second first [])

parse_routes_parallel-last_example :
    operation_at get (codes "/a") (parse_routes_parallel documented (second ∷ first ∷ []) []).2
    ≡ some (route_to_spec_operation documented show_again)
unfolding evaluation
parse_routes_parallel-last_example =
    parse_routes_parallel-last documented (second ∷ first ∷ []) [] get (codes "/a")
