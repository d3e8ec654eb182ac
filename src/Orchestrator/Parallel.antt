-- ===== src/Orchestrator/Parallel.antt =====
-- internal/orchestrator/routes_parallel.go: the routes of all files, which are parsed at the same
-- time, are merged into the paths of the specification in the order of the files' paths. What
-- `ParseRoutes` returns for each file is an argument, in the order in which the files are done.
pub mod Order
pub mod Merge
pub mod Tests
use core_swag.Base.{
  ℕ, zero, suc, ◌+◌, Bool, true, false, List, [], ◌∷◌, ◌++◌, Option, none, some, ltb, if◌then◌else◌,
}
use core_swag.Base.Text.{Text}
use core_swag.Spec.{Functions, PathItem}
use core_swag.Route.Domain.{Route}
use core_swag.Route.Convert.{route_to_spec_operation}
use core_swag.Route.Register.{PathMap, ref_route_method_op, write, set_path, item_at}

-- `fileRoutes`
pub record FileRoutes : Type 0 where
  pub file_path : Text
  pub routes : List Route

-- `a < b` on strings
unfoldable pub text_less : Text → Text → Bool
text_less a [] = false
text_less [] (y ∷ b) = true
text_less (x ∷ a) (y ∷ b) =
    let rest = text_less a b in if ltb x y then true else if ltb y x then false else rest

-- the files that have routes
unfoldable pub add_file : FileRoutes → List Route → List FileRoutes → List FileRoutes
add_file f [] done = done
add_file f (r ∷ rs) done = f ∷ done

unfoldable pub collect_files : List FileRoutes → List FileRoutes
collect_files [] = []
collect_files (f ∷ fs) = add_file f f.routes (collect_files fs)

-- `sort.Slice` by the path
unfoldable pub insert_file : FileRoutes → List FileRoutes → List FileRoutes
insert_file f [] = f ∷ []
insert_file f (g ∷ gs) =
    let rest = insert_file f gs in
    if text_less f.file_path g.file_path then f ∷ g ∷ gs else g ∷ rest

unfoldable pub sort_files : List FileRoutes → List FileRoutes
sort_files [] = []
sort_files (f ∷ fs) = insert_file f (sort_files fs)

unfoldable pub all_routes : List FileRoutes → List Route
all_routes [] = []
all_routes (f ∷ fs) = f.routes ++ all_routes fs

module _ (lib : Functions) where
  -- the path item with the operation of a route; the switch has the cases of `refRouteMethodOp`
  unfoldable pub set_operation : Route → PathItem → PathItem
  set_operation r item = elim (ref_route_method_op r.method) [
    | none ↦ item
    | some slot ↦ write slot (route_to_spec_operation lib r) item
  ]

  -- the loop over the routes
  unfoldable pub merge_routes : List Route → PathMap → PathMap
  merge_routes [] ps = ps
  merge_routes (r ∷ rs) ps =
      merge_routes rs (set_path r.path (set_operation r (item_at r.path ps)) ps)

  unfoldable pub count_routes : List Route → ℕ
  count_routes [] = 0
  count_routes (r ∷ rs) = count_routes rs + 1

  -- `parseRoutesParallel`: the routes, their number and the paths
  unfoldable pub parse_routes_parallel : List FileRoutes → PathMap → List Route × ℕ × PathMap
  parse_routes_parallel files ps =
      let rs = all_routes (sort_files (collect_files files)) in
      (rs, count_routes rs, merge_routes rs ps)
