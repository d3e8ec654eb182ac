-- ===== src/Orchestrator/Parallel/Merge.antt =====
-- What the merged paths hold.
use core_swag.Base.{
  ◌≡◌, refl, ap, ◌∙◌, Bool, true, false, List, [], ◌∷◌, Option, some, Option-cases, inl, inr,
  if◌then◌else◌,
}
use core_swag.Base.Text.{Text, text_eq, text_eq_iff}
use core_swag.Spec.{Functions, Operation}
use core_swag.Route.Domain.{Route}
use core_swag.Route.Convert.{route_to_spec_operation}
use core_swag.Route.Register.{Slot, PathMap, ref_route_method_op, read, set_path, item_at}
use core_swag.Route.Register.Slots.{operation_at, declares, operation_at-set, item_at-set_path}
use core_swag.Orchestrator.Parallel.{
  FileRoutes, all_routes, sort_files, collect_files, set_operation, merge_routes,
  parse_routes_parallel,
}

-- A path item that is put back.
item_kept :
    (path q : Text) (ps : PathMap) → item_at q (set_path path (item_at path ps) ps) ≡ item_at q ps
item_kept path q ps = item_at-set_path path q (item_at path ps) ps ∙ chosen (text_eq path q) refl
  where
    chosen :
        (b : Bool)
        → text_eq path q ≡ b
        → (if b then item_at path ps else item_at q ps) ≡ item_at q ps
    chosen true e = ap (λ t. item_at t ps) ((text_eq_iff path q).0 e)
    chosen false e = refl

module _ (lib : Functions) where
  -- The last route of a method and path, or what was there before.
  unfoldable pub last_of : Slot → Text → List Route → Option Operation → Option Operation
  last_of s q [] o = o
  last_of s q (r ∷ rs) o =
      last_of s q rs (if declares s q r then some (route_to_spec_operation lib r) else o)

  -- One route sets the operation of its method and path, if its method has a field, and no other.
  operation_at-merged :
      (s : Slot) (q : Text) (r : Route) (ps : PathMap)
      → operation_at s q (set_path r.path (set_operation lib r (item_at r.path ps)) ps)
        ≡ (if declares s q r then some (route_to_spec_operation lib r) else operation_at s q ps)
  unfolding set_operation declares
  operation_at-merged s q r ps = elim (Option-cases (ref_route_method_op r.method)) [
    | inl e ↦ rw (e, set_operation) (unfold operation_at in ap (read s) (item_kept r.path q ps))
    | inr (t, e) ↦
        rw (e, set_operation) (operation_at-set s t r.path q (route_to_spec_operation lib r) ps)
  ]

  merge_routes-last :
      (rs : List Route) (ps : PathMap) (s : Slot) (q : Text)
      → operation_at s q (merge_routes lib rs ps) ≡ last_of s q rs (operation_at s q ps)
  unfolding merge_routes last_of
  merge_routes-last [] ps s q = refl
  merge_routes-last (r ∷ rs) ps s q =
      merge_routes-last rs (set_path r.path (set_operation lib r (item_at r.path ps)) ps) s q
      ∙ ap (last_of s q rs) (operation_at-merged s q r ps)

  -- In the paths that `parseRoutesParallel` leaves, each method at each path has the operation of the
  -- last route that declares it among the routes that it returns, or the operation that it had before
  -- if none does.
  pub parse_routes_parallel-last :
      (files : List FileRoutes) (ps : PathMap) (s : Slot) (q : Text)
      → operation_at s q (parse_routes_parallel lib files ps).2
        ≡ last_of s q (parse_routes_parallel lib files ps).0 (operation_at s q ps)
  unfolding parse_routes_parallel
  parse_routes_parallel-last files ps s q =
      merge_routes-last (all_routes (sort_files (collect_files files))) ps s q
