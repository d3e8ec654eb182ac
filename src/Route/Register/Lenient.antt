-- ===== src/Route/Register/Lenient.antt =====
-- Without `strict`, a route that is declared again replaces the earlier one.
use core_swag.Base.{◌≡◌, refl, false, List, [], ◌∷◌, Option, none, some, if◌then◌else◌, All}
use core_swag.Base.Text.{Text}
use core_swag.Spec.{Functions, Operation, Swagger}
use core_swag.Route.Domain.{Route}
use core_swag.Route.Register.{
  Slot, ref_route_method_op, PathMap, registered_operation, register_all, register_routes, paths_of,
}
use core_swag.Route.Register.Step.{set_route, register_all-step, register_route-lenient}
use core_swag.Route.Register.Slots.{operation_at, declares, operation_at-set}

-- The method is one that a path item has a field for.
abbrev pub HasMethod : Route → Type 0
HasMethod r = (t : Slot) × (ref_route_method_op r.method ≡ some t)

module _ (lib : Functions) where
  -- The last route of a method and path, or what was there before.
  unfoldable pub last_declared : Slot → Text → List Route → Option Operation → Option Operation
  last_declared s q [] o = o
  last_declared s q (r ∷ rs) o =
      last_declared s q rs (if declares s q r then some (registered_operation lib r) else o)

  register_all-last :
      (rs : List Route) (ps : PathMap) (s : Slot) (q : Text)
      → All HasMethod rs
      → ((register_all lib false rs ps).1 ≡ none)
        × (operation_at s q (register_all lib false rs ps).0
            ≡ last_declared s q rs (operation_at s q ps))
  unfolding last_declared
  register_all-last [] ps s q h = unfold register_all in (refl, refl)
  register_all-last (r ∷ rs) ps s q h =
      let (t, e) = h.0 in
      let after = set_route lib r t ps in
      let step =
        register_all-step lib false r rs ps (after, none) (register_route-lenient lib r t ps e) in
      let at : operation_at s q after
          ≡ (if declares s q r then some (registered_operation lib r) else operation_at s q ps) =
        unfold declares set_route in
        rw (e, declares) (operation_at-set s t r.path q (registered_operation lib r) ps) in
      rw (step, ← at) (register_all-last rs after s q h.1)

-- If every route has one of the seven methods, `RegisterRoutes` without `strict` returns no error,
-- and then each method at each path has the operation of the last route that declares it, or the
-- operation that it had before if no route does.
pub register_routes-last :
    (lib : Functions) (sw : Swagger) (rs : List Route) (s : Slot) (q : Text)
    → All HasMethod rs
    → ((register_routes lib sw rs false).1 ≡ none)
      × (operation_at s q (paths_of (register_routes lib sw rs false).0)
          ≡ last_declared lib s q rs (operation_at s q (paths_of sw)))
unfolding register_routes paths_of
register_routes-last lib sw rs s q h = register_all-last lib rs (paths_of sw) s q h
