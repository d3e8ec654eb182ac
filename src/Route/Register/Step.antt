-- ===== src/Route/Register/Step.antt =====
-- One round of the loop of `RegisterRoutes`.
use core_swag.Base.{
  ◌≡◌, refl, ap, ◌∙◌, Bool, true, false, List, ◌∷◌, Option, none, some, Option-cases, inl, inr,
}
use core_swag.Spec.{Functions, Operation}
use core_swag.Route.Domain.{Route}
use core_swag.Route.Register.{
  Slot, ref_route_method_op, read, write, PathMap, set_path, item_at, registered_operation,
  register_at, register_route, register_all, RegisterError, invalid_method, declared_multiple_times,
  Outcome,
}
use core_swag.Route.Register.Slots.{operation_at}

module _ (lib : Functions) where
  abbrev pub and_then : Bool → List Route → Outcome → Outcome
  and_then strict rs (ps, none) = register_all lib strict rs ps
  and_then strict rs (ps, some e) = (ps, some e)

  pub register_all-step :
      (strict : Bool) (r : Route) (rs : List Route) (ps : PathMap) (o : Outcome)
      → register_route lib strict r ps ≡ o
      → register_all lib strict (r ∷ rs) ps ≡ and_then strict rs o
  unfolding register_all
  register_all-step strict r rs ps o e =
      rounds (register_route lib strict r ps).1 refl ∙ ap (and_then strict rs) e
    where
      rounds :
          (error : Option RegisterError)
          → (register_route lib strict r ps).1 ≡ error
          → register_all lib strict (r ∷ rs) ps
            ≡ and_then strict rs (register_route lib strict r ps)
      rounds none h = rw (h, register_all) refl
      rounds (some x) h = rw (h, register_all) refl

  -- The paths with the operation of a route set.
  unfoldable pub set_route : Route → Slot → PathMap → PathMap
  set_route r t ps = set_path r.path (write t (registered_operation lib r) (item_at r.path ps)) ps

  pub register_route-lenient :
      (r : Route) (t : Slot) (ps : PathMap)
      → ref_route_method_op r.method ≡ some t
      → register_route lib false r ps ≡ (set_route r t ps, none)
  unfolding register_route register_at set_route
  register_route-lenient r t ps m = elim (Option-cases (read t (item_at r.path ps))) [
    | inl e ↦ rw (m, register_route) (rw (e, register_at) refl)
    | inr (o, e) ↦ rw (m, register_route) (rw (e, register_at) refl)
  ]

  pub register_route-free :
      (r : Route) (t : Slot) (ps : PathMap)
      → ref_route_method_op r.method ≡ some t
      → operation_at t r.path ps ≡ none
      → register_route lib true r ps ≡ (set_route r t ps, none)
  unfolding register_route register_at set_route operation_at
  register_route-free r t ps m e = rw (m, register_route) (rw (e, register_at) refl)

  pub register_route-taken :
      (r : Route) (t : Slot) (o : Operation) (ps : PathMap)
      → ref_route_method_op r.method ≡ some t
      → operation_at t r.path ps ≡ some o
      → register_route lib true r ps ≡ (ps, some (declared_multiple_times r.method r.path))
  unfolding register_route register_at operation_at
  register_route-taken r t o ps m e = rw (m, register_route) (rw (e, register_at) refl)

  pub register_route-no_method :
      (strict : Bool) (r : Route) (ps : PathMap)
      → ref_route_method_op r.method ≡ none
      → register_route lib strict r ps ≡ (ps, some (invalid_method r.method))
  unfolding register_route
  register_route-no_method strict r ps m = rw (m, register_route) refl
