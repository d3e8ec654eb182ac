-- ===== src/Route/Register/Strict.antt =====
-- With `strict`, a method and path is declared once.
use core_swag.Base.{
  ◌≡◌, ◌↔◌, refl, sym, ap, ◌∙◌, Bool, true, false, List, [], ◌∷◌, none, some, Option-cases,
  Bool-cases, inl, inr, if◌then◌else◌, arith, ◌&&◌, All,
}
use core_swag.Base.Text.{Text, text_eq, text_eq_iff}
use core_swag.Spec.{Functions, Operation, Swagger}
use core_swag.Route.Domain.{Route}
use core_swag.Route.Register.{
  Slot, ref_route_method_op, PathMap, registered_operation, register_all, register_routes, paths_of,
}
use core_swag.Route.Register.Step.{
  set_route, register_all-step, register_route-free, register_route-taken, register_route-no_method,
}
use core_swag.Route.Register.Slots.{operation_at, operation_at-set, same_slot, same_slot_iff}

-- The methods are the same of the seven, and the paths are the same.
unfoldable pub same_place : Route → Route → Bool
same_place r x = elim (ref_route_method_op r.method) [
  | none ↦ false
  | some t ↦ elim (ref_route_method_op x.method) [
    | none ↦ false
    | some u ↦ same_slot t u && text_eq r.path x.path
  ]
]

-- The method is one of the seven, and has no operation at the path yet.
abbrev pub IsFree : PathMap → Route → Type 0
IsFree ps r =
    (t : Slot) × (ref_route_method_op r.method ≡ some t) × (operation_at t r.path ps ≡ none)

-- No route is at a place that is taken or that an earlier one declares.
abbrev pub EachIsFree : PathMap → List Route → Type 0
EachIsFree ps [] = Unit
EachIsFree ps (r ∷ rs) = IsFree ps r × All (λ x. same_place r x ≡ false) rs × EachIsFree ps rs

module _ (lib : Functions) where
  set_route-other :
      (r : Route) (t u : Slot) (q : Text) (ps : PathMap)
      → operation_at u q (set_route lib r t ps) ≡ (
          if same_slot t u && text_eq r.path q
          then some (registered_operation lib r)
          else operation_at u q ps)
  unfolding set_route
  set_route-other r t u q ps = operation_at-set u t r.path q (registered_operation lib r) ps

  IsFree-before :
      (r x : Route) (t : Slot) (ps : PathMap)
      → ref_route_method_op r.method ≡ some t
      → IsFree (set_route lib r t ps) x
      → IsFree ps x × (same_place r x ≡ false)
  unfolding same_place
  IsFree-before r x t ps m (u, k, f) =
      let e = set_route-other r t u x.path ps in
      ((u, k, ground arith), rw (m, same_place) (rw (k, same_place) (ground arith)))

  IsFree-after :
      (r x : Route) (t : Slot) (ps : PathMap)
      → ref_route_method_op r.method ≡ some t
      → IsFree ps x
      → same_place r x ≡ false
      → IsFree (set_route lib r t ps) x
  unfolding same_place
  IsFree-after r x t ps m (u, k, f) apart =
      let e = set_route-other r t u x.path ps in (u, k, ground arith)

  each_before :
      (r : Route) (t : Slot) (ps : PathMap) (xs : List Route)
      → ref_route_method_op r.method ≡ some t
      → EachIsFree (set_route lib r t ps) xs
      → All (λ x. same_place r x ≡ false) xs × EachIsFree ps xs
  each_before r t ps [] m h = (tt, tt)
  each_before r t ps (x ∷ xs) m (free, apart, later) =
      let (f, a) = IsFree-before r x t ps m free in
      let (apart_all, rest) = each_before r t ps xs m later in ((a, apart_all), (f, apart, rest))

  each_after :
      (r : Route) (t : Slot) (ps : PathMap) (xs : List Route)
      → ref_route_method_op r.method ≡ some t
      → All (λ x. same_place r x ≡ false) xs
      → EachIsFree ps xs
      → EachIsFree (set_route lib r t ps) xs
  each_after r t ps [] m apart_all h = tt
  each_after r t ps (x ∷ xs) m (a, apart_all) (free, apart, later) =
      (IsFree-after r x t ps m free a, apart, each_after r t ps xs m apart_all later)

  succeeds :
      (rs : List Route) (ps : PathMap) → (register_all lib true rs ps).1 ≡ none → EachIsFree ps rs
  succeeds [] ps h = tt
  succeeds (r ∷ rs) ps h = elim (Option-cases (ref_route_method_op r.method)) [
    | inl m ↦
        let step =
          register_all-step lib true r rs ps _ (register_route-no_method lib true r ps m) in
        absurd (ground arith)
    | inr (t, m) ↦ elim (Option-cases (operation_at t r.path ps)) [
      | inl e ↦
          let step = register_all-step lib true r rs ps _ (register_route-free lib r t ps m e) in
          let (apart_all, rest) =
            each_before r t ps rs m
              (succeeds rs (set_route lib r t ps) (ap (λ o. o.1) (sym step) ∙ h)) in
          ((t, m, e), apart_all, rest)
      | inr (o, e) ↦
          let step = register_all-step lib true r rs ps _ (register_route-taken lib r t o ps m e) in
          absurd (ground arith)
    ]
  ]

  free_succeeds :
      (rs : List Route) (ps : PathMap) → EachIsFree ps rs → (register_all lib true rs ps).1 ≡ none
  free_succeeds [] ps h = unfold register_all in refl
  free_succeeds (r ∷ rs) ps ((t, m, e), apart_all, later) =
      let step = register_all-step lib true r rs ps _ (register_route-free lib r t ps m e) in
      ap (λ o. o.1) step
      ∙ free_succeeds rs (set_route lib r t ps) (each_after r t ps rs m apart_all later)

  set_route-keeps :
      (r : Route) (t s : Slot) (q : Text) (ps : PathMap) (o : Operation)
      → operation_at t r.path ps ≡ none
      → operation_at s q ps ≡ some o
      → operation_at s q (set_route lib r t ps) ≡ some o
  set_route-keeps r t s q ps o e h = elim (Bool-cases (same_slot t s && text_eq r.path q)) [
    | inl same ↦
        let slots : t ≡ s = same_slot_iff t s (ground arith) in
        let places : r.path ≡ q = (text_eq_iff r.path q).0 (ground arith) in
        let free : operation_at s q ps ≡ none = rw (← slots, ← places) e in absurd (ground arith)
    | inr other ↦ rw (set_route-other r t s q ps, other) h
  ]

  keeps :
      (rs : List Route) (ps : PathMap) (s : Slot) (q : Text) (o : Operation)
      → operation_at s q ps ≡ some o
      → operation_at s q (register_all lib true rs ps).0 ≡ some o
  keeps [] ps s q o h = unfold register_all in h
  keeps (r ∷ rs) ps s q o h = elim (Option-cases (ref_route_method_op r.method)) [
    | inl m ↦ rw (register_all-step lib true r rs ps _ (register_route-no_method lib true r ps m)) h
    | inr (t, m) ↦ elim (Option-cases (operation_at t r.path ps)) [
      | inl e ↦
          rw (register_all-step lib true r rs ps _ (register_route-free lib r t ps m e))
            (keeps rs (set_route lib r t ps) s q o (set_route-keeps r t s q ps o e h))
      | inr (x, e) ↦
          rw (register_all-step lib true r rs ps _ (register_route-taken lib r t x ps m e)) h
    ]
  ]

-- `RegisterRoutes` with `strict` returns no error exactly if every route has one of the seven
-- methods, at a path where that method has no operation yet, and no two routes have the same method
-- and path.
pub register_routes-succeeds_iff :
    (lib : Functions) (sw : Swagger) (rs : List Route)
    → ((register_routes lib sw rs true).1 ≡ none) ↔ EachIsFree (paths_of sw) rs
unfolding register_routes
register_routes-succeeds_iff lib sw rs =
    (succeeds lib rs (paths_of sw), free_succeeds lib rs (paths_of sw))

-- With `strict`, `RegisterRoutes` never replaces an operation that the specification has, whether it
-- returns an error or not.
pub register_routes-keeps :
    (lib : Functions) (sw : Swagger) (rs : List Route) (s : Slot) (q : Text) (o : Operation)
    → operation_at s q (paths_of sw) ≡ some o
    → operation_at s q (paths_of (register_routes lib sw rs true).0) ≡ some o
unfolding register_routes
register_routes-keeps lib sw rs s q o h = unfold paths_of in keeps lib rs (paths_of sw) s q o h
