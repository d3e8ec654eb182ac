-- ===== src/Route/Register/Parameters.antt =====
-- The parameters of a registered operation.
use core_swag.Base.{
  ◌≡◌, refl, true, List, [], ◌∷◌, ◌++◌, Bool-cases, inl, inr, if◌then◌else◌, arith, All,
}
use core_swag.Base.Text.{Text, codes, text_eq, text_eq_iff, contains}
use core_swag.Spec.{Functions, Parameter}
use core_swag.Route.Domain.{Route}
use core_swag.Route.Convert.{route_to_spec_operation}
use core_swag.Route.Register.{is_valid_in, filter_valid_path_parameters, registered_operation}

-- A path parameter stands in the path in braces.
abbrev pub StandsIn : Text → Parameter → Type 0
StandsIn path p = p.in_ ≡ codes "path" → contains path (codes "{" ++ (p.name ++ codes "}")) ≡ true

-- The parameters that are not in the path, in their order.
unfoldable pub elsewhere : List Parameter → List Parameter
elsewhere [] = []
elsewhere (p ∷ ps) =
    let rest = elsewhere ps in if text_eq p.in_ (codes "path") then rest else p ∷ rest

filter-StandsIn :
    (ps : List Parameter) (path : Text) → All (StandsIn path) (filter_valid_path_parameters ps path)
unfolding filter_valid_path_parameters
filter-StandsIn [] path = tt
filter-StandsIn (p ∷ ps) path = elim (Bool-cases (is_valid_in path p)) [
  | inl v ↦
      let stands : StandsIn path p =
        λ h. unfold is_valid_in in ground (arith, (text_eq_iff p.in_ (codes "path")).1 h) in
      rw v (stands, filter-StandsIn ps path)
  | inr v ↦ rw v (filter-StandsIn ps path)
]

elsewhere-filter :
    (ps : List Parameter) (path : Text)
    → elsewhere (filter_valid_path_parameters ps path) ≡ elsewhere ps
unfolding filter_valid_path_parameters elsewhere is_valid_in
elsewhere-filter [] path = refl
elsewhere-filter (p ∷ ps) path = elim (Bool-cases (text_eq p.in_ (codes "path"))) [
  | inl e ↦ ground (arith, elsewhere-filter ps path)
  | inr e ↦ ground (arith, elsewhere-filter ps path)
]

-- The path parameters of a registered operation all stand in the path of the route in braces, and
-- of its other parameters none is lost or moved.
pub registered_operation-parameters :
    (lib : Functions) (r : Route)
    → All (StandsIn r.path) (registered_operation lib r).parameters
      × (elsewhere (registered_operation lib r).parameters
          ≡ elsewhere (route_to_spec_operation lib r).parameters)
unfolding registered_operation
registered_operation-parameters lib r = (
  filter-StandsIn (route_to_spec_operation lib r).parameters r.path,
  elsewhere-filter (route_to_spec_operation lib r).parameters r.path,
)
