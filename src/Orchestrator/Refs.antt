-- ===== src/Orchestrator/Refs.antt =====
-- internal/orchestrator/refs.go: the types that the routes refer to, each with the route that
-- names it first and its import path. The map is an association list.
pub mod First
pub mod Agreement
pub mod Tests
use core_swag.Base.{
  ℕ, zero, suc, ◌+◌, ◌/◌, ◌%◌, Bool, true, false, List, [], ◌∷◌, ◌++◌, Option, none, some, drop,
  ltb, if◌then◌else◌,
}
use core_swag.Base.Text.{Text, codes, text_eq, trim_prefix, join, last_index}
use core_swag.Route.Domain.{
  DomainSchema, domain, Pointer, null, points, Pointers, no_pointers, pointer, Properties,
  no_properties, property, DomainParameter, DomainResponse, Route,
}
use core_swag.Schema.Cleanup.{definitions_prefix}

pub record RefInfo : Type 0 where
  pub source : Text
  pub type_path : Text

abbrev pub Refs : Type 0
Refs = List (Text × RefInfo)

-- `refs[typeName]`
unfoldable pub lookup_ref : Text → Refs → Option RefInfo
lookup_ref name [] = none
lookup_ref name ((k, i) ∷ refs) = if text_eq k name then some i else lookup_ref name refs

-- the entry of a name that is not in the map yet
unfoldable pub add_name : Text → RefInfo → Refs → Refs
add_name name info refs = elim (lookup_ref name refs) [
  | some known ↦ refs
  | none ↦ refs ++ (name, info) ∷ []
]

-- the test of a `$ref`, at the head of `collectRefsFromSchema`
unfoldable pub add_ref : Text → Text → Text → Refs → Refs
add_ref source ref type_path refs =
    let name = trim_prefix ref definitions_prefix in
    if text_eq ref []
    then refs
    else if text_eq name []
    then refs
    else add_name name (record { source = source; type_path = type_path }) refs

-- `collectRefsFromSchema`, with one function for each kind of field that holds schemas
unfoldable mutual
  pub collect_refs_from_schema : Text → DomainSchema → Refs → Refs
  collect_refs_from_schema source
        (domain type ref type_path items props addl all required description) refs =
      collect_pointers source all (
        collect_properties source props (
          collect_pointer source addl
            (collect_pointer source items (add_ref source ref type_path refs))))

  pub collect_pointer : Text → Pointer → Refs → Refs
  collect_pointer source null refs = refs
  collect_pointer source (points s) refs = collect_refs_from_schema source s refs

  pub collect_properties : Text → Properties → Refs → Refs
  collect_properties source no_properties refs = refs
  collect_properties source (property k p ps) refs =
      collect_properties source ps (collect_pointer source p refs)

  pub collect_pointers : Text → Pointers → Refs → Refs
  collect_pointers source no_pointers refs = refs
  collect_pointers source (pointer p ps) refs =
      collect_pointers source ps (collect_pointer source p refs)

unfoldable pub collect_from_parameters : Text → List DomainParameter → Refs → Refs
collect_from_parameters source [] refs = refs
collect_from_parameters source (p ∷ ps) refs =
    collect_from_parameters source ps (collect_pointer source p.schema refs)

unfoldable pub collect_from_responses : Text → List (ℕ × DomainResponse) → Refs → Refs
collect_from_responses source [] refs = refs
collect_from_responses source ((c, r) ∷ rs) refs =
    collect_from_responses source rs (collect_pointer source r.schema refs)

-- `collectRefsFromRoute`
unfoldable pub collect_refs_from_route : Text → Route → Refs → Refs
collect_refs_from_route source r refs =
    collect_from_responses source r.responses (collect_from_parameters source r.parameters refs)

-- `%d` of a number; as many steps as the number itself are more than its digits.
unfoldable pub decimal_onto : ℕ → ℕ → Text → Text
decimal_onto zero n t = t
decimal_onto (suc fuel) n t =
    let shorter = decimal_onto fuel (n / 10) ((b'0' + n % 10) ∷ t) in
    if ltb n 10 then (b'0' + n) ∷ t else shorter

unfoldable pub decimal : ℕ → Text
decimal n = decimal_onto (suc n) n []

-- the name of a file without its directories
unfoldable pub base_name : Text → Text
base_name file = elim (last_index file b'/') [ none ↦ file | some i ↦ drop (i + 1) file ]

abbrev non_empty : Text → List Text
non_empty [] = []
non_empty (c ∷ t) = (c ∷ t) ∷ []

-- `routeSource`
unfoldable pub route_source : Route → Text
route_source r =
    let place =
      if ltb 0 r.line_number
      then codes " (" ++ (base_name r.file_path ++ (b':' ∷ (decimal r.line_number ++ codes ")")))
      else codes " (" ++ (base_name r.file_path ++ codes ")") in
    join (non_empty r.method ++ non_empty r.path) (codes " ")
    ++ ((if text_eq r.function_name [] then [] else codes " → " ++ r.function_name)
        ++ (if text_eq r.file_path [] then [] else place))

-- `CollectReferencedTypes`; `none` is a nil pointer
unfoldable pub collect_onto : List (Option Route) → Refs → Refs
collect_onto [] refs = refs
collect_onto (none ∷ rs) refs = collect_onto rs refs
collect_onto (some r ∷ rs) refs = collect_onto rs (collect_refs_from_route (route_source r) r refs)

unfoldable pub collect_referenced_types : List (Option Route) → Refs
collect_referenced_types rs = collect_onto rs []
