-- ===== src/Orchestrator/Refs/First.antt =====
-- The collectors as lists of mentions: the first mention of a type is the one that is kept.
use core_swag.Base.{
  ℕ, ◌≡◌, refl, sym, ap, ◌∙◌, List, [], ◌∷◌, ◌++◌, Option, none, some, Option-cases, Bool-cases,
  inl, inr, if◌then◌else◌, arith,
}
use core_swag.Base.Text.{Text, text_eq, text_eq_iff, trim_prefix}
use core_swag.Route.Domain.{
  DomainSchema, domain, Pointer, null, points, Pointers, no_pointers, pointer, Properties,
  no_properties, property, DomainParameter, DomainResponse, Route,
}
use core_swag.Schema.Cleanup.{definitions_prefix}
use core_swag.Orchestrator.Refs.{
  RefInfo, Refs, lookup_ref, add_name, add_ref, collect_refs_from_schema, collect_pointer,
  collect_properties, collect_pointers, collect_from_parameters, collect_from_responses,
  collect_refs_from_route, route_source, collect_onto, collect_referenced_types,
}

-- The type that a `$ref` mentions, if any.
unfoldable pub ref_mentions : Text → Text → Text → Refs
ref_mentions source ref type_path =
    let name = trim_prefix ref definitions_prefix in
    if text_eq ref []
    then []
    else if text_eq name []
    then []
    else (name, record { source = source; type_path = type_path }) ∷ []

-- The types that a schema mentions, in the order in which they are met.
unfoldable mutual
  pub schema_mentions : Text → DomainSchema → Refs
  schema_mentions source (domain type ref type_path items props addl all required description) =
      ref_mentions source ref type_path
      ++ (pointer_mentions source items
          ++ (pointer_mentions source addl
              ++ (properties_mentions source props ++ pointers_mentions source all)))

  pub pointer_mentions : Text → Pointer → Refs
  pointer_mentions source null = []
  pointer_mentions source (points s) = schema_mentions source s

  pub properties_mentions : Text → Properties → Refs
  properties_mentions source no_properties = []
  properties_mentions source (property k p ps) =
      pointer_mentions source p ++ properties_mentions source ps

  pub pointers_mentions : Text → Pointers → Refs
  pointers_mentions source no_pointers = []
  pointers_mentions source (pointer p ps) = pointer_mentions source p ++ pointers_mentions source ps

unfoldable pub parameters_mentions : Text → List DomainParameter → Refs
parameters_mentions source [] = []
parameters_mentions source (p ∷ ps) =
    pointer_mentions source p.schema ++ parameters_mentions source ps

unfoldable pub responses_mentions : Text → List (ℕ × DomainResponse) → Refs
responses_mentions source [] = []
responses_mentions source ((c, r) ∷ rs) =
    pointer_mentions source r.schema ++ responses_mentions source rs

unfoldable pub route_mentions : Text → Route → Refs
route_mentions source r =
    parameters_mentions source r.parameters ++ responses_mentions source r.responses

-- Every mention in the routes that are not nil, with the place of its route.
unfoldable pub mentions : List (Option Route) → Refs
mentions [] = []
mentions (none ∷ rs) = mentions rs
mentions (some r ∷ rs) = route_mentions (route_source r) r ++ mentions rs

unfoldable pub add_all : Refs → Refs → Refs
add_all [] refs = refs
add_all ((n, i) ∷ ms) refs = add_all ms (add_name n i refs)

add_all-append : (xs ys refs : Refs) → add_all (xs ++ ys) refs ≡ add_all ys (add_all xs refs)
unfolding add_all
add_all-append [] ys refs = refl
add_all-append ((n, i) ∷ xs) ys refs = add_all-append xs ys (add_name n i refs)

add_ref-mentions :
    (source ref type_path : Text) (refs : Refs)
    → add_ref source ref type_path refs ≡ add_all (ref_mentions source ref type_path) refs
unfolding add_ref ref_mentions add_all
add_ref-mentions source ref type_path refs = ground arith

mutual
  unfolding collect_refs_from_schema schema_mentions add_all

  collect_refs_from_schema-mentions :
      (source : Text) (d : DomainSchema) (refs : Refs)
      → collect_refs_from_schema source d refs ≡ add_all (schema_mentions source d) refs
  collect_refs_from_schema-mentions source
        (domain type ref type_path items props addl all required description) refs =
      simp (
        add_all-append,
        add_ref-mentions,
        collect_pointer-mentions source items,
        collect_pointer-mentions source addl,
        collect_properties-mentions source props,
        collect_pointers-mentions source all,
      )

  collect_pointer-mentions :
      (source : Text) (p : Pointer) (refs : Refs)
      → collect_pointer source p refs ≡ add_all (pointer_mentions source p) refs
  collect_pointer-mentions source null refs = refl
  collect_pointer-mentions source (points s) refs = collect_refs_from_schema-mentions source s refs

  collect_properties-mentions :
      (source : Text) (ps : Properties) (refs : Refs)
      → collect_properties source ps refs ≡ add_all (properties_mentions source ps) refs
  collect_properties-mentions source no_properties refs = refl
  collect_properties-mentions source (property k p ps) refs =
      simp
        (add_all-append, collect_pointer-mentions source p, collect_properties-mentions source ps)

  collect_pointers-mentions :
      (source : Text) (ps : Pointers) (refs : Refs)
      → collect_pointers source ps refs ≡ add_all (pointers_mentions source ps) refs
  collect_pointers-mentions source no_pointers refs = refl
  collect_pointers-mentions source (pointer p ps) refs =
      simp (add_all-append, collect_pointer-mentions source p, collect_pointers-mentions source ps)

collect_from_parameters-mentions :
    (source : Text) (ps : List DomainParameter) (refs : Refs)
    → collect_from_parameters source ps refs ≡ add_all (parameters_mentions source ps) refs
unfolding collect_from_parameters parameters_mentions add_all
collect_from_parameters-mentions source [] refs = refl
collect_from_parameters-mentions source (p ∷ ps) refs =
    simp (add_all-append, collect_pointer-mentions, collect_from_parameters-mentions source ps)

collect_from_responses-mentions :
    (source : Text) (rs : List (ℕ × DomainResponse)) (refs : Refs)
    → collect_from_responses source rs refs ≡ add_all (responses_mentions source rs) refs
unfolding collect_from_responses responses_mentions add_all
collect_from_responses-mentions source [] refs = refl
collect_from_responses-mentions source ((c, r) ∷ rs) refs =
    simp (add_all-append, collect_pointer-mentions, collect_from_responses-mentions source rs)

collect_onto-mentions :
    (rs : List (Option Route)) (refs : Refs) → collect_onto rs refs ≡ add_all (mentions rs) refs
unfolding collect_onto mentions add_all collect_refs_from_route route_mentions
collect_onto-mentions [] refs = refl
collect_onto-mentions (none ∷ rs) refs = collect_onto-mentions rs refs
collect_onto-mentions (some r ∷ rs) refs = simp (
  add_all-append,
  collect_from_parameters-mentions,
  collect_from_responses-mentions,
  collect_onto-mentions rs,
)

abbrev or_else : Option RefInfo → Option RefInfo → Option RefInfo
or_else (some i) later = some i
or_else none later = later

lookup_ref-append :
    (n : Text) (xs ys : Refs)
    → lookup_ref n (xs ++ ys) ≡ or_else (lookup_ref n xs) (lookup_ref n ys)
unfolding lookup_ref
lookup_ref-append n [] ys = refl
lookup_ref-append n ((k, i) ∷ xs) ys = ground (arith, lookup_ref-append n xs ys)

or_else-none : (x : Option RefInfo) → or_else x none ≡ x
or_else-none none = refl
or_else-none (some i) = refl

-- Adding a name puts it behind the entries that the map has.
lookup_ref-add_name :
    (n k : Text) (i : RefInfo) (refs : Refs)
    → lookup_ref n (add_name k i refs)
      ≡ or_else (lookup_ref n refs) (if text_eq k n then some i else none)
unfolding add_name
lookup_ref-add_name n k i refs = elim (Option-cases (lookup_ref k refs)) [
  | inl e ↦ rw (e, add_name) (unfold lookup_ref in lookup_ref-append n refs ((k, i) ∷ []))
  | inr (known, e) ↦
      rw (e, add_name)
        (elim (Bool-cases (text_eq k n)) [
          | inl same ↦
              let f : lookup_ref n refs ≡ some known =
                ap (λ t. lookup_ref t refs) (sym ((text_eq_iff k n).0 same)) ∙ e in
              rw f refl
          | inr other ↦ rw other (sym (or_else-none (lookup_ref n refs)))
        ])
]

lookup_ref-add_all :
    (n : Text) (ms refs : Refs)
    → lookup_ref n (add_all ms refs) ≡ or_else (lookup_ref n refs) (lookup_ref n ms)
unfolding add_all lookup_ref
lookup_ref-add_all n [] refs = sym (or_else-none (lookup_ref n refs))
lookup_ref-add_all n ((k, i) ∷ ms) refs =
    ground (arith, lookup_ref-add_all n ms (add_name k i refs), lookup_ref-add_name n k i refs)

-- `CollectReferencedTypes` has an entry for the types that the routes mention and for no other,
-- with the place and the import path of the first mention: the first route, its parameters before
-- its responses, and a schema before its items, additional properties, properties and parts.
pub collect_referenced_types-first :
    (rs : List (Option Route)) (n : Text)
    → lookup_ref n (collect_referenced_types rs) ≡ lookup_ref n (mentions rs)
unfolding collect_referenced_types
collect_referenced_types-first rs n =
    ap (lookup_ref n) (collect_onto-mentions rs [])
    ∙ (unfold lookup_ref in lookup_ref-add_all n (mentions rs) [])
