-- ===== src/Orchestrator/Refs/Agreement.antt =====
-- What the orchestrator collects from the routes is what the cleanup later marks as used by their
-- operations.
use core_swag.Base.{
  ℕ, ◌≡◌, refl, ap, Bool, true, false, ◌||◌, [], ◌∷◌, ◌++◌, Option, none, some, inl, inr, arith,
}
use core_swag.Base.Text.{Text, has_prefix, text_eq, trim_prefix, mem, mem-append}
use core_swag.Spec.{Functions, IsDocumented}
use core_swag.Route.Domain.{
  DomainSchema, domain, Pointer, null, points, Pointers, no_pointers, pointer, Properties,
  no_properties, property, Route,
}
use core_swag.Route.Domain.Each.{EachRef, EachAt, EachPart, EachProperty}
use core_swag.Route.Convert.{
  ref_of, schema_to_spec, items_to_spec, additional_to_spec, list_to_spec, properties_to_spec,
}
use core_swag.Route.Convert.RoundTrip.{IsPlainRef, ref_of-IsPlainRef}
use core_swag.Schema.Cleanup.{definitions_prefix, get_ref_name}
use core_swag.Schema.Cleanup.Names.{
  ref_names, schema_names, list_names, fields_names, items_names, additional_names,
}
use core_swag.Orchestrator.Refs.{RefInfo, Refs, lookup_ref}
use core_swag.Orchestrator.Refs.First.{
  ref_mentions, schema_mentions, pointer_mentions, properties_mentions, pointers_mentions,
}

-- No reference, or one to a definition with a plain name, whatever its path.
abbrev pub AtDefinition : Text → Text → Type 0
AtDefinition ref type_path = IsPlainRef ref

abbrev is_some : Option RefInfo → Bool
is_some none = false
is_some (some i) = true

unfoldable pub is_known : Text → Refs → Bool
is_known n refs = is_some (lookup_ref n refs)

is_known-append :
    (n : Text) (xs ys : Refs) → is_known n (xs ++ ys) ≡ (is_known n xs || is_known n ys)
unfolding is_known lookup_ref
is_known-append n [] ys = refl
is_known-append n ((k, i) ∷ xs) ys = ground (arith, is_known-append n xs ys)

get_ref_name-append :
    (c : ℕ) (name : Text) → get_ref_name (definitions_prefix ++ c ∷ name) ≡ c ∷ name
unfolding get_ref_name text_eq
get_ref_name-append c name = ground arith

known_ref :
    (source ref type_path n : Text)
    → IsPlainRef ref
    → is_known n (ref_mentions source ref type_path) ≡ mem n (ref_names ref)
unfolding is_known lookup_ref ref_mentions ref_names mem text_eq get_ref_name trim_prefix has_prefix
known_ref source ref type_path n (inl e) = rw e refl
known_ref source ref type_path n (inr ([], plain, e)) = rw e refl
known_ref source ref type_path n (inr (c ∷ name, plain, e)) = rw e (ground arith)

module _ (lib : Functions) (doc : IsDocumented lib) (source n : Text) where
  mutual
    unfolding schema_to_spec schema_mentions schema_names EachRef mem is_known lookup_ref

    known_schema :
        (d : DomainSchema)
        → EachRef AtDefinition d
        → is_known n (schema_mentions source d) ≡ mem n (schema_names (schema_to_spec lib d))
    known_schema (domain type ref type_path items props addl all required description) h =
        let left : is_known n (
              schema_mentions source
                (domain type ref type_path items props addl all required description))
            ≡ (is_known n (ref_mentions source ref type_path)
                || (is_known n (pointer_mentions source items)
                    || (is_known n (pointer_mentions source addl)
                        || (is_known n (properties_mentions source props)
                            || is_known n (pointers_mentions source all))))) =
          simp is_known-append in
        let right : mem n (
              schema_names (
                schema_to_spec lib
                  (domain type ref type_path items props addl all required description)))
            ≡ (mem n (ref_names (ref_of lib ref))
                || (mem n (items_names (items_to_spec lib items))
                    || (mem n (fields_names (properties_to_spec lib props))
                        || (mem n (additional_names (additional_to_spec lib addl))
                            || (mem n (list_names (list_to_spec lib all)) || false))))) =
          simp mem-append in
        ground (
          arith,
          left,
          right,
          known_ref source ref type_path n h.0,
          ap (λ t. mem n (ref_names t)) (ref_of-IsPlainRef lib doc ref h.0),
          known_items items h.1,
          known_properties props h.2,
          known_additional addl h.3,
          known_parts all h.4,
        )

    known_items :
        (p : Pointer)
        → EachAt AtDefinition p
        → is_known n (pointer_mentions source p) ≡ mem n (items_names (items_to_spec lib p))
    known_items null h = refl
    known_items (points s) h =
        ground (arith, known_schema s h, mem-append n (schema_names (schema_to_spec lib s)) [])

    known_additional :
        (p : Pointer)
        → EachAt AtDefinition p
        → is_known n (pointer_mentions source p)
          ≡ mem n (additional_names (additional_to_spec lib p))
    known_additional null h = refl
    known_additional (points s) h = known_schema s h

    known_properties :
        (ps : Properties)
        → EachProperty AtDefinition ps
        → is_known n (properties_mentions source ps)
          ≡ mem n (fields_names (properties_to_spec lib ps))
    known_properties no_properties h = refl
    known_properties (property k null ps) h = known_properties ps h.1
    known_properties (property k (points s) ps) h =
        simp (is_known-append, mem-append, known_schema s h.0, known_properties ps h.1)

    known_parts :
        (ps : Pointers)
        → EachPart AtDefinition ps
        → is_known n (pointers_mentions source ps) ≡ mem n (list_names (list_to_spec lib ps))
    known_parts no_pointers h = refl
    known_parts (pointer null ps) h = known_parts ps h.1
    known_parts (pointer (points s) ps) h =
        simp (is_known-append, mem-append, known_schema s h.0, known_parts ps h.1)
