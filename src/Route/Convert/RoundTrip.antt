-- ===== src/Route/Convert/RoundTrip.antt =====
-- A schema that is converted for the specification is read back as it was.
use core_swag.Base.{◌≡◌, ◌⊎◌, inl, inr, refl, ap, [], ◌∷◌, ◌++◌}
use core_swag.Base.Text.{Text, codes}
use core_swag.Spec.{Functions, IsDocumented, IsPlainName}
use core_swag.Route.Domain.{
  DomainSchema, domain, Pointer, null, points, Pointers, no_pointers, pointer, Properties,
  no_properties, property,
}
use core_swag.Route.Convert.{
  ref_of, schema_to_spec, items_to_spec, additional_to_spec, list_to_spec, properties_to_spec,
  convert_spec_schema_to_domain, convert_all_of, convert_properties, convert_items,
  convert_additional, text_list, first_type,
}

-- No reference, or one to a definition.
abbrev pub IsRef : Text → Type 0
IsRef ref = (ref ≡ []) ⊎ ((name : Text) × (ref ≡ codes "#/definitions/" ++ name))

-- No reference, or one to a definition with a plain name.
abbrev pub IsPlainRef : Text → Type 0
IsPlainRef ref =
    (ref ≡ []) ⊎ ((name : Text) × IsPlainName name × (ref ≡ codes "#/definitions/" ++ name))

-- What the specification can express: no resolved path, references to definitions with plain names, no null pointer
-- in a list or a map, and nothing beside the parts of a composition.
unfoldable mutual
  pub IsCanonical : DomainSchema → Type 0
  IsCanonical (domain type ref type_path items props addl no_pointers required description) =
      (type_path ≡ []) × IsPlainRef ref × AllowsNull items × EachProperty props × AllowsNull addl
  IsCanonical (domain type ref type_path items props addl (pointer p ps) required description) =
      (domain type ref type_path items props addl no_pointers required description
        ≡ domain [] [] [] null no_properties null no_pointers [] [])
      × NotNull p
      × EachPart ps

  pub AllowsNull : Pointer → Type 0
  AllowsNull null = Unit
  AllowsNull (points s) = IsCanonical s

  pub NotNull : Pointer → Type 0
  NotNull null = ⊥
  NotNull (points s) = IsCanonical s

  pub EachPart : Pointers → Type 0
  EachPart no_pointers = Unit
  EachPart (pointer p ps) = NotNull p × EachPart ps

  pub EachProperty : Properties → Type 0
  EachProperty no_properties = Unit
  EachProperty (property k p ps) = NotNull p × EachProperty ps

first_type-text_list : (t : Text) → first_type (text_list t) ≡ t
first_type-text_list [] = refl
first_type-text_list (c ∷ t) = refl

module _ (lib : Functions) (doc : IsDocumented lib) where
  pub ref_of-IsPlainRef : (ref : Text) → IsPlainRef ref → ref_of lib ref ≡ ref
  unfolding ref_of
  ref_of-IsPlainRef ref (inl empty) = rw empty
  ref_of-IsPlainRef ref (inr (name, plain, e)) = rw e (doc.created name plain)

  mutual
    unfolding IsCanonical schema_to_spec convert_spec_schema_to_domain

    schema_trip :
        (d : DomainSchema)
        → IsCanonical d
        → convert_spec_schema_to_domain (schema_to_spec lib d) ≡ d
    schema_trip (domain type ref type_path items props addl no_pointers required description) h =
        cc (
          first_type-text_list type,
          ref_of-IsPlainRef ref h.1,
          items_trip items h.2,
          properties_trip props h.3,
          additional_trip addl h.4,
          h.0,
        )
    schema_trip (domain type ref type_path items props addl (pointer null ps) required description)
          h =
        absurd h.1
    schema_trip
          (domain type ref type_path items props addl (pointer (points s) ps) required description)
          h =
        cc (schema_trip s h.1, list_trip ps h.2, h.0)

    items_trip : (p : Pointer) → AllowsNull p → convert_items (items_to_spec lib p) ≡ p
    items_trip null h = refl
    items_trip (points s) h = ap points (schema_trip s h)

    additional_trip :
        (p : Pointer) → AllowsNull p → convert_additional (additional_to_spec lib p) ≡ p
    additional_trip null h = refl
    additional_trip (points s) h = ap points (schema_trip s h)

    list_trip : (ps : Pointers) → EachPart ps → convert_all_of (list_to_spec lib ps) ≡ ps
    list_trip no_pointers h = refl
    list_trip (pointer null ps) h = absurd h.0
    list_trip (pointer (points s) ps) h = cc (schema_trip s h.0, list_trip ps h.1)

    properties_trip :
        (ps : Properties) → EachProperty ps → convert_properties (properties_to_spec lib ps) ≡ ps
    properties_trip no_properties h = refl
    properties_trip (property k null ps) h = absurd h.0
    properties_trip (property k (points s) ps) h = cc (schema_trip s h.0, properties_trip ps h.1)
