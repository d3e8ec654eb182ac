-- ===== src/Route/Response/Located.antt =====
-- The references in the schemas of responses: to definitions, and without a path if the file is not
-- known.
use core_swag.Base.{◌≡◌, refl, [], Option, none, some, inl, if◌then◌else◌, arith, length, take, ◌-◌}
use core_swag.Base.Text.{Text, codes, text_eq, has_suffix, trim_prefix}
use core_swag.Spec.{
  Schema, schema, Schemas, nil, cons, Fields, end, field, OptSchema, absent, present, OptItems,
  no_items, items_of, OptAdditional, no_additional, additional,
}
use core_swag.Route.Domain.{
  DomainSchema, domain, Pointer, null, points, Pointers, no_pointers, pointer, Properties,
  no_properties, property,
}
use core_swag.Route.Domain.Each.{EachRef, EachAt, EachPart, EachProperty}
use core_swag.Route.Convert.{
  convert_spec_schema_to_domain, convert_all_of, convert_properties, convert_opt, convert_items,
  convert_additional,
}
use core_swag.Route.Convert.RoundTrip.{IsRef}
use core_swag.Route.Response.{
  Registry, resolve_type_path, type_path_of, resolve_type_paths, resolve_at, resolve_properties,
  resolve_parts,
}

-- Every reference of a schema is empty or one to a definition, in the fields that a route keeps.
unfoldable mutual
  pub SpecRefs : Schema → Type 0
  SpecRefs (schema p items props addl all one any neg defs) =
      IsRef p.ref × ItemsRefs items × FieldsRefs props × AdditionalRefs addl × ListRefs all

  ListRefs : Schemas → Type 0
  ListRefs nil = Unit
  ListRefs (cons s ss) = SpecRefs s × ListRefs ss

  pub FieldsRefs : Fields → Type 0
  FieldsRefs end = Unit
  FieldsRefs (field k s fs) = SpecRefs s × FieldsRefs fs

  OptRefs : OptSchema → Type 0
  OptRefs absent = Unit
  OptRefs (present s) = SpecRefs s

  ItemsRefs : OptItems → Type 0
  ItemsRefs no_items = Unit
  ItemsRefs (items_of s ss) = OptRefs s

  AdditionalRefs : OptAdditional → Type 0
  AdditionalRefs no_additional = Unit
  AdditionalRefs (additional b s) = OptRefs s

module _ {File : Type 0} where
  -- A reference to a definition, if any, and no path where the file is not known.
  abbrev pub Located : Option File → Text → Text → Type 0
  Located file ref path = IsRef ref × (file ≡ none → path ≡ [])

  pub no_path :
      (r : Option (Registry File)) (f : Option File) (t : Text)
      → f ≡ none
      → resolve_type_path r f t ≡ []
  unfolding resolve_type_path
  no_path none f t h = refl
  no_path (some r) f t h = rw (h, resolve_type_path) refl

  type_path_of-none :
      (r : Option (Registry File)) (f : Option File) (ref old : Text)
      → f ≡ none
      → old ≡ []
      → type_path_of r f ref old ≡ []
  unfolding type_path_of text_eq
  type_path_of-none r f ref old h e =
      let name = trim_prefix ref (codes "#/definitions/") in
      let base = if has_suffix name (codes "Public") then take (length name - 6) name else name in
      let none_found = no_path r f base h in ground arith

  mutual
    unfolding convert_spec_schema_to_domain SpecRefs EachRef

    pub convert_schema-Located :
        (file : Option File) (s : Schema)
        → SpecRefs s
        → EachRef (Located file) (convert_spec_schema_to_domain s)
    convert_schema-Located file (schema p items props addl nil one any neg defs) h = (
      (h.0, λ e. refl),
      convert_items-Located file items h.1,
      convert_properties-Located file props h.2,
      convert_additional-Located file addl h.3,
      tt,
    )
    convert_schema-Located file (schema p items props addl (cons s all) one any neg defs) h = (
      (inl refl, λ e. refl),
      tt,
      tt,
      tt,
      (convert_schema-Located file s h.4.0, convert_all_of-Located file all h.4.1),
    )

    convert_all_of-Located :
        (file : Option File) (ss : Schemas)
        → ListRefs ss
        → EachPart (Located file) (convert_all_of ss)
    convert_all_of-Located file nil h = tt
    convert_all_of-Located file (cons s ss) h =
        (convert_schema-Located file s h.0, convert_all_of-Located file ss h.1)

    convert_properties-Located :
        (file : Option File) (fs : Fields)
        → FieldsRefs fs
        → EachProperty (Located file) (convert_properties fs)
    convert_properties-Located file end h = tt
    convert_properties-Located file (field k s fs) h =
        (convert_schema-Located file s h.0, convert_properties-Located file fs h.1)

    convert_opt-Located :
        (file : Option File) (s : OptSchema) → OptRefs s → EachAt (Located file) (convert_opt s)
    convert_opt-Located file absent h = tt
    convert_opt-Located file (present s) h = convert_schema-Located file s h

    convert_items-Located :
        (file : Option File) (i : OptItems) → ItemsRefs i → EachAt (Located file) (convert_items i)
    convert_items-Located file no_items h = tt
    convert_items-Located file (items_of s ss) h = convert_opt-Located file s h

    convert_additional-Located :
        (file : Option File) (a : OptAdditional)
        → AdditionalRefs a
        → EachAt (Located file) (convert_additional a)
    convert_additional-Located file no_additional h = tt
    convert_additional-Located file (additional b s) h = convert_opt-Located file s h

  mutual
    unfolding resolve_type_paths EachRef

    pub resolve_type_paths-Located :
        (r : Option (Registry File)) (f : Option File) (d : DomainSchema)
        → EachRef (Located f) d
        → EachRef (Located f) (resolve_type_paths r f d)
    resolve_type_paths-Located r f
          (domain type ref type_path items props addl all required description) h =
        (
          (h.0.0, λ e. type_path_of-none r f ref type_path e (h.0.1 e)),
          resolve_at-Located r f items h.1,
          resolve_properties-Located r f props h.2,
          resolve_at-Located r f addl h.3,
          resolve_parts-Located r f all h.4,
        )

    resolve_at-Located :
        (r : Option (Registry File)) (f : Option File) (p : Pointer)
        → EachAt (Located f) p
        → EachAt (Located f) (resolve_at r f p)
    resolve_at-Located r f null h = tt
    resolve_at-Located r f (points s) h = resolve_type_paths-Located r f s h

    resolve_properties-Located :
        (r : Option (Registry File)) (f : Option File) (ps : Properties)
        → EachProperty (Located f) ps
        → EachProperty (Located f) (resolve_properties r f ps)
    resolve_properties-Located r f no_properties h = tt
    resolve_properties-Located r f (property k p ps) h =
        (resolve_at-Located r f p h.0, resolve_properties-Located r f ps h.1)

    resolve_parts-Located :
        (r : Option (Registry File)) (f : Option File) (ps : Pointers)
        → EachPart (Located f) ps
        → EachPart (Located f) (resolve_parts r f ps)
    resolve_parts-Located r f no_pointers h = tt
    resolve_parts-Located r f (pointer p ps) h =
        (resolve_at-Located r f p h.0, resolve_parts-Located r f ps h.1)
