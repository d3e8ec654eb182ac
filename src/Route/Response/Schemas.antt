-- ===== src/Route/Response/Schemas.antt =====
-- The schemas that `buildSchemaWithPackageAndPublic` builds refer to definitions only.
use core_swag.Base.{
  ℕ, zero, suc, ◌+◌, ◌≡◌, refl, Bool, true, false, List, [], ◌∷◌, ◌++◌, Option, none, some, inl,
  inr, if◌then◌else◌, length, drop,
}
use core_swag.Base.Text.{Text, codes, text_eq, index}
use core_swag.Spec.{
  Schema, schema, nil, Fields, end, absent, present, plain, no_props, Functions, IsDocumented,
  no_items, no_additional, Props, items_of,
}
use core_swag.Schema.AllOf.{
  Result, ok, err, parse_combined_type, build_all_of_schema, with_properties,
}
use core_swag.Route.Domain.{
  domain, points, null, no_properties, no_pointers, domain_type, domain_ref,
}
use core_swag.Route.Domain.Each.{EachRef}
use core_swag.Route.TypeNames.{convert_type_to_schema_type}
use core_swag.Route.Convert.RoundTrip.{IsRef}
use core_swag.Route.Response.{
  Context, qualified, resolve_type_path, reference_to, build_schema_for_type,
}
use core_swag.Route.Response.Combined.{
  resolve_named, resolve_step, resolve_to, resolve_override_type_schema, override_schemas,
  build_all_of_response_schema, build_schema, map_to, resolve_map, build_composition, build_parsed,
}
use core_swag.Route.Response.Located.{
  SpecRefs, FieldsRefs, Located, no_path, convert_schema-Located, resolve_type_paths-Located,
}

-- Both branches of a conditional have the property.
pub if_has {ℓ κ} :
    {A : Type ℓ} (P : A → Type κ) (b : Bool) (x y : A) → P x → P y → P (if b then x else y)
if_has P true x y px py = px
if_has P false x y px py = py

module _ {File : Type 0} where
  pub domain_type-Located : (f : Option File) (t : Text) → EachRef (Located f) (domain_type t)
  unfolding EachRef
  domain_type-Located f t = ((inl refl, λ e. refl), tt, tt, tt, tt)

  pub domain_ref-Located :
      (f : Option File) (name path : Text)
      → (f ≡ none → path ≡ [])
      → EachRef (Located f) (domain_ref (codes "#/definitions/" ++ name) path)
  unfolding EachRef
  domain_ref-Located f name path h = ((inr (name, refl), h), tt, tt, tt, tt)

  -- The path with its suffix.
  suffixed :
      (f : Option File) (path : Text)
      → (f ≡ none → path ≡ [])
      → f ≡ none
      → (if text_eq path [] then path else path ++ codes "Public") ≡ []
  unfolding text_eq
  suffixed f path h e = rw (h e) refl

  build_schema_for_type-Located :
      (c : Context File) (t : Text) → EachRef (Located c.ast_file) (build_schema_for_type c t)
  unfolding build_schema_for_type reference_to
  build_schema_for_type-Located c t =
      let P = EachRef (Located c.ast_file) in
      let name = qualified c.package_name t in
      let path = resolve_type_path c.registry c.ast_file name in
      let empty : c.ast_file ≡ none → path ≡ [] = no_path c.registry c.ast_file name in
      if_has P _ _ _ (domain_type-Located c.ast_file (convert_type_to_schema_type t)) (
        if_has P _ _ _ (domain_type-Located c.ast_file (codes "object")) (
          if_has P _ _ _
            (domain_ref-Located c.ast_file (name ++ codes "Public") _
              (suffixed c.ast_file path empty))
            (domain_ref-Located c.ast_file name path empty)))

plain-SpecRefs : (p : Props) → IsRef p.ref → SpecRefs (plain p)
unfolding SpecRefs
plain-SpecRefs p h = (h, tt, tt, tt, tt)

module _ {File : Type 0} (lib : Functions) (doc : IsDocumented lib) (c : Context File) where
  ref-SpecRefs :
      (name : Text)
      → SpecRefs (plain (record no_props { ref = lib.create_ref (codes "#/definitions/" ++ name) }))
  ref-SpecRefs name = plain-SpecRefs _ (inr (doc.located name))

  resolve_named-SpecRefs : (t : Text) → SpecRefs (resolve_named lib c t)
  unfolding resolve_named
  resolve_named-SpecRefs t =
      let name = qualified c.package_name t in
      if_has SpecRefs _ _ _ (plain-SpecRefs no_props (inl refl)) (
        if_has SpecRefs _ _ _
          (plain-SpecRefs (record no_props { type = convert_type_to_schema_type t ∷ [] })
            (inl refl))
          (if_has SpecRefs _ _ _ (ref-SpecRefs (name ++ codes "Public")) (ref-SpecRefs name)))

  mapped-SpecRefs : (v : Schema) → SpecRefs v → SpecRefs (lib.map_property v)
  unfolding SpecRefs
  mapped-SpecRefs v h = rw (doc.map_of v) (inl refl, tt, tt, h, tt)

  array-SpecRefs :
      (v : Schema)
      → SpecRefs v
      → SpecRefs (
          schema
            (record no_props { type = codes "array" ∷ [] })
            (items_of (present v) nil)
            end
            no_additional
            nil
            nil
            nil
            absent
            end)
  unfolding SpecRefs
  array-SpecRefs v h = (inl refl, h, tt, tt, tt)

  module _ (inner : Text → Schema) (h : (v : Text) → SpecRefs (inner v)) where
    resolve_map-SpecRefs : (t : Text) (i : Option ℕ) → SpecRefs (resolve_map lib c inner t i)
    unfolding resolve_map map_to
    resolve_map-SpecRefs t none = resolve_named-SpecRefs t
    resolve_map-SpecRefs t (some i) =
        if_has SpecRefs _ _ _
          (if_has SpecRefs _ _ _
            (plain-SpecRefs (record no_props { type = codes "object" ∷ [] }) (inl refl))
            (mapped-SpecRefs (inner (drop (i + 1) t)) (h (drop (i + 1) t))))
          (resolve_named-SpecRefs t)

    resolve_step-SpecRefs : (t : Text) → SpecRefs (resolve_step lib c inner t)
    unfolding resolve_step
    resolve_step-SpecRefs t =
        if_has SpecRefs _ _ _ (array-SpecRefs (inner (drop 2 t)) (h (drop 2 t)))
          (if_has SpecRefs _ _ _ (resolve_map-SpecRefs t (index t b']')) (resolve_named-SpecRefs t))

  resolve_to-SpecRefs : (n : ℕ) (t : Text) → SpecRefs (resolve_to lib c n t)
  unfolding resolve_to
  resolve_to-SpecRefs zero t =
      resolve_step-SpecRefs (λ v. plain no_props) (λ v. plain-SpecRefs no_props (inl refl)) t
  resolve_to-SpecRefs (suc n) t =
      resolve_step-SpecRefs (resolve_to lib c n) (resolve_to-SpecRefs n) t

  override_schemas-FieldsRefs : (os : List (Text × Text)) → FieldsRefs (override_schemas lib c os)
  unfolding override_schemas SpecRefs resolve_override_type_schema
  override_schemas-FieldsRefs [] = tt
  override_schemas-FieldsRefs ((k, t) ∷ os) =
      (resolve_to-SpecRefs (length t) t, override_schemas-FieldsRefs os)

  with_properties-SpecRefs :
      (p : Props) (fs : Fields)
      → IsRef p.ref
      → FieldsRefs fs
      → SpecRefs (with_properties fs (plain p))
  unfolding with_properties SpecRefs
  with_properties-SpecRefs p fs r h = (r, tt, h, tt, tt)

  composed-SpecRefs :
      (p q : Props) (fs : Fields)
      → IsRef p.ref
      → IsRef q.ref
      → FieldsRefs fs
      → SpecRefs (
          lib.composed_schema (plain p) (schema q no_items fs no_additional nil nil nil absent end))
  unfolding SpecRefs
  composed-SpecRefs p q fs r k h =
      rw (doc.composed (plain p) (schema q no_items fs no_additional nil nil nil absent end))
        (inl refl, tt, tt, tt, ((r, tt, tt, tt, tt), ((k, tt, h, tt, tt), tt)))

  build_all_of_schema-SpecRefs :
      (p : Props) (fs : Fields)
      → IsRef p.ref
      → FieldsRefs fs
      → SpecRefs (build_all_of_schema lib (present (plain p)) fs)
  unfolding build_all_of_schema
  build_all_of_schema-SpecRefs p fs r h = if_has SpecRefs _ _ _ (plain-SpecRefs p r) (
      if_has SpecRefs _ _ _ (with_properties-SpecRefs p fs r h)
        (composed-SpecRefs p (record no_props { type = codes "object" ∷ [] }) fs r (inl refl) h))

  build_composition-Located :
      (base : Text) (fs : Fields)
      → FieldsRefs fs
      → EachRef (Located c.ast_file) (build_composition lib c base fs)
  unfolding build_composition
  build_composition-Located base fs h = resolve_type_paths-Located c.registry c.ast_file _ (
      convert_schema-Located c.ast_file _
        (build_all_of_schema-SpecRefs _ fs (inr (doc.located (qualified c.package_name base))) h))

  build_parsed-Located :
      (t : Text) (r : Result (Text × List (Text × Text)))
      → EachRef (Located c.ast_file) (build_parsed lib c t r)
  unfolding build_parsed
  build_parsed-Located t (err e) = build_schema_for_type-Located c t
  build_parsed-Located t (ok (base, [])) = build_schema_for_type-Located c base
  build_parsed-Located t (ok (base, o ∷ os)) =
      build_composition-Located base (override_schemas lib c (o ∷ os))
        (override_schemas-FieldsRefs (o ∷ os))

  -- With package `spec` as it is documented, and whatever the two words of the annotation are, every reference in the schema that
  -- `buildSchemaWithPackageAndPublic` builds from them, at any depth, is empty or one to a definition,
  -- and has no import path if the file of the operation is not set.
  pub build_schema-Located :
      (schema_type data_type : Text)
      → EachRef (Located c.ast_file) (build_schema lib c schema_type data_type)
  unfolding build_schema build_all_of_response_schema
  build_schema-Located schema_type data_type =
      let P = EachRef (Located c.ast_file) in
      let items : EachRef (Located c.ast_file) (
          domain (codes "array") [] [] (points (build_schema_for_type c data_type)) no_properties
            null no_pointers [] []) =
        unfold EachRef in
        ((inl refl, λ e. refl), build_schema_for_type-Located c data_type, tt, tt, tt) in
      if_has P _ _ _ (build_parsed-Located data_type (parse_combined_type data_type)) (
        if_has P _ _ _ (domain_type-Located c.ast_file (codes "file"))
          (if_has P _ _ _ items (build_schema_for_type-Located c data_type)))
