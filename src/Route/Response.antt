-- ===== src/Route/Response.antt =====
-- internal/parser/route/response.go and `resolveTypePath` of service.go: what the registry tells of
-- a type, and the schema of one type in a response.
pub mod Combined
pub mod Parse
pub mod Located
pub mod Schemas
pub mod Recursion
pub mod Responses
pub mod Keeps
pub mod Tests
use core_swag.Base.{
  ℕ, zero, suc, ◌+◌, ◌-◌, ◌*◌, ◌^◌, Bool, true, false, ◌&&◌, ◌||◌, not, List, [], ◌∷◌, ◌++◌, Option,
  none, some, length, take, drop, ltb, leb, if◌then◌else◌,
}
use core_swag.Base.Text.{
  Text, codes, text_eq, has_prefix, has_suffix, trim_prefix, contains, index, trim_space, split,
  to_lower,
}
use core_swag.Base.Pattern.{find, response_pattern, empty_response_pattern}
use core_swag.Spec.{
  Schema, schema, plain, no_props, nil, Fields, end, field, OptSchema, present, items_of,
  no_additional, absent, Functions,
}
use core_swag.Schema.AllOf.{ok, err, parse_combined_type, build_all_of_schema}
use core_swag.Route.Domain.{
  DomainSchema, domain, Pointer, null, points, Pointers, no_pointers, pointer, Properties,
  no_properties, property, domain_ref, domain_type, DomainHeader, DomainResponse,
}
use core_swag.Route.TypeNames.{
  convert_type_to_schema_type, is_primitive_type, is_wildcard_map_value,
}
use core_swag.Route.Convert.{convert_spec_schema_to_domain}

-- The parts of `TypeSpecDef` that the route parser reads: `PkgPath` and `Name()`, whether the type
-- is a struct, and the comments of the declaration and of the specification.
pub record TypeSpecDef : Type 0 where
  pub pkg_path : Text
  pub name : Text
  pub is_struct : Bool
  pub declaration_comments : List Text
  pub spec_comments : List Text

-- The interface `TypeRegistry`, over files that the parser only passes on.
pub record Registry (File : Type 0) : Type 0 where
  pub find_type_spec : Text → Option File → Option TypeSpecDef

-- `TypeSpecDef.FullPath`
unfoldable pub full_path : TypeSpecDef → Text
full_path d = d.pkg_path ++ (codes "." ++ d.name)

abbrev pub contains_any : List Text → Text → Bool
contains_any [] t = false
contains_any (c ∷ cs) t = contains c t || contains_any cs t

-- `packageName != "" && !strings.Contains(t, ".")`, then `packageName + "." + t`
unfoldable pub qualified : Text → Text → Text
qualified pkg t =
    if not (text_eq pkg []) && not (contains t (codes ".")) then pkg ++ (codes "." ++ t) else t

-- What the annotations are read with: the service's registry, and the package, the flag and the
-- file of the operation.
pub record Context (File : Type 0) : Type 0 where
  pub registry : Option (Registry File)
  pub package_name : Text
  pub is_public : Bool
  pub ast_file : Option File

module _ {File : Type 0} where
  -- `resolveTypePath`
  unfoldable pub resolve_type_path : Option (Registry File) → Option File → Text → Text
  resolve_type_path none file t = []
  resolve_type_path (some r) none t = []
  resolve_type_path (some r) (some f) t = elim (r.find_type_spec t (some f)) [
    | none ↦ []
    | some d ↦ full_path d
  ]

  -- `isStructType`
  unfoldable pub is_struct_type : Option (Registry File) → Text → Bool
  is_struct_type none t = true
  is_struct_type (some r) t = elim (r.find_type_spec t none) [ none ↦ true | some d ↦ d.is_struct ]

  -- `hasNoPublicAnnotation`
  unfoldable pub has_no_public_annotation : Option (Registry File) → Text → Bool
  has_no_public_annotation none t = false
  has_no_public_annotation (some r) t = elim (r.find_type_spec t none) [
    | none ↦ false
    | some d ↦
        contains_any d.declaration_comments (codes "@NoPublic")
        || contains_any d.spec_comments (codes "@NoPublic")
  ]

  -- the reference at the end of `buildSchemaForTypeWithPublic`
  unfoldable pub reference_to : Context File → Text → DomainSchema
  reference_to c t =
      let name = qualified c.package_name t in
      let path = resolve_type_path c.registry c.ast_file name in
      if c.is_public
        && (not (has_no_public_annotation c.registry name) && is_struct_type c.registry name)
      then domain_ref (codes "#/definitions/" ++ (name ++ codes "Public"))
          (if text_eq path [] then path else path ++ codes "Public")
      else domain_ref (codes "#/definitions/" ++ name) path

  -- `buildSchemaForTypeWithPublic`
  unfoldable pub build_schema_for_type : Context File → Text → DomainSchema
  build_schema_for_type c t =
      let primitive = convert_type_to_schema_type t in
      if not (text_eq primitive (codes "object"))
      then domain_type primitive
      else if text_eq t (codes "any")
          || (text_eq t (codes "interface{}") || text_eq t (codes "object"))
      then domain_type (codes "object")
      else reference_to c t

  -- the lookup of `resolveTypePathsInSchema`
  unfoldable pub type_path_of : Option (Registry File) → Option File → Text → Text → Text
  type_path_of r f ref old =
      let name = trim_prefix ref (codes "#/definitions/") in
      let is_public = has_suffix name (codes "Public") in
      let base = if is_public then take (length name - 6) name else name in
      let path = resolve_type_path r f base in
      if text_eq ref [] || not (text_eq old [])
      then old
      else if text_eq path []
      then old
      else if is_public
      then path ++ codes "Public"
      else path

  -- `resolveTypePathsInSchema`, with one function for each kind of field that holds schemas
  unfoldable mutual
    pub resolve_type_paths : Option (Registry File) → Option File → DomainSchema → DomainSchema
    resolve_type_paths r f (domain type ref type_path items props addl all required description) =
        domain type ref (type_path_of r f ref type_path) (resolve_at r f items)
          (resolve_properties r f props) (resolve_at r f addl) (resolve_parts r f all) required
          description

    pub resolve_at : Option (Registry File) → Option File → Pointer → Pointer
    resolve_at r f null = null
    resolve_at r f (points s) = points (resolve_type_paths r f s)

    pub resolve_properties : Option (Registry File) → Option File → Properties → Properties
    resolve_properties r f no_properties = no_properties
    resolve_properties r f (property k p ps) =
        property k (resolve_at r f p) (resolve_properties r f ps)

    pub resolve_parts : Option (Registry File) → Option File → Pointers → Pointers
    resolve_parts r f no_pointers = no_pointers
    resolve_parts r f (pointer p ps) = pointer (resolve_at r f p) (resolve_parts r f ps)
