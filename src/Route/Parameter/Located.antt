-- ===== src/Route/Parameter/Located.antt =====
-- The references in the schema of a parameter.
use core_swag.Base.{
  arith, ◌+◌, ◌≡◌, refl, ◌∙◌, Bool, ◌&&◌, ◌||◌, List, [], ◌∷◌, ◌++◌, Option, none, some, inl,
  length, drop, ltb, if◌then◌else◌,
}
use core_swag.Base.Text.{Text, codes, text_eq, has_prefix, trim_prefix, index, to_lower}
use core_swag.Base.Pattern.{find_all, attr_pattern}
use core_swag.Route.Domain.{
  DomainSchema, domain, null, points, no_pointers, no_properties, domain_ref, domain_type,
  DomainParameter,
}
use core_swag.Route.Domain.Each.{EachRef, EachAt, at_points, at_null}
use core_swag.Route.TypeNames.{convert_type, is_model_type}
use core_swag.Route.Response.{Context, qualified, resolve_type_path}
use core_swag.Route.Response.Located.{Located, no_path}
use core_swag.Route.Response.Schemas.{if_has, domain_type-Located, domain_ref-Located}
use core_swag.Route.Parameter.{
  Numbers, set_attribute, set_attributes, parse_param_attributes, map_value, build_map_param_schema,
  body_schema, param_of,
}

set_attribute-schema :
    (nums : Numbers) (name v : Text) (p : DomainParameter)
    → (set_attribute nums name v p).schema ≡ p.schema
unfolding set_attribute
set_attribute-schema nums name v p = ground arith

set_attributes-schema :
    (nums : Numbers) (ms : List (List Text)) (p : DomainParameter)
    → (set_attributes nums ms p).schema ≡ p.schema
unfolding set_attributes
set_attributes-schema nums [] p = refl
set_attributes-schema nums ([] ∷ ms) p = set_attributes-schema nums ms p
set_attributes-schema nums ((name ∷ []) ∷ ms) p = set_attributes-schema nums ms p
set_attributes-schema nums ((name ∷ v ∷ []) ∷ ms) p =
    set_attributes-schema nums ms (set_attribute nums (to_lower name) v p)
    ∙ set_attribute-schema nums (to_lower name) v p
set_attributes-schema nums ((name ∷ v ∷ w ∷ m) ∷ ms) p = set_attributes-schema nums ms p

module _ {File : Type 0} (f : Option File) where
  map_of-Located :
      (s : DomainSchema)
      → EachRef (Located f) s
      → EachRef
          (Located f)
          (domain (codes "object") [] [] null no_properties (points s) no_pointers [] [])
  unfolding EachRef
  map_of-Located s h = ((inl refl, λ e. refl), tt, tt, h, tt)

  array-Located :
      (s : DomainSchema)
      → EachRef (Located f) s
      → EachRef
          (Located f)
          (domain (codes "array") [] [] (points s) no_properties null no_pointers [] [])
  unfolding EachRef
  array-Located s h = ((inl refl, λ e. refl), h, tt, tt, tt)

  map_value-Located : (pkg v : Text) → EachRef (Located f) (map_value pkg v)
  unfolding map_value
  map_value-Located pkg v =
      let P = EachRef (Located f) in
      if_has P _ _ _ (domain_type-Located f (codes "object")) (
        if_has P _ _ _
          (map_of-Located (domain_type (convert_type v).0)
            (domain_type-Located f (convert_type v).0))
          (map_of-Located (domain_ref (codes "#/definitions/" ++ qualified pkg v) [])
            (domain_ref-Located f (qualified pkg v) [] (λ e. refl))))

  map_param-Located : (t pkg : Text) → EachRef (Located f) (build_map_param_schema t pkg)
  unfolding build_map_param_schema
  map_param-Located t pkg =
      elim (index t b']')
        as (λ i. EachRef (Located f) (elim i [
          | none ↦ domain_type (codes "object")
          | some i ↦
              if ltb (i + 1) (length t)
              then map_value pkg (drop (i + 1) t)
              else domain_type (codes "object")
        ])) [
          | none ↦ domain_type-Located f (codes "object")
          | some i ↦
              if_has (EachRef (Located f)) _ _ _ (map_value-Located pkg (drop (i + 1) t))
                (domain_type-Located f (codes "object"))
        ]

module _ {File : Type 0} (nums : Numbers) (c : Context File) where
  body_schema-Located :
      (is_array : Bool) (t : Text) → EachRef (Located c.ast_file) (body_schema nums c is_array t)
  unfolding body_schema
  body_schema-Located is_array t =
      let P = EachRef (Located c.ast_file) in
      let name = qualified c.package_name t in
      let ref =
        domain_ref-Located c.ast_file name (resolve_type_path c.registry c.ast_file name)
          (no_path c.registry c.ast_file name) in
      if_has P _ _ _ (map_param-Located c.ast_file t c.package_name)
        (if_has P _ _ _ (array-Located c.ast_file _ ref) ref)

  param_of-schema :
      (name param_type given required description remainder : Text)
      → (param_of nums c name param_type given required description remainder).schema ≡ (
          if text_eq param_type (codes "body") && is_model_type (trim_prefix given (codes "[]"))
          then points
              (body_schema nums c (has_prefix given (codes "[]")) (trim_prefix given (codes "[]")))
          else null)
  unfolding param_of parse_param_attributes
  param_of-schema name param_type given required description remainder =
      let kept =
        set_attributes-schema nums (find_all (length remainder) attr_pattern remainder) (record {
          name = name;
          in_ = param_type;
          type = [];
          required =
              text_eq (to_lower required) (codes "true")
              || text_eq (to_lower required) (codes "required");
          description = description;
          schema = null;
          items = none;
          default = none;
          format = (convert_type (trim_prefix given (codes "[]"))).1;
          enum = [];
          minimum = none;
          maximum = none;
          min_length = none;
          max_length = none;
        }) in
      ground arith

  -- Every reference in the schema of a parameter, at any depth, is empty or one to a definition, and
  -- has no import path if the file of the operation is not set.
  pub param_of-Located :
      (name param_type given required description remainder : Text)
      → EachAt
          (Located c.ast_file)
          (param_of nums c name param_type given required description remainder).schema
  param_of-Located name param_type given required description remainder =
      rw (param_of-schema name param_type given required description remainder) (
        if_has (EachAt (Located c.ast_file)) _ _ _
          (at_points (Located c.ast_file) _
            (body_schema-Located (has_prefix given (codes "[]")) (trim_prefix given (codes "[]"))))
          (at_null (Located c.ast_file)))
