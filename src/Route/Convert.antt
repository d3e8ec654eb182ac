-- ===== src/Route/Convert.antt =====
-- internal/parser/route/converter.go, and the conversions back of allof.go and schema.go. The lines
-- that write to the log are left out.
pub mod RoundTrip
pub mod Finite
pub mod Tests
use core_swag.Base.{
  ℕ, zero, suc, ◌+◌, ◌-◌, ◌*◌, ◌/◌, ◌%◌, ◌^◌, Bool, true, false, List, [], ◌∷◌, ◌++◌, map, Option,
  none, some, ltb, leb, ◌==◌, if◌then◌else◌,
}
use core_swag.Base.Text.{Text, codes, text_eq}
use core_swag.Spec.{
  Value, number, text, integer, is_finite, Schema, schema, Schemas, nil, cons, Fields, end, field,
  OptSchema, absent, present, OptItems, no_items, items_of, OptAdditional, no_additional,
  additional, no_props, Functions, Items, item, Header, Response, Parameter, Responses, Operation,
}
use core_swag.Route.Domain.{
  DomainSchema, domain, Pointer, null, points, Pointers, no_pointers, pointer, Properties,
  no_properties, property, DomainItems, DomainParameter, DomainHeader, DomainResponse, Route,
}

abbrev text_list : Text → List Text
text_list [] = []
text_list (c ∷ t) = (c ∷ t) ∷ []

module _ (lib : Functions) where
  -- `MustCreateRef`, called on a text that is not empty
  unfoldable pub ref_of : Text → Text
  ref_of [] = []
  ref_of (c ∷ r) = lib.create_ref (c ∷ r)

  -- `SchemaToSpec`, with one function for each kind of field that holds schemas
  unfoldable mutual
    pub schema_to_spec : DomainSchema → Schema
    schema_to_spec (domain type ref type_path items props addl all required description) =
        schema
          (record no_props {
            type = text_list type;
            ref = ref_of ref;
            required = required;
            description = description;
          })
          (items_to_spec items) (properties_to_spec props) (additional_to_spec addl)
          (list_to_spec all) nil nil absent end

    pub items_to_spec : Pointer → OptItems
    items_to_spec null = no_items
    items_to_spec (points s) = items_of (present (schema_to_spec s)) nil

    pub additional_to_spec : Pointer → OptAdditional
    additional_to_spec null = no_additional
    additional_to_spec (points s) = additional true (present (schema_to_spec s))

    pub keep_pointer : Pointer → Schemas → Schemas
    keep_pointer null ss = ss
    keep_pointer (points s) ss = cons (schema_to_spec s) ss

    pub keep_property : Text → Pointer → Fields → Fields
    keep_property k null fs = fs
    keep_property k (points s) fs = field k (schema_to_spec s) fs

    pub list_to_spec : Pointers → Schemas
    list_to_spec no_pointers = nil
    list_to_spec (pointer p ps) = keep_pointer p (list_to_spec ps)

    pub properties_to_spec : Properties → Fields
    properties_to_spec no_properties = end
    properties_to_spec (property k p ps) = keep_property k p (properties_to_spec ps)

  unfoldable pub pointer_to_spec : Pointer → OptSchema
  pointer_to_spec null = absent
  pointer_to_spec (points s) = present (schema_to_spec s)

-- `v.(float64)` holds an infinity or is not a number.
unfoldable pub is_infinite : Value → Bool
is_infinite (number f) = if is_finite f then false else true
is_infinite _ = false

-- `sanitizeEnumValues`
unfoldable pub sanitize_enum_values : List Value → List Value
sanitize_enum_values [] = []
sanitize_enum_values (v ∷ vs) =
    let rest = sanitize_enum_values vs in if is_infinite v then rest else v ∷ rest

unfoldable pub sanitize_default : Option Value → Option Value
sanitize_default none = none
sanitize_default (some v) = if is_infinite v then none else some v

unfoldable pub sanitize_bound : Option ℕ → Option ℕ
sanitize_bound none = none
sanitize_bound (some f) = if is_finite f then some f else none

-- `int64(f)`, for a value of the range of int64: the fraction is cut off.
unfoldable pub float_to_int64 : ℕ → ℕ
float_to_int64 f =
    let exponent = (f / 2 ^ 52) % 2048 in
    let significand = 2 ^ 52 + f % 2 ^ 52 in
    let size =
      if ltb exponent 1023
      then 0
      else if leb exponent 1075
      then significand / 2 ^ (1075 - exponent)
      else significand * 2 ^ (exponent - 1075) in
    if f / 2 ^ 63 == 0 then size % 2 ^ 64 else (2 ^ 64 - size % 2 ^ 64) % 2 ^ 64

unfoldable pub length_of : Option ℕ → Option ℕ
length_of none = none
length_of (some f) = some (float_to_int64 f)

unfoldable pub items_of_parameter : Option DomainItems → Option Items
items_of_parameter none = none
items_of_parameter (some i) =
    some (item (record { ref = []; type = i.type; format = i.format; enum = i.enum }))

-- `HeaderToSpec`
unfoldable pub header_to_spec : DomainHeader → Header
header_to_spec h = record {
  type = h.type;
  format = h.format;
  description = h.description;
  items = none;
}

module _ (lib : Functions) where
  -- `ParameterToSpec` with a schema, and without one
  unfoldable pub body_parameter : DomainParameter → OptSchema → Parameter
  body_parameter p s = record {
    name = p.name;
    in_ = p.in_;
    required = p.required;
    description = p.description;
    schema = s;
    type = [];
    format = [];
    items = none;
    default = none;
    enum = [];
    minimum = none;
    maximum = none;
    min_length = none;
    max_length = none;
  }

  unfoldable pub simple_parameter : DomainParameter → Parameter
  simple_parameter p = record {
    name = p.name;
    in_ = p.in_;
    required = p.required;
    description = p.description;
    schema = absent;
    type = p.type;
    format = p.format;
    items = items_of_parameter p.items;
    default = sanitize_default p.default;
    enum = sanitize_enum_values p.enum;
    minimum = sanitize_bound p.minimum;
    maximum = sanitize_bound p.maximum;
    min_length = length_of p.min_length;
    max_length = length_of p.max_length;
  }

  -- `ParameterToSpec`
  unfoldable pub parameter_to_spec : DomainParameter → Parameter
  parameter_to_spec p = elim p.schema [
    | null ↦ simple_parameter p
    | points s ↦ body_parameter p (present (schema_to_spec lib s))
  ]

  -- `ResponseToSpec`
  unfoldable pub response_to_spec : DomainResponse → Response
  response_to_spec r = record {
    description = r.description;
    schema = pointer_to_spec lib r.schema;
    headers = map (λ h. (h.0, header_to_spec h.1)) r.headers;
  }

  -- the `x-path`, `x-function` and `x-line` of an operation
  unfoldable pub location : Route → List (Text × Value)
  location r =
      (if text_eq r.file_path [] then [] else (codes "x-path", text r.file_path) ∷ [])
      ++ ((if text_eq r.function_name []
            then []
            else (codes "x-function", text r.function_name) ∷ [])
          ++ (if ltb 0 r.line_number then (codes "x-line", integer r.line_number) ∷ [] else []))

  -- `RouteToSpecOperation`, of a route that is not nil
  unfoldable pub route_to_spec_operation : Route → Operation
  route_to_spec_operation r = record {
    id = r.operation_id;
    summary = r.summary;
    description = r.description;
    tags = r.tags;
    consumes = r.consumes;
    produces = r.produces;
    deprecated = r.deprecated;
    extensions = location r;
    parameters = map parameter_to_spec r.parameters;
    responses = some (record {
      status_code_responses = map (λ c. (c.0, response_to_spec c.1)) r.responses;
      default = none;
    });
    security = r.security;
  }

-- `len(s.Type) > 0`, then `s.Type[0]`
abbrev first_type : List Text → Text
first_type [] = []
first_type (t ∷ ts) = t

-- `convertSpecSchemaToDomain`
unfoldable mutual
  pub convert_spec_schema_to_domain : Schema → DomainSchema
  convert_spec_schema_to_domain (schema p items props addl nil one any neg defs) =
      domain (first_type p.type) p.ref [] (convert_items items) (convert_properties props)
        (convert_additional addl) no_pointers p.required p.description
  convert_spec_schema_to_domain (schema p items props addl (cons s all) one any neg defs) =
      domain [] [] [] null no_properties null
        (pointer (points (convert_spec_schema_to_domain s)) (convert_all_of all)) [] []

  pub convert_all_of : Schemas → Pointers
  convert_all_of nil = no_pointers
  convert_all_of (cons s ss) =
      pointer (points (convert_spec_schema_to_domain s)) (convert_all_of ss)

  pub convert_properties : Fields → Properties
  convert_properties end = no_properties
  convert_properties (field k s fs) =
      property k (points (convert_spec_schema_to_domain s)) (convert_properties fs)

  pub convert_opt : OptSchema → Pointer
  convert_opt absent = null
  convert_opt (present s) = points (convert_spec_schema_to_domain s)

  pub convert_items : OptItems → Pointer
  convert_items no_items = null
  convert_items (items_of s ss) = convert_opt s

  pub convert_additional : OptAdditional → Pointer
  convert_additional no_additional = null
  convert_additional (additional b s) = convert_opt s
