-- ===== src/Route/Parameter.antt =====
-- internal/parser/route/parameter.go: the parameter of a `@param` annotation. The numbers of
-- package `fmt` are scanned here where they are integers; floating-point numbers are parameters.
pub mod Located
pub mod Fractions
pub mod Tests
use core_swag.Base.{
  ℕ, zero, suc, ◌+◌, ◌-◌, ◌*◌, ◌^◌, ◌==◌, Bool, true, false, ◌&&◌, ◌||◌, not, List, [], ◌∷◌, ◌++◌,
  Option, none, some, length, drop, ltb, leb, if◌then◌else◌,
}
use core_swag.Base.Text.{
  Text, codes, text_eq, mem, has_prefix, trim_prefix, contains, index, trim_space, split, to_lower,
  is_space,
}
use core_swag.Base.Pattern.{Match, find, find_all, param_pattern, attr_pattern}
use core_swag.Spec.{Value, number, text, boolean, is_finite}
use core_swag.Route.Domain.{
  DomainSchema, domain, Pointer, null, points, no_pointers, no_properties, domain_ref, domain_type,
  DomainItems, DomainParameter,
}
use core_swag.Route.TypeNames.{convert_type, is_primitive_type, is_model_type}
use core_swag.Route.Response.{Context, qualified, resolve_type_path}

-- What package `fmt` scans for `%f`, as a 64-bit pattern, and `float64` of an integer with a sign.
pub record Numbers : Type 0 where
  pub scan_float : Text → Option ℕ
  pub float_of : Bool → ℕ → ℕ

unfoldable pub skip_space : Text → Text
skip_space [] = []
skip_space (c ∷ s) = let rest = skip_space s in if is_space c then rest else c ∷ s

-- one more digit
unfoldable pub digit_onto : Option ℕ → ℕ → ℕ
digit_onto none c = c - b'0'
digit_onto (some n) c = n * 10 + (c - b'0')

-- The digits at the head of a text, as a number, if there is one.
unfoldable pub leading_digits : Option ℕ → Text → Option ℕ
leading_digits n [] = n
leading_digits n (c ∷ s) =
    let rest = leading_digits (some (digit_onto n c)) s in
    if leb b'0' c && leb c b'9' then rest else n

unfoldable pub signed : Bool → Option ℕ → Option (Bool × ℕ)
signed negative none = none
signed negative (some n) =
    if ltb n (2 ^ 63) || (negative && n == 2 ^ 63) then some (negative, n) else none

unfoldable pub scan_signed : Text → Option (Bool × ℕ)
scan_signed [] = none
scan_signed (c ∷ s) =
    if c == b'-'
    then signed true (leading_digits none s)
    else if c == b'+'
    then signed false (leading_digits none s)
    else signed false (leading_digits none (c ∷ s))

-- `fmt.Sscanf(s, "%d", &n)`: an integer at the head of the text, whatever follows it
unfoldable pub scan_int : Text → Option (Bool × ℕ)
scan_int t = scan_signed (skip_space t)

-- `strings.Trim(s, "\"'")`
unfoldable pub drop_quotes : Text → Text
drop_quotes [] = []
drop_quotes (c ∷ s) = let rest = drop_quotes s in if c == b'"' || c == b'\'' then rest else c ∷ s

unfoldable pub flip : Text → Text → Text
flip [] t = t
flip (c ∷ s) t = flip s (c ∷ t)

unfoldable pub trim_quotes : Text → Text
trim_quotes t = flip (drop_quotes (flip (drop_quotes t) [])) []

module _ (nums : Numbers) where
  -- `parseFiniteFloat`
  unfoldable pub parse_finite_float : Text → Option ℕ
  parse_finite_float t = elim (nums.scan_float t) [
    | none ↦ none
    | some f ↦ if is_finite f then some f else none
  ]

  -- one value of an enumeration
  unfoldable pub enum_value : Text → Value
  enum_value e = elim (scan_int e) [
    | some (negative, n) ↦ number (nums.float_of negative n)
    | none ↦ elim (parse_finite_float e) [ some f ↦ number f | none ↦ text (trim_quotes e) ]
  ]

  unfoldable pub enum_values : List Text → List Value
  enum_values [] = []
  enum_values (e ∷ es) = enum_value (trim_space e) ∷ enum_values es

  -- the value of a default
  unfoldable pub default_value : Text → Value
  default_value t = elim (scan_int t) [
    | some (negative, n) ↦ number (nums.float_of negative n)
    | none ↦ elim (parse_finite_float t) [
      | some f ↦ number f
      | none ↦
          if text_eq t (codes "true")
          then boolean true
          else if text_eq t (codes "false")
          then boolean false
          else text (trim_quotes t)
    ]
  ]

  unfoldable pub finite_or : Option ℕ → Text → Option ℕ
  finite_or old t = elim (parse_finite_float t) [ none ↦ old | some f ↦ some f ]

  unfoldable pub int_or : Option ℕ → Text → Option ℕ
  int_or old t = elim (scan_int t) [
    | none ↦ old
    | some (negative, n) ↦ some (nums.float_of negative n)
  ]

  -- one attribute of `parseParamAttributes`
  unfoldable pub set_attribute : Text → Text → DomainParameter → DomainParameter
  set_attribute name v p =
      if text_eq name (codes "format")
      then record p { format = v }
      else if text_eq name (codes "enums") || text_eq name (codes "enum")
      then record p { enum = enum_values (split v b',') }
      else if text_eq name (codes "minimum") || text_eq name (codes "min")
      then record p { minimum = finite_or p.minimum v }
      else if text_eq name (codes "maximum") || text_eq name (codes "max")
      then record p { maximum = finite_or p.maximum v }
      else if text_eq name (codes "minlength")
      then record p { min_length = int_or p.min_length v }
      else if text_eq name (codes "maxlength")
      then record p { max_length = int_or p.max_length v }
      else if text_eq name (codes "default")
      then record p { default = some (default_value v) }
      else p

  unfoldable pub set_attributes : List (List Text) → DomainParameter → DomainParameter
  set_attributes [] p = p
  set_attributes ((name ∷ v ∷ []) ∷ ms) p = set_attributes ms (set_attribute (to_lower name) v p)
  set_attributes (_ ∷ ms) p = set_attributes ms p

  -- `parseParamAttributes`
  unfoldable pub parse_param_attributes : Text → DomainParameter → DomainParameter
  parse_param_attributes attrs p = set_attributes (find_all (length attrs) attr_pattern attrs) p

abbrev object : DomainSchema
object = domain_type (codes "object")

abbrev map_of : DomainSchema → DomainSchema
map_of s = domain (codes "object") [] [] null no_properties (points s) no_pointers [] []

unfoldable pub map_value : Text → Text → DomainSchema
map_value pkg v =
    if text_eq v (codes "interface{}") || (text_eq v (codes "any") || text_eq v (codes "string"))
    then object
    else if is_primitive_type v
    then map_of (domain_type (convert_type v).0)
    else map_of (domain_ref (codes "#/definitions/" ++ qualified pkg v) [])

-- `buildMapParamSchema`
unfoldable pub build_map_param_schema : Text → Text → DomainSchema
build_map_param_schema data_type pkg = elim (index data_type b']') [
  | none ↦ object
  | some i ↦
      if ltb (i + 1) (length data_type) then map_value pkg (drop (i + 1) data_type) else object
]

module _ {File : Type 0} (nums : Numbers) (c : Context File) where
  -- the schema of a body parameter with a model type
  unfoldable pub body_schema : Bool → Text → DomainSchema
  body_schema is_array data_type =
      let name = qualified c.package_name data_type in
      let ref =
        domain_ref (codes "#/definitions/" ++ name)
          (resolve_type_path c.registry c.ast_file name) in
      if has_prefix data_type (codes "map[")
      then build_map_param_schema data_type c.package_name
      else if is_array
      then domain (codes "array") [] [] (points ref) no_properties null no_pointers [] []
      else ref

  -- `parseParam` behind the pattern, with the remainder of the line
  unfoldable pub param_of : Text → Text → Text → Text → Text → Text → DomainParameter
  param_of name param_type given required_str description remainder =
      let is_array = has_prefix given (codes "[]") in
      let data_type = trim_prefix given (codes "[]") in
      let (schema_type, format) = convert_type data_type in
      let required = to_lower required_str in
      let first : DomainParameter = record {
        name = name;
        in_ = param_type;
        type = [];
        required = text_eq required (codes "true") || text_eq required (codes "required");
        description = description;
        schema = null;
        items = none;
        default = none;
        format = format;
        enum = [];
        minimum = none;
        maximum = none;
        min_length = none;
        max_length = none;
      } in
      let p = parse_param_attributes nums remainder first in
      let kept = if text_eq p.format [] && not (text_eq format []) then format else p.format in
      if text_eq param_type (codes "body") && is_model_type data_type
      then record p { format = kept; schema = points (body_schema is_array data_type) }
      else if is_array
      then record p {
        format = kept;
        type = codes "array";
        items = some (record { type = schema_type; format = kept; enum = [] });
      }
      else record p { format = kept; type = schema_type }

  unfoldable pub parse_matched_param : Text → Option (Text × Match) → Option DomainParameter
  parse_matched_param line
        (some (whole, (name ∷ param_type ∷ data_type ∷ required ∷ description ∷ [], rest))) =
      some (param_of name param_type data_type required description (drop (length whole) line))
  parse_matched_param line _ = none

  -- `parseParam`; `none` is the error of a line that does not match
  unfoldable pub parse_param : Text → Option DomainParameter
  parse_param line = parse_matched_param line (find param_pattern line)
