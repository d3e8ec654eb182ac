-- ===== src/General/Security.antt =====
-- internal/parser/base/security.go and parseSecurity of helpers.go. Lines are what is left of them;
-- what is returned begins with the line that the caller reads next.
pub mod Given
pub mod Accepts
use core_swag.Base.{
  ℕ, zero, suc, ◌+◌, ◌-◌, ◌≡◌, refl, Bool, true, false, ◌&&◌, ◌||◌, not, List, [], ◌∷◌, ◌++◌, map,
  Option, none, some, length, take, drop, ltb, ◌==◌, if◌then◌else◌,
}
use core_swag.Base.Maps.{put_key, get_key}
use core_swag.Base.Text.{
  Text, codes, text_eq, mem, has_prefix, contains, index, trim_space, split, fields, to_lower,
}
use core_swag.Spec.{Value}
use core_swag.General.{SecurityScheme, SchemeFunctions, GeneralError, required, scope_with_comma}
use core_swag.General.Attributes.{split_line}

-- The pieces between `||` and `&&`.
unfoldable pub split_pairs_onto : Text → Text → List Text
split_pairs_onto cur [] = cur ∷ []
split_pairs_onto cur (c ∷ []) = (cur ++ c ∷ []) ∷ []
split_pairs_onto cur (b ∷ c ∷ s) =
    let closed = cur ∷ split_pairs_onto [] s in
    let longer = split_pairs_onto (cur ++ b ∷ []) (c ∷ s) in
    if (b == b'|' && c == b'|') || (b == b'&' && c == b'&') then closed else longer

-- `securityPairSepPattern.Split(s, -1)`
unfoldable pub split_pairs : Text → List Text
unfolding split_pairs_onto
split_pairs s = split_pairs_onto [] s

abbrev pub Requirement : Type 0
Requirement = List (Text × List Text)

abbrev scopes_of : Option (List Text) → List Text
scopes_of none = []
scopes_of (some scopes) = scopes

-- One option of `parseSecurity`; `none` is a slice whose bounds are out of range.
unfoldable pub add_option : Text → Requirement → Option Requirement
unfolding put_key get_key
add_option option m = elim (index option b'[') [
  | none ↦ elim (index option b']') [
    | none ↦ some (put_key (trim_space option) [] m)
    | some j ↦ none
  ]
  | some i ↦ elim (index option b']') [
    | none ↦ none
    | some j ↦
        if ltb j (i + 1)
        then none
        else some (
            put_key (take i option)
              (scopes_of (get_key (take i option) m)
                ++ map trim_space (split (take (j - (i + 1)) (drop (i + 1) option)) b','))
              m)
  ]
]

unfoldable pub add_options : List Text → Requirement → Option Requirement
unfolding add_option
add_options [] m = some m
add_options (o ∷ os) m = elim (add_option (trim_space o) m) [
  | none ↦ none
  | some m' ↦ add_options os m'
]

-- `parseSecurity`
unfoldable pub parse_security : Text → Option Requirement
unfolding add_options split_pairs
parse_security line = add_options (split_pairs line) []

-- The switch on the attribute: what a definition of this kind has to give.
pub data Kind : Type 0 where
  basic api_key application implicit password access_code : Kind

abbrev pub search_of : Kind → List Text
search_of basic = []
search_of api_key = codes "@in" ∷ codes "@name" ∷ []
search_of application = codes "@tokenurl" ∷ []
search_of password = codes "@tokenurl" ∷ []
search_of implicit = codes "@authorizationurl" ∷ []
search_of access_code = codes "@tokenurl" ∷ codes "@authorizationurl" ∷ []

abbrev pub definitions_prefix : Text
definitions_prefix = codes "@securitydefinitions."

-- What the loop over the lines has gathered.
pub record Gathered : Type 0 where
  pub attrs : List (Text × Text)
  pub scopes : List (Text × Text)
  pub extensions : List (Text × Value)
  pub description : Text

-- The loop of `isExistsScope`: the first of the words that is a scope with a comma
unfoldable pub comma_scope : List Text → Option Text
comma_scope [] = none
comma_scope (v ∷ vs) =
    if has_prefix v (codes "@scope.") && contains v (codes ",") then some v else comma_scope vs

-- `isExistsScope`
unfoldable pub is_exists_scope : Text → Bool × Option GeneralError
unfolding comma_scope
is_exists_scope scope = elim (comma_scope (fields scope)) [
  | some v ↦ (false, some (scope_with_comma v))
  | none ↦ (has_prefix scope (codes "@scope."), none)
]

unfoldable pub add_line : Text → Text → Text
add_line description value =
    if text_eq description [] then value else description ++ (codes "\n" ++ value)

-- What a line changes: an attribute of the search, a scope, an extension or the description. No
-- scope has an error here.
unfoldable pub gather : List Text → Text → Text → Gathered → Gathered
unfolding put_key add_line is_exists_scope
gather search attr value g =
    if mem attr search
    then record g { attrs = put_key attr value g.attrs }
    else if (is_exists_scope attr).0
    then record g { scopes = put_key (drop 7 attr) value g.scopes }
    else if has_prefix attr (codes "@x-")
    then record g { extensions = put_key (drop 1 attr) (Value.text value) g.extensions }
    else if text_eq attr (codes "@description")
    then record g { description = add_line g.description value }
    else g

unfoldable pub scope_error : List Text → Text → Option GeneralError
unfolding is_exists_scope
scope_error search attr = if mem attr search then none else (is_exists_scope attr).1

-- The loop over the lines: an error, or what is gathered; then the lines that are left.
pub data Loop : Type 0 where
  stopped : GeneralError → Loop
  ended : Gathered → List Text → Loop

unfoldable pub scan_lines : List Text → Gathered → List Text → Loop
unfolding gather scope_error split_line
scan_lines search g [] = ended g []
scan_lines search g (line ∷ lines) =
    let attr = to_lower (split_line (trim_space line)).0 in
    let value = (split_line (trim_space line)).1 in
    let same = scan_lines search g lines in
    let next = scan_lines search (gather search attr value g) lines in
    if text_eq (trim_space line) [] then same else elim (scope_error search attr) [
      | some e ↦ stopped e
      | none ↦ if has_prefix attr definitions_prefix then ended g (line ∷ lines) else next
    ]

abbrev value_of : Option Text → Text
value_of none = []
value_of (some v) = v

-- what `parseSecurityDefinition` returns, with the lines that are left
pub data Definition : Type 0 where
  rejected : GeneralError → Definition
  defined : SecurityScheme → List Text → Definition

module _ (lib : SchemeFunctions) where
  abbrev pub scheme_of : Kind → List (Text × Text) → SecurityScheme
  scheme_of basic m = lib.basic_auth
  scheme_of api_key m =
      lib.api_key_auth (value_of (get_key (codes "@name") m)) (value_of (get_key (codes "@in") m))
  scheme_of application m = lib.oauth2_application (value_of (get_key (codes "@tokenurl") m))
  scheme_of implicit m = lib.oauth2_implicit (value_of (get_key (codes "@authorizationurl") m))
  scheme_of password m = lib.oauth2_password (value_of (get_key (codes "@tokenurl") m))
  scheme_of access_code m =
      lib.oauth2_access_token (value_of (get_key (codes "@authorizationurl") m))
        (value_of (get_key (codes "@tokenurl") m))

  unfoldable pub add_extensions : List (Text × Value) → SecurityScheme → SecurityScheme
  add_extensions [] scheme = scheme
  add_extensions ((k, v) ∷ m) scheme = add_extensions m (lib.add_extension scheme k v)

  unfoldable pub add_scopes : List (Text × Text) → SecurityScheme → SecurityScheme
  add_scopes [] scheme = scheme
  add_scopes ((k, v) ∷ m) scheme = add_scopes m (lib.add_scope scheme k v)

  unfoldable pub build_scheme : Kind → Gathered → SecurityScheme
  unfolding add_extensions add_scopes get_key
  build_scheme kind g = add_scopes g.scopes (
      add_extensions g.extensions (record (scheme_of kind g.attrs) { description = g.description }))

  unfoldable pub finish : Text → Kind → Loop → Definition
  unfolding build_scheme
  finish context kind (stopped e) = rejected e
  finish context kind (ended g rest) =
      if length g.attrs == length (search_of kind)
      then defined (build_scheme kind g) rest
      else rejected (required context (search_of kind))

  -- `parseSecurityDefinition`, of the lines behind the one of the attribute
  unfoldable pub parse_security_definition : Text → Kind → List Text → Definition
  unfolding finish scan_lines
  parse_security_definition context basic lines = defined lib.basic_auth lines
  parse_security_definition context kind lines = finish context kind (
      scan_lines (search_of kind)
        (record { attrs = []; scopes = []; extensions = []; description = [] }) lines)
