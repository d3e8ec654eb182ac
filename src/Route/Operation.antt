-- ===== src/Route/Operation.antt =====
-- internal/parser/route/operation.go and service.go: the annotations of a function become an
-- operation, and the operation becomes routes. Reading a markdown file is a parameter. Of a file,
-- its name and its function declarations are kept.
pub mod Parse
pub mod Sound
pub mod Routes
pub mod Tests
use core_swag.Base.{
  ℕ, ◌+◌, ◌-◌, Bool, true, false, ◌&&◌, not, List, [], ◌∷◌, ◌++◌, map, Option, none, some, length,
  take, drop, ltb, if◌then◌else◌,
}
use core_swag.Base.Text.{
  Text, codes, text_eq, mem, has_prefix, has_suffix, trim_prefix, index, trim_space, split, join,
  fields, to_lower, to_upper,
}
use core_swag.Base.Pattern.{Match, Pattern, plus, lit, done, match_at, is_word}
use core_swag.Spec.{Functions}
use core_swag.Route.Domain.{DomainParameter, Route}
use core_swag.Route.Response.{Registry, Context}
use core_swag.Route.Response.Parse.{Responses, ResponseError, parse_response, parse_header}
use core_swag.Route.Parameter.{Numbers, parse_param}

-- A declaration of a function: its name, its comments if it has any, and its line.
pub record FuncDecl : Type 0 where
  pub name : Text
  pub doc : Option (List Text)
  pub line : ℕ

-- `none` is a declaration of another kind.
pub record AstFile : Type 0 where
  pub name : Option Text
  pub decls : List (Option FuncDecl)

pub record RouterPath : Type 0 where
  pub path : Text
  pub method : Text
  pub deprecated : Bool

abbrev pub Security : Type 0
Security = List (Text × List Text)

-- `operation`
pub record RouteOperation : Type 0 where
  pub function_name : Text
  pub package_name : Text
  pub summary : Text
  pub description : Text
  pub tags : List Text
  pub operation_id : Text
  pub router_paths : List RouterPath
  pub parameters : List DomainParameter
  pub responses : Responses
  pub security : List Security
  pub consumes : List Text
  pub produces : List Text
  pub is_public : Bool
  pub file_path : Text
  pub line_number : ℕ
  pub ast_file : Option AstFile

pub data ParseError : Type 0 where
  response : ResponseError → ParseError
  invalid_param : Text → ParseError
  invalid_router : Text → ParseError
  invalid_method : Text → ParseError
  invalid_security : Text → ParseError
  no_markdown : Text → ParseError
  slice_fault : ParseError

-- The operation as it is left, and the error that is returned. `slice_fault` is no error but the end
-- of the program.
abbrev pub Outcome : Type 0
Outcome = RouteOperation × Option ParseError

-- `parseTags`
unfoldable pub parse_tags : Text → List Text
parse_tags line = map trim_space (split line b',')

-- `mimeTypeAliases`
abbrev mime_type_aliases : List (Text × Text)
mime_type_aliases =
    (codes "json", codes "application/json")
    ∷ (codes "xml", codes "text/xml")
    ∷ (codes "plain", codes "text/plain")
    ∷ (codes "html", codes "text/html")
    ∷ (codes "mpfd", codes "multipart/form-data")
    ∷ (codes "x-www-form-urlencoded", codes "application/x-www-form-urlencoded")
    ∷ (codes "json-api", codes "application/vnd.api+json")
    ∷ (codes "json-stream", codes "application/x-json-stream")
    ∷ (codes "octet-stream", codes "application/octet-stream")
    ∷ (codes "png", codes "image/png")
    ∷ (codes "jpeg", codes "image/jpeg")
    ∷ (codes "gif", codes "image/gif")
    ∷ (codes "event-stream", codes "text/event-stream")
    ∷ []

unfoldable pub alias_of : Text → List (Text × Text) → Text
alias_of t [] = t
alias_of t ((k, v) ∷ as_) = if text_eq k t then v else alias_of t as_

unfoldable pub mime_types : List Text → List Text
mime_types [] = []
mime_types (t ∷ ts) =
    let rest = mime_types ts in
    if text_eq (trim_space t) [] then rest else alias_of (trim_space t) mime_type_aliases ∷ rest

-- `parseMimeTypes`: what it appends
unfoldable pub parse_mime_types : Text → List Text
parse_mime_types line = mime_types (split line b',')

-- The class of `routerPattern`, `[\w./\-{}\(\)+:$~]`. What it repeats begins with a slash.
unfoldable pub is_path : ℕ → Bool
is_path c = mem (c ∷ []) (map (λ b. b ∷ []) (codes "./-{}()+:$~"))

unfoldable pub path_or_word : ℕ → Bool
path_or_word c = if is_word c then true else is_path c

abbrev pub router_pattern : Pattern
router_pattern = plus true path_or_word (
    plus false (λ c. mem (c ∷ []) (codes " " ∷ codes "\t" ∷ []))
      (lit b'[' (plus true is_word (lit b']' done))))

abbrev pub valid_methods : List Text
valid_methods =
    codes "GET"
    ∷ codes "POST"
    ∷ codes "PUT"
    ∷ codes "DELETE"
    ∷ codes "PATCH"
    ∷ codes "HEAD"
    ∷ codes "OPTIONS"
    ∷ []

unfoldable pub add_router_path : RouterPath → RouteOperation → Outcome
add_router_path r op =
    let found : Outcome = (record op { router_paths = op.router_paths ++ r ∷ [] }, none) in
    if mem r.method valid_methods then found else (op, some (invalid_method r.method))

unfoldable pub add_matched_router : Text → Bool → Option Match → RouteOperation → Outcome
add_matched_router line deprecated (some (path ∷ method ∷ [], rest)) op =
    add_router_path (record { path = path; method = to_upper method; deprecated = deprecated }) op
add_matched_router line deprecated _ op = (op, some (invalid_router line))

-- `parseRouter`
unfoldable pub parse_router : Text → Bool → RouteOperation → Outcome
parse_router line deprecated op =
    if has_prefix line (codes "/")
    then add_matched_router line deprecated (match_at router_pattern line) op
    else (op, some (invalid_router line))

-- what `parseSecurity` reads from a line: a scheme, an error, or the fault of slicing the line
-- backwards
pub data Scheme : Type 0 where
  scheme : Security → Scheme
  unclosed : Scheme
  backwards : Scheme

unfoldable pub scheme_of : Text → Scheme
scheme_of line = elim (index line b'[') [
  | none ↦ scheme ((trim_space line, []) ∷ [])
  | some i ↦ elim (index line b']') [
    | none ↦ unclosed
    | some j ↦
        if ltb j (i + 1)
        then backwards
        else scheme (
            (
              trim_space (take i line),
              map trim_space (split (take (j - (i + 1)) (drop (i + 1) line)) b','),
            )
            ∷ [])
  ]
]

unfoldable pub add_scheme : Text → RouteOperation → Scheme → Outcome
add_scheme line op (scheme m) = (record op { security = op.security ++ m ∷ [] }, none)
add_scheme line op unclosed = (op, some (invalid_security line))
add_scheme line op backwards = (op, some slice_fault)

-- `parseSecurity`
unfoldable pub parse_security : Text → RouteOperation → Outcome
parse_security line op =
    if text_eq line []
    then (record op { security = [] }, none)
    else add_scheme line op (scheme_of line)

-- the comment without its markers
unfoldable pub comment_line : Text → Text
comment_line comment =
    let t = trim_space comment in
    let inner = trim_prefix t (codes "/*") in
    if has_prefix t (codes "//")
    then trim_space (drop 2 t)
    else if has_prefix t (codes "/*")
    then trim_space (if has_suffix inner (codes "*/") then take (length inner - 2) inner else inner)
    else t
