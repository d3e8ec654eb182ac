-- ===== src/Route/Operation/Parse.antt =====
-- `parseComment` of internal/parser/route/operation.go, and `parseOperation`, `operationToRoutes`
-- and `ParseRoutes` of service.go.
use core_swag.Base.{Bool, true, false, List, [], ◌∷◌, ◌++◌, map, Option, none, some, if◌then◌else◌}
use core_swag.Base.Text.{Text, codes, text_eq, join, fields, to_lower}
use core_swag.Spec.{Functions}
use core_swag.Route.Domain.{Route}
use core_swag.Route.Response.{Registry, Context}
use core_swag.Route.Response.Parse.{ResponseError, parse_response, parse_header}
use core_swag.Route.Parameter.{Numbers, parse_param}
use core_swag.Route.Operation.{
  FuncDecl, AstFile, RouterPath, RouteOperation, ParseError, response, invalid_param, no_markdown,
  slice_fault, Outcome, parse_tags, parse_mime_types, parse_router, parse_security, comment_line,
}

-- the cases of the switch of `parseComment`
pub data Attribute : Type 0 where
  public : Attribute
  summary : Attribute
  description : Attribute
  markdown : Attribute
  id : Attribute
  tags : Attribute
  accept : Attribute
  produce : Attribute
  param : Attribute
  success : Attribute
  header : Attribute
  router : Attribute
  deprecated_router : Attribute
  security : Attribute
  deprecated : Attribute
  unknown : Attribute

abbrev attributes : List (Text × Attribute)
attributes =
    (codes "@public", public)
    ∷ (codes "@summary", summary)
    ∷ (codes "@description", description)
    ∷ (codes "@description.markdown", markdown)
    ∷ (codes "@id", id)
    ∷ (codes "@tags", tags)
    ∷ (codes "@accept", accept)
    ∷ (codes "@produce", produce)
    ∷ (codes "@param", param)
    ∷ (codes "@success", success)
    ∷ (codes "@failure", success)
    ∷ (codes "@response", success)
    ∷ (codes "@header", header)
    ∷ (codes "@router", router)
    ∷ (codes "@deprecatedrouter", deprecated_router)
    ∷ (codes "@security", security)
    ∷ (codes "@deprecated", deprecated)
    ∷ []

unfoldable pub attribute_among : Text → List (Text × Attribute) → Attribute
attribute_among t [] = unknown
attribute_among t ((k, a) ∷ rest) = if text_eq k t then a else attribute_among t rest

unfoldable pub attribute_of : Text → Attribute
attribute_of t = attribute_among t attributes

-- What the service has: the library, the numbers, the registry, and the markdown files by their tag.
pub record Service : Type 0 where
  pub lib : Functions
  pub nums : Numbers
  pub registry : Option (Registry AstFile)
  pub markdown : Text → Option Text

module _ (s : Service) where
  -- what the annotations of an operation are read with
  unfoldable pub context_of : RouteOperation → Context AstFile
  context_of op = record {
    registry = s.registry;
    package_name = op.package_name;
    is_public = op.is_public;
    ast_file = op.ast_file;
  }

  abbrev wrap : Option ResponseError → Option ParseError
  wrap none = none
  wrap (some e) = some (response e)

  -- the cases of the switch, with the rest of the line
  unfoldable pub apply : Attribute → Text → RouteOperation → Outcome
  apply public line op = (record op { is_public = true }, none)
  apply summary line op = (record op { summary = line }, none)
  apply description line op = (
    record op {
      description =
          if text_eq op.description [] then line else op.description ++ (codes "\n" ++ line);
    },
    none,
  )
  apply markdown line op = elim (s.markdown line) [
    | none ↦ (op, some (no_markdown line))
    | some content ↦ (record op { description = content }, none)
  ]
  apply id line op = (record op { operation_id = line }, none)
  apply tags line op = (record op { tags = op.tags ++ parse_tags line }, none)
  apply accept line op = (record op { consumes = op.consumes ++ parse_mime_types line }, none)
  apply produce line op = (record op { produces = op.produces ++ parse_mime_types line }, none)
  apply param line op = elim (parse_param s.nums (context_of op) line) [
    | none ↦ (op, some (invalid_param line))
    | some p ↦ (record op { parameters = op.parameters ++ p ∷ [] }, none)
  ]
  apply success line op =
      let (rs, e) = parse_response s.lib (context_of op) line op.responses in
      (record op { responses = rs }, wrap e)
  apply header line op =
      let (rs, e) = parse_header line op.responses in (record op { responses = rs }, wrap e)
  apply router line op = parse_router line false op
  apply deprecated_router line op = parse_router line true op
  apply security line op = parse_security line op
  apply deprecated line op = (
    record op {
      router_paths = map (λ (r : RouterPath). record r { deprecated = true }) op.router_paths;
    },
    none,
  )
  apply unknown line op = (op, none)

  -- `parseComment` behind the markers, by the fields of the line
  unfoldable pub parse_fields : List Text → RouteOperation → Outcome
  parse_fields [] op = (op, none)
  parse_fields (first ∷ rest) op = apply (attribute_of (to_lower first)) (join rest (codes " ")) op

  -- `parseComment`
  unfoldable pub parse_comment : Text → RouteOperation → Outcome
  parse_comment comment op = parse_fields (fields (comment_line comment)) op

  abbrev pub is_fault : Option ParseError → Bool
  is_fault (some slice_fault) = true
  is_fault _ = false

  -- the loop over the comments, which skips the errors; `none` is a fault
  unfoldable pub parse_comments : List Text → RouteOperation → Option RouteOperation
  parse_comments [] op = some op
  parse_comments (t ∷ ts) op =
      let outcome = parse_comment t op in
      let rest = parse_comments ts outcome.0 in if is_fault outcome.1 then none else rest

  -- the operation before its comments are read; its file is not set
  unfoldable pub new_operation : FuncDecl → Text → Text → Bool → RouteOperation
  new_operation f package_name file_path has_lines = record {
    function_name = f.name;
    package_name = package_name;
    summary = [];
    description = [];
    tags = [];
    operation_id = [];
    router_paths = [];
    parameters = [];
    responses = [];
    security = [];
    consumes = [];
    produces = [];
    is_public = false;
    file_path = file_path;
    line_number = if has_lines then f.line else 0;
    ast_file = none;
  }

-- `operationToRoutes`
unfoldable pub operation_to_routes : RouteOperation → List Route
operation_to_routes op =
    map
      (λ (r : RouterPath). record {
        method = r.method;
        path = r.path;
        summary = op.summary;
        description = op.description;
        tags = op.tags;
        parameters = op.parameters;
        responses = op.responses;
        security = op.security;
        consumes = op.consumes;
        produces = op.produces;
        is_public = op.is_public;
        deprecated = r.deprecated;
        operation_id = op.operation_id;
        file_path = op.file_path;
        function_name = op.function_name;
        line_number = op.line_number;
      })
      op.router_paths

module _ (s : Service) where
  -- one declaration of `ParseRoutes`, with `parseOperation`; an operation that has no router path
  -- gives no route
  unfoldable pub routes_of : AstFile → Text → Bool → Option FuncDecl → Option (List Route)
  routes_of file file_path has_lines none = some []
  routes_of file file_path has_lines (some f) = elim f.doc [
    | none ↦ some []
    | some comments ↦
        elim (parse_comments s comments
          (new_operation s f (elim file.name [ none ↦ [] | some n ↦ n ]) file_path has_lines)) [
            | none ↦ none
            | some op ↦ some (operation_to_routes (record op { ast_file = some file }))
          ]
  ]

  unfoldable pub routes_of_all :
      AstFile → Text → Bool → List (Option FuncDecl) → Option (List Route)
  routes_of_all file file_path has_lines [] = some []
  routes_of_all file file_path has_lines (d ∷ ds) = elim (routes_of file file_path has_lines d) [
    | none ↦ none
    | some rs ↦ elim (routes_of_all file file_path has_lines ds) [
      | none ↦ none
      | some qs ↦ some (rs ++ qs)
    ]
  ]

  -- `ParseRoutes`; the flag says whether there is a set of files to find lines in
  unfoldable pub parse_routes : AstFile → Text → Bool → Option (List Route)
  parse_routes file file_path has_lines = routes_of_all file file_path has_lines file.decls
