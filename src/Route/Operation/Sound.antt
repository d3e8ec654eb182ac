-- ===== src/Route/Operation/Sound.antt =====
-- What every operation satisfies, whatever its comments are.
use core_swag.Base.{
  ◌≡◌, refl, ap, ◌∙◌, Bool, true, false, List, [], ◌∷◌, ◌++◌, map, Option, none, some, Bool-cases,
  Option-cases, inl, inr, arith, length, drop, All, All-append,
}
use core_swag.Base.Text.{Text, codes, text_eq, mem, has_prefix, to_lower, join, fields}
use core_swag.Base.Pattern.{Match, find, match_at, param_pattern}
use core_swag.Spec.{IsDocumented}
use core_swag.Route.Domain.{DomainParameter}
use core_swag.Route.Domain.Each.{EachAt, EachParameter, EachResponse}
use core_swag.Route.Response.Located.{Located}
use core_swag.Route.Response.Keeps.{parse_response-Each, parse_header-Each}
use core_swag.Route.Parameter.{param_of, parse_param, parse_matched_param}
use core_swag.Route.Parameter.Located.{param_of-Located}
use core_swag.Route.Operation.{
  RouterPath, RouteOperation, Scheme, scheme, unclosed, backwards, add_router_path,
  add_matched_router, parse_router, router_pattern, add_scheme, scheme_of, parse_security,
  valid_methods, comment_line, FuncDecl,
}
use core_swag.Route.Operation.Parse.{
  Attribute, public, summary, description, markdown, id, tags, accept, produce, param, success,
  header, router, deprecated_router, security, deprecated, unknown, Service, context_of, apply,
  attribute_of, parse_fields, parse_comment, parse_comments, new_operation,
}

abbrev pub IsValidMethod : RouterPath → Type 0
IsValidMethod r = mem r.method valid_methods ≡ true

-- No file is set, the methods are valid, and every reference is empty or one to a definition and has
-- no import path.
pub record IsSound (op : RouteOperation) : Type 0 where
  pub no_file : op.ast_file ≡ none
  pub methods : All IsValidMethod op.router_paths
  pub in_parameters : EachParameter (Located op.ast_file) op.parameters
  pub in_responses : EachResponse (Located op.ast_file) op.responses

EachParameter-snoc :
    (P : Text → Text → Type 0) (ps : List DomainParameter) (p : DomainParameter)
    → EachParameter P ps
    → EachAt P p.schema
    → EachParameter P (ps ++ p ∷ [])
EachParameter-snoc P [] p hs h = (h, tt)
EachParameter-snoc P (q ∷ ps) p hs h = (hs.0, EachParameter-snoc P ps p hs.1 h)

all_deprecated :
    (rs : List RouterPath)
    → All IsValidMethod rs
    → All IsValidMethod (map (λ (r : RouterPath). record r { deprecated = true }) rs)
all_deprecated [] h = tt
all_deprecated (r ∷ rs) h = (h.0, all_deprecated rs h.1)

-- An operation of which other fields are changed.
same_parts :
    (op new : RouteOperation)
    → new.ast_file ≡ op.ast_file
    → new.router_paths ≡ op.router_paths
    → new.parameters ≡ op.parameters
    → new.responses ≡ op.responses
    → IsSound op
    → IsSound new
same_parts op new f r p q h = record {
  no_file = f ∙ h.no_file;
  methods = rw r h.methods;
  in_parameters = rw (f, p) h.in_parameters;
  in_responses = rw (f, q) h.in_responses;
}

add_router_path-IsSound :
    (r : RouterPath) (op : RouteOperation) → IsSound op → IsSound (add_router_path r op).0
unfolding add_router_path
add_router_path-IsSound r op h = elim (Bool-cases (mem r.method valid_methods)) [
  | inl e ↦ rw e (record {
    no_file = h.no_file;
    methods = All-append IsValidMethod op.router_paths (r ∷ []) h.methods (e, tt);
    in_parameters = h.in_parameters;
    in_responses = h.in_responses;
  })
  | inr e ↦ rw e h
]

add_matched_router-IsSound :
    (line : Text) (b : Bool) (m : Option Match) (op : RouteOperation)
    → IsSound op
    → IsSound (add_matched_router line b m op).0
unfolding add_matched_router
add_matched_router-IsSound line b (some (path ∷ method ∷ [], rest)) op h =
    add_router_path-IsSound _ op h
add_matched_router-IsSound line b _ op h = h

parse_router-IsSound :
    (line : Text) (b : Bool) (op : RouteOperation) → IsSound op → IsSound (parse_router line b op).0
unfolding parse_router
parse_router-IsSound line b op h = elim (Bool-cases (has_prefix line (codes "/"))) [
  | inl e ↦ rw e (add_matched_router-IsSound line b (match_at router_pattern line) op h)
  | inr e ↦ rw e h
]

add_scheme-IsSound :
    (line : Text) (op : RouteOperation) (s : Scheme) → IsSound op → IsSound (add_scheme line op s).0
unfolding add_scheme
add_scheme-IsSound line op (scheme m) h = same_parts op _ refl refl refl refl h
add_scheme-IsSound line op unclosed h = h
add_scheme-IsSound line op backwards h = h

parse_security-IsSound :
    (line : Text) (op : RouteOperation) → IsSound op → IsSound (parse_security line op).0
unfolding parse_security
parse_security-IsSound line op h = elim (Bool-cases (text_eq line [])) [
  | inl e ↦ rw e (same_parts op _ refl refl refl refl h)
  | inr e ↦ rw e (add_scheme-IsSound line op (scheme_of line) h)
]

-- What is in an option, or this.
abbrev or_this {ℓ} : {A : Type ℓ} → A → Option A → A
or_this a none = a
or_this a (some b) = b

module _ (s : Service) (doc : IsDocumented s.lib) where
  add_param-IsSound :
      (line : Text) (m : Option (Text × Match)) (op : RouteOperation) (p : DomainParameter)
      → parse_matched_param s.nums (context_of s op) line m ≡ some p
      → IsSound op
      → EachAt (Located op.ast_file) p.schema
  unfolding parse_matched_param context_of
  add_param-IsSound line
        (some (whole, (name ∷ param_type ∷ data_type ∷ required ∷ text ∷ [], rest))) op p e h =
      let q =
        param_of s.nums (context_of s op) name param_type data_type required text
          (drop (length whole) line) in
      let found : q ≡ p = ap (or_this q) e in
      rw (← found) (
        param_of-Located s.nums (context_of s op) name param_type data_type required text
          (drop (length whole) line))
  add_param-IsSound line _ op p e h = absurd (ground arith)

  apply_param : (line : Text) (op : RouteOperation) → IsSound op → IsSound (apply s param line op).0
  unfolding apply parse_param
  apply_param line op h = elim (Option-cases (parse_param s.nums (context_of s op) line)) [
    | inl e ↦ rw (e, apply) h
    | inr (p, e) ↦
        rw (e, apply)
          (record {
            no_file = h.no_file;
            methods = h.methods;
            in_parameters =
                EachParameter-snoc (Located op.ast_file) op.parameters p h.in_parameters
                  (add_param-IsSound line (find param_pattern line) op p e h);
            in_responses = h.in_responses;
          })
  ]

  apply_markdown :
      (line : Text) (op : RouteOperation) → IsSound op → IsSound (apply s markdown line op).0
  unfolding apply
  apply_markdown line op h = elim (Option-cases (s.markdown line)) [
    | inl e ↦ rw (e, apply) h
    | inr (t, e) ↦ rw (e, apply) (same_parts op _ refl refl refl refl h)
  ]

  apply-IsSound :
      (a : Attribute) (line : Text) (op : RouteOperation)
      → IsSound op
      → IsSound (apply s a line op).0
  unfolding apply
  apply-IsSound public line op h = same_parts op _ refl refl refl refl h
  apply-IsSound summary line op h = same_parts op _ refl refl refl refl h
  apply-IsSound description line op h = same_parts op _ refl refl refl refl h
  apply-IsSound markdown line op h = apply_markdown line op h
  apply-IsSound id line op h = same_parts op _ refl refl refl refl h
  apply-IsSound tags line op h = same_parts op _ refl refl refl refl h
  apply-IsSound accept line op h = same_parts op _ refl refl refl refl h
  apply-IsSound produce line op h = same_parts op _ refl refl refl refl h
  apply-IsSound param line op h = apply_param line op h
  apply-IsSound success line op h = record {
    no_file = h.no_file;
    methods = h.methods;
    in_parameters = h.in_parameters;
    in_responses =
        unfold context_of in
        parse_response-Each s.lib doc (context_of s op) line op.responses h.in_responses;
  }
  apply-IsSound header line op h = record {
    no_file = h.no_file;
    methods = h.methods;
    in_parameters = h.in_parameters;
    in_responses = parse_header-Each (Located op.ast_file) line op.responses h.in_responses;
  }
  apply-IsSound router line op h = parse_router-IsSound line false op h
  apply-IsSound deprecated_router line op h = parse_router-IsSound line true op h
  apply-IsSound security line op h = parse_security-IsSound line op h
  apply-IsSound deprecated line op h = record {
    no_file = h.no_file;
    methods = all_deprecated op.router_paths h.methods;
    in_parameters = h.in_parameters;
    in_responses = h.in_responses;
  }
  apply-IsSound unknown line op h = h

  parse_fields-IsSound :
      (ts : List Text) (op : RouteOperation) → IsSound op → IsSound (parse_fields s ts op).0
  unfolding parse_fields
  parse_fields-IsSound [] op h = h
  parse_fields-IsSound (t ∷ ts) op h =
      apply-IsSound (attribute_of (to_lower t)) (join ts (codes " ")) op h

  -- Whatever the comments of a function are, reading them keeps an operation sound.
  pub parse_comments-IsSound :
      (ts : List Text) (op new : RouteOperation)
      → IsSound op
      → parse_comments s ts op ≡ some new
      → IsSound new
  unfolding parse_comments parse_comment
  parse_comments-IsSound [] op new h e = rw (← ap (or_this op) e) h
  parse_comments-IsSound (t ∷ ts) op new h e =
      parse_comments-IsSound ts (parse_comment s t op).0 new
        (parse_fields-IsSound (fields (comment_line t)) op h) (ground arith)

  pub new_operation-IsSound :
      (f : FuncDecl) (package_name file_path : Text) (b : Bool)
      → IsSound (new_operation s f package_name file_path b)
  unfolding new_operation
  new_operation-IsSound f package_name file_path b = record {
    no_file = refl;
    methods = tt;
    in_parameters = tt;
    in_responses = tt;
  }
