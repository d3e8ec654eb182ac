-- ===== src/Route/Operation/Routes.antt =====
-- The routes of a file: what `ParseRoutes` hands on to the registration and to the orchestrator.
use core_swag.Base.{
  ◌≡◌, refl, subst, Bool, true, false, List, [], ◌∷◌, ◌++◌, Option, none, some, Option-cases, inl,
  inr, All, All-append,
}
use core_swag.Base.Text.{Text, codes, text_eq, mem, mem-All}
use core_swag.Spec.{IsDocumented, IsPlainName, Swagger}
use core_swag.Route.Domain.{Route}
use core_swag.Route.Domain.Each.{EachParameter, EachResponse, parameter_map, response_map}
use core_swag.Route.Convert.RoundTrip.{IsRef}
use core_swag.Route.Register.{
  Slot, get, post, delete, put, patch, head, options, ref_route_method_op, register_routes,
}
use core_swag.Route.Register.Lenient.{HasMethod, register_routes-last}
use core_swag.Route.Response.Located.{Located}
use core_swag.Route.Operation.{AstFile, FuncDecl, RouterPath, RouteOperation, valid_methods}
use core_swag.Route.Operation.Parse.{
  Service, parse_comments, new_operation, operation_to_routes, routes_of, routes_of_all,
  parse_routes,
}
use core_swag.Route.Operation.Sound.{
  IsSound, IsValidMethod, parse_comments-IsSound, new_operation-IsSound,
}

-- A reference that is empty or one to a definition, and has no import path.
abbrev pub WithoutPath : Text → Text → Type 0
WithoutPath ref type_path = IsRef ref × (type_path ≡ [])

-- One of the seven methods, and such references only.
pub record IsSoundRoute (r : Route) : Type 0 where
  pub method_of : HasMethod r
  pub in_parameters : EachParameter WithoutPath r.parameters
  pub in_responses : EachResponse WithoutPath r.responses

abbrev SlotOf : Text → Type 0
SlotOf m = (t : Slot) × (ref_route_method_op m ≡ some t)

SlotOf-valid : (m : Text) → mem m valid_methods ≡ true → SlotOf m
unfolding ref_route_method_op text_eq
SlotOf-valid m = mem-All SlotOf m valid_methods (
  (get, refl),
  (
    (post, refl),
    ((put, refl), ((delete, refl), ((patch, refl), ((head, refl), ((options, refl), tt))))),
  ),
)

without_path :
    (file : Option AstFile) (ref type_path : Text)
    → file ≡ none
    → Located file ref type_path
    → WithoutPath ref type_path
without_path file ref type_path e h = (h.0, h.1 e)

-- The routes of a sound operation, from some of its router paths.
routes_at :
    (op : RouteOperation) (file : AstFile) (rs : List RouterPath)
    → IsSound op
    → All IsValidMethod rs
    → All IsSoundRoute (operation_to_routes (record op { ast_file = some file; router_paths = rs }))
unfolding operation_to_routes
routes_at op file [] h m = tt
routes_at op file (r ∷ rs) h m = (
  record {
    method_of = SlotOf-valid r.method m.0;
    in_parameters =
        parameter_map (Located op.ast_file) WithoutPath
          (λ ref path l. without_path op.ast_file ref path h.no_file l) op.parameters
          h.in_parameters;
    in_responses =
        response_map (Located op.ast_file) WithoutPath
          (λ ref path l. without_path op.ast_file ref path h.no_file l) op.responses h.in_responses;
  },
  routes_at op file rs h m.1,
)

-- Sound routes, if there is no fault.
abbrev EachSound : Option (List Route) → Type 0
EachSound none = Unit
EachSound (some rs) = All IsSoundRoute rs

module _ (s : Service) (doc : IsDocumented s.lib) where
  routes_of-EachSound :
      (file : AstFile) (path : Text) (b : Bool) (d : Option FuncDecl)
      → EachSound (routes_of s file path b d)
  unfolding routes_of
  routes_of-EachSound file path b none = tt
  routes_of-EachSound file path b (some f) = elim (Option-cases f.doc) [
    | inl n ↦ rw (n, routes_of) tt
    | inr (comments, c) ↦
        let start = new_operation s f (elim file.name [ none ↦ [] | some n ↦ n ]) path b in
        rw (c, routes_of)
          (elim (Option-cases (parse_comments s comments start)) [
            | inl n ↦ rw n tt
            | inr (op, e) ↦
                let sound =
                  parse_comments-IsSound s doc comments start op
                    (new_operation-IsSound s doc f _ path b) e in
                rw e (routes_at op file op.router_paths sound sound.methods)
          ])
  ]

  routes_of_all-EachSound :
      (file : AstFile) (path : Text) (b : Bool) (ds : List (Option FuncDecl))
      → EachSound (routes_of_all s file path b ds)
  unfolding routes_of_all
  routes_of_all-EachSound file path b [] = tt
  routes_of_all-EachSound file path b (d ∷ ds) =
      joined (routes_of s file path b d) (routes_of_all s file path b ds)
        (routes_of-EachSound file path b d) (routes_of_all-EachSound file path b ds)
    where
      joined :
          (x y : Option (List Route))
          → EachSound x
          → EachSound y
          → EachSound (elim x [
            | none ↦ none
            | some rs ↦ elim y [ none ↦ none | some qs ↦ some (rs ++ qs) ]
          ])
      joined none y hx hy = tt
      joined (some rs) none hx hy = tt
      joined (some rs) (some qs) hx hy = All-append IsSoundRoute rs qs hx hy

  -- With package `spec` as it is documented, every route that `ParseRoutes` returns has one of the
  -- seven methods that a path item has a field for. Every reference in its parameters and responses, at any depth, is empty or one to a
  -- definition, and its import path is empty, whatever the registry knows.
  pub parse_routes-IsSoundRoute :
      (file : AstFile) (path : Text) (b : Bool) (rs : List Route)
      → parse_routes s file path b ≡ some rs
      → All IsSoundRoute rs
  unfolding parse_routes
  parse_routes-IsSoundRoute file path b rs e =
      subst EachSound e (routes_of_all-EachSound file path b file.decls)

all_methods : (rs : List Route) → All IsSoundRoute rs → All HasMethod rs
all_methods [] h = tt
all_methods (r ∷ rs) h = (h.0.method_of, all_methods rs h.1)

-- With package `spec` as it is documented, the routes that `ParseRoutes` returns for a file are
-- registered without an error if `strict` is not set.
pub register_routes-parse_routes :
    (s : Service) (doc : IsDocumented s.lib) (sw : Swagger) (file : AstFile) (path : Text)
    (b : Bool) (rs : List Route)
    → parse_routes s file path b ≡ some rs
    → (register_routes s.lib sw rs false).1 ≡ none
register_routes-parse_routes s doc sw file path b rs e =
    (register_routes-last s.lib sw rs get []
      (all_methods rs (parse_routes-IsSoundRoute s doc file path b rs e))).0

-- The names of the definitions that a reference leads to are plain.
abbrev pub NamesPlainly : Text → Text → Type 0
NamesPlainly ref type_path = (name : Text) → ref ≡ codes "#/definitions/" ++ name → IsPlainName name

abbrev pub IsPlainRoute : Route → Type 0
IsPlainRoute r = EachParameter NamesPlainly r.parameters × EachResponse NamesPlainly r.responses
