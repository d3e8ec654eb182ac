-- ===== src/Route/Response/Keeps.antt =====
-- The annotations of responses and headers keep a property of the references in the responses.
use core_swag.Base.{
  ℕ, ◌==◌, ◌≡◌, List, [], ◌∷◌, Option, some, Bool-cases, Option-cases, inl, inr, arith,
}
use core_swag.Base.Text.{Text, codes, text_eq, split, trim_space, to_lower}
use core_swag.Base.Pattern.{Match, find, response_pattern, empty_response_pattern}
use core_swag.Spec.{Functions, IsDocumented}
use core_swag.Route.Domain.{Pointer, null, points, DomainHeader, DomainResponse}
use core_swag.Route.Domain.Each.{EachAt, EachResponse, at_points, at_null}
use core_swag.Route.Response.{Context}
use core_swag.Route.Response.Combined.{build_schema}
use core_swag.Route.Response.Located.{Located}
use core_swag.Route.Response.Schemas.{build_schema-Located}
use core_swag.Route.Response.Parse.{
  Responses, atoi, lookup_response, put_response, each_code, set_response, set_header,
  set_everywhere, default_description, parse_empty_response, parse_response_with_schema,
  parse_response, set_headers, parse_matched_header, parse_header,
}

module _ (P : Text → Text → Type 0) where
  -- Updates that keep the property of the responses.
  Keeps : (Responses → Responses) → Type 0
  Keeps update = (rs : Responses) → EachResponse P rs → EachResponse P (update rs)

  put_response-Each :
      (code : ℕ) (r : DomainResponse) → EachAt P r.schema → Keeps (put_response code r)
  unfolding Keeps put_response
  put_response-Each code r h [] hs = (h, tt)
  put_response-Each code r h ((k, s) ∷ rs) hs = elim (Bool-cases (k == code)) [
    | inl e ↦ rw e (h, hs.1)
    | inr e ↦ rw e (hs.0, put_response-Each code r h rs hs.1)
  ]

  lookup_response-Each :
      (code : ℕ) (r : DomainResponse) (rs : Responses)
      → EachResponse P rs
      → lookup_response code rs ≡ some r
      → EachAt P r.schema
  unfolding lookup_response
  lookup_response-Each code r [] hs e = absurd (ground arith)
  lookup_response-Each code r ((k, s) ∷ rs) hs e = elim (Bool-cases (k == code)) [
    | inl same ↦ (let found : s ≡ r = ground arith in rw (← found) hs.0)
    | inr other ↦ lookup_response-Each code r rs hs.1 (ground arith)
  ]

  set_response-Each :
      (description : Text) (s : Pointer) (code : ℕ)
      → EachAt P s
      → Keeps (set_response description s code)
  unfolding Keeps set_response
  set_response-Each description s code h rs hs = put_response-Each code _ h rs hs

  set_header-Each : (name : Text) (h : DomainHeader) (code : ℕ) → Keeps (set_header name h code)
  unfolding Keeps set_header
  set_header-Each name h code rs hs = elim (Option-cases (lookup_response code rs)) [
    | inl e ↦ rw (e, set_header) (put_response-Each code _ (at_null P) rs hs)
    | inr (r, e) ↦
        rw (e, set_header) (put_response-Each code _ (lookup_response-Each code r rs hs e) rs hs)
  ]

  set_everywhere-Each : (name : Text) (h : DomainHeader) → Keeps (set_everywhere name h)
  unfolding Keeps set_everywhere
  set_everywhere-Each name h [] hs = tt
  set_everywhere-Each name h ((k, r) ∷ rs) hs = (hs.0, set_everywhere-Each name h rs hs.1)

  each_code-Each :
      (update : ℕ → Responses → Responses) (ts : List Text) (rs : Responses)
      → ((code : ℕ) → Keeps (update code))
      → EachResponse P rs
      → EachResponse P (each_code update ts rs).0
  unfolding each_code Keeps
  each_code-Each update [] rs keeps hs = hs
  each_code-Each update (t ∷ ts) rs keeps hs = elim (Option-cases (atoi (trim_space t))) [
    | inl e ↦ rw (e, each_code) hs
    | inr (n, e) ↦ rw (e, each_code) (each_code-Each update ts (update n rs) keeps (keeps n rs hs))
  ]

  parse_empty_response-Each :
      (line : Text) (m : Option (Text × Match)) (rs : Responses)
      → EachResponse P rs
      → EachResponse P (parse_empty_response line m rs).0
  unfolding parse_empty_response
  parse_empty_response-Each line (some (whole, (status_codes ∷ description ∷ [], rest))) rs hs =
      each_code-Each (set_response description null) (split status_codes b',') rs
        (λ code. set_response-Each description null code (at_null P)) hs
  parse_empty_response-Each line _ rs hs = hs

  set_headers-Each :
      (status_codes name : Text) (h : DomainHeader) (rs : Responses)
      → EachResponse P rs
      → EachResponse P (set_headers status_codes name h rs).0
  unfolding set_headers
  set_headers-Each status_codes name h rs hs =
      elim (Bool-cases (text_eq (to_lower status_codes) (codes "all"))) [
        | inl e ↦ rw e (unfold Keeps in set_everywhere-Each name h rs hs)
        | inr e ↦ rw e (
            each_code-Each (set_header name h) (split status_codes b',') rs (set_header-Each name h)
              hs)
      ]

  parse_matched_header-Each :
      (line : Text) (m : Option (Text × Match)) (rs : Responses)
      → EachResponse P rs
      → EachResponse P (parse_matched_header line m rs).0
  unfolding parse_matched_header
  parse_matched_header-Each line
        (some (whole, (status_codes ∷ header_type ∷ name ∷ description ∷ [], rest))) rs hs =
      set_headers-Each status_codes name _ rs hs
  parse_matched_header-Each line _ rs hs = hs

  pub parse_header-Each :
      (line : Text) (rs : Responses) → EachResponse P rs → EachResponse P (parse_header line rs).0
  unfolding parse_header
  parse_header-Each line rs hs = parse_matched_header-Each line (find response_pattern line) rs hs

module _ {File : Type 0} (lib : Functions) (doc : IsDocumented lib) (c : Context File) where
  with_schema-Each :
      (line : Text) (m : Option (Text × Match)) (rs : Responses)
      → EachResponse (Located c.ast_file) rs
      → EachResponse (Located c.ast_file) (parse_response_with_schema lib c line m rs).0
  unfolding parse_response_with_schema
  with_schema-Each line
        (some (whole, (status_codes ∷ schema_type ∷ data_type ∷ description ∷ [], rest))) rs hs =
      let P = Located c.ast_file in
      each_code-Each P
        (set_response (default_description description)
          (points (build_schema lib c schema_type data_type)))
        (split status_codes b',') rs
        (λ code.
          set_response-Each P (default_description description)
            (points (build_schema lib c schema_type data_type)) code
            (at_points P _ (build_schema-Located lib doc c schema_type data_type)))
        hs
  with_schema-Each line _ rs hs =
      parse_empty_response-Each (Located c.ast_file) line (find empty_response_pattern line) rs hs

  pub parse_response-Each :
      (line : Text) (rs : Responses)
      → EachResponse (Located c.ast_file) rs
      → EachResponse (Located c.ast_file) (parse_response lib c line rs).0
  unfolding parse_response
  parse_response-Each line rs hs = with_schema-Each line (find response_pattern line) rs hs
