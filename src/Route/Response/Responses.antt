-- ===== src/Route/Response/Responses.antt =====
-- The map of responses behind `parseResponse`.
use core_swag.Base.{
  ℕ, ◌==◌, ◌≡◌, refl, ap, ◌∙◌, Bool, true, false, ◌||◌, List, [], ◌∷◌, none, some, Bool-cases, inl,
  inr, if◌then◌else◌, arith, ==_iff,
}
use core_swag.Base.Text.{Text, trim_space, split}
use core_swag.Base.Pattern.{find, response_pattern}
use core_swag.Spec.{Functions}
use core_swag.Route.Domain.{Pointer, points, DomainResponse}
use core_swag.Route.Response.{Context}
use core_swag.Route.Response.Combined.{build_schema}
use core_swag.Route.Response.Parse.{
  Responses, atoi, lookup_response, put_response, each_code, existing_headers, set_response,
  default_description, parse_response, parse_response_with_schema, headers_of,
}

-- The texts are numbers, and these.
abbrev pub AreCodes : List Text → List ℕ → Type 0
AreCodes [] [] = Unit
AreCodes (t ∷ ts) (n ∷ ns) = (atoi (trim_space t) ≡ some n) × AreCodes ts ns
AreCodes _ _ = ⊥

unfoldable pub among : ℕ → List ℕ → Bool
among k [] = false
among k (n ∷ ns) = n == k || among k ns

lookup-put :
    (k code : ℕ) (r : DomainResponse) (rs : Responses)
    → lookup_response k (put_response code r rs)
      ≡ (if code == k then some r else lookup_response k rs)
unfolding lookup_response put_response
lookup-put k code r [] = refl
lookup-put k code r ((j, s) ∷ rs) = ground (arith, lookup-put k code r rs)

-- The entry of a code that is set.
abbrev entry : Text → Pointer → ℕ → Responses → DomainResponse
entry description s k rs = record {
  description = description;
  schema = s;
  headers = existing_headers k rs;
}

headers-kept :
    (description : Text) (s : Pointer) (k code : ℕ) (rs : Responses)
    → existing_headers k (set_response description s code rs) ≡ existing_headers k rs
unfolding existing_headers set_response
headers-kept description s k code rs =
    let put = ap headers_of (lookup-put k code (entry description s code rs) rs) in
    elim (Bool-cases (code == k)) [
      | inl e ↦
          let same : code ≡ k = (==_iff code k).0 e in
          put ∙ rw e (ap (λ n. headers_of (lookup_response n rs)) same)
      | inr e ↦ put ∙ rw e refl
    ]

each_code-step :
    (update : ℕ → Responses → Responses) (t : Text) (ts : List Text) (n : ℕ) (rs : Responses)
    → atoi (trim_space t) ≡ some n
    → each_code update (t ∷ ts) rs ≡ each_code update ts (update n rs)
unfolding each_code
each_code-step update t ts n rs h = rw (h, each_code) refl

entry-kept :
    (description : Text) (s : Pointer) (k code : ℕ) (rs : Responses)
    → entry description s k (set_response description s code rs) ≡ entry description s k rs
entry-kept description s k code rs = rw (headers-kept description s k code rs) refl

-- What is found at a code, after one that is set.
after_one :
    (description : Text) (s : Pointer) (k n : ℕ) (rest : Bool) (rs : Responses)
    → (if rest
        then some (entry description s k (set_response description s n rs))
        else lookup_response k (set_response description s n rs))
      ≡ (if n == k || rest then some (entry description s k rs) else lookup_response k rs)
after_one description s k n true rs = elim (Bool-cases (n == k)) [
  | inl e ↦ rw e (ap some (entry-kept description s k n rs))
  | inr e ↦ rw e (ap some (entry-kept description s k n rs))
]
after_one description s k n false rs =
    let put : lookup_response k (set_response description s n rs)
        ≡ (if n == k then some (entry description s n rs) else lookup_response k rs) =
      unfold set_response in lookup-put k n (entry description s n rs) rs in
    elim (Bool-cases (n == k)) [
      | inl e ↦ put ∙ rw e (ap (λ j. some (entry description s j rs)) ((==_iff n k).0 e))
      | inr e ↦ put ∙ rw e refl
    ]

-- A response that is set for each of the codes.
each_code-set :
    (description : Text) (s : Pointer) (ts : List Text) (ns : List ℕ) (rs : Responses)
    → AreCodes ts ns
    → ((each_code (set_response description s) ts rs).1 ≡ none)
      × ((k : ℕ)
          → lookup_response k (each_code (set_response description s) ts rs).0
            ≡ (if among k ns then some (entry description s k rs) else lookup_response k rs))
unfolding among
each_code-set description s [] [] rs h = unfold each_code in (refl, λ k. refl)
each_code-set description s [] (n ∷ ns) rs h = absurd h
each_code-set description s (t ∷ ts) [] rs h = absurd h
each_code-set description s (t ∷ ts) (n ∷ ns) rs h =
    let step = each_code-step (set_response description s) t ts n rs h.0 in
    let rest = each_code-set description s ts ns (set_response description s n rs) h.1 in
    rw step (rest.0, λ k. rest.1 k ∙ after_one description s k n (among k ns) rs)

parse_response-found :
    {File : Type 0} (lib : Functions) (c : Context File)
    (line whole status_codes schema_type data_type description rest : Text) (rs : Responses)
    → find response_pattern line
      ≡ some (whole, (status_codes ∷ schema_type ∷ data_type ∷ description ∷ [], rest))
    → parse_response lib c line rs
      ≡ each_code
          (set_response
            (default_description description)
            (points (build_schema lib c schema_type data_type)))
          (split status_codes b',')
          rs
unfolding parse_response parse_response_with_schema
parse_response-found lib c line whole status_codes schema_type data_type description rest rs f =
    rw (f, parse_response) refl

-- An annotation of a response that has a schema, and whose status codes are numbers, gives no error.
-- It sets the response of each of the codes, with the description or "OK", the schema and the
-- headers that the response had before, and leaves the responses of other codes as they were.
pub parse_response-sets :
    {File : Type 0} (lib : Functions) (c : Context File)
    (line whole status_codes schema_type data_type description rest : Text) (ns : List ℕ)
    (rs : Responses)
    → find response_pattern line
      ≡ some (whole, (status_codes ∷ schema_type ∷ data_type ∷ description ∷ [], rest))
    → AreCodes (split status_codes b',') ns
    → ((parse_response lib c line rs).1 ≡ none)
      × ((k : ℕ)
          → lookup_response k (parse_response lib c line rs).0 ≡ (
              if among k ns
              then some (record {
                description = default_description description;
                schema = points (build_schema lib c schema_type data_type);
                headers = existing_headers k rs;
              })
              else lookup_response k rs))
parse_response-sets lib c line whole status_codes schema_type data_type description rest ns rs f h =
    rw
      (parse_response-found lib c line whole status_codes schema_type data_type description rest rs
        f)
      (each_code-set (default_description description)
        (points (build_schema lib c schema_type data_type)) (split status_codes b',') ns rs h)
