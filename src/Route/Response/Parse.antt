-- ===== src/Route/Response/Parse.antt =====
-- `parseResponse`, its two parts, and `parseHeader` of internal/parser/route/response.go: the map
-- of responses, from status codes. A map is an association list.
use core_swag.Base.{
  ℕ, ◌+◌, ◌-◌, ◌*◌, ◌^◌, ◌==◌, ◌&&◌, List, [], ◌∷◌, Option, none, some, ltb, leb, if◌then◌else◌,
}
use core_swag.Base.Text.{Text, codes, text_eq, trim_space, split, to_lower}
use core_swag.Base.Pattern.{Match, find, response_pattern, empty_response_pattern}
use core_swag.Spec.{Functions}
use core_swag.Route.Domain.{Pointer, null, points, DomainHeader, DomainResponse}
use core_swag.Route.TypeNames.{convert_type_to_schema_type}
use core_swag.Route.Response.{Context}
use core_swag.Route.Response.Combined.{build_schema}

abbrev pub Responses : Type 0
Responses = List (ℕ × DomainResponse)

pub data ResponseError : Type 0 where
  invalid_response : Text → ResponseError
  invalid_header : Text → ResponseError
  invalid_status_code : Text → ResponseError

-- The responses as they are left, and the error that is returned.
abbrev pub Outcome : Type 0
Outcome = Responses × Option ResponseError

unfoldable pub digits : ℕ → Text → Option ℕ
digits n [] = some n
digits n (c ∷ s) =
    let rest = digits (n * 10 + (c - b'0')) s in if leb b'0' c && leb c b'9' then rest else none

-- `strconv.Atoi`, on what the patterns let through: a sign is not among it
unfoldable pub atoi : Text → Option ℕ
atoi [] = none
atoi (c ∷ s) = elim (digits 0 (c ∷ s)) [
  | none ↦ none
  | some n ↦ if ltb n (2 ^ 63) then some n else none
]

unfoldable pub lookup_response : ℕ → Responses → Option DomainResponse
lookup_response code [] = none
lookup_response code ((k, r) ∷ rs) = if k == code then some r else lookup_response code rs

unfoldable pub put_response : ℕ → DomainResponse → Responses → Responses
put_response code r [] = (code, r) ∷ []
put_response code r ((k, s) ∷ rs) =
    let rest = put_response code r rs in if k == code then (k, r) ∷ rs else (k, s) ∷ rest

unfoldable pub put_header :
    Text → DomainHeader → List (Text × DomainHeader) → List (Text × DomainHeader)
put_header name h [] = (name, h) ∷ []
put_header name h ((k, g) ∷ hs) =
    let rest = put_header name h hs in if text_eq k name then (k, h) ∷ hs else (k, g) ∷ rest

-- A loop over comma-separated status codes, which stops at one that is no number.
unfoldable pub each_code : (ℕ → Responses → Responses) → List Text → Responses → Outcome
each_code update [] rs = (rs, none)
each_code update (t ∷ ts) rs = elim (atoi (trim_space t)) [
  | none ↦ (rs, some (invalid_status_code (trim_space t)))
  | some code ↦ each_code update ts (update code rs)
]

abbrev pub headers_of : Option DomainResponse → List (Text × DomainHeader)
headers_of none = []
headers_of (some r) = r.headers

-- the headers of a response that is there already
unfoldable pub existing_headers : ℕ → Responses → List (Text × DomainHeader)
existing_headers code rs = headers_of (lookup_response code rs)

-- the body of the loops of `parseResponseWithSchema` and `parseEmptyResponse`
unfoldable pub set_response : Text → Pointer → ℕ → Responses → Responses
set_response description s code rs =
    put_response code
      (record { description = description; schema = s; headers = existing_headers code rs }) rs

-- the body of the loop of `parseHeader`
unfoldable pub set_header : Text → DomainHeader → ℕ → Responses → Responses
set_header name h code rs = elim (lookup_response code rs) [
  | none ↦
      put_response code (record { description = []; schema = null; headers = (name, h) ∷ [] }) rs
  | some r ↦ put_response code (record r { headers = put_header name h r.headers }) rs
]

-- the loop over all responses of `parseHeader`
unfoldable pub set_everywhere : Text → DomainHeader → Responses → Responses
set_everywhere name h [] = []
set_everywhere name h ((k, r) ∷ rs) =
    (k, record r { headers = put_header name h r.headers }) ∷ set_everywhere name h rs

unfoldable pub default_description : Text → Text
default_description d = if text_eq d [] then codes "OK" else d

-- `parseEmptyResponse`, or the error of a line that does not match either
unfoldable pub parse_empty_response : Text → Option (Text × Match) → Responses → Outcome
parse_empty_response line (some (whole, (status_codes ∷ description ∷ [], rest))) rs =
    each_code (set_response description null) (split status_codes b',') rs
parse_empty_response line _ rs = (rs, some (invalid_response line))

module _ {File : Type 0} (lib : Functions) (c : Context File) where
  -- `parseResponseWithSchema`, or what is done with a line that does not match
  unfoldable pub parse_response_with_schema : Text → Option (Text × Match) → Responses → Outcome
  parse_response_with_schema line
        (some (whole, (status_codes ∷ schema_type ∷ data_type ∷ description ∷ [], rest))) rs =
      each_code
        (set_response (default_description description)
          (points (build_schema lib c schema_type data_type)))
        (split status_codes b',') rs
  parse_response_with_schema line _ rs =
      parse_empty_response line (find empty_response_pattern line) rs

  -- `parseResponse`
  unfoldable pub parse_response : Text → Responses → Outcome
  parse_response line rs = parse_response_with_schema line (find response_pattern line) rs

unfoldable pub set_headers : Text → Text → DomainHeader → Responses → Outcome
set_headers status_codes name h rs =
    if text_eq (to_lower status_codes) (codes "all")
    then (set_everywhere name h rs, none)
    else each_code (set_header name h) (split status_codes b',') rs

unfoldable pub parse_matched_header : Text → Option (Text × Match) → Responses → Outcome
parse_matched_header line
      (some (whole, (status_codes ∷ header_type ∷ name ∷ description ∷ [], rest))) rs =
    set_headers status_codes name
      (record {
        type = convert_type_to_schema_type header_type;
        description = description;
        format = [];
      })
      rs
parse_matched_header line _ rs = (rs, some (invalid_header line))

-- `parseHeader`
unfoldable pub parse_header : Text → Responses → Outcome
parse_header line rs = parse_matched_header line (find response_pattern line) rs
