-- ===== src/Orchestrator/Refs/Tests.antt =====
-- Runs of the collectors, and the theorems on them there.
use core_swag.Base.{◌≡◌, refl, false, [], ◌∷◌, none, some}
use core_swag.Base.Text.{codes, text_eq, mem, trim_prefix, has_prefix, join, last_index}
use core_swag.Route.Domain.{
  DomainSchema, domain, null, points, no_pointers, no_properties, property, domain_ref, Route,
  DomainResponse,
}
use core_swag.Orchestrator.Refs.{
  lookup_ref, collect_referenced_types, decimal, decimal_onto, route_source, base_name,
  collect_onto, collect_refs_from_route, collect_from_parameters, collect_from_responses,
  collect_pointer, add_ref, add_name,
}
use core_swag.Orchestrator.Refs.First.{
  mentions, route_mentions, responses_mentions, schema_mentions, ref_mentions, parameters_mentions,
  collect_referenced_types-first,
}

evaluation : Unit {0}
unfolding text_eq mem trim_prefix has_prefix join last_index lookup_ref collect_referenced_types
    decimal decimal_onto route_source base_name collect_onto collect_refs_from_route
    collect_from_parameters collect_from_responses collect_pointer add_ref add_name mentions
    route_mentions responses_mentions schema_mentions ref_mentions parameters_mentions
evaluation = tt

-- `Page{data=[]Account}` as a response
abbrev page : DomainSchema
page =
    domain (codes "object") [] [] null
      (property (codes "data")
        (points (
          domain (codes "array") [] []
            (points (domain_ref (codes "#/definitions/Account") (codes "app/account.Account")))
            no_properties null no_pointers [] []))
        no_properties)
      null no_pointers [] []

abbrev answer : DomainResponse
answer = record { description = codes "ok"; schema = points page; headers = [] }

abbrev list_accounts : Route
list_accounts = record {
  method = codes "GET";
  path = codes "/accounts";
  summary = [];
  description = [];
  tags = [];
  parameters = [];
  responses = (200, answer) ∷ [];
  security = [];
  consumes = [];
  produces = [];
  is_public = false;
  deprecated = false;
  operation_id = [];
  file_path = codes "app/handlers.go";
  function_name = codes "List";
  line_number = 307;
}

source_of_list : route_source list_accounts ≡ codes "GET /accounts → List (handlers.go:307)"
unfolding evaluation
source_of_list = refl

collect_referenced_types-first_example :
    lookup_ref (codes "Account") (collect_referenced_types (none ∷ some list_accounts ∷ []))
    ≡ some (record {
      source = codes "GET /accounts → List (handlers.go:307)";
      type_path = codes "app/account.Account";
    })
unfolding evaluation
collect_referenced_types-first_example =
    collect_referenced_types-first (none ∷ some list_accounts ∷ []) (codes "Account")
