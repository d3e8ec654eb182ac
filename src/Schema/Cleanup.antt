-- ===== src/Schema/Cleanup.antt =====
-- internal/schema/cleanup.go and `getRefName` of internal/schema/reference.go: the definitions that
-- nothing refers to are removed from the specification.
--
-- The set `used` (a Go map whose values are all true) is a list of names. A Go map is walked in an
-- order that changes from one loop to the next, so the order of each round is an argument.
pub mod Names
pub mod Closure
pub mod Rounds
pub mod Kept
pub mod Pruned
pub mod Tests
use core_swag.Base.{
  ℕ, zero, suc, Bool, true, false, ◌&&◌, ◌||◌, not, List, [], ◌∷◌, Option, none, some, length, take,
  drop, ltb, if◌then◌else◌,
}
use core_swag.Base.Text.{Text, codes, text_eq, mem}
use core_swag.Spec.{
  Schema, schema, Schemas, nil, cons, Fields, end, field, OptSchema, absent, present, OptItems,
  no_items, items_of, OptAdditional, no_additional, additional, Items, item, item_of, Header,
  Response, Parameter, Responses, Operation, PathItem, Swagger,
}

abbrev pub definitions_prefix : Text
definitions_prefix = codes "#/definitions/"

-- `getRefName`
unfoldable pub get_ref_name : Text → Text
get_ref_name ref =
    let prefix = definitions_prefix in
    if ltb (length prefix) (length ref) && text_eq (take (length prefix) ref) prefix
    then drop (length prefix) ref
    else []

-- `used[name] = true`
unfoldable pub set_used : Text → List Text → List Text
set_used name used = if mem name used then used else name ∷ used

-- the test of a `$ref`, at the head of `collectSchemaRefs` and of `collectItemsRefs`
unfoldable pub mark_ref : Text → List Text → List Text
unfolding get_ref_name
mark_ref ref used =
    let name = get_ref_name ref in
    if text_eq ref [] then used else if text_eq name [] then used else set_used name used

-- `collectSchemaRefs`, with one function for each kind of field that holds schemas
unfoldable mutual
  pub collect_schema_refs : Schema → List Text → List Text
  collect_schema_refs (schema p items props addl all one any neg defs) used = collect_fields defs (
      collect_opt neg (
        collect_list any (
          collect_list one (
            collect_list all (
              collect_additional addl
                (collect_fields props (collect_items items (mark_ref p.ref used))))))))

  pub collect_list : Schemas → List Text → List Text
  collect_list nil used = used
  collect_list (cons s ss) used = collect_list ss (collect_schema_refs s used)

  pub collect_fields : Fields → List Text → List Text
  collect_fields end used = used
  collect_fields (field k s fs) used = collect_fields fs (collect_schema_refs s used)

  pub collect_opt : OptSchema → List Text → List Text
  collect_opt absent used = used
  collect_opt (present s) used = collect_schema_refs s used

  pub collect_items : OptItems → List Text → List Text
  collect_items no_items used = used
  collect_items (items_of s ss) used = collect_list ss (collect_opt s used)

  pub collect_additional : OptAdditional → List Text → List Text
  collect_additional no_additional used = used
  collect_additional (additional b s) used = collect_opt s used

-- `collectItemsRefs`
unfoldable pub collect_items_refs : Items → List Text → List Text
collect_items_refs (item p) used = mark_ref p.ref used
collect_items_refs (item_of p inner) used = collect_items_refs inner (mark_ref p.ref used)

unfoldable pub collect_opt_items : Option Items → List Text → List Text
collect_opt_items none used = used
collect_opt_items (some i) used = collect_items_refs i used

-- `collectRefs` at a response
unfoldable pub collect_headers : List (Text × Header) → List Text → List Text
collect_headers [] used = used
collect_headers ((k, h) ∷ hs) used = collect_headers hs (collect_opt_items h.items used)

unfoldable pub collect_response : Response → List Text → List Text
collect_response r used = collect_headers r.headers (collect_opt r.schema used)

-- `collectRefs` at a parameter
unfoldable pub collect_parameter : Parameter → List Text → List Text
collect_parameter p used = collect_opt_items p.items (collect_opt p.schema used)

unfoldable pub collect_parameters : List Parameter → List Text → List Text
collect_parameters [] used = used
collect_parameters (p ∷ ps) used = collect_parameters ps (collect_parameter p used)

-- `collectRefs` at an operation
unfoldable pub collect_status : List (ℕ × Response) → List Text → List Text
collect_status [] used = used
collect_status ((code, r) ∷ rs) used = collect_status rs (collect_response r used)

unfoldable pub collect_default : Option Response → List Text → List Text
collect_default none used = used
collect_default (some r) used = collect_response r used

unfoldable pub collect_responses : Option Responses → List Text → List Text
collect_responses none used = used
collect_responses (some r) used =
    collect_default r.default (collect_status r.status_code_responses used)

unfoldable pub collect_operation : Option Operation → List Text → List Text
collect_operation none used = used
collect_operation (some o) used =
    collect_responses o.responses (collect_parameters o.parameters used)

-- `collectRefs` at a path item
unfoldable pub collect_path_item : PathItem → List Text → List Text
collect_path_item i used = collect_parameters i.parameters (
    collect_operation i.patch (
      collect_operation i.head (
        collect_operation i.options (
          collect_operation i.delete
            (collect_operation i.post (collect_operation i.put (collect_operation i.get used)))))))

unfoldable pub collect_paths : List (Text × PathItem) → List Text → List Text
collect_paths [] used = used
collect_paths ((k, i) ∷ is) used = collect_paths is (collect_path_item i used)

unfoldable pub collect_named_parameters : List (Text × Parameter) → List Text → List Text
collect_named_parameters [] used = used
collect_named_parameters ((k, p) ∷ ps) used = collect_named_parameters ps (collect_parameter p used)

unfoldable pub collect_named_responses : List (Text × Response) → List Text → List Text
collect_named_responses [] used = used
collect_named_responses ((k, r) ∷ rs) used = collect_named_responses rs (collect_response r used)

-- `collectRefs` at the specification; `none` is the fault of reading through a nil Paths.
unfoldable pub collect_swagger : Swagger → List Text → Option (List Text)
collect_swagger sw used = elim sw.paths [
  | none ↦ none
  | some ps ↦ some (
      collect_named_responses sw.responses
        (collect_named_parameters sw.parameters (collect_paths ps used)))
]

-- `definitions[name]`; of a map that holds a key twice the first entry counts
unfoldable pub lookup_definition : Text → List (Text × Schema) → Option Schema
lookup_definition name [] = none
lookup_definition name ((k, s) ∷ ds) = if text_eq k name then some s else lookup_definition name ds

unfoldable pub collect_definition : Option Schema → List Text → List Text
collect_definition none used = used
collect_definition (some s) used = collect_schema_refs s used

-- the body of the inner loop of `RemoveUnusedDefinitions`
unfoldable pub visit : List (Text × Schema) → Text → List Text → List Text
visit defs name used =
    if mem name used then collect_definition (lookup_definition name defs) used else used

-- `len(used) > beforeCount`
unfoldable pub grows : List Text → List Text → Bool
grows before after = ltb (length before) (length after)

-- the inner loop, over the names in the order of this round; the flag is `changed`
unfoldable pub round : List (Text × Schema) → List Text → Bool → List Text → Bool × List Text
round defs [] changed used = (changed, used)
round defs (name ∷ names) changed used =
    let after = visit defs name used in round defs names (changed || grows used after) after

-- the outer loop; `order k` is the order of round `k`, and `none` means that the fuel ran out
unfoldable pub closure :
    ℕ → List (Text × Schema) → (ℕ → List Text) → ℕ → List Text → Option (List Text)
closure zero defs order k used = none
closure (suc fuel) defs order k used =
    let (changed, after) = round defs (order k) false used in
    elim changed [ true ↦ closure fuel defs order (suc k) after | false ↦ some after ]

-- the last loop
unfoldable pub delete_unused : List Text → List (Text × Schema) → List (Text × Schema)
delete_unused used [] = []
delete_unused used ((k, s) ∷ ds) =
    let rest = delete_unused used ds in if mem k used then (k, s) ∷ rest else rest

-- `RemoveUnusedDefinitions`; the result is `none` at a fault and where the fuel runs out
unfoldable pub remove_unused_definitions : ℕ → (ℕ → List Text) → Swagger → Option Swagger
remove_unused_definitions fuel order sw = elim sw.definitions [
  | none ↦ some sw
  | some defs ↦ elim (collect_swagger sw []) [
    | none ↦ none
    | some roots ↦ elim (closure fuel defs order 0 roots) [
      | none ↦ none
      | some used ↦ some (record sw { definitions = some (delete_unused used defs) })
    ]
  ]
]
