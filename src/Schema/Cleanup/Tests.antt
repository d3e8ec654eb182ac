-- ===== src/Schema/Cleanup/Tests.antt =====
-- Runs of `RemoveUnusedDefinitions` on a small specification, and its theorems there.
use core_swag.Base.{ℕ, ◌≡◌, refl, true, false, List, [], ◌∷◌, none, some, arith}
use core_swag.Base.Text.{Text, codes, text_eq, text_eq_iff, mem}
use core_swag.Spec.{
  Schema, schema, plain, no_props, end, items_of, nil, absent, present, no_additional, Swagger,
  PathItem, Operation, Parameter,
}
use core_swag.Schema.Cleanup.{
  lookup_definition, remove_unused_definitions, collect_swagger, closure, round, visit, grows,
  delete_unused, collect_named_responses, collect_named_parameters, collect_paths,
  collect_path_item, collect_parameters, collect_operation, collect_responses, collect_parameter,
  collect_opt_items, collect_opt, mark_ref, set_used, get_ref_name, collect_definition,
}
use core_swag.Schema.Cleanup.Names.{schema_names, root_names, ref_names}
use core_swag.Schema.Cleanup.Closure.{all_names}
use core_swag.Schema.Cleanup.Kept.{Covers, remove_unused_definitions-total}
use core_swag.Schema.Cleanup.Pruned.{
  IsPruned, remove_unused_definitions-IsPruned, remove_unused_definitions-deterministic,
  remove_unused_definitions-no_dangling,
}

-- What a run computes with.
evaluation : Unit {0}
unfolding remove_unused_definitions collect_swagger closure round visit delete_unused grows
    collect_named_responses collect_named_parameters collect_paths collect_path_item
    collect_parameters collect_operation collect_responses collect_parameter collect_opt_items
    collect_opt mark_ref text_eq set_used mem collect_definition lookup_definition get_ref_name
    all_names schema_names ref_names
evaluation = tt

abbrev ref_to : Text → Schema
ref_to name = plain (record no_props { ref = name })

-- `Account` holds an array of `Role`; nothing refers to `Orphan`.
abbrev account : Schema
account =
    schema no_props (items_of (present (ref_to (codes "#/definitions/Role"))) nil) end no_additional
      nil nil nil absent end

abbrev defs : List (Text × Schema)
defs =
    (codes "Role", plain no_props)
    ∷ (codes "Orphan", ref_to (codes "#/definitions/Role"))
    ∷ (codes "Account", account)
    ∷ []

abbrev body : Parameter
body = record {
  name = codes "account";
  in_ = codes "body";
  required = true;
  description = [];
  schema = present (ref_to (codes "#/definitions/Account"));
  type = [];
  format = [];
  items = none;
  default = none;
  enum = [];
  minimum = none;
  maximum = none;
  min_length = none;
  max_length = none;
}

abbrev create : Operation
create = record {
  id = [];
  summary = [];
  description = [];
  tags = [];
  consumes = [];
  produces = [];
  deprecated = false;
  extensions = [];
  parameters = body ∷ [];
  responses = none;
  security = [];
}

abbrev accounts : PathItem
accounts = record {
  get = none;
  put = none;
  post = some create;
  delete = none;
  options = none;
  head = none;
  patch = none;
  parameters = [];
}

abbrev paths : List (Text × PathItem)
paths = (codes "/accounts", accounts) ∷ []

abbrev before : Swagger
before = record { paths = some paths; parameters = []; responses = []; definitions = some defs }

abbrev after : Swagger
after = record before {
  definitions = some ((codes "Role", plain no_props) ∷ (codes "Account", account) ∷ []);
}

abbrev forwards : ℕ → List Text
forwards k = codes "Role" ∷ codes "Orphan" ∷ codes "Account" ∷ []

abbrev backwards : ℕ → List Text
backwards k = codes "Account" ∷ codes "Orphan" ∷ codes "Role" ∷ []

remove_forwards : remove_unused_definitions 3 forwards before ≡ some after
unfolding evaluation
remove_forwards = refl

remove_backwards : remove_unused_definitions 3 backwards before ≡ some after
unfolding evaluation
remove_backwards = refl

forwards-Covers : Covers defs forwards
unfolding lookup_definition mem
forwards-Covers k n h = ground (
  arith,
  text_eq_iff (codes "Role") n,
  text_eq_iff (codes "Orphan") n,
  text_eq_iff (codes "Account") n,
)

backwards-Covers : Covers defs backwards
unfolding lookup_definition mem
backwards-Covers k n h = ground (
  arith,
  text_eq_iff (codes "Role") n,
  text_eq_iff (codes "Orphan") n,
  text_eq_iff (codes "Account") n,
)

remove_unused_definitions-total_example :
    (out : Swagger) × (remove_unused_definitions 3 forwards before ≡ some out)
unfolding evaluation
remove_unused_definitions-total_example =
    remove_unused_definitions-total 3 forwards before defs paths refl refl (omega arith)

remove_unused_definitions-IsPruned_example :
    (kept : List (Text × Schema)) × (after ≡ record before { definitions = some kept })
    × IsPruned defs (root_names paths before) kept
remove_unused_definitions-IsPruned_example =
    remove_unused_definitions-IsPruned 3 forwards before after defs paths refl refl forwards-Covers
      remove_forwards

remove_unused_definitions-deterministic_example : after ≡ after
remove_unused_definitions-deterministic_example =
    remove_unused_definitions-deterministic 3 3 forwards backwards before after after defs paths
      refl refl forwards-Covers backwards-Covers remove_forwards remove_backwards

remove_unused_definitions-no_dangling_example :
    lookup_definition
      (codes "Role")
      ((codes "Role", plain no_props) ∷ (codes "Account", account) ∷ [])
    ≡ lookup_definition (codes "Role") defs
unfolding evaluation
remove_unused_definitions-no_dangling_example =
    remove_unused_definitions-no_dangling 3 forwards before defs _ paths (codes "Account")
      (codes "Role") account refl refl forwards-Covers remove_forwards refl refl
