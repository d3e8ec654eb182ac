-- ===== src/Schema/Cleanup/Names.antt =====
-- The collectors as lists of names: each marks the names that its argument refers to.
use core_swag.Base.{ℕ, ◌≡◌, refl, Option, none, some, List, [], ◌∷◌, ◌++◌, if◌then◌else◌, arith}
use core_swag.Base.Text.{Text, text_eq}
use core_swag.Spec.{
  Schema, schema, Schemas, nil, cons, Fields, end, field, OptSchema, absent, present, OptItems,
  no_items, items_of, OptAdditional, no_additional, additional, Items, item, item_of, Header,
  Response, Parameter, Responses, Operation, PathItem, Swagger,
}
use core_swag.Schema.Cleanup.{
  get_ref_name, set_used, mark_ref, collect_schema_refs, collect_list, collect_fields, collect_opt,
  collect_items, collect_additional, collect_items_refs, collect_opt_items, collect_headers,
  collect_response, collect_parameter, collect_parameters, collect_status, collect_default,
  collect_responses, collect_operation, collect_path_item, collect_paths, collect_named_parameters,
  collect_named_responses, collect_swagger,
}

-- The name that a `$ref` gives, if it is one of a definition.
unfoldable pub ref_names : Text → List Text
ref_names ref = let name = get_ref_name ref in if text_eq name [] then [] else name ∷ []

unfoldable mutual
  pub schema_names : Schema → List Text
  schema_names (schema p items props addl all one any neg defs) =
      ref_names p.ref
      ++ (items_names items
          ++ (fields_names props
              ++ (additional_names addl
                  ++ (list_names all
                      ++ (list_names one
                          ++ (list_names any ++ (opt_names neg ++ fields_names defs)))))))

  pub list_names : Schemas → List Text
  list_names nil = []
  list_names (cons s ss) = schema_names s ++ list_names ss

  pub fields_names : Fields → List Text
  fields_names end = []
  fields_names (field k s fs) = schema_names s ++ fields_names fs

  pub opt_names : OptSchema → List Text
  opt_names absent = []
  opt_names (present s) = schema_names s

  pub items_names : OptItems → List Text
  items_names no_items = []
  items_names (items_of s ss) = opt_names s ++ list_names ss

  pub additional_names : OptAdditional → List Text
  additional_names no_additional = []
  additional_names (additional b s) = opt_names s

unfoldable pub mark_all : List Text → List Text → List Text
mark_all [] used = used
mark_all (n ∷ ns) used = mark_all ns (set_used n used)

pub mark_all-append :
    (xs ys used : List Text) → mark_all (xs ++ ys) used ≡ mark_all ys (mark_all xs used)
unfolding mark_all
mark_all-append [] ys used = refl
mark_all-append (x ∷ xs) ys used = mark_all-append xs ys (set_used x used)

pub mark_ref-names :
    (ref : Text) (used : List Text) → mark_ref ref used ≡ mark_all (ref_names ref) used
unfolding mark_ref ref_names mark_all text_eq get_ref_name
mark_ref-names [] used = refl
mark_ref-names (c ∷ ref) used = ground arith

mutual
  unfolding collect_schema_refs schema_names mark_all

  pub collect_schema_refs-names :
      (s : Schema) (used : List Text) → collect_schema_refs s used ≡ mark_all (schema_names s) used
  collect_schema_refs-names (schema p items props addl all one any neg defs) used = simp (
    mark_all-append,
    mark_ref-names,
    collect_items-names items,
    collect_fields-names props,
    collect_additional-names addl,
    collect_list-names all,
    collect_list-names one,
    collect_list-names any,
    collect_opt-names neg,
    collect_fields-names defs,
  )

  collect_list-names :
      (ss : Schemas) (used : List Text) → collect_list ss used ≡ mark_all (list_names ss) used
  collect_list-names nil used = refl
  collect_list-names (cons s ss) used =
      simp (mark_all-append, collect_schema_refs-names s, collect_list-names ss)

  collect_fields-names :
      (fs : Fields) (used : List Text) → collect_fields fs used ≡ mark_all (fields_names fs) used
  collect_fields-names end used = refl
  collect_fields-names (field k s fs) used =
      simp (mark_all-append, collect_schema_refs-names s, collect_fields-names fs)

  collect_opt-names :
      (o : OptSchema) (used : List Text) → collect_opt o used ≡ mark_all (opt_names o) used
  collect_opt-names absent used = refl
  collect_opt-names (present s) used = collect_schema_refs-names s used

  collect_items-names :
      (i : OptItems) (used : List Text) → collect_items i used ≡ mark_all (items_names i) used
  collect_items-names no_items used = refl
  collect_items-names (items_of s ss) used =
      simp (mark_all-append, collect_opt-names s, collect_list-names ss)

  collect_additional-names :
      (a : OptAdditional) (used : List Text)
      → collect_additional a used ≡ mark_all (additional_names a) used
  collect_additional-names no_additional used = refl
  collect_additional-names (additional b s) used = collect_opt-names s used

-- The collectors above a schema, likewise.
unfoldable pub item_names : Items → List Text
item_names (item p) = ref_names p.ref
item_names (item_of p inner) = ref_names p.ref ++ item_names inner

unfoldable pub opt_item_names : Option Items → List Text
opt_item_names none = []
opt_item_names (some i) = item_names i

collect_items_refs-names :
    (i : Items) (used : List Text) → collect_items_refs i used ≡ mark_all (item_names i) used
unfolding collect_items_refs item_names
collect_items_refs-names (item p) used = mark_ref-names p.ref used
collect_items_refs-names (item_of p inner) used =
    simp (mark_all-append, mark_ref-names, collect_items_refs-names inner)

collect_opt_items-names :
    (i : Option Items) (used : List Text)
    → collect_opt_items i used ≡ mark_all (opt_item_names i) used
unfolding collect_opt_items opt_item_names mark_all
collect_opt_items-names none used = refl
collect_opt_items-names (some i) used = collect_items_refs-names i used

unfoldable pub header_names : List (Text × Header) → List Text
header_names [] = []
header_names ((k, h) ∷ hs) = opt_item_names h.items ++ header_names hs

unfoldable pub response_names : Response → List Text
response_names r = opt_names r.schema ++ header_names r.headers

unfoldable pub parameter_names : Parameter → List Text
parameter_names p = opt_names p.schema ++ opt_item_names p.items

collect_headers-names :
    (hs : List (Text × Header)) (used : List Text)
    → collect_headers hs used ≡ mark_all (header_names hs) used
unfolding collect_headers header_names mark_all
collect_headers-names [] used = refl
collect_headers-names ((k, h) ∷ hs) used =
    simp (mark_all-append, collect_opt_items-names, collect_headers-names hs)

collect_response-names :
    (r : Response) (used : List Text) → collect_response r used ≡ mark_all (response_names r) used
unfolding collect_response response_names
collect_response-names r used = simp (mark_all-append, collect_opt-names, collect_headers-names)

collect_parameter-names :
    (p : Parameter) (used : List Text)
    → collect_parameter p used ≡ mark_all (parameter_names p) used
unfolding collect_parameter parameter_names
collect_parameter-names p used = simp (mark_all-append, collect_opt-names, collect_opt_items-names)

-- A loop whose body marks the names of each element marks the names of all of them.
module _ {A : Type 0} (names : A → List Text) where
  abbrev pub each_names : List A → List Text
  each_names [] = []
  each_names (x ∷ xs) = names x ++ each_names xs

unfoldable pub responses_names : Option Responses → List Text
responses_names none = []
responses_names (some r) =
    each_names (λ c. response_names c.1) r.status_code_responses
    ++ elim r.default [ none ↦ [] | some d ↦ response_names d ]

unfoldable pub operation_names : Option Operation → List Text
operation_names none = []
operation_names (some o) = each_names parameter_names o.parameters ++ responses_names o.responses

unfoldable pub path_item_names : PathItem → List Text
path_item_names i =
    operation_names i.get
    ++ (operation_names i.put
        ++ (operation_names i.post
            ++ (operation_names i.delete
                ++ (operation_names i.options
                    ++ (operation_names i.head
                        ++ (operation_names i.patch ++ each_names parameter_names i.parameters))))))

-- What the specification refers to outside its definitions.
unfoldable pub root_names : List (Text × PathItem) → Swagger → List Text
root_names ps sw =
    each_names (λ c. path_item_names c.1) ps
    ++ (each_names (λ c. parameter_names c.1) sw.parameters
        ++ each_names (λ c. response_names c.1) sw.responses)

collect_parameters-names :
    (ps : List Parameter) (used : List Text)
    → collect_parameters ps used ≡ mark_all (each_names parameter_names ps) used
unfolding collect_parameters mark_all
collect_parameters-names [] used = refl
collect_parameters-names (p ∷ ps) used =
    simp (mark_all-append, collect_parameter-names, collect_parameters-names ps)

collect_status-names :
    (rs : List (ℕ × Response)) (used : List Text)
    → collect_status rs used ≡ mark_all (each_names (λ c. response_names c.1) rs) used
unfolding collect_status mark_all
collect_status-names [] used = refl
collect_status-names ((k, r) ∷ rs) used =
    simp (mark_all-append, collect_response-names, collect_status-names rs)

collect_default-names :
    (d : Option Response) (used : List Text)
    → collect_default d used ≡ mark_all (elim d [ none ↦ [] | some r ↦ response_names r ]) used
unfolding collect_default mark_all
collect_default-names none used = refl
collect_default-names (some r) used = collect_response-names r used

collect_responses-names :
    (r : Option Responses) (used : List Text)
    → collect_responses r used ≡ mark_all (responses_names r) used
unfolding collect_responses responses_names mark_all
collect_responses-names none used = refl
collect_responses-names (some r) used =
    simp (mark_all-append, collect_status-names, collect_default-names)

pub collect_operation-names :
    (o : Option Operation) (used : List Text)
    → collect_operation o used ≡ mark_all (operation_names o) used
unfolding collect_operation operation_names mark_all
collect_operation-names none used = refl
collect_operation-names (some o) used =
    simp (mark_all-append, collect_parameters-names, collect_responses-names)

collect_path_item-names :
    (i : PathItem) (used : List Text) → collect_path_item i used ≡ mark_all (path_item_names i) used
unfolding collect_path_item path_item_names
collect_path_item-names i used =
    simp (mark_all-append, collect_operation-names, collect_parameters-names)

collect_paths-names :
    (ps : List (Text × PathItem)) (used : List Text)
    → collect_paths ps used ≡ mark_all (each_names (λ c. path_item_names c.1) ps) used
unfolding collect_paths mark_all
collect_paths-names [] used = refl
collect_paths-names ((k, i) ∷ ps) used =
    simp (mark_all-append, collect_path_item-names, collect_paths-names ps)

collect_named_parameters-names :
    (ps : List (Text × Parameter)) (used : List Text)
    → collect_named_parameters ps used ≡ mark_all (each_names (λ c. parameter_names c.1) ps) used
unfolding collect_named_parameters mark_all
collect_named_parameters-names [] used = refl
collect_named_parameters-names ((k, p) ∷ ps) used =
    simp (mark_all-append, collect_parameter-names, collect_named_parameters-names ps)

collect_named_responses-names :
    (rs : List (Text × Response)) (used : List Text)
    → collect_named_responses rs used ≡ mark_all (each_names (λ c. response_names c.1) rs) used
unfolding collect_named_responses mark_all
collect_named_responses-names [] used = refl
collect_named_responses-names ((k, r) ∷ rs) used =
    simp (mark_all-append, collect_response-names, collect_named_responses-names rs)

pub collect_swagger-names :
    (sw : Swagger) (ps : List (Text × PathItem)) (used : List Text)
    → sw.paths ≡ some ps
    → collect_swagger sw used ≡ some (mark_all (root_names ps sw) used)
unfolding collect_swagger root_names
collect_swagger-names sw ps used h = rw h (
    simp (
      mark_all-append, collect_paths-names, collect_named_parameters-names,
      collect_named_responses-names,
    ))
