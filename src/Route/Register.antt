-- ===== src/Route/Register.antt =====
-- internal/parser/route/registration.go: the routes become operations of the paths. The map of
-- paths is an association list, and a pointer to a field of a path item is the field's name. The
-- lines that write to the log are left out, and no route is nil.
pub mod Slots
pub mod Step
pub mod Parameters
pub mod Lenient
pub mod Strict
pub mod Tests
use core_swag.Base.{
  Bool, true, false, ◌&&◌, not, List, [], ◌∷◌, ◌++◌, Option, none, some, if◌then◌else◌,
}
use core_swag.Base.Text.{Text, codes, text_eq, contains}
use core_swag.Spec.{Functions, Parameter, Operation, PathItem, Swagger}
use core_swag.Route.Domain.{Route}
use core_swag.Route.Convert.{route_to_spec_operation}

-- the fields that `refRouteMethodOp` points to
pub data Slot : Type 0 where
  get : Slot
  post : Slot
  delete : Slot
  put : Slot
  patch : Slot
  head : Slot
  options : Slot

-- `refRouteMethodOp`; `none` is nil
unfoldable pub ref_route_method_op : Text → Option Slot
ref_route_method_op method =
    if text_eq method (codes "GET")
    then some get
    else if text_eq method (codes "POST")
    then some post
    else if text_eq method (codes "DELETE")
    then some delete
    else if text_eq method (codes "PUT")
    then some put
    else if text_eq method (codes "PATCH")
    then some patch
    else if text_eq method (codes "HEAD")
    then some head
    else if text_eq method (codes "OPTIONS")
    then some options
    else none

-- `*op`, and `*op = specOp`
unfoldable pub read : Slot → PathItem → Option Operation
read get i = i.get
read post i = i.post
read delete i = i.delete
read put i = i.put
read patch i = i.patch
read head i = i.head
read options i = i.options

unfoldable pub write : Slot → Operation → PathItem → PathItem
write get o i = record i { get = some o }
write post o i = record i { post = some o }
write delete o i = record i { delete = some o }
write put o i = record i { put = some o }
write patch o i = record i { patch = some o }
write head o i = record i { head = some o }
write options o i = record i { options = some o }

abbrev pub no_operations : PathItem
no_operations = record {
  get = none;
  put = none;
  post = none;
  delete = none;
  options = none;
  head = none;
  patch = none;
  parameters = [];
}

abbrev pub PathMap : Type 0
PathMap = List (Text × PathItem)

-- `swagger.Paths.Paths[path]`, read and written
unfoldable pub lookup_path : Text → PathMap → Option PathItem
lookup_path path [] = none
lookup_path path ((k, i) ∷ ps) = if text_eq k path then some i else lookup_path path ps

unfoldable pub set_path : Text → PathItem → PathMap → PathMap
set_path path item [] = (path, item) ∷ []
set_path path item ((k, i) ∷ ps) =
    let rest = set_path path item ps in if text_eq k path then (k, item) ∷ ps else (k, i) ∷ rest

-- the test of `filterValidPathParameters`: what is not in the path, or stands in it in braces
unfoldable pub is_valid_in : Text → Parameter → Bool
is_valid_in path p =
    not (text_eq p.in_ (codes "path") && not (contains path (codes "{" ++ (p.name ++ codes "}"))))

-- `filterValidPathParameters`
unfoldable pub filter_valid_path_parameters : List Parameter → Text → List Parameter
filter_valid_path_parameters [] path = []
filter_valid_path_parameters (p ∷ ps) path =
    let rest = filter_valid_path_parameters ps path in if is_valid_in path p then p ∷ rest else rest

pub data RegisterError : Type 0 where
  invalid_method : Text → RegisterError
  declared_multiple_times : Text → Text → RegisterError

-- The paths as they are left, and the error that is returned.
abbrev pub Outcome : Type 0
Outcome = PathMap × Option RegisterError

unfoldable pub item_at : Text → PathMap → PathItem
item_at path ps = elim (lookup_path path ps) [ none ↦ no_operations | some i ↦ i ]

-- the paths, made empty if there are none
unfoldable pub paths_of : Swagger → PathMap
paths_of sw = elim sw.paths [ none ↦ [] | some ps ↦ ps ]

module _ (lib : Functions) where
  -- the operation that is set
  unfoldable pub registered_operation : Route → Operation
  registered_operation r =
      let o = route_to_spec_operation lib r in
      record o { parameters = filter_valid_path_parameters o.parameters r.path }

  -- `registerRoute` behind its test of the method
  unfoldable pub register_at : Bool → Route → Slot → PathMap → Outcome
  register_at strict r slot ps =
      let item = item_at r.path ps in
      let done : Outcome = (set_path r.path (write slot (registered_operation r) item) ps, none) in
      elim (read slot item) [
        | none ↦ done
        | some o ↦ if strict then (ps, some (declared_multiple_times r.method r.path)) else done
      ]

  -- `registerRoute`
  unfoldable pub register_route : Bool → Route → PathMap → Outcome
  register_route strict r ps = elim (ref_route_method_op r.method) [
    | none ↦ (ps, some (invalid_method r.method))
    | some slot ↦ register_at strict r slot ps
  ]

  -- the loop of `RegisterRoutes`
  unfoldable pub register_all : Bool → List Route → PathMap → Outcome
  register_all strict [] ps = (ps, none)
  register_all strict (r ∷ rs) ps =
      let (after, error) = register_route strict r ps in
      let rest = register_all strict rs after in
      elim error [ some e ↦ (after, some e) | none ↦ rest ]

  -- `RegisterRoutes`
  unfoldable pub register_routes : Swagger → List Route → Bool → Swagger × Option RegisterError
  register_routes sw rs strict =
      let (after, error) = register_all strict rs (paths_of sw) in
      (record sw { paths = some after }, error)
