-- ===== src/Registry/Register.antt =====
-- internal/registry/types.go: the types of the declarations of a file are registered.
use core_swag.Base.{
  ℕ, Bool, true, false, List, [], ◌∷◌, ◌++◌, map, Option, none, some, length, if◌then◌else◌,
}
use core_swag.Base.Text.{Text, text_eq}
use core_swag.Base.Maps.{put_key, get_key}
use core_swag.TypeRegistry.{is_golang_primitive_type}
use core_swag.Registry.{
  FieldType, ident, star, array, other_type, TypeSpec, TypeSpecDef, type_name, set_schema_name,
  Registry, PackageDefinitions, deref, change,
}

-- `NotUnique = true`
unfoldable pub mark : TypeSpecDef → TypeSpecDef
mark d = record d { not_unique = true }

-- What is found under a name: no entry, the entry nil, or a pointer with its target.
pub data Entry : Type 0 where
  free taken : Entry
  held : ℕ → TypeSpecDef → Entry

abbrev pub held_at : ℕ → Option TypeSpecDef → Entry
held_at i none = taken
held_at i (some d) = held i d

unfoldable pub entry_at : List TypeSpecDef → Option (Option ℕ) → Entry
unfolding deref
entry_at ds none = free
entry_at ds (some none) = taken
entry_at ds (some (some i)) = held_at i (deref ds i)

-- The new definition `d` of the pointer `i` is entered: the registry, and the definition.
unfoldable pub enter : Registry → ℕ → TypeSpecDef → Entry → Registry × TypeSpecDef
unfolding put_key type_name mark change set_schema_name
enter r i d free = (record r { unique = put_key (type_name d) (some i) r.unique }, d)
enter r i d taken = (record r { unique = put_key (type_name (mark d)) (some i) r.unique }, mark d)
enter r i d (held j e) = if text_eq d.pkg_path e.pkg_path then (r, d) else (
  record r {
    store = change (λ e'. set_schema_name (mark e')) j r.store;
    unique =
        put_key (type_name (mark d)) (some i)
          (put_key (type_name (mark e)) (some j) (put_key (type_name d) none r.unique));
  },
  mark d,
)

abbrev or_new : Text → Option PackageDefinitions → PackageDefinitions
or_new file none = record { name = file; type_definitions = [] }
or_new file (some p) = p

-- `AddTypeSpec`, of a name that the package has not; a package that is new has the name of the file.
unfoldable pub add_type_spec :
    Text → Text → Text → ℕ → List (Text × PackageDefinitions) → List (Text × PackageDefinitions)
unfolding get_key put_key
add_type_spec file pkg name i ps =
    let p = or_new file (get_key pkg ps) in
    elim (get_key name p.type_definitions) [
      | some j ↦ ps
      | none ↦ put_key pkg (record p { type_definitions = put_key name i p.type_definitions }) ps
    ]

-- The new definition is stored with its schema name, and added to its package.
unfoldable pub stored : Text → Text → ℕ → Registry × TypeSpecDef → Registry
unfolding set_schema_name add_type_spec
stored file name i (r, d) = record r {
  store = r.store ++ set_schema_name d ∷ [];
  packages = add_type_spec file d.pkg_path name i r.packages;
}

unfoldable pub new_def : Text → Text → Option Text → TypeSpec → TypeSpecDef
new_def file pkg parent spec = record {
  file = some file;
  spec = spec;
  pkg_path = pkg;
  parent = parent;
  schema_name = [];
  not_unique = false;
}

abbrev pub entry_of : Registry → TypeSpecDef → Entry
entry_of r d = entry_at r.store (get_key (type_name d) r.unique)

-- The body of the loop of `parseTypesFromFile` over the specifications of a type declaration
unfoldable pub register_type : Text → Text → TypeSpec → Registry → Registry
unfolding enter entry_at stored new_def
register_type file pkg spec r =
    let d = new_def file pkg none spec in
    stored file spec.name (length r.store) (enter r (length r.store) d (entry_of r d))

unfoldable pub register_types : Text → Text → List TypeSpec → Registry → Registry
unfolding register_type
register_types file pkg [] r = r
register_types file pkg (s ∷ ss) r = register_types file pkg ss (register_type file pkg s r)

-- The full name of a type of the same function, as it is now.
unfoldable pub scoped_name : List TypeSpecDef → List (Text × ℕ) → Text → Text
unfolding get_key deref type_name
scoped_name ds scoped t = elim (get_key t scoped) [
  | none ↦ t
  | some i ↦ elim (deref ds i) [ none ↦ t | some d ↦ type_name d ]
]

-- A field of such a type is renamed.
unfoldable pub rename_field : List TypeSpecDef → List (Text × ℕ) → FieldType → FieldType
unfolding scoped_name is_golang_primitive_type
rename_field ds scoped (ident t) =
    ident (if is_golang_primitive_type t then t else scoped_name ds scoped t)
rename_field ds scoped (star t) =
    star (if is_golang_primitive_type t then t else scoped_name ds scoped t)
rename_field ds scoped (array t) =
    array (if is_golang_primitive_type t then t else scoped_name ds scoped t)
rename_field ds scoped other_type = other_type

unfoldable pub rename_fields : List TypeSpecDef → List (Text × ℕ) → TypeSpec → TypeSpec
unfolding rename_field
rename_fields ds scoped s = elim s.fields [
  | none ↦ s
  | some fs ↦ record s { fields = some (map (rename_field ds scoped) fs) }
]

abbrev is_free : Entry → Bool
is_free free = true
is_free _ = false

-- The body of the inner loop of `parseFunctionScopedTypesFromFile`: the types of the function so far,
-- and the registry.
unfoldable pub register_scoped :
    Text → Text → Text → TypeSpec → List (Text × ℕ) × Registry → List (Text × ℕ) × Registry
unfolding enter entry_at stored new_def rename_fields put_key type_name
register_scoped file pkg function spec (scoped, r) =
    let d = new_def file pkg (some function) (rename_fields r.store scoped spec) in
    let i = length r.store in
    let entry = entry_of r d in
    let entered = enter r i d entry in
    (
      if is_free entry then put_key spec.name i scoped else scoped,
      stored file (type_name entered.1) i entered,
    )

unfoldable pub register_all_scoped :
    Text → Text → Text → List TypeSpec → List (Text × ℕ) × Registry → Registry
unfolding register_scoped
register_all_scoped file pkg function [] (scoped, r) = r
register_all_scoped file pkg function (s ∷ ss) (scoped, r) =
    register_all_scoped file pkg function ss (register_scoped file pkg function s (scoped, r))

-- A declaration of types, a function with the types that it declares, or another declaration.
pub data Decl : Type 0 where
  types : List TypeSpec → Decl
  function : Text → List TypeSpec → Decl
  other_decl : Decl

-- `parseTypesFromFile`, without the constants
unfoldable pub parse_types_from_file : Text → Text → List Decl → Registry → Registry
unfolding register_types
parse_types_from_file file pkg [] r = r
parse_types_from_file file pkg (types ss ∷ decls) r =
    parse_types_from_file file pkg decls (register_types file pkg ss r)
parse_types_from_file file pkg (_ ∷ decls) r = parse_types_from_file file pkg decls r

-- `parseFunctionScopedTypesFromFile`
unfoldable pub parse_function_scoped_types_from_file : Text → Text → List Decl → Registry → Registry
unfolding register_all_scoped
parse_function_scoped_types_from_file file pkg [] r = r
parse_function_scoped_types_from_file file pkg (function f ss ∷ decls) r =
    parse_function_scoped_types_from_file file pkg decls (register_all_scoped file pkg f ss ([], r))
parse_function_scoped_types_from_file file pkg (_ ∷ decls) r =
    parse_function_scoped_types_from_file file pkg decls r

-- `removeAllNotUniqueTypes`
unfoldable pub remove_all_not_unique_types : List (Text × Option ℕ) → List (Text × Option ℕ)
remove_all_not_unique_types [] = []
remove_all_not_unique_types ((k, none) ∷ m) = remove_all_not_unique_types m
remove_all_not_unique_types ((k, some i) ∷ m) = (k, some i) ∷ remove_all_not_unique_types m

-- A file of `s.files`: its package name and path, and its declarations
pub record SourceFile : Type 0 where
  pub name : Text
  pub package_path : Text
  pub decls : List Decl

unfoldable pub parse_files : List SourceFile → Registry → Registry
unfolding parse_types_from_file parse_function_scoped_types_from_file
parse_files [] r = r
parse_files (f ∷ fs) r = parse_files fs (
    parse_function_scoped_types_from_file f.name f.package_path f.decls
      (parse_types_from_file f.name f.package_path f.decls r))

-- `ParseTypes`, of the files in some order; the constants are evaluated behind it.
unfoldable pub parse_types : List SourceFile → Registry → Registry
unfolding parse_files remove_all_not_unique_types
parse_types fs r =
    let r' = parse_files fs r in record r' { unique = remove_all_not_unique_types r'.unique }
