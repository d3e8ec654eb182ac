-- ===== src/Registry/Lookup.antt =====
-- internal/registry/lookup.go and the lookups of types.go and service.go. Loading an external package
-- is a parameter: it gives the registry with the types of the package, or fails.
use core_swag.Base.{
  ℕ, ◌+◌, Bool, true, false, ◌&&◌, ◌||◌, not, List, [], ◌∷◌, ◌++◌, Option, none, some, take, drop,
  if◌then◌else◌,
}
use core_swag.Base.Text.{Text, codes, text_eq, has_prefix, split, last_index}
use core_swag.Base.Maps.{get_key}
use core_swag.TypeRegistry.{is_golang_primitive_type}
use core_swag.Registry.{TypeSpecDef, simple_type_name, full_type_name, Registry, deref}

-- An import: its name, if it has one, and its path.
pub record Import : Type 0 where
  pub name : Option Text
  pub path : Text

-- `ast.File`, and the package path of its entry in `s.files`, if it has one
pub record FileInfo : Type 0 where
  pub name : Text
  pub imports : List Import
  pub package_path : Option Text

abbrev pub last_of : List Text → Text
last_of [] = []
last_of (p ∷ []) = p
last_of (p ∷ q ∷ ps) = last_of (q ∷ ps)

unfoldable pub match_last_path_part : Text → Text → Bool
match_last_path_part pkg path = text_eq (last_of (split path b'/')) pkg

-- The matched and the external package paths.
abbrev pub Paths : Type 0
Paths = List Text × List Text

-- An import with no name, or of a package that is not used by name
unfoldable pub add_by_package_name : Registry → Text → Text → Paths → Paths
unfolding get_key match_last_path_part
add_by_package_name r pkg path (matched, external) = elim (get_key path r.packages) [
  | some pd ↦ (if text_eq pd.name pkg then matched ++ path ∷ [] else matched, external)
  | none ↦ (matched, if match_last_path_part pkg path then external ++ path ∷ [] else external)
]

unfoldable pub add_dot_import : Registry → Text → Paths → Paths
unfolding get_key
add_dot_import r path (matched, external) = elim (get_key path r.packages) [
  | some pd ↦ (matched ++ path ∷ [], external)
  | none ↦ (matched, external ++ path ∷ [])
]

unfoldable pub only_import : Registry → Text → Paths
unfolding get_key
only_import r path = elim (get_key path r.packages) [
  | some pd ↦ (path ∷ [], [])
  | none ↦ ([], path ∷ [])
]

-- The loop over the imports
unfoldable pub find_imports : Registry → Text → List Import → Paths → Paths
unfolding add_by_package_name add_dot_import only_import
find_imports r pkg [] paths = paths
find_imports r pkg (imp ∷ imports) paths =
    let by_name = find_imports r pkg imports (add_by_package_name r pkg imp.path paths) in
    let by_dot = find_imports r pkg imports (add_dot_import r imp.path paths) in
    let others = find_imports r pkg imports paths in
    elim imp.name [
      | none ↦ if text_eq pkg [] then others else by_name
      | some name ↦
          if text_eq name pkg
          then only_import r imp.path
          else if text_eq name (codes "_") && not (text_eq pkg [])
          then by_name
          else if text_eq name (codes ".") && text_eq pkg []
          then by_dot
          else others
    ]

abbrev pub head_of : List Text → Text
head_of [] = []
head_of (p ∷ ps) = p

abbrev own_path : Option Text → List Text
own_path none = []
own_path (some path) = path ∷ []

-- `findPackagePathFromImports`, of a file that is not nil
unfoldable pub find_package_path_from_imports : Registry → Text → FileInfo → Paths
unfolding find_imports
find_package_path_from_imports r pkg file =
    let pkg' = head_of (split pkg b'.') in
    let (matched, external) = find_imports r pkg' file.imports ([], []) in
    (
      if text_eq pkg' [] || text_eq file.name pkg'
          then matched ++ own_path file.package_path
          else matched,
      external,
    )

-- `findTypeSpec`
unfoldable pub find_in_package : Registry → Text → Text → Option ℕ
unfolding get_key
find_in_package r pkg name = elim (get_key pkg r.packages) [
  | none ↦ none
  | some pd ↦ get_key name pd.type_definitions
]

unfoldable pub find_in_packages : Registry → List Text → Text → Option ℕ
unfolding find_in_package
find_in_packages r [] name = none
find_in_packages r (pkg ∷ pkgs) name = elim (find_in_package r pkg name) [
  | some i ↦ some i
  | none ↦ find_in_packages r pkgs name
]

module _ (parse_dependency : Bool) (load : Text → Registry → Option Registry) where
  -- The loop over the external packages: the registry behind it, and what is found.
  unfoldable pub find_external : Registry → List Text → Text → Registry × Option ℕ
  unfolding find_in_package
  find_external r [] name = (r, none)
  find_external r (pkg ∷ pkgs) name = elim (load pkg r) [
    | none ↦ find_external r pkgs name
    | some r' ↦ elim (find_in_package r' pkg name) [
      | some i ↦ (r', some i)
      | none ↦ find_external r' pkgs name
    ]
  ]

  abbrev or_matched : List Text → Text → Registry × Option ℕ → Registry × Option ℕ
  or_matched matched name (r, some i) = (r, some i)
  or_matched matched name (r, none) = (r, find_in_packages r matched name)

  -- `findTypeSpecFromPackagePaths`
  unfoldable pub find_type_spec_from_package_paths : Registry → Paths → Text → Registry × Option ℕ
  unfolding find_external find_in_packages
  find_type_spec_from_package_paths r (matched, external) name =
      if parse_dependency
      then or_matched matched name (find_external r external name)
      else (r, find_in_packages r matched name)

  -- The last loop of `FindTypeSpec`, over `uniqueDefinitions` in some order
  unfoldable pub find_by_schema_name : Registry → Text → List (Text × Option ℕ) → Option ℕ
  unfolding deref
  find_by_schema_name r type_name [] = none
  find_by_schema_name r type_name ((k, v) ∷ m) =
      let rest = find_by_schema_name r type_name m in
      elim v [
        | none ↦ rest
        | some i ↦ elim (deref r.store i) [
          | none ↦ rest
          | some d ↦ if text_eq d.schema_name type_name then some i else rest
        ]
      ]

  abbrev is_empty : List Text → Bool
  is_empty [] = true
  is_empty (p ∷ ps) = false

  abbrev second_of : List Text → Text
  second_of [] = []
  second_of (p ∷ []) = []
  second_of (p ∷ q ∷ ps) = q

  unfoldable pub find_qualified : Registry → Text → Text → Text → FileInfo → Registry × Option ℕ
  unfolding find_type_spec_from_package_paths get_key find_package_path_from_imports
  find_qualified r type_name pkg name file =
      let paths = find_package_path_from_imports r pkg file in
      let searched = find_type_spec_from_package_paths r paths name in
      if is_empty paths.1 || not parse_dependency
      then elim (get_key type_name r.unique) [ some entry ↦ (r, entry) | none ↦ searched ]
      else searched

  abbrev or_by_schema_name : Text → Registry × Option ℕ → Registry × Option ℕ
  or_by_schema_name type_name (r, some i) = (r, some i)
  or_by_schema_name type_name (r, none) = (r, find_by_schema_name r type_name r.unique)

  unfoldable pub find_unqualified : Registry → Text → Text → FileInfo → Registry × Option ℕ
  unfolding find_type_spec_from_package_paths find_by_schema_name get_key full_type_name
      find_package_path_from_imports
  find_unqualified r type_name name file =
      let searched =
        or_by_schema_name type_name
          (find_type_spec_from_package_paths r (find_package_path_from_imports r [] file) name) in
      elim (get_key (full_type_name (file.name ∷ type_name ∷ [])) r.unique) [
        | some entry ↦ (r, entry)
        | none ↦ elim (get_key (full_type_name (file.name ∷ name ∷ [])) r.unique) [
          | some entry ↦ or_by_schema_name type_name (r, entry)
          | none ↦ searched
        ]
      ]

  abbrev entry_of : Option (Option ℕ) → Option ℕ
  entry_of none = none
  entry_of (some entry) = entry

  abbrev two_or_more : List Text → Bool
  two_or_more [] = false
  two_or_more (p ∷ []) = false
  two_or_more (p ∷ q ∷ ps) = true

  -- `FindTypeSpec`; `parametrizeGenericType` gives back what it is given.
  unfoldable pub find_type_spec : Registry → Text → Option FileInfo → Registry × Option ℕ
  unfolding find_qualified find_unqualified
  find_type_spec r type_name file =
      let parts = split (head_of (split type_name b'[')) b'.' in
      if is_golang_primitive_type type_name then (r, none) else elim file [
        | none ↦ (r, entry_of (get_key type_name r.unique))
        | some f ↦
            if two_or_more parts
            then find_qualified r type_name (head_of parts) (second_of parts) f
            else find_unqualified r type_name (head_of parts) f
      ]

-- `isProjectLocal`
unfoldable pub is_project_local : List Text → TypeSpecDef → Bool
unfolding has_prefix
is_project_local [] d = false
is_project_local (prefix ∷ prefixes) d = has_prefix d.pkg_path prefix || is_project_local prefixes d

unfoldable pub is_candidate : Text → TypeSpecDef → Bool
unfolding simple_type_name
is_candidate name d = d.not_unique && text_eq (simple_type_name d) name

-- A candidate of the project is taken, another is kept.
abbrev pub weigh : List Text → Text → Option TypeSpecDef → ℕ → Option ℕ → Option ℕ → Option ℕ
weigh prefixes name none i skipped kept = skipped
weigh prefixes name (some d) i skipped kept =
    if is_candidate name d then if is_project_local prefixes d then some i else kept else skipped

-- The fallback loop of `FindTypeSpecByName`, over `uniqueDefinitions` in some order
unfoldable pub find_candidate :
    List TypeSpecDef → List Text → Text → List (Text × Option ℕ) → Option ℕ → Option ℕ
unfolding deref is_candidate is_project_local
find_candidate ds prefixes name [] candidate = candidate
find_candidate ds prefixes name ((k, none) ∷ m) candidate =
    find_candidate ds prefixes name m candidate
find_candidate ds prefixes name ((k, some i) ∷ m) candidate =
    let skipped = find_candidate ds prefixes name m candidate in
    let kept =
      find_candidate ds prefixes name m (some (elim candidate [ some c ↦ c | none ↦ i ])) in
    weigh prefixes name (deref ds i) i skipped kept

abbrev or_candidate : Option (Option ℕ) → Option ℕ → Option ℕ
or_candidate (some (some i)) candidate = some i
or_candidate (some none) candidate = candidate
or_candidate none candidate = candidate

-- `FindTypeSpecByName`
unfoldable pub find_type_spec_by_name : Registry → List Text → Text → Option ℕ
unfolding get_key find_candidate
find_type_spec_by_name r prefixes name =
    or_candidate (get_key name r.unique) (find_candidate r.store prefixes name r.unique none)

-- `FindTypeSpecByFullPath`
unfoldable pub find_type_spec_by_full_path : Registry → Text → Option ℕ
unfolding find_in_package last_index
find_type_spec_by_full_path r path = elim (last_index path b'.') [
  | none ↦ none
  | some i ↦ find_in_package r (take i path) (drop (i + 1) path)
]
