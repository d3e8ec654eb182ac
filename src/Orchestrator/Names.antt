-- ===== src/Orchestrator/Names.antt =====
-- internal/orchestrator/name_resolver.go and ref_reconciler.go: the names of definitions. Of the
-- registry, the name (`TypeName`) of the type that `FindTypeSpecByName` finds is an argument.
pub mod Keys
pub mod Tests
use core_swag.Base.{
  ℕ, suc, ◌==◌, Bool, true, false, ◌||◌, List, [], ◌∷◌, ◌++◌, map, Option, none, some, take, drop,
  if◌then◌else◌,
}
use core_swag.Base.Text.{Text, codes, text_eq, last_index}

-- the function that `strings.Map` applies
unfoldable pub sanitized : ℕ → ℕ
sanitized c = if c == b'\\' || (c == b'/' || c == b'.') then b'_' else c

-- `makeFullPathDefName`
unfoldable pub make_full_path_def_name : Text → Text → Text
make_full_path_def_name pkg_path type_name = map sanitized pkg_path ++ (codes "." ++ type_name)

-- `makeFullPathDefName2`
unfoldable pub make_full_path_def_name2 : Text → Text
make_full_path_def_name2 t = elim (last_index t b'.') [
  | none ↦ t
  | some i ↦ map sanitized (take i t) ++ (codes "." ++ drop (suc i) t)
]

-- `extractShortTypeName`
unfoldable pub extract_short_type_name : Text → Text
extract_short_type_name t = elim (last_index t b'/') [ none ↦ t | some i ↦ drop (suc i) t ]

module _ (find_type_spec_by_name : Text → Option Text) where
  -- the lookups behind the test of a unique type
  unfoldable pub resolve_by_key : Text → Text → Text
  resolve_by_key short key = elim (find_type_spec_by_name key) [
    | some name ↦ name
    | none ↦ elim (find_type_spec_by_name short) [ some name ↦ key | none ↦ short ]
  ]

  -- `ResolveDefinitionName`
  unfoldable pub resolve_definition_name : Text → Text
  resolve_definition_name t =
      let short = extract_short_type_name t in
      let key = make_full_path_def_name2 t in
      let later = resolve_by_key short key in
      elim (find_type_spec_by_name short) [
        | none ↦ later
        | some name ↦ if text_eq name short || text_eq name key then name else later
      ]
