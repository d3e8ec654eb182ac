-- ===== src/Registry/Tests.antt =====
-- Two packages with the same name, and the theorems on the registry there.
use core_swag.Base.{ℕ, ◌≡◌, refl, true, false, List, [], ◌∷◌, map, none, some, All}
use core_swag.Base.Text.{
  Text, codes, text_eq, mem, has_prefix, has_suffix, trim_space, join, to_lower, split, last_index,
}
use core_swag.Base.Maps.{put_key, get_key}
use core_swag.Base.Pattern.{match_at, is_blank, not_blank, span, tries, no_groups}
use core_swag.TypeRegistry.{is_golang_primitive_type}
use core_swag.Registry.{
  TypeSpec, TypeSpecDef, ident, star, ignore_name_override, trim_slashes, override_in,
  name_override, full_type_name, mangled, package_part, type_name, simple_type_name,
  set_schema_name, Registry, deref, change,
}
use core_swag.Registry.Register.{
  mark, entry_at, enter, add_type_spec, stored, new_def, register_type, register_types, scoped_name,
  rename_field, rename_fields, register_scoped, register_all_scoped, types, function, SourceFile,
  parse_types_from_file, parse_function_scoped_types_from_file, parse_files,
  remove_all_not_unique_types, parse_types,
}
use core_swag.Registry.Lookup.{
  match_last_path_part, add_by_package_name, add_dot_import, only_import, find_imports,
  find_package_path_from_imports, find_in_package, find_in_packages, find_external,
  find_type_spec_from_package_paths, find_by_schema_name, find_qualified, find_unqualified,
  find_type_spec, is_project_local, is_candidate, find_candidate, find_type_spec_by_name,
  find_type_spec_by_full_path,
}
use core_swag.Registry.Declared.{declare, declare_types, declare_scoped, declared}
use core_swag.Registry.Owner.{one, several, share, owner}
use core_swag.Registry.Unique.{IsApart}
use core_swag.Registry.Types.{fresh, Finds, IsNamed, parse_types-Finds, parse_types-IsNamed}
use core_swag.Registry.ByName.{has_local, find_type_spec_by_name-is_project_local}

evaluation : Unit {0}
unfolding text_eq mem has_prefix has_suffix trim_space join to_lower split last_index put_key
    get_key match_at is_blank not_blank span tries no_groups is_golang_primitive_type
    ignore_name_override trim_slashes override_in name_override full_type_name mangled package_part
    type_name simple_type_name set_schema_name deref change mark entry_at enter add_type_spec stored
    new_def register_type register_types scoped_name rename_field rename_fields register_scoped
    register_all_scoped parse_types_from_file parse_function_scoped_types_from_file parse_files
    remove_all_not_unique_types parse_types match_last_path_part add_by_package_name add_dot_import
    only_import find_imports find_package_path_from_imports find_in_package find_in_packages
    find_external find_type_spec_from_package_paths find_by_schema_name find_qualified
    find_unqualified find_type_spec is_project_local is_candidate find_candidate
    find_type_spec_by_name find_type_spec_by_full_path declare declare_types declare_scoped declared
    share owner has_local
evaluation = tt

abbrev plain_type : Text → List Text → TypeSpec
plain_type name comments = record {
  name = name;
  comments = comments;
  ident_of = none;
  fields = none;
}

abbrev files : List SourceFile
files =
    record {
      name = codes "addr";
      package_path = codes "ext.io/addr";
      decls = types (plain_type (codes "Addr") [] ∷ plain_type (codes "Zip") [] ∷ []) ∷ [];
    }
    ∷ record {
      name = codes "addr";
      package_path = codes "app/addr";
      decls =
          types (plain_type (codes "Addr") (codes "// @Name Home" ∷ []) ∷ [])
          ∷ function (codes "Show") (
              plain_type (codes "Row") []
              ∷ record {
                name = codes "Rows";
                comments = [];
                ident_of = none;
                fields = some (star (codes "Row") ∷ ident (codes "string") ∷ []);
              }
              ∷ [])
          ∷ [];
    }
    ∷ []

abbrev map_names : List TypeSpecDef → List Text
map_names = map (λ d. d.schema_name)

abbrev result : Registry
result = parse_types files (fresh [])

-- The names of the definitions, the index, and a field that is renamed.
registered :
    (map_names result.store
      ≡ codes "ext_io_addr.Addr"
        ∷ codes "addr.Zip"
        ∷ codes "Home"
        ∷ codes "addr.Show.Row"
        ∷ codes "addr.Show.Rows"
        ∷ [])
    × (get_key (codes "addr.Addr") result.unique ≡ none)
    × (get_key (codes "app_addr.Addr") result.unique ≡ some (some 2))
    × (find_type_spec_by_name result (codes "app/" ∷ []) (codes "addr.Addr") ≡ some 2)
    × (find_type_spec_by_full_path result (codes "ext.io/addr.Addr") ≡ some 0)
    × ((find_type_spec false
          (λ p r. none)
          result
          (codes "Addr")
          (some (record {
            name = codes "addr";
            imports = [];
            package_path = some (codes "app/addr");
          }))).1
        ≡ some 2)
unfolding evaluation
registered = (refl, refl, refl, refl, refl, refl)

owners :
    (owner (codes "addr.Zip") (declared files []) ≡ one (codes "ext.io/addr"))
    × (owner (codes "addr.Addr") (declared files []) ≡ several)
unfolding evaluation
owners = (refl, refl)

IsApart-zip : IsApart (codes "addr.Zip") (declared files [])
unfolding evaluation
IsApart-zip = (refl, (refl, (refl, (refl, (refl, tt)))))

IsApart-addr : IsApart (codes "addr.Addr") (declared files [])
unfolding evaluation
IsApart-addr = (refl, (refl, (refl, (refl, (refl, tt)))))

local_addr : has_local result.store (codes "app/" ∷ []) (codes "addr.Addr") result.unique ≡ true
unfolding evaluation
local_addr = refl

parse_types-Finds_example :
    Finds (codes "addr.Zip") result (owner (codes "addr.Zip") (declared files []))
parse_types-Finds_example = parse_types-Finds (codes "addr.Zip") files [] IsApart-zip

parse_types-IsNamed_example : All IsNamed (parse_types files (fresh [])).store
parse_types-IsNamed_example = parse_types-IsNamed files []

find_type_spec_by_name-is_project_local_example :
    (i : ℕ) × (t : TypeSpecDef) × (find_type_spec_by_name result
        (codes "app/" ∷ [])
        (codes "addr.Addr")
      ≡ some i)
    × (deref result.store i ≡ some t)
    × (simple_type_name t ≡ codes "addr.Addr")
    × (is_project_local (codes "app/" ∷ []) t ≡ true)
find_type_spec_by_name-is_project_local_example =
    find_type_spec_by_name-is_project_local (codes "addr.Addr") files [] (codes "app/" ∷ [])
      IsApart-addr owners.1 local_addr
