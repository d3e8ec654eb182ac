-- ===== src/Orchestrator/Names/Tests.antt =====
-- Runs of the names of definitions, and the theorems on them there.
use core_swag.Base.{◌≡◌, refl, ◌∷◌, ◌++◌, Option, none, some, if◌then◌else◌}
use core_swag.Base.Text.{Text, codes, text_eq, last_index}
use core_swag.Orchestrator.Names.{
  sanitized, make_full_path_def_name, make_full_path_def_name2, extract_short_type_name,
  resolve_by_key, resolve_definition_name,
}
use core_swag.Orchestrator.Names.Keys.{
  make_full_path_def_name2-make_full_path_def_name, extract_short_type_name-directory,
}

evaluation : Unit {0}
unfolding text_eq last_index sanitized make_full_path_def_name make_full_path_def_name2
    extract_short_type_name resolve_by_key resolve_definition_name
evaluation = tt

abbrev source : Text
source = codes "github.com/a/v3/enum.Source"

-- A registry that has another type of this name only.
abbrev other : Text → Option Text
other t = if text_eq t (codes "enum.Source") then some (codes "b_enum.Source") else none

resolved : resolve_definition_name other source ≡ codes "github_com_a_v3_enum.Source"
unfolding evaluation
resolved = refl

-- A registry that has both types: each under its full-path name.
abbrev both : Text → Option Text
both t =
    if text_eq t (codes "github_com_a_v3_enum.Source")
    then some (codes "github_com_a_v3_enum.Source")
    else other t

make_full_path_def_name2-make_full_path_def_name_example :
    make_full_path_def_name2 (codes "github.com/a/v3/enum" ++ b'.' ∷ codes "Source")
    ≡ make_full_path_def_name (codes "github.com/a/v3/enum") (codes "Source")
make_full_path_def_name2-make_full_path_def_name_example =
    make_full_path_def_name2-make_full_path_def_name (codes "github.com/a/v3/enum") (codes "Source")
      (unfold evaluation in refl)

extract_short_type_name-directory_example :
    extract_short_type_name (codes "github.com/a/v3" ++ b'/' ∷ codes "enum.Source")
    ≡ codes "enum.Source"
extract_short_type_name-directory_example =
    extract_short_type_name-directory (codes "github.com/a/v3") (codes "enum.Source")
      (unfold evaluation in refl)
