-- ===== src/Orchestrator/Names/Keys.antt =====
-- The two functions for full-path names agree, and which name a type is given.
use core_swag.Base.{ℕ, ◌≡◌, ◌≢◌, refl, [], ◌∷◌, ◌++◌, Option, none, some, length, arith}
use core_swag.Base.Text.{Text, last_index}
use core_swag.Base.Text.Slices.{take-append, drop-suc-append}
use core_swag.Orchestrator.Names.{
  make_full_path_def_name, make_full_path_def_name2, extract_short_type_name,
}

last_index-middle :
    (front : Text) (b : ℕ) (back : Text)
    → last_index back b ≡ none
    → last_index (front ++ b ∷ back) b ≡ some (length front)
unfolding last_index
last_index-middle [] b back h = rw (h, last_index) (ground arith)
last_index-middle (c ∷ front) b back h = rw (last_index-middle front b back h, last_index) refl

-- For a type name without a dot, `makeFullPathDefName2` of the path, a dot and the name is
-- `makeFullPathDefName` of the two.
pub make_full_path_def_name2-make_full_path_def_name :
    (pkg_path type_name : Text)
    → last_index type_name b'.' ≡ none
    → make_full_path_def_name2 (pkg_path ++ b'.' ∷ type_name)
      ≡ make_full_path_def_name pkg_path type_name
unfolding make_full_path_def_name2 make_full_path_def_name
make_full_path_def_name2-make_full_path_def_name pkg_path type_name h =
    rw (last_index-middle pkg_path b'.' type_name h, make_full_path_def_name2)
      (rw (take-append pkg_path (b'.' ∷ type_name), drop-suc-append pkg_path b'.' type_name) refl)

-- What stands behind the last slash of a path is the short name.
pub extract_short_type_name-directory :
    (directories name : Text)
    → last_index name b'/' ≡ none
    → extract_short_type_name (directories ++ b'/' ∷ name) ≡ name
unfolding extract_short_type_name
extract_short_type_name-directory directories name h =
    rw (last_index-middle directories b'/' name h, extract_short_type_name)
      (drop-suc-append directories b'/' name)

-- What the registry finds of the type of a full path, and the name it has: a unique type is found under
-- its short name, with that name; a type that is not unique is found by its full-path name, with
-- that name, and the short name finds no type of the short name; a type that is not registered is
-- found under neither, and has its short name unless that finds another type.
pub data HasName (find : Text → Option Text) (t : Text) : Text → Type 0 where
  unique :
      find (extract_short_type_name t) ≡ some (extract_short_type_name t)
      → HasName find t (extract_short_type_name t)
  not_unique :
      find (extract_short_type_name t) ≢ some (extract_short_type_name t)
      → find (make_full_path_def_name2 t) ≡ some (make_full_path_def_name2 t)
      → HasName find t (make_full_path_def_name2 t)
  unknown :
      find (extract_short_type_name t) ≡ none
      → find (make_full_path_def_name2 t) ≡ none
      → HasName find t (extract_short_type_name t)
  shadowed :
      (other : Text)
      → find (extract_short_type_name t) ≡ some other
      → other ≢ extract_short_type_name t
      → find (make_full_path_def_name2 t) ≡ none
      → HasName find t (make_full_path_def_name2 t)
