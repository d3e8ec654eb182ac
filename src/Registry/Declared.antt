-- ===== src/Registry/Declared.antt =====
-- The names that the files declare, and an induction over the registrations of `parse_files`.
use core_swag.Base.{
  ℕ, ◌≡◌, refl, false, List, [], ◌∷◌, Option, none, some, length, inl, inr, Option-cases, subst,
}
use core_swag.Base.Text.{Text}
use core_swag.Registry.{TypeSpec, TypeSpecDef, type_name, Registry}
use core_swag.Registry.Register.{
  mark, enter, stored, new_def, entry_of, register_type, register_types, rename_fields,
  register_scoped, register_all_scoped, Decl, types, function, other_decl, parse_types_from_file,
  parse_function_scoped_types_from_file, SourceFile, parse_files,
}

-- A declared type: its short name, its name with the path of its package, and the path.
pub record Name : Type 0 where
  pub short : Text
  pub long : Text
  pub path : Text

abbrev pub name_of : TypeSpecDef → Name
name_of d = record { short = type_name d; long = type_name (mark d); path = d.pkg_path }

abbrev pub added : Text → Text → TypeSpecDef → Registry → Registry
added file name d r = stored file name (length r.store) (enter r (length r.store) d (entry_of r d))

-- The names in front of those that are there, in the order of the registrations
unfoldable pub declare : Text → Text → Option Text → List TypeSpec → List Name → List Name
declare file pkg parent [] names = names
declare file pkg parent (s ∷ ss) names =
    declare file pkg parent ss (name_of (new_def file pkg parent s) ∷ names)

unfoldable pub declare_types : Text → Text → List Decl → List Name → List Name
unfolding declare
declare_types file pkg [] names = names
declare_types file pkg (types ss ∷ decls) names =
    declare_types file pkg decls (declare file pkg none ss names)
declare_types file pkg (_ ∷ decls) names = declare_types file pkg decls names

unfoldable pub declare_scoped : Text → Text → List Decl → List Name → List Name
unfolding declare
declare_scoped file pkg [] names = names
declare_scoped file pkg (function f ss ∷ decls) names =
    declare_scoped file pkg decls (declare file pkg (some f) ss names)
declare_scoped file pkg (_ ∷ decls) names = declare_scoped file pkg decls names

unfoldable pub declared : List SourceFile → List Name → List Name
unfolding declare_types declare_scoped
declared [] names = names
declared (f ∷ fs) names = declared fs (
    declare_scoped f.name f.package_path f.decls
      (declare_types f.name f.package_path f.decls names))

name_of-rename_fields :
    (file pkg : Text) (parent : Option Text) (ds : List TypeSpecDef) (scoped : List (Text × ℕ))
    (s : TypeSpec)
    → name_of (new_def file pkg parent (rename_fields ds scoped s))
      ≡ name_of (new_def file pkg parent s)
unfolding type_name mark new_def rename_fields
name_of-rename_fields file pkg parent ds scoped s = elim (Option-cases s.fields) [
  | inl e ↦ rw e
  | inr (fs, e) ↦ rw e
]

-- What every registration of a new definition keeps, `parse_files` keeps.
module _ {ℓ} (P : List Name → Registry → Type ℓ)
    (step : (names : List Name) (file name : Text) (d : TypeSpecDef) (r : Registry)
      → d.not_unique ≡ false
      → P names r
      → P (name_of d ∷ names) (added file name d r)) where
  register_types-keeps :
      (file pkg : Text) (ss : List TypeSpec) (names : List Name) (r : Registry)
      → P names r
      → P (declare file pkg none ss names) (register_types file pkg ss r)
  unfolding declare register_types register_type new_def
  register_types-keeps file pkg [] names r h = h
  register_types-keeps file pkg (s ∷ ss) names r h =
      register_types-keeps file pkg ss _ _
        (step names file s.name (new_def file pkg none s) r refl h)

  register_scoped-keeps :
      (file pkg f : Text) (s : TypeSpec) (scoped : List (Text × ℕ)) (names : List Name)
      (r : Registry)
      → P names r
      → P
          (name_of (new_def file pkg (some f) s) ∷ names)
          (register_scoped file pkg f s (scoped, r)).1
  unfolding register_scoped new_def
  register_scoped-keeps file pkg f s scoped names r h =
      let d = new_def file pkg (some f) (rename_fields r.store scoped s) in
      let full = type_name (enter r (length r.store) d (entry_of r d)).1 in
      subst (λ n. P (n ∷ names) (added file full d r))
        (name_of-rename_fields file pkg (some f) r.store scoped s) (step names file full d r refl h)

  register_all_scoped-keeps :
      (file pkg f : Text) (ss : List TypeSpec) (scoped : List (Text × ℕ)) (names : List Name)
      (r : Registry)
      → P names r
      → P (declare file pkg (some f) ss names) (register_all_scoped file pkg f ss (scoped, r))
  unfolding declare register_all_scoped
  register_all_scoped-keeps file pkg f [] scoped names r h = h
  register_all_scoped-keeps file pkg f (s ∷ ss) scoped names r h =
      register_all_scoped-keeps file pkg f ss _ _ _
        (register_scoped-keeps file pkg f s scoped names r h)

  parse_types_from_file-keeps :
      (file pkg : Text) (decls : List Decl) (names : List Name) (r : Registry)
      → P names r
      → P (declare_types file pkg decls names) (parse_types_from_file file pkg decls r)
  unfolding declare_types parse_types_from_file
  parse_types_from_file-keeps file pkg [] names r h = h
  parse_types_from_file-keeps file pkg (types ss ∷ decls) names r h =
      parse_types_from_file-keeps file pkg decls _ _ (register_types-keeps file pkg ss names r h)
  parse_types_from_file-keeps file pkg (function f ss ∷ decls) names r h =
      parse_types_from_file-keeps file pkg decls names r h
  parse_types_from_file-keeps file pkg (other_decl ∷ decls) names r h =
      parse_types_from_file-keeps file pkg decls names r h

  parse_scoped-keeps :
      (file pkg : Text) (decls : List Decl) (names : List Name) (r : Registry)
      → P names r
      → P
          (declare_scoped file pkg decls names)
          (parse_function_scoped_types_from_file file pkg decls r)
  unfolding declare_scoped parse_function_scoped_types_from_file
  parse_scoped-keeps file pkg [] names r h = h
  parse_scoped-keeps file pkg (types ss ∷ decls) names r h =
      parse_scoped-keeps file pkg decls names r h
  parse_scoped-keeps file pkg (function f ss ∷ decls) names r h =
      parse_scoped-keeps file pkg decls _ _ (register_all_scoped-keeps file pkg f ss [] names r h)
  parse_scoped-keeps file pkg (other_decl ∷ decls) names r h =
      parse_scoped-keeps file pkg decls names r h

  pub parse_files-keeps :
      (fs : List SourceFile) (names : List Name) (r : Registry)
      → P names r
      → P (declared fs names) (parse_files fs r)
  unfolding declared parse_files
  parse_files-keeps [] names r h = h
  parse_files-keeps (f ∷ fs) names r h = parse_files-keeps fs _ _ (
      parse_scoped-keeps f.name f.package_path f.decls _ _
        (parse_types_from_file-keeps f.name f.package_path f.decls names r h))
