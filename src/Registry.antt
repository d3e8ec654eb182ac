-- ===== src/Registry.antt =====
-- internal/registry, and the names of definitions of internal/domain/types.go. A definition of a type
-- is an object that the registry changes: the store has them in the order in which they are made, and
-- a pointer is a position in it. Of a Go file, its package name and its declarations are kept.
pub mod Register
pub mod Lookup
pub mod Index
pub mod Declared
pub mod Owner
pub mod Unique
pub mod Types
pub mod ByName
pub mod Tests
use core_swag.Base.{
  ℕ, zero, suc, ◌+◌, ◌-◌, ◌≡◌, refl, Bool, true, false, ◌&&◌, ◌||◌, not, List, [], ◌∷◌, ◌++◌, map,
  Option, none, some, drop, ◌==◌, if◌then◌else◌,
}
use core_swag.Base.Text.{Text, codes, text_eq, mem, has_prefix, join, to_lower, trim_space}
use core_swag.Base.Maps.{put_key, get_key}
use core_swag.Base.Pattern.{Match, Pattern, plus, done, match_at, is_blank, not_blank}

-- The type of a field of a structure: an identifier, a pointer to or an array of one, or another.
pub data FieldType : Type 0 where
  ident star array : Text → FieldType
  other_type : FieldType

-- `ast.TypeSpec`: its name, its comments, the name of the identifier that it is a type of, and the
-- fields of a structure.
pub record TypeSpec : Type 0 where
  pub name : Text
  pub comments : List Text
  pub ident_of : Option Text
  pub fields : Option (List FieldType)

-- `TypeSpecDef`. `parent` is the name of the function that it is declared in.
pub record TypeSpecDef : Type 0 where
  pub file : Option Text
  pub spec : TypeSpec
  pub pkg_path : Text
  pub parent : Option Text
  pub schema_name : Text
  pub not_unique : Bool

-- `ignoreNameOverride`
unfoldable pub ignore_name_override : Text → Bool
ignore_name_override [] = false
ignore_name_override (c ∷ name) = c == b'!'

unfoldable pub trim_slashes : Text → Text
trim_slashes [] = []
trim_slashes (c ∷ s) = let rest = trim_slashes s in if c == b'/' then rest else c ∷ s

-- `(?i)^@name\s+(\S+)`, behind the word
abbrev pub override_pattern : Pattern
override_pattern = plus false is_blank (plus true not_blank done)

abbrev first_group : Option Match → Option Text
first_group none = none
first_group (some ([], rest)) = none
first_group (some (g ∷ gs, rest)) = some g

unfoldable pub override_in : Text → Option Text
unfolding has_prefix to_lower match_at
override_in t =
    if has_prefix (to_lower t) (codes "@name")
    then first_group (match_at override_pattern (drop 5 t))
    else none

-- `nameOverride`
unfoldable pub name_override : List Text → Text
unfolding trim_slashes override_in trim_space
name_override [] = []
name_override (comment ∷ comments) = elim (override_in (trim_space (trim_slashes comment))) [
  | some name ↦ name
  | none ↦ name_override comments
]

-- `fullTypeName`
unfoldable pub full_type_name : List Text → Text
unfolding join
full_type_name parts = join parts (codes ".")

unfoldable pub mangled : Text → Text
mangled = map (λ c. if c == b'\\' || c == b'/' || c == b'.' then b'_' else c)

abbrev pub listed : Option Text → List Text
listed none = []
listed (some t) = t ∷ []

unfoldable pub package_part : TypeSpecDef → List Text
unfolding mangled
package_part d = if d.not_unique then mangled d.pkg_path ∷ [] else listed d.file

-- `TypeName`
unfoldable pub type_name : TypeSpecDef → Text
unfolding ignore_name_override package_part full_type_name
type_name d =
    if ignore_name_override d.spec.name
    then drop 1 d.spec.name
    else full_type_name (package_part d ++ (listed d.parent ++ d.spec.name ∷ []))

-- `SimpleTypeName`
unfoldable pub simple_type_name : TypeSpecDef → Text
unfolding ignore_name_override full_type_name
simple_type_name d =
    if ignore_name_override d.spec.name
    then drop 1 d.spec.name
    else full_type_name (listed d.file ++ (listed d.parent ++ d.spec.name ∷ []))

abbrev pub or_else : Text → Text → Text
or_else [] t = t
or_else (c ∷ alias) t = c ∷ alias

-- `SetSchemaName`
unfoldable pub set_schema_name : TypeSpecDef → TypeSpecDef
unfolding name_override type_name
set_schema_name d = record d { schema_name = or_else (name_override d.spec.comments) (type_name d) }

-- `SetSchemaNameSimple`
unfoldable pub set_schema_name_simple : TypeSpecDef → TypeSpecDef
unfolding name_override simple_type_name
set_schema_name_simple d = record d {
  schema_name = or_else (name_override d.spec.comments) (simple_type_name d);
}

-- `PackageDefinitions`
pub record PackageDefinitions : Type 0 where
  pub name : Text
  pub type_definitions : List (Text × ℕ)

-- `Service`: the store, `uniqueDefinitions` with nil as `none`, and the packages by their paths.
pub record Registry : Type 0 where
  pub store : List TypeSpecDef
  pub unique : List (Text × Option ℕ)
  pub packages : List (Text × PackageDefinitions)

-- A read through a pointer, and a write.
unfoldable pub deref : List TypeSpecDef → ℕ → Option TypeSpecDef
deref [] i = none
deref (d ∷ ds) zero = some d
deref (d ∷ ds) (suc i) = deref ds i

unfoldable pub change : (TypeSpecDef → TypeSpecDef) → ℕ → List TypeSpecDef → List TypeSpecDef
change f i [] = []
change f zero (d ∷ ds) = f d ∷ ds
change f (suc i) (d ∷ ds) = d ∷ change f i ds
