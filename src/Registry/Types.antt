-- ===== src/Registry/Types.antt =====
-- What `ParseTypes` leaves in the registry.
use core_swag.Base.{
  ℕ, zero, suc, ◌≡◌, refl, ap, ◌∙◌, false, List, [], ◌∷◌, Option, none, some, length, arith, inl,
  inr, Bool-cases, All, All-append,
}
use core_swag.Base.Text.{Text, text_eq, text_eq_iff}
use core_swag.Base.Maps.{put_key, get_key, get_key-put_key}
use core_swag.Registry.{
  TypeSpecDef, type_name, name_override, or_else, set_schema_name, Registry, PackageDefinitions,
  deref, change,
}
use core_swag.Registry.Register.{
  mark, Entry, free, taken, held, enter, stored, entry_of, SourceFile, parse_files,
  remove_all_not_unique_types, parse_types,
}
use core_swag.Registry.Index.{IsIndexed, demoted}
use core_swag.Registry.Declared.{Name, added, declared, parse_files-keeps}
use core_swag.Registry.Owner.{Owner, nobody, several, one, owner, path_at-deref}
use core_swag.Registry.Unique.{IsApart, IsSound, Owns, added-IsSound}

-- No name has two entries.
HasDistinctKeys : List (Text × Option ℕ) → Type 0
HasDistinctKeys [] = Unit {0}
HasDistinctKeys ((k, v) ∷ m) = (get_key k m ≡ none) × HasDistinctKeys m

put_key-HasDistinctKeys :
    (k : Text) (v : Option ℕ) (m : List (Text × Option ℕ))
    → HasDistinctKeys m
    → HasDistinctKeys (put_key k v m)
unfolding HasDistinctKeys put_key
put_key-HasDistinctKeys k v [] h = (unfold get_key in refl, tt)
put_key-HasDistinctKeys k v ((j, w) ∷ m) (new, later) = elim (Bool-cases (text_eq j k)) [
  | inl same ↦ rw same (rw (← (text_eq_iff j k).0 same) new, later)
  | inr ne ↦ rw ne (
    get_key-put_key j k v m ∙ ground (arith, text_eq_iff j k, text_eq_iff k j, new),
    put_key-HasDistinctKeys k v m later,
  )
]

added-HasDistinctKeys :
    (names : List Name) (file name : Text) (d : TypeSpecDef) (r : Registry)
    → d.not_unique ≡ false
    → HasDistinctKeys r.unique
    → HasDistinctKeys (added file name d r).unique
added-HasDistinctKeys names file name d r new h = by_entry (entry_of r d)
  where
    by_entry :
        (entry : Entry)
        → HasDistinctKeys
            (stored file name (length r.store) (enter r (length r.store) d entry)).unique
    by_entry free = unfold stored enter in put_key-HasDistinctKeys _ _ _ h
    by_entry taken = unfold stored enter in put_key-HasDistinctKeys _ _ _ h
    by_entry (held j t) =
        unfold stored enter in
        elim (Bool-cases (text_eq d.pkg_path t.pkg_path)) [
          | inl same ↦ rw same h
          | inr differ ↦ rw differ (
              put_key-HasDistinctKeys _ _ _
                (put_key-HasDistinctKeys _ _ _ (put_key-HasDistinctKeys _ _ _ h)))
        ]

-- The removal keeps the pointers and drops what is nil.
abbrev found_only : Option (Option ℕ) → Option (Option ℕ)
found_only none = none
found_only (some none) = none
found_only (some (some i)) = some (some i)

get_key-remove :
    (s : Text) (m : List (Text × Option ℕ))
    → HasDistinctKeys m
    → get_key s (remove_all_not_unique_types m) ≡ found_only (get_key s m)
unfolding HasDistinctKeys get_key remove_all_not_unique_types
get_key-remove s [] h = refl
get_key-remove s ((k, some i) ∷ m) (new, later) = elim (Bool-cases (text_eq k s)) [
  | inl same ↦ rw same
  | inr ne ↦ rw ne (get_key-remove s m later)
]
get_key-remove s ((k, none) ∷ m) (new, later) = elim (Bool-cases (text_eq k s)) [
  | inl same ↦
      let gone : get_key s m ≡ none = rw (← (text_eq_iff k s).0 same) new in
      rw same (get_key-remove s m later ∙ ap found_only gone)
  | inr ne ↦ rw ne (get_key-remove s m later)
]

-- A registry with no types
abbrev pub fresh : List (Text × PackageDefinitions) → Registry
fresh packages = record { store = []; unique = []; packages = packages }

-- What the lookup of a name finds, by its owner.
abbrev pub Finds : Text → Registry → Owner → Type 0
Finds s r (one q) =
    (i : ℕ) × (t : TypeSpecDef) × (get_key s r.unique ≡ some (some i))
    × (deref r.store i ≡ some t)
    × (type_name t ≡ s)
    × (t.pkg_path ≡ q)
Finds s r nobody = get_key s r.unique ≡ none
Finds s r several = get_key s r.unique ≡ none

-- The types of the files, in any order of the files, are registered such that, for a name that no path
-- of a package makes: if one package declares it, the lookup finds a definition of that package which
-- has the name; if no package or more than one declares it, the lookup finds nothing.
pub parse_types-Finds :
    (s : Text) (fs : List SourceFile) (packages : List (Text × PackageDefinitions))
    → IsApart s (declared fs [])
    → Finds s (parse_types fs (fresh packages)) (owner s (declared fs []))
unfolding parse_types Owns
parse_types-Finds s fs packages apart =
    let r = parse_files fs (fresh packages) in
    let distinct =
      parse_files-keeps (λ _ r'. HasDistinctKeys r'.unique) added-HasDistinctKeys fs []
        (fresh packages) (unfold HasDistinctKeys in tt) in
    let (indexed, owned) = parse_files-keeps (IsSound s) (added-IsSound s) fs [] (fresh packages) (
      unfold get_key in (λ k i e. absurd (ground arith)),
      λ _. (tt, unfold owner Owns get_key in refl),
    ) in
    found (owner s (declared fs [])) r distinct indexed (owned apart).1
  where
    found :
        (o : Owner) (r : Registry)
        → HasDistinctKeys r.unique
        → IsIndexed r.store r.unique
        → Owns s r.store r.unique o
        → Finds s (record r { unique = remove_all_not_unique_types r.unique }) o
    found nobody r d h w = get_key-remove s r.unique d ∙ ap found_only w
    found several r d h w = get_key-remove s r.unique d ∙ ap found_only w
    found (one q) r d h (i, e, p) =
        let (t, target, named) = h s i e in
        let path = path_at-deref r.store i target in
        (i, t, get_key-remove s r.unique d ∙ ap found_only e, target, named, ground arith)

-- The schema name is the override, or the name as it is now.
abbrev pub IsNamed : TypeSpecDef → Type 0
IsNamed d = d.schema_name ≡ or_else (name_override d.spec.comments) (type_name d)

set_schema_name-IsNamed : (d : TypeSpecDef) → IsNamed (set_schema_name d)
unfolding set_schema_name type_name
set_schema_name-IsNamed d = refl

change-IsNamed :
    (ds : List TypeSpecDef) (j : ℕ) → All IsNamed ds → All IsNamed (change demoted j ds)
unfolding change
change-IsNamed [] j h = tt
change-IsNamed (d ∷ ds) zero (here, later) = (set_schema_name-IsNamed (mark d), later)
change-IsNamed (d ∷ ds) (suc j) (here, later) = (here, change-IsNamed ds j later)

added-IsNamed :
    (names : List Name) (file name : Text) (d : TypeSpecDef) (r : Registry)
    → d.not_unique ≡ false
    → All IsNamed r.store
    → All IsNamed (added file name d r).store
added-IsNamed names file name d r new h = by_entry (entry_of r d)
  where
    by_entry :
        (entry : Entry)
        → All IsNamed (stored file name (length r.store) (enter r (length r.store) d entry)).store
    by_entry free =
        unfold stored enter in All-append IsNamed r.store _ h (set_schema_name-IsNamed d, tt)
    by_entry taken =
        unfold stored enter in All-append IsNamed r.store _ h (set_schema_name-IsNamed (mark d), tt)
    by_entry (held j t) =
        unfold stored enter in
        elim (Bool-cases (text_eq d.pkg_path t.pkg_path)) [
          | inl same ↦ rw same (All-append IsNamed r.store _ h (set_schema_name-IsNamed d, tt))
          | inr differ ↦ rw differ (
              All-append IsNamed (change demoted j r.store) _ (change-IsNamed r.store j h)
                (set_schema_name-IsNamed (mark d), tt))
        ]

-- Behind the registration every definition has its override for a schema name or, without one, the
-- name that it has now, also a definition that lost its short name to another package.
pub parse_types-IsNamed :
    (fs : List SourceFile) (packages : List (Text × PackageDefinitions))
    → All IsNamed (parse_types fs (fresh packages)).store
unfolding parse_types Owns
parse_types-IsNamed fs packages =
    parse_files-keeps (λ _ r. All IsNamed r.store) added-IsNamed fs [] (fresh packages) tt
