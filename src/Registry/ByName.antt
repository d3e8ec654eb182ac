-- ===== src/Registry/ByName.antt =====
-- A name that two packages declare: the lookup by name prefers the packages of the project.
use core_swag.Base.{
  ℕ, ◌≡◌, refl, Bool, true, false, ◌&&◌, ◌||◌, List, [], ◌∷◌, Option, none, some, arith, inl, inr,
  Bool-cases, Option-cases,
}
use core_swag.Base.Text.{Text, text_eq_iff}
use core_swag.Base.Maps.{get_key}
use core_swag.Registry.{TypeSpecDef, simple_type_name, PackageDefinitions, deref}
use core_swag.Registry.Register.{SourceFile, parse_types}
use core_swag.Registry.Lookup.{
  is_project_local, is_candidate, find_candidate, find_type_spec_by_name,
}
use core_swag.Registry.Declared.{declared}
use core_swag.Registry.Owner.{several, owner}
use core_swag.Registry.Unique.{IsApart}
use core_swag.Registry.Types.{fresh, parse_types-Finds}

module _ (ds : List TypeSpecDef) (prefixes : List Text) (name : Text) where
  -- A definition of the project that may stand for the name
  abbrev pub is_local : Option TypeSpecDef → Bool
  is_local none = false
  is_local (some d) = is_candidate name d && is_project_local prefixes d

  unfoldable pub has_local : List (Text × Option ℕ) → Bool
  has_local [] = false
  has_local ((k, none) ∷ m) = has_local m
  has_local ((k, some i) ∷ m) = is_local (deref ds i) || has_local m

  find_candidate-is_local :
      (m : List (Text × Option ℕ)) (candidate : Option ℕ)
      → has_local m ≡ true
      → (i : ℕ) × (find_candidate ds prefixes name m candidate ≡ some i)
        × (is_local (deref ds i) ≡ true)
  unfolding has_local find_candidate
  find_candidate-is_local [] candidate h = absurd (ground arith)
  find_candidate-is_local ((k, none) ∷ m) candidate h = find_candidate-is_local m candidate h
  find_candidate-is_local ((k, some i) ∷ m) candidate h = elim (Option-cases (deref ds i)) [
    | inl dangling ↦ rw dangling (find_candidate-is_local m candidate (rw dangling at h))
    | inr (d, found) ↦ rw found (elim (Bool-cases (is_candidate name d)) [
      | inr no_candidate ↦
          rw no_candidate (find_candidate-is_local m candidate (rw (found, no_candidate) at h))
      | inl fits ↦ rw fits (elim (Bool-cases (is_project_local prefixes d)) [
        | inl local ↦ rw local (i, refl, rw found (rw (fits, local)))
        | inr elsewhere ↦
            rw elsewhere (find_candidate-is_local m _ (rw (found, fits, elsewhere) at h))
      ])
    ])
  ]

is_local-simple_type_name :
    (ds : List TypeSpecDef) (prefixes : List Text) (name : Text) (i : ℕ)
    → is_local ds prefixes name (deref ds i) ≡ true
    → (t : TypeSpecDef) × (deref ds i ≡ some t)
      × (simple_type_name t ≡ name)
      × (is_project_local prefixes t ≡ true)
unfolding is_candidate
is_local-simple_type_name ds prefixes name i h = elim (Option-cases (deref ds i)) [
  | inl dangling ↦
      let q : is_local ds prefixes name none ≡ true = rw dangling at h in absurd (ground arith)
  | inr (t, found) ↦
      let q : is_local ds prefixes name (some t) ≡ true = rw found at h in
      (t, found, (text_eq_iff (simple_type_name t) name).0 (ground arith), ground arith)
]

-- A name that several packages declare, and no path of a package makes, is looked up as a definition
-- with that short name in a package of the project, if the registry has one that has lost the name.
pub find_type_spec_by_name-is_project_local :
    (s : Text) (fs : List SourceFile) (packages : List (Text × PackageDefinitions))
    (prefixes : List Text)
    → IsApart s (declared fs [])
    → owner s (declared fs []) ≡ several
    → let r = parse_types fs (fresh packages) in
      has_local r.store prefixes s r.unique ≡ true
      → (i : ℕ) × (t : TypeSpecDef) × (find_type_spec_by_name r prefixes s ≡ some i)
        × (deref r.store i ≡ some t)
        × (simple_type_name t ≡ s)
        × (is_project_local prefixes t ≡ true)
unfolding find_type_spec_by_name
find_type_spec_by_name-is_project_local s fs packages prefixes apart shared local =
    let r = parse_types fs (fresh packages) in
    let lookup : get_key s r.unique ≡ none = rw shared at (parse_types-Finds s fs packages apart) in
    let (i, found, at) = find_candidate-is_local r.store prefixes s r.unique none local in
    let (t, target, named, inside) = is_local-simple_type_name r.store prefixes s i at in
    (i, t, rw lookup found, target, named, inside)
