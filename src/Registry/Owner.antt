-- ===== src/Registry/Owner.antt =====
-- The package that a name belongs to, and the packages of the definitions in the store.
use core_swag.Base.{
  ℕ, zero, suc, ◌≡◌, refl, ap, ◌∙◌, List, [], ◌∷◌, ◌++◌, Option, none, some, length, arith, inl,
  inr, Option-cases, if◌then◌else◌,
}
use core_swag.Base.Text.{Text, text_eq}
use core_swag.Registry.{TypeSpecDef, set_schema_name, deref, change}
use core_swag.Registry.Register.{mark, free, taken, held, held_at, entry_at}
use core_swag.Registry.Index.{demoted}
use core_swag.Registry.Declared.{Name}

-- Who declares a name: no package, one, or more.
pub data Owner : Type 0 where
  nobody several : Owner
  one : Text → Owner

unfoldable pub share : Text → Owner → Owner
share path nobody = one path
share path (one other) = if text_eq path other then one other else several
share path several = several

unfoldable pub owner : Text → List Name → Owner
unfolding share
owner s [] = nobody
owner s (n ∷ names) = if text_eq n.short s then share n.path (owner s names) else owner s names

pub entry_at-free :
    (ds : List TypeSpecDef) (o : Option (Option ℕ)) → free ≡ entry_at ds o → o ≡ none
unfolding entry_at
entry_at-free ds none e = refl
entry_at-free ds (some none) e = absurd (ground arith)
entry_at-free ds (some (some i)) e = elim (Option-cases (deref ds i)) [
  | inl dangling ↦ let p : free ≡ taken = e ∙ ap (held_at i) dangling in absurd (ground arith)
  | inr (t, found) ↦ let p : free ≡ held i t = e ∙ ap (held_at i) found in absurd (ground arith)
]

-- The path of the package of a definition in the store
unfoldable pub path_at : List TypeSpecDef → ℕ → Option Text
path_at [] i = none
path_at (d ∷ ds) zero = some d.pkg_path
path_at (d ∷ ds) (suc i) = path_at ds i

pub path_at-append :
    (ds es : List TypeSpecDef) (i : ℕ) {q : Text}
    → path_at ds i ≡ some q
    → path_at (ds ++ es) i ≡ some q
unfolding path_at
path_at-append [] es i h = absurd (ground arith)
path_at-append (d ∷ ds) es zero h = h
path_at-append (d ∷ ds) es (suc i) h = path_at-append ds es i h

pub path_at-last :
    (ds : List TypeSpecDef) (d : TypeSpecDef) → path_at (ds ++ d ∷ []) (length ds) ≡ some d.pkg_path
unfolding path_at
path_at-last [] d = refl
path_at-last (e ∷ ds) d = path_at-last ds d

pub path_at-change :
    (ds : List TypeSpecDef) (j i : ℕ) → path_at (change demoted j ds) i ≡ path_at ds i
unfolding path_at change mark set_schema_name
path_at-change [] j i = refl
path_at-change (d ∷ ds) zero zero = refl
path_at-change (d ∷ ds) zero (suc i) = refl
path_at-change (d ∷ ds) (suc j) zero = refl
path_at-change (d ∷ ds) (suc j) (suc i) = path_at-change ds j i

pub path_at-deref :
    (ds : List TypeSpecDef) (i : ℕ) {t : TypeSpecDef}
    → deref ds i ≡ some t
    → path_at ds i ≡ some t.pkg_path
unfolding path_at deref
path_at-deref [] i h = absurd (ground arith)
path_at-deref (d ∷ ds) zero {t} h = let q : d ≡ t = ground arith in rw q
path_at-deref (d ∷ ds) (suc i) h = path_at-deref ds i h
