-- ===== src/Registry/Index.antt =====
-- The index of the registry is right: each entry under a name points to a definition that has the
-- name now, also when a second package has made the first lose it.
use core_swag.Base.{
  ℕ, zero, suc, ◌≡◌, ◌≢◌, refl, ap, sym, ◌∙◌, List, [], ◌∷◌, ◌++◌, Option, none, some, length,
  arith, inl, inr, Bool-cases, Option-cases,
}
use core_swag.Base.Text.{Text, text_eq, text_eq_iff}
use core_swag.Base.Maps.{put_key, get_key, get_key-put_key}
use core_swag.Registry.{TypeSpecDef, type_name, set_schema_name, Registry, deref, change}
use core_swag.Registry.Register.{
  mark, Entry, free, taken, held, held_at, entry_at, enter, stored, entry_of,
}

deref-append :
    (ds es : List TypeSpecDef) (i : ℕ) {t : TypeSpecDef}
    → deref ds i ≡ some t
    → deref (ds ++ es) i ≡ some t
unfolding deref
deref-append [] es i h = absurd (ground arith)
deref-append (d ∷ ds) es zero h = h
deref-append (d ∷ ds) es (suc i) h = deref-append ds es i h

pub deref-last :
    (ds : List TypeSpecDef) (d : TypeSpecDef) → deref (ds ++ d ∷ []) (length ds) ≡ some d
unfolding deref
deref-last [] d = refl
deref-last (e ∷ ds) d = deref-last ds d

module _ (f : TypeSpecDef → TypeSpecDef) where
  deref-change_self :
      (ds : List TypeSpecDef) (i : ℕ) {t : TypeSpecDef}
      → deref ds i ≡ some t
      → deref (change f i ds) i ≡ some (f t)
  unfolding deref change
  deref-change_self [] i h = absurd (ground arith)
  deref-change_self (d ∷ ds) zero {t} h = let q : d ≡ t = ground arith in rw q
  deref-change_self (d ∷ ds) (suc i) h = deref-change_self ds i h

  deref-change_ne : (ds : List TypeSpecDef) (i j : ℕ) → i ≢ j → deref (change f j ds) i ≡ deref ds i
  unfolding deref change
  deref-change_ne [] i j h = refl
  deref-change_ne (d ∷ ds) zero zero h = absurd (h refl)
  deref-change_ne (d ∷ ds) zero (suc j) h = refl
  deref-change_ne (d ∷ ds) (suc i) zero h = refl
  deref-change_ne (d ∷ ds) (suc i) (suc j) h = deref-change_ne ds i j (λ e. h (omega arith))

  pub length-change : (ds : List TypeSpecDef) (i : ℕ) → length (change f i ds) ≡ length ds
  unfolding change
  length-change [] i = refl
  length-change (d ∷ ds) zero = refl
  length-change (d ∷ ds) (suc i) = ap suc (length-change ds i)

pub type_name-set_schema_name : (d : TypeSpecDef) → type_name (set_schema_name d) ≡ type_name d
unfolding type_name set_schema_name
type_name-set_schema_name d = refl

-- The pointer leads to a definition of the name.
abbrev pub Points : List TypeSpecDef → ℕ → Text → Type 0
Points ds i k = (t : TypeSpecDef) × (deref ds i ≡ some t) × (type_name t ≡ k)

abbrev pub IsIndexed : List TypeSpecDef → List (Text × Option ℕ) → Type 0
IsIndexed ds m = (k : Text) (i : ℕ) → get_key k m ≡ some (some i) → Points ds i k

Points-append :
    (ds es : List TypeSpecDef) (i : ℕ) (k : Text) → Points ds i k → Points (ds ++ es) i k
Points-append ds es i k (t, e, n) = (t, deref-append ds es i e, n)

-- An entry that is written, and the entries that are left.
put_key-IsIndexed :
    (ds : List TypeSpecDef) (m : List (Text × Option ℕ)) (n : Text) (i : ℕ)
    → Points ds i n
    → ((k : Text) (j : ℕ) → k ≢ n → get_key k m ≡ some (some j) → Points ds j k)
    → IsIndexed ds (put_key n (some i) m)
put_key-IsIndexed ds m n i new old k j e = elim (Bool-cases (text_eq n k)) [
  | inl same ↦
      let q : n ≡ k = (text_eq_iff n k).0 same in
      let p : i ≡ j = ground (arith, get_key-put_key k n (some i) m) in rw (← q) (rw (← p) new)
  | inr ne ↦
      old k j (λ q. ground (arith, text_eq_iff n k))
        (ground (arith, get_key-put_key k n (some i) m))
]

pub entry_at-held :
    (ds : List TypeSpecDef) (o : Option (Option ℕ)) (j : ℕ) (t : TypeSpecDef)
    → held j t ≡ entry_at ds o
    → (o ≡ some (some j)) × (deref ds j ≡ some t)
unfolding entry_at
entry_at-held ds none j t e = absurd (ground arith)
entry_at-held ds (some none) j t e = absurd (ground arith)
entry_at-held ds (some (some i)) j t e = elim (Option-cases (deref ds i)) [
  | inl dangling ↦ absurd (ground arith)
  | inr (u, found) ↦
      let p : held j t ≡ held i u = e ∙ ap (held_at i) found in
      let q : i ≡ j = ground arith in
      let v : u ≡ t = ground arith in (rw q, rw (← q) (rw (← v) found))
]

abbrev pub demoted : TypeSpecDef → TypeSpecDef
demoted t = set_schema_name (mark t)

-- The definition that loses its name, and the name itself
module _ (ds es : List TypeSpecDef) (m : List (Text × Option ℕ)) (n : Text) (j : ℕ)
    (t : TypeSpecDef) (at_name : get_key n m ≡ some (some j)) (target : deref ds j ≡ some t)
    (h : IsIndexed ds m) where
  -- No entry but that of the name leads to it.
  only_entry : (k : Text) (i : ℕ) → k ≢ n → get_key k m ≡ some (some i) → i ≢ j
  only_entry k i ne e same =
      let (x, dx, nx) = h k i e in
      let (y, dy, ny) = h n j at_name in
      let dx' : deref ds j ≡ some x = rw (← same) dx in
      let p : x ≡ y = ground arith in ne (sym nx ∙ ap type_name p ∙ ny)

  rest-IsIndexed :
      (k : Text) (i : ℕ)
      → get_key k (put_key n none m) ≡ some (some i)
      → Points (change demoted j ds ++ es) i k
  rest-IsIndexed k i e =
      let ne : k ≢ n = λ q. ground (arith, get_key-put_key k n none m, text_eq_iff n k) in
      let old : get_key k m ≡ some (some i) =
        ground (arith, get_key-put_key k n none m, text_eq_iff n k) in
      let (x, dx, nx) = h k i old in
      let kept = deref-change_ne demoted ds i j (only_entry k i ne old) in
      Points-append (change demoted j ds) es i k (x, kept ∙ dx, nx)

  demoted-IsIndexed :
      IsIndexed
        (change demoted j ds ++ es)
        (put_key (type_name (mark t)) (some j) (put_key n none m))
  demoted-IsIndexed =
      put_key-IsIndexed _ (put_key n none m) (type_name (mark t)) j
        (
          demoted t,
          deref-append _ es j (deref-change_self demoted ds j target),
          type_name-set_schema_name (mark t),
        )
        (λ k i _ e. rest-IsIndexed k i e)

-- The new definition, entered and stored, and what it makes of the index
pub stored-IsIndexed :
    (r : Registry) (d : TypeSpecDef) (file name : Text) (entry : Entry)
    → entry ≡ entry_of r d
    → IsIndexed r.store r.unique
    → let r' = stored file name (length r.store) (enter r (length r.store) d entry) in
      IsIndexed r'.store r'.unique
unfolding stored enter
stored-IsIndexed r d file name free e h =
    put_key-IsIndexed (r.store ++ set_schema_name d ∷ []) r.unique (type_name d) (length r.store)
      (set_schema_name d, deref-last r.store (set_schema_name d), type_name-set_schema_name d)
      (λ k j _ q. Points-append r.store _ j k (h k j q))
stored-IsIndexed r d file name taken e h =
    put_key-IsIndexed (r.store ++ set_schema_name (mark d) ∷ []) r.unique (type_name (mark d))
      (length r.store)
      (
        set_schema_name (mark d),
        deref-last r.store (set_schema_name (mark d)),
        type_name-set_schema_name (mark d),
      )
      (λ k j _ q. Points-append r.store _ j k (h k j q))
stored-IsIndexed r d file name (held j t) e h =
    let (at_name, target) = entry_at-held r.store _ j t e in
    let d' = demoted d in
    let store = change demoted j r.store in
    let last : deref (store ++ d' ∷ []) (length r.store) ≡ some d' =
      rw (← length-change demoted r.store j) (deref-last store d') in
    elim (Bool-cases (text_eq d.pkg_path t.pkg_path)) [
      | inl same ↦ rw same (λ k i q. Points-append r.store _ i k (h k i q))
      | inr differ ↦ rw differ (
          put_key-IsIndexed (store ++ d' ∷ []) _ (type_name (mark d)) (length r.store)
            (d', last, type_name-set_schema_name (mark d))
            (λ k i _ q.
              demoted-IsIndexed r.store (d' ∷ []) r.unique (type_name d) j t at_name target h k i
                q))
    ]
