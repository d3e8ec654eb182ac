-- ===== src/Registry/Unique.antt =====
-- Which name belongs to which package: a name that one package declares is found, with a definition
-- of that package, and a name that two packages declare is not.
use core_swag.Base.{
  ℕ, zero, suc, ◌≡◌, refl, ap, ◌∙◌, true, false, List, [], ◌∷◌, Option, none, some, length, arith,
  inl, inr, Bool-cases, All, All-append,
}
use core_swag.Base.Text.{Text, text_eq, text_eq_iff}
use core_swag.Base.Maps.{get_key, get_key-put_key}
use core_swag.Registry.{TypeSpecDef, type_name, set_schema_name, Registry, deref, change}
use core_swag.Registry.Register.{
  mark, Entry, free, taken, held, held_at, entry_at, enter, stored, entry_of,
}
use core_swag.Registry.Index.{IsIndexed, stored-IsIndexed, entry_at-held, demoted}
use core_swag.Registry.Declared.{Name, name_of, added}
use core_swag.Registry.Owner.{
  Owner, nobody, several, one, share, owner, entry_at-free, path_at, path_at-append, path_at-last,
  path_at-change, path_at-deref,
}

-- The name is not one that is made of the path of a package.
module _ (s : Text) where
  abbrev pub IsNotLong : TypeSpecDef → Type 0
  IsNotLong d = text_eq (type_name (mark d)) s ≡ false

  abbrev pub IsApart : List Name → Type 0
  IsApart names = All (λ n. text_eq n.long s ≡ false) names

  IsNotLong-change :
      (ds : List TypeSpecDef) (j : ℕ) → All IsNotLong ds → All IsNotLong (change demoted j ds)
  unfolding change type_name mark set_schema_name
  IsNotLong-change [] j h = tt
  IsNotLong-change (d ∷ ds) zero (here, later) = (here, later)
  IsNotLong-change (d ∷ ds) (suc j) (here, later) = (here, IsNotLong-change ds j later)

  IsNotLong-deref :
      (ds : List TypeSpecDef) (i : ℕ) {t : TypeSpecDef}
      → All IsNotLong ds
      → deref ds i ≡ some t
      → IsNotLong t
  unfolding deref
  IsNotLong-deref [] i h e = absurd (ground arith)
  IsNotLong-deref (d ∷ ds) zero {t} h e = let q : d ≡ t = ground arith in rw (← q) h.0
  IsNotLong-deref (d ∷ ds) (suc i) h e = IsNotLong-deref ds i h.1 e

  -- What the index has under the name, when it belongs to an owner.
  unfoldable pub Owns : List TypeSpecDef → List (Text × Option ℕ) → Owner → Type 0
  Owns ds m nobody = get_key s m ≡ none
  Owns ds m (one q) = (i : ℕ) × (get_key s m ≡ some (some i)) × (path_at ds i ≡ some q)
  Owns ds m several = get_key s m ≡ some none

  Owns-same :
      (ds ds' : List TypeSpecDef) (m m' : List (Text × Option ℕ)) (o : Owner)
      → get_key s m' ≡ get_key s m
      → ((i : ℕ) (q : Text) → path_at ds i ≡ some q → path_at ds' i ≡ some q)
      → Owns ds m o
      → Owns ds' m' o
  unfolding Owns
  Owns-same ds ds' m m' nobody same paths h = same ∙ h
  Owns-same ds ds' m m' (one q) same paths (i, e, p) = (i, same ∙ e, paths i q p)
  Owns-same ds ds' m m' several same paths h = same ∙ h

  -- Paths stay where they are.
  paths_kept :
      (r : Registry) (d : TypeSpecDef) (file name : Text) (entry : Entry) (i : ℕ) (q : Text)
      → path_at r.store i ≡ some q
      → path_at (stored file name (length r.store) (enter r (length r.store) d entry)).store i
        ≡ some q
  unfolding stored enter
  paths_kept r d file name free i q h = path_at-append r.store _ i h
  paths_kept r d file name taken i q h = path_at-append r.store _ i h
  paths_kept r d file name (held j t) i q h = elim (Bool-cases (text_eq d.pkg_path t.pkg_path)) [
    | inl same ↦ rw same (path_at-append r.store _ i h)
    | inr differ ↦ rw differ (path_at-append _ _ i (path_at-change r.store j i ∙ h))
  ]

  module _ (r : Registry) (d : TypeSpecDef) (file name : Text) (long : IsNotLong d)
      (longs : All IsNotLong r.store) where
    -- Another name is not touched.
    get_key-other :
        (entry : Entry)
        → entry ≡ entry_of r d
        → text_eq (type_name d) s ≡ false
        → get_key s (enter r (length r.store) d entry).0.unique ≡ get_key s r.unique
    unfolding enter
    get_key-other free e ne = get_key-put_key s _ _ _ ∙ rw ne
    get_key-other taken e ne = get_key-put_key s _ _ _ ∙ rw long
    get_key-other (held j t) e ne =
        let long_t : IsNotLong t =
          IsNotLong-deref r.store j longs (entry_at-held r.store _ j t e).1 in
        elim (Bool-cases (text_eq d.pkg_path t.pkg_path)) [
          | inl same ↦ rw same
          | inr differ ↦ rw differ (
              get_key-put_key s _ _ _
              ∙ rw long (get_key-put_key s _ _ _ ∙ rw long_t (get_key-put_key s _ _ _ ∙ rw ne)))
        ]

    -- A name that is taken stays so, and one that another package holds becomes so.
    get_key-taken :
        get_key s r.unique ≡ some none
        → get_key s (enter r (length r.store) d taken).0.unique ≡ some none
    unfolding enter
    get_key-taken h = get_key-put_key s _ _ _ ∙ rw long h

    get_key-differ :
        (j : ℕ) (t : TypeSpecDef)
        → IsNotLong t
        → text_eq (type_name d) s ≡ true
        → text_eq d.pkg_path t.pkg_path ≡ false
        → get_key s (enter r (length r.store) d (held j t)).0.unique ≡ some none
    unfolding enter
    get_key-differ j t long_t same differ = rw differ (
        get_key-put_key s _ _ _
        ∙ rw long (get_key-put_key s _ _ _ ∙ rw long_t (get_key-put_key s _ _ _ ∙ rw same)))

    get_key-agree :
        (j : ℕ) (t : TypeSpecDef)
        → text_eq d.pkg_path t.pkg_path ≡ true
        → get_key s (enter r (length r.store) d (held j t)).0.unique ≡ get_key s r.unique
    unfolding enter
    get_key-agree j t same = rw same

    -- What the name belongs to behind the registration
    module _ (same : text_eq (type_name d) s ≡ true) where
      at_name :
          (o : Option (Option ℕ)) → get_key (type_name d) r.unique ≡ o → get_key s r.unique ≡ o
      at_name o e = rw (← (text_eq_iff (type_name d) s).0 same) e

      free-Owns :
          (o : Owner)
          → free ≡ entry_of r d
          → Owns r.store r.unique o
          → let r' = stored file name (length r.store) (enter r (length r.store) d free) in
            Owns r'.store r'.unique (share d.pkg_path o)
      unfolding Owns share stored enter
      free-Owns nobody e h = (
        length r.store,
        get_key-put_key s _ _ _ ∙ rw same,
        path_at-last r.store (set_schema_name d),
      )
      free-Owns (one q) e h =
          let k = at_name none (entry_at-free r.store _ e) in absurd (ground arith)
      free-Owns several e h =
          let k = at_name none (entry_at-free r.store _ e) in absurd (ground arith)

      taken-Owns :
          (o : Owner)
          → get_key s r.unique ≡ some none
          → Owns r.store r.unique o
          → let r' = stored file name (length r.store) (enter r (length r.store) d taken) in
            Owns r'.store r'.unique (share d.pkg_path o)
      unfolding Owns share stored
      taken-Owns nobody k h = absurd (ground arith)
      taken-Owns (one q) k h = absurd (ground arith)
      taken-Owns several k h = get_key-taken h

      held-Owns :
          (o : Owner) (j : ℕ) (t : TypeSpecDef)
          → held j t ≡ entry_of r d
          → Owns r.store r.unique o
          → let r' = stored file name (length r.store) (enter r (length r.store) d (held j t)) in
            Owns r'.store r'.unique (share d.pkg_path o)
      unfolding Owns share stored
      held-Owns nobody j t e h =
          let k = at_name _ (entry_at-held r.store _ j t e).0 in absurd (ground arith)
      held-Owns several j t e h =
          let k = at_name _ (entry_at-held r.store _ j t e).0 in absurd (ground arith)
      held-Owns (one q) j t e (i, found, path) =
          let (at, target) = entry_at-held r.store _ j t e in
          let k = at_name _ at in
          let p : i ≡ j = ground arith in
          let path' : path_at r.store j ≡ some q = rw (← p) path in
          let path_t = path_at-deref r.store j target in
          let u : t.pkg_path ≡ q = ground arith in
          elim (Bool-cases (text_eq d.pkg_path t.pkg_path)) [
            | inl agree ↦
                let a : text_eq d.pkg_path q ≡ true = rw (← u) agree in
                rw a (j, get_key-agree j t agree ∙ k, paths_kept r d file name (held j t) j q path')
            | inr differ ↦
                let a : text_eq d.pkg_path q ≡ false = rw (← u) differ in
                rw a (get_key-differ j t (IsNotLong-deref r.store j longs target) same differ)
          ]

      -- A pointer of the index never leads nowhere, so an entry that is taken is nil.
      taken-nil :
          IsIndexed r.store r.unique
          → (o : Option (Option ℕ)) → get_key (type_name d) r.unique ≡ o
          → taken ≡ entry_at r.store o
          → get_key s r.unique ≡ some none
      unfolding entry_at
      taken-nil h none k e = absurd (ground arith)
      taken-nil h (some none) k e = at_name _ k
      taken-nil h (some (some i)) k e =
          let (t, found, _) = h (type_name d) i k in
          let p : taken ≡ held i t = e ∙ ap (held_at i) found in absurd (ground arith)

      same-Owns :
          (o : Owner) (entry : Entry)
          → entry ≡ entry_of r d
          → IsIndexed r.store r.unique
          → Owns r.store r.unique o
          → let r' = stored file name (length r.store) (enter r (length r.store) d entry) in
            Owns r'.store r'.unique (share d.pkg_path o)
      same-Owns o free e h w = free-Owns o e w
      same-Owns o taken e h w = taken-Owns o (taken-nil h _ refl e) w
      same-Owns o (held j t) e h w = held-Owns o j t e w

    other-Owns :
        (o : Owner) (entry : Entry)
        → entry ≡ entry_of r d
        → text_eq (type_name d) s ≡ false
        → Owns r.store r.unique o
        → let r' = stored file name (length r.store) (enter r (length r.store) d entry) in
          Owns r'.store r'.unique o
    unfolding stored
    other-Owns o entry e ne w =
        Owns-same r.store _ r.unique _ o (get_key-other entry e ne) (paths_kept r d file name entry)
          w

    added-IsNotLong :
        (entry : Entry)
        → All IsNotLong (stored file name (length r.store) (enter r (length r.store) d entry)).store
    unfolding stored enter type_name mark set_schema_name
    added-IsNotLong free = All-append IsNotLong r.store _ longs (long, tt)
    added-IsNotLong taken = All-append IsNotLong r.store _ longs (long, tt)
    added-IsNotLong (held j t) = elim (Bool-cases (text_eq d.pkg_path t.pkg_path)) [
      | inl same ↦ rw same (All-append IsNotLong r.store _ longs (long, tt))
      | inr differ ↦ rw differ (
          All-append IsNotLong (change demoted j r.store) _ (IsNotLong-change r.store j longs)
            (long, tt))
    ]

  -- What holds behind the registration of some names.
  abbrev pub IsSound : List Name → Registry → Type 0
  IsSound names r =
      IsIndexed r.store r.unique
      × (IsApart names → All IsNotLong r.store × Owns r.store r.unique (owner s names))

  pub added-IsSound :
      (names : List Name) (file name : Text) (d : TypeSpecDef) (r : Registry)
      → d.not_unique ≡ false
      → IsSound names r
      → IsSound (name_of d ∷ names) (added file name d r)
  unfolding owner
  added-IsSound names file name d r new (h, w) = (
    stored-IsIndexed r d file name (entry_of r d) refl h,
    λ apart.
        let (longs, owns) = w apart.1 in
        (
          added-IsNotLong r d file name apart.0 longs (entry_of r d),
          elim (Bool-cases (text_eq (type_name d) s)) [
            | inl same ↦ rw same (
                same-Owns r d file name apart.0 longs same (owner s names) (entry_of r d) refl h
                  owns)
            | inr ne ↦
                rw ne (
                  other-Owns r d file name apart.0 longs (owner s names) (entry_of r d) refl ne
                    owns)
          ],
        ),
  )
