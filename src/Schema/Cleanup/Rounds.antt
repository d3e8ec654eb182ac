-- ===== src/Schema/Cleanup/Rounds.antt =====
-- The two inner loops of `RemoveUnusedDefinitions`: one round marks only needed names, brings the
-- end nearer when it marks any, and leaves a closed set when it marks none.
use core_swag.Base.{
  ◌≤◌, ◌<◌, ◌≡◌, inl, inr, refl, sym, ap, ◌∙◌, Bool, true, false, ◌||◌, List, [], ◌∷◌,
  if◌then◌else◌, arith, Bool-cases, Option-cases, Option, none, some,
}
use mathlib.Core.Path.{subst}
use core_swag.Base.Text.{Text, text_eq, text_eq_iff, mem}
use core_swag.Spec.{Schema}
use core_swag.Schema.Cleanup.{lookup_definition, collect_definition, visit, grows, round}
use core_swag.Schema.Cleanup.Names.{mark_all, schema_names, collect_schema_refs-names}
use core_swag.Schema.Cleanup.Closure.{
  mem-mark_all, mark_all-same, missing, missing-mark_all_le, missing-mark_all_lt, Within, all_names,
  Within-all_names, Reach, step,
}

-- The names that one visit marks.
unfoldable definition_names : Option Schema → List Text
definition_names none = []
definition_names (some s) = schema_names s

visit_names : List (Text × Schema) → Text → List Text → List Text
visit_names defs name used =
    if mem name used then definition_names (lookup_definition name defs) else []

collect_definition-names :
    (o : Option Schema) (used : List Text)
    → collect_definition o used ≡ mark_all (definition_names o) used
unfolding collect_definition definition_names mark_all
collect_definition-names none used = refl
collect_definition-names (some s) used = collect_schema_refs-names s used

visit-names :
    (defs : List (Text × Schema)) (name : Text) (used : List Text)
    → visit defs name used ≡ mark_all (visit_names defs name used) used
unfolding visit visit_names mark_all
visit-names defs name used =
    ground (arith, collect_definition-names (lookup_definition name defs) used)

module _ (defs : List (Text × Schema)) where
  Within-visit :
      (name : Text) (used : List Text) → Within (visit_names defs name used) (all_names defs)
  unfolding visit_names definition_names mem
  Within-visit name used n h = elim (Option-cases (lookup_definition name defs)) [
    | inl e ↦ absurd (ground arith)
    | inr (s, e) ↦ Within-all_names name s defs e n (ground arith)
  ]

  -- `changed` is kept once it is set, and a round that does not set it changes nothing.
  pub round-changed : (names : List Text) (used : List Text) → (round defs names true used).0 ≡ true
  unfolding round
  round-changed [] used = refl
  round-changed (n ∷ ns) used = round-changed ns (visit defs n used)

  -- What a visit marks is referred to by a marked definition.
  visit-Reach :
      (roots : List Text) (name : Text) (used : List Text)
      → ((n : Text) → mem n used ≡ true → Reach defs roots n)
      → (n : Text) → mem n (visit defs name used) ≡ true
      → Reach defs roots n
  unfolding visit_names definition_names mem
  visit-Reach roots name used ih n h =
      let e = mem-mark_all n (visit_names defs name used) used in
      let k : mem n (mark_all (visit_names defs name used) used) ≡ true =
        rw (visit-names defs name used) at h in
      elim (Bool-cases (mem n used)) [
        | inl old ↦ ih n old
        | inr new ↦ elim (Bool-cases (mem name used)) [
          | inr unmarked ↦ absurd (ground arith)
          | inl marked ↦ elim (Option-cases (lookup_definition name defs)) [
            | inl gone ↦ absurd (ground arith)
            | inr (s, found) ↦ step s (ih name marked) found (ground arith)
          ]
        ]
      ]

  visit-same :
      (name : Text) (used : List Text)
      → grows used (visit defs name used) ≡ false
      → visit defs name used ≡ used
  unfolding grows
  visit-same name used h =
      visit-names defs name used
      ∙ mark_all-same (visit_names defs name used) used (rw (visit-names defs name used) at h)

  round-skip :
      (name : Text) (names used : List Text)
      → grows used (visit defs name used) ≡ false
      → round defs (name ∷ names) false used ≡ round defs names false used
  unfolding round
  round-skip name names used kept = cc (visit-same name used kept)

  -- The names of a marked definition are marked.
  abbrev pub ClosedAt : List Text → Text → Type 0
  ClosedAt used m =
      (s : Schema)
      → lookup_definition m defs ≡ some s
      → mem m used ≡ true
      → Within (schema_names s) used

  visit-ClosedAt :
      (name : Text) (used : List Text) → visit defs name used ≡ used → ClosedAt used name
  unfolding visit_names definition_names
  visit-ClosedAt name used same s found marked n h =
      let e = mem-mark_all n (visit_names defs name used) used in
      let k : mark_all (visit_names defs name used) used ≡ used =
        sym (visit-names defs name used) ∙ same in
      ground (arith, rw k at e)

  pub round-same :
      (names used : List Text)
      → (round defs names false used).0 ≡ false
      → ((round defs names false used).1 ≡ used)
        × ((m : Text) → mem m names ≡ true → ClosedAt used m)
  unfolding round mem
  round-same [] used h = (refl, λ m k. absurd (ground arith))
  round-same (name ∷ names) used h = elim (Bool-cases (grows used (visit defs name used))) [
    | inl grew ↦ absurd (ground (arith, round-changed names (visit defs name used)))
    | inr kept ↦
        let e = round-skip name names used kept in
        let (same, closed) = round-same names used (ap (λ r. r.0) (sym e) ∙ h) in
        (
          ap (λ r. r.1) e ∙ same,
          λ m k. elim (Bool-cases (text_eq name m)) [
            | inl here ↦
                rw (← (text_eq_iff name m).0 here)
                  (visit-ClosedAt name used (visit-same name used kept))
            | inr later ↦ closed m (ground arith)
          ],
        )
  ]

  -- A round marks nothing that is not needed, and unmarks nothing.
  pub round-Reach :
      (roots names : List Text) (changed : Bool) (used : List Text)
      → ((n : Text) → mem n used ≡ true → Reach defs roots n)
      → (n : Text) → mem n (round defs names changed used).1 ≡ true
      → Reach defs roots n
  unfolding round
  round-Reach roots [] changed used ih n h = ih n h
  round-Reach roots (name ∷ names) changed used ih n h =
      round-Reach roots names (changed || grows used (visit defs name used)) (visit defs name used)
        (visit-Reach roots name used ih) n h

  visit-grows :
      (name : Text) (used : List Text) (n : Text)
      → mem n used ≡ true
      → mem n (visit defs name used) ≡ true
  visit-grows name used n h =
      rw (visit-names defs name used)
        (ground (arith, mem-mark_all n (visit_names defs name used) used))

  missing-visit :
      (name : Text) (used : List Text)
      → missing (all_names defs) (visit defs name used) ≤ missing (all_names defs) used
  missing-visit name used =
      rw (visit-names defs name used) (missing-mark_all_le (visit_names defs name used) _ used)

  missing-visit_lt :
      (name : Text) (used : List Text)
      → grows used (visit defs name used) ≡ true
      → missing (all_names defs) (visit defs name used) < missing (all_names defs) used
  unfolding grows
  missing-visit_lt name used h = rw (visit-names defs name used) (
      missing-mark_all_lt (visit_names defs name used) (all_names defs) used
        (Within-visit name used) (rw (visit-names defs name used) at h))

  pub round-grows :
      (names : List Text) (changed : Bool) (used : List Text) (n : Text)
      → mem n used ≡ true
      → mem n (round defs names changed used).1 ≡ true
  unfolding round
  round-grows [] changed used n h = h
  round-grows (name ∷ names) changed used n h =
      round-grows names (changed || grows used (visit defs name used)) (visit defs name used) n
        (visit-grows name used n h)

  missing-round :
      (names : List Text) (changed : Bool) (used : List Text)
      → missing (all_names defs) (round defs names changed used).1 ≤ missing (all_names defs) used
  unfolding round
  missing-round [] changed used = omega arith
  missing-round (name ∷ names) changed used = omega (
    arith,
    missing-round names (changed || grows used (visit defs name used)) (visit defs name used),
    missing-visit name used,
  )

  pub missing-round_lt :
      (names used : List Text)
      → (round defs names false used).0 ≡ true
      → missing (all_names defs) (round defs names false used).1 < missing (all_names defs) used
  unfolding round
  missing-round_lt [] used h = cc
  missing-round_lt (name ∷ names) used h = elim (Bool-cases (grows used (visit defs name used))) [
    | inl grew ↦ omega (
      arith,
      missing-round names (grows used (visit defs name used)) (visit defs name used),
      missing-visit_lt name used grew,
    )
    | inr kept ↦
        let e = round-skip name names used kept in
        subst (λ r. missing (all_names defs) r.1 < missing (all_names defs) used) (sym e)
          (missing-round_lt names used (ap (λ r. r.0) (sym e) ∙ h))
  ]
