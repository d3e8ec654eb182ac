-- ===== src/Schema/Cleanup/Kept.antt =====
-- What `RemoveUnusedDefinitions` keeps: the definitions that the specification needs.
use core_swag.Base.{
  ℕ, zero, suc, ◌<◌, ◌≡◌, ◌↔◌, ◌≢◌, inl, inr, sym, ◌∙◌, true, false, List, [], ◌∷◌, length,
  if◌then◌else◌, arith, Bool-cases, Option-cases, none, some,
}
use core_swag.Base.Text.{Text, text_eq_iff, mem}
use core_swag.Spec.{Schema, Swagger, PathItem}
use core_swag.Schema.Cleanup.{
  lookup_definition, round, closure, delete_unused, remove_unused_definitions,
}
use core_swag.Schema.Cleanup.Names.{mark_all, root_names, collect_swagger-names}
use core_swag.Schema.Cleanup.Closure.{missing, missing-le-length, all_names, Reach, root, step}
use core_swag.Schema.Cleanup.Rounds.{
  round-Reach, round-grows, round-same, missing-round_lt, ClosedAt,
}

-- Every round walks over each definition.
abbrev pub Covers : List (Text × Schema) → (ℕ → List Text) → Type 0
Covers defs order = (k : ℕ) (n : Text) → lookup_definition n defs ≢ none → mem n (order k) ≡ true

module _ (defs : List (Text × Schema)) (order : ℕ → List Text) where
  closure-more :
      (fuel k : ℕ) (used : List Text)
      → (round defs (order k) false used).0 ≡ true
      → closure (suc fuel) defs order k used
        ≡ closure fuel defs order (suc k) (round defs (order k) false used).1
  unfolding closure
  closure-more fuel k used h = rw (h, closure)

  closure-done :
      (fuel k : ℕ) (used : List Text)
      → (round defs (order k) false used).0 ≡ false
      → closure (suc fuel) defs order k used ≡ some (round defs (order k) false used).1
  unfolding closure
  closure-done fuel k used h = rw (h, closure)

  closure-total :
      (fuel k : ℕ) (used : List Text)
      → missing (all_names defs) used < fuel
      → (r : List Text) × (closure fuel defs order k used ≡ some r)
  unfolding closure
  closure-total zero k used h = absurd (omega arith)
  closure-total (suc fuel) k used h = elim (Bool-cases (round defs (order k) false used).0) [
    | inl more ↦
        let (r, e) =
          closure-total fuel (suc k) (round defs (order k) false used).1
            (omega (arith, missing-round_lt defs (order k) used more)) in
        (r, closure-more fuel k used more ∙ e)
    | inr done ↦ ((round defs (order k) false used).1, closure-done fuel k used done)
  ]

  closure-Reach :
      (roots : List Text) (fuel k : ℕ) (used r : List Text)
      → ((n : Text) → mem n used ≡ true → Reach defs roots n)
      → closure fuel defs order k used ≡ some r
      → (n : Text) → mem n r ≡ true
      → Reach defs roots n
  unfolding closure
  closure-Reach roots zero k used r ih e n h = absurd (ground arith)
  closure-Reach roots (suc fuel) k used r ih e n h =
      elim (Bool-cases (round defs (order k) false used).0) [
        | inl more ↦
            closure-Reach roots fuel (suc k) (round defs (order k) false used).1 r
              (round-Reach defs roots (order k) false used ih)
              (sym (closure-more fuel k used more) ∙ e) n h
        | inr done ↦
            round-Reach defs roots (order k) false used ih n
              (ground (arith, closure-done fuel k used done))
      ]

  -- The set at which the loop stops holds what it began with, and the names of each of its own.
  closure-closed :
      (fuel k : ℕ) (used r : List Text)
      → Covers defs order
      → closure fuel defs order k used ≡ some r
      → ((n : Text) → mem n used ≡ true → mem n r ≡ true) × ((m : Text) → ClosedAt defs r m)
  unfolding closure
  closure-closed zero k used r c e = absurd (ground arith)
  closure-closed (suc fuel) k used r c e = elim (Bool-cases (round defs (order k) false used).0) [
    | inl more ↦
        let (keeps, closed) =
          closure-closed fuel (suc k) (round defs (order k) false used).1 r c
            (sym (closure-more fuel k used more) ∙ e) in
        (λ n h. keeps n (round-grows defs (order k) false used n h), closed)
    | inr done ↦
        let (same, closed) = round-same defs (order k) used done in
        let stop : r ≡ used = ground (arith, closure-done fuel k used done) in
        rw stop (λ n h. h, λ m s found. closed m (c k m (λ gone. ground arith)) s found)
  ]

  Reach-marked :
      (roots r : List Text) {n : Text}
      → ((m : Text) → mem m roots ≡ true → mem m r ≡ true)
      → ((m : Text) → ClosedAt defs r m)
      → Reach defs roots n
      → mem n r ≡ true
  Reach-marked roots r keeps closed (root h) = keeps _ h
  Reach-marked roots r keeps closed (step {m} {n} s reached found named) =
      closed m s found (Reach-marked roots r keeps closed reached) n named

  -- The loop stops at exactly the needed names.
  pub closure_iff :
      (fuel : ℕ) (roots r : List Text)
      → Covers defs order
      → closure fuel defs order 0 roots ≡ some r
      → (n : Text) → (mem n r ≡ true) ↔ Reach defs roots n
  closure_iff fuel roots r c e n =
      let (keeps, closed) = closure-closed fuel 0 roots r c e in
      (closure-Reach roots fuel 0 roots r (λ m h. root h) e n, Reach-marked roots r keeps closed)

pub lookup_definition-delete_unused :
    (n : Text) (used : List Text) (defs : List (Text × Schema))
    → lookup_definition n (delete_unused used defs)
      ≡ (if mem n used then lookup_definition n defs else none)
unfolding lookup_definition delete_unused
lookup_definition-delete_unused n used [] = ground arith
lookup_definition-delete_unused n used ((k, s) ∷ ds) =
    ground (arith, lookup_definition-delete_unused n used ds, text_eq_iff k n)

-- With more fuel than the definitions hold references, `RemoveUnusedDefinitions` returns on a
-- specification with paths and definitions, whatever the orders in which the map is walked.
pub remove_unused_definitions-total :
    (fuel : ℕ) (order : ℕ → List Text) (sw : Swagger) (defs : List (Text × Schema))
    (ps : List (Text × PathItem))
    → sw.definitions ≡ some defs
    → sw.paths ≡ some ps
    → length (all_names defs) < fuel
    → (out : Swagger) × (remove_unused_definitions fuel order sw ≡ some out)
unfolding remove_unused_definitions
remove_unused_definitions-total fuel order sw defs ps d p h =
    let roots = mark_all (root_names ps sw) [] in
    let (r, e) =
      closure-total defs order fuel 0 roots
        (omega (arith, missing-le-length (all_names defs) roots)) in
    (
      record sw { definitions = some (delete_unused r defs) },
      ground (arith, collect_swagger-names sw ps [] p),
    )

-- What a run that returns has computed.
pub run_inverse :
    (fuel : ℕ) (order : ℕ → List Text) (sw out : Swagger) (defs : List (Text × Schema))
    (ps : List (Text × PathItem))
    → sw.definitions ≡ some defs
    → sw.paths ≡ some ps
    → remove_unused_definitions fuel order sw ≡ some out
    → (r : List Text) × (closure fuel defs order 0 (mark_all (root_names ps sw) []) ≡ some r)
      × (out ≡ record sw { definitions = some (delete_unused r defs) })
unfolding remove_unused_definitions
run_inverse fuel order sw out defs ps d p e =
    elim (Option-cases (closure fuel defs order 0 (mark_all (root_names ps sw) []))) [
      | inl stuck ↦ absurd (ground (arith, collect_swagger-names sw ps [] p))
      | inr (r, c) ↦ (r, c, ground (arith, collect_swagger-names sw ps [] p))
    ]
