-- ===== src/Schema/Cleanup/Pruned.antt =====
-- `RemoveUnusedDefinitions` as a whole: which definitions stay, whatever the orders of the walks.
use core_swag.Base.{
  ℕ, ◌≡◌, ◌↔◌, inl, inr, refl, sym, ap, ◌∙◌, true, List, [], ◌∷◌, arith, Bool-cases, Bool-ext, none,
  some,
}
use core_swag.Base.Text.{Text, mem}
use core_swag.Spec.{Schema, Swagger, PathItem}
use core_swag.Schema.Cleanup.{lookup_definition, delete_unused, remove_unused_definitions}
use core_swag.Schema.Cleanup.Names.{mark_all, schema_names, root_names}
use core_swag.Schema.Cleanup.Closure.{mem-mark_all, Reach, root, step}
use core_swag.Schema.Cleanup.Kept.{
  Covers, closure_iff, run_inverse, lookup_definition-delete_unused,
}

-- `kept` holds the needed definitions of `defs`, unchanged, and no other.
pub record IsPruned (defs : List (Text × Schema)) (roots : List Text) (kept : List (Text × Schema))
    : Type 0 where
  pub needed : (n : Text) → Reach defs roots n → lookup_definition n kept ≡ lookup_definition n defs
  pub others : (n : Text) → ¬ Reach defs roots n → lookup_definition n kept ≡ none

mem-roots : (n : Text) (ns : List Text) → mem n (mark_all ns []) ≡ mem n ns
unfolding mem
mem-roots n ns = ground (arith, mem-mark_all n ns [])

Reach-roots :
    {defs : List (Text × Schema)} {roots roots' : List Text} {n : Text}
    → ((m : Text) → mem m roots ≡ true → mem m roots' ≡ true)
    → Reach defs roots n
    → Reach defs roots' n
Reach-roots h (root k) = root (h _ k)
Reach-roots h (step s r found named) = step s (Reach-roots h r) found named

-- The set at which a run stops, and what it tells of each name.
run_iff :
    (fuel : ℕ) (order : ℕ → List Text) (sw out : Swagger) (defs : List (Text × Schema))
    (ps : List (Text × PathItem))
    → sw.definitions ≡ some defs
    → sw.paths ≡ some ps
    → Covers defs order
    → remove_unused_definitions fuel order sw ≡ some out
    → (r : List Text) × (out ≡ record sw { definitions = some (delete_unused r defs) })
      × ((n : Text) → (mem n r ≡ true) ↔ Reach defs (root_names ps sw) n)
run_iff fuel order sw out defs ps d p c e =
    let (r, stops, same) = run_inverse fuel order sw out defs ps d p e in
    let roots = root_names ps sw in
    (
      r,
      same,
      λ n.
          let (to, from) = closure_iff defs order fuel (mark_all roots []) r c stops n in
          (
            λ h. Reach-roots (λ m k. sym (mem-roots m roots) ∙ k) (to h),
            λ h. from (Reach-roots (λ m k. mem-roots m roots ∙ k) h),
          ),
    )

-- A run that returns, on a specification with paths and definitions, keeps exactly the definitions
-- that the rest of the specification refers to, directly or through other definitions, and changes
-- nothing else, whatever the orders in which the definitions are walked, if each walk meets every
-- definition.
pub remove_unused_definitions-IsPruned :
    (fuel : ℕ) (order : ℕ → List Text) (sw out : Swagger) (defs : List (Text × Schema))
    (ps : List (Text × PathItem))
    → sw.definitions ≡ some defs
    → sw.paths ≡ some ps
    → Covers defs order
    → remove_unused_definitions fuel order sw ≡ some out
    → (kept : List (Text × Schema)) × (out ≡ record sw { definitions = some kept })
      × IsPruned defs (root_names ps sw) kept
remove_unused_definitions-IsPruned fuel order sw out defs ps d p c e =
    let (r, same, iff) = run_iff fuel order sw out defs ps d p c e in
    (
      delete_unused r defs,
      same,
      record {
        needed = λ n h. lookup_definition-delete_unused n r defs ∙ rw ((iff n).1 h);
        others = λ n h.
            lookup_definition-delete_unused n r defs
            ∙ elim (Bool-cases (mem n r)) [ inl k ↦ absurd (h ((iff n).0 k)) | inr k ↦ rw k ];
      },
    )

delete_unused-ext :
    (used used' : List Text) (defs : List (Text × Schema))
    → ((n : Text) → mem n used ≡ mem n used')
    → delete_unused used defs ≡ delete_unused used' defs
unfolding delete_unused
delete_unused-ext used used' [] h = refl
delete_unused-ext used used' ((k, s) ∷ ds) h = cc (h k, delete_unused-ext used used' ds h)

-- Two runs that return, over the same specification with paths and definitions, agree, whatever
-- their fuel and their orders, if each walk meets every definition.
pub remove_unused_definitions-deterministic :
    (fuel fuel' : ℕ) (order order' : ℕ → List Text) (sw out out' : Swagger)
    (defs : List (Text × Schema)) (ps : List (Text × PathItem))
    → sw.definitions ≡ some defs
    → sw.paths ≡ some ps
    → Covers defs order
    → Covers defs order'
    → remove_unused_definitions fuel order sw ≡ some out
    → remove_unused_definitions fuel' order' sw ≡ some out'
    → out ≡ out'
remove_unused_definitions-deterministic fuel fuel' order order' sw out out' defs ps d p c c' e e' =
    let (r, same, iff) = run_iff fuel order sw out defs ps d p c e in
    let (r', same', iff') = run_iff fuel' order' sw out' defs ps d p c' e' in
    let agree = delete_unused-ext r r' defs (λ n.
      Bool-ext (mem n r) (mem n r') (λ h. (iff' n).1 ((iff n).0 h))
        (λ h. (iff n).1 ((iff' n).0 h))) in
    same ∙ ap (λ ds. record sw { definitions = some ds }) agree ∙ sym same'

-- Removal from a specification with paths and definitions leaves no reference dangling that had a
-- target, if each walk meets every definition: what a kept definition refers to is looked up as
-- before.
pub remove_unused_definitions-no_dangling :
    (fuel : ℕ) (order : ℕ → List Text) (sw : Swagger) (defs kept : List (Text × Schema))
    (ps : List (Text × PathItem)) (m n : Text) (s : Schema)
    → sw.definitions ≡ some defs
    → sw.paths ≡ some ps
    → Covers defs order
    → remove_unused_definitions fuel order sw ≡ some (record sw { definitions = some kept })
    → lookup_definition m kept ≡ some s
    → mem n (schema_names s) ≡ true
    → lookup_definition n kept ≡ lookup_definition n defs
remove_unused_definitions-no_dangling fuel order sw defs kept ps m n s d p c e found named =
    let (r, same, iff) = run_iff fuel order sw _ defs ps d p c e in
    let k : kept ≡ delete_unused r defs = cc (ap (λ (o : Swagger). o.definitions) same) in
    let there : lookup_definition m (delete_unused r defs) ≡ some s = rw k at found in
    let here = lookup_definition-delete_unused m r defs in
    let marked : mem m r ≡ true = ground arith in
    let old : lookup_definition m defs ≡ some s = ground arith in
    rw k (
      lookup_definition-delete_unused n r defs
      ∙ rw ((iff n).1 (step s ((iff m).0 marked) old named)))
