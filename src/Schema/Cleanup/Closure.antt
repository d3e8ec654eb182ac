-- ===== src/Schema/Cleanup/Closure.antt =====
-- Marking names in the set `used`: what it adds, when it adds nothing, and how much of a
-- universe of names is still to be added.
use core_swag.Base.{
  ℕ, suc, ◌+◌, ◌≤◌, ◌<◌, ◌≡◌, inl, inr, refl, true, false, ◌||◌, List, [], ◌∷◌, ◌++◌, length, ltb,
  if◌then◌else◌, arith, Bool-cases, some,
}
use core_swag.Base.Text.{Text, text_eq, text_eq_iff, text_eq_refl, mem, mem-append}
use core_swag.Spec.{Schema}
use core_swag.Schema.Cleanup.{set_used, lookup_definition}
use core_swag.Schema.Cleanup.Names.{mark_all, schema_names}

pub mem-set_used :
    (n m : Text) (used : List Text) → mem n (set_used m used) ≡ (text_eq m n || mem n used)
unfolding set_used mem
mem-set_used n m used = ground (arith, text_eq_iff m n)

pub mem-mark_all :
    (n : Text) (ns used : List Text) → mem n (mark_all ns used) ≡ (mem n ns || mem n used)
unfolding mark_all mem
mem-mark_all n [] used = refl
mem-mark_all n (m ∷ ns) used =
    ground (arith, mem-mark_all n ns (set_used m used), mem-set_used n m used)

pub length-set_used :
    (n : Text) (used : List Text)
    → length (set_used n used) ≡ (if mem n used then length used else suc (length used))
unfolding set_used
length-set_used n used = ground arith

pub length-mark_all : (ns used : List Text) → length used ≤ length (mark_all ns used)
unfolding mark_all
length-mark_all [] used = omega arith
length-mark_all (n ∷ ns) used =
    ground (arith, length-mark_all ns (set_used n used), length-set_used n used)

-- A set that has not grown has not changed.
pub mark_all-same :
    (ns used : List Text)
    → ltb (length used) (length (mark_all ns used)) ≡ false
    → mark_all ns used ≡ used
unfolding mark_all
mark_all-same [] used h = refl
mark_all-same (n ∷ ns) used h = elim (Bool-cases (mem n used)) [
  | inl old ↦
      let e : set_used n used ≡ used = unfold set_used in rw old in
      rw e (mark_all-same ns used (rw e at h))
  | inr new ↦ absurd (ground (arith, length-mark_all ns (set_used n used), length-set_used n used))
]

-- How many entries of `us` are not yet marked.
unfoldable pub missing : List Text → List Text → ℕ
missing [] used = 0
missing (u ∷ us) used = (if mem u used then 0 else 1) + missing us used

missing-set_used_le :
    (n : Text) (us used : List Text) → missing us (set_used n used) ≤ missing us used
unfolding missing
missing-set_used_le n [] used = omega arith
missing-set_used_le n (u ∷ us) used =
    ground (arith, missing-set_used_le n us used, mem-set_used u n used)

missing-set_used_lt :
    (n : Text) (us used : List Text)
    → mem n us ≡ true
    → mem n used ≡ false
    → missing us (set_used n used) < missing us used
unfolding missing mem
missing-set_used_lt n [] used h k = cc
missing-set_used_lt n (u ∷ us) used h k = ground (
  arith,
  missing-set_used_le n us used,
  missing-set_used_lt n us used,
  mem-set_used u n used,
  text_eq_iff u n,
  text_eq_iff n u,
)

pub missing-mark_all_le : (ns us used : List Text) → missing us (mark_all ns used) ≤ missing us used
unfolding mark_all
missing-mark_all_le [] us used = omega arith
missing-mark_all_le (n ∷ ns) us used =
    omega (arith, missing-mark_all_le ns us (set_used n used), missing-set_used_le n us used)

abbrev pub Within : List Text → List Text → Type 0
Within ns us = (n : Text) → mem n ns ≡ true → mem n us ≡ true

-- A set that has grown has fewer names to come.
pub missing-mark_all_lt :
    (ns us used : List Text)
    → Within ns us
    → ltb (length used) (length (mark_all ns used)) ≡ true
    → missing us (mark_all ns used) < missing us used
unfolding mark_all mem
missing-mark_all_lt [] us used w h = absurd (ground arith)
missing-mark_all_lt (n ∷ ns) us used w h = elim (Bool-cases (mem n used)) [
  | inl old ↦
      let e : set_used n used ≡ used = unfold set_used in rw old in
      rw e (missing-mark_all_lt ns us used (λ m k. w m (ground (arith, k))) (rw e at h))
  | inr new ↦
      let here : mem n us ≡ true = w n (ground (arith, text_eq_refl n)) in
      omega
        (arith, missing-mark_all_le ns us (set_used n used), missing-set_used_lt n us used here new)
]

pub missing-le-length : (us used : List Text) → missing us used ≤ length us
unfolding missing
missing-le-length [] used = omega arith
missing-le-length (u ∷ us) used = ground (arith, missing-le-length us used)

-- Every name that the definitions refer to.
unfoldable pub all_names : List (Text × Schema) → List Text
all_names [] = []
all_names ((k, s) ∷ ds) = schema_names s ++ all_names ds

pub Within-all_names :
    (m : Text) (s : Schema) (defs : List (Text × Schema))
    → lookup_definition m defs ≡ some s
    → Within (schema_names s) (all_names defs)
unfolding lookup_definition all_names
Within-all_names m s [] h n k = cc
Within-all_names m s ((j, t) ∷ ds) h n k = elim (Bool-cases (text_eq j m)) [
  | inl e ↦ ground (arith, mem-append n (schema_names t) (all_names ds))
  | inr e ↦
      ground (
        arith,
        mem-append n (schema_names t) (all_names ds),
        Within-all_names m s ds (rw e at h) n k,
      )
]

-- A name is needed: by the specification outside its definitions, or by a needed definition.
pub data Reach (defs : List (Text × Schema)) (roots : List Text) : Text → Type 0 where
  root : {n : Text} → mem n roots ≡ true → Reach defs roots n
  step :
      {m n : Text} (s : Schema)
      → Reach defs roots m
      → lookup_definition m defs ≡ some s
      → mem n (schema_names s) ≡ true
      → Reach defs roots n
