-- ===== src/General/Security/Given.antt =====
-- Which attributes are given before the next security definition, and the counting of those that
-- a map has.
use core_swag.Base.{
  ℕ, suc, ◌+◌, ◌≤◌, ◌≡◌, refl, Bool, true, false, ◌&&◌, ◌||◌, List, [], ◌∷◌, Option, none, some,
  length, arith, inl, inr, Bool-cases, if◌then◌else◌, ◌==◌, not,
}
use core_swag.Base.Maps.{put_key}
use core_swag.Base.Text.{
  Text, codes, text_eq, text_eq_iff, text_eq_refl, mem, trim_space, to_lower, has_prefix, contains,
  fields,
}
use core_swag.General.{GeneralError}
use core_swag.General.Attributes.{split_line}
use core_swag.General.Security.{
  Gathered, comma_scope, is_exists_scope, scope_error, gather, definitions_prefix,
}

-- The attribute of a line, in small letters, and the lines from the next security definition on.
abbrev pub name_of : Text → Text
name_of line = to_lower (split_line (trim_space line)).0

abbrev pub starts : Text → Bool
starts line = has_prefix (name_of line) definitions_prefix

pub name_of-blank : (line : Text) → text_eq (trim_space line) [] ≡ true → name_of line ≡ []
unfolding split_line to_lower
name_of-blank line h = rw ((text_eq_iff (trim_space line) []).0 h)

unfoldable pub from_next : List Text → List Text
from_next [] = []
from_next (line ∷ lines) = if starts line then line ∷ lines else from_next lines

-- A line before the next security definition has the attribute.
unfoldable pub is_given : List Text → Text → Bool
is_given [] a = false
is_given (line ∷ lines) a =
    if starts line then false else text_eq (name_of line) a || is_given lines a

unfoldable pub all_given : List Text → List Text → Bool
unfolding is_given
all_given lines [] = true
all_given lines (a ∷ as_) = is_given lines a && all_given lines as_

abbrev pub is_none : Option GeneralError → Bool
is_none none = true
is_none (some e) = false

-- The loop meets no error up to the next security definition, whose line is the last it reads.
unfoldable pub has_no_error : List Text → List Text → Bool
has_no_error search [] = true
has_no_error search (line ∷ lines) =
    is_none (scope_error search (name_of line))
    && (if starts line then true else has_no_error search lines)

-- One of the words begins as a scope does, and has a comma.
unfoldable pub has_comma_scope : List Text → Bool
has_comma_scope [] = false
has_comma_scope (word ∷ words) =
    has_prefix word (codes "@scope.") && contains word (codes ",") || has_comma_scope words

-- No line up to the next security definition, this one included, names a scope with a comma, where it
-- names no attribute of the search.
unfoldable pub has_good_scopes : List Text → List Text → Bool
unfolding has_comma_scope
has_good_scopes search [] = true
has_good_scopes search (line ∷ lines) =
    (mem (name_of line) search || not (has_comma_scope (fields (name_of line))))
    && (if starts line then true else has_good_scopes search lines)

comma_scope-none : (words : List Text) → has_comma_scope words ≡ false → comma_scope words ≡ none
unfolding comma_scope has_comma_scope
comma_scope-none [] h = refl
comma_scope-none (word ∷ words) h =
    elim (Bool-cases (has_prefix word (codes "@scope.") && contains word (codes ","))) [
      | inl e ↦ absurd (ground (arith, e, h))
      | inr e ↦ rw e (comma_scope-none words (ground (arith, e, h)))
    ]

comma_scope-some :
    (words : List Text) → has_comma_scope words ≡ true → (v : Text) × (comma_scope words ≡ some v)
unfolding comma_scope has_comma_scope
comma_scope-some [] h = absurd (ground arith)
comma_scope-some (word ∷ words) h =
    elim (Bool-cases (has_prefix word (codes "@scope.") && contains word (codes ","))) [
      | inl e ↦ rw e (word, refl)
      | inr e ↦ rw e (comma_scope-some words (ground (arith, e, h)))
    ]

is_exists_scope-has_comma_scope :
    (name : Text) → is_none ((is_exists_scope name).1) ≡ not (has_comma_scope (fields name))
unfolding is_exists_scope
is_exists_scope-has_comma_scope name = elim (Bool-cases (has_comma_scope (fields name))) [
  | inl e ↦ let (v, found) = comma_scope-some (fields name) e in rw (e, found, is_exists_scope) refl
  | inr e ↦ rw (e, comma_scope-none (fields name) e, is_exists_scope) refl
]

scope_error-has_comma_scope :
    (search : List Text) (name : Text)
    → is_none (scope_error search name) ≡ (mem name search || not (has_comma_scope (fields name)))
unfolding scope_error
scope_error-has_comma_scope search name = elim (Bool-cases (mem name search)) [
  | inl e ↦ rw e refl
  | inr e ↦ rw e (is_exists_scope-has_comma_scope name)
]

pub has_no_error-has_good_scopes :
    (search lines : List Text) → has_no_error search lines ≡ has_good_scopes search lines
unfolding has_no_error has_good_scopes
has_no_error-has_good_scopes search [] = refl
has_no_error-has_good_scopes search (line ∷ lines) = ground (
  arith,
  scope_error-has_comma_scope search (name_of line),
  has_no_error-has_good_scopes search lines,
)

unfoldable pub has_key : Text → List (Text × Text) → Bool
has_key a [] = false
has_key a ((k, v) ∷ m) = text_eq k a || has_key a m

pub has_key-put_key :
    (a k v : Text) (m : List (Text × Text))
    → has_key a (put_key k v m) ≡ (text_eq k a || has_key a m)
unfolding has_key put_key
has_key-put_key a k v [] = refl
has_key-put_key a k v ((j, w) ∷ m) = ground (arith, text_eq_iff j k, has_key-put_key a k v m)

abbrev pub one : Bool → ℕ
one true = 1
one false = 0

pub length-put_key :
    (k v : Text) (m : List (Text × Text))
    → length (put_key k v m) + one (has_key k m) ≡ suc (length m)
unfolding has_key put_key
length-put_key k v [] = refl
length-put_key k v ((j, w) ∷ m) = ground (arith, length-put_key k v m)

-- How many of the attributes a map has.
pub tally : List Text → List (Text × Text) → ℕ
tally [] m = 0
tally (a ∷ as_) m = one (has_key a m) + tally as_ m

-- All of them different
abbrev pub Distinct : List Text → Type 0
Distinct [] = Unit {0}
Distinct (a ∷ as_) = (mem a as_ ≡ false) × Distinct as_

pub tally-nil : (search : List Text) → ◌≡◌ {A = ℕ} 0 (tally search [])
unfolding tally has_key
tally-nil [] = refl
tally-nil (a ∷ as_) = omega (arith, tally-nil as_)

tally-put_other :
    (search : List Text) (k v : Text) (m : List (Text × Text))
    → mem k search ≡ false
    → tally search (put_key k v m) ≡ tally search m
unfolding tally mem
tally-put_other [] k v m h = refl
tally-put_other (a ∷ as_) k v m h =
    ground
      (arith, has_key-put_key a k v m, tally-put_other as_ k v m, text_eq_iff a k, text_eq_iff k a)

pub tally-put_key :
    (search : List Text) (k v : Text) (m : List (Text × Text))
    → Distinct search
    → mem k search ≡ true
    → tally search (put_key k v m) + one (has_key k m) ≡ suc (tally search m)
unfolding tally mem
tally-put_key [] k v m d h = cc
tally-put_key (a ∷ as_) k v m d h = elim (Bool-cases (text_eq a k)) [
  | inl e ↦
      let same : a ≡ k = (text_eq_iff a k).0 e in
      let rest = tally-put_other as_ k v m (rw (← same) d.0) in
      ground (arith, has_key-put_key a k v m, text_eq_refl k)
  | inr e ↦ ground (
    arith,
    has_key-put_key a k v m,
    tally-put_key as_ k v m d.1,
    text_eq_iff k a,
    text_eq_iff a k,
  )
]

pub attrs-gather :
    (search : List Text) (k v : Text) (g : Gathered)
    → (gather search k v g).attrs ≡ (if mem k search then put_key k v g.attrs else g.attrs)
unfolding gather
attrs-gather search k v g = ground arith

tally-le : (search : List Text) (m : List (Text × Text)) → tally search m ≤ length search
unfolding tally
tally-le [] m = omega arith
tally-le (a ∷ as_) m = ground (arith, tally-le as_ m)

-- The count of what is found tells whether all is given.
pub tally-all_given :
    (search lines : List Text) (m : List (Text × Text))
    → ((a : Text) → mem a search ≡ true → has_key a m ≡ is_given lines a)
    → (tally search m == length search) ≡ all_given lines search
unfolding tally all_given mem
tally-all_given [] lines m h = refl
tally-all_given (a ∷ as_) lines m h = ground (
  arith,
  h a (ground (arith, text_eq_refl a)),
  tally-le as_ m,
  tally-all_given as_ lines m (λ b p. h b (ground arith)),
)
