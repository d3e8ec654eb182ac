-- ===== src/Base/Text/Slices.antt =====
-- Searching, cutting and trimming a text that is put together from known parts.
use core_swag.Base.{
  ℕ, suc, ◌+◌, ◌≡◌, ◌≢◌, refl, ap, Bool, true, false, not, [], ◌∷◌, ◌++◌, none, some, length, take,
  drop, arith, Option-cases, inl, inr,
}
use mathlib.Core.List.{reverse, reverse-append, reverse-reverse}
use core_swag.Base.Text.{
  Text, text_eq, index, last_index, count, has_prefix, has_suffix, is_space, trim_left, trim_space,
}

pub take-append : (s t : Text) → take (length s) (s ++ t) ≡ s
take-append [] t = refl
take-append (c ∷ s) t = ap (◌∷◌ c) (take-append s t)

pub drop-suc-append : (s : Text) (c : ℕ) (t : Text) → drop (suc (length s)) (s ++ c ∷ t) ≡ t
drop-suc-append [] c t = refl
drop-suc-append (b ∷ s) c t = drop-suc-append s c t

-- The first occurrence stands behind what has none.
pub index-append :
    (s : Text) (b : ℕ) (t : Text) → index s b ≡ none → index (s ++ b ∷ t) b ≡ some (length s)
unfolding index
index-append [] b t h = ground arith
index-append (c ∷ s) b t h = elim (Option-cases (index s b)) [
  | inl e ↦ ground (arith, index-append s b t)
  | inr (i, e) ↦ absurd (ground arith)
]

pub last_index-append : (s : Text) (b : ℕ) → last_index (s ++ b ∷ []) b ≡ some (length s)
unfolding last_index
last_index-append [] b = ground arith
last_index-append (c ∷ s) b = rw (last_index-append s b)

pub count-append : (s t : Text) (b : ℕ) → count (s ++ t) b ≡ count s b + count t b
unfolding count
count-append [] t b = omega arith
count-append (c ∷ s) t b = omega (arith, count-append s t b)

pub has_suffix-append : (s : Text) (b : ℕ) → has_suffix (s ++ b ∷ []) (b ∷ []) ≡ true
unfolding has_suffix has_prefix
has_suffix-append s b = rw (reverse-append s (b ∷ [])) (ground arith)

-- A text that begins with no space.
unfoldable pub solid : Text → Bool
solid [] = false
solid (c ∷ s) = not (is_space c)

pub solid-append : (s t : Text) → solid s ≡ true → solid (s ++ t) ≡ true
unfolding solid
solid-append [] t h = cc
solid-append (c ∷ s) t h = h

pub solid-ne : (s : Text) → solid s ≡ true → s ≢ []
unfolding solid
solid-ne s h e = ground arith

trim_left-solid : (s : Text) → solid s ≡ true → trim_left s ≡ s
unfolding solid trim_left
trim_left-solid [] h = cc
trim_left-solid (c ∷ s) h = ground arith

pub trim_space-solid : (s : Text) → solid s ≡ true → solid (reverse s) ≡ true → trim_space s ≡ s
unfolding trim_space
trim_space-solid s h k =
    rw (trim_left-solid s h) (rw (trim_left-solid (reverse s) k) (reverse-reverse s))

pub text_eq-solid : (s : Text) → solid s ≡ true → text_eq s [] ≡ false
unfolding solid text_eq
text_eq-solid [] h = cc
text_eq-solid (c ∷ s) h = refl
