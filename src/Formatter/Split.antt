-- ===== src/Formatter/Split.antt =====
-- splitComment2 of internal/format/formatter.go: the formatter changes gaps only, and a formatted
-- text is formatted already.
use core_swag.Base.{
  ℕ, ◌≡◌, refl, sym, ap, ◌∙◌, [], ◌∷◌, ◌++◌, inl, inr, ◌⊎◌, Bool-cases, if◌then◌else◌,
}
use core_swag.Base.Text.{Text, mem, to_lower}
use core_swag.Formatter.{
  special_tags, is_gap, Mode, between, skipping, gap, word_step, step, split, split_comment,
}

-- A text without its gaps
unfoldable pub words : Text → Text
unfolding is_gap
words [] = []
words (c ∷ body) = let rest = words body in if is_gap c then rest else c ∷ rest

words-append : (a b : Text) → words (a ++ b) ≡ words a ++ words b
unfolding words
words-append [] b = refl
words-append (c ∷ a) b = elim (Bool-cases (is_gap c)) [
  | inl e ↦ rw e (words-append a b)
  | inr e ↦ rw e (ap (λ t. c ∷ t) (words-append a b))
]

step-words : (mode : Mode) (c : ℕ) → words ((step mode c).1) ≡ words (c ∷ [])
unfolding step word_step words
step-words between c = elim (Bool-cases (is_gap c)) [ inl e ↦ rw e refl | inr e ↦ rw e (rw e refl) ]
step-words (skipping start end n) c = refl
step-words gap c = elim (Bool-cases (is_gap c)) [ inl e ↦ rw e refl | inr e ↦ rw e (rw e refl) ]

split-words : (mode : Mode) (body : Text) → words (split mode body) ≡ words body
unfolding split
split-words mode [] = refl
split-words mode (c ∷ body) =
    words-append ((step mode c).1) (split ((step mode c).0) body)
    ∙ ap (λ t. words ((step mode c).1) ++ t) (split-words ((step mode c).0) body)
    ∙ ap (λ t. t ++ words body) (step-words mode c)
    ∙ sym (words-append (c ∷ []) body)

-- A step leaves nothing out and stays, or leaves a byte that gives the same step again.
abbrev Stable : Mode → Mode × Text → Type 0
Stable mode (next, out) =
    ((out ≡ []) × (next ≡ mode)) ⊎ ((d : ℕ) × (out ≡ d ∷ []) × (step mode d ≡ (next, d ∷ [])))

word_step-Stable : (c : ℕ) → Stable between (word_step c)
unfolding word_step step
word_step-Stable c = elim (Bool-cases (is_gap c)) [
  | inl e ↦ rw e (inr (9, refl, refl))
  | inr e ↦ rw e (inr (c, refl, rw e refl))
]

step-Stable : (mode : Mode) (c : ℕ) → Stable mode (step mode c)
unfolding step word_step
step-Stable between c = word_step-Stable c
step-Stable (skipping start end n) c = inr (c, refl, refl)
step-Stable gap c = elim (Bool-cases (is_gap c)) [
  | inl e ↦ rw e (inl (refl, refl))
  | inr e ↦ rw e (inr (c, refl, rw e refl))
]

split-next :
    (mode : Mode) (r : Mode × Text) (body : Text)
    → split (r.0) (split (r.0) body) ≡ split (r.0) body
    → Stable mode r
    → split mode (r.1 ++ split (r.0) body) ≡ r.1 ++ split (r.0) body
unfolding split
split-next mode (next, out) body ih (inl (e, same)) =
    rw e (ap (λ m. split m (split next body)) (sym same) ∙ ih)
split-next mode (next, out) body ih (inr (d, e, again)) = rw e (rw again (ap (λ t. d ∷ t) ih))

split-split : (mode : Mode) (body : Text) → split mode (split mode body) ≡ split mode body
unfolding split
split-split mode [] = refl
split-split mode (c ∷ body) =
    split-next mode (step mode c) body (split-split ((step mode c).0) body) (step-Stable mode c)

-- For every attribute and body, splitComment2 keeps all bytes but spaces and tabs, in their order;
-- and to split its result again gives the result.
pub split_comment-words :
    (attr body : Text)
    → (words (split_comment attr body) ≡ words body)
      × (split_comment attr (split_comment attr body) ≡ split_comment attr body)
unfolding split_comment
split_comment-words attr body = elim (Bool-cases (mem (to_lower attr) special_tags)) [
  | inl e ↦ rw e (split-words between body, split-split between body)
  | inr e ↦ rw e (refl, refl)
]
