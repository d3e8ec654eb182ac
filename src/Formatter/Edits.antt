-- ===== src/Formatter/Edits.antt =====
-- The edits of internal/format/formatter.go: to apply them from the last to the first is to go
-- through the contents once.
pub mod Sorted
use core_swag.Base.{
  ℕ, zero, suc, ◌+◌, ◌-◌, ◌<◌, ◌≤◌, ◌≡◌, refl, sym, ap, ◌∙◌, List, [], ◌∷◌, ◌++◌, append_assoc,
  arith, take, drop, length, All,
}
use core_swag.Base.Text.{Text}
use core_swag.Formatter.{Edit, sort_edits, insert_edit, replace, apply_each, apply_edits}
use core_swag.Formatter.Edits.Sorted.{
  Before, EachBefore, Shuffled, sort-Shuffled, apply_edits-first,
}

-- From an offset on: the contents up to each edit, its replacement, and what follows it
unfoldable pub pieces : ℕ → List Edit → Text → Text
pieces offset [] rest = rest
pieces offset (e ∷ es) rest =
    take (e.begin - offset) rest ++ (e.replacement ++ pieces e.end es (drop (e.end - offset) rest))

-- The edits follow each other, from an offset on, within the contents.
abbrev pub InOrder : ℕ → List Edit → Text → Type 0
InOrder offset [] contents = offset ≤ length contents
InOrder offset (e ∷ es) contents =
    (offset ≤ e.begin) × (e.begin < e.end) × InOrder e.end es contents

order-le :
    (offset : ℕ) (es : List Edit) (contents : Text)
    → InOrder offset es contents
    → offset ≤ length contents
order-le offset [] contents h = h
order-le offset (e ∷ es) contents (h, less, rest) =
    let end = order-le e.end es contents rest in omega arith

later-All :
    (e : Edit) (offset : ℕ) (es : List Edit) (contents : Text)
    → e.begin < offset
    → InOrder offset es contents
    → All (Before e) es
later-All e offset [] contents h o = tt
later-All e offset (d ∷ es) contents h (le, less, rest) =
    (omega arith, later-All e d.end es contents (omega arith) rest)

take-take : (m n : ℕ) (xs : Text) → m ≤ n → take m (take n xs) ≡ take m xs
take-take zero n xs h = refl
take-take (suc m) zero xs h = absurd (omega arith)
take-take (suc m) (suc n) [] h = refl
take-take (suc m) (suc n) (x ∷ xs) h = ap (λ t. x ∷ t) (take-take m n xs (omega arith))

drop-nothing : (n : ℕ) → drop {A = ℕ} n [] ≡ []
drop-nothing zero = refl
drop-nothing (suc n) = refl

drop-drop : (m n : ℕ) (xs : Text) → m ≤ n → drop (n - m) (drop m xs) ≡ drop n xs
drop-drop zero n xs h = ap (λ k. drop k xs) (omega arith)
drop-drop (suc m) zero xs h = absurd (omega arith)
drop-drop (suc m) (suc n) [] h = drop-nothing (suc n - suc m)
drop-drop (suc m) (suc n) (x ∷ xs) h =
    ap (λ k. drop k (drop m xs)) (omega arith) ∙ drop-drop m n xs (omega arith)

take-front : (m n : ℕ) (xs ys : Text) → m ≤ n → n ≤ length xs → take m (take n xs ++ ys) ≡ take m xs
take-front zero n xs ys h k = refl
take-front (suc m) zero xs ys h k = absurd (omega arith)
take-front (suc m) (suc n) [] ys h k = absurd (omega arith)
take-front (suc m) (suc n) (x ∷ xs) ys h k =
    ap (λ t. x ∷ t) (take-front m n xs ys (omega arith) (omega arith))

drop-front :
    (m n : ℕ) (xs ys : Text)
    → m ≤ n
    → n ≤ length xs
    → drop m (take n xs ++ ys) ≡ take (n - m) (drop m xs) ++ ys
drop-front zero n xs ys h k = ap (λ i. take i xs ++ ys) (omega arith)
drop-front (suc m) zero xs ys h k = absurd (omega arith)
drop-front (suc m) (suc n) [] ys h k = absurd (omega arith)
drop-front (suc m) (suc n) (x ∷ xs) ys h k =
    drop-front m n xs ys (omega arith) (omega arith)
    ∙ ap (λ i. take i (drop m xs) ++ ys) (omega arith)

order-Before :
    (offset : ℕ) (es : List Edit) (contents : Text) → InOrder offset es contents → EachBefore es
order-Before offset [] contents h = tt
order-Before offset (e ∷ es) contents (le, less, rest) =
    (later-All e e.end es contents less rest, order-Before e.end es contents rest)

-- The contents with the first edit, where the others are applied as pieces
apply_edits-front :
    (e : Edit) (es : List Edit) (contents : Text)
    → e.begin < e.end
    → InOrder e.end es contents
    → take e.end (apply_edits es contents) ≡ take e.end contents
    → drop e.end (apply_edits es contents) ≡ pieces e.end es (drop e.end contents)
    → apply_edits (e ∷ es) contents
      ≡ take e.begin contents ++ (e.replacement ++ pieces e.end es (drop e.end contents))
unfolding replace
apply_edits-front e es contents less rest kept moved =
    let edited = apply_edits es contents in
    let front : take e.begin edited ≡ take e.begin contents =
      sym (take-take e.begin e.end edited (omega arith))
      ∙ ap (take e.begin) kept
      ∙ take-take e.begin e.end contents (omega arith) in
    apply_edits-first e es contents (later-All e e.end es contents less rest)
    ∙ ap (λ t. t ++ (e.replacement ++ drop e.end edited)) front
    ∙ ap (λ t. take e.begin contents ++ (e.replacement ++ t)) moved

-- Before the first edit nothing changes, and from there on there are the pieces.
apply_edits-at :
    (offset : ℕ) (es : List Edit) (contents : Text)
    → InOrder offset es contents
    → (take offset (apply_edits es contents) ≡ take offset contents)
      × (drop offset (apply_edits es contents) ≡ pieces offset es (drop offset contents))
unfolding pieces apply_edits sort_edits apply_each
apply_edits-at offset [] contents h = (refl, refl)
apply_edits-at offset (e ∷ es) contents (le, less, rest) =
    let (kept, moved) = apply_edits-at e.end es contents rest in
    let whole = apply_edits-front e es contents less rest kept moved in
    let end = order-le e.end es contents rest in
    let tail = e.replacement ++ pieces e.end es (drop e.end contents) in
    (
      ap (take offset) whole ∙ take-front offset e.begin contents tail le (omega arith),
      ap (drop offset) whole
          ∙ drop-front offset e.begin contents tail le (omega arith)
          ∙ ap
              (λ t.
                take (e.begin - offset) (drop offset contents)
                ++ (e.replacement ++ pieces e.end es t))
              (sym (drop-drop offset e.end contents (omega arith))),
    )

-- For edits that follow each other within the contents, none of them empty, and made in whatever
-- order: apply gives the contents with each edit's range replaced, and all else as it was.
pub apply_edits-pieces :
    (es ds : List Edit) (contents : Text)
    → InOrder 0 es contents
    → Shuffled es ds
    → apply_edits ds contents ≡ pieces 0 es contents
unfolding apply_edits
apply_edits-pieces es ds contents h s =
    ap (λ sorted. apply_each sorted contents) (sort-Shuffled es ds s (order-Before 0 es contents h))
    ∙ (apply_edits-at 0 es contents h).1
