-- ===== src/Formatter/Tests.antt =====
-- The formatter of annotations of internal/format/formatter.go, on small inputs
use core_swag.Base.{◌≡◌, refl, [], ◌∷◌, arith}
use core_swag.Base.Text.{Text, codes, mem, to_lower, text_eq}
use core_swag.Formatter.{
  skip_char, is_gap, word_step, depth, step, split, split_comment, Edit, insert_edit, sort_edits,
  replace, apply_each, apply_edits,
}
use core_swag.Formatter.Split.{words, split_comment-words}
use core_swag.Formatter.Edits.{pieces, InOrder, apply_edits-pieces}
use core_swag.Formatter.Edits.Sorted.{Shuffled, none_left, place}

-- The gap in the quotation stays.
aligned :
    split_comment (codes "@Param") (codes "id  path int \"a  b\"") ≡ codes "id\tpath\tint\t\"a  b\""
unfolding split_comment split step word_step depth is_gap skip_char mem text_eq to_lower
aligned = refl

first : Edit
first = record { begin = 1; end = 3; replacement = codes "xyz" }

second : Edit
second = record { begin = 4; end = 5; replacement = [] }

abbrev letters : Text
letters = codes "abcdef"

edited : apply_edits (first ∷ second ∷ []) letters ≡ codes "axyzdf"
unfolding apply_edits sort_edits insert_edit apply_each replace first second
edited = refl

edits-InOrder : InOrder 0 (first ∷ second ∷ []) letters
unfolding first second
edits-InOrder = (omega arith, omega arith, (omega arith, omega arith, omega arith))

edits-Shuffled : Shuffled (first ∷ second ∷ []) (second ∷ first ∷ [])
edits-Shuffled = place first (second ∷ []) (second ∷ []) [] (place second [] [] [] none_left)

apply_edits-pieces_example :
    apply_edits (second ∷ first ∷ []) letters ≡ pieces 0 (first ∷ second ∷ []) letters
apply_edits-pieces_example =
    apply_edits-pieces (first ∷ second ∷ []) (second ∷ first ∷ []) letters edits-InOrder
      edits-Shuffled

split_comment-words_example :
    (words (split_comment (codes "@header") (codes "200 {string}  Token"))
      ≡ words (codes "200 {string}  Token"))
    × (split_comment
          (codes "@header")
          (split_comment (codes "@header") (codes "200 {string}  Token"))
        ≡ split_comment (codes "@header") (codes "200 {string}  Token"))
split_comment-words_example = split_comment-words (codes "@header") (codes "200 {string}  Token")
