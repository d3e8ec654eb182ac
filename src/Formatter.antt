-- ===== src/Formatter.antt =====
-- The formatting of annotations: splitComment2 and the edits of internal/format/formatter.go. A text
-- is the list of its bytes.
pub mod Split
pub mod Edits
pub mod Tests
use core_swag.Base.{
  ℕ, zero, suc, ◌+◌, ◌-◌, ◌<◌, ◌≡◌, refl, Bool, true, false, ◌&&◌, ◌||◌, not, List, [], ◌∷◌, ◌++◌,
  Option, none, some, take, drop, ltb, ◌==◌, if◌then◌else◌,
}
use core_swag.Base.Text.{Text, codes, mem, to_lower}

-- `specialTagForSplit`
abbrev pub special_tags : List Text
special_tags =
    codes "@param" ∷ codes "@success" ∷ codes "@failure" ∷ codes "@response" ∷ codes "@header" ∷ []

-- `skipChar`: what closes a quotation or a bracket
unfoldable pub skip_char : ℕ → Option ℕ
skip_char c =
    if c == b'"'
    then some b'"'
    else if c == b'('
    then some b')'
    else if c == b'{'
    then some b'}'
    else if c == b'['
    then some b']'
    else none

unfoldable pub is_gap : ℕ → Bool
is_gap c = c == 32 || c == 9

-- Where the loop is: between words, in brackets with what opens and closes them and their depth, or
-- behind a gap that is a tab already
pub data Mode : Type 0 where
  between : Mode
  skipping : ℕ → ℕ → ℕ → Mode
  gap : Mode

abbrev pub skip_or : Option ℕ → ℕ → Mode
skip_or (some end) c = skipping c end 1
skip_or none c = between

-- What the loop goes on with after a byte between words, and what the byte becomes
unfoldable pub word_step : ℕ → Mode × Text
unfolding skip_char is_gap
word_step c = if is_gap c then (gap, 9 ∷ []) else (skip_or (skip_char c) c, c ∷ [])

abbrev pub skip_to : ℕ → ℕ → ℕ → Mode
skip_to start end zero = between
skip_to start end (suc n) = skipping start end (suc n)

unfoldable pub depth : ℕ → ℕ → ℕ → ℕ → ℕ
depth start end n c =
    if not (start == end) && c == start then suc n else if c == end then n - 1 else n

unfoldable pub step : Mode → ℕ → Mode × Text
unfolding word_step depth
step between c = word_step c
step (skipping start end n) c = (skip_to start end (depth start end n c), c ∷ [])
step gap c = if is_gap c then (gap, []) else word_step c

-- The loop of `splitComment2` over the bytes
unfoldable pub split : Mode → Text → Text
unfolding step
split mode [] = []
split mode (c ∷ body) = let next = step mode c in next.1 ++ split next.0 body

-- `splitComment2`
unfoldable pub split_comment : Text → Text → Text
unfolding split
split_comment attr body = if mem (to_lower attr) special_tags then split between body else body

-- `edit`
pub record Edit : Type 0 where
  pub begin : ℕ
  pub end : ℕ
  pub replacement : Text

-- `sort.Slice` with the highest offset first
unfoldable pub insert_edit : Edit → List Edit → List Edit
insert_edit e [] = e ∷ []
insert_edit e (d ∷ ds) =
    let rest = insert_edit e ds in if ltb d.begin e.begin then e ∷ d ∷ ds else d ∷ rest

unfoldable pub sort_edits : List Edit → List Edit
unfolding insert_edit
sort_edits [] = []
sort_edits (e ∷ es) = insert_edit e (sort_edits es)

unfoldable pub replace : Edit → Text → Text
replace e contents = take e.begin contents ++ (e.replacement ++ drop e.end contents)

unfoldable pub apply_each : List Edit → Text → Text
unfolding replace
apply_each [] contents = contents
apply_each (e ∷ es) contents = apply_each es (replace e contents)

-- `apply`, for edits within the contents
unfoldable pub apply_edits : List Edit → Text → Text
unfolding sort_edits apply_each
apply_edits es contents = apply_each (sort_edits es) contents
