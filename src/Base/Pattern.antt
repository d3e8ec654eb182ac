-- ===== src/Base/Pattern.antt =====
-- Package `regexp` on the patterns that the program compiles: sequences of repeated character
-- classes and single characters, with an optional end. A match is the leftmost one and, as in Go,
-- the first that a search with greedy repetitions finds.
use core_swag.Base.{
  ℕ, zero, suc, ◌-◌, Bool, true, false, not, ◌&&◌, ◌||◌, List, [], ◌∷◌, Option, none, some, length,
  take, drop, leb, ◌==◌, if◌then◌else◌, ◌≡◌, refl,
}
use core_swag.Base.Text.{Text, codes}

-- `\w`, `\s` and `\S`
unfoldable pub is_word : ℕ → Bool
is_word c =
    (leb b'0' c && leb c b'9')
    || (leb b'A' c && leb c b'Z')
    || (leb b'a' c && leb c b'z')
    || c == b'_'

unfoldable pub is_blank : ℕ → Bool
is_blank c = c == 32 || c == 9 || c == 10 || c == 12 || c == 13

unfoldable pub not_blank : ℕ → Bool
unfolding is_blank
not_blank c = not (is_blank c)

-- `plus` and `star` repeat a class, and their first argument says whether they are in a group of
-- their own. `maybe n p` is `p` or nothing, at the end of a pattern, and `n` is its number of
-- groups.
pub data Pattern : Type 0 where
  done : Pattern
  plus : Bool → (ℕ → Bool) → Pattern → Pattern
  lit : ℕ → Pattern → Pattern
  maybe : ℕ → Pattern → Pattern

-- The groups, and what follows the match.
abbrev pub Match : Type 0
Match = List Text × Text

unfoldable pub span : (ℕ → Bool) → Text → ℕ
span class [] = 0
span class (c ∷ s) = let rest = suc (span class s) in if class c then rest else 0

-- The longest repetition first, down to one character.
unfoldable pub tries : (Text → Option Match) → Bool → ℕ → Text → Option Match
tries next group zero s = none
tries next group (suc n) s = elim (next (drop (suc n) s)) [
  | some m ↦ some (if group then (take (suc n) s ∷ m.0, m.1) else m)
  | none ↦ tries next group n s
]

unfoldable pub no_groups : ℕ → List Text
no_groups zero = []
no_groups (suc n) = [] ∷ no_groups n

-- The match that begins where the text does.
unfoldable pub match_at : Pattern → Text → Option Match
unfolding span tries no_groups
match_at done s = some ([], s)
match_at (plus group class p) s = tries (match_at p) group (span class s) s
match_at (lit b p) [] = none
match_at (lit b p) (c ∷ s) = let rest = match_at p s in if c == b then rest else none
match_at (maybe n p) s = elim (match_at p s) [ some m ↦ some m | none ↦ some (no_groups n, s) ]

-- `FindStringSubmatch`: the match, its groups, and the text behind it
unfoldable pub find : Pattern → Text → Option (Text × Match)
find p [] = elim (match_at p []) [ none ↦ none | some m ↦ some ([], m) ]
find p (c ∷ s) = elim (match_at p (c ∷ s)) [
  | some m ↦ some (take (length (c ∷ s) - length m.1) (c ∷ s), m)
  | none ↦ find p s
]

-- `FindAllStringSubmatch(s, -1)` of a pattern that matches no empty text: the groups of each match;
-- each match shortens the text, so its length bounds their number.
unfoldable pub find_all : ℕ → Pattern → Text → List (List Text)
find_all zero p s = []
find_all (suc n) p s = elim (find p s) [ none ↦ [] | some m ↦ m.1.0 ∷ find_all n p m.1.1 ]

-- `([\w,]+)\s+\{(\w+)\}\s+(\S+)(?:\s+"([^"]+)")?`
abbrev pub quoted : Pattern
quoted = plus false is_blank (lit b'"' (plus true (λ c. not (c == b'"')) (lit b'"' done)))

abbrev pub response_pattern : Pattern
response_pattern =
    plus true (λ c. is_word c || c == b',')
      (plus false is_blank (
        lit b'{' (
          plus true is_word
            (lit b'}' (plus false is_blank (plus true not_blank (maybe 1 quoted)))))))

-- `([\w,]+)\s+"([^"]+)"`
abbrev pub empty_response_pattern : Pattern
empty_response_pattern = plus true (λ c. is_word c || c == b',') quoted

-- `(\S+)\s+(\w+)\s+([\S.]+)\s+(\w+)\s+"([^"]+)"`
abbrev pub param_pattern : Pattern
param_pattern = plus true not_blank (
    plus false is_blank (
      plus true is_word (
        plus false is_blank
          (plus true not_blank (plus false is_blank (plus true is_word quoted))))))

-- `(\w+)\(([^)]+)\)`
abbrev pub attr_pattern : Pattern
attr_pattern = plus true is_word (lit b'(' (plus true (λ c. not (c == b')')) (lit b')' done)))

evaluation : Unit {0}
unfolding is_word is_blank not_blank match_at find find_all span tries no_groups
evaluation = tt

pattern_tests :
    (find response_pattern (codes "200 {object} Page \"all\"")
      ≡ some (
        codes "200 {object} Page \"all\"",
        (codes "200" ∷ codes "object" ∷ codes "Page" ∷ codes "all" ∷ [], []),
      ))
    × (find response_pattern (codes "- 200,404 {array} string")
        ≡ some (
          codes "200,404 {array} string",
          (codes "200,404" ∷ codes "array" ∷ codes "string" ∷ [] ∷ [], []),
        ))
    × (find param_pattern (codes "id path int true \"the id\" Min(1)")
        ≡ some (
          codes "id path int true \"the id\"",
          (
            codes "id" ∷ codes "path" ∷ codes "int" ∷ codes "true" ∷ codes "the id" ∷ [],
            codes " Min(1)",
          ),
        ))
    × (find_all 9 attr_pattern (codes " Min(1) Enums(a, b)")
        ≡ (codes "Min" ∷ codes "1" ∷ []) ∷ (codes "Enums" ∷ codes "a, b" ∷ []) ∷ [])
unfolding evaluation
pattern_tests = (refl, refl, refl, refl)
