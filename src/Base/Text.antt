-- ===== src/Base/Text.antt =====
-- Texts as lists of code points, and the functions of Go's package `strings` that the program
-- calls. Letters change case in ASCII only.
pub mod Slices
use Prim.Native.Char.{code}
use Prim.Native.String.{String}
use Prim.Native.Nat.{ℕ, suc, ◌+◌, ◌-◌}
use mathlib.Core.Path.{◌≡◌, refl}
use mathlib.Core.Logic.{◌↔◌, inl, inr}
use mathlib.Core.Bool.{Bool, true, false, ◌&&◌, ◌||◌}
use mathlib.Core.Option.{Option, none, some}
use mathlib.Core.List.{List, [], ◌∷◌, ◌++◌, map, reverse}
use native.Mathlib.Omega.{arith}
use core_swag.Base.Tests.{◌==◌, leb, if◌then◌else◌, Bool-cases}
use core_swag.Base.Lists.{length, drop, All}

abbrev pub Text : Type 0
Text = List ℕ

abbrev pub codes : String → Text
codes String.[] = []
codes (String.◌∷◌ c s) = code c ∷ codes s

-- `a == b` on strings
unfoldable pub text_eq : Text → Text → Bool
text_eq [] [] = true
text_eq (x ∷ xs) (y ∷ ys) = x == y && text_eq xs ys
text_eq _ _ = false

pub text_eq_iff : (a b : Text) → (text_eq a b ≡ true) ↔ (a ≡ b)
unfolding text_eq
text_eq_iff (x ∷ a) (y ∷ b) = ground (arith, text_eq_iff a b)
text_eq_iff _ _ = ground arith

pub text_eq_refl : (a : Text) → text_eq a a ≡ true
text_eq_refl a = (text_eq_iff a a).1 refl

-- membership in a set of strings, kept as a list
unfoldable pub mem : Text → List Text → Bool
mem a [] = false
mem a (x ∷ xs) = text_eq x a || mem a xs

pub mem-append : (a : Text) (xs ys : List Text) → mem a (xs ++ ys) ≡ (mem a xs || mem a ys)
unfolding mem
mem-append a [] ys = refl
mem-append a (x ∷ xs) ys = ground (arith, mem-append a xs ys)

-- `strings.HasPrefix(s, p)`
unfoldable pub has_prefix : Text → Text → Bool
has_prefix s [] = true
has_prefix [] (p ∷ ps) = false
has_prefix (c ∷ s) (p ∷ ps) = c == p && has_prefix s ps

-- `strings.HasSuffix(s, p)`
unfoldable pub has_suffix : Text → Text → Bool
unfolding has_prefix
has_suffix s p = has_prefix (reverse s) (reverse p)

-- `strings.TrimPrefix(s, p)`
unfoldable pub trim_prefix : Text → Text → Text
unfolding has_prefix
trim_prefix s p = if has_prefix s p then drop (length p) s else s

-- `strings.Contains(s, p)`
unfoldable pub contains : Text → Text → Bool
unfolding has_prefix
contains [] p = has_prefix [] p
contains (c ∷ s) p = has_prefix (c ∷ s) p || contains s p

pub has_prefix-append : (p s : Text) → has_prefix (p ++ s) p ≡ true
unfolding has_prefix
has_prefix-append [] s = refl
has_prefix-append (c ∷ p) s = ground (arith, has_prefix-append p s)

pub drop-append : (p s : Text) → drop (length p) (p ++ s) ≡ s
drop-append [] s = refl
drop-append (c ∷ p) s = drop-append p s

pub trim_prefix-append : (p s : Text) → trim_prefix (p ++ s) p ≡ s
unfolding trim_prefix
trim_prefix-append p s = rw (has_prefix-append p s) (drop-append p s)

-- What has a prefix is the prefix and the rest.
pub has_prefix-split : (s p : Text) → has_prefix s p ≡ true → s ≡ p ++ drop (length p) s
unfolding has_prefix
has_prefix-split s [] h = refl
has_prefix-split [] (p ∷ ps) h = cc
has_prefix-split (c ∷ s) (p ∷ ps) h = ground (arith, has_prefix-split s ps)

-- `strings.Index(s, string(b))`, with `none` for -1
unfoldable pub index : Text → ℕ → Option ℕ
index [] b = none
index (c ∷ s) b =
    if c == b then some 0 else elim (index s b) [ none ↦ none | some i ↦ some (suc i) ]

-- `strings.LastIndex(s, string(b))`
unfoldable pub last_index : Text → ℕ → Option ℕ
last_index [] b = none
last_index (c ∷ s) b = elim (last_index s b) [
  | some i ↦ some (suc i)
  | none ↦ if c == b then some 0 else none
]

-- `strings.Count(s, string(b))`
unfoldable pub count : Text → ℕ → ℕ
count [] b = 0
count (c ∷ s) b = (if c == b then 1 else 0) + count s b

-- `unicode.IsSpace`
unfoldable pub is_space : ℕ → Bool
is_space c =
    (leb 9 c && leb c 13)
    || c == 32
    || c == 0x85
    || c == 0xa0
    || c == 0x1680
    || (leb 0x2000 c && leb c 0x200a)
    || c == 0x2028
    || c == 0x2029
    || c == 0x202f
    || c == 0x205f
    || c == 0x3000

unfoldable pub trim_left : Text → Text
unfolding is_space
trim_left [] = []
trim_left (c ∷ s) = if is_space c then trim_left s else c ∷ s

-- `strings.TrimSpace`
unfoldable pub trim_space : Text → Text
unfolding trim_left
trim_space s = reverse (trim_left (reverse (trim_left s)))

-- `strings.ToLower`, `strings.ToUpper`
unfoldable pub to_lower : Text → Text
to_lower = map (λ c. if leb b'A' c && leb c b'Z' then c + 32 else c)

unfoldable pub to_upper : Text → Text
to_upper = map (λ c. if leb b'a' c && leb c b'z' then c - 32 else c)

-- The loop of `strings.Split(s, string(b))`: the piece so far, then the rest.
split_onto : Text → Text → ℕ → List Text
split_onto cur [] b = cur ∷ []
split_onto cur (c ∷ s) b =
    let closed = cur ∷ split_onto [] s b in
    let longer = split_onto (cur ++ c ∷ []) s b in if c == b then closed else longer

unfoldable pub split : Text → ℕ → List Text
unfolding split_onto
split s b = split_onto [] s b

-- `strings.Join(parts, sep)`
unfoldable pub join : List Text → Text → Text
join [] sep = []
join (p ∷ []) sep = p
join (p ∷ q ∷ ps) sep = p ++ (sep ++ join (q ∷ ps) sep)

-- The loop of `strings.Fields`: the field so far, empty between fields.
unfoldable pub fields_onto : Text → Text → List Text
fields_onto [] [] = []
fields_onto (k ∷ cur) [] = (k ∷ cur) ∷ []
fields_onto [] (c ∷ s) = fields_onto (if is_space c then [] else c ∷ []) s
fields_onto (k ∷ cur) (c ∷ s) =
    let closed = (k ∷ cur) ∷ fields_onto [] s in
    let longer = fields_onto (k ∷ (cur ++ c ∷ [])) s in if is_space c then closed else longer

unfoldable pub fields : Text → List Text
unfolding fields_onto is_space
fields s = fields_onto [] s

text_tests :
    (trim_space (codes " a b\t") ≡ codes "a b")
    × (split (codes "a,,b") b',' ≡ codes "a" ∷ [] ∷ codes "b" ∷ [])
    × (fields (codes " a  bc ") ≡ codes "a" ∷ codes "bc" ∷ [])
    × (index (codes "ab{") b'{' ≡ some 2)
    × (last_index (codes "a}b}c") b'}' ≡ some 3)
    × (has_suffix (codes "a/b}") (codes "}") ≡ true)
    × (trim_prefix (codes "*int") (codes "*") ≡ codes "int")
unfolding trim_space split fields index last_index has_suffix trim_prefix
text_tests = (refl, refl, refl, refl, refl, refl, refl)

-- What holds of every member holds of a text that the test finds among them.
pub mem-All : (P : Text → Type 0) (a : Text) (xs : List Text) → All P xs → mem a xs ≡ true → P a
unfolding mem
mem-All P a [] h m = absurd (ground arith)
mem-All P a (x ∷ xs) (here, later) m = elim (Bool-cases (text_eq x a)) [
  | inl e ↦ rw (← (text_eq_iff x a).0 e) here
  | inr e ↦ mem-All P a xs later (ground arith)
]
