-- ===== src/Constants/Escapes.antt =====
-- The escapes in the literals of constants: escapedChars, EvaluateEscapedChar and
-- EvaluateEscapedString of internal/domain/types.go. A text is the list of its bytes here, and a rune
-- is its pattern in 32 bits.
pub mod Print
use core_swag.Base.{
  ℕ, zero, suc, ◌+◌, ◌-◌, ◌*◌, ◌/◌, ◌%◌, ◌^◌, ◌≡◌, refl, Bool, true, false, ◌&&◌, ◌||◌, List, [],
  ◌∷◌, ◌++◌, Option, none, some, ltb, leb, ◌==◌, if◌then◌else◌,
}

abbrev pub Bytes : Type 0
Bytes = List ℕ

abbrev pub backslash : ℕ
backslash = 92

-- `escapedChars`: of n, r, t, v, the backslash and the quotation mark
unfoldable pub escaped_chars : ℕ → Option ℕ
escaped_chars c =
    if c == 110
    then some 10
    else if c == 114
    then some 13
    else if c == 116
    then some 9
    else if c == 118
    then some 11
    else if c == 92
    then some 92
    else if c == 34
    then some 34
    else none

unfoldable pub hex_digit : ℕ → Option ℕ
hex_digit c =
    if leb 48 c && leb c 57
    then some (c - 48)
    else if leb 97 c && leb c 102
    then some (c - 87)
    else if leb 65 c && leb c 70
    then some (c - 55)
    else none

abbrev pub add_digit : ℕ → Option ℕ → Option ℕ
add_digit n none = none
add_digit n (some d) = some (n * 16 + d)

unfoldable pub hex_digits : Option ℕ → Bytes → Option ℕ
unfolding hex_digit
hex_digits none cs = none
hex_digits (some n) [] = some n
hex_digits (some n) (c ∷ cs) = hex_digits (add_digit n (hex_digit c)) cs

abbrev pub negated : Option ℕ → Option ℕ
negated none = none
negated (some n) = some ((2 ^ 32 - n) % 2 ^ 32)

unfoldable pub unsigned_hex : Bytes → Option ℕ
unfolding hex_digits
unsigned_hex [] = none
unsigned_hex (c ∷ cs) = hex_digits (some 0) (c ∷ cs)

-- `strconv.ParseInt(text, 16, 32)` of at most four bytes, which is in the range: a sign may stand
-- before the digits. `none` is an error.
unfoldable pub parse_int : Bytes → Option ℕ
unfolding unsigned_hex
parse_int [] = none
parse_int (c ∷ cs) =
    if c == 43
    then unsigned_hex cs
    else if c == 45
    then negated (unsigned_hex cs)
    else unsigned_hex (c ∷ cs)

-- `utf8.AppendRune` to no bytes
unfoldable pub append_rune : ℕ → Bytes
append_rune r =
    if ltb r 128
    then r ∷ []
    else if ltb r 2048
    then (192 + r / 64) ∷ (128 + r % 64) ∷ []
    else if (leb 55296 r && leb r 57343) || leb 1114112 r
    then 239 ∷ 191 ∷ 189 ∷ []
    else if ltb r 65536
    then (224 + r / 4096) ∷ (128 + r / 64 % 64) ∷ (128 + r % 64) ∷ []
    else (240 + r / 262144) ∷ (128 + r / 4096 % 64) ∷ (128 + r / 64 % 64) ∷ (128 + r % 64) ∷ []

abbrev pub or_zero : Option ℕ → ℕ
or_zero none = 0
or_zero (some r) = r

-- `EvaluateEscapedChar`
unfoldable pub evaluate_escaped_char : Bytes → ℕ
unfolding escaped_chars parse_int
evaluate_escaped_char (c ∷ []) = c
evaluate_escaped_char (b ∷ c ∷ []) = if b == backslash then or_zero (escaped_chars c) else 0
evaluate_escaped_char (b ∷ u ∷ h1 ∷ h2 ∷ h3 ∷ h4 ∷ []) =
    if b == backslash && u == 117 then or_zero (parse_int (h1 ∷ h2 ∷ h3 ∷ h4 ∷ [])) else 0
evaluate_escaped_char _ = 0

unfoldable pub contains_rune : Bytes → ℕ → Bool
contains_rune [] r = false
contains_rune (c ∷ cs) r = c == r || contains_rune cs r

abbrev pub rune_or_nothing : Option ℕ → Bytes
rune_or_nothing none = []
rune_or_nothing (some r) = append_rune r

abbrev pub char_or_nothing : Option ℕ → Bytes
char_or_nothing none = []
char_or_nothing (some c) = c ∷ []

-- What `\u` adds, before these bytes: `none` where the slice of four bytes panics
unfoldable pub unicode_piece : Bytes → Option Bytes
unfolding parse_int append_rune
unicode_piece (h1 ∷ h2 ∷ h3 ∷ h4 ∷ cs) = some (rune_or_nothing (parse_int (h1 ∷ h2 ∷ h3 ∷ h4 ∷ [])))
unicode_piece _ = none

-- What a backslash adds, before these bytes: `none` where the index panics
unfoldable pub escape_piece : Bytes → Option Bytes
unfolding unicode_piece escaped_chars
escape_piece [] = none
escape_piece (c ∷ cs) =
    if c == 117 then unicode_piece cs else some (char_or_nothing (escaped_chars c))

-- How many bytes the index goes on after a backslash
unfoldable pub escape_jump : Bytes → ℕ
escape_jump [] = 0
escape_jump (c ∷ cs) = if c == 117 then 5 else 1

abbrev pub append_piece : Option Bytes → Option Bytes → Option Bytes
append_piece (some p) (some result) = some (p ++ result)
append_piece _ _ = none

-- The loop over the bytes, which first passes over as many as the index has gone on
unfoldable pub evaluate_bytes : ℕ → Bytes → Option Bytes
unfolding escape_piece escape_jump
evaluate_bytes skip [] = some []
evaluate_bytes (suc skip) (c ∷ cs) = evaluate_bytes skip cs
evaluate_bytes zero (c ∷ cs) =
    let is_escape = c == backslash in
    let rest = evaluate_bytes (if is_escape then escape_jump cs else 0) cs in
    append_piece (if is_escape then escape_piece cs else some (c ∷ [])) rest

-- `EvaluateEscapedString`
unfoldable pub evaluate_escaped_string : Bytes → Option Bytes
unfolding contains_rune evaluate_bytes
evaluate_escaped_string text =
    if contains_rune text backslash then evaluate_bytes 0 text else some text
