-- ===== src/Constants/Escapes/Print.antt =====
-- EvaluateEscapedChar and EvaluateEscapedString of internal/domain/types.go: what is written with
-- escapes is read back.
use core_swag.Base.{
  ℕ, ◌+◌, ◌*◌, ◌/◌, ◌%◌, ◌<◌, ◌≡◌, refl, sym, ap, ◌∙◌, false, List, [], ◌∷◌, ◌++◌, some, ltb, ◌==◌,
  if◌then◌else◌, arith, inl, inr, Bool-cases, All,
}
use core_swag.Constants.Escapes.{
  Bytes, backslash, escaped_chars, hex_digit, hex_digits, add_digit, unsigned_hex, parse_int,
  append_rune, contains_rune, rune_or_nothing, unicode_piece, escape_piece, escape_jump,
  append_piece, evaluate_bytes, evaluate_escaped_string,
}

-- A byte that is no backslash is kept.
evaluate_bytes-kept :
    (c : ℕ) (text : Bytes)
    → (c == backslash) ≡ false
    → evaluate_bytes 0 (c ∷ text) ≡ append_piece (some (c ∷ [])) (evaluate_bytes 0 text)
unfolding evaluate_bytes
evaluate_bytes-kept c text e = rw e refl

-- Without a backslash there is nothing to do.
evaluate_bytes-plain :
    (text : Bytes) → contains_rune text backslash ≡ false → evaluate_bytes 0 text ≡ some text
unfolding evaluate_bytes contains_rune
evaluate_bytes-plain [] h = refl
evaluate_bytes-plain (c ∷ text) h = elim (Bool-cases (c == backslash)) [
  | inl e ↦ ground arith
  | inr e ↦
      evaluate_bytes-kept c text e
      ∙ ap (append_piece (some (c ∷ []))) (evaluate_bytes-plain text (ground arith))
]

-- The shortcut for a text without a backslash gives what the loop gives.
evaluate_escaped_string-loop : (text : Bytes) → evaluate_escaped_string text ≡ evaluate_bytes 0 text
unfolding evaluate_escaped_string
evaluate_escaped_string-loop text = elim (Bool-cases (contains_rune text backslash)) [
  | inl e ↦ rw e refl
  | inr e ↦ rw e (sym (evaluate_bytes-plain text e))
]

-- What is written: a byte, or a rune by its code
pub data Item : Type 0 where
  byte rune : ℕ → Item

abbrev pub digit : ℕ → ℕ
digit d = if ltb d 10 then 48 + d else 87 + d

hex_digit-digit : (d : ℕ) → d < 16 → hex_digit (digit d) ≡ some d
unfolding hex_digit
hex_digit-digit d h = ground arith

abbrev pub escape_byte : ℕ → Bytes
escape_byte c =
    if c == 10
    then 92 ∷ 110 ∷ []
    else if c == 13
    then 92 ∷ 114 ∷ []
    else if c == 9
    then 92 ∷ 116 ∷ []
    else if c == 11
    then 92 ∷ 118 ∷ []
    else if c == 92
    then 92 ∷ 92 ∷ []
    else if c == 34
    then 92 ∷ 34 ∷ []
    else c ∷ []

unfoldable pub print_item : Item → Bytes
print_item (byte c) = escape_byte c
print_item (rune r) =
    92 ∷ 117 ∷ digit (r / 4096) ∷ digit (r / 256 % 16) ∷ digit (r / 16 % 16) ∷ digit (r % 16) ∷ []

abbrev pub bytes_of : Item → Bytes
bytes_of (byte c) = c ∷ []
bytes_of (rune r) = append_rune r

unfoldable pub print : List Item → Bytes
unfolding print_item
print [] = []
print (x ∷ xs) = print_item x ++ print xs

unfoldable pub printed : List Item → Bytes
printed [] = []
printed (x ∷ xs) = bytes_of x ++ printed xs

-- A rune that four digits write
abbrev pub IsShort : Item → Type 0
IsShort (byte c) = Unit {0}
IsShort (rune r) = r < 65536

evaluate_bytes-escape_byte :
    (c : ℕ) (text : Bytes)
    → evaluate_bytes 0 (escape_byte c ++ text)
      ≡ append_piece (some (c ∷ [])) (evaluate_bytes 0 text)
unfolding evaluate_bytes escape_piece escape_jump escaped_chars
evaluate_bytes-escape_byte c text = ground arith

-- A digit is no sign.
digit-sign : (d c : ℕ) → c < 48 → (digit d == c) ≡ false
digit-sign d c h = ground arith

parse_int-digit :
    (d : ℕ) (cs : Bytes) → parse_int (digit d ∷ cs) ≡ hex_digits (some 0) (digit d ∷ cs)
unfolding parse_int unsigned_hex
parse_int-digit d cs =
    let plus : (digit d == 43) ≡ false = digit-sign d 43 (omega arith) in
    let minus : (digit d == 45) ≡ false = digit-sign d 45 (omega arith) in rw (plus, minus) refl

hex_digits-digit :
    (n d : ℕ) (cs : Bytes)
    → d < 16
    → hex_digits (some n) (digit d ∷ cs) ≡ hex_digits (some (n * 16 + d)) cs
unfolding hex_digits
hex_digits-digit n d cs h = ap (λ o. hex_digits (add_digit n o) cs) (hex_digit-digit d h)

four_digits : (a b c d : ℕ) → Bytes
four_digits a b c d = digit a ∷ digit b ∷ digit c ∷ digit d ∷ []

parse_int-four_digits :
    (a b c d : ℕ)
    → a < 16
    → b < 16
    → c < 16
    → d < 16
    → parse_int (four_digits a b c d) ≡ some (((a * 16 + b) * 16 + c) * 16 + d)
unfolding four_digits hex_digits
parse_int-four_digits a b c d ha hb hc hd =
    parse_int-digit a (digit b ∷ digit c ∷ digit d ∷ [])
    ∙ hex_digits-digit 0 a (digit b ∷ digit c ∷ digit d ∷ []) ha
    ∙ ap (λ n. hex_digits (some n) (digit b ∷ digit c ∷ digit d ∷ [])) (omega arith)
    ∙ hex_digits-digit a b (digit c ∷ digit d ∷ []) hb
    ∙ hex_digits-digit (a * 16 + b) c (digit d ∷ []) hc
    ∙ hex_digits-digit ((a * 16 + b) * 16 + c) d [] hd

parse_int-digits :
    (r : ℕ)
    → r < 65536
    → parse_int (four_digits (r / 4096) (r / 256 % 16) (r / 16 % 16) (r % 16)) ≡ some r
parse_int-digits r h =
    parse_int-four_digits (r / 4096) (r / 256 % 16) (r / 16 % 16) (r % 16) (omega arith)
      (omega arith) (omega arith) (omega arith)
    ∙ ap some (omega arith)

evaluate_bytes-rune :
    (r : ℕ) (text : Bytes)
    → r < 65536
    → evaluate_bytes 0 (print_item (rune r) ++ text)
      ≡ append_piece (some (append_rune r)) (evaluate_bytes 0 text)
unfolding evaluate_bytes print_item escape_piece escape_jump unicode_piece four_digits
evaluate_bytes-rune r text h =
    ap (λ o. append_piece (some (rune_or_nothing o)) (evaluate_bytes 0 text)) (parse_int-digits r h)

evaluate_bytes-print_item :
    (x : Item) (text : Bytes)
    → IsShort x
    → evaluate_bytes 0 (print_item x ++ text)
      ≡ append_piece (some (bytes_of x)) (evaluate_bytes 0 text)
unfolding print_item
evaluate_bytes-print_item (byte c) text h = evaluate_bytes-escape_byte c text
evaluate_bytes-print_item (rune r) text h = evaluate_bytes-rune r text h

evaluate_bytes-print :
    (xs : List Item) → All IsShort xs → evaluate_bytes 0 (print xs) ≡ some (printed xs)
unfolding evaluate_bytes print printed
evaluate_bytes-print [] h = refl
evaluate_bytes-print (x ∷ xs) (hx, hxs) =
    evaluate_bytes-print_item x (print xs) hx
    ∙ ap (append_piece (some (bytes_of x))) (evaluate_bytes-print xs hxs)

-- Bytes that are written with an escape where one of \n, \r, \t, \v, \\ and \" stands for them, and
-- runes below 65536 that are written as \u and four hexadecimal digits, are read as the bytes, and
-- as the runes in UTF-8 (or U+FFFD for a surrogate), in order, and the evaluation does not panic.
pub evaluate_escaped_string-print :
    (xs : List Item) → All IsShort xs → evaluate_escaped_string (print xs) ≡ some (printed xs)
evaluate_escaped_string-print xs h =
    evaluate_escaped_string-loop (print xs) ∙ evaluate_bytes-print xs h
