-- ===== src/Constants/Tests.antt =====
-- The values of constants of internal/domain/types.go, at concrete values
use core_swag.Base.{ℕ, ◌-◌, ◌⊎◌, ◌^◌, ◌≡◌, refl, List, [], ◌∷◌, some, arith, All}
use core_swag.Base.Text.{Text, codes}
use core_swag.Constants.{
  int, int8, uint8, uint64, num, value, panics, add, sub, mul, quo, rem, shl, shr, evaluate_unary,
  evaluate_binary, evaluate_data_conversion, extend, is_negative, shift_right, operate, combine,
  compute, quotient, remainder,
}
use core_swag.Constants.Wraps.{name_of, evaluate_binary-wraps, evaluate_unary-sub, convert_back}
use core_swag.Constants.Divides.{IsDivision, evaluate_binary-divides}
use core_swag.Constants.Shifts.{IsShifted, evaluate_binary-shifts}
use core_swag.Constants.Escapes.{append_rune, evaluate_escaped_char, evaluate_escaped_string}
use core_swag.Constants.Escapes.Print.{
  Item, byte, rune, IsShort, print, printed, evaluate_escaped_string-print,
}

-- -7 / 2 and -7 % 2 at the type int8
divided : evaluate_binary (num int8 249) (num int8 2) quo ≡ value (num int8 253)
unfolding evaluate_binary operate combine compute quotient extend is_negative
divided = refl

rest : evaluate_binary (num int8 249) (num int8 2) rem ≡ value (num int8 255)
unfolding evaluate_binary operate combine compute remainder extend is_negative
rest = refl

-- -7 >> 1 is -4.
shifted : evaluate_binary (num int8 249) (num int 1) shr ≡ value (num int8 252)
unfolding evaluate_binary shift_right extend is_negative
shifted = refl

by_zero : evaluate_binary (num int 1) (num int 0) quo ≡ panics
unfolding evaluate_binary operate combine compute
by_zero = refl

-- A signed left operand that is no `int`, with an unsigned right one
mixed : evaluate_binary (num int8 1) (num uint8 1) add ≡ panics
unfolding evaluate_binary operate combine compute
mixed = refl

mixed_int : evaluate_binary (num int 255) (num uint8 1) add ≡ value (num uint8 0)
unfolding evaluate_binary operate combine compute extend is_negative
mixed_int = refl

-- The quotation mark of a character is not among the escapes.
quote_lost : evaluate_escaped_char (codes "\\'") ≡ 0
unfolding evaluate_escaped_char
quote_lost = refl

hex_lost : evaluate_escaped_string (codes "\\x41") ≡ some (codes "41")
unfolding evaluate_escaped_string
hex_lost = refl

evaluate_binary-wraps_example :
    (evaluate_binary (num int8 100) (num int8 100) add ≡ value (num int8 200))
    × (evaluate_binary (num int8 100) (num int8 100) sub ≡ value (num int8 0))
    × (evaluate_binary (num int8 100) (num int8 100) mul ≡ value (num int8 16))
evaluate_binary-wraps_example = evaluate_binary-wraps int8 100 100 (omega arith) (omega arith)

negated : evaluate_unary (num int8 100) sub ≡ some (num int8 156)
unfolding evaluate_unary
negated = refl

evaluate_unary-sub_example :
    evaluate_binary (num int8 5) (num int8 100) sub
    ≡ evaluate_binary (num int8 5) (num int8 156) add
evaluate_unary-sub_example =
    evaluate_unary-sub int8 5 100 (num int8 156) (omega arith) (omega arith) negated

-- -7 by 2
evaluate_binary-divides_example :
    (◌≡◌ {A = ℕ} 2 0
      × (evaluate_binary (num int8 249) (num int8 2) quo ≡ panics)
      × (evaluate_binary (num int8 249) (num int8 2) rem ≡ panics))
    ⊎ ((a : ℕ) × (b : ℕ) × IsDivision int8 249 2 a b)
evaluate_binary-divides_example = evaluate_binary-divides int8 249 2 (omega arith) (omega arith)

-- -7 by 1
evaluate_binary-shifts_example :
    (evaluate_binary (num int8 249) (num int 1) shl ≡ value (num int8 242))
    × ((b : ℕ) × (evaluate_binary (num int8 249) (num int 1) shr ≡ value (num int8 b))
        × IsShifted int8 249 2 b)
unfolding extend is_negative
evaluate_binary-shifts_example = evaluate_binary-shifts int8 249 (num int 1) (omega arith)

encode : ℕ → Text
encode r = r ∷ []

convert_back_example :
    (evaluate_data_conversion encode (num int8 251) (codes "uint64")
      ≡ some (num uint64 (2 ^ 64 - 5)))
    × (evaluate_data_conversion encode (num uint64 (2 ^ 64 - 5)) (codes "int8")
        ≡ some (num int8 251))
unfolding name_of extend is_negative
convert_back_example = convert_back encode int8 uint64 251 (omega arith) (omega arith)

sample : List Item
sample = byte 65 ∷ byte 10 ∷ byte 34 ∷ rune 233 ∷ byte 92 ∷ []

sample-IsShort : All IsShort sample
unfolding sample
sample-IsShort = (tt, (tt, (tt, (omega arith, (tt, tt)))))

evaluate_escaped_string-print_example :
    evaluate_escaped_string (print sample) ≡ some (65 ∷ 10 ∷ 34 ∷ 195 ∷ 169 ∷ 92 ∷ [])
unfolding sample printed append_rune
evaluate_escaped_string-print_example = evaluate_escaped_string-print sample sample-IsShort
