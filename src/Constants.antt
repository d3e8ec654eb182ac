-- ===== src/Constants.antt =====
-- The values of constants: EvaluateDataConversion, EvaluateUnary and EvaluateBinary of
-- internal/domain/types.go. An integer is its bit pattern, in the width of its type; the types of
-- values are names, kept as texts.
pub mod Escapes
pub mod Wraps
pub mod Divides
pub mod Shifts
pub mod Expressions
pub mod Collect
pub mod Evaluate
pub mod Tests
use core_swag.Base.{
  ℕ, zero, suc, ◌+◌, ◌-◌, ◌*◌, ◌/◌, ◌%◌, ◌^◌, ◌<◌, ◌≡◌, refl, Bool, true, false, ◌&&◌, ◌||◌, not,
  List, [], ◌∷◌, ◌++◌, Option, none, some, ltb, leb, ◌==◌, if◌then◌else◌,
}
use Prim.Native.Nat.{bit_and, bit_or, bit_xor}
use core_swag.Base.Text.{Text, codes, text_eq}
use core_swag.Base.Maps.{get_key}

-- The integer types of Go. `byte` is `uint8`, and `rune` is `int32`.
pub data Kind : Type 0 where
  int int8 int16 int32 int64 uint uint8 uint16 uint32 uint64 : Kind

abbrev pub width : Kind → ℕ
width int = 64
width int8 = 8
width int16 = 16
width int32 = 32
width int64 = 64
width uint = 64
width uint8 = 8
width uint16 = 16
width uint32 = 32
width uint64 = 64

abbrev pub modulus : Kind → ℕ
modulus int = 2 ^ 64
modulus int8 = 2 ^ 8
modulus int16 = 2 ^ 16
modulus int32 = 2 ^ 32
modulus int64 = 2 ^ 64
modulus uint = 2 ^ 64
modulus uint8 = 2 ^ 8
modulus uint16 = 2 ^ 16
modulus uint32 = 2 ^ 32
modulus uint64 = 2 ^ 64

-- `CanInt`
abbrev pub is_signed : Kind → Bool
is_signed int = true
is_signed int8 = true
is_signed int16 = true
is_signed int32 = true
is_signed int64 = true
is_signed _ = false

abbrev pub is_int : Kind → Bool
is_int int = true
is_int _ = false

-- A value that is not nil: an integer, a string, or one of another type, as go/types has it for a
-- Boolean, a fraction or a number of more than 64 bits. An `interface{}` with nil is `none`.
pub data Value : Type 0 where
  num : Kind → ℕ → Value
  str : Text → Value
  opaque : Value

-- A value of the type with these low bits: a conversion, `SetInt` and `SetUint`.
abbrev pub set : Kind → ℕ → Value
set k p = num k (p % modulus k)

unfoldable pub is_negative : Kind → ℕ → Bool
is_negative k p = is_signed k && leb (modulus k / 2) p

-- The pattern in 64 bits: `Int()`, `Uint()` and a conversion to a wider type extend the sign.
unfoldable pub extend : Kind → ℕ → ℕ
unfolding is_negative
extend k p = if is_negative k p then p + (2 ^ 64 - modulus k) else p

abbrev pub conversions : List (Text × Kind)
conversions =
    (codes "int", int)
    ∷ (codes "byte", uint8)
    ∷ (codes "int8", int8)
    ∷ (codes "int16", int16)
    ∷ (codes "int32", int32)
    ∷ (codes "int64", int64)
    ∷ (codes "uint", uint)
    ∷ (codes "uint8", uint8)
    ∷ (codes "uint16", uint16)
    ∷ (codes "uint32", uint32)
    ∷ (codes "uint64", uint64)
    ∷ (codes "rune", int32)
    ∷ []

abbrev pub is_int32 : Kind → Bool
is_int32 int32 = true
is_int32 _ = false

-- The conversion of an integer: to the integer type of the name, or of an `int32` to a string, which
-- `encode` does as Go encodes a rune.
unfoldable pub convert_to : (ℕ → Text) → Kind → ℕ → Text → Option Kind → Option Value
unfolding extend
convert_to encode k p type_name (some k') = some (set k' (extend k p))
convert_to encode k p type_name none =
    if is_int32 k && text_eq type_name (codes "string") then some (str (encode p)) else none

unfoldable pub convert_number : (ℕ → Text) → Kind → ℕ → Text → Option Value
unfolding convert_to
convert_number encode k p type_name =
    convert_to encode k p type_name (get_key type_name conversions)

-- `EvaluateDataConversion`
unfoldable pub evaluate_data_conversion : (ℕ → Text) → Value → Text → Option Value
unfolding convert_number
evaluate_data_conversion encode (num k p) type_name = convert_number encode k p type_name
evaluate_data_conversion encode (str t) type_name =
    if text_eq type_name (codes "string") then some (str t) else none
evaluate_data_conversion encode opaque type_name = none

-- The operators; `shl` and `shr` are `<<` and `>>`, and `xor` is also the unary `^`.
pub data Operator : Type 0 where
  add sub mul quo rem and or xor shl shr other : Operator

-- `EvaluateUnary`
unfoldable pub evaluate_unary : Value → Operator → Option Value
evaluate_unary (num k p) sub = if is_signed k then some (set k (modulus k - p)) else none
evaluate_unary (num k p) xor = some (set k (modulus k - 1 - p))
evaluate_unary _ _ = none

-- The magnitude of a 64-bit pattern, and a pattern with a sign.
abbrev pub magnitude : ℕ → ℕ
magnitude a = if ltb a (2 ^ 63) then a else 2 ^ 64 - a

abbrev pub signed : Bool → ℕ → ℕ
signed negative m = if negative then (2 ^ 64 - m) % 2 ^ 64 else m

abbrev pub bool_xor : Bool → Bool → Bool
bool_xor true b = not b
bool_xor false b = b

abbrev pub is_minus : ℕ → Bool
is_minus a = leb (2 ^ 63) a

-- The quotient is cut towards zero, and the remainder has the sign of the dividend.
unfoldable pub quotient : Bool → ℕ → ℕ → ℕ
quotient false a b = a / b
quotient true a b = signed (bool_xor (is_minus a) (is_minus b)) (magnitude a / magnitude b)

unfoldable pub remainder : Bool → ℕ → ℕ → ℕ
remainder false a b = a % b
remainder true a b = signed (is_minus a) (magnitude a % magnitude b)

-- An operation on 64-bit patterns, signed or not; a division by zero panics. `other` sets nothing, so
-- the new value stays zero.
unfoldable pub compute : Bool → Operator → ℕ → ℕ → Option ℕ
unfolding quotient remainder
compute s add a b = some ((a + b) % 2 ^ 64)
compute s sub a b = some ((a + 2 ^ 64 - b) % 2 ^ 64)
compute s mul a b = some (a * b % 2 ^ 64)
compute s quo a b = if b == 0 then none else some (quotient s a b)
compute s rem a b = if b == 0 then none else some (remainder s a b)
compute s and a b = some (bit_and a b)
compute s or a b = some (bit_or a b)
compute s xor a b = some (bit_xor a b)
compute s _ a b = some 0

-- `EvaluateBinary` returns a value, nil, or panics.
pub data Outcome : Type 0 where
  value : Value → Outcome
  nothing panics : Outcome

abbrev pub set_to : Kind → Option ℕ → Outcome
set_to k none = panics
set_to k (some p) = value (set k p)

-- Whether the operator is one of the cases of the switch.
abbrev pub is_case : Operator → Bool
is_case shl = false
is_case shr = false
is_case other = false
is_case _ = true

-- The new value has the type of the left operand, or of the right one where the left is an `int`.
-- `SetUint` panics on a value of a signed type.
unfoldable pub combine : Operator → Kind → ℕ → Kind → ℕ → Outcome
unfolding compute extend
combine op j p k q =
    let target = if is_int j then k else j in
    let result = compute (is_signed j && is_signed k) op (extend j p) (extend k q) in
    if is_signed j && not (is_signed k) && not (is_int j) && is_case op
    then panics
    else set_to target result

unfoldable pub shift_left : Kind → ℕ → ℕ → ℕ
shift_left k p n = if leb (width k) n then 0 else p * 2 ^ n % modulus k

-- The shift to the right copies the sign.
unfoldable pub shift_right : Kind → ℕ → ℕ → ℕ
unfolding is_negative
shift_right k p n =
    if is_negative k p
    then if leb (width k) n then modulus k - 1 else modulus k - (modulus k - p + 2 ^ n - 1) / 2 ^ n
    else if leb (width k) n
    then 0
    else p / 2 ^ n

-- The right operand of a shift
abbrev pub shift_of : Value → ℕ
shift_of (num k q) = extend k q
shift_of (str t) = 0
shift_of opaque = 0

-- The value that nothing is set to
abbrev pub zero_of : Value → Value
zero_of (num k p) = num k 0
zero_of (str t) = str []
zero_of opaque = opaque

abbrev pub target_of : Value → Value → Value
target_of (num k p) y = if is_int k then zero_of y else num k 0
target_of (str t) y = str []
target_of opaque y = opaque

-- A shift, by what the given function does to a pattern
abbrev pub shift : (Kind → ℕ → ℕ → ℕ) → Value → Value → Outcome
shift by (num k p) y = value (num k (by k p (shift_of y)))
shift by (str t) y = nothing
shift by opaque y = nothing

-- Every other operator: two texts are joined, whatever the operator is.
unfoldable pub operate : Operator → Value → Value → Outcome
unfolding combine
operate op (str t) (str u) = value (str (t ++ u))
operate op (num j p) (num k q) = combine op j p k q
operate op (num j p) (str u) = value (target_of (num j p) (str u))
operate op (str t) (num k q) = value (target_of (str t) (num k q))
operate op (str t) opaque = value (str [])
operate op (num j p) opaque = value (target_of (num j p) opaque)
operate op opaque y = value opaque

-- `EvaluateBinary`, without the type of the expression
unfoldable pub evaluate_binary : Value → Value → Operator → Outcome
unfolding shift_left shift_right operate
evaluate_binary x y shl = shift shift_left x y
evaluate_binary x y shr = shift shift_right x y
evaluate_binary x y op = operate op x y

-- The type of the expression, where the operands have one
unfoldable pub evaluated_type : Operator → Option Text → Option Text → Option Text
evaluated_type shl xtype ytype = xtype
evaluated_type shr xtype ytype = xtype
evaluated_type op none ytype = ytype
evaluated_type op (some t) ytype = some t
