-- ===== src/Constants/Divides/Extends.antt =====
-- Patterns with an extended sign, and results of 64 bits that are cut to the width of a type, as the
-- division of EvaluateBinary of internal/domain/types.go has them
use core_swag.Base.{
  ℕ, ◌+◌, ◌-◌, ◌/◌, ◌%◌, ◌^◌, ◌<◌, ◌≤◌, ◌≡◌, refl, Bool, true, false, leb, ◌==◌, arith,
}
use core_swag.Constants.{
  Kind, int, int8, int16, int32, int64, uint, uint8, uint16, uint32, uint64, modulus, is_signed,
  is_negative, extend, magnitude, signed, is_minus,
}
use native.Mathlib.Nat.{mod-eq_of_lt}
use core_swag.Constants.Divides.Signs.{cut, size}

abbrev pub half : Kind → ℕ
half k = modulus k / 2

pub halves : (k : Kind) → modulus k ≡ half k + half k
halves int = refl
halves int8 = refl
halves int16 = refl
halves int32 = refl
halves int64 = refl
halves uint = refl
halves uint8 = refl
halves uint16 = refl
halves uint32 = refl
halves uint64 = refl

modulus-le : (k : Kind) → modulus k ≤ 2 ^ 64
modulus-le int = omega arith
modulus-le int8 = omega arith
modulus-le int16 = omega arith
modulus-le int32 = omega arith
modulus-le int64 = omega arith
modulus-le uint = omega arith
modulus-le uint8 = omega arith
modulus-le uint16 = omega arith
modulus-le uint32 = omega arith
modulus-le uint64 = omega arith

modulus-positive : (k : Kind) → 0 < half k
modulus-positive int = omega arith
modulus-positive int8 = omega arith
modulus-positive int16 = omega arith
modulus-positive int32 = omega arith
modulus-positive int64 = omega arith
modulus-positive uint = omega arith
modulus-positive uint8 = omega arith
modulus-positive uint16 = omega arith
modulus-positive uint32 = omega arith
modulus-positive uint64 = omega arith

minus-cut :
    (k : Kind) (a : ℕ)
    → a ≤ modulus k
    → (2 ^ 64 - a) % 2 ^ 64 % modulus k ≡ (modulus k - a) % modulus k
minus-cut int a h = omega arith
minus-cut int8 a h = omega arith
minus-cut int16 a h = omega arith
minus-cut int32 a h = omega arith
minus-cut int64 a h = omega arith
minus-cut uint a h = omega arith
minus-cut uint8 a h = omega arith
minus-cut uint16 a h = omega arith
minus-cut uint32 a h = omega arith
minus-cut uint64 a h = omega arith

-- A result of 64 bits, in the width of the type
pub signed-cut :
    (k : Kind) (s : Bool) (a : ℕ) → a ≤ half k → signed s a % modulus k ≡ cut (modulus k) s a
signed-cut k false a h =
    let e = halves k in let z = modulus-positive k in mod-eq_of_lt (omega arith)
signed-cut k true a h = let e = halves k in minus-cut k a (omega arith)

pub extend_of_zero : (k : Kind) → extend k 0 ≡ 0
unfolding extend is_negative
extend_of_zero int = refl
extend_of_zero int8 = refl
extend_of_zero int16 = refl
extend_of_zero int32 = refl
extend_of_zero int64 = refl
extend_of_zero uint = refl
extend_of_zero uint8 = refl
extend_of_zero uint16 = refl
extend_of_zero uint32 = refl
extend_of_zero uint64 = refl

pub extend-zero : (k : Kind) (q : ℕ) → 0 < q → (extend k q == 0) ≡ false
unfolding extend
extend-zero k q h = ground arith

module _ (k : Kind) (p : ℕ) (below : p < modulus k) where
  pub extend-unsigned : is_signed k ≡ false → extend k p ≡ p
  unfolding extend is_negative
  extend-unsigned e = rw e refl

  pub magnitude-extend : is_signed k ≡ true → magnitude (extend k p) ≡ size (modulus k) (half k) p
  unfolding extend is_negative
  magnitude-extend e = let le = modulus-le k in let twice = halves k in rw e (ground arith)

  pub is_minus-extend : is_signed k ≡ true → is_minus (extend k p) ≡ leb (half k) p
  unfolding extend is_negative
  is_minus-extend e = let le = modulus-le k in let twice = halves k in rw e (ground arith)
