-- ===== src/Constants/Shifts.antt =====
-- The shifts of EvaluateBinary of internal/domain/types.go
use core_swag.Base.{
  ℕ, zero, suc, ◌+◌, ◌-◌, ◌*◌, ◌/◌, ◌%◌, ◌^◌, ◌<◌, ◌≤◌, ◌≡◌, refl, sym, subst, ap, ◌∙◌, Bool, true,
  false, leb, arith, inl, inr, Bool-cases, if◌then◌else◌,
}
use core_swag.Constants.{
  Kind, width, modulus, Value, num, is_negative, shl, shr, value, shift_left, shift_right, shift_of,
  evaluate_binary,
}
use Prim.Native.Nat.{◌∣◌}
use native.Mathlib.Nat.{
  mod-lt, div-le_self, div-add-mod, mul_comm, one-le-pow, pow-le-pow_right, mod-eq-zero_of_dvd,
  dvd-mul_left_of_dvd, div-le_of_le-mul, le-mul_of_pos_right, mul-zero, mul-suc,
}
use core_swag.Constants.Wraps.{power-dvd, modulus-width}
use core_swag.Constants.Divides.Extends.{half, halves}
use core_swag.Constants.Divides.{is_below_zero, size_of}

-- The number of this size, without or with a minus, divided and rounded down
abbrev pub RoundsDown : Bool → ℕ → ℕ → ℕ → Type 0
RoundsDown false a d b = (r : ℕ) × (r < d) × (b * d + r ≡ a)
RoundsDown true a d b = (r : ℕ) × (r < d) × (b * d ≡ a + r)

-- What the pattern of a quotient is that a power of two divides off
pub record IsShifted (k : Kind) (p d b : ℕ) : Type 0 where
  pub has_sign : is_below_zero k b ≡ is_below_zero k p
  pub rounds : RoundsDown (is_below_zero k p) (size_of k p) d (size_of k b)

power-positive : (n : ℕ) → 0 < 2 ^ n
power-positive n = one-le-pow n 2 (omega arith)

module _ (k : Kind) (n : ℕ) (far : leb (width k) n ≡ true) where
  width-le : width k ≤ n
  width-le = ground arith

  modulus_power : modulus k ∣ 2 ^ n
  modulus_power = rw (modulus-width k) (
      subst (λ w. 2 ^ width k ∣ 2 ^ w) (let h = width-le in omega arith)
        (power-dvd (width k) (n - width k)))

  modulus-le_power : modulus k ≤ 2 ^ n
  modulus-le_power = rw (modulus-width k) (pow-le-pow_right (omega arith) width-le)

shift_left-power : (k : Kind) (p n : ℕ) → shift_left k p n ≡ p * 2 ^ n % modulus k
unfolding shift_left
shift_left-power k p n = elim (Bool-cases (leb (width k) n)) [
  | inl far ↦ rw far (
      sym (
        mod-eq-zero_of_dvd (modulus k) (dvd-mul_left_of_dvd (modulus k) (modulus_power k n far) p)))
  | inr near ↦ rw near refl
]

abbrev up : ℕ → ℕ → ℕ
up s d = (s + d - 1) / d

part-positive : (s d c t : ℕ) → 0 < s → t < d → d * c + t ≡ s + d - 1 → 0 < c
part-positive s d zero t some_s rest e =
    let e' : 0 + t ≡ s + d - 1 = ap (λ x. x + t) (sym (mul-zero d)) ∙ e in absurd (omega arith)
part-positive s d (suc c) t some_s rest e = omega arith

sum-le_product : (s d : ℕ) → 0 < s → 0 < d → s + d - 1 ≤ d * s
sum-le_product zero d some_s some_d = absurd (omega arith)
sum-le_product (suc s) d some_s some_d =
    let h = le-mul_of_pos_right s some_d in let e = mul_comm s d in rw (mul-suc d s) (omega arith)

-- A size that is divided and rounded up
module _ (s d : ℕ) (some_s : 0 < s) (some_d : 0 < d) where
  up_parts : d * up s d + (s + d - 1) % d ≡ s + d - 1
  up_parts = div-add-mod (s + d - 1) d

  up_rest : (s + d - 1) % d < d
  up_rest = mod-lt (s + d - 1) some_d

  up-positive : 0 < up s d
  up-positive = part-positive s d (up s d) ((s + d - 1) % d) some_s up_rest up_parts

  up-le : up s d ≤ s
  up-le = div-le_of_le-mul d (sum-le_product s d some_s some_d)

  up_rounds : RoundsDown true s d (up s d)
  up_rounds = (
    d - 1 - (s + d - 1) % d,
    (let h = up_rest in omega arith),
    (let h = up_rest in let e = up_parts in mul_comm (up s d) d ∙ omega arith),
  )

shifted :
    (k : Kind) (p d b : ℕ) (s : Bool)
    → is_below_zero k p ≡ s
    → is_below_zero k b ≡ s
    → RoundsDown s (if s then modulus k - p else p) d (if s then modulus k - b else b)
    → IsShifted k p d b
shifted k p d b s e e' r = record { has_sign = e' ∙ sym e; rounds = rw (e, e') r }

module _ (k : Kind) (p n : ℕ) (hp : p < modulus k) where
  below_zero : (b : ℕ) → is_below_zero k p ≡ true → half k ≤ b → is_below_zero k b ≡ true
  below_zero b minus h = ground arith

  above_zero : (b : ℕ) → is_below_zero k p ≡ false → b ≤ p → is_below_zero k b ≡ false
  above_zero b plus h = ground arith

  half-le : is_below_zero k p ≡ true → half k ≤ p
  half-le minus = ground arith

  module _ (far : leb (width k) n ≡ true) where
    far_below : is_below_zero k p ≡ true → IsShifted k p (2 ^ n) (modulus k - 1)
    far_below minus =
        let h = half-le minus in
        let wide = modulus-le_power k n far in
        let twice = halves k in
        shifted k p (2 ^ n) (modulus k - 1) true minus
          (below_zero (modulus k - 1) minus (omega arith))
          (
            2 ^ n - (modulus k - p),
            omega arith,
            let one = ap (λ t. t * 2 ^ n) {x = modulus k - (modulus k - 1)} {y = 1} (omega arith) in
                omega arith,
          )

    far_above : is_below_zero k p ≡ false → IsShifted k p (2 ^ n) 0
    far_above plus =
        let wide = modulus-le_power k n far in
        shifted k p (2 ^ n) 0 false plus (above_zero 0 plus (omega arith))
          (p, omega arith, omega arith)

  near_below :
      is_below_zero k p ≡ true → IsShifted k p (2 ^ n) (modulus k - up (modulus k - p) (2 ^ n))
  near_below minus =
      let h = half-le minus in
      let some_p : 0 < modulus k - p = omega arith in
      let low = up-le (modulus k - p) (2 ^ n) some_p (power-positive n) in
      let twice = halves k in
      shifted k p (2 ^ n) (modulus k - up (modulus k - p) (2 ^ n)) true minus
        (below_zero (modulus k - up (modulus k - p) (2 ^ n)) minus (omega arith))
        (subst (RoundsDown true (modulus k - p) (2 ^ n)) (omega arith)
          (up_rounds (modulus k - p) (2 ^ n) some_p (power-positive n)))

  near_above : is_below_zero k p ≡ false → IsShifted k p (2 ^ n) (p / 2 ^ n)
  near_above plus =
      shifted k p (2 ^ n) (p / 2 ^ n) false plus
        (above_zero (p / 2 ^ n) plus (div-le_self p (2 ^ n)))
        (
          p % 2 ^ n,
          mod-lt p (power-positive n),
          ap (λ t. t + p % 2 ^ n) (mul_comm (p / 2 ^ n) (2 ^ n)) ∙ div-add-mod p (2 ^ n),
        )

  shift_right-IsShifted : IsShifted k p (2 ^ n) (shift_right k p n)
  unfolding shift_right is_negative
  shift_right-IsShifted = elim (Bool-cases (is_below_zero k p)) [
    | inl minus ↦ elim (Bool-cases (leb (width k) n)) [
      | inl far ↦ rw (minus, far) (far_below far minus)
      | inr near ↦ rw (minus, near) (near_below minus)
    ]
    | inr plus ↦ elim (Bool-cases (leb (width k) n)) [
      | inl far ↦ rw (plus, far) (far_above far plus)
      | inr near ↦ rw (plus, near) (near_above plus)
    ]
  ]

-- A shift to the left multiplies an integer by the power of two of the right operand, modulo its
-- modulus; a shift to the right divides it by that power and rounds down, and keeps its sign. The
-- right operand may be as large as the width and larger, and a negative one counts as its 64 bits.
pub evaluate_binary-shifts :
    (k : Kind) (p : ℕ) (y : Value)
    → p < modulus k
    → (evaluate_binary (num k p) y shl ≡ value (num k (p * 2 ^ shift_of y % modulus k)))
      × ((b : ℕ) × (evaluate_binary (num k p) y shr ≡ value (num k b))
          × IsShifted k p (2 ^ shift_of y) b)
unfolding evaluate_binary
evaluate_binary-shifts k p y hp = (
  ap (λ t. value (num k t)) (shift_left-power k p (shift_of y)),
  (shift_right k p (shift_of y), refl, shift_right-IsShifted k p (shift_of y) hp),
)
