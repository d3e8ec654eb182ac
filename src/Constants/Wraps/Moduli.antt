-- ===== src/Constants/Wraps/Moduli.antt =====
-- EvaluateBinary of internal/domain/types.go: patterns with an extended sign, modulo the width of
-- their type
use core_swag.Base.{
  ℕ, ◌+◌, ◌-◌, ◌*◌, ◌/◌, ◌%◌, ◌^◌, ◌<◌, ◌≤◌, ◌≡◌, refl, sym, ap, ◌∙◌, ◌&&◌, arith, inl, inr,
  Bool-cases, if◌then◌else◌,
}
use core_swag.Constants.{
  Kind, int, int8, int16, int32, int64, uint, uint8, uint16, uint32, uint64, modulus, is_signed,
  num, set, is_negative, extend, Operator, compute, combine, set_to,
}
use Prim.Native.Nat.{◌∣◌}
use native.Mathlib.Nat.{
  mod-mod_of_dvd, dvd_of_mod-eq-zero, mod-add-div, add-mul-mod_self_left, add-mul, mul_assoc,
  mul_comm,
}

pub modulus_dvd : (k : Kind) → modulus k ∣ 2 ^ 64
modulus_dvd int = dvd_of_mod-eq-zero _ refl
modulus_dvd int8 = dvd_of_mod-eq-zero _ refl
modulus_dvd int16 = dvd_of_mod-eq-zero _ refl
modulus_dvd int32 = dvd_of_mod-eq-zero _ refl
modulus_dvd int64 = dvd_of_mod-eq-zero _ refl
modulus_dvd uint = dvd_of_mod-eq-zero _ refl
modulus_dvd uint8 = dvd_of_mod-eq-zero _ refl
modulus_dvd uint16 = dvd_of_mod-eq-zero _ refl
modulus_dvd uint32 = dvd_of_mod-eq-zero _ refl
modulus_dvd uint64 = dvd_of_mod-eq-zero _ refl

-- The sign that is extended is a multiple of the modulus.
pub sign_mod : (k : Kind) (p : ℕ) → (p + (2 ^ 64 - modulus k)) % modulus k ≡ p % modulus k
sign_mod int p = omega arith
sign_mod int8 p = omega arith
sign_mod int16 p = omega arith
sign_mod int32 p = omega arith
sign_mod int64 p = omega arith
sign_mod uint p = omega arith
sign_mod uint8 p = omega arith
sign_mod uint16 p = omega arith
sign_mod uint32 p = omega arith
sign_mod uint64 p = omega arith

pub extend_mod : (k : Kind) (p : ℕ) → extend k p % modulus k ≡ p % modulus k
unfolding extend
extend_mod k p = elim (Bool-cases (is_negative k p)) [
  | inl e ↦ rw e (sign_mod k p)
  | inr e ↦ rw e refl
]

-- An operation on a kind's two values is done on 64 bits, and set.
pub combine-set :
    (op : Operator) (k : Kind) (p q : ℕ)
    → combine op k p k q
      ≡ set_to k (compute (is_signed k && is_signed k) op (extend k p) (extend k q))
unfolding combine
combine-set op int p q = refl
combine-set op int8 p q = refl
combine-set op int16 p q = refl
combine-set op int32 p q = refl
combine-set op int64 p q = refl
combine-set op uint p q = refl
combine-set op uint8 p q = refl
combine-set op uint16 p q = refl
combine-set op uint32 p q = refl
combine-set op uint64 p q = refl

pub set-set : (k : Kind) (a : ℕ) → set k (a % 2 ^ 64) ≡ set k a
set-set k a = ap (num k) (mod-mod_of_dvd _ a (modulus_dvd k))

pub mul-mod_left_factor : (a b m : ℕ) → a * b % m ≡ a % m * b % m
mul-mod_left_factor a b m =
    ap (λ t. t * b % m) (sym (mod-add-div a m))
    ∙ ap (λ t. t % m) (add-mul (a % m) (m * (a / m)) b)
    ∙ ap (λ t. (a % m * b + t) % m) (mul_assoc m (a / m) b)
    ∙ add-mul-mod_self_left (a % m * b) m (a / m * b)

pub mul-mod_factors : (a b m : ℕ) → a * b % m ≡ a % m * (b % m) % m
mul-mod_factors a b m =
    mul-mod_left_factor a b m
    ∙ ap (λ t. t % m) (mul_comm (a % m) b)
    ∙ mul-mod_left_factor b (a % m) m
    ∙ ap (λ t. t % m) (mul_comm (b % m) (a % m))

-- A difference on 64 bits, of patterns with or without the extended sign
pub difference_mod :
    (k : Kind) (p q x y : ℕ)
    → p < modulus k
    → q < modulus k
    → x ≤ 1
    → y ≤ 1
    → (p + x * (2 ^ 64 - modulus k) + 2 ^ 64 - (q + y * (2 ^ 64 - modulus k))) % 2 ^ 64 % modulus k
      ≡ (p + modulus k - q) % modulus k
difference_mod int p q x y hp hq hx hy = omega arith
difference_mod int8 p q x y hp hq hx hy = omega arith
difference_mod int16 p q x y hp hq hx hy = omega arith
difference_mod int32 p q x y hp hq hx hy = omega arith
difference_mod int64 p q x y hp hq hx hy = omega arith
difference_mod uint p q x y hp hq hx hy = omega arith
difference_mod uint8 p q x y hp hq hx hy = omega arith
difference_mod uint16 p q x y hp hq hx hy = omega arith
difference_mod uint32 p q x y hp hq hx hy = omega arith
difference_mod uint64 p q x y hp hq hx hy = omega arith

-- Whether the sign is extended, as a number
unfoldable pub sign : Kind → ℕ → ℕ
sign k p = if is_negative k p then 1 else 0

pub sign-le : (k : Kind) (p : ℕ) → sign k p ≤ 1
unfolding sign
sign-le k p = elim (Bool-cases (is_negative k p)) [
  | inl e ↦ rw e (omega arith)
  | inr e ↦ rw e (omega arith)
]

pub extend-sign : (k : Kind) (p : ℕ) → extend k p ≡ p + sign k p * (2 ^ 64 - modulus k)
unfolding extend sign
extend-sign k p = elim (Bool-cases (is_negative k p)) [
  | inl e ↦ rw e (omega arith)
  | inr e ↦ rw e (omega arith)
]
