-- ===== src/Constants/Wraps.antt =====
-- EvaluateDataConversion, EvaluateUnary and EvaluateBinary of internal/domain/types.go: integers of one
-- type wrap around in the width of the type, as the language says, and conversions are undone.
pub mod Moduli
use core_swag.Base.{
  ℕ, zero, suc, ◌+◌, ◌-◌, ◌*◌, ◌/◌, ◌%◌, ◌^◌, ◌<◌, ◌≤◌, ◌≡◌, refl, sym, subst, ap, ◌∙◌, Bool, true,
  false, ◌&&◌, none, some, arith, inl, inr, Bool-cases, if◌then◌else◌,
}
use core_swag.Base.Text.{Text, codes, text_eq}
use core_swag.Base.Maps.{get_key}
use core_swag.Constants.{
  Kind, int, int8, int16, int32, int64, uint, uint8, uint16, uint32, uint64, width, modulus,
  is_signed, Value, num, set, is_negative, extend, conversions, convert_to, convert_number,
  evaluate_data_conversion, Operator, add, sub, mul, evaluate_unary, value, compute, combine,
  set_to, operate, evaluate_binary,
}
use Prim.Native.Nat.{◌∣◌}
use mathlib.Core.Option.{some-injective}
use native.Mathlib.Nat.{
  mod-mod_of_dvd, dvd_of_mod-eq-zero, dvd_refl, dvd-mul_right_of_dvd, pow-suc, add-zero, add-suc,
  add-mod-mod, mod-eq_of_lt, mod-add-div, add-mul-mod_self_left, add-mul, mul_assoc, mul_comm,
  mod-mod, add-mod,
}
use core_swag.Constants.Wraps.Moduli.{
  modulus_dvd, sign_mod, extend_mod, combine-set, set-set, mul-mod_left_factor, mul-mod_factors,
  difference_mod, sign, sign-le, extend-sign,
}

pub evaluate_binary-add :
    (k : Kind) (p q : ℕ)
    → evaluate_binary (num k p) (num k q) add ≡ value (num k ((p + q) % modulus k))
unfolding evaluate_binary operate compute
evaluate_binary-add k p q =
    combine-set add k p q
    ∙ ap value (set-set k (extend k p + extend k q))
    ∙ ap (λ t. value (num k t))
        (add-mod (extend k p) (extend k q) (modulus k)
          ∙ ap (λ t. (t + extend k q % modulus k) % modulus k) (extend_mod k p)
          ∙ ap (λ t. (p % modulus k + t) % modulus k) (extend_mod k q)
          ∙ sym (add-mod p q (modulus k)))

pub evaluate_binary-mul :
    (k : Kind) (p q : ℕ)
    → evaluate_binary (num k p) (num k q) mul ≡ value (num k (p * q % modulus k))
unfolding evaluate_binary operate compute
evaluate_binary-mul k p q =
    combine-set mul k p q
    ∙ ap value (set-set k (extend k p * extend k q))
    ∙ ap (λ t. value (num k t))
        (mul-mod_factors (extend k p) (extend k q) (modulus k)
          ∙ ap (λ t. t * (extend k q % modulus k) % modulus k) (extend_mod k p)
          ∙ ap (λ t. p % modulus k * t % modulus k) (extend_mod k q)
          ∙ sym (mul-mod_factors p q (modulus k)))

pub evaluate_binary-sub :
    (k : Kind) (p q : ℕ)
    → p < modulus k
    → q < modulus k
    → evaluate_binary (num k p) (num k q) sub ≡ value (num k ((p + modulus k - q) % modulus k))
unfolding evaluate_binary operate compute
evaluate_binary-sub k p q hp hq =
    combine-set sub k p q
    ∙ ap (λ t. value (set k ((t + 2 ^ 64 - extend k q) % 2 ^ 64))) (extend-sign k p)
    ∙ ap (λ t. value (set k ((p + sign k p * (2 ^ 64 - modulus k) + 2 ^ 64 - t) % 2 ^ 64)))
        (extend-sign k q)
    ∙ ap (λ t. value (num k t))
        (difference_mod k p q (sign k p) (sign k q) hp hq (sign-le k p) (sign-le k q))

-- For two patterns p and q below the modulus of one integer type: the sum, the difference and the
-- product that EvaluateBinary gives have that type, and are p + q, p - q and p * q modulo its modulus.
pub evaluate_binary-wraps :
    (k : Kind) (p q : ℕ)
    → p < modulus k
    → q < modulus k
    → (evaluate_binary (num k p) (num k q) add ≡ value (num k ((p + q) % modulus k)))
      × (evaluate_binary (num k p) (num k q) sub ≡ value (num k ((p + modulus k - q) % modulus k)))
      × (evaluate_binary (num k p) (num k q) mul ≡ value (num k (p * q % modulus k)))
evaluate_binary-wraps k p q hp hq =
    (evaluate_binary-add k p q, evaluate_binary-sub k p q hp hq, evaluate_binary-mul k p q)

unfoldable pub name_of : Kind → Text
name_of int = codes "int"
name_of int8 = codes "int8"
name_of int16 = codes "int16"
name_of int32 = codes "int32"
name_of int64 = codes "int64"
name_of uint = codes "uint"
name_of uint8 = codes "uint8"
name_of uint16 = codes "uint16"
name_of uint32 = codes "uint32"
name_of uint64 = codes "uint64"

get_key-name_of : (k : Kind) → get_key (name_of k) conversions ≡ some k
unfolding name_of get_key text_eq
get_key-name_of int = refl
get_key-name_of int8 = refl
get_key-name_of int16 = refl
get_key-name_of int32 = refl
get_key-name_of int64 = refl
get_key-name_of uint = refl
get_key-name_of uint8 = refl
get_key-name_of uint16 = refl
get_key-name_of uint32 = refl
get_key-name_of uint64 = refl

evaluate_data_conversion-set :
    (encode : ℕ → Text) (k j : Kind) (p : ℕ)
    → evaluate_data_conversion encode (num k p) (name_of j) ≡ some (set j (extend k p))
unfolding evaluate_data_conversion convert_number convert_to
evaluate_data_conversion-set encode k j p =
    ap (convert_to encode k p (name_of j)) (get_key-name_of j)

pub power-dvd : (m d : ℕ) → 2 ^ m ∣ 2 ^ (m + d)
power-dvd m zero = rw (add-zero m) (dvd_refl (2 ^ m))
power-dvd m (suc d) = rw (add-suc m d, pow-suc 2 (m + d)) (dvd-mul_right_of_dvd _ (power-dvd m d) 2)

pub modulus-width : (k : Kind) → modulus k ≡ 2 ^ width k
modulus-width int = refl
modulus-width int8 = refl
modulus-width int16 = refl
modulus-width int32 = refl
modulus-width int64 = refl
modulus-width uint = refl
modulus-width uint8 = refl
modulus-width uint16 = refl
modulus-width uint32 = refl
modulus-width uint64 = refl

wider-dvd : (k j : Kind) → width k ≤ width j → modulus k ∣ modulus j
wider-dvd k j h =
    rw (modulus-width k, modulus-width j)
      (subst (λ w. 2 ^ width k ∣ 2 ^ w) (omega arith) (power-dvd (width k) (width j - width k)))

wider_back :
    (k j : Kind) (p : ℕ)
    → width k ≤ width j
    → p < modulus k
    → extend j (extend k p % modulus j) % modulus k ≡ p
wider_back k j p wide h =
    sym (mod-mod_of_dvd _ (extend j (extend k p % modulus j)) (wider-dvd k j wide))
    ∙ ap (λ t. t % modulus k)
        (extend_mod j (extend k p % modulus j) ∙ mod-mod (extend k p) (modulus j))
    ∙ mod-mod_of_dvd _ (extend k p) (wider-dvd k j wide)
    ∙ extend_mod k p
    ∙ mod-eq_of_lt h

-- The conversion of an integer to an integer type that is at least as wide gives its pattern with the
-- sign extended, cut to that width; and the conversion of this value to the first type gives the
-- first integer.
pub convert_back :
    (encode : ℕ → Text) (k j : Kind) (p : ℕ)
    → width k ≤ width j
    → p < modulus k
    → evaluate_data_conversion encode (num k p) (name_of j) ≡ some (num j (extend k p % modulus j))
      × (evaluate_data_conversion encode (num j (extend k p % modulus j)) (name_of k)
          ≡ some (num k p))
convert_back encode k j p wide h = (
  evaluate_data_conversion-set encode k j p,
  evaluate_data_conversion-set encode j k (extend k p % modulus j)
      ∙ ap (λ t. some (num k t)) (wider_back k j p wide h),
)

-- A difference, as a sum
negate_mod :
    (k : Kind) (p q : ℕ)
    → q < modulus k
    → (p + modulus k - q) % modulus k ≡ (p + (modulus k - q) % modulus k) % modulus k
negate_mod k p q h =
    ap (λ t. t % modulus k) (omega arith) ∙ sym (add-mod-mod p (modulus k - q) (modulus k))

if-some : (b : Bool) (a v : Value) → (if b then some a else none) ≡ some v → a ≡ v
if-some true a v e = some-injective a v e
if-some false a v e = cc

-- Where an integer has a negation, to subtract it is to add the negation.
pub evaluate_unary-sub :
    (k : Kind) (p q : ℕ) (v : Value)
    → p < modulus k
    → q < modulus k
    → evaluate_unary (num k q) sub ≡ some v
    → evaluate_binary (num k p) (num k q) sub ≡ evaluate_binary (num k p) v add
unfolding evaluate_unary
evaluate_unary-sub k p q v hp hq e =
    evaluate_binary-sub k p q hp hq
    ∙ ap (λ t. value (num k t)) (negate_mod k p q hq)
    ∙ sym (evaluate_binary-add k p ((modulus k - q) % modulus k))
    ∙ ap (λ w. evaluate_binary (num k p) w add) (if-some (is_signed k) (set k (modulus k - q)) v e)
