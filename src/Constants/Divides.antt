-- ===== src/Constants/Divides.antt =====
-- The division of EvaluateBinary of internal/domain/types.go: a quotient that is cut towards zero,
-- and its remainder
pub mod Signs
pub mod Extends
use core_swag.Base.{
  ℕ, zero, suc, ◌+◌, ◌-◌, ◌*◌, ◌/◌, ◌%◌, ◌^◌, ◌<◌, ◌≤◌, ◌≡◌, ◌⊎◌, refl, sym, subst, ap, ◌∙◌, Bool,
  true, false, ◌&&◌, leb, ◌==◌, arith, inl, inr, Bool-cases, if◌then◌else◌, some,
}
use core_swag.Constants.{
  Kind, int, int8, int16, int32, int64, uint, uint8, uint16, uint32, uint64, modulus, is_signed,
  num, set, is_negative, extend, quo, rem, magnitude, signed, is_minus, bool_xor, quotient,
  remainder, compute, value, panics, set_to, operate, evaluate_binary,
}
use native.Mathlib.Nat.{
  mod-mod_of_dvd, mod-eq_of_lt, div-le_self, mod-le, mod-lt, div-add-mod, mul_comm,
}
use core_swag.Constants.Wraps.Moduli.{modulus_dvd, combine-set}
use core_swag.Constants.Divides.Extends.{
  half, halves, signed-cut, extend-zero, extend_of_zero, extend-unsigned, magnitude-extend,
  is_minus-extend,
}
use core_swag.Constants.Divides.Signs.{
  cut, size, whole, left_over, size-cut, size-fits, sizes, left_over-lt, whole-le, quotient_times,
  remainder_sign,
}

abbrev pub is_below_zero : Kind → ℕ → Bool
is_below_zero k p = is_signed k && leb (half k) p

-- The absolute value of the integer
abbrev pub size_of : Kind → ℕ → ℕ
size_of k p = if is_below_zero k p then modulus k - p else p

-- What a quotient and a remainder are for their operands
pub record IsDivision (k : Kind) (p q a b : ℕ) : Type 0 where
  pub gives_quotient : evaluate_binary (num k p) (num k q) quo ≡ value (num k a)
  pub gives_remainder : evaluate_binary (num k p) (num k q) rem ≡ value (num k b)
  pub is_whole : (a * q + b) % modulus k ≡ p
  pub has_sizes : size_of k a * size_of k q + size_of k b ≡ size_of k p
  pub is_smaller : size_of k b < size_of k q
  pub has_sign : (b ≡ 0) ⊎ (is_below_zero k b ≡ is_below_zero k p)

module _ (k : Kind) (p : ℕ) where
  divide-panics : evaluate_binary (num k p) (num k 0) quo ≡ panics
  unfolding evaluate_binary operate compute
  divide-panics = combine-set quo k p 0 ∙ rw (extend_of_zero k) refl

  rest-panics : evaluate_binary (num k p) (num k 0) rem ≡ panics
  unfolding evaluate_binary operate compute
  rest-panics = combine-set rem k p 0 ∙ rw (extend_of_zero k) refl

module _ (k : Kind) (p q : ℕ) (hp : p < modulus k) (hq : q < modulus k) (some_q : 0 < q) where
  divide :
      evaluate_binary (num k p) (num k q) quo
      ≡ value (set k (quotient (is_signed k && is_signed k) (extend k p) (extend k q)))
  unfolding evaluate_binary operate compute
  divide = combine-set quo k p q ∙ rw (extend-zero k q some_q) refl

  divide_rest :
      evaluate_binary (num k p) (num k q) rem
      ≡ value (set k (remainder (is_signed k && is_signed k) (extend k p) (extend k q)))
  unfolding evaluate_binary operate compute
  divide_rest = combine-set rem k p q ∙ rw (extend-zero k q some_q) refl

  module _ (e : is_signed k ≡ false) where
    unsigned_size : (x : ℕ) → size_of k x ≡ x
    unfolding is_negative
    unsigned_size x = rw e refl

    unsigned_parts : p / q * q + p % q ≡ p
    unsigned_parts = ap (λ t. t + p % q) (mul_comm (p / q) q) ∙ div-add-mod p q

    unsigned-quotient :
        set k (quotient (is_signed k && is_signed k) (extend k p) (extend k q)) ≡ num k (p / q)
    unfolding quotient
    unsigned-quotient =
        let small = div-le_self p q in
        rw (e, extend-unsigned k p hp e, extend-unsigned k q hq e)
          (ap (num k) (mod-eq_of_lt (omega arith)))

    unsigned-remainder :
        set k (remainder (is_signed k && is_signed k) (extend k p) (extend k q)) ≡ num k (p % q)
    unfolding remainder
    unsigned-remainder =
        let small = mod-le p q in
        rw (e, extend-unsigned k p hp e, extend-unsigned k q hq e)
          (ap (num k) (mod-eq_of_lt (omega arith)))

    unsigned-IsDivision : IsDivision k p q (p / q) (p % q)
    unfolding is_negative
    unsigned-IsDivision = record {
      gives_quotient = divide ∙ ap value unsigned-quotient;
      gives_remainder = divide_rest ∙ ap value unsigned-remainder;
      is_whole = ap (λ t. t % modulus k) unsigned_parts ∙ mod-eq_of_lt hp;
      has_sizes = rw e unsigned_parts;
      is_smaller = rw e (mod-lt p some_q);
      has_sign = inr (rw e refl);
    }

  module _ (e : is_signed k ≡ true) where
    abbrev top : ℕ
    top = whole (modulus k) (half k) p q

    abbrev rest : ℕ
    rest = left_over (modulus k) (half k) p q

    abbrev signed_quotient : ℕ
    signed_quotient = cut (modulus k) (bool_xor (leb (half k) p) (leb (half k) q)) top

    abbrev signed_remainder : ℕ
    signed_remainder = cut (modulus k) (leb (half k) p) rest

    signed_size : (x : ℕ) → size_of k x ≡ size (modulus k) (half k) x
    unfolding is_negative
    signed_size x = rw e refl

    top-le : top ≤ half k
    top-le =
        let fits = size-fits (modulus k) (half k) p q (halves k) hp hq some_q p hp in
        let low = whole-le (modulus k) (half k) p q (halves k) hp hq some_q in omega arith

    rest-lt : rest < size (modulus k) (half k) q
    rest-lt = left_over-lt (modulus k) (half k) p q (halves k) hp hq some_q

    rest-le : rest ≤ half k
    rest-le =
        let fits = size-fits (modulus k) (half k) p q (halves k) hp hq some_q q hq in
        let low = rest-lt in omega arith

    signed-quotient :
        set k (quotient (is_signed k && is_signed k) (extend k p) (extend k q))
        ≡ num k signed_quotient
    unfolding quotient
    signed-quotient =
        let x = extend k p in
        let y = extend k q in
        ap (λ s. set k (quotient (s && s) x y)) e
        ∙ ap (λ s. set k (signed (bool_xor s (is_minus y)) (magnitude x / magnitude y)))
            (is_minus-extend k p hp e)
        ∙ ap (λ s. set k (signed (bool_xor (leb (half k) p) s) (magnitude x / magnitude y)))
            (is_minus-extend k q hq e)
        ∙ ap (λ a. set k (signed (bool_xor (leb (half k) p) (leb (half k) q)) (a / magnitude y)))
            (magnitude-extend k p hp e)
        ∙ ap
            (λ a. set k (
              signed (bool_xor (leb (half k) p) (leb (half k) q))
                (size (modulus k) (half k) p / a)))
            (magnitude-extend k q hq e)
        ∙ ap (num k) (signed-cut k (bool_xor (leb (half k) p) (leb (half k) q)) top top-le)

    signed-remainder :
        set k (remainder (is_signed k && is_signed k) (extend k p) (extend k q))
        ≡ num k signed_remainder
    unfolding remainder
    signed-remainder =
        let x = extend k p in
        let y = extend k q in
        ap (λ s. set k (remainder (s && s) x y)) e
        ∙ ap (λ s. set k (signed s (magnitude x % magnitude y))) (is_minus-extend k p hp e)
        ∙ ap (λ a. set k (signed (leb (half k) p) (a % magnitude y))) (magnitude-extend k p hp e)
        ∙ ap (λ a. set k (signed (leb (half k) p) (size (modulus k) (half k) p % a)))
            (magnitude-extend k q hq e)
        ∙ ap (num k) (signed-cut k (leb (half k) p) rest rest-le)

    cut_size : (s : Bool) (u : ℕ) → u ≤ half k → size_of k (cut (modulus k) s u) ≡ u
    cut_size s u low =
        signed_size (cut (modulus k) s u)
        ∙ size-cut s (modulus k) (half k) u (halves k) (omega arith) low

    signed_negative : (x : ℕ) → is_below_zero k x ≡ leb (half k) x
    unfolding is_negative
    signed_negative x = rw e refl

    smaller_size : size_of k signed_remainder < size_of k q
    smaller_size =
        subst (λ t. size_of k signed_remainder < t) (sym (signed_size q))
          (subst (λ t. t < size (modulus k) (half k) q)
            (sym (cut_size (leb (half k) p) rest rest-le)) rest-lt)

    all_sizes : size_of k signed_quotient * size_of k q + size_of k signed_remainder ≡ size_of k p
    all_sizes =
        ap (λ t. t * size_of k q + size_of k signed_remainder)
          (cut_size (bool_xor (leb (half k) p) (leb (half k) q)) top top-le)
        ∙ ap (λ t. top * t + size_of k signed_remainder) (signed_size q)
        ∙ ap (λ t. top * size (modulus k) (half k) q + t) (cut_size (leb (half k) p) rest rest-le)
        ∙ sizes (modulus k) (half k) p q (halves k) hp hq some_q
        ∙ sym (signed_size p)

    signed-IsDivision : IsDivision k p q signed_quotient signed_remainder
    signed-IsDivision = record {
      gives_quotient = divide ∙ ap value signed-quotient;
      gives_remainder = divide_rest ∙ ap value signed-remainder;
      is_whole = quotient_times (modulus k) (half k) p q (halves k) hp hq some_q;
      has_sizes = all_sizes;
      is_smaller = smaller_size;
      has_sign = elim (remainder_sign (modulus k) (half k) p q (halves k) hp hq some_q) [
        | inl none' ↦ inl none'
        | inr same ↦ inr (signed_negative signed_remainder ∙ same ∙ sym (signed_negative p))
      ];
    }

-- Of two integers of one type, by zero / and % panic. Else they give integers of that type: the quotient
-- times the divisor and the remainder are the dividend modulo the modulus, and so they are exactly
-- in absolute values, where the remainder is smaller than the divisor; and the remainder is zero or
-- has the sign of the dividend.
pub evaluate_binary-divides :
    (k : Kind) (p q : ℕ)
    → p < modulus k
    → q < modulus k
    → ((q ≡ 0)
        × (evaluate_binary (num k p) (num k q) quo ≡ panics)
        × (evaluate_binary (num k p) (num k q) rem ≡ panics))
      ⊎ ((a : ℕ) × (b : ℕ) × IsDivision k p q a b)
evaluate_binary-divides k p zero hp hq = inl (refl, divide-panics k p, rest-panics k p)
evaluate_binary-divides k p (suc q) hp hq = inr (elim (Bool-cases (is_signed k)) [
  | inl e ↦ (
    signed_quotient k p (suc q) hp hq (omega arith) e,
    signed_remainder k p (suc q) hp hq (omega arith) e,
    signed-IsDivision k p (suc q) hp hq (omega arith) e,
  )
  | inr e ↦ (p / suc q, p % suc q, unsigned-IsDivision k p (suc q) hp hq (omega arith) e)
])
