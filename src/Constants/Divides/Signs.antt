-- ===== src/Constants/Divides/Signs.antt =====
-- The quotient that is cut towards zero and its remainder, for numbers with a sign that are patterns
-- below an even modulus
use core_swag.Base.{
  ℕ, zero, suc, ◌+◌, ◌-◌, ◌*◌, ◌/◌, ◌%◌, ◌<◌, ◌≤◌, ◌≡◌, ◌⊎◌, refl, sym, ap, ◌∙◌, Bool, true, false,
  leb, arith, inl, inr, if◌then◌else◌,
}
use core_swag.Constants.{bool_xor}
use core_swag.Constants.Wraps.Moduli.{mul-mod_left_factor}
use native.Mathlib.Numerals.{unary_clauses}
use native.Mathlib.Nat.{
  mod-lt, mod-eq_of_lt, add-mul-mod_self_left, mul_comm, add-mod, mod-mod, add-mul, div-le_self,
  mul-add, div-add-mod, mod_self,
}

-- The pattern of a number with this sign and size
abbrev pub cut : ℕ → Bool → ℕ → ℕ
cut m negative a = if negative then (m - a) % m else a

left_mod : (m a q b : ℕ) → (a % m * q + b) % m ≡ (a * q + b) % m
left_mod m a q b =
    add-mod (a % m * q) b m
    ∙ ap (λ t. (t + b % m) % m) (sym (mul-mod_left_factor a q m))
    ∙ sym (add-mod (a * q) b m)

right_mod : (m x b : ℕ) → (x + b % m) % m ≡ (x + b) % m
right_mod m x b =
    add-mod x (b % m) m ∙ ap (λ t. (x % m + t) % m) (mod-mod b m) ∙ sym (add-mod x b m)

-- Numbers that differ by multiples of the modulus
same_mod : (m x y z w : ℕ) → x + m * y ≡ z + m * w → x % m ≡ z % m
same_mod m x y z w e =
    sym (add-mul-mod_self_left x m y) ∙ ap (λ t. t % m) e ∙ add-mul-mod_self_left z m w

times_difference : (m u b : ℕ) → u ≤ m → (m - u) * b + u * b ≡ m * b
times_difference m u b h = sym (add-mul (m - u) u b) ∙ ap (λ t. t * b) (omega arith)

difference_times : (m u b : ℕ) → b ≤ m → u * (m - b) + u * b ≡ m * u
difference_times m u b h = sym (mul-add u (m - b) b) ∙ ap (λ t. u * t) (omega arith) ∙ mul_comm u m

module _ (m a b u v : ℕ) (parts : u * b + v ≡ a) (fits : u ≤ m) (low : a ≤ m) (high : b ≤ m) where
  positive_by_negative : a < m → ((m - u) % m * (m - b) + v) % m ≡ a
  positive_by_negative h =
      left_mod m (m - u) (m - b) v
      ∙ same_mod m ((m - u) * (m - b) + v) u a (m - b) (
          let p = times_difference m u (m - b) fits in
          let q = difference_times m u b high in omega arith)
      ∙ mod-eq_of_lt h

  negative_by_positive : 0 < a → ((m - u) % m * b + (m - v) % m) % m ≡ m - a
  negative_by_positive h =
      right_mod m ((m - u) % m * b) (m - v)
      ∙ left_mod m (m - u) b (m - v)
      ∙ same_mod m ((m - u) * b + (m - v)) 0 (m - a) b
          (let p = times_difference m u b fits in omega arith)
      ∙ mod-eq_of_lt (omega arith)

  negative_by_negative : 0 < a → (u * (m - b) + (m - v) % m) % m ≡ m - a
  negative_by_negative h =
      right_mod m (u * (m - b)) (m - v)
      ∙ same_mod m (u * (m - b) + (m - v)) 0 (m - a) u
          (let q = difference_times m u b high in omega arith)
      ∙ mod-eq_of_lt (omega arith)

-- The cases of the two signs, for a dividend of size a and a divisor of size b
quotient_cases :
    (s t : Bool) (m p q a b u v : ℕ)
    → a ≡ (if s then m - p else p)
    → b ≡ (if t then m - q else q)
    → p < m
    → q < m
    → u * b + v ≡ a
    → u ≤ m
    → (cut m (bool_xor s t) u * q + cut m s v) % m ≡ p
quotient_cases false false m p q a b u v ea eb hp hq parts fits =
    ap (λ t. (u * t + v) % m) (sym eb) ∙ ap (λ t. t % m) (parts ∙ ea) ∙ mod-eq_of_lt hp
quotient_cases false true m p q a b u v ea eb hp hq parts fits =
    ap (λ t. ((m - u) % m * t + v) % m) (omega arith)
    ∙ positive_by_negative m a b u v parts fits (omega arith) (omega arith) (omega arith)
    ∙ ea
quotient_cases true false m p q a b u v ea eb hp hq parts fits =
    ap (λ t. ((m - u) % m * t + (m - v) % m) % m) (omega arith)
    ∙ negative_by_positive m a b u v parts fits (omega arith) (omega arith) (omega arith)
    ∙ omega arith
quotient_cases true true m p q a b u v ea eb hp hq parts fits =
    ap (λ t. (u * t + (m - v) % m) % m) (omega arith)
    ∙ negative_by_negative m a b u v parts fits (omega arith) (omega arith) (omega arith)
    ∙ omega arith

-- A negative remainder
minus_cases : (m v : ℕ) → v < m → ((m - v) % m ≡ 0) × (v ≡ 0) ⊎ ((m - v) % m ≡ m - v) × (0 < v)
minus_cases m zero h = inl (simp unary_clauses (mod_self m), refl)
minus_cases m (suc v) h = inr (mod-eq_of_lt (omega arith), omega arith)

-- The size of the number with this pattern
abbrev pub size : ℕ → ℕ → ℕ → ℕ
size m h p = if leb h p then m - p else p

-- The size of the pattern that has been cut
pub size-cut : (s : Bool) (m h u : ℕ) → m ≡ h + h → 0 < m → u ≤ h → size m h (cut m s u) ≡ u
size-cut false m h u even some_m low = ground arith
size-cut true m h u even some_m low = elim (minus_cases m u (omega arith)) [
  | inl (zero', none') ↦ rw zero' (ground arith)
  | inr (minus, some') ↦ rw minus (ground arith)
]

-- The sign of the remainder, a number below the divisor's size, which is at most half of the modulus
sign_cases :
    (s : Bool) (m h v b : ℕ) → m ≡ h + h → v < b → b ≤ h → (cut m s v ≡ 0) ⊎ (leb h (cut m s v) ≡ s)
sign_cases false m h v b even lt low = inr (ground arith)
sign_cases true m h v b even lt low = elim (minus_cases m v (omega arith)) [
  | inl (zero', none') ↦ inl zero'
  | inr (minus, some') ↦ rw minus (inr (ground arith))
]

abbrev pub whole : ℕ → ℕ → ℕ → ℕ → ℕ
whole m h p q = size m h p / size m h q

abbrev pub left_over : ℕ → ℕ → ℕ → ℕ → ℕ
left_over m h p q = size m h p % size m h q

module _ (m h p q : ℕ) (even : m ≡ h + h) (hp : p < m) (hq : q < m) (some_q : 0 < q) where
  size-positive : 0 < size m h q
  size-positive = ground arith

  pub size-fits : (x : ℕ) → x < m → size m h x ≤ h
  size-fits x hx = ground arith

  pub sizes : (whole m h p q) * size m h q + (left_over m h p q) ≡ size m h p
  sizes =
      ap (λ t. t + (left_over m h p q)) (mul_comm (whole m h p q) (size m h q))
      ∙ div-add-mod (size m h p) (size m h q)

  pub left_over-lt : (left_over m h p q) < size m h q
  left_over-lt = mod-lt (size m h p) size-positive

  pub whole-le : (whole m h p q) ≤ size m h p
  whole-le = div-le_self (size m h p) (size m h q)

  pub quotient_times :
      (cut m (bool_xor (leb h p) (leb h q)) (whole m h p q) * q
          + cut m (leb h p) (left_over m h p q))
        % m
      ≡ p
  quotient_times =
      let fits = size-fits p hp in
      let below = whole-le in
      quotient_cases (leb h p) (leb h q) m p q (size m h p) (size m h q) (whole m h p q)
        (left_over m h p q) refl refl hp hq sizes (omega arith)

  pub remainder_sign :
      (cut m (leb h p) (left_over m h p q) ≡ 0)
      ⊎ (leb h (cut m (leb h p) (left_over m h p q)) ≡ leb h p)
  remainder_sign =
      sign_cases (leb h p) m h (left_over m h p q) (size m h q) even left_over-lt (size-fits q hq)
