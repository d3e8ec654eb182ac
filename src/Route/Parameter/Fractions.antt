-- ===== src/Route/Parameter/Fractions.antt =====
-- Numbers with a fraction in the attributes of a parameter.
use core_swag.Base.{ℕ, ◌≡◌, refl, ap, ◌∙◌, Bool, [], ◌∷◌, ◌++◌, Option, none, some, arith}
use core_swag.Base.Text.{Text, is_space}
use core_swag.Spec.{number}
use core_swag.Route.Parameter.{
  Numbers, digit_onto, skip_space, leading_digits, signed, scan_signed, scan_int, enum_value,
  default_value,
}

leading_digits-fraction :
    (n : Option ℕ) (t rest : Text) → leading_digits n (t ++ b'.' ∷ rest) ≡ leading_digits n t
unfolding leading_digits
leading_digits-fraction n [] rest = refl
leading_digits-fraction n (c ∷ t) rest =
    ground (arith, leading_digits-fraction (some (digit_onto n c)) t rest)

scan_signed-fraction : (t rest : Text) → scan_signed (t ++ b'.' ∷ rest) ≡ scan_signed t
unfolding scan_signed
scan_signed-fraction [] rest = unfold leading_digits signed in refl
scan_signed-fraction (c ∷ t) rest =
    rw (leading_digits-fraction none t rest, leading_digits-fraction none (c ∷ t) rest) refl

skip_space-fraction : (t rest : Text) → skip_space (t ++ b'.' ∷ rest) ≡ skip_space t ++ b'.' ∷ rest
unfolding skip_space is_space
skip_space-fraction [] rest = refl
skip_space-fraction (c ∷ t) rest = ground (arith, skip_space-fraction t rest)

scan_int-fraction : (t rest : Text) → scan_int (t ++ b'.' ∷ rest) ≡ scan_int t
unfolding scan_int
scan_int-fraction t rest =
    ap scan_signed (skip_space-fraction t rest) ∙ scan_signed-fraction (skip_space t) rest

-- The fraction of a number is lost in an enumeration and in a default: where an integer stands before
-- a point, `Enums` and `Default` take the integer, whatever follows the point and whatever number
-- the text would scan to as a floating-point number.
pub default_value-fraction :
    (nums : Numbers) (t rest : Text) (negative : Bool) (n : ℕ)
    → scan_int t ≡ some (negative, n)
    → (enum_value nums (t ++ b'.' ∷ rest) ≡ number (nums.float_of negative n))
      × (default_value nums (t ++ b'.' ∷ rest) ≡ number (nums.float_of negative n))
default_value-fraction nums t rest negative n h =
    let e : scan_int (t ++ b'.' ∷ rest) ≡ some (negative, n) = scan_int-fraction t rest ∙ h in
    (
      unfold enum_value in rw (e, enum_value) refl,
      unfold default_value in rw (e, default_value) refl,
    )
