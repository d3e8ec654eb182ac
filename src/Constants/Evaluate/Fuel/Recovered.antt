-- ===== src/Constants/Evaluate/Fuel/Recovered.antt =====
-- EvaluateConstValue of internal/registry/enums.go: a panic is recovered.
use core_swag.Base.{ℕ, ◌≡◌, refl, Bool, true, false, Option, none, some, inl, inr, Bool-cases}
use core_swag.Base.Text.{mem}
use core_swag.Constants.{Value}
use core_swag.Constants.Expressions.{
  Held, syntax, known, ConstVariable, Program, State, Reply, returns, panicked, Step,
  full_type_name,
}
use core_swag.Constants.Evaluate.{finish, evaluate_held, evaluate_checked, evaluate_found}

-- A panic does not get out of `EvaluateConstValue`.
abbrev pub is_recovered : Option Reply → Bool
is_recovered none = true
is_recovered (some (returns v t)) = true
is_recovered (some panicked) = false

pub finish-recovered : (i : ℕ) (step : Step) → is_recovered ((finish i step).1) ≡ true
unfolding finish
finish-recovered i (t, some (returns v u)) = refl
finish-recovered i (t, some panicked) = refl
finish-recovered i (t, none) = refl

pub evaluate_held-recovered :
    (program : Program) (evaluate : ℕ → State → Step) (i : ℕ) (c : ConstVariable) (h : Held)
    (s : State)
    → is_recovered ((evaluate_held program evaluate i c h s).1) ≡ true
unfolding evaluate_held
evaluate_held-recovered program evaluate i c (known v) s = refl
evaluate_held-recovered program evaluate i c (syntax e) s =
    elim (Bool-cases (mem (full_type_name c.pkg_path c.name) s.stack)) [
      | inl old ↦ rw old refl
      | inr new ↦ rw new (finish-recovered i _)
    ]

pub evaluate_checked-recovered :
    (program : Program) (evaluate : ℕ → State → Step) (i : ℕ) (c : ConstVariable) (o : Option Value)
    (s : State)
    → is_recovered ((evaluate_checked program evaluate i c o s).1) ≡ true
unfolding evaluate_checked
evaluate_checked-recovered program evaluate i c none s =
    evaluate_held-recovered program evaluate i c c.value s
evaluate_checked-recovered program evaluate i c (some v) s = refl

pub evaluate_found-recovered :
    (program : Program) (evaluate : ℕ → State → Step) (i : ℕ) (o : Option ConstVariable) (s : State)
    → is_recovered ((evaluate_found program evaluate i o s).1) ≡ true
unfolding evaluate_found
evaluate_found-recovered program evaluate i none s = refl
evaluate_found-recovered program evaluate i (some c) s =
    evaluate_checked-recovered program evaluate i c (program.checked c.pkg_path c.name) s
