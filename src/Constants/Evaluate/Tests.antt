-- ===== src/Constants/Evaluate/Tests.antt =====
-- Constant variables of internal/registry, collected and evaluated
use core_swag.Base.{ℕ, ◌≡◌, refl, List, [], ◌∷◌, map, Option, some, none, arith}
use core_swag.Base.Text.{Text, codes, text_eq, mem}
use core_swag.Constants.{
  num, int, add, quo, evaluate_binary, evaluated_type, operate, combine, compute, extend,
  is_negative,
}
use core_swag.Constants.Expressions.{
  Expr, ident, int_literal, binary, call_of, Held, syntax, known, ConstVariable, Program, State,
  returns, binary_reply,
}
use core_swag.Constants.Collect.{
  variables, add_const, inherit, next_last, collect_from, collect_const_variables, Bare, bare_spec,
  written_out, collect_const_variables-bare,
}
use core_swag.Constants.Evaluate.{
  get_const, set_const, find_const, evaluate_const_value_helper, finish, evaluate_held,
  evaluate_checked, evaluate_found, evaluate_const_value, evaluate_all_const_variables,
}
use core_swag.Constants.Evaluate.Fuel.{evaluate_const_value-total}

abbrev program : Program
program = record {
  encode = λ r. r ∷ [];
  checked = λ path name. none;
  imports = λ name file. [];
  find_type_spec = λ name file. some name;
}

abbrev bare : Text → ℕ → Bare
bare name iota = record { name = name; iota = iota; comments = []; doc = [] }

-- const ( Red Color = iota + 1; Green; Blue )
abbrev red : Expr
red = binary add (ident (codes "iota")) (int_literal 1)

abbrev colors : List ConstVariable
colors = collect_const_variables (codes "app") 0 (
    map (written_out (some (codes "Color")) red)
      (bare (codes "Red") 0 ∷ bare (codes "Green") 1 ∷ []))

abbrev values : List ConstVariable → List Held
values [] = []
values (c ∷ cs) = c.value ∷ values cs

evaluated :
    values (evaluate_all_const_variables program (0 ∷ 1 ∷ []) colors)
    ≡ known (num int 1) ∷ known (num int 2) ∷ []
unfolding collect_const_variables collect_from add_const variables inherit next_last
    evaluate_all_const_variables evaluate_const_value evaluate_found evaluate_checked evaluate_held
    finish get_const set_const evaluate_const_value_helper find_const text_eq mem binary_reply
    evaluate_binary evaluated_type operate combine compute extend is_negative
evaluated = refl

constant : Text → Expr → ConstVariable
constant name e = record {
  name = name;
  pkg_path = codes "app";
  file = 0;
  iota = 0;
  type = none;
  value = syntax e;
  comment = [];
}

-- Constants that refer to each other stay what they are, and a division by zero does too.
abbrev knot : List ConstVariable
knot =
    constant (codes "A") (ident (codes "B"))
    ∷ constant (codes "B") (binary add (ident (codes "A")) (int_literal 1))
    ∷ constant (codes "C") (binary quo (int_literal 1) (int_literal 0))
    ∷ []

untied : values (evaluate_all_const_variables program (0 ∷ 1 ∷ 2 ∷ []) knot) ≡ values knot
unfolding collect_const_variables collect_from add_const variables inherit next_last
    evaluate_all_const_variables evaluate_const_value evaluate_found evaluate_checked evaluate_held
    finish get_const set_const evaluate_const_value_helper find_const text_eq mem binary_reply
    evaluate_binary evaluated_type operate combine compute extend is_negative constant
untied = refl

-- The argument of a conversion to a type of another package is not evaluated.
unevaluated :
    values (
      evaluate_all_const_variables program
        (0 ∷ [])
        (constant (codes "D") (call_of (codes "pkg") (codes "Color") (int_literal 1)) ∷ []))
    ≡ syntax (int_literal 1) ∷ []
unfolding collect_const_variables collect_from add_const variables inherit next_last
    evaluate_all_const_variables evaluate_const_value evaluate_found evaluate_checked evaluate_held
    finish get_const set_const evaluate_const_value_helper find_const text_eq mem binary_reply
    evaluate_binary evaluated_type operate combine compute extend is_negative constant
unevaluated = refl

abbrev start : State
start = record { consts = knot; stack = [] }

evaluate_const_value-total_example :
    (v : Option Held) × (t : Option Text) × ((evaluate_const_value program 4 0 start).1
      ≡ some (returns v t))
evaluate_const_value-total_example = evaluate_const_value-total program 4 0 start (omega arith)

collect_const_variables-bare_example :
    collect_const_variables (codes "app") 0 (
      written_out (some (codes "Color")) red (bare (codes "Red") 0)
      ∷ map bare_spec (bare (codes "Green") 1 ∷ []))
    ≡ colors
collect_const_variables-bare_example =
    collect_const_variables-bare (codes "app") 0 (bare (codes "Red") 0) (some (codes "Color")) red
      (bare (codes "Green") 1 ∷ [])
