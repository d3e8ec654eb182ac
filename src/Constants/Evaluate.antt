-- ===== src/Constants/Evaluate.antt =====
-- The evaluation of constant variables: EvaluateConstValue and evaluateAllConstVariables of
-- internal/registry/enums.go, and evaluateConstValueHelper of constevaluator.go
pub mod Fuel
pub mod Tests
use core_swag.Base.{
  ℕ, zero, suc, ◌+◌, ◌-◌, ◌*◌, ◌%◌, ◌^◌, ◌≡◌, refl, Bool, true, false, ◌&&◌, List, [], ◌∷◌, ◌++◌,
  Option, none, some, length, ltb, ◌==◌, if◌then◌else◌,
}
use core_swag.Base.Text.{Text, codes, text_eq, mem}
use core_swag.TypeRegistry.{is_golang_primitive_type}
use core_swag.Constants.{
  Value, num, str, int, int32, uint64, Operator, shl, shr, Outcome, value, nothing, panics, is_int,
  zero_of, evaluate_data_conversion, evaluate_unary, evaluate_binary, evaluated_type, shift_left,
  shift_right,
}
use core_swag.Constants.Escapes.{Bytes, evaluate_escaped_char, evaluate_escaped_string}
use core_swag.Constants.Expressions.{
  Expr, Held, ConstVariable, Program, State, Reply, Step, reply, nil, after, known_reply,
  string_reply, int_reply, unary_reply, outcome_reply, null_of, zero_held, mixed_reply,
  binary_reply, conversion_reply, length_reply, found_reply, call_reply, full_type_name,
  call_of_reply, ident, selector, int_literal, raw_string, quoted_string, char_literal, unary,
  binary, paren, call, call_of, call_of_other, null_pointer, other_expr, syntax, known, returns,
  panicked,
}

unfoldable pub get_const : List ConstVariable → ℕ → Option ConstVariable
get_const [] i = none
get_const (c ∷ cs) zero = some c
get_const (c ∷ cs) (suc i) = get_const cs i

abbrev pub is_named : Text → Text → ConstVariable → Bool
is_named path name c = text_eq c.pkg_path path && text_eq c.name name

-- `ConstTable[name]` of the package at the path: the last variable of the name, by its position
unfoldable pub find_const : Text → Text → ℕ → List ConstVariable → Option ℕ
find_const path name i [] = none
find_const path name i (c ∷ cs) =
    let rest = find_const path name (suc i) cs in
    elim rest [ some j ↦ some j | none ↦ if is_named path name c then some i else none ]

-- The first of the packages that has a constant of the name
unfoldable pub find_const_in : List Text → Text → List ConstVariable → Option ℕ
unfolding find_const
find_const_in [] name cs = none
find_const_in (path ∷ paths) name cs =
    let rest = find_const_in paths name cs in
    elim (find_const path name 0 cs) [ some i ↦ some i | none ↦ rest ]

abbrev pub reply_at : (ℕ → State → Step) → Option ℕ → State → Step
reply_at evaluate none s = reply s nil
reply_at evaluate (some i) s = evaluate i s

-- `evaluateConstValueHelper`, for a constant of this package, file and iota; `evaluate` is
-- `EvaluateConstValue` of the constant at a position.
unfoldable pub evaluate_const_value_helper :
    Program → (ℕ → State → Step) → ConstVariable → Expr → State → Step
unfolding find_const find_const_in unary_reply binary_reply call_reply
evaluate_const_value_helper program evaluate c (ident name) s =
    if text_eq name (codes "iota")
    then reply s (returns (some (known (num int c.iota))) none)
    else reply_at evaluate (find_const c.pkg_path name 0 s.consts) s
evaluate_const_value_helper program evaluate c (selector pkg name) s =
    reply_at evaluate (find_const_in (program.imports pkg c.file) name s.consts) s
evaluate_const_value_helper program evaluate c (int_literal n) s = reply s (int_reply n)
evaluate_const_value_helper program evaluate c (raw_string t) s = reply s (string_reply (some t))
evaluate_const_value_helper program evaluate c (quoted_string t) s =
    reply s (string_reply (evaluate_escaped_string t))
evaluate_const_value_helper program evaluate c (char_literal t) s =
    reply s (returns (some (known (num int32 (evaluate_escaped_char t % 2 ^ 32)))) none)
evaluate_const_value_helper program evaluate c (unary op e) s =
    after (evaluate_const_value_helper program evaluate c e s)
      (λ s' v t. reply s' (unary_reply op v t))
evaluate_const_value_helper program evaluate c (binary op e f) s =
    after (evaluate_const_value_helper program evaluate c e s) (λ s' x t.
      after (evaluate_const_value_helper program evaluate c f s')
        (λ s'' y u. reply s'' (binary_reply op x y t u)))
evaluate_const_value_helper program evaluate c (paren e) s =
    evaluate_const_value_helper program evaluate c e s
evaluate_const_value_helper program evaluate c (call function e) s =
    after (evaluate_const_value_helper program evaluate c e s)
      (λ s' v t. reply s' (call_reply program c.file function v))
evaluate_const_value_helper program evaluate c (call_of pkg name e) s =
    reply s (call_of_reply (program.find_type_spec (full_type_name pkg name) c.file) e)
evaluate_const_value_helper program evaluate c (call_of_other e) s = reply s panicked
evaluate_const_value_helper program evaluate c null_pointer s = reply s panicked
evaluate_const_value_helper program evaluate c other_expr s = reply s nil

abbrev pub or_type : Option Text → Option Text → Option Text
or_type none t = t
or_type (some t) u = some t

abbrev pub or_held : Option Held → Held → Held
or_held none h = h
or_held (some v) h = v

-- What is set in a constant: its type, where it has none, and its value, where there is one
abbrev pub settle : Option Held → Option Text → ConstVariable → ConstVariable
settle v t c = record c { type = or_type c.type t; value = or_held v c.value }

unfoldable pub set_const :
    ℕ → (ConstVariable → ConstVariable) → List ConstVariable → List ConstVariable
set_const i f [] = []
set_const zero f (c ∷ cs) = f c ∷ cs
set_const (suc i) f (c ∷ cs) = c ∷ set_const i f cs

abbrev pub type_at : List ConstVariable → ℕ → Option Text
type_at cs i = elim (get_const cs i) [ none ↦ none | some c ↦ c.type ]

-- The end of `EvaluateConstValue`: a panic is recovered, and nil returned.
unfoldable pub finish : ℕ → Step → Step
unfolding set_const get_const
finish i (s, some (returns v t)) =
    let cs = set_const i (settle v t) s.consts in
    reply (record s { consts = cs }) (returns v (type_at cs i))
finish i (s, some panicked) = reply s nil
finish i (s, none) = (s, none)

-- `EvaluateConstValue` of a constant that go/types has not evaluated
unfoldable pub evaluate_held :
    Program → (ℕ → State → Step) → ℕ → ConstVariable → Held → State → Step
unfolding evaluate_const_value_helper finish
evaluate_held program evaluate i c (known v) s = reply s (returns (some (known v)) c.type)
evaluate_held program evaluate i c (syntax e) s =
    let full_name = full_type_name c.pkg_path c.name in
    let result = finish i (
      evaluate_const_value_helper program evaluate c e
        (record s { stack = full_name ∷ s.stack })) in
    if mem full_name s.stack then reply s nil else result

unfoldable pub evaluate_checked :
    Program → (ℕ → State → Step) → ℕ → ConstVariable → Option Value → State → Step
unfolding evaluate_held set_const
evaluate_checked program evaluate i c none s = evaluate_held program evaluate i c c.value s
evaluate_checked program evaluate i c (some v) s =
    reply (record s { consts = set_const i (settle (some (known v)) none) s.consts })
      (returns (some (known v)) c.type)

unfoldable pub evaluate_found :
    Program → (ℕ → State → Step) → ℕ → Option ConstVariable → State → Step
unfolding evaluate_checked
evaluate_found program evaluate i none s = reply s nil
evaluate_found program evaluate i (some c) s =
    evaluate_checked program evaluate i c (program.checked c.pkg_path c.name) s

-- `EvaluateConstValue` of the constant at a position, with fuel for the constants that it refers to
unfoldable pub evaluate_const_value : Program → ℕ → ℕ → State → Step
unfolding evaluate_found get_const
evaluate_const_value program zero i s = (s, none)
evaluate_const_value program (suc fuel) i s =
    evaluate_found program (λ j s'. evaluate_const_value program fuel j s') i (get_const s.consts i)
      s

-- `evaluateAllConstVariables`: the constants in some order, each with a stack of its own
unfoldable pub evaluate_all_const_variables :
    Program → List ℕ → List ConstVariable → List ConstVariable
unfolding evaluate_const_value
evaluate_all_const_variables program [] cs = cs
evaluate_all_const_variables program (i ∷ order) cs =
    let step =
      evaluate_const_value program (suc (length cs)) i (record { consts = cs; stack = [] }) in
    evaluate_all_const_variables program order (step.0).consts
