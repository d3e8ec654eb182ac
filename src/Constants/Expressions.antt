-- ===== src/Constants/Expressions.antt =====
-- The expressions and the replies of the evaluation of constants: constevaluator.go of
-- internal/registry, and ConstVariable of internal/domain/types.go. An `ast.Expr` that is a type is
-- kept as its text.
use core_swag.Base.{ℕ, ◌^◌, List, [], ◌∷◌, ◌++◌, Option, none, some, length, ltb, if◌then◌else◌}
use core_swag.Base.Text.{Text, codes, text_eq}
use core_swag.TypeRegistry.{is_golang_primitive_type}
use core_swag.Constants.{
  Value, num, str, opaque, set, int, uint64, Operator, shl, shr, Outcome, value, nothing, panics,
  is_int, zero_of, evaluate_data_conversion, evaluate_unary, evaluate_binary, evaluated_type,
  shift_left, shift_right,
}
use core_swag.Constants.Escapes.{Bytes}

-- The expressions that the evaluation tells apart. An integer literal is the number that it writes,
-- the other literals are what stands between their quotes. `call_of` is a call of `pkg.name`, and
-- `call_of_other` one of a selector of something else; the calls have one argument. `other` is every
-- other expression, and `null_pointer` a nil pointer to an expression that is told apart.
pub data Expr : Type 0 where
  ident : Text → Expr
  selector : Text → Text → Expr
  int_literal : ℕ → Expr
  raw_string quoted_string char_literal : Bytes → Expr
  unary : Operator → Expr → Expr
  binary : Operator → Expr → Expr → Expr
  paren : Expr → Expr
  call : Text → Expr → Expr
  call_of : Text → Text → Expr → Expr
  call_of_other : Expr → Expr
  null_pointer other_expr : Expr

-- An `interface{}` that is not nil: an expression or a value
pub data Held : Type 0 where
  syntax : Expr → Held
  known : Value → Held

-- `ConstVariable`, with the path of its package and the number that `iota` has for it. A file is a
-- number.
pub record ConstVariable : Type 0 where
  pub name : Text
  pub pkg_path : Text
  pub file : ℕ
  pub iota : ℕ
  pub type : Option Text
  pub value : Held
  pub comment : Text

-- What the evaluation uses: the encoding of a rune as a string, the constants that go/types has
-- evaluated, the paths of the packages that a name stands for in a file, and the type of the
-- definition that FindTypeSpec finds for a name.
pub record Program : Type 0 where
  pub encode : ℕ → Text
  pub checked : Text → Text → Option Value
  pub imports : Text → ℕ → List Text
  pub find_type_spec : Text → ℕ → Option Text

pub record State : Type 0 where
  pub consts : List ConstVariable
  pub stack : List Text

-- What an evaluation does: it returns a value and a type, or panics.
pub data Reply : Type 0 where
  returns : Option Held → Option Text → Reply
  panicked : Reply

-- The state that an evaluation leaves, and what it does: `none` where it has no more fuel
abbrev pub Step : Type 0
Step = State × Option Reply

abbrev pub reply : State → Reply → Step
reply s r = (s, some r)

abbrev pub nil : Reply
nil = returns none none

-- What is done with what an evaluation returns
abbrev pub after : Step → (State → Option Held → Option Text → Step) → Step
after (s, some (returns v t)) f = f s v t
after (s, some panicked) f = reply s panicked
after (s, none) f = (s, none)

abbrev pub known_reply : Option Value → Option Text → Reply
known_reply none t = nil
known_reply (some v) t = returns (some (known v)) t

abbrev pub string_reply : Option Bytes → Reply
string_reply none = panicked
string_reply (some t) = returns (some (known (str t))) none

abbrev pub int_reply : ℕ → Reply
int_reply n =
    if ltb n (2 ^ 63)
    then returns (some (known (num int n))) none
    else if ltb n (2 ^ 64)
    then returns (some (known (num uint64 n))) none
    else panicked

-- `EvaluateUnary` of a value that is not nil; it takes no expression.
unfoldable pub unary_reply : Operator → Option Held → Option Text → Reply
unfolding evaluate_unary
unary_reply op none t = returns none t
unary_reply op (some (known v)) t = known_reply (evaluate_unary v op) t
unary_reply op (some (syntax e)) t = nil

abbrev pub outcome_reply : Outcome → Option Text → Reply
outcome_reply (value v) t = returns (some (known v)) t
outcome_reply nothing t = nil
outcome_reply panics t = panicked

-- The zero value of the type of an expression
abbrev pub null_of : Expr → Expr
null_of other_expr = other_expr
null_of _ = null_pointer

-- What `EvaluateBinary` gives where an operand is an expression, other than for shifts
abbrev pub zero_held : Held → Held → Held
zero_held (syntax e) y = syntax (null_of e)
zero_held (known (str t)) y = known (str [])
zero_held (known opaque) y = known opaque
zero_held (known (num k p)) (syntax e) = if is_int k then syntax (null_of e) else known (num k 0)
zero_held (known (num k p)) (known v) = known (zero_of v)

-- A shift of a value by an expression is one by nothing.
unfoldable pub mixed_reply : Operator → Held → Held → Option Text → Reply
unfolding shift_left shift_right
mixed_reply shl (known (num k p)) y t = returns (some (known (num k (shift_left k p 0)))) t
mixed_reply shr (known (num k p)) y t = returns (some (known (num k (shift_right k p 0)))) t
mixed_reply shl x y t = nil
mixed_reply shr x y t = nil
mixed_reply op x y t = returns (some (zero_held x y)) t

unfoldable pub binary_reply :
    Operator → Option Held → Option Held → Option Text → Option Text → Reply
unfolding mixed_reply evaluate_binary evaluated_type
binary_reply op (some (known x)) (some (known y)) t u =
    outcome_reply (evaluate_binary x y op) (evaluated_type op t u)
binary_reply op (some x) (some y) t u = mixed_reply op x y (evaluated_type op t u)
binary_reply op _ _ t u = nil

unfoldable pub conversion_reply : Program → Option Held → Text → Reply
unfolding evaluate_data_conversion
conversion_reply program (some (known v)) name =
    known_reply (evaluate_data_conversion program.encode v name) none
conversion_reply program _ name = nil

-- The length of a string fits into an `int`.
abbrev pub length_reply : Option Held → Reply
length_reply (some (known (str t))) = returns (some (known (set int (length t)))) none
length_reply _ = panicked

abbrev pub found_reply : Option Text → Option Held → Text → Reply
found_reply none v name = nil
found_reply (some t) v name = returns v (some name)

-- A call of a name: a conversion to a primitive type, `len`, or a conversion to a declared type
unfoldable pub call_reply : Program → ℕ → Text → Option Held → Reply
unfolding is_golang_primitive_type conversion_reply
call_reply program file function v =
    let name = if text_eq function (codes "uintptr") then codes "uint" else function in
    if is_golang_primitive_type name
    then conversion_reply program v name
    else if text_eq name (codes "len")
    then length_reply v
    else found_reply (program.find_type_spec name file) v function

abbrev pub full_type_name : Text → Text → Text
full_type_name path name = path ++ b'.' ∷ name

-- A call of `pkg.name` returns its argument, as an expression.
abbrev pub call_of_reply : Option Text → Expr → Reply
call_of_reply none arg = nil
call_of_reply (some t) arg = returns (some (syntax arg)) (some t)
