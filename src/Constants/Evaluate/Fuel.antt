-- ===== src/Constants/Evaluate/Fuel.antt =====
-- EvaluateConstValue of internal/registry/enums.go: the stack of names bounds the recursion.
pub mod Recovered
pub mod Stack
use core_swag.Base.{
  ℕ, zero, suc, ◌<◌, ◌≤◌, ◌≡◌, refl, sym, subst, ap, ◌∙◌, Bool, true, false, ◌||◌, List, [], ◌∷◌,
  map, Option, none, some, length, if◌then◌else◌, arith, inl, inr, Bool-cases,
}
use mathlib.Core.Option.{some-injective}
use core_swag.Base.Text.{Text, text_eq, text_eq_iff, text_eq_refl, mem}
use core_swag.Constants.{Value}
use core_swag.Constants.Expressions.{
  Expr, ident, selector, int_literal, raw_string, quoted_string, char_literal, unary, binary, paren,
  call, call_of, call_of_other, null_pointer, other_expr, Held, syntax, known, ConstVariable,
  Program, State, Reply, returns, panicked, Step, after, full_type_name,
}
use core_swag.Constants.Evaluate.{
  get_const, set_const, settle, reply_at, evaluate_const_value_helper, finish, evaluate_held,
  evaluate_checked, evaluate_found, evaluate_const_value, find_const,
}
use core_swag.Constants.Evaluate.Fuel.Recovered.{
  is_recovered, finish-recovered, evaluate_held-recovered, evaluate_checked-recovered,
  evaluate_found-recovered,
}
use core_swag.Constants.Evaluate.Fuel.Stack.{
  full_name, names, free, free_of, Grows, is_done, Ends, Grows-refl, Grows-trans, Ends-Grows,
  free-le, pushed, free-lt, free_of-le,
}

Ends-after :
    (s : State) (step : Step) (f : State → Option Held → Option Text → Step)
    → Ends s step
    → ((t : State) (v : Option Held) (u : Option Text) → Grows s t → Ends s (f t v u))
    → Ends s (after step f)
Ends-after s (t, some (returns v u)) f (g, d) k = k t v u g
Ends-after s (t, some panicked) f h k = h
Ends-after s (t, none) f h k = h

Ends-if :
    (s : State) (b : Bool) (step step' : Step)
    → Ends s step
    → Ends s step'
    → Ends s (if b then step else step')
Ends-if s true step step' h h' = h
Ends-if s false step step' h h' = h'

Ends-reply_at :
    (evaluate : ℕ → State → Step) (o : Option ℕ) (s : State)
    → ((i : ℕ) → Ends s (evaluate i s))
    → Ends s (reply_at evaluate o s)
Ends-reply_at evaluate none s h = (Grows-refl s, refl)
Ends-reply_at evaluate (some i) s h = h i

module _ (program : Program) (evaluate : ℕ → State → Step) (m : ℕ)
    (ends : (i : ℕ) (s : State) → free_of s ≤ m → Ends s (evaluate i s)) where
  evaluate_const_value_helper-Ends :
      (c : ConstVariable) (e : Expr) (s : State)
      → free_of s ≤ m
      → Ends s (evaluate_const_value_helper program evaluate c e s)
  unfolding evaluate_const_value_helper
  evaluate_const_value_helper-Ends c (ident name) s h =
      Ends-if s _ _ _ (Grows-refl s, refl)
        (Ends-reply_at evaluate (find_const c.pkg_path name 0 s.consts) s (λ i. ends i s h))
  evaluate_const_value_helper-Ends c (selector pkg name) s h =
      Ends-reply_at evaluate _ s (λ i. ends i s h)
  evaluate_const_value_helper-Ends c (int_literal n) s h = (Grows-refl s, refl)
  evaluate_const_value_helper-Ends c (raw_string t) s h = (Grows-refl s, refl)
  evaluate_const_value_helper-Ends c (quoted_string t) s h = (Grows-refl s, refl)
  evaluate_const_value_helper-Ends c (char_literal t) s h = (Grows-refl s, refl)
  evaluate_const_value_helper-Ends c (unary op e) s h =
      Ends-after s _ _ (evaluate_const_value_helper-Ends c e s h) (λ t v u g. (g, refl))
  evaluate_const_value_helper-Ends c (binary op e f) s h =
      Ends-after s _ _ (evaluate_const_value_helper-Ends c e s h) (λ t v u g.
        let below = free_of-le s t g in
        Ends-Grows s t _ g (
          Ends-after t _ _ (evaluate_const_value_helper-Ends c f t (omega arith))
            (λ t' v' u' g'. (g', refl))))
  evaluate_const_value_helper-Ends c (paren e) s h = evaluate_const_value_helper-Ends c e s h
  evaluate_const_value_helper-Ends c (call function e) s h =
      Ends-after s _ _ (evaluate_const_value_helper-Ends c e s h) (λ t v u g. (g, refl))
  evaluate_const_value_helper-Ends c (call_of pkg name e) s h = (Grows-refl s, refl)
  evaluate_const_value_helper-Ends c (call_of_other e) s h = (Grows-refl s, refl)
  evaluate_const_value_helper-Ends c null_pointer s h = (Grows-refl s, refl)
  evaluate_const_value_helper-Ends c other_expr s h = (Grows-refl s, refl)

names-set_const :
    (i : ℕ) (v : Option Held) (t : Option Text) (cs : List ConstVariable)
    → map full_name (set_const i (settle v t) cs) ≡ map full_name cs
unfolding set_const
names-set_const i v t [] = refl
names-set_const zero v t (c ∷ cs) = refl
names-set_const (suc i) v t (c ∷ cs) = ap (λ ns. full_name c ∷ ns) (names-set_const i v t cs)

finish-Ends : (i : ℕ) (s : State) (step : Step) → Ends s step → Ends s (finish i step)
unfolding finish
finish-Ends i s (t, some (returns v u)) ((e, f), d) =
    ((names-set_const i v u t.consts ∙ e, f), refl)
finish-Ends i s (t, some panicked) (g, d) = (g, refl)
finish-Ends i s (t, none) h = h

mem-get_const :
    (cs : List ConstVariable) (i : ℕ) (c : ConstVariable)
    → get_const cs i ≡ some c
    → mem (full_name c) (map full_name cs) ≡ true
unfolding get_const mem
mem-get_const [] i c h = cc
mem-get_const (d ∷ cs) zero c h =
    let same : d ≡ c = some-injective d c h in
    ap (λ x. text_eq (full_name x) (full_name c) || mem (full_name c) (map full_name cs)) same
    ∙ rw (text_eq_refl (full_name c)) refl
mem-get_const (d ∷ cs) (suc i) c h = let rest = mem-get_const cs i c h in ground arith

module _ (program : Program) (evaluate : ℕ → State → Step) (n : ℕ)
    (ends : (i : ℕ) (s : State) → free_of s < n → Ends s (evaluate i s)) where
  evaluate_held-Ends :
      (i : ℕ) (c : ConstVariable) (h : Held) (s : State)
      → mem (full_name c) (names s) ≡ true
      → free_of s < suc n
      → Ends s (evaluate_held program evaluate i c h s)
  unfolding evaluate_held
  evaluate_held-Ends i c (known v) s there le = (Grows-refl s, refl)
  evaluate_held-Ends i c (syntax e) s there le = elim (Bool-cases (mem (full_name c) s.stack)) [
    | inl old ↦ rw old (Grows-refl s, refl)
    | inr new ↦
        let push : State = record s { stack = full_name c ∷ s.stack } in
        let less = free-lt (full_name c) s.stack (names s) there new in
        let inner =
          evaluate_const_value_helper-Ends program evaluate (free_of push)
            (λ j t below. ends j t (omega arith)) c e push (omega arith) in
        rw new
          (Ends-Grows s push _ (refl, pushed (full_name c) s.stack) (finish-Ends i push _ inner))
  ]

  evaluate_checked-Ends :
      (i : ℕ) (c : ConstVariable) (o : Option Value) (s : State)
      → mem (full_name c) (names s) ≡ true
      → free_of s < suc n
      → Ends s (evaluate_checked program evaluate i c o s)
  unfolding evaluate_checked
  evaluate_checked-Ends i c none s there le = evaluate_held-Ends i c c.value s there le
  evaluate_checked-Ends i c (some v) s there le =
      ((names-set_const i (some (known v)) none s.consts, λ m h. h), refl)

  evaluate_found-Ends :
      (i : ℕ) (o : Option ConstVariable) (s : State)
      → get_const s.consts i ≡ o
      → free_of s < suc n
      → Ends s (evaluate_found program evaluate i o s)
  unfolding evaluate_found
  evaluate_found-Ends i none s e le = (Grows-refl s, refl)
  evaluate_found-Ends i (some c) s e le =
      evaluate_checked-Ends i c (program.checked c.pkg_path c.name) s (mem-get_const s.consts i c e)
        le

evaluate_const_value-Ends :
    (program : Program) (n i : ℕ) (s : State)
    → free_of s < n
    → Ends s (evaluate_const_value program n i s)
unfolding evaluate_const_value
evaluate_const_value-Ends program zero i s h = absurd (omega arith)
evaluate_const_value-Ends program (suc n) i s h =
    evaluate_found-Ends program (λ j t. evaluate_const_value program n j t) n
      (λ j t below. evaluate_const_value-Ends program n j t below) i (get_const s.consts i) s refl h

free-length : (stack ns : List Text) → free stack ns ≤ length ns
unfolding free
free-length stack [] = omega arith
free-length stack (n ∷ ns) = let rest = free-length stack ns in ground arith

returned :
    (o : Option Reply)
    → is_done o ≡ true
    → is_recovered o ≡ true
    → (v : Option Held) × (t : Option Text) × (o ≡ some (returns v t))
returned (some (returns v t)) d r = (v, t, refl)
returned (some panicked) d r = cc
returned none d r = cc

length-names : (cs : List ConstVariable) → length (map full_name cs) ≡ length cs
length-names [] = refl
length-names (c ∷ cs) = ap suc (length-names cs)

-- At every state and position, and with more fuel than there are constants, EvaluateConstValue
-- returns a value or nil, and a type or nil: constants that refer to each other end, and a panic is
-- recovered.
pub evaluate_const_value-total :
    (program : Program) (n i : ℕ) (s : State)
    → length s.consts < n
    → (v : Option Held) × (t : Option Text) × ((evaluate_const_value program n i s).1
        ≡ some (returns v t))
unfolding evaluate_const_value
evaluate_const_value-total program zero i s h = absurd (omega arith)
evaluate_const_value-total program (suc n) i s h =
    let bound = free-length s.stack (names s) in
    let same = length-names s.consts in
    let enough : free_of s < suc n = omega arith in
    returned _ ((evaluate_const_value-Ends program (suc n) i s enough).1) (
      evaluate_found-recovered program (λ j t. evaluate_const_value program n j t) i
        (get_const s.consts i) s)
