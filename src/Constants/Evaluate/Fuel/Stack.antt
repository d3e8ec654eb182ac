-- ===== src/Constants/Evaluate/Fuel/Stack.antt =====
-- EvaluateConstValue of internal/registry/enums.go: the names that are not on the stack
use core_swag.Base.{
  ℕ, suc, ◌<◌, ◌≤◌, ◌≡◌, refl, sym, subst, ap, ◌∙◌, Bool, true, false, List, [], ◌∷◌, map, Option,
  none, some, if◌then◌else◌, arith, inl, inr, Bool-cases,
}
use core_swag.Base.Text.{Text, text_eq, text_eq_iff, text_eq_refl, mem}
use core_swag.Constants.Expressions.{ConstVariable, State, Reply, Step, full_type_name}

abbrev pub full_name : ConstVariable → Text
full_name c = full_type_name c.pkg_path c.name

abbrev pub names : State → List Text
names s = map full_name s.consts

-- How many of the names are not on the stack
unfoldable pub free : List Text → List Text → ℕ
free stack [] = 0
free stack (n ∷ ns) = let rest = free stack ns in if mem n stack then rest else suc rest

abbrev pub free_of : State → ℕ
free_of s = free s.stack (names s)

-- The names stay, and the stack keeps what is on it.
abbrev pub Grows : State → State → Type 0
Grows s s' = (names s' ≡ names s) × ((n : Text) → mem n s.stack ≡ true → mem n s'.stack ≡ true)

abbrev pub is_done : Option Reply → Bool
is_done none = false
is_done (some r) = true

abbrev pub Ends : State → Step → Type 0
Ends s (s', r) = Grows s s' × (is_done r ≡ true)

pub Grows-refl : (s : State) → Grows s s
Grows-refl s = (refl, λ n h. h)

pub Grows-trans : (s t u : State) → Grows s t → Grows t u → Grows s u
Grows-trans s t u (e, f) (e', f') = (e' ∙ e, λ n h. f' n (f n h))

pub Ends-Grows : (s t : State) (step : Step) → Grows s t → Ends t step → Ends s step
Ends-Grows s t (u, r) g (g', d) = (Grows-trans s t u g g', d)

pub free-le :
    (stack stack' ns : List Text)
    → ((n : Text) → mem n stack ≡ true → mem n stack' ≡ true)
    → free stack' ns ≤ free stack ns
unfolding free
free-le stack stack' [] f = omega arith
free-le stack stack' (n ∷ ns) f =
    let rest = free-le stack stack' ns f in let here = f n in ground arith

pub pushed :
    (n : Text) (stack : List Text) (m : Text) → mem m stack ≡ true → mem m (n ∷ stack) ≡ true
unfolding mem
pushed n stack m h = ground arith

-- A name that is put on the stack is free no more.
pub free-lt :
    (n : Text) (stack ns : List Text)
    → mem n ns ≡ true
    → mem n stack ≡ false
    → free (n ∷ stack) ns < free stack ns
unfolding free mem
free-lt n stack [] h new = cc
free-lt n stack (x ∷ ns) h new = elim (Bool-cases (text_eq x n)) [
  | inl e ↦
      let same : x ≡ n = (text_eq_iff x n).0 e in
      let old : mem x stack ≡ false = ap (λ t. mem t stack) same ∙ new in
      let there : text_eq n x ≡ true = ap (text_eq n) same ∙ text_eq_refl n in
      let rest = free-le stack (n ∷ stack) ns (pushed n stack) in rw (old, there) (omega arith)
  | inr e ↦ let rest = free-lt n stack ns (ground arith) new in ground arith
]

pub free_of-le : (s t : State) → Grows s t → free_of t ≤ free_of s
free_of-le s t (e, f) =
    subst (λ ns. free t.stack ns ≤ free_of s) (sym e) (free-le s.stack t.stack (names s) f)
