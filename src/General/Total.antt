-- ===== src/General/Total.antt =====
-- The loop over the lines of a comment ends: each turn takes a line, also where a security
-- definition reads on by itself.
use core_swag.Base.{
  ℕ, zero, suc, ◌≤◌, ◌≡◌, refl, List, [], ◌∷◌, none, some, length, arith, inl, inr, Bool-cases,
  Option-cases,
}
use core_swag.Base.Text.{Text, text_eq, trim_space, to_lower, has_prefix}
use core_swag.General.{Api, Service, SchemeFunctions}
use core_swag.General.Attributes.{split_line}
use core_swag.General.Security.{
  Kind, basic, Gathered, Loop, stopped, ended, scan_lines, scope_error, gather, definitions_prefix,
  search_of, Definition, rejected, defined, finish, parse_security_definition,
}
use core_swag.General.Cases.{Run, Step, go, return, Case, definition, case_of, apply_case}
use core_swag.General.Parse.{
  Outcome, Next, after_step, after_definition, general_line, general_loop, parse_general_info,
}

-- What is left of the lines is no longer than they are.
abbrev pub LoopWithin : ℕ → Loop → Type 0
LoopWithin n (stopped e) = Unit {0}
LoopWithin n (ended g rest) = length rest ≤ n

LoopWithin-le : (n m : ℕ) (l : Loop) → n ≤ m → LoopWithin n l → LoopWithin m l
LoopWithin-le n m (stopped e) h k = tt
LoopWithin-le n m (ended g rest) h k = omega arith

scan_lines-LoopWithin :
    (search : List Text) (g : Gathered) (lines : List Text)
    → LoopWithin (length lines) (scan_lines search g lines)
unfolding scan_lines
scan_lines-LoopWithin search g [] = omega arith
scan_lines-LoopWithin search g (line ∷ lines) =
    let attr = to_lower (split_line (trim_space line)).0 in
    let value = (split_line (trim_space line)).1 in
    let more = λ (g' : Gathered).
      LoopWithin-le (length lines) (suc (length lines)) (scan_lines search g' lines) (omega arith)
        (scan_lines-LoopWithin search g' lines) in
    elim (Bool-cases (text_eq (trim_space line) [])) [
      | inl e ↦ rw (e, LoopWithin) (more g)
      | inr e ↦
          rw (e, LoopWithin)
            (elim (Option-cases (scope_error search attr)) [
              | inr (err, bad) ↦ rw (bad, LoopWithin) tt
              | inl fine ↦
                  rw (fine, LoopWithin)
                    (elim (Bool-cases (has_prefix attr definitions_prefix)) [
                      | inl next ↦ rw (next, LoopWithin) (omega arith)
                      | inr other ↦ rw (other, LoopWithin) (more (gather search attr value g))
                    ])
            ])
    ]

abbrev DefinitionWithin : ℕ → Definition → Type 0
DefinitionWithin n (rejected e) = Unit {0}
DefinitionWithin n (defined scheme rest) = length rest ≤ n

finish-DefinitionWithin :
    (lib : SchemeFunctions) (context : Text) (kind : Kind) (n : ℕ) (l : Loop)
    → LoopWithin n l
    → DefinitionWithin n (finish lib context kind l)
unfolding finish
finish-DefinitionWithin lib context kind n (stopped e) h = tt
finish-DefinitionWithin lib context kind n (ended g rest) h = ground arith

parse_security_definition-DefinitionWithin :
    (lib : SchemeFunctions) (context : Text) (kind : Kind) (lines : List Text)
    → DefinitionWithin (length lines) (parse_security_definition lib context kind lines)
unfolding parse_security_definition
parse_security_definition-DefinitionWithin lib context basic lines = omega arith
parse_security_definition-DefinitionWithin lib context kind lines =
    finish-DefinitionWithin lib context kind (length lines) _
      (scan_lines-LoopWithin (search_of kind) _ lines)

-- The rest of the loop gives a result for each run and few enough lines.
abbrev IsTotal : ℕ → Next → Type 0
IsTotal n next =
    (r : Run) (lines : List Text) → length lines ≤ n → (o : Outcome) × (next r lines ≡ some o)

module _ (s : Service) where
  after_step-total :
      (n : ℕ) (next : Next) (st : Step) (lines : List Text)
      → IsTotal n next
      → length lines ≤ n
      → (o : Outcome) × (after_step next st lines ≡ some o)
  unfolding after_step
  after_step-total n next (go r) lines h k = h r lines k
  after_step-total n next (return api e) lines h k = ((api, e), refl)

  after_definition-total :
      (n : ℕ) (next : Next) (a v : Text) (r : Run) (d : Definition)
      → IsTotal n next
      → DefinitionWithin n d
      → (o : Outcome) × (after_definition next a v r d ≡ some o)
  unfolding after_definition
  after_definition-total n next a v r (rejected e) h k = ((r.api, some e), refl)
  after_definition-total n next a v r (defined scheme rest) h k = h _ rest k

  general_line-total :
      (next : Next) (c : Case) (a v : Text) (r : Run) (lines : List Text)
      → IsTotal (length lines) next
      → (o : Outcome) × (general_line s next c a v r lines ≡ some o)
  unfolding general_line
  general_line-total next (definition kind) a v r lines h =
      after_definition-total (length lines) next a v r _ h
        (parse_security_definition-DefinitionWithin s.lib a kind lines)
  general_line-total next c a v r lines h =
      after_step-total (length lines) next (apply_case s c a v r) lines h (omega arith)

  general_loop-IsTotal : (fuel : ℕ) → IsTotal fuel (general_loop s fuel)
  unfolding general_loop
  general_loop-IsTotal zero r [] h = ((r.api, none), refl)
  general_loop-IsTotal (suc fuel) r [] h = ((r.api, none), refl)
  general_loop-IsTotal zero r (line ∷ lines) h = absurd (omega arith)
  general_loop-IsTotal (suc fuel) r (line ∷ lines) h =
      elim (Bool-cases (text_eq (trim_space line) [])) [
        | inl e ↦ rw e (general_loop-IsTotal fuel r lines (omega arith))
        | inr e ↦ rw e (
            general_line-total (general_loop s fuel) (case_of (split_line (trim_space line)).0)
              (split_line (trim_space line)).0 (split_line (trim_space line)).1 r lines
              (λ r' lines' k. general_loop-IsTotal fuel r' lines' (omega arith)))
      ]

  -- The loop over the lines of a comment ends with a state and an error or none, within as many
  -- turns as there are lines.
  pub parse_general_info-total :
      (comments : List Text) (api : Api)
      → (o : Outcome) × (parse_general_info s comments api ≡ some o)
  unfolding parse_general_info
  parse_general_info-total comments api =
      general_loop-IsTotal (length comments) _ comments (omega arith)
