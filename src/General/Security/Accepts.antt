-- ===== src/General/Security/Accepts.antt =====
-- Which security definitions are accepted, and which lines they take.
use core_swag.Base.{
  ◌≡◌, ◌≢◌, refl, ap, sym, ◌∙◌, Bool, true, false, ◌&&◌, ◌||◌, List, [], ◌∷◌, none, length, arith,
  inl, inr, Bool-cases, Option-cases, ◌==◌,
}
use core_swag.Base.Text.{Text, text_eq, text_eq_iff, mem, trim_space, has_prefix, fields}
use core_swag.General.{SchemeFunctions}
use core_swag.General.Attributes.{split_line}
use core_swag.General.Security.{
  Kind, basic, api_key, application, implicit, password, access_code, Gathered, Loop, stopped,
  ended, scan_lines, scope_error, gather, search_of, Definition, rejected, defined, finish,
  parse_security_definition, is_exists_scope,
}
use core_swag.General.Security.Given.{
  name_of, starts, from_next, is_given, all_given, has_good_scopes, has_no_error,
  has_no_error-has_good_scopes, has_key, has_key-put_key, length-put_key, tally, Distinct,
  tally-put_key, tally-all_given, tally-nil, attrs-gather, name_of-blank,
}

module _ (search : List Text) (distinct : Distinct search) (named : mem [] search ≡ false) where
  -- As many attributes as are found of the search.
  abbrev IsCounted : List (Text × Text) → Type 0
  IsCounted m = length m ≡ tally search m

  gather-IsCounted :
      (k v : Text) (g : Gathered) → IsCounted g.attrs → IsCounted (gather search k v g).attrs
  gather-IsCounted k v g h = rw (attrs-gather search k v g) (elim (Bool-cases (mem k search)) [
    | inl e ↦
        rw e (
          omega (arith, h, tally-put_key search k v g.attrs distinct e, length-put_key k v g.attrs))
    | inr e ↦ rw e h
  ])

  has_key-gather :
      (k v a : Text) (g : Gathered)
      → mem a search ≡ true
      → has_key a (gather search k v g).attrs ≡ (text_eq k a || has_key a g.attrs)
  has_key-gather k v a g h = rw (attrs-gather search k v g) (elim (Bool-cases (mem k search)) [
    | inl e ↦ rw e (has_key-put_key a k v g.attrs)
    | inr e ↦ rw e (elim (Bool-cases (text_eq k a)) [
      | inl same ↦
          let q : mem k search ≡ true = rw ((text_eq_iff k a).0 same) h in absurd (ground arith)
      | inr other ↦ rw other
    ])
  ])

  -- What the loop over the lines does.
  Scanned : Gathered → List Text → Loop → Type 0
  Scanned g lines (stopped e) = has_no_error search lines ≡ false
  Scanned g lines (ended g' rest) =
      (has_no_error search lines ≡ true)
      × (rest ≡ from_next lines)
      × ((a : Text)
          → mem a search ≡ true
          → has_key a g'.attrs ≡ (has_key a g.attrs || is_given lines a))
      × IsCounted g'.attrs

  scope_error-blank : scope_error search [] ≡ none
  unfolding scope_error is_exists_scope fields
  scope_error-blank = rw named

  mem-ne : (a : Text) → mem a search ≡ true → text_eq [] a ≡ false
  mem-ne a h = elim (Bool-cases (text_eq [] a)) [
    | inl e ↦ let q : mem [] search ≡ true = rw ((text_eq_iff [] a).0 e) h in absurd (ground arith)
    | inr e ↦ e
  ]

  -- A line before the next security definition, with a name that is no bad scope.
  Scanned-line :
      (g g₁ : Gathered) (line : Text) (lines : List Text) (l : Loop)
      → scope_error search (name_of line) ≡ none
      → starts line ≡ false
      → ((a : Text)
          → mem a search ≡ true
          → has_key a g₁.attrs ≡ (text_eq (name_of line) a || has_key a g.attrs))
      → Scanned g₁ lines l
      → Scanned g (line ∷ lines) l
  unfolding Scanned has_no_error from_next is_given
  Scanned-line g g₁ line lines (stopped e) fine before keys h = rw (fine, before) h
  Scanned-line g g₁ line lines (ended g' rest) fine before keys h = (
    rw (fine, before) h.0,
    rw before h.1,
    λ a m. rw before (ground (arith, h.2 a m, keys a m)),
    h.3,
  )

  scan_lines-Scanned :
      (g : Gathered) (lines : List Text)
      → IsCounted g.attrs
      → Scanned g lines (scan_lines search g lines)
  unfolding scan_lines Scanned has_prefix
  scan_lines-Scanned g [] h =
      unfold Scanned has_no_error from_next is_given in (refl, refl, λ a m. ground arith, h)
  scan_lines-Scanned g (line ∷ lines) h =
      let value = (split_line (trim_space line)).1 in
      elim (Bool-cases (text_eq (trim_space line) [])) [
        | inl blank ↦
            let empty = name_of-blank line blank in
            rw (blank, Scanned)
              (Scanned-line g g line lines (scan_lines search g lines) (rw empty scope_error-blank)
                (rw empty) (λ a m. rw (empty, mem-ne a m)) (scan_lines-Scanned g lines h))
        | inr text ↦
            rw (text, Scanned)
              (elim (Option-cases (scope_error search (name_of line))) [
                | inr (e, bad) ↦ rw (bad, Scanned) (unfold Scanned has_no_error in rw bad)
                | inl fine ↦
                    rw (fine, Scanned)
                      (elim (Bool-cases (starts line)) [
                        | inl next ↦
                            rw (next, Scanned)
                              (unfold Scanned has_no_error from_next is_given in
                                (rw (fine, next), rw next, λ a m. rw next (ground arith), h))
                        | inr before ↦
                            rw (before, Scanned)
                              (Scanned-line g (gather search (name_of line) value g) line lines _
                                fine before (λ a m. has_key-gather (name_of line) value a g m)
                                (scan_lines-Scanned (gather search (name_of line) value g) lines
                                  (gather-IsCounted (name_of line) value g h)))
                      ])
              ])
      ]

-- Accepted, and with the lines that are left.
abbrev pub is_defined : Definition → Bool
is_defined (rejected e) = false
is_defined (defined scheme rest) = true

abbrev pub RestIs : List Text → Definition → Type 0
RestIs rest (rejected e) = Unit {0}
RestIs rest (defined scheme rest') = rest' ≡ rest

search_of-Distinct : (kind : Kind) → Distinct (search_of kind) × (mem [] (search_of kind) ≡ false)
unfolding mem text_eq
search_of-Distinct basic = (tt, refl)
search_of-Distinct api_key = ((refl, (refl, tt)), refl)
search_of-Distinct application = ((refl, tt), refl)
search_of-Distinct implicit = ((refl, tt), refl)
search_of-Distinct password = ((refl, tt), refl)
search_of-Distinct access_code = ((refl, (refl, tt)), refl)

module _ (lib : SchemeFunctions) (context : Text) (kind : Kind) where
  abbrev Accepted : List Text → Definition → Type 0
  Accepted lines d =
      (is_defined d ≡ (has_no_error (search_of kind) lines && all_given lines (search_of kind)))
      × RestIs (from_next lines) d

  finish-Accepted :
      (g : Gathered) (lines : List Text) (l : Loop)
      → g.attrs ≡ []
      → Scanned (search_of kind) (search_of-Distinct kind).0 (search_of-Distinct kind).1 g lines l
      → Accepted lines (finish lib context kind l)
  unfolding Scanned finish
  finish-Accepted g lines (stopped e) empty h = (rw h, tt)
  finish-Accepted g lines (ended g' rest) empty h =
      let given = tally-all_given (search_of kind) lines g'.attrs (λ a m.
        let k : has_key a g'.attrs ≡ (has_key a [] || is_given lines a) = rw (← empty) (h.2 a m) in
        unfold has_key in k) in
      let decided = ap (λ t. t == length (search_of kind)) h.3 ∙ given in
      elim (Bool-cases (length g'.attrs == length (search_of kind))) [
        | inl e ↦ rw e (rw h.0 (sym e ∙ decided), h.1)
        | inr e ↦ rw e (rw h.0 (sym e ∙ decided), tt)
      ]

-- A security definition that is not basic is accepted exactly when every attribute that its kind
-- wants is given before the next security definition, and no line up to and with the one of the next
-- definition has as its attribute one that is not wanted and has a word that begins with @scope. and
-- has a comma. The lines that are left then are those from the next security definition on, and every line before them is
-- taken, whatever its attribute.
pub parse_security_definition-Accepted :
    (lib : SchemeFunctions) (context : Text) (kind : Kind) (lines : List Text)
    → kind ≢ basic
    → (is_defined (parse_security_definition lib context kind lines)
        ≡ (has_good_scopes (search_of kind) lines && all_given lines (search_of kind)))
      × RestIs (from_next lines) (parse_security_definition lib context kind lines)
unfolding parse_security_definition
parse_security_definition-Accepted lib context basic lines h = absurd (h refl)
parse_security_definition-Accepted lib context kind lines h =
    let g : Gathered = record { attrs = []; scopes = []; extensions = []; description = [] } in
    rw (← has_no_error-has_good_scopes (search_of kind) lines) (
      finish-Accepted lib context kind g lines (scan_lines (search_of kind) g lines) refl (
        scan_lines-Scanned (search_of kind) (search_of-Distinct kind).0 (search_of-Distinct kind).1
          g lines (tally-nil (search_of kind))))
