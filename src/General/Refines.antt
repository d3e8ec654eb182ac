-- ===== src/General/Refines.antt =====
-- The loop over the lines does to an API what the machine of `Contract` says.
mod Single
use core_swag.Base.{
  ℕ, zero, suc, ◌≡◌, refl, ap, sym, ◌∙◌, Bool, true, false, ◌&&◌, not, List, [], ◌∷◌, ◌++◌, Option,
  none, some, map, length, arith, inl, inr, Bool-cases, Option-cases, if◌then◌else◌,
}
use mathlib.Core.List.{map-append}
use core_swag.Base.Maps.{get_key}
use core_swag.Base.Text.{Text, codes, text_eq, text_eq_iff, trim_space, has_prefix, to_lower}
use core_swag.Spec.{Value}
use core_swag.General.{
  Api, Tag, InfoField, version, title, terms_of_service, description, contact_name, contact_email,
  contact_url, license_name, license_url, set_swagger_info, Service, GeneralError,
}
use core_swag.General.Attributes.{
  split_line, get_markdown_for_tag, Markdown, content, failed, parse_extension, parse_tag_extension,
  exists_in_schemes, set_extension,
}
use core_swag.General.Security.{
  Kind, basic, api_key, application, implicit, password, access_code, Definition, rejected, defined,
  parse_security, parse_security_definition, definitions_prefix, Requirement,
}
use core_swag.General.Security.Given.{name_of, starts, from_next, name_of-blank}
use core_swag.General.Security.Accepts.{RestIs, parse_security_definition-Accepted}
use core_swag.General.Cases.{
  Run, Step, go, return, Case, info, described, described_by_file, host, base_path, accept, produce,
  schemes, tag_name, tag_description, tag_description_file, tag_docs_url, tag_docs_description,
  definition, security, docs_description, docs_url, other, case_of, apply_case, apply_tag, on_tag,
  on_pointer, pointer_of, describe_by_file, describe_tag_by_file, add_security, change_last,
  last_tag, new_tag, returned, keep_tag,
}
use core_swag.General.Parse.{
  Outcome, Next, after_step, after_definition, general_line, general_loop, parse_general_info,
}
use core_swag.General.Contract.{
  View, names, view, update, Mode, stops, skips, reads, mode_of, by_mode, line_case, line_value,
  read_lines,
}
use core_swag.General.Refines.Single.{Refines, IsLine, apply_case-Refines}

-- From the next security definition on, the machine reads what it skipped to.
read_lines-from_next :
    (lines : List Text) (v : View) → read_lines true lines v ≡ read_lines false (from_next lines) v
unfolding read_lines from_next
read_lines-from_next [] v = refl
read_lines-from_next (line ∷ lines) v = elim (Bool-cases (starts line)) [
  | inl next ↦ rw next
  | inr later ↦ rw later (read_lines-from_next lines v)
]

-- A line that is not skipped
read_lines-line :
    (line : Text) (lines : List Text) (v : View)
    → read_lines false (line ∷ lines) v
      ≡ by_mode
          (mode_of (line_case line))
          v
          (read_lines true lines v)
          (read_lines false lines (update (line_case line) (line_value line) v))
unfolding read_lines
read_lines-line line lines v = refl

-- A blank line changes nothing.
case_of-blank : (line : Text) → text_eq (trim_space line) [] ≡ true → line_case line ≡ other
unfolding case_of split_line text_eq to_lower
case_of-blank line h = rw ((text_eq_iff (trim_space line) []).0 h)

read_lines-blank :
    (line : Text) (lines : List Text) (v : View)
    → text_eq (trim_space line) [] ≡ true
    → read_lines false (line ∷ lines) v ≡ read_lines false lines v
unfolding read_lines
read_lines-blank line lines v blank = unfold mode_of update in rw (case_of-blank line blank)

module _ (s : Service) where
  -- What the rest of the loop does, when it ends without an error.
  abbrev Follows : Next → Type 0
  Follows next =
      (r : Run) (lines : List Text) (api : Api)
      → next r lines ≡ some (api, none)
      → view api ≡ read_lines false lines (view r.api)

  after_step-Follows :
      (next : Next) (c : Case) (v : Text) (r : Run) (st : Step) (lines : List Text) (api : Api)
      → Follows next
      → Refines c v r st
      → after_step next st lines ≡ some (api, none)
      → view api
        ≡ by_mode
            (mode_of c)
            (view r.api)
            (read_lines true lines (view r.api))
            (read_lines false lines (update c v (view r.api)))
  unfolding after_step Refines
  after_step-Follows next c v r (go r') lines api follows (m, same) e =
      rw m (follows r' lines api e ∙ ap (read_lines false lines) same)
  after_step-Follows next c v r (return api' none) lines api follows (m, same) e =
      let q : api' ≡ api = ground arith in rw m (ap view (sym q) ∙ same)
  after_step-Follows next c v r (return api' (some err)) lines api follows h e =
      absurd (ground arith)

  after_definition-Follows :
      (next : Next) (kind : Kind) (a v : Text) (r : Run) (lines : List Text) (d : Definition)
      (api : Api)
      → Follows next
      → RestIs (from_next lines) d
      → after_definition next a v r d ≡ some (api, none)
      → view api ≡ read_lines true lines (view r.api)
  unfolding after_definition
  after_definition-Follows next kind a v r lines (rejected err) api follows h e =
      absurd (ground arith)
  after_definition-Follows next kind a v r lines (defined scheme rest) api follows h e =
      follows _ rest api e ∙ unfold view in rw h (sym (read_lines-from_next lines (view r.api)))

  general_line-Follows :
      (next : Next) (c : Case) (a v : Text) (r : Run) (lines : List Text) (api : Api)
      → Follows next
      → general_line s next c a v r lines ≡ some (api, none)
      → view api
        ≡ by_mode
            (mode_of c)
            (view r.api)
            (read_lines true lines (view r.api))
            (read_lines false lines (update c v (view r.api)))
  unfolding general_line
  general_line-Follows next (definition basic) a v r lines api follows e =
      unfold after_definition parse_security_definition mode_of update view in follows _ lines api e
  general_line-Follows next (definition kind) a v r lines api follows e =
      unfold mode_of update in
      after_definition-Follows next kind a v r lines _ api follows
        (parse_security_definition-Accepted s.lib a kind lines (λ h. ground arith)).1 e
  general_line-Follows next c a v r lines api follows e =
      after_step-Follows next c v r (apply_case s c a v r) lines api follows
        (apply_case-Refines s v a r c tt) e

  general_loop-Follows : (fuel : ℕ) → Follows (general_loop s fuel)
  unfolding general_loop
  general_loop-Follows fuel r [] api e =
      let q : r.api ≡ api = ground arith in unfold read_lines in ap view (sym q)
  general_loop-Follows zero r (line ∷ lines) api e = absurd (ground arith)
  general_loop-Follows (suc fuel) r (line ∷ lines) api e =
      elim (Bool-cases (text_eq (trim_space line) [])) [
        | inl blank ↦
            general_loop-Follows fuel r lines api (rw blank at e)
            ∙ sym (read_lines-blank line lines (view r.api) blank)
        | inr text ↦
            general_line-Follows (general_loop s fuel) (line_case line)
              (split_line (trim_space line)).0 (line_value line) r lines api
              (general_loop-Follows fuel) (rw text at e)
            ∙ sym (read_lines-line line lines (view r.api))
      ]

  -- A comment that is read without an error leaves the version, title, terms of service, contact,
  -- license, host, base path, schemes and names of the tags that the machine of `Contract` computes
  -- from its lines: each line sets its field or adds its tag, `@accept` and `@produce` end the
  -- reading, and behind a security definition that is not basic all lines up to the next security
  -- definition are passed over.
  pub view-parse_general_info :
      (comments : List Text) (api api' : Api)
      → parse_general_info s comments api ≡ some (api', none)
      → view api' ≡ read_lines false comments (view api)
  unfolding parse_general_info
  view-parse_general_info comments api api' e =
      general_loop-Follows (length comments) (record { api = api; tagged = false; previous = [] })
        comments api' e
