-- ===== src/General/Parse.antt =====
-- internal/parser/base/service.go: the loop over the lines of a comment. Parsing a Go file is a
-- parameter, the texts of its comments.
use core_swag.Base.{ℕ, zero, suc, false, List, [], ◌∷◌, Option, none, some, length, if◌then◌else◌}
use core_swag.Base.Maps.{put_key}
use core_swag.Base.Text.{Text, text_eq, trim_space, split}
use core_swag.General.{Api, Service, GeneralError}
use core_swag.General.Attributes.{split_line, is_general_api_comment}
use core_swag.General.Security.{Definition, rejected, defined, parse_security_definition}
use core_swag.General.Cases.{Run, Step, go, return, Case, definition, case_of, apply_case}

abbrev pub Outcome : Type 0
Outcome = Api × Option GeneralError

-- What follows a line: the next one, by the rest of the loop.
abbrev pub Next : Type 0
Next = Run → List Text → Option Outcome

unfoldable pub after_step : Next → Step → List Text → Option Outcome
after_step next (go r) lines = next r lines
after_step next (return api e) lines = some (api, e)

unfoldable pub after_definition : Next → Text → Text → Run → Definition → Option Outcome
unfolding put_key
after_definition next a v r (rejected e) = some (r.api, some e)
after_definition next a v r (defined scheme rest) =
    next
      (record r {
        api = record r.api { security_definitions = put_key v scheme r.api.security_definitions };
        previous = a;
      })
      rest

module _ (s : Service) where
  unfoldable pub general_line : Next → Case → Text → Text → Run → List Text → Option Outcome
  unfolding apply_case after_step after_definition parse_security_definition
  general_line next (definition kind) a v r lines =
      after_definition next a v r (parse_security_definition s.lib a kind lines)
  general_line next c a v r lines = after_step next (apply_case s c a v r) lines

  -- The loop of `ParseGeneralInfo`; `none` means that the fuel ran out.
  unfoldable pub general_loop : ℕ → Run → List Text → Option Outcome
  unfolding general_line split_line case_of trim_space
  general_loop fuel r [] = some (r.api, none)
  general_loop zero r (line ∷ lines) = none
  general_loop (suc fuel) r (line ∷ lines) =
      let blank = general_loop fuel r lines in
      let line' = split_line (trim_space line) in
      let read = general_line (general_loop fuel) (case_of line'.0) line'.0 line'.1 r lines in
      if text_eq (trim_space line) [] then blank else read

  -- `ParseGeneralInfo`
  unfoldable pub parse_general_info : List Text → Api → Option Outcome
  unfolding general_loop
  parse_general_info comments api =
      general_loop (length comments) (record { api = api; tagged = false; previous = [] }) comments

  -- The loop of `ParseGeneralAPIInfo` over the comments of the file; `swagger.Swagger` is not kept.
  unfoldable pub parse_comments : List Text → Api → Option Outcome
  unfolding parse_general_info is_general_api_comment
  parse_comments [] api = some (api, none)
  parse_comments (comment ∷ comments) api =
      let lines = split comment 10 in
      let skipped = parse_comments comments api in
      if is_general_api_comment lines
      then elim (parse_general_info lines api) [
        | none ↦ none
        | some outcome ↦ elim outcome.1 [
          | some e ↦ some outcome
          | none ↦ parse_comments comments outcome.0
        ]
      ]
      else skipped
