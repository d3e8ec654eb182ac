-- ===== src/General/Attributes.antt =====
-- internal/parser/base, helpers.go, extensions.go and the reading of markdown files of info.go.
use core_swag.Base.{
  ◌+◌, Bool, true, false, ◌&&◌, ◌||◌, List, [], ◌∷◌, ◌++◌, Option, none, some, length, drop, ltb,
  if◌then◌else◌,
}
use core_swag.Base.Maps.{put_key, get_key}
use core_swag.Base.Text.{
  Text, codes, text_eq, mem, has_suffix, contains, index, trim_space, split, to_lower,
}
use core_swag.Spec.{Value}
use core_swag.General.{
  Api, SecurityScheme, Service, Directory, GeneralError, no_directory, unreadable, no_markdown,
  bad_mime_type, no_value, no_json, Tag,
}
use core_swag.General.Fields.{fields_by_any_space}

-- The attribute of a line and its value. A line that is not blank has a first field.
abbrev pub attribute_of : List Text → Text × Text
attribute_of [] = ([], [])
attribute_of (attribute ∷ []) = (attribute, [])
attribute_of (attribute ∷ value ∷ more) = (attribute, value)

unfoldable pub split_line : Text → Text × Text
unfolding fields_by_any_space
split_line line = attribute_of (fields_by_any_space line 2)

abbrev pub route_attributes : List Text
route_attributes =
    codes "@summary"
    ∷ codes "@router"
    ∷ codes "@success"
    ∷ codes "@failure"
    ∷ codes "@response"
    ∷ []

-- `isGeneralAPIComment`
unfoldable pub is_general_api_comment : List Text → Bool
unfolding mem trim_space split_line to_lower
is_general_api_comment [] = true
is_general_api_comment (line ∷ lines) =
    let rest = is_general_api_comment lines in
    if text_eq (trim_space line) []
    then rest
    else if mem (to_lower (split_line (trim_space line)).0) route_attributes
    then false
    else rest

-- `mimeTypePattern`: one slash, with something on both sides.
unfoldable pub is_mime_type : Text → Bool
is_mime_type t = elim (index t b'/') [
  | none ↦ false
  | some i ↦
      ltb 0 i
      && ltb (i + 1) (length t)
      && elim (index (drop (i + 1) t) b'/') [ none ↦ true | some j ↦ false ]
]

abbrev pub mime_type_aliases : List (Text × Text)
mime_type_aliases =
    (codes "json", codes "application/json")
    ∷ (codes "xml", codes "text/xml")
    ∷ (codes "plain", codes "text/plain")
    ∷ (codes "html", codes "text/html")
    ∷ (codes "mpfd", codes "multipart/form-data")
    ∷ (codes "x-www-form-urlencoded", codes "application/x-www-form-urlencoded")
    ∷ (codes "json-api", codes "application/vnd.api+json")
    ∷ (codes "json-stream", codes "application/x-json-stream")
    ∷ (codes "octet-stream", codes "application/octet-stream")
    ∷ (codes "png", codes "image/png")
    ∷ (codes "jpeg", codes "image/jpeg")
    ∷ (codes "gif", codes "image/gif")
    ∷ (codes "event-stream", codes "text/event-stream")
    ∷ []

-- The loop of `parseMimeTypeList`: the list as it is left, and the error.
unfoldable pub add_mime_types : List Text → List Text → List Text × Option GeneralError
add_mime_types [] types = (types, none)
add_mime_types (piece ∷ pieces) types =
    let name = trim_space piece in
    let skipped = add_mime_types pieces types in
    let added = add_mime_types pieces (types ++ name ∷ []) in
    if text_eq name []
    then skipped
    else if is_mime_type name
    then added
    else elim (get_key name mime_type_aliases) [
      | none ↦ (types, some (bad_mime_type name))
      | some mime ↦ add_mime_types pieces (types ++ mime ∷ [])
    ]

-- `parseMimeTypeList`
unfoldable pub parse_mime_type_list : Text → List Text → List Text × Option GeneralError
unfolding add_mime_types
parse_mime_type_list line types = add_mime_types (split line b',') types

-- what `getMarkdownForTag` returns
pub data Markdown : Type 0 where
  content : Text → Markdown
  failed : GeneralError → Markdown

unfoldable pub expected_file_name : Text → Text
expected_file_name tag_name =
    if has_suffix tag_name (codes ".md") then tag_name else tag_name ++ codes ".md"

unfoldable pub find_markdown : (Text → Option Text) → Text → List (Text × Bool) → Markdown
unfolding expected_file_name
find_markdown read tag_name [] = failed (no_markdown tag_name)
find_markdown read tag_name ((file_name, is_dir) ∷ entries) =
    let rest = find_markdown read tag_name entries in
    if is_dir
    then rest
    else if text_eq file_name (expected_file_name tag_name)
    then elim (read file_name) [ none ↦ failed (unreadable file_name) | some t ↦ content t ]
    else rest

-- `getMarkdownForTag`
unfoldable pub get_markdown_for_tag : Directory → Text → Markdown
unfolding find_markdown
get_markdown_for_tag dir [] = content []
get_markdown_for_tag dir (c ∷ name) = elim dir.entries [
  | none ↦ failed no_directory
  | some entries ↦ find_markdown dir.read_file (c ∷ name) entries
]

module _ (s : Service) where
  unfoldable pub exists_in_schemes : Text → List (Text × SecurityScheme) → Bool
  exists_in_schemes name [] = false
  exists_in_schemes name ((_, scheme) ∷ schemes) =
      s.lib.get_string scheme.extensions name || exists_in_schemes name schemes

  unfoldable pub set_extension : Text → Value → Api → Api
  unfolding contains put_key
  set_extension name v api =
      if contains name (codes "logo")
      then record api {
        info = record api.info { extensions = s.lib.add api.info.extensions name v };
      }
      else record api { extensions = put_key name v api.extensions }

  -- `parseExtension`
  unfoldable pub parse_extension : Text → Text → Api → Api × Option GeneralError
  unfolding exists_in_schemes set_extension
  parse_extension attribute value api =
      if exists_in_schemes (drop 1 attribute) api.security_definitions
      then (api, none)
      else if text_eq value []
      then (api, some (no_value attribute))
      else elim (s.unmarshal value) [
        | none ↦ (api, some (no_json attribute))
        | some v ↦ (set_extension (drop 1 attribute) v api, none)
      ]

-- `parseTagExtension`, of a tag that is not nil. A map that is made and left empty is an empty list.
unfoldable pub parse_tag_extension : Text → Text → Tag → Tag × Option GeneralError
unfolding put_key
parse_tag_extension attribute value tag =
    if text_eq value [] then (tag, some (no_value attribute)) else (
      record tag { extensions = put_key (drop 5 attribute) (Value.text value) tag.extensions },
      none,
    )
