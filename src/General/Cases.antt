-- ===== src/General/Cases.antt =====
-- internal/parser/base/service.go: the switch of the loop over the lines of a comment.
use core_swag.Base.{Bool, true, false, List, [], ◌∷◌, ◌++◌, Option, none, some, if◌then◌else◌}
use core_swag.Base.Maps.{get_key}
use core_swag.Base.Text.{Text, codes, text_eq, has_prefix, split, to_lower}
use core_swag.General.{
  Api, Tag, ExternalDocs, InfoField, version, title, terms_of_service, description, contact_name,
  contact_email, contact_url, license_name, license_url, set_swagger_info, Service, GeneralError,
  docs_without_url, slice_fault,
}
use core_swag.General.Fields.{append_description}
use core_swag.General.Attributes.{
  parse_mime_type_list, Markdown, content, failed, get_markdown_for_tag, parse_extension,
  parse_tag_extension,
}
use core_swag.General.Security.{
  Kind, basic, api_key, application, implicit, password, access_code, parse_security,
}

-- The cases of the switch of `ParseGeneralInfo`.
pub data Case : Type 0 where
  info : InfoField → Case
  described described_by_file host base_path accept produce schemes : Case
  tag_name tag_description tag_description_file tag_docs_url tag_docs_description : Case
  definition : Kind → Case
  security docs_description docs_url other : Case

abbrev pub cases : List (Text × Case)
cases =
    (codes "@version", info version)
    ∷ (codes "@title", info title)
    ∷ (codes "@termsofservice", info terms_of_service)
    ∷ (codes "@license.name", info license_name)
    ∷ (codes "@license.url", info license_url)
    ∷ (codes "@contact.name", info contact_name)
    ∷ (codes "@contact.url", info contact_url)
    ∷ (codes "@contact.email", info contact_email)
    ∷ (codes "@description", described)
    ∷ (codes "@description.markdown", described_by_file)
    ∷ (codes "@host", host)
    ∷ (codes "@basepath", base_path)
    ∷ (codes "@accept", accept)
    ∷ (codes "@produce", produce)
    ∷ (codes "@schemes", schemes)
    ∷ (codes "@tag.name", tag_name)
    ∷ (codes "@tag.description", tag_description)
    ∷ (codes "@tag.description.markdown", tag_description_file)
    ∷ (codes "@tag.docs.url", tag_docs_url)
    ∷ (codes "@tag.docs.description", tag_docs_description)
    ∷ (codes "@securitydefinitions.basic", definition basic)
    ∷ (codes "@securitydefinitions.apikey", definition api_key)
    ∷ (codes "@securitydefinitions.oauth2.application", definition application)
    ∷ (codes "@securitydefinitions.oauth2.implicit", definition implicit)
    ∷ (codes "@securitydefinitions.oauth2.password", definition password)
    ∷ (codes "@securitydefinitions.oauth2.accesscode", definition access_code)
    ∷ (codes "@security", security)
    ∷ (codes "@externaldocs.description", docs_description)
    ∷ (codes "@externaldocs.url", docs_url)
    ∷ []

abbrev case_or_other : Option Case → Case
case_or_other none = other
case_or_other (some c) = c

-- The case of an attribute, in any case of letters.
unfoldable pub case_of : Text → Case
unfolding get_key to_lower
case_of attribute = case_or_other (get_key (to_lower attribute) cases)

-- The state of the loop. `tagged` tells that `tag` is not nil: then it is the last of the tags.
pub record Run : Type 0 where
  pub api : Api
  pub tagged : Bool
  pub previous : Text

-- A case goes on to the next line, or returns.
pub data Step : Type 0 where
  go : Run → Step
  return : Api → Option GeneralError → Step

abbrev pub api_of : Step → Api
api_of (go r) = r.api
api_of (return api e) = api

unfoldable pub new_tag : Text → Tag
new_tag name = record { name = name; description = []; external_docs = none; extensions = [] }

unfoldable pub change_last : (Tag → Tag) → List Tag → List Tag
change_last f [] = []
change_last f (t ∷ []) = f t ∷ []
change_last f (t ∷ u ∷ ts) = t ∷ change_last f (u ∷ ts)

unfoldable pub last_tag : List Tag → Option Tag
last_tag [] = none
last_tag (t ∷ []) = some t
last_tag (t ∷ u ∷ ts) = last_tag (u ∷ ts)

-- `tag`
unfoldable pub pointer_of : Bool → List Tag → Option Tag
unfolding last_tag
pointer_of false tags = none
pointer_of true tags = last_tag tags

unfoldable pub new_docs : Option ExternalDocs → ExternalDocs
new_docs none = record { url = []; description = [] }
new_docs (some d) = d

-- The state behind a line of attribute `a`.
abbrev pub seen : Text → Run → Api → Step
seen a r api = go (record r { api = api; previous = a })

abbrev pub set_tag : Text → Run → (Tag → Tag) → Step
set_tag a r f = seen a r (record r.api { tags = change_last f r.api.tags })

abbrev pub returned : Run → Api × Option GeneralError → Text → Step
returned r (api, none) a = seen a r api
returned r (api, some e) a = return api (some e)

abbrev pub keep_tag : Text → Run → Tag × Option GeneralError → Step
keep_tag a r (t, none) = set_tag a r (λ g. t)
keep_tag a r (t, some e) = return r.api (some e)

module _ (s : Service) where
  -- `@description.markdown` and `@tag.description.markdown`
  unfoldable pub describe_by_file : Text → Run → Markdown → Step
  unfolding set_swagger_info
  describe_by_file a r (content t) = seen a r (set_swagger_info description t r.api)
  describe_by_file a r (failed e) = return r.api (some e)

  unfoldable pub describe_tag_by_file : Text → Run → Markdown → Step
  unfolding change_last
  describe_tag_by_file a r (content t) = set_tag a r (λ g. record g { description = t })
  describe_tag_by_file a r (failed e) = return r.api (some e)

  -- The cases on the tag, when it is not nil.
  unfoldable pub apply_tag : Case → Text → Text → Run → Tag → Step
  unfolding change_last parse_tag_extension describe_tag_by_file get_markdown_for_tag
  apply_tag tag_description a v r t = set_tag a r (λ g. record g { description = v })
  apply_tag tag_description_file a v r t =
      describe_tag_by_file a r (get_markdown_for_tag s.directory t.name)
  apply_tag tag_docs_url a v r t =
      set_tag a r (λ g. record g { external_docs = some (record { url = v; description = [] }) })
  apply_tag tag_docs_description a v r t = elim t.external_docs [
    | none ↦ return r.api (some (docs_without_url a))
    | some d ↦ set_tag a r (λ g. record g { external_docs = some (record d { description = v }) })
  ]
  apply_tag other a v r t = keep_tag a r (parse_tag_extension a v t)
  apply_tag c a v r t = seen a r r.api

  unfoldable pub on_pointer : Case → Text → Text → Run → Option Tag → Step
  unfolding apply_tag
  on_pointer c a v r none = seen a r r.api
  on_pointer c a v r (some t) = apply_tag c a v r t

  unfoldable pub on_tag : Case → Text → Text → Run → Step
  unfolding on_pointer pointer_of
  on_tag c a v r = on_pointer c a v r (pointer_of r.tagged r.api.tags)

  unfoldable pub add_security : Text → Run → Option (List (Text × List Text)) → Step
  add_security a r none = return r.api (some slice_fault)
  add_security a r (some m) = seen a r (record r.api { security = r.api.security ++ m ∷ [] })

  -- The switch for a line of attribute `a` and value `v`, but for security definitions.
  unfoldable pub apply_case : Case → Text → Text → Run → Step
  unfolding set_swagger_info append_description describe_by_file get_markdown_for_tag
      parse_mime_type_list new_tag on_tag add_security parse_security new_docs parse_extension
  apply_case (info f) a v r = seen a r (set_swagger_info f v r.api)
  apply_case described a v r =
      if text_eq r.previous a
      then go (record r {
        api = set_swagger_info description (append_description r.api.info.description v) r.api;
      })
      else seen a r (set_swagger_info description v r.api)
  apply_case described_by_file a v r =
      describe_by_file a r (get_markdown_for_tag s.directory (codes "api"))
  apply_case host a v r = seen a r (record r.api { host = v })
  apply_case base_path a v r = seen a r (record r.api { base_path = v })
  apply_case accept a v r =
      let (types, e) = parse_mime_type_list v r.api.consumes in
      return (record r.api { consumes = types }) e
  apply_case produce a v r =
      let (types, e) = parse_mime_type_list v r.api.produces in
      return (record r.api { produces = types }) e
  apply_case schemes a v r = seen a r (record r.api { schemes = split v 32 })
  apply_case tag_name a v r = go (record r {
    api = record r.api { tags = r.api.tags ++ new_tag v ∷ [] };
    tagged = true;
    previous = a;
  })
  apply_case security a v r = add_security a r (parse_security v)
  apply_case docs_description a v r = seen a r (record r.api {
    external_docs = some (record (new_docs r.api.external_docs) { description = v });
  })
  apply_case docs_url a v r =
      seen a r
        (record r.api { external_docs = some (record (new_docs r.api.external_docs) { url = v }) })
  apply_case other a v r =
      if has_prefix a (codes "@x-")
      then returned r (parse_extension s a v r.api) a
      else if has_prefix a (codes "@tag.x-")
      then on_tag other a v r
      else seen a r r.api
  apply_case c a v r = on_tag c a v r
