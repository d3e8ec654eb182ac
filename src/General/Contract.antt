-- ===== src/General/Contract.antt =====
-- What a comment promises: the part of an API that single lines set, as a machine that reads the
-- lines one by one. It has no fuel and knows nothing of how security definitions are gathered.
use core_swag.Base.{
  Bool, true, false, ◌&&◌, not, List, [], ◌∷◌, ◌++◌, Option, some, map, if◌then◌else◌,
}
use core_swag.Base.Text.{Text, split, trim_space}
use core_swag.General.{
  Api, Contact, License, Tag, InfoField, version, title, terms_of_service, description,
  contact_name, contact_email, contact_url, license_name, license_url, init_if_empty,
}
use core_swag.General.Attributes.{split_line}
use core_swag.General.Security.{basic}
use core_swag.General.Security.Given.{starts}
use core_swag.General.Cases.{
  Case, info, host, base_path, accept, produce, schemes, tag_name, definition, case_of,
}

pub record View : Type 0 where
  pub version : Text
  pub title : Text
  pub terms_of_service : Text
  pub contact : Contact
  pub license : Option License
  pub host : Text
  pub base_path : Text
  pub schemes : List Text
  pub tag_names : List Text

abbrev pub names : List Tag → List Text
names = map (λ t. t.name)

unfoldable pub view : Api → View
view api = record {
  version = api.info.version;
  title = api.info.title;
  terms_of_service = api.info.terms_of_service;
  contact = api.info.contact;
  license = api.info.license;
  host = api.host;
  base_path = api.base_path;
  schemes = api.schemes;
  tag_names = names api.tags;
}

-- A line sets the field of its attribute, and adds to the tags.
unfoldable pub update_info : InfoField → Text → View → View
unfolding init_if_empty
update_info version x v = record v { version = x }
update_info title x v = record v { title = x }
update_info terms_of_service x v = record v { terms_of_service = x }
update_info description x v = v
update_info contact_name x v = record v { contact = record v.contact { name = x } }
update_info contact_email x v = record v { contact = record v.contact { email = x } }
update_info contact_url x v = record v { contact = record v.contact { url = x } }
update_info license_name x v = record v {
  license = some (record (init_if_empty v.license) { name = x });
}
update_info license_url x v = record v {
  license = some (record (init_if_empty v.license) { url = x });
}

unfoldable pub update : Case → Text → View → View
unfolding update_info
update (info f) x v = update_info f x v
update host x v = record v { host = x }
update base_path x v = record v { base_path = x }
update schemes x v = record v { schemes = split x 32 }
update tag_name x v = record v { tag_names = v.tag_names ++ x ∷ [] }
update c x v = v

-- Whether the machine stops at a line, skips the lines behind it up to the next security definition,
-- or reads on.
pub data Mode : Type 0 where
  stops skips reads : Mode

unfoldable pub mode_of : Case → Mode
mode_of accept = stops
mode_of produce = stops
mode_of (definition basic) = reads
mode_of (definition kind) = skips
mode_of c = reads

abbrev pub by_mode : Mode → View → View → View → View
by_mode stops v skipped next = v
by_mode skips v skipped next = skipped
by_mode reads v skipped next = next

abbrev pub line_case : Text → Case
line_case line = case_of (split_line (trim_space line)).0

abbrev pub line_value : Text → Text
line_value line = (split_line (trim_space line)).1

unfoldable pub read_lines : Bool → List Text → View → View
unfolding update mode_of
read_lines skipping [] v = v
read_lines skipping (line ∷ lines) v =
    let skipped = read_lines true lines v in
    let next = read_lines false lines (update (line_case line) (line_value line) v) in
    if skipping && not (starts line)
    then skipped
    else by_mode (mode_of (line_case line)) v skipped next
