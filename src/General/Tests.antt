-- ===== src/General/Tests.antt =====
-- Comments of a main file, and the theorems on the general information there.
use core_swag.Base.{◌≤◌, ◌≡◌, refl, false, ◌&&◌, List, [], ◌∷◌, none, some, arith, length}
use core_swag.Base.Maps.{put_key, get_key}
use core_swag.Base.Text.{
  Text, codes, text_eq, mem, has_prefix, has_suffix, contains, index, is_space, trim_left,
  trim_space, split, fields, fields_onto, to_lower,
}
use core_swag.Spec.{Value}
use core_swag.General.{
  Api, SecurityScheme, SchemeFunctions, Service, init_if_empty, set_info, set_swagger_info,
}
use core_swag.General.Fields.{
  fields_func_loop, fields_func, fields_by_any_space, append_description,
}
use core_swag.General.Fields.Limits.{length-fields_func, fields_by_any_space-fields}
use core_swag.General.Attributes.{
  split_line, is_mime_type, add_mime_types, parse_mime_type_list, is_general_api_comment,
}
use core_swag.General.MimeTypes.{Added, parse_mime_type_list-adds}
use core_swag.General.Security.{
  api_key, search_of, comma_scope, is_exists_scope, add_line, gather, scope_error, scan_lines,
  add_extensions, add_scopes, build_scheme, finish, parse_security_definition, split_pairs_onto,
  split_pairs, add_option, add_options, parse_security,
}
use core_swag.General.Security.Given.{from_next, all_given, has_good_scopes}
use core_swag.General.Security.Accepts.{is_defined, RestIs, parse_security_definition-Accepted}
use core_swag.General.Cases.{
  case_of, new_tag, change_last, last_tag, pointer_of, new_docs, describe_by_file,
  describe_tag_by_file, apply_tag, on_pointer, on_tag, add_security, apply_case,
}
use core_swag.General.Parse.{
  Outcome, after_step, after_definition, general_line, general_loop, parse_general_info,
  parse_comments,
}
use core_swag.General.Contract.{view, read_lines}
use core_swag.General.Total.{parse_general_info-total}
use core_swag.General.Refines.{view-parse_general_info}

abbrev no_scheme : SecurityScheme
no_scheme = record {
  type = [];
  description = [];
  name = [];
  in_ = [];
  flow = [];
  authorization_url = [];
  token_url = [];
  scopes = [];
  extensions = [];
}

abbrev lib : SchemeFunctions
lib = record {
  basic_auth = record no_scheme { type = codes "basic" };
  api_key_auth = λ name place. record no_scheme { type = codes "apiKey"; name = name; in_ = place };
  oauth2_application = λ t. record no_scheme { type = codes "oauth2"; token_url = t };
  oauth2_implicit = λ a. record no_scheme { type = codes "oauth2"; authorization_url = a };
  oauth2_password = λ t. record no_scheme { type = codes "oauth2"; token_url = t };
  oauth2_access_token =
      λ a t. record no_scheme { type = codes "oauth2"; authorization_url = a; token_url = t };
  add_extension = λ s k v. record s { extensions = put_key k v s.extensions };
  add_scope = λ s k v. record s { scopes = put_key k v s.scopes };
  get_string = λ m k. false;
  add = λ m k v. put_key k v m;
}

abbrev service : Service
service = record {
  lib = lib;
  directory = record { entries = none; read_file = λ t. none };
  unmarshal = λ t. some (Value.json t);
}

abbrev empty : Api
empty = record {
  info = record {
    version = [];
    title = [];
    terms_of_service = [];
    description = [];
    contact = record { name = []; url = []; email = [] };
    license = none;
    extensions = [];
  };
  host = [];
  base_path = [];
  consumes = [];
  produces = [];
  schemes = [];
  tags = [];
  security_definitions = [];
  security = [];
  external_docs = none;
  extensions = [];
}

evaluation : Unit {0}
unfolding text_eq mem has_prefix has_suffix contains index is_space trim_left trim_space split
    fields_onto fields to_lower put_key get_key init_if_empty set_info set_swagger_info
    fields_func_loop fields_func fields_by_any_space append_description split_line is_mime_type
    add_mime_types parse_mime_type_list is_general_api_comment comma_scope is_exists_scope add_line
    gather scope_error scan_lines add_extensions add_scopes build_scheme finish
    parse_security_definition split_pairs_onto split_pairs add_option add_options parse_security
    case_of new_tag change_last last_tag pointer_of new_docs describe_by_file describe_tag_by_file
    apply_tag on_pointer on_tag add_security apply_case after_step after_definition general_line
    general_loop parse_general_info parse_comments
evaluation = tt

abbrev comment : List Text
comment =
    codes "@Title Bank"
    ∷ codes "@description Accounts and"
    ∷ codes "@description loans."
    ∷ []
    ∷ codes "@tag.name a"
    ∷ codes "@tag.description All of a"
    ∷ codes "@securityDefinitions.apikey Key"
    ∷ codes "@in header"
    ∷ codes "@host lost.example"
    ∷ codes "@name X-Key"
    ∷ codes "@securityDefinitions.basic Basic"
    ∷ codes "@BasePath /v1"
    ∷ codes "@accept json,text/csv"
    ∷ codes "@version 1.0"
    ∷ []

abbrev bank : Api
bank = record empty {
  info = record empty.info { title = codes "Bank"; description = codes "Accounts and\nloans." };
  base_path = codes "/v1";
  consumes = codes "application/json" ∷ codes "text/csv" ∷ [];
  tags =
      record {
        name = codes "a";
        description = codes "All of a";
        external_docs = none;
        extensions = [];
      }
      ∷ [];
  security_definitions =
      (
        codes "Key",
        record no_scheme { type = codes "apiKey"; name = codes "X-Key"; in_ = codes "header" },
      )
      ∷ (codes "Basic", record no_scheme { type = codes "basic" })
      ∷ [];
}

-- The host behind the security definition and the version behind `@accept` are lost.
comment_read : parse_general_info service comment empty ≡ some (bank, none)
unfolding evaluation
comment_read = refl

-- An attribute that is wanted is missing.
incomplete :
    is_defined (parse_security_definition lib (codes "Key") api_key (codes "@in header" ∷ []))
    ≡ false
unfolding evaluation
incomplete = refl

-- A bracket that is not closed ends the program.
security_fault : parse_security (codes "Key[a") ≡ none
unfolding evaluation
security_fault = refl

view-parse_general_info_example : view bank ≡ read_lines false comment (view empty)
view-parse_general_info_example = view-parse_general_info service comment empty bank comment_read

parse_general_info-total_example :
    (o : Outcome) × (parse_general_info service comment empty ≡ some o)
parse_general_info-total_example = parse_general_info-total service comment empty

abbrev key_lines : List Text
key_lines = codes "@name X-Key" ∷ codes "@in header" ∷ codes "@securitydefinitions.basic B" ∷ []

parse_security_definition-Accepted_example :
    (is_defined (parse_security_definition lib (codes "@k") api_key key_lines)
      ≡ (has_good_scopes (search_of api_key) key_lines && all_given key_lines (search_of api_key)))
    × RestIs (from_next key_lines) (parse_security_definition lib (codes "@k") api_key key_lines)
parse_security_definition-Accepted_example =
    parse_security_definition-Accepted lib (codes "@k") api_key key_lines (λ h. ground arith)

parse_mime_type_list-adds_example :
    Added
      (split (codes "json, text/csv,?") b',')
      []
      (parse_mime_type_list (codes "json, text/csv,?") [])
parse_mime_type_list-adds_example = parse_mime_type_list-adds (codes "json, text/csv,?") []

length-fields_func_example : length (fields_func (codes " a  b c") is_space 2) ≤ 2
length-fields_func_example = length-fields_func (codes " a  b c") is_space 2 (omega arith)

fields_by_any_space-fields_example :
    fields_by_any_space (codes " a  b c") 0 ≡ fields (codes " a  b c")
fields_by_any_space-fields_example = fields_by_any_space-fields (codes " a  b c")
