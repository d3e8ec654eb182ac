-- ===== src/General.antt =====
-- internal/parser/base: the general information of an API. The state is the part of `spec.Swagger`
-- that it writes; a pointer to a tag is one to the last tag.
pub mod Fields
pub mod Attributes
pub mod Security
pub mod Cases
pub mod Parse
pub mod Total
pub mod MimeTypes
pub mod Contract
pub mod Refines
pub mod Tests
use core_swag.Base.{Bool, List, Option, none, some, ◌≡◌, [], ◌∷◌, if◌then◌else◌}
use core_swag.Base.Text.{Text, codes, text_eq}
use core_swag.Spec.{Value}

-- `spec.ContactInfo`, `spec.License` and `spec.Info`
pub record Contact : Type 0 where
  pub name : Text
  pub url : Text
  pub email : Text

pub record License : Type 0 where
  pub name : Text
  pub url : Text

pub record Info : Type 0 where
  pub version : Text
  pub title : Text
  pub terms_of_service : Text
  pub description : Text
  pub contact : Contact
  pub license : Option License
  pub extensions : List (Text × Value)

-- `spec.ExternalDocumentation`
pub record ExternalDocs : Type 0 where
  pub url : Text
  pub description : Text

-- `spec.Tag`
pub record Tag : Type 0 where
  pub name : Text
  pub description : Text
  pub external_docs : Option ExternalDocs
  pub extensions : List (Text × Value)

-- `spec.SecurityScheme`
pub record SecurityScheme : Type 0 where
  pub type : Text
  pub description : Text
  pub name : Text
  pub in_ : Text
  pub flow : Text
  pub authorization_url : Text
  pub token_url : Text
  pub scopes : List (Text × Text)
  pub extensions : List (Text × Value)

-- `spec.Swagger`
pub record Api : Type 0 where
  pub info : Info
  pub host : Text
  pub base_path : Text
  pub consumes : List Text
  pub produces : List Text
  pub schemes : List Text
  pub tags : List Tag
  pub security_definitions : List (Text × SecurityScheme)
  pub security : List (List (Text × List Text))
  pub external_docs : Option ExternalDocs
  pub extensions : List (Text × Value)

-- The functions of package `spec` on security schemes and extensions. `get_string` tells whether
-- `Extensions.GetString` finds a string.
pub record SchemeFunctions : Type 0 where
  pub basic_auth : SecurityScheme
  pub api_key_auth : Text → Text → SecurityScheme
  pub oauth2_application : Text → SecurityScheme
  pub oauth2_implicit : Text → SecurityScheme
  pub oauth2_password : Text → SecurityScheme
  pub oauth2_access_token : Text → Text → SecurityScheme
  pub add_extension : SecurityScheme → Text → Value → SecurityScheme
  pub add_scope : SecurityScheme → Text → Text → SecurityScheme
  pub get_string : List (Text × Value) → Text → Bool
  pub add : List (Text × Value) → Text → Value → List (Text × Value)

-- The markdown directory: each entry's name, and whether it is a directory; then the text of a file.
pub record Directory : Type 0 where
  pub entries : Option (List (Text × Bool))
  pub read_file : Text → Option Text

-- What the service calls: package `spec`, the directory, and `json.Unmarshal`.
pub record Service : Type 0 where
  pub lib : SchemeFunctions
  pub directory : Directory
  pub unmarshal : Text → Option Value

pub data GeneralError : Type 0 where
  no_directory : GeneralError
  unreadable : Text → GeneralError
  no_markdown : Text → GeneralError
  bad_mime_type : Text → GeneralError
  docs_without_url : Text → GeneralError
  required : Text → List Text → GeneralError
  scope_with_comma : Text → GeneralError
  no_value : Text → GeneralError
  no_json : Text → GeneralError
  slice_fault : GeneralError

-- `initIfEmpty`
unfoldable pub init_if_empty : Option License → License
init_if_empty none = record { name = []; url = [] }
init_if_empty (some l) = l

-- The fields that `setSwaggerInfo` sets, and the attributes of its switch.
pub data InfoField : Type 0 where
  version title terms_of_service description : InfoField
  contact_name contact_email contact_url license_name license_url : InfoField

unfoldable pub set_info : InfoField → Text → Info → Info
unfolding init_if_empty
set_info version v i = record i { version = v }
set_info title v i = record i { title = v }
set_info terms_of_service v i = record i { terms_of_service = v }
set_info description v i = record i { description = v }
set_info contact_name v i = record i { contact = record i.contact { name = v } }
set_info contact_email v i = record i { contact = record i.contact { email = v } }
set_info contact_url v i = record i { contact = record i.contact { url = v } }
set_info license_name v i = record i {
  license = some (record (init_if_empty i.license) { name = v });
}
set_info license_url v i = record i {
  license = some (record (init_if_empty i.license) { url = v });
}

-- `setSwaggerInfo`, of an attribute of its switch
unfoldable pub set_swagger_info : InfoField → Text → Api → Api
unfolding set_info
set_swagger_info f v api = record api { info = set_info f v api.info }
