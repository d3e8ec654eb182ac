-- ===== src/Route/Domain.antt =====
-- internal/parser/route/domain/route.go: routes as the parser leaves them. A pointer to a schema
-- may be null, and maps are association lists.
pub mod Each
use core_swag.Base.{ℕ, Bool, false, List, [], Option}
use core_swag.Base.Text.{Text}
use core_swag.Spec.{Value}

-- `Schema`: Type, Ref, TypePath, Items, Properties, AdditionalProperties, AllOf, Required and
-- Description.
mutual
  pub data DomainSchema : Type 0 where
    domain :
        Text
        → Text
        → Text
        → Pointer
        → Properties
        → Pointer
        → Pointers
        → List Text
        → Text
        → DomainSchema

  pub data Pointer : Type 0 where
    null : Pointer
    points : DomainSchema → Pointer

  pub data Pointers : Type 0 where
    no_pointers : Pointers
    pointer : Pointer → Pointers → Pointers

  pub data Properties : Type 0 where
    no_properties : Properties
    property : Text → Pointer → Properties → Properties

-- A schema that is a reference, and one that has a type only.
abbrev pub domain_ref : Text → Text → DomainSchema
domain_ref ref type_path = domain [] ref type_path null no_properties null no_pointers [] []

abbrev pub domain_type : Text → DomainSchema
domain_type type = domain type [] [] null no_properties null no_pointers [] []

pub record DomainItems : Type 0 where
  pub type : Text
  pub format : Text
  pub enum : List Value

pub record DomainParameter : Type 0 where
  pub name : Text
  pub in_ : Text
  pub type : Text
  pub required : Bool
  pub description : Text
  pub schema : Pointer
  pub items : Option DomainItems
  pub default : Option Value
  pub format : Text
  pub enum : List Value
  pub minimum : Option ℕ
  pub maximum : Option ℕ
  pub min_length : Option ℕ
  pub max_length : Option ℕ

pub record DomainHeader : Type 0 where
  pub type : Text
  pub description : Text
  pub format : Text

pub record DomainResponse : Type 0 where
  pub description : Text
  pub schema : Pointer
  pub headers : List (Text × DomainHeader)

pub record Route : Type 0 where
  pub method : Text
  pub path : Text
  pub summary : Text
  pub description : Text
  pub tags : List Text
  pub parameters : List DomainParameter
  pub responses : List (ℕ × DomainResponse)
  pub security : List (List (Text × List Text))
  pub consumes : List Text
  pub produces : List Text
  pub is_public : Bool
  pub deprecated : Bool
  pub operation_id : Text
  pub file_path : Text
  pub function_name : Text
  pub line_number : ℕ
