-- ===== src/Spec.antt =====
-- The values of package `spec` (github.com/go-openapi/spec) that the program reads and writes, as
-- records of the fields that the program names. A float64 is its 64-bit pattern, an int64 its
-- 64-bit pattern, and a Go map is an association list in some order.
use core_swag.Base.{
  ℕ, ◌^◌, ◌/◌, ◌%◌, ◌≡◌, refl, Bool, not, leb, ◌&&◌, ◌||◌, map, All, true, Option, List, [], ◌∷◌,
  ◌++◌, false, none, ◌==◌,
}
use core_swag.Base.Text.{Text, codes, text_eq, mem}

-- `interface{}` values of the annotations
pub data Value : Type 0 where
  number : ℕ → Value
  text : Text → Value
  boolean : Bool → Value
  integer : ℕ → Value
  json : Text → Value

-- Neither `math.IsInf(f, 0)` nor `math.IsNaN(f)`: the exponent field is not all ones.
unfoldable pub is_finite : ℕ → Bool
is_finite f = not ((f / 2 ^ 52) % 2048 == 2047)

-- The fields of `spec.Schema` that hold no schema. `ref` is `Ref.String()`.
pub record Props : Type 0 where
  pub ref : Text
  pub type : List Text
  pub format : Text
  pub description : Text
  pub required : List Text
  pub nullable : Bool
  pub default : Option Value
  pub example : Option Value
  pub extensions : List (Text × Value)
  pub maximum : Option ℕ
  pub minimum : Option ℕ
  pub exclusive_maximum : Bool
  pub exclusive_minimum : Bool
  pub max_length : Option ℕ
  pub min_length : Option ℕ
  pub pattern_of : Text
  pub max_items : Option ℕ
  pub min_items : Option ℕ
  pub unique_items : Bool
  pub multiple_of : Option ℕ
  pub enum : List Value
  pub extra_props : List (Text × Value)

abbrev pub no_props : Props
no_props = record {
  ref = [];
  type = [];
  format = [];
  description = [];
  required = [];
  nullable = false;
  default = none;
  example = none;
  extensions = [];
  maximum = none;
  minimum = none;
  exclusive_maximum = false;
  exclusive_minimum = false;
  max_length = none;
  min_length = none;
  pattern_of = [];
  max_items = none;
  min_items = none;
  unique_items = false;
  multiple_of = none;
  enum = [];
  extra_props = [];
}

-- `spec.Schema`: own fields, Items, Properties, AdditionalProperties, AllOf, OneOf, AnyOf, Not and
-- Definitions.
mutual
  pub data Schema : Type 0 where
    schema :
        Props
        → OptItems
        → Fields
        → OptAdditional
        → Schemas
        → Schemas
        → Schemas
        → OptSchema
        → Fields
        → Schema

  pub data Schemas : Type 0 where
    nil : Schemas
    cons : Schema → Schemas → Schemas

  pub data Fields : Type 0 where
    end : Fields
    field : Text → Schema → Fields → Fields

  pub data OptSchema : Type 0 where
    absent : OptSchema
    present : Schema → OptSchema

  pub data OptItems : Type 0 where
    no_items : OptItems
    items_of : OptSchema → Schemas → OptItems

  pub data OptAdditional : Type 0 where
    no_additional : OptAdditional
    additional : Bool → OptSchema → OptAdditional

-- A schema with own fields only.
abbrev pub plain : Props → Schema
plain p = schema p no_items end no_additional nil nil nil absent end

-- `spec.Items`; the second constructor has the field Items set.
pub record ItemProps : Type 0 where
  pub ref : Text
  pub type : Text
  pub format : Text
  pub enum : List Value

pub data Items : Type 0 where
  item : ItemProps → Items
  item_of : ItemProps → Items → Items

pub record Header : Type 0 where
  pub type : Text
  pub format : Text
  pub description : Text
  pub items : Option Items

pub record Response : Type 0 where
  pub description : Text
  pub schema : OptSchema
  pub headers : List (Text × Header)

pub record Parameter : Type 0 where
  pub name : Text
  pub in_ : Text
  pub required : Bool
  pub description : Text
  pub schema : OptSchema
  pub type : Text
  pub format : Text
  pub items : Option Items
  pub default : Option Value
  pub enum : List Value
  pub minimum : Option ℕ
  pub maximum : Option ℕ
  pub min_length : Option ℕ
  pub max_length : Option ℕ

-- `spec.Responses`
pub record Responses : Type 0 where
  pub status_code_responses : List (ℕ × Response)
  pub default : Option Response

pub record Operation : Type 0 where
  pub id : Text
  pub summary : Text
  pub description : Text
  pub tags : List Text
  pub consumes : List Text
  pub produces : List Text
  pub deprecated : Bool
  pub extensions : List (Text × Value)
  pub parameters : List Parameter
  pub responses : Option Responses
  pub security : List (List (Text × List Text))

pub record PathItem : Type 0 where
  pub get : Option Operation
  pub put : Option Operation
  pub post : Option Operation
  pub delete : Option Operation
  pub options : Option Operation
  pub head : Option Operation
  pub patch : Option Operation
  pub parameters : List Parameter

-- The parts of `spec.Swagger` that hold schemas. `none` is a nil pointer or a nil map.
pub record Swagger : Type 0 where
  pub paths : Option (List (Text × PathItem))
  pub parameters : List (Text × Parameter)
  pub responses : List (Text × Response)
  pub definitions : Option (List (Text × Schema))

-- The functions of package `spec` that the program calls. `create_ref` gives `Ref.String()` of
-- `MustCreateRef`, which writes other characters than the plain ones with percent signs, and `has_url`
-- tells of a `Ref.String()` whether `GetURL` is not nil. `MustCreateRef` panics where the reference is
-- no URL, as `#/definitions/%zz` is: the program ends there, and what is said of its results is said of
-- runs in which it does not.
pub record Functions : Type 0 where
  pub array_property : Schema → Schema
  pub map_property : Schema → Schema
  pub composed_schema : Schema → Schema → Schema
  pub create_ref : Text → Text
  pub has_url : Text → Bool

-- A character that a URL keeps after `#`, of those that names of Go types, their packages and their
-- arguments have
unfoldable pub is_plain : ℕ → Bool
is_plain c =
    (leb b'0' c && leb c b'9')
    || (leb b'A' c && leb c b'Z')
    || (leb b'a' c && leb c b'z')
    || mem (c ∷ []) (map (λ d. d ∷ []) (codes "_.-/[],"))

abbrev pub IsPlainName : Text → Type 0
IsPlainName name = All (λ c. is_plain c ≡ true) name

-- What the documentation of package `spec` says of them: an array schema has the items, a map
-- schema the additional properties, and a composed schema both parts in AllOf. A reference to a
-- definition stays one, and is as it was written if the name is plain.
pub record IsDocumented (lib : Functions) : Type 0 where
  pub array :
      (s : Schema)
      → lib.array_property s
        ≡ schema
            (record no_props { type = codes "array" ∷ [] })
            (items_of (present s) nil)
            end
            no_additional
            nil
            nil
            nil
            absent
            end
  pub map_of :
      (s : Schema)
      → lib.map_property s
        ≡ schema
            (record no_props { type = codes "object" ∷ [] })
            no_items
            end
            (additional true (present s))
            nil
            nil
            nil
            absent
            end
  pub composed :
      (s t : Schema)
      → lib.composed_schema s t
        ≡ schema no_props no_items end no_additional (cons s (cons t nil)) nil nil absent end
  pub located :
      (name : Text)
      → (written : Text) × (lib.create_ref (codes "#/definitions/" ++ name)
          ≡ codes "#/definitions/" ++ written)
  pub created :
      (name : Text)
      → IsPlainName name
      → lib.create_ref (codes "#/definitions/" ++ name) ≡ codes "#/definitions/" ++ name

-- Functions that do so.
abbrev pub documented : Functions
documented = record {
  array_property = λ s.
      schema (record no_props { type = codes "array" ∷ [] }) (items_of (present s) nil) end
        no_additional nil nil nil absent end;
  map_property = λ s.
      schema (record no_props { type = codes "object" ∷ [] }) no_items end
        (additional true (present s)) nil nil nil absent end;
  composed_schema =
      λ s t. schema no_props no_items end no_additional (cons s (cons t nil)) nil nil absent end;
  create_ref = λ t. t;
  has_url = λ t. not (text_eq t []);
}

pub documented-IsDocumented : IsDocumented documented
documented-IsDocumented = record {
  array = λ s. refl;
  map_of = λ s. refl;
  composed = λ s t. refl;
  located = λ n. (n, refl);
  created = λ n plain. refl;
}
