-- ===== src/Schema/Types.antt =====
-- internal/schema/types.go: the types of the tag `swaggertype`, and the merge of schemas.
pub mod Merge
pub mod Print
pub mod Tests
use core_swag.Base.{
  Bool, true, false, ◌&&◌, ◌||◌, not, List, [], ◌∷◌, Option, none, some, ltb, length, if◌then◌else◌,
  ◌++◌,
}
use core_swag.Base.Text.{Text, codes, text_eq, mem}
use core_swag.Spec.{
  Functions, Value, Props, no_props, Schema, schema, Schemas, nil, cons, Fields, end, field,
  OptSchema, absent, present, OptItems, no_items, items_of, OptAdditional, no_additional,
  additional, plain,
}

-- `IsSimplePrimitiveType`
unfoldable pub is_simple_primitive_type : Text → Bool
is_simple_primitive_type name =
    mem name (codes "string" ∷ codes "number" ∷ codes "integer" ∷ codes "boolean" ∷ [])

abbrev pub primitive_types : List Text
primitive_types =
    codes "string"
    ∷ codes "number"
    ∷ codes "integer"
    ∷ codes "boolean"
    ∷ codes "array"
    ∷ codes "object"
    ∷ codes "func"
    ∷ []

-- `IsPrimitiveType`
unfoldable pub is_primitive_type : Text → Bool
is_primitive_type name = mem name primitive_types

abbrev pub has_values : List Value → Bool
has_values [] = false
has_values (v ∷ vs) = true

-- `IsComplexSchema`
unfoldable pub is_complex_schema : Schema → Bool
is_complex_schema (schema p items props addl all one any not_ defs) =
    has_values p.enum || ltb 2 (length p.type) || mem (codes "object") p.type

-- `PrimitiveSchema`
abbrev pub primitive_schema : Text → Schema
primitive_schema name = plain (record no_props { type = name ∷ [] })

-- A schema, nil or an error
pub data Built : Type 0 where
  built : Schema → Built
  nothing : Built
  failed : Text → Built

abbrev pub wrap : (Schema → Schema) → Built → Built
wrap f (built s) = built (f s)
wrap f nothing = nothing
wrap f (failed e) = failed e

abbrev pub is_alone : List Text → Bool
is_alone [] = true
is_alone (t ∷ ts) = false

-- `BuildCustomSchema`
unfoldable pub build_custom_schema : Functions → List Text → Built
unfolding is_primitive_type
build_custom_schema lib [] = nothing
build_custom_schema lib (t ∷ ts) =
    let rest = build_custom_schema lib ts in
    if text_eq t (codes "primitive")
    then (if is_alone ts then failed (codes "need primitive type after primitive") else rest)
    else if text_eq t (codes "array")
    then (if is_alone ts
        then failed (codes "need array item type after array")
        else wrap lib.array_property rest)
    else if text_eq t (codes "object")
    then (if is_alone ts then built (primitive_schema t) else wrap lib.map_property rest)
    else if not (is_primitive_type t)
    then failed (t ++ codes " is not basic types")
    else built (primitive_schema t)

-- A field of the source, unless it is empty
unfoldable pub over {ℓ} : {A : Type ℓ} → (A → Bool) → A → A → A
over is_empty dst src = if is_empty src then dst else src

abbrev pub no_list {ℓ} : {A : Type ℓ} → List A → Bool
no_list [] = true
no_list (x ∷ xs) = false

abbrev pub no_option {ℓ} : {A : Type ℓ} → Option A → Bool
no_option none = true
no_option (some x) = false

abbrev pub no_items_of : OptItems → Bool
no_items_of no_items = true
no_items_of (items_of s ss) = false

abbrev pub no_additional_of : OptAdditional → Bool
no_additional_of no_additional = true
no_additional_of (additional b s) = false

abbrev pub no_fields : Fields → Bool
no_fields end = true
no_fields (field n s fs) = false

-- The fields that hold no schema
unfoldable pub merge_props : Props → Props → Props
merge_props dst src = record dst {
  type = over no_list dst.type src.type;
  description = over no_list dst.description src.description;
  nullable = over not dst.nullable src.nullable;
  format = over no_list dst.format src.format;
  default = over no_option dst.default src.default;
  example = over no_option dst.example src.example;
  extensions = over no_list dst.extensions src.extensions;
  maximum = over no_option dst.maximum src.maximum;
  minimum = over no_option dst.minimum src.minimum;
  exclusive_maximum = over not dst.exclusive_maximum src.exclusive_maximum;
  exclusive_minimum = over not dst.exclusive_minimum src.exclusive_minimum;
  max_length = over no_option dst.max_length src.max_length;
  min_length = over no_option dst.min_length src.min_length;
  pattern_of = over no_list dst.pattern_of src.pattern_of;
  max_items = over no_option dst.max_items src.max_items;
  min_items = over no_option dst.min_items src.min_items;
  unique_items = over not dst.unique_items src.unique_items;
  multiple_of = over no_option dst.multiple_of src.multiple_of;
  enum = over no_list dst.enum src.enum;
  extra_props = over no_list dst.extra_props src.extra_props;
}

-- `MergeSchema`
unfoldable pub merge_schema : Schema → Schema → Schema
unfolding over merge_props
merge_schema (schema p items props addl all one any not_ defs)
      (schema p' items' props' addl' _ _ _ _ _) =
    schema (merge_props p p') (over no_items_of items items') (over no_fields props props')
      (over no_additional_of addl addl') all one any not_ defs
