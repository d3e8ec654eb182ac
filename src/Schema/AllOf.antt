-- ===== src/Schema/AllOf.antt =====
-- internal/schema/allof.go: the combined type syntax `Response{data=Account,meta=Meta}`.
pub mod Split
pub mod RoundTrip
pub mod Compose
pub mod Tests
use core_swag.Base.{
  ℕ, zero, suc, ◌+◌, ◌-◌, Bool, true, false, ◌&&◌, ◌||◌, not, List, [], ◌∷◌, ◌++◌, Option, none,
  some, length, take, drop, ltb, ◌==◌, if◌then◌else◌,
}
use core_swag.Base.Text.{Text, codes, text_eq, trim_space, index, last_index, count, has_suffix}
use core_swag.Spec.{
  Schema, schema, plain, no_props, Fields, end, field, OptSchema, present, Functions, no_items,
  no_additional, nil, absent,
}

-- The errors of the parser.
pub data Error : Type 0 where
  empty_type : Error
  missing_closing_brace : Text → Error
  extra_closing_brace : Text → Error
  invalid_field_override : Text → Error
  empty_field_name : Text → Error
  empty_type_name : Text → Error

-- A value or the error that is returned in its place.
pub data Result {ℓ} (T : Type ℓ) : Type ℓ where
  err : Error → Result T
  ok : T → Result T

infixl 5 ◌>>=◌
abbrev pub ◌>>=◌ {κ ℓ} : {S : Type κ} {T : Type ℓ} → Result S → (S → Result T) → Result T
err failure >>= next = err failure
ok value >>= next = next value

-- The counter `nestLevel`, which closing braces may take below zero. `negsuc n` is -(n + 1).
pub data ℤ : Type 0 where
  pos : ℕ → ℤ
  negsuc : ℕ → ℤ

unfoldable pub up : ℤ → ℤ
up (pos n) = pos (suc n)
up (negsuc zero) = pos 0
up (negsuc (suc n)) = negsuc n

unfoldable pub down : ℤ → ℤ
down (pos zero) = negsuc 0
down (pos (suc n)) = pos n
down (negsuc n) = negsuc (suc n)

unfoldable pub is_zero : ℤ → Bool
is_zero (pos zero) = true
is_zero _ = false

-- one more field, unless it is empty
unfoldable pub emit : Text → List Text
emit [] = []
emit (c ∷ cur) = (c ∷ cur) ∷ []

-- One round of the loop of `splitFields`: the fields that it appends, the nesting and `current`.
unfoldable pub split_step : ℤ → Text → ℕ → List Text × ℤ × Text
split_step n cur c =
    if c == b'{'
    then ([], up n, cur ++ c ∷ [])
    else if c == b'}'
    then ([], down n, cur ++ c ∷ [])
    else if c == b',' && is_zero n
    then (emit cur, n, [])
    else ([], n, cur ++ c ∷ [])

unfoldable pub split_loop : ℤ → Text → Text → List Text
split_loop n cur [] = emit cur
split_loop n cur (c ∷ s) = let (out, n', cur') = split_step n cur c in out ++ split_loop n' cur' s

-- `splitFields`
unfoldable pub split_fields : Text → List Text
split_fields s = split_loop (pos 0) [] s

-- `result[fieldName] = typeName`
unfoldable pub put : Text → Text → List (Text × Text) → List (Text × Text)
put k v [] = (k, v) ∷ []
put k v ((j, w) ∷ m) = if text_eq j k then (k, v) ∷ m else (j, w) ∷ put k v m

-- one field of the loop of `parseFieldOverrides`, not blank
unfoldable pub parse_override : Text → List (Text × Text) → Result (List (Text × Text))
parse_override f result = elim (index f b'=') [
  | none ↦ err (invalid_field_override f)
  | some i ↦
      let name = trim_space (take i f) in
      let type_name = trim_space (drop (suc i) f) in
      if text_eq name []
      then err (empty_field_name f)
      else if text_eq type_name []
      then err (empty_type_name f)
      else ok (put name type_name result)
]

unfoldable pub override_step : Text → List (Text × Text) → Result (List (Text × Text))
override_step f result =
    let trimmed = trim_space f in
    if text_eq trimmed [] then ok result else parse_override trimmed result

unfoldable pub overrides_loop : List Text → List (Text × Text) → Result (List (Text × Text))
overrides_loop [] result = ok result
overrides_loop (f ∷ fs) result = override_step f result >>= overrides_loop fs

-- `parseFieldOverrides`
unfoldable pub parse_field_overrides : Text → Result (List (Text × Text))
parse_field_overrides s = if text_eq s [] then ok [] else overrides_loop (split_fields s) []

-- `parseCombinedType` behind the search for the opening brace
unfoldable pub parse_braces : Text → ℕ → Result (Text × List (Text × Text))
parse_braces ref_type open_idx =
    let inside = drop open_idx ref_type in
    if not (has_suffix ref_type (codes "}"))
    then err (missing_closing_brace ref_type)
    else if ltb (count inside b'{') (count inside b'}')
    then err (extra_closing_brace ref_type)
    else elim (last_index ref_type b'}') [
      | none ↦ err (missing_closing_brace ref_type)
      | some close_idx ↦ do
        overrides ←
            parse_field_overrides (take (close_idx - suc open_idx) (drop (suc open_idx) ref_type))
        ok (take open_idx ref_type, overrides)
    ]

-- `parseCombinedType`
unfoldable pub parse_combined_type : Text → Result (Text × List (Text × Text))
parse_combined_type ref_type =
    if text_eq ref_type [] then err empty_type else elim (index ref_type b'{') [
      | none ↦ ok (ref_type, [])
      | some open_idx ↦ parse_braces ref_type open_idx
    ]

-- `len(m) == 0`
unfoldable pub no_fields : Fields → Bool
no_fields end = true
no_fields (field k s fs) = false

-- `len(Type) > 0 && Type[0] == "object"`
unfoldable pub starts_object : List Text → Bool
starts_object [] = false
starts_object (t ∷ ts) = text_eq t (codes "object")

unfoldable pub with_properties : Fields → Schema → Schema
with_properties fs (schema p items props addl all one any neg defs) =
    schema p items fs addl all one any neg defs

module _ (lib : Functions) where
  -- `!hasRef && !hasProperties && isObjectType`
  unfoldable pub is_empty_object : Schema → Bool
  is_empty_object (schema p items props addl all one any neg defs) =
      not (lib.has_url p.ref) && no_fields props && starts_object p.type

  -- `shouldUseAllOf`
  unfoldable pub should_use_all_of : OptSchema → Fields → Bool
  should_use_all_of absent overrides = false
  should_use_all_of (present base) overrides =
      if no_fields overrides then false else not (is_empty_object base)

  -- `buildAllOfSchema`
  unfoldable pub build_all_of_schema : OptSchema → Fields → Schema
  build_all_of_schema absent overrides = plain no_props
  build_all_of_schema (present base) overrides =
      if no_fields overrides
      then base
      else if not (should_use_all_of (present base) overrides)
      then with_properties overrides base
      else lib.composed_schema base (
          schema (record no_props { type = codes "object" ∷ [] }) no_items overrides no_additional
            nil nil nil absent end)
