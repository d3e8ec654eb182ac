-- ===== src/TypeRegistry/Wrappers.antt =====
-- The type parameter of a wrapper is found again.
use core_swag.Base.{
  ◌≡◌, refl, ap, sym, ◌∙◌, false, [], ◌∷◌, ◌++◌, some, none, length, suc, ◌-◌, leb, arith,
  length-append, append_assoc,
}
use core_swag.Base.Text.{Text, codes, index, last_index, contains, has_prefix, trim_prefix}
use core_swag.Base.Text.Slices.{index-append, last_index-append, drop-suc-append, take-append}
use core_swag.TypeRegistry.{clean_type}
use core_swag.TypeRegistry.Fields.{
  enum_of, is_fields_wrapper, extract_constant_field_enum_type, resolve_fields_wrapper,
}

-- A type parameter in brackets is extracted whole, whatever brackets it holds itself, if none
-- opens before it.
pub extract_constant_field_enum_type-brackets :
    (wrapper inner : Text)
    → index wrapper b'[' ≡ none
    → extract_constant_field_enum_type (wrapper ++ b'[' ∷ (inner ++ b']' ∷ [])) ≡ inner
unfolding extract_constant_field_enum_type
extract_constant_field_enum_type-brackets wrapper inner h =
    let whole = wrapper ++ b'[' ∷ (inner ++ b']' ∷ []) in
    let start = index-append wrapper b'[' (inner ++ b']' ∷ []) h in
    let stop : last_index whole b']' ≡ some (length (wrapper ++ b'[' ∷ inner)) =
      ap (λ t. last_index t b']') (sym (append_assoc wrapper (b'[' ∷ inner) (b']' ∷ [])))
      ∙ last_index-append (wrapper ++ b'[' ∷ inner) b']' in
    let width : length (wrapper ++ b'[' ∷ inner) - suc (length wrapper) ≡ length inner =
      omega (arith, length-append wrapper (b'[' ∷ inner)) in
    let later : leb (length (wrapper ++ b'[' ∷ inner)) (length wrapper) ≡ false =
      ground (arith, length-append wrapper (b'[' ∷ inner)) in
    rw (start, extract_constant_field_enum_type)
      (rw (stop, extract_constant_field_enum_type)
        (rw (later, width, drop-suc-append wrapper b'[' (inner ++ b']' ∷ []))
          (take-append inner (b']' ∷ []))))

-- An integer constant field, by value or by pointer, is resolved to its enum type.
pub resolve_fields_wrapper-int_constant :
    (inner : Text)
    → (resolve_fields_wrapper (codes "fields.IntConstantField[" ++ (inner ++ b']' ∷ []))
        ≡ some (enum_of inner (codes "integer")))
      × (resolve_fields_wrapper (codes "*fields.IntConstantField[" ++ (inner ++ b']' ∷ []))
          ≡ some (enum_of inner (codes "integer")))
unfolding resolve_fields_wrapper is_fields_wrapper clean_type trim_prefix has_prefix contains
resolve_fields_wrapper-int_constant inner = (
  ap (λ t. some (enum_of t (codes "integer")))
      (extract_constant_field_enum_type-brackets (codes "fields.IntConstantField") inner
        (unfold index in refl)),
  ap (λ t. some (enum_of t (codes "integer")))
      (extract_constant_field_enum_type-brackets (codes "*fields.IntConstantField") inner
        (unfold index in refl)),
)
