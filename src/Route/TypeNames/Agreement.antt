-- ===== src/Route/TypeNames/Agreement.antt =====
-- The tables of the route parser against those of the registry of types.
use core_swag.Base.{
  ◌≡◌, ◌≢◌, refl, true, false, List, [], ◌∷◌, none, arith, Bool-cases, inl, inr, All,
}
use core_swag.Base.Text.{Text, codes, text_eq, mem-All, mem, trim_prefix}
use core_swag.Spec.{Schema, schema}
use core_swag.TypeRegistry.{
  clean_type, lookup, registry, is_extended_primitive, is_golang_primitive_type, golang_primitives,
  is_extended_primitive_type, basic_schema, trans_to_valid_primitive_schema, to_schema,
  choose_schema, entry_schema,
}
use core_swag.TypeRegistry.Laws.{registry-All}
use core_swag.Route.TypeNames.{
  convert_type, schema_type_of, convert_type_to_schema_type, integer_types, other_primitives,
  is_primitive_type, is_model_type,
}

abbrev pub types_of : Schema → List Text
types_of (schema p items props addl all one any neg defs) = p.type

-- The two tables at one name without a star, with `t` for the name as it was written.
abbrev AgreesAt : Text → Text → Type 0
AgreesAt t c =
    types_of (choose_schema t (basic_schema c) (entry_schema (registry c)))
    ≡ schema_type_of c (registry c) ∷ []

tables : Unit {0}
unfolding choose_schema basic_schema entry_schema registry schema_type_of text_eq mem
tables = tt

golang_agrees : (t : Text) → All (AgreesAt t) golang_primitives
unfolding tables
golang_agrees t = (
  refl,
  (
    refl,
    (
      refl,
      (
        refl,
        (
          refl,
          (
            refl,
            (refl, (refl, (refl, (refl, (refl, (refl, (refl, (refl, (refl, (refl, tt)))))))))),
          ),
        ),
      ),
    ),
  ),
)

registered_agrees : (t c : Text) → registry c ≢ none → AgreesAt t c
unfolding tables
registered_agrees t c =
    registry-All (AgreesAt t) c refl (refl, (refl, (refl, (refl, tt)))) (refl, (refl, tt))
      (refl, (refl, tt)) (refl, (refl, tt)) (refl, (refl, tt))

-- A type that counts as primitive, in the wide sense, has one schema type, whether a struct field
-- or a response names it.
pub convert_type_to_schema_type-trans_to_valid_primitive_schema :
    (t : Text)
    → is_extended_primitive_type t ≡ true
    → types_of (trans_to_valid_primitive_schema t) ≡ convert_type_to_schema_type t ∷ []
unfolding trans_to_valid_primitive_schema to_schema convert_type_to_schema_type lookup
    is_extended_primitive_type is_golang_primitive_type is_extended_primitive
convert_type_to_schema_type-trans_to_valid_primitive_schema t h =
    elim (Bool-cases (mem (clean_type t) golang_primitives)) [
      | inl m ↦ mem-All (AgreesAt t) (clean_type t) golang_primitives (golang_agrees t) m
      | inr m ↦ registered_agrees t (clean_type t) (λ e. ground arith)
    ]

-- A parameter and a response that name the same type may differ: at the integers of eight and of
-- sixteen bits `convertType` answers "object" where `convertTypeToSchemaType` answers "integer".
pub convert_type-short_integers :
    (t : Text)
    → mem t (codes "int8" ∷ codes "int16" ∷ codes "uint8" ∷ codes "uint16" ∷ []) ≡ true
    → (convert_type t ≡ (codes "object", [])) × (convert_type_to_schema_type t ≡ codes "integer")
unfolding tables convert_type convert_type_to_schema_type clean_type trim_prefix lookup
convert_type-short_integers t =
    mem-All
      (λ c.
        (convert_type c ≡ (codes "object", [])) × (convert_type_to_schema_type c ≡ codes "integer"))
      t (codes "int8" ∷ codes "int16" ∷ codes "uint8" ∷ codes "uint16" ∷ [])
      ((refl, refl), ((refl, refl), ((refl, refl), ((refl, refl), tt))))

-- No type that `isPrimitiveType` accepts is a model to `isModelType`.
pub is_model_type-primitive : (t : Text) → is_primitive_type t ≡ true → is_model_type t ≡ false
unfolding tables is_primitive_type is_model_type is_extended_primitive lookup clean_type trim_prefix
is_model_type-primitive t h = elim (Bool-cases (mem t integer_types)) [
  | inl m ↦
      mem-All (λ c. is_model_type c ≡ false) t integer_types
        (
          refl,
          (
            refl,
            (refl, (refl, (refl, (refl, (refl, (refl, (refl, (refl, (refl, (refl, tt)))))))))),
          ),
        )
        m
  | inr m ↦
      mem-All (λ c. is_model_type c ≡ false) t other_primitives
        (refl, (refl, (refl, (refl, (refl, (refl, (refl, (refl, (refl, tt))))))))) (ground arith)
]
