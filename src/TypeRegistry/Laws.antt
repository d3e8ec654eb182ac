-- ===== src/TypeRegistry/Laws.antt =====
-- A case lemma for the registry, and pointers.
use core_swag.Base.{
  ◌≡◌, ◌≢◌, ap, Bool, refl, true, false, ◌∷◌, Option, none, some, arith, Bool-cases, inl, inr, All,
}
use core_swag.Base.Text.{Text, codes, text_eq, text_eq_iff, mem-All, mem, trim_prefix, has_prefix}
use core_swag.TypeRegistry.{
  clean_type, lookup, registry, is_extended_primitive, is_golang_primitive_type, golang_primitives,
  uuid_names, urn_names, decimal_names, json_names, bytes_names, is_extended_primitive_type,
  basic_schema, trans_to_valid_primitive_schema, to_schema, choose_schema, entry_schema,
}

-- What holds of every key of the registry holds of a name that is found there.
pub registry-All :
    (P : Text → Type 0) (c : Text)
    → P (codes "time.Time")
    → All P uuid_names
    → All P urn_names
    → All P decimal_names
    → All P json_names
    → All P bytes_names
    → registry c ≢ none
    → P c
unfolding registry
registry-All P c time uuid urn decimal json bytes h =
    elim (Bool-cases (text_eq (codes "time.Time") c)) [
      | inl e ↦ rw (← (text_eq_iff (codes "time.Time") c).0 e) time
      | inr a ↦ elim (Bool-cases (mem c uuid_names)) [
        | inl m ↦ mem-All P c uuid_names uuid m
        | inr b ↦ elim (Bool-cases (mem c urn_names)) [
          | inl m ↦ mem-All P c urn_names urn m
          | inr d ↦ elim (Bool-cases (mem c decimal_names)) [
            | inl m ↦ mem-All P c decimal_names decimal m
            | inr e ↦ elim (Bool-cases (mem c json_names)) [
              | inl m ↦ mem-All P c json_names json m
              | inr f ↦ elim (Bool-cases (mem c bytes_names)) [
                | inl m ↦ mem-All P c bytes_names bytes m
                | inr g ↦ absurd (h (rw (a, b, d) (rw (e, f, g))))
              ]
            ]
          ]
        ]
      ]
    ]

abbrev found {ℓ} : {A : Type ℓ} → Option A → Bool
found none = false
found (some a) = true

-- The switch covers the primitive types of Go.
pub basic_schema-golang :
    (clean : Text) → is_golang_primitive_type clean ≡ true → basic_schema clean ≢ none
unfolding is_golang_primitive_type basic_schema text_eq mem
basic_schema-golang clean h e =
    let f : found (basic_schema clean) ≡ true =
      mem-All (λ t. found (basic_schema t) ≡ true) clean golang_primitives
        (
          refl,
          (
            refl,
            (
              refl,
              (
                refl,
                (
                  refl,
                  (
                    refl,
                    (
                      refl,
                      (refl, (refl, (refl, (refl, (refl, (refl, (refl, (refl, (refl, tt))))))))),
                    ),
                  ),
                ),
              ),
            ),
          ),
        )
        h in
    absurd (ground arith)

-- A pointer to a primitive type, in the wide sense, that is not itself a pointer is primitive just
-- as its target is, and has the target's schema.
pub trans_to_valid_primitive_schema-pointer :
    (t : Text)
    → has_prefix t (codes "*") ≡ false
    → is_extended_primitive_type (b'*' ∷ t) ≡ true
    → (is_extended_primitive_type t ≡ true)
      × (trans_to_valid_primitive_schema (b'*' ∷ t) ≡ trans_to_valid_primitive_schema t)
unfolding is_extended_primitive_type trans_to_valid_primitive_schema to_schema choose_schema
    entry_schema is_extended_primitive lookup clean_type
trans_to_valid_primitive_schema-pointer t k h =
    let e : clean_type t ≡ t = unfold trim_prefix in rw k in
    (
      ground (arith, ap registry e),
      ground (arith, ap registry e, ap basic_schema e, basic_schema-golang t),
    )
