-- ===== src/Schema/Types/Merge.antt =====
-- MergeSchema of internal/schema/types.go: what it takes of which schema, and its laws
use core_swag.Base.{
  arith, List, [], ◌∷◌, Option, none, some, ◌≢◌, ◌⊎◌, Bool, true, false, not, ◌≡◌, refl, inl, inr,
  Bool-cases,
}
use core_swag.Spec.{
  Props, Schema, schema, Fields, end, field, OptItems, no_items, items_of, OptAdditional,
  no_additional, additional,
}
use core_swag.Schema.Types.{
  no_list, no_option, no_items_of, no_additional_of, no_fields, over, merge_props, merge_schema,
}

over_assoc {ℓ} :
    {A : Type ℓ} (is_empty : A → Bool) (a b c : A)
    → over is_empty (over is_empty a b) c ≡ over is_empty a (over is_empty b c)
unfolding over
over_assoc is_empty a b c = elim (Bool-cases (is_empty c)) [
  | inl e ↦ rw e refl
  | inr e ↦ rw e (rw e refl)
]

over_self {ℓ} : {A : Type ℓ} (is_empty : A → Bool) (a : A) → over is_empty a a ≡ a
unfolding over
over_self is_empty a = elim (Bool-cases (is_empty a)) [ inl e ↦ rw e refl | inr e ↦ rw e refl ]

-- What is merged is the source's where that is not empty, and else the destination's.
abbrev pub Overrides {ℓ} : {A : Type ℓ} → A → A → A → A → Type ℓ
Overrides empty dst src merged = ((src ≡ empty) × (merged ≡ dst)) ⊎ ((src ≢ empty) × (merged ≡ src))

-- The fields that hold no schema, of the destination, the source and the merge
pub record MergedProps (p q r : Props) : Type 0 where
  pub type_of : Overrides [] p.type q.type r.type
  pub description_of : Overrides [] p.description q.description r.description
  pub nullable_of : Overrides false p.nullable q.nullable r.nullable
  pub format_of : Overrides [] p.format q.format r.format
  pub default_of : Overrides none p.default q.default r.default
  pub example_of : Overrides none p.example q.example r.example
  pub extensions_of : Overrides [] p.extensions q.extensions r.extensions
  pub maximum_of : Overrides none p.maximum q.maximum r.maximum
  pub minimum_of : Overrides none p.minimum q.minimum r.minimum
  pub exclusive_maximum_of :
      Overrides false p.exclusive_maximum q.exclusive_maximum r.exclusive_maximum
  pub exclusive_minimum_of :
      Overrides false p.exclusive_minimum q.exclusive_minimum r.exclusive_minimum
  pub max_length_of : Overrides none p.max_length q.max_length r.max_length
  pub min_length_of : Overrides none p.min_length q.min_length r.min_length
  pub pattern_of_of : Overrides [] p.pattern_of q.pattern_of r.pattern_of
  pub max_items_of : Overrides none p.max_items q.max_items r.max_items
  pub min_items_of : Overrides none p.min_items q.min_items r.min_items
  pub unique_items_of : Overrides false p.unique_items q.unique_items r.unique_items
  pub multiple_of_of : Overrides none p.multiple_of q.multiple_of r.multiple_of
  pub enum_of : Overrides [] p.enum q.enum r.enum
  pub extra_props_of : Overrides [] p.extra_props q.extra_props r.extra_props
  pub ref_of : r.ref ≡ p.ref
  pub required_of : r.required ≡ p.required

abbrev pub Merged : Schema → Schema → Schema → Type 0
Merged (schema p items props addl all one any neg defs) (schema q items' props' addl' _ _ _ _ _)
      (schema r items'' props'' addl'' all'' one'' any'' neg'' defs'') =
    MergedProps p q r
    × Overrides no_items items items' items''
    × Overrides end props props' props''
    × Overrides no_additional addl addl' addl''
    × (all'' ≡ all)
    × (one'' ≡ one)
    × (any'' ≡ any)
    × (neg'' ≡ neg)
    × (defs'' ≡ defs)

over_list {ℓ} : {A : Type ℓ} (a b : List A) → Overrides [] a b (over no_list a b)
unfolding over
over_list a [] = inl (refl, refl)
over_list a (x ∷ b) = inr (λ e. ground arith, refl)

over_option {ℓ} : {A : Type ℓ} (a b : Option A) → Overrides none a b (over no_option a b)
unfolding over
over_option a none = inl (refl, refl)
over_option a (some x) = inr (λ e. ground arith, refl)

over_bool : (a b : Bool) → Overrides false a b (over not a b)
unfolding over
over_bool a false = inl (refl, refl)
over_bool a true = inr (λ e. ground arith, refl)

over_items : (a b : OptItems) → Overrides no_items a b (over no_items_of a b)
unfolding over
over_items a no_items = inl (refl, refl)
over_items a (items_of s ss) = inr (λ e. cc, refl)

over_fields : (a b : Fields) → Overrides end a b (over no_fields a b)
unfolding over
over_fields a end = inl (refl, refl)
over_fields a (field k s fs) = inr (λ e. cc, refl)

over_additional : (a b : OptAdditional) → Overrides no_additional a b (over no_additional_of a b)
unfolding over
over_additional a no_additional = inl (refl, refl)
over_additional a (additional t s) = inr (λ e. cc, refl)

merge_props-MergedProps : (p q : Props) → MergedProps p q (merge_props p q)
unfolding merge_props
merge_props-MergedProps p q = record {
  type_of = over_list p.type q.type;
  description_of = over_list p.description q.description;
  nullable_of = over_bool p.nullable q.nullable;
  format_of = over_list p.format q.format;
  default_of = over_option p.default q.default;
  example_of = over_option p.example q.example;
  extensions_of = over_list p.extensions q.extensions;
  maximum_of = over_option p.maximum q.maximum;
  minimum_of = over_option p.minimum q.minimum;
  exclusive_maximum_of = over_bool p.exclusive_maximum q.exclusive_maximum;
  exclusive_minimum_of = over_bool p.exclusive_minimum q.exclusive_minimum;
  max_length_of = over_option p.max_length q.max_length;
  min_length_of = over_option p.min_length q.min_length;
  pattern_of_of = over_list p.pattern_of q.pattern_of;
  max_items_of = over_option p.max_items q.max_items;
  min_items_of = over_option p.min_items q.min_items;
  unique_items_of = over_bool p.unique_items q.unique_items;
  multiple_of_of = over_option p.multiple_of q.multiple_of;
  enum_of = over_list p.enum q.enum;
  extra_props_of = over_list p.extra_props q.extra_props;
  ref_of = refl;
  required_of = refl;
}

-- Each field that MergeSchema looks at is the source's where the source's is not empty (no entry, nil,
-- false), and the destination's where it is; every other field is the destination's.
pub merge_schema-Merged : (a b : Schema) → Merged a b (merge_schema a b)
unfolding merge_schema
merge_schema-Merged (schema p items props addl all one any neg defs)
      (schema q items' props' addl' _ _ _ _ _) =
    (
      merge_props-MergedProps p q,
      over_items items items',
      over_fields props props',
      over_additional addl addl',
      refl,
      refl,
      refl,
      refl,
      refl,
    )

-- To merge a schema into itself changes nothing; and of three schemas, it is the same to merge the second
-- into the first and the third into the result, or the third into the second and the result into
-- the first.
pub merge_schema-merge_schema :
    (a b c : Schema)
    → (merge_schema a a ≡ a)
      × (merge_schema (merge_schema a b) c ≡ merge_schema a (merge_schema b c))
unfolding merge_schema
merge_schema-merge_schema (schema p i f d all one any n defs) (schema q i' f' d' _ _ _ _ _)
      (schema r i'' f'' d'' _ _ _ _ _) =
    (simp over_self refl, simp over_assoc refl)
