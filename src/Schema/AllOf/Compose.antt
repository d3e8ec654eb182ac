-- ===== src/Schema/AllOf/Compose.antt =====
-- Composition keeps every reference, and what the parser accepts is well formed.
use core_swag.Base.{
  ℕ, zero, suc, ◌≡◌, ◌≢◌, refl, sym, ◌∙◌, true, ◌||◌, List, [], ◌∷◌, ◌++◌, append-nil, arith,
  Bool-cases, Option-cases, inl, inr, All, none, some, take, drop, ◌-◌, ◌⊎◌, take-append-drop,
}
use core_swag.Base.Text.{
  Text, codes, mem, mem-append, text_eq, text_eq_iff, index, last_index, trim_space,
}
use core_swag.Spec.{
  Schema, schema, Schemas, OptItems, OptAdditional, OptSchema, present, no_items, no_additional,
  nil, cons, absent, Fields, end, field, Functions, IsDocumented, Props, no_props,
}
use core_swag.Schema.Cleanup.{get_ref_name}
use core_swag.Schema.Cleanup.Names.{
  schema_names, fields_names, ref_names, items_names, additional_names, opt_names, list_names,
}
use core_swag.Schema.AllOf.{
  Error, Result, ok, err, ◌>>=◌, put, parse_override, override_step, overrides_loop,
  parse_field_overrides, parse_braces, parse_combined_type, split_fields, no_fields,
  is_empty_object, with_properties, should_use_all_of, build_all_of_schema,
}

-- The names behind the properties in the list of a schema's names.
abbrev later_names : OptAdditional → Schemas → Schemas → Schemas → OptSchema → Fields → List Text
later_names addl all one any neg defs =
    additional_names addl
    ++ (list_names all
        ++ (list_names one ++ (list_names any ++ (opt_names neg ++ fields_names defs))))

mem-schema :
    (n : Text) (p : Props) (items : OptItems) (props : Fields) (addl : OptAdditional)
    (all one any : Schemas) (neg : OptSchema) (defs : Fields)
    → mem n (schema_names (schema p items props addl all one any neg defs)) ≡ (
        mem n (ref_names p.ref)
        || (mem n (items_names items)
            || (mem n (fields_names props) || mem n (later_names addl all one any neg defs))))
unfolding schema_names
mem-schema n p items props addl all one any neg defs = simp (
  mem-append n (ref_names p.ref),
  mem-append n (items_names items),
  mem-append n (fields_names props),
)

-- The schema of the overrides, and the composition.
abbrev overrides_object : Fields → Schema
overrides_object fs =
    schema (record no_props { type = codes "object" ∷ [] }) no_items fs no_additional nil nil nil
      absent end

overrides_object-names :
    (n : Text) (fs : Fields) → mem n (schema_names (overrides_object fs)) ≡ mem n (fields_names fs)
unfolding schema_names ref_names get_ref_name text_eq mem
overrides_object-names n fs = simp (append-nil)

composed-names :
    (n : Text) (s t : Schema)
    → mem n (
        schema_names
          (schema no_props no_items end no_additional (cons s (cons t nil)) nil nil absent end))
      ≡ (mem n (schema_names s) || mem n (schema_names t))
unfolding schema_names ref_names get_ref_name text_eq mem
composed-names n s t = simp (append-nil, mem-append n (schema_names s))

module _ (lib : Functions) where
  with_properties-names :
      (s : Schema) (fs : Fields) (n : Text)
      → is_empty_object lib s ≡ true
      → mem n (schema_names (with_properties fs s))
        ≡ (mem n (schema_names s) || mem n (fields_names fs))
  unfolding is_empty_object with_properties no_fields fields_names mem
  with_properties-names (schema p items end addl all one any neg defs) fs n h = ground (
    arith,
    mem-schema n p items fs addl all one any neg defs,
    mem-schema n p items end addl all one any neg defs,
  )
  with_properties-names (schema p items (field k s ps) addl all one any neg defs) fs n h =
      absurd (ground arith)

  -- With package `spec` as it is documented, composing a base with overrides loses no reference and adds none: the result refers to the
  -- definitions that the base or an override refers to.
  pub build_all_of_schema-names :
      IsDocumented lib
      → (base : Schema) (overrides : Fields) (n : Text)
      → mem n (schema_names (build_all_of_schema lib (present base) overrides))
        ≡ (mem n (schema_names base) || mem n (fields_names overrides))
  unfolding build_all_of_schema should_use_all_of no_fields
  build_all_of_schema-names doc base end n = unfold fields_names mem in ground arith
  build_all_of_schema-names doc base (field k s fs) n =
      elim (Bool-cases (is_empty_object lib base)) [
        | inl e ↦ rw e (with_properties-names base (field k s fs) n e)
        | inr e ↦
            rw (e, doc.composed base (overrides_object (field k s fs)))
              (composed-names n base (overrides_object (field k s fs))
                ∙ rw (overrides_object-names n (field k s fs)))
      ]

-- The parser accepts no empty field name and no empty type name.
abbrev pub IsNamed : Text × Text → Type 0
IsNamed p = (p.0 ≢ []) × (p.1 ≢ [])

put-IsNamed :
    (k v : Text) (m : List (Text × Text))
    → k ≢ []
    → v ≢ []
    → All IsNamed m
    → All IsNamed (put k v m)
unfolding put
put-IsNamed k v [] a b h = ((a, b), tt)
put-IsNamed k v ((j, w) ∷ m) a b (here, h) = elim (Bool-cases (text_eq j k)) [
  | inl e ↦ rw e ((a, b), h)
  | inr e ↦ rw e (here, put-IsNamed k v m a b h)
]

parse_override-ok :
    (f : Text) (m m' : List (Text × Text))
    → parse_override f m ≡ ok m'
    → (k : Text) × (v : Text) × (k ≢ []) × (v ≢ []) × (m' ≡ put k v m)
unfolding parse_override
parse_override-ok f m m' e = elim (Option-cases (index f b'=')) [
  | inl missing ↦ absurd (ground arith)
  | inr (i, found) ↦
      let k = trim_space (take i f) in
      let v = trim_space (drop (suc i) f) in
      (
        k,
        v,
        λ z. ground (arith, text_eq_iff k []),
        λ z. ground (arith, text_eq_iff v []),
        ground arith,
      )
]

override_step-IsNamed :
    (f : Text) (m m' : List (Text × Text))
    → All IsNamed m
    → override_step f m ≡ ok m'
    → All IsNamed m'
unfolding override_step
override_step-IsNamed f m m' h e = elim (Bool-cases (text_eq (trim_space f) [])) [
  | inl blank ↦ let same : m' ≡ m = ground arith in rw same h
  | inr more ↦
      let (k, v, a, b, same) = parse_override-ok (trim_space f) m m' (ground arith) in
      rw same (put-IsNamed k v m a b h)
]

Result-cases : {A : Type 0} (r : Result A) → ((a : A) × (r ≡ ok a)) ⊎ ((e : Error) × (r ≡ err e))
Result-cases (ok a) = inl (a, refl)
Result-cases (err e) = inr (e, refl)

-- A chain that succeeds has a first step that does.
chain_steps :
    {S T : Type 0} (first : Result S) (next : S → Result T) (out : T)
    → (first >>= next) ≡ ok out
    → (middle : S) × (first ≡ ok middle) × (next middle ≡ ok out)
chain_steps (err failure) next out e = cc
chain_steps (ok value) next out e = (value, refl, e)

overrides_loop-IsNamed :
    (fs : List Text) (m m' : List (Text × Text))
    → All IsNamed m
    → overrides_loop fs m ≡ ok m'
    → All IsNamed m'
unfolding overrides_loop
overrides_loop-IsNamed [] m m' h e = ground arith
overrides_loop-IsNamed (f ∷ fs) m m' h e =
    let (next, first, later) = chain_steps (override_step f m) (overrides_loop fs) m' e in
    overrides_loop-IsNamed fs next m' (override_step-IsNamed f m next h first) later

index-take : (s : Text) (b i : ℕ) → index s b ≡ some i → index (take i s) b ≡ none
unfolding index
index-take [] b i h = absurd (ground arith)
index-take (c ∷ s) b zero h = refl
index-take (c ∷ s) b (suc i) h = elim (Option-cases (index s b)) [
  | inl missing ↦ absurd (ground arith)
  | inr (j, found) ↦
      let same : j ≡ i = ground arith in ground (arith, index-take s b i (rw same at found))
]

parse_field_overrides-IsNamed :
    (s : Text) (overrides : List (Text × Text))
    → parse_field_overrides s ≡ ok overrides
    → All IsNamed overrides
unfolding parse_field_overrides
parse_field_overrides-IsNamed s overrides e = elim (Bool-cases (text_eq s [])) [
  | inl empty ↦ let same : overrides ≡ [] = ground arith in rw same tt
  | inr more ↦ overrides_loop-IsNamed (split_fields s) [] overrides tt (ground arith)
]

parse_field_overrides-cases :
    (s : Text)
    → ((o : List (Text × Text)) × (parse_field_overrides s ≡ ok o))
      ⊎ ((e : Error) × (parse_field_overrides s ≡ err e))
parse_field_overrides-cases s = Result-cases (parse_field_overrides s)

parse_braces-ok :
    (s base : Text) (i : ℕ) (overrides : List (Text × Text))
    → parse_braces s i ≡ ok (base, overrides)
    → (base ≡ take i s) × All IsNamed overrides
unfolding parse_braces
parse_braces-ok s base i overrides e = elim (Option-cases (last_index s b'}')) [
  | inl missing ↦ absurd (ground arith)
  | inr (j, found) ↦
      let inner = take (j - suc i) (drop (suc i) s) in
      elim (parse_field_overrides-cases inner) [
        | inl (o, parsed) ↦
            let same : overrides ≡ o = ground arith in
            (ground arith, rw same (parse_field_overrides-IsNamed inner o parsed))
        | inr (bad, failed) ↦ absurd (ground arith)
      ]
]

-- What is accepted: the base type holds no opening brace and is what stands before the first one,
-- and every override has a field name and a type name.
pub parse_combined_type-ok :
    (s base : Text) (overrides : List (Text × Text))
    → parse_combined_type s ≡ ok (base, overrides)
    → (index base b'{' ≡ none) × All IsNamed overrides × ((rest : Text) × (s ≡ base ++ rest))
unfolding parse_combined_type
parse_combined_type-ok s base overrides e = elim (Option-cases (index s b'{')) [
  | inl plain ↦
      let same : base ≡ s = ground arith in
      let nothing : overrides ≡ [] = ground arith in
      (rw same plain, rw nothing tt, ([], rw (same, append-nil)))
  | inr (i, found) ↦
      let (cut, named) = parse_braces-ok s base i overrides (ground arith) in
      (rw cut (index-take s b'{' i found), named, (drop i s, rw cut (sym (take-append-drop i s))))
]
