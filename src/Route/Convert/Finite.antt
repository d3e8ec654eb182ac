-- ===== src/Route/Convert/Finite.antt =====
-- No infinity and no NaN gets into the specification through a parameter, but for its items.
use core_swag.Base.{
  ◌≡◌, refl, true, false, List, [], ◌∷◌, Option, none, some, ℕ, Bool-cases, inl, inr, All,
}
use core_swag.Spec.{
  Value, is_finite, Functions, Items, item, item_of, Parameter, OptSchema, present,
}
use core_swag.Route.Domain.{DomainItems, DomainParameter, Pointer, null, points}
use core_swag.Route.Convert.{
  is_infinite, sanitize_enum_values, sanitize_default, sanitize_bound, parameter_to_spec,
  items_of_parameter, simple_parameter, body_parameter, schema_to_spec,
}

abbrev pub IsFiniteValue : Value → Type 0
IsFiniteValue v = is_infinite v ≡ false

abbrev pub IsFiniteOption : Option Value → Type 0
IsFiniteOption none = Unit
IsFiniteOption (some v) = IsFiniteValue v

abbrev pub IsFiniteBound : Option ℕ → Type 0
IsFiniteBound none = Unit
IsFiniteBound (some f) = is_finite f ≡ true

-- The enumerations of items, those of the items of items included
abbrev pub IsFiniteItems : Items → Type 0
IsFiniteItems (item p) = All IsFiniteValue p.enum
IsFiniteItems (item_of p i) = All IsFiniteValue p.enum × IsFiniteItems i

abbrev pub AllowsItems : Option Items → Type 0
AllowsItems none = Unit
AllowsItems (some i) = IsFiniteItems i

-- The annotation gives items no infinity.
abbrev pub GivesFiniteItems : Option DomainItems → Type 0
GivesFiniteItems none = Unit
GivesFiniteItems (some i) = All IsFiniteValue i.enum

-- What JSON can hold: the default, the enumeration, the bounds and the items are finite.
pub record IsFiniteParameter (p : Parameter) : Type 0 where
  pub default_of : IsFiniteOption p.default
  pub enum_of : All IsFiniteValue p.enum
  pub minimum_of : IsFiniteBound p.minimum
  pub maximum_of : IsFiniteBound p.maximum
  pub items_of : AllowsItems p.items

sanitize_enum_values-IsFinite : (vs : List Value) → All IsFiniteValue (sanitize_enum_values vs)
unfolding sanitize_enum_values
sanitize_enum_values-IsFinite [] = tt
sanitize_enum_values-IsFinite (v ∷ vs) = elim (Bool-cases (is_infinite v)) [
  | inl e ↦ rw e (sanitize_enum_values-IsFinite vs)
  | inr e ↦ rw e (e, sanitize_enum_values-IsFinite vs)
]

sanitize_default-IsFinite : (v : Option Value) → IsFiniteOption (sanitize_default v)
unfolding sanitize_default
sanitize_default-IsFinite none = tt
sanitize_default-IsFinite (some v) = elim (Bool-cases (is_infinite v)) [
  | inl e ↦ rw e tt
  | inr e ↦ rw e e
]

sanitize_bound-IsFinite : (f : Option ℕ) → IsFiniteBound (sanitize_bound f)
unfolding sanitize_bound
sanitize_bound-IsFinite none = tt
sanitize_bound-IsFinite (some f) = elim (Bool-cases (is_finite f)) [
  | inl e ↦ rw e e
  | inr e ↦ rw e tt
]

body_parameter-IsFinite :
    (lib : Functions) (p : DomainParameter) (s : OptSchema)
    → IsFiniteParameter (body_parameter lib p s)
unfolding body_parameter
body_parameter-IsFinite lib p s = record {
  default_of = tt;
  enum_of = tt;
  minimum_of = tt;
  maximum_of = tt;
  items_of = tt;
}

items_of_parameter-IsFinite :
    (i : Option DomainItems) → GivesFiniteItems i → AllowsItems (items_of_parameter i)
unfolding items_of_parameter
items_of_parameter-IsFinite none h = tt
items_of_parameter-IsFinite (some i) h = h

simple_parameter-IsFinite :
    (lib : Functions) (p : DomainParameter)
    → GivesFiniteItems p.items
    → IsFiniteParameter (simple_parameter lib p)
unfolding simple_parameter
simple_parameter-IsFinite lib p h = record {
  default_of = sanitize_default-IsFinite p.default;
  enum_of = sanitize_enum_values-IsFinite p.enum;
  minimum_of = sanitize_bound-IsFinite p.minimum;
  maximum_of = sanitize_bound-IsFinite p.maximum;
  items_of = items_of_parameter-IsFinite p.items h;
}

chosen-IsFinite :
    (lib : Functions) (p : DomainParameter) (s : Pointer)
    → p.schema ≡ s
    → GivesFiniteItems p.items
    → IsFiniteParameter (parameter_to_spec lib p)
unfolding parameter_to_spec
chosen-IsFinite lib p null e h = rw (e, parameter_to_spec) (simple_parameter-IsFinite lib p h)
chosen-IsFinite lib p (points d) e h =
    rw (e, parameter_to_spec) (body_parameter-IsFinite lib p (present (schema_to_spec lib d)))

-- If the values in the enumeration of a parameter's items are finite, then whatever else it has, what
-- `ParameterToSpec` returns has a finite default, only finite values in its enumeration and in that of
-- its items, and finite bounds.
pub parameter_to_spec-IsFinite :
    (lib : Functions) (p : DomainParameter)
    → GivesFiniteItems p.items
    → IsFiniteParameter (parameter_to_spec lib p)
parameter_to_spec-IsFinite lib p h = chosen-IsFinite lib p p.schema refl h
