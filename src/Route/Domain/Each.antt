-- ===== src/Route/Domain/Each.antt =====
-- A property of every reference in the schemas of a route, with its resolved path.
use core_swag.Base.{ℕ, List, [], ◌∷◌}
use core_swag.Base.Text.{Text}
use core_swag.Route.Domain.{
  DomainSchema, domain, Pointer, null, points, Pointers, no_pointers, pointer, Properties,
  no_properties, property, DomainParameter, DomainResponse,
}

module _ (P : Text → Text → Type 0) where
  unfoldable mutual
    pub EachRef : DomainSchema → Type 0
    EachRef (domain type ref type_path items props addl all required description) =
        P ref type_path × EachAt items × EachProperty props × EachAt addl × EachPart all

    pub EachAt : Pointer → Type 0
    EachAt null = Unit
    EachAt (points s) = EachRef s

    pub EachPart : Pointers → Type 0
    EachPart no_pointers = Unit
    EachPart (pointer p ps) = EachAt p × EachPart ps

    pub EachProperty : Properties → Type 0
    EachProperty no_properties = Unit
    EachProperty (property k p ps) = EachAt p × EachProperty ps

  abbrev pub EachParameter : List DomainParameter → Type 0
  EachParameter [] = Unit
  EachParameter (p ∷ ps) = EachAt p.schema × EachParameter ps

  abbrev pub EachResponse : List (ℕ × DomainResponse) → Type 0
  EachResponse [] = Unit
  EachResponse ((c, r) ∷ rs) = EachAt r.schema × EachResponse rs

  pub at_points : (d : DomainSchema) → EachRef d → EachAt (points d)
  unfolding EachRef
  at_points d h = h

  pub at_null : EachAt null
  unfolding EachRef
  at_null = tt

module _ (P Q : Text → Text → Type 0) (f : (ref path : Text) → P ref path → Q ref path) where
  mutual
    unfolding EachRef

    each_map : (d : DomainSchema) → EachRef P d → EachRef Q d
    each_map (domain type ref type_path items props addl all required description) h = (
      f ref type_path h.0,
      at_map items h.1,
      property_map props h.2,
      at_map addl h.3,
      part_map all h.4,
    )

    pub at_map : (p : Pointer) → EachAt P p → EachAt Q p
    at_map null h = tt
    at_map (points s) h = each_map s h

    part_map : (ps : Pointers) → EachPart P ps → EachPart Q ps
    part_map no_pointers h = tt
    part_map (pointer p ps) h = (at_map p h.0, part_map ps h.1)

    property_map : (ps : Properties) → EachProperty P ps → EachProperty Q ps
    property_map no_properties h = tt
    property_map (property k p ps) h = (at_map p h.0, property_map ps h.1)

  pub parameter_map : (ps : List DomainParameter) → EachParameter P ps → EachParameter Q ps
  parameter_map [] h = tt
  parameter_map (p ∷ ps) h = (at_map p.schema h.0, parameter_map ps h.1)

  pub response_map : (rs : List (ℕ × DomainResponse)) → EachResponse P rs → EachResponse Q rs
  response_map [] h = tt
  response_map ((c, r) ∷ rs) h = (at_map r.schema h.0, response_map rs h.1)

-- Two properties of every reference, joined to a third
module _ (P R Q : Text → Text → Type 0)
    (f : (ref path : Text) → P ref path → R ref path → Q ref path) where
  mutual
    unfolding EachRef

    each_join : (d : DomainSchema) → EachRef P d → EachRef R d → EachRef Q d
    each_join (domain type ref type_path items props addl all required description) h k = (
      f ref type_path h.0 k.0,
      at_join items h.1 k.1,
      property_join props h.2 k.2,
      at_join addl h.3 k.3,
      part_join all h.4 k.4,
    )

    at_join : (p : Pointer) → EachAt P p → EachAt R p → EachAt Q p
    at_join null h k = tt
    at_join (points s) h k = each_join s h k

    part_join : (ps : Pointers) → EachPart P ps → EachPart R ps → EachPart Q ps
    part_join no_pointers h k = tt
    part_join (pointer p ps) h k = (at_join p h.0 k.0, part_join ps h.1 k.1)

    property_join : (ps : Properties) → EachProperty P ps → EachProperty R ps → EachProperty Q ps
    property_join no_properties h k = tt
    property_join (property key p ps) h k = (at_join p h.0 k.0, property_join ps h.1 k.1)

  pub parameter_join :
      (ps : List DomainParameter) → EachParameter P ps → EachParameter R ps → EachParameter Q ps
  parameter_join [] h k = tt
  parameter_join (p ∷ ps) h k = (at_join p.schema h.0 k.0, parameter_join ps h.1 k.1)

  pub response_join :
      (rs : List (ℕ × DomainResponse)) → EachResponse P rs → EachResponse R rs → EachResponse Q rs
  response_join [] h k = tt
  response_join ((c, r) ∷ rs) h k = (at_join r.schema h.0 k.0, response_join rs h.1 k.1)
