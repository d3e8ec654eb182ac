-- ===== src/General/MimeTypes.antt =====
-- What `@accept` and `@produce` add to a list of MIME types.
use core_swag.Base.{
  ◌≡◌, ◌≢◌, ◌⊎◌, subst, refl, sym, ap, ◌∙◌, true, false, List, [], ◌∷◌, ◌++◌, Option, none, some,
  arith, inl, inr, Bool-cases, Option-cases, All, append_assoc, append-nil,
}
use core_swag.Base.Maps.{get_key}
use core_swag.Base.Text.{Text, text_eq, text_eq_iff, index, trim_space, split}
use core_swag.Route.Operation.{alias_of, mime_types}
use core_swag.General.{GeneralError, bad_mime_type}
use core_swag.General.Attributes.{
  is_mime_type, mime_type_aliases, add_mime_types, parse_mime_type_list,
}

-- A piece of the line that is empty, a type with a subtype, or an alias.
abbrev pub IsKnown : Text → Type 0
IsKnown piece =
    (text_eq (trim_space piece) [] ≡ true)
    ⊎ (is_mime_type (trim_space piece) ≡ true)
    ⊎ (get_key (trim_space piece) mime_type_aliases ≢ none)

get_key-alias_of :
    (k : Text) (m : List (Text × Text)) (v : Text) → get_key k m ≡ some v → alias_of k m ≡ v
unfolding get_key alias_of
get_key-alias_of k [] v e = absurd (ground arith)
get_key-alias_of k ((j, w) ∷ m) v e = elim (Bool-cases (text_eq j k)) [
  | inl same ↦ rw same (ground arith)
  | inr other ↦ rw other (get_key-alias_of k m v (ground arith))
]

alias_of-other :
    (t : Text) (m : List (Text × Text))
    → is_mime_type t ≡ true
    → All (λ e. is_mime_type e.0 ≡ false) m
    → alias_of t m ≡ t
unfolding alias_of
alias_of-other t [] mime h = refl
alias_of-other t ((j, w) ∷ m) mime (short, h) = elim (Bool-cases (text_eq j t)) [
  | inl same ↦
      let q : is_mime_type t ≡ false =
        subst (λ k. is_mime_type k ≡ false) ((text_eq_iff j t).0 same) short in
      absurd (ground arith)
  | inr other ↦ rw other (alias_of-other t m mime h)
]

-- No alias is a type with a subtype.
aliases-short : All (λ e. is_mime_type e.0 ≡ false) mime_type_aliases
unfolding is_mime_type index
aliases-short = (
  refl,
  (
    refl,
    (refl, (refl, (refl, (refl, (refl, (refl, (refl, (refl, (refl, (refl, (refl, tt))))))))))),
  ),
)

-- Where the reading of the pieces stops: behind the last, or at one that is not known, which is the
-- error.
abbrev pub Stops : List Text → Option GeneralError → Type 0
Stops [] e = e ≡ none
Stops (piece ∷ pieces) e = (¬ IsKnown piece) × (e ≡ some (bad_mime_type (trim_space piece)))

-- The pieces up to the first unknown one are added, as the route parser reads them.
abbrev pub Added : List Text → List Text → List Text × Option GeneralError → Type 0
Added pieces types r =
    (front : List Text) × (back : List Text) × (pieces ≡ front ++ back)
    × All IsKnown front
    × (r.0 ≡ types ++ mime_types front)
    × Stops back r.1

add_known :
    (piece : Text) (pieces types new : List Text) (r : List Text × Option GeneralError)
    → IsKnown piece
    → ((front : List Text) → mime_types (piece ∷ front) ≡ new ++ mime_types front)
    → Added pieces (types ++ new) r
    → Added (piece ∷ pieces) types r
add_known piece pieces types new r known reads (front, back, all, knowns, e, stops) = (
  piece ∷ front,
  back,
  ap (◌∷◌ piece) all,
  (known, knowns),
  e ∙ append_assoc types new (mime_types front) ∙ ap (λ t. types ++ t) (sym (reads front)),
  stops,
)

module _ (piece : Text) (pieces types : List Text) where
  empty_piece :
      text_eq (trim_space piece) [] ≡ true
      → add_mime_types (piece ∷ pieces) types ≡ add_mime_types pieces types
  unfolding add_mime_types
  empty_piece e = rw e

  module _ (text : text_eq (trim_space piece) [] ≡ false) where
    mime_piece :
        is_mime_type (trim_space piece) ≡ true
        → add_mime_types (piece ∷ pieces) types
          ≡ add_mime_types pieces (types ++ trim_space piece ∷ [])
    unfolding add_mime_types
    mime_piece e = rw (text, e)

    module _ (no_mime : is_mime_type (trim_space piece) ≡ false) where
      alias_piece :
          (mime : Text)
          → get_key (trim_space piece) mime_type_aliases ≡ some mime
          → add_mime_types (piece ∷ pieces) types ≡ add_mime_types pieces (types ++ mime ∷ [])
      unfolding add_mime_types
      alias_piece mime e = rw (text, no_mime, e)

      bad_piece :
          get_key (trim_space piece) mime_type_aliases ≡ none
          → add_mime_types (piece ∷ pieces) types ≡ (types, some (bad_mime_type (trim_space piece)))
      unfolding add_mime_types
      bad_piece e = rw (text, no_mime, e)

not-IsKnown :
    (piece : Text)
    → text_eq (trim_space piece) [] ≡ false
    → is_mime_type (trim_space piece) ≡ false
    → get_key (trim_space piece) mime_type_aliases ≡ none
    → ¬ IsKnown piece
not-IsKnown piece text no_mime unknown (inl e) = ground arith
not-IsKnown piece text no_mime unknown (inr (inl e)) = ground arith
not-IsKnown piece text no_mime unknown (inr (inr e)) = e unknown

bad-Added :
    (piece : Text) (pieces types : List Text)
    → ¬ IsKnown piece
    → Added (piece ∷ pieces) types (types, some (bad_mime_type (trim_space piece)))
unfolding mime_types
bad-Added piece pieces types bad =
    ([], piece ∷ pieces, refl, tt, sym (append-nil types), (bad, refl))

mime_types-empty :
    (piece : Text) (front : List Text)
    → text_eq (trim_space piece) [] ≡ true
    → mime_types (piece ∷ front) ≡ mime_types front
unfolding mime_types
mime_types-empty piece front e = rw e refl

mime_types-alias :
    (piece mime : Text) (front : List Text)
    → text_eq (trim_space piece) [] ≡ false
    → alias_of (trim_space piece) mime_type_aliases ≡ mime
    → mime_types (piece ∷ front) ≡ mime ∷ mime_types front
unfolding mime_types
mime_types-alias piece mime front text e = rw text (ap (λ m. m ∷ mime_types front) e)

add_mime_types-Added : (pieces types : List Text) → Added pieces types (add_mime_types pieces types)
add_mime_types-Added [] types =
    unfold add_mime_types mime_types in ([], [], refl, tt, sym (append-nil types), refl)
add_mime_types-Added (piece ∷ pieces) types =
    let name = trim_space piece in
    elim (Bool-cases (text_eq name [])) [
      | inl empty ↦ rw (empty_piece piece pieces types empty) (
          add_known piece pieces types [] _ (inl empty)
            (λ front. mime_types-empty piece front empty)
            (rw (append-nil types) (add_mime_types-Added pieces types)))
      | inr text ↦ elim (Bool-cases (is_mime_type name)) [
        | inl mime ↦ rw (mime_piece piece pieces types text mime) (
            add_known piece pieces types (name ∷ []) _ (inr (inl mime))
              (λ front.
                mime_types-alias piece name front text
                  (alias_of-other name mime_type_aliases mime aliases-short))
              (add_mime_types-Added pieces (types ++ name ∷ [])))
        | inr no_mime ↦ elim (Option-cases (get_key name mime_type_aliases)) [
          | inl unknown ↦
              rw (bad_piece piece pieces types text no_mime unknown)
                (bad-Added piece pieces types (not-IsKnown piece text no_mime unknown))
          | inr (mime, alias) ↦ rw (alias_piece piece pieces types text no_mime mime alias) (
              add_known piece pieces types (mime ∷ []) _ (inr (inr (λ e. ground arith)))
                (λ front.
                  mime_types-alias piece mime front text
                    (get_key-alias_of name mime_type_aliases mime alias))
                (add_mime_types-Added pieces (types ++ mime ∷ [])))
        ]
      ]
    ]

-- Of the pieces of a line, those up to the first that is neither empty, a type with a subtype nor an
-- alias are added at the end of the list, in their order, as the route parser reads them: an
-- alias by its type, and nothing for an empty piece. There is no error if no such piece is left, and
-- else the error names it.
pub parse_mime_type_list-adds :
    (line : Text) (types : List Text)
    → Added (split line b',') types (parse_mime_type_list line types)
unfolding parse_mime_type_list
parse_mime_type_list-adds line types = add_mime_types-Added (split line b',') types
