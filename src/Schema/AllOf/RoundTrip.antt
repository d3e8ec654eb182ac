-- ===== src/Schema/AllOf/RoundTrip.antt =====
-- What is printed as a combined type is parsed back.
use core_swag.Base.{
  suc, ◌≡◌, refl, sym, ap, ◌∙◌, true, false, List, [], ◌∷◌, ◌++◌, map, append_assoc, append-nil,
  arith, All, none, ltb, length, take, ◌-◌, length-append,
}
use mathlib.Core.List.{reverse, reverse-append, reverse-cons}
use core_swag.Base.Text.{
  Text, codes, drop-append, count, join, index, last_index, has_suffix, text_eq,
}
use core_swag.Base.Text.Slices.{
  take-append, drop-suc-append, index-append, last_index-append, count-append, has_suffix-append,
  solid, solid-append, solid-ne, text_eq-solid, trim_space-solid,
}
use core_swag.Schema.AllOf.{
  ok, ◌>>=◌, put, parse_override, override_step, overrides_loop, parse_field_overrides,
  parse_braces, parse_combined_type,
}
use core_swag.Schema.AllOf.Split.{closes, closes-append, count-closes, IsPiece, split_fields-join}

abbrev pub print_override : Text × Text → Text
print_override p = p.0 ++ b'=' ∷ p.1

abbrev pub print_combined : Text → List (Text × Text) → Text
print_combined base fs = base ++ b'{' ∷ (join (map print_override fs) (codes ",") ++ b'}' ∷ [])

-- Neither the name nor the type begins or ends with a space or breaks the nesting of braces, and
-- the name holds no equals sign.
pub record IsOverride (p : Text × Text) : Type 0 where
  pub name_starts : solid p.0 ≡ true
  pub name_ends : solid (reverse p.0) ≡ true
  pub name_closes : closes 0 p.0 ≡ true
  pub no_equals : index p.0 b'=' ≡ none
  pub type_starts : solid p.1 ≡ true
  pub type_ends : solid (reverse p.1) ≡ true
  pub type_closes : closes 0 p.1 ≡ true

-- No name of the list is one of those before it.
abbrev pub IsDistinct : List (Text × Text) → List (Text × Text) → Type 0
IsDistinct seen [] = Unit
IsDistinct seen (p ∷ fs) = All (λ q. text_eq q.0 p.0 ≡ false) seen × IsDistinct (seen ++ p ∷ []) fs

put-append :
    (k v : Text) (m : List (Text × Text))
    → All (λ q. text_eq q.0 k ≡ false) m
    → put k v m ≡ m ++ (k, v) ∷ []
unfolding put
put-append k v [] h = refl
put-append k v ((j, w) ∷ m) (h, hs) = rw h (ap (◌∷◌ (j, w)) (put-append k v m hs))

solid_name : {p : Text × Text} → IsOverride p → solid (print_override p) ≡ true
solid_name {p} o = solid-append p.0 (b'=' ∷ p.1) o.name_starts

print_override-IsPiece : {p : Text × Text} → IsOverride p → IsPiece (print_override p)
unfolding closes
print_override-IsPiece {p} o = (
  solid-ne (print_override p) (solid_name o),
  closes-append p.0 0 (b'=' ∷ p.1) o.name_closes o.type_closes,
)

solid_end : {p : Text × Text} → IsOverride p → solid (reverse (print_override p)) ≡ true
solid_end {p} o =
    ap solid (reverse-append p.0 (b'=' ∷ p.1) ∙ ap (λ r. r ++ reverse p.0) (reverse-cons b'=' p.1))
    ∙ ap solid (append_assoc (reverse p.1) (b'=' ∷ []) (reverse p.0))
    ∙ solid-append (reverse p.1) (b'=' ∷ reverse p.0) o.type_ends

parse_override-print :
    {p : Text × Text} (m : List (Text × Text))
    → IsOverride p
    → parse_override (print_override p) m ≡ ok (put p.0 p.1 m)
unfolding parse_override
parse_override-print {p} m o =
    rw (index-append p.0 b'=' p.1 o.no_equals, parse_override)
      (rw (
        take-append p.0 (b'=' ∷ p.1),
        drop-suc-append p.0 b'=' p.1,
        trim_space-solid p.0 o.name_starts o.name_ends,
        trim_space-solid p.1 o.type_starts o.type_ends,
        text_eq-solid p.0 o.name_starts,
        text_eq-solid p.1 o.type_starts,
      ))

override_step-print :
    {p : Text × Text} (m : List (Text × Text))
    → IsOverride p
    → override_step (print_override p) m ≡ ok (put p.0 p.1 m)
unfolding override_step
override_step-print {p} m o =
    rw
      (
        trim_space-solid (print_override p) (solid_name o) (solid_end o),
        text_eq-solid (print_override p) (solid_name o),
      )
      (parse_override-print m o)

pieces : (fs : List (Text × Text)) → All IsOverride fs → All IsPiece (map print_override fs)
pieces [] h = tt
pieces (p ∷ fs) (o, h) = (print_override-IsPiece o, pieces fs h)

overrides_loop-print :
    (fs seen : List (Text × Text))
    → All IsOverride fs
    → IsDistinct seen fs
    → overrides_loop (map print_override fs) seen ≡ ok (seen ++ fs)
unfolding overrides_loop
overrides_loop-print [] seen h d = rw append-nil
overrides_loop-print (p ∷ fs) seen (o, h) (fresh, d) =
    rw (override_step-print seen o, put-append p.0 p.1 seen fresh)
      (overrides_loop-print fs (seen ++ p ∷ []) h d ∙ ap ok (append_assoc seen (p ∷ []) fs))

count-pieces :
    (ts : List Text)
    → All IsPiece ts
    → count (join ts (codes ",")) b'{' ≡ count (join ts (codes ",")) b'}'
unfolding join count
count-pieces [] h = refl
count-pieces (t ∷ []) ((ne, c), h) = omega (arith, count-closes t 0 c)
count-pieces (t ∷ u ∷ ts) ((ne, c), h) = omega (
  arith,
  count-closes t 0 c,
  count-pieces (u ∷ ts) h,
  count-append t (b',' ∷ join (u ∷ ts) (codes ",")) b'{',
  count-append t (b',' ∷ join (u ∷ ts) (codes ",")) b'}',
)

join_ne :
    (p : Text × Text) (fs : List (Text × Text))
    → IsOverride p
    → text_eq (join (map print_override (p ∷ fs)) (codes ",")) [] ≡ false
unfolding join
join_ne p [] o = text_eq-solid (print_override p) (solid_name o)
join_ne p (q ∷ fs) o =
    text_eq-solid (print_override p ++ b',' ∷ join (map print_override (q ∷ fs)) (codes ","))
      (solid-append (print_override p) _ (solid_name o))

-- Parsing the overrides as `parseFieldOverrides` is given them.
parse_field_overrides-print :
    (fs : List (Text × Text))
    → All IsOverride fs
    → IsDistinct [] fs
    → parse_field_overrides (join (map print_override fs) (codes ",")) ≡ ok fs
unfolding parse_field_overrides text_eq join
parse_field_overrides-print [] h d = refl
parse_field_overrides-print (p ∷ fs) (o, h) d =
    rw (join_ne p fs o, split_fields-join (map print_override (p ∷ fs)) (pieces (p ∷ fs) (o, h)))
      (overrides_loop-print (p ∷ fs) [] (o, h) d)

abbrev braced : Text → Text → Text
braced base inner = base ++ b'{' ∷ (inner ++ b'}' ∷ [])

braced_last : (base inner : Text) → braced base inner ≡ (base ++ b'{' ∷ inner) ++ b'}' ∷ []
braced_last base inner = sym (append_assoc base (b'{' ∷ inner) (b'}' ∷ []))

-- The part between the braces.
braced_inner :
    (base inner : Text)
    → take (length (base ++ b'{' ∷ inner) - suc (length base)) (inner ++ b'}' ∷ []) ≡ inner
braced_inner base inner =
    let e : length (base ++ b'{' ∷ inner) - suc (length base) ≡ length inner =
      omega (arith, length-append base (b'{' ∷ inner)) in
    rw e (take-append inner (b'}' ∷ []))

braced_balance :
    (inner : Text)
    → count inner b'{' ≡ count inner b'}'
    → ltb (count (b'{' ∷ (inner ++ b'}' ∷ [])) b'{') (count (b'{' ∷ (inner ++ b'}' ∷ [])) b'}')
      ≡ false
unfolding count
braced_balance inner h =
    ground (arith, count-append inner (b'}' ∷ []) b'{', count-append inner (b'}' ∷ []) b'}')

-- A balanced text in braces goes to the parser of overrides whole.
parse_braces-braced :
    (base inner : Text)
    → count inner b'{' ≡ count inner b'}'
    → parse_braces (braced base inner) (length base)
      ≡ (parse_field_overrides inner >>= λ o. ok (base, o))
unfolding parse_braces
parse_braces-braced base inner h =
    let last =
      ap (λ t. last_index t b'}') (braced_last base inner)
      ∙ last_index-append (base ++ b'{' ∷ inner) b'}' in
    let suffix =
      ap (λ t. has_suffix t (codes "}")) (braced_last base inner)
      ∙ has_suffix-append (base ++ b'{' ∷ inner) b'}' in
    rw (last, parse_braces)
      (rw (
        suffix,
        drop-append base (b'{' ∷ (inner ++ b'}' ∷ [])),
        braced_balance inner h,
        drop-suc-append base b'{' (inner ++ b'}' ∷ []),
        braced_inner base inner,
        take-append base (b'{' ∷ (inner ++ b'}' ∷ [])),
      ))

parse_braces-print :
    (base : Text) (fs : List (Text × Text))
    → All IsOverride fs
    → IsDistinct [] fs
    → parse_braces (print_combined base fs) (length base) ≡ ok (base, fs)
parse_braces-print base fs h d =
    parse_braces-braced base (join (map print_override fs) (codes ","))
      (count-pieces (map print_override fs) (pieces fs h))
    ∙ rw (parse_field_overrides-print fs h d)

text_eq-braced : (base inner : Text) → text_eq (braced base inner) [] ≡ false
unfolding text_eq
text_eq-braced [] inner = refl
text_eq-braced (c ∷ base) inner = refl

-- A base type with no brace, printed with well-formed overrides of distinct names, is parsed back.
pub parse_combined_type-print :
    (base : Text) (fs : List (Text × Text))
    → index base b'{' ≡ none
    → All IsOverride fs
    → IsDistinct [] fs
    → parse_combined_type (print_combined base fs) ≡ ok (base, fs)
unfolding parse_combined_type
parse_combined_type-print base fs n h d =
    let inner = join (map print_override fs) (codes ",") in
    rw
      (
        index-append base b'{' (inner ++ b'}' ∷ []) n,
        parse_combined_type,
        text_eq-braced base inner,
      )
      (parse_braces-print base fs h d)
