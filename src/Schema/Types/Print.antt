-- ===== src/Schema/Types/Print.antt =====
-- BuildCustomSchema of internal/schema/types.go: the types of a tag, printed and built
use core_swag.Base.{true, ◌≡◌, refl, ap, ◌∙◌, List, [], ◌∷◌, All}
use core_swag.Base.Text.{Text, codes, text_eq, mem, mem-All}
use core_swag.Spec.{Functions, Schema}
use core_swag.Schema.Types.{primitive_schema, built, wrap, build_custom_schema}

-- What the types of a tag say: a primitive type, an object of no known fields, an array, a map, or a
-- type behind the word primitive
pub data Shape : Type 0 where
  simple : Text → Shape
  object : Shape
  array_of map_of primitive_of : Shape → Shape

abbrev pub leaves : List Text
leaves = codes "string" ∷ codes "number" ∷ codes "integer" ∷ codes "boolean" ∷ codes "func" ∷ []

abbrev pub IsValid : Shape → Type 0
IsValid (simple name) = mem name leaves ≡ true
IsValid object = Unit {0}
IsValid (array_of s) = IsValid s
IsValid (map_of s) = IsValid s
IsValid (primitive_of s) = IsValid s

unfoldable pub print : Shape → List Text
print (simple name) = name ∷ []
print object = codes "object" ∷ []
print (array_of s) = codes "array" ∷ print s
print (map_of s) = codes "object" ∷ print s
print (primitive_of s) = codes "primitive" ∷ print s

unfoldable pub schema_of : Functions → Shape → Schema
schema_of lib (simple name) = primitive_schema name
schema_of lib object = primitive_schema (codes "object")
schema_of lib (array_of s) = lib.array_property (schema_of lib s)
schema_of lib (map_of s) = lib.map_property (schema_of lib s)
schema_of lib (primitive_of s) = schema_of lib s

leaves-built :
    (lib : Functions)
    → All (λ n. build_custom_schema lib (n ∷ []) ≡ built (primitive_schema n)) leaves
unfolding build_custom_schema text_eq mem
leaves-built lib = (refl, (refl, (refl, (refl, (refl, tt)))))

object-built :
    (lib : Functions)
    → build_custom_schema lib (codes "object" ∷ []) ≡ built (primitive_schema (codes "object"))
unfolding build_custom_schema text_eq
object-built lib = refl

-- A word before a printed shape is not alone.
array-print :
    (lib : Functions) (s : Shape)
    → build_custom_schema lib (codes "array" ∷ print s)
      ≡ wrap lib.array_property (build_custom_schema lib (print s))
unfolding build_custom_schema text_eq print
array-print lib (simple name) = refl
array-print lib object = refl
array-print lib (array_of s) = refl
array-print lib (map_of s) = refl
array-print lib (primitive_of s) = refl

map-print :
    (lib : Functions) (s : Shape)
    → build_custom_schema lib (codes "object" ∷ print s)
      ≡ wrap lib.map_property (build_custom_schema lib (print s))
unfolding build_custom_schema text_eq print
map-print lib (simple name) = refl
map-print lib object = refl
map-print lib (array_of s) = refl
map-print lib (map_of s) = refl
map-print lib (primitive_of s) = refl

primitive-print :
    (lib : Functions) (s : Shape)
    → build_custom_schema lib (codes "primitive" ∷ print s) ≡ build_custom_schema lib (print s)
unfolding build_custom_schema text_eq print
primitive-print lib (simple name) = refl
primitive-print lib object = refl
primitive-print lib (array_of s) = refl
primitive-print lib (map_of s) = refl
primitive-print lib (primitive_of s) = refl

-- From the words of a shape, whose primitive types are string, number, integer, boolean or func,
-- BuildCustomSchema builds its schema without an error: arrays and maps are nested as their
-- words are, and the word primitive adds nothing.
pub build_custom_schema-print :
    (lib : Functions) (s : Shape)
    → IsValid s
    → build_custom_schema lib (print s) ≡ built (schema_of lib s)
unfolding print schema_of
build_custom_schema-print lib (simple name) h =
    mem-All (λ n. build_custom_schema lib (n ∷ []) ≡ built (primitive_schema n)) name leaves
      (leaves-built lib) h
build_custom_schema-print lib object h = object-built lib
build_custom_schema-print lib (array_of s) h =
    array-print lib s ∙ ap (wrap lib.array_property) (build_custom_schema-print lib s h)
build_custom_schema-print lib (map_of s) h =
    map-print lib s ∙ ap (wrap lib.map_property) (build_custom_schema-print lib s h)
build_custom_schema-print lib (primitive_of s) h =
    primitive-print lib s ∙ build_custom_schema-print lib s h
