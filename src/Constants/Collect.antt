-- ===== src/Constants/Collect.antt =====
-- The collection of constant variables: collectConstVariables of internal/registry/enums.go, and
-- AddConst of internal/domain/types.go. A declaration is the list of its value specifications.
use core_swag.Base.{
  ℕ, ◌≡◌, refl, ap, Bool, true, false, ◌&&◌, List, [], ◌∷◌, ◌++◌, map, Option, none, some,
  if◌then◌else◌,
}
use core_swag.Base.Text.{Text}
use core_swag.Constants.Expressions.{Expr, syntax, ConstVariable}

-- `ast.ValueSpec`, with the number that `iota` has in it, and its comments
pub record ValueSpec : Type 0 where
  pub names : List Text
  pub type : Option Text
  pub values : List Expr
  pub iota : ℕ
  pub comments : List Text
  pub doc : List Text

abbrev pub last_or : Text → List Text → Text
last_or t [] = t
last_or t (u ∷ us) = last_or u us

-- The first line of the comment, or else the last of the documentation
abbrev pub nearest_comment : List Text → List Text → Text
nearest_comment (c ∷ cs) doc = c
nearest_comment [] doc = last_or [] doc

unfoldable pub variables : Text → ℕ → ValueSpec → List Text → List Expr → List ConstVariable
variables path file spec (n ∷ ns) (e ∷ es) =
    record {
      name = n;
      pkg_path = path;
      file = file;
      iota = spec.iota;
      type = spec.type;
      value = syntax e;
      comment = nearest_comment spec.comments spec.doc;
    }
    ∷ variables path file spec ns es
variables path file spec _ _ = []

-- `AddConst`: the variables that it adds to the ordered ones
unfoldable pub add_const : Text → ℕ → ValueSpec → List ConstVariable
unfolding variables
add_const path file spec = variables path file spec spec.names spec.values

-- Whether there is one name, and whether there is one value
abbrev pub is_single {ℓ} : {A : Type ℓ} → List A → Bool
is_single (x ∷ []) = true
is_single _ = false

abbrev pub is_empty {ℓ} : {A : Type ℓ} → List A → Bool
is_empty [] = true
is_empty _ = false

abbrev pub is_none : Option Text → Bool
is_none none = true
is_none (some t) = false

-- A bare name takes the type and the value of the last specification of one name with a value.
unfoldable pub inherit : Option ValueSpec → ValueSpec → ValueSpec
inherit none spec = spec
inherit (some last) spec =
    if is_single spec.names && is_empty spec.values && is_none spec.type
    then record spec { type = last.type; values = last.values }
    else spec

unfoldable pub next_last : Option ValueSpec → ValueSpec → Option ValueSpec
next_last last spec = if is_single spec.names && is_single spec.values then some spec else last

unfoldable pub collect_from : Text → ℕ → Option ValueSpec → List ValueSpec → List ConstVariable
unfolding add_const inherit next_last
collect_from path file last [] = []
collect_from path file last (spec ∷ specs) =
    let rest = collect_from path file (next_last last spec) specs in
    add_const path file (inherit last spec) ++ rest

-- `collectConstVariables`
unfoldable pub collect_const_variables : Text → ℕ → List ValueSpec → List ConstVariable
unfolding collect_from
collect_const_variables path file specs = collect_from path file none specs

-- A specification of a name only
pub record Bare : Type 0 where
  pub name : Text
  pub iota : ℕ
  pub comments : List Text
  pub doc : List Text

abbrev pub bare_spec : Bare → ValueSpec
bare_spec b = record {
  names = b.name ∷ [];
  type = none;
  values = [];
  iota = b.iota;
  comments = b.comments;
  doc = b.doc;
}

-- The specification that a bare one stands for, after one of this type and value
abbrev pub written_out : Option Text → Expr → Bare → ValueSpec
written_out t e b = record (bare_spec b) { type = t; values = e ∷ [] }

collect_from-bare :
    (path : Text) (file : ℕ) (t : Option Text) (e : Expr) (first : Bare) (last : Option ValueSpec)
    (bs : List Bare)
    → collect_from path file (some (written_out t e first)) (map bare_spec bs)
      ≡ collect_from path file last (map (written_out t e) bs)
unfolding collect_from
collect_from-bare path file t e first none [] = refl
collect_from-bare path file t e first (some spec) [] = refl
collect_from-bare path file t e first none (b ∷ bs) =
    ap (λ cs. variables path file (written_out t e b) (b.name ∷ []) (e ∷ []) ++ cs)
      (collect_from-bare path file t e first (some (written_out t e b)) bs)
collect_from-bare path file t e first (some spec) (b ∷ bs) =
    ap (λ cs. variables path file (written_out t e b) (b.name ∷ []) (e ∷ []) ++ cs)
      (collect_from-bare path file t e first (some (written_out t e b)) bs)

-- Where one name with a type or none and a value is followed by bare names, the variables that
-- collectConstVariables collects are those of the declaration that gives each name this type and
-- this value: each has its own name, iota and comment.
pub collect_const_variables-bare :
    (path : Text) (file : ℕ) (first : Bare) (t : Option Text) (e : Expr) (bs : List Bare)
    → collect_const_variables path file (written_out t e first ∷ map bare_spec bs)
      ≡ collect_const_variables path file (map (written_out t e) (first ∷ bs))
unfolding collect_const_variables collect_from
collect_const_variables-bare path file first t e bs =
    ap (λ cs. variables path file (written_out t e first) (first.name ∷ []) (e ∷ []) ++ cs)
      (collect_from-bare path file t e first (some (written_out t e first)) bs)
