-- ===== src/Schema/AllOf/Split.antt =====
-- `splitFields` on a text whose braces match: it is cut at the commas outside all braces.
use core_swag.Base.{
  ℕ, zero, suc, ◌+◌, ◌≡◌, ◌≢◌, refl, sym, ap, ◌∙◌, Bool, true, false, List, [], ◌∷◌, ◌++◌,
  append_assoc, append-nil, ◌==◌, if◌then◌else◌, arith, Option-cases, Option, none, some, inl, inr,
  All, ◌||◌,
}
use core_swag.Base.Text.{Text, codes, count, join}
use core_swag.Schema.AllOf.{pos, up, down, is_zero, emit, split_step, split_loop, split_fields}

-- The depth behind a byte at depth `d`; `none` at a brace that closes nothing and at an outer comma.
unfoldable pub next_depth : ℕ → ℕ → Option ℕ
next_depth zero c = if c == b'{' then some 1 else if c == b'}' || c == b',' then none else some 0
next_depth (suc d) c =
    if c == b'{' then some (suc (suc d)) else if c == b'}' then some d else some (suc d)

-- From depth `d` the braces of the text close, and no comma stands outside them.
unfoldable pub closes : ℕ → Text → Bool
unfolding next_depth
closes zero [] = true
closes (suc d) [] = false
closes d (c ∷ s) = elim (next_depth d c) [ none ↦ false | some e ↦ closes e s ]

split_step-next_depth :
    (d e : ℕ) (cur : Text) (c : ℕ)
    → next_depth d c ≡ some e
    → split_step (pos d) cur c ≡ ([], pos e, cur ++ c ∷ [])
unfolding next_depth split_step up down is_zero
split_step-next_depth zero e cur c h = ground arith
split_step-next_depth (suc d) e cur c h = ground arith

closes-cons :
    (d : ℕ) (c : ℕ) (s : Text)
    → closes d (c ∷ s) ≡ true
    → (e : ℕ) × (next_depth d c ≡ some e) × (closes e s ≡ true)
unfolding closes
closes-cons d c s h = elim (Option-cases (next_depth d c)) [
  | inl stop ↦ absurd (ground arith)
  | inr (e, k) ↦ (e, k, ground arith)
]

-- Such a text is gathered into the current field.
pub split_loop-closes :
    (t : Text) (d : ℕ) (cur rest : Text)
    → closes d t ≡ true
    → split_loop (pos d) cur (t ++ rest) ≡ split_loop (pos 0) (cur ++ t) rest
unfolding split_loop
split_loop-closes [] zero cur rest h = rw append-nil
split_loop-closes [] (suc d) cur rest h = unfold closes in cc
split_loop-closes (c ∷ t) d cur rest h =
    let (e, k, later) = closes-cons d c t h in
    rw (split_step-next_depth d e cur c k) (
      split_loop-closes t e (cur ++ c ∷ []) rest later
      ∙ ap (λ x. split_loop (pos 0) x rest) (append_assoc cur (c ∷ []) t))

pub closes-append :
    (s : Text) (d : ℕ) (t : Text) → closes d s ≡ true → closes 0 t ≡ true → closes d (s ++ t) ≡ true
unfolding closes
closes-append [] zero t h k = k
closes-append [] (suc d) t h k = cc
closes-append (c ∷ s) d t h k =
    let (e, n, later) = closes-cons d c s h in rw (n, closes) (closes-append s e t later k)

next_depth-count :
    (d e : ℕ) (c : ℕ)
    → next_depth d c ≡ some e
    → d + (if c == b'{' then 1 else 0) ≡ e + (if c == b'}' then 1 else 0)
unfolding next_depth
next_depth-count zero e c h = ground arith
next_depth-count (suc d) e c h = ground arith

-- As many braces close as open.
pub count-closes : (t : Text) (d : ℕ) → closes d t ≡ true → d + count t b'{' ≡ count t b'}'
unfolding count
count-closes [] zero h = refl
count-closes [] (suc d) h = unfold closes in cc
count-closes (c ∷ t) d h =
    let (e, n, later) = closes-cons d c t h in
    omega (arith, next_depth-count d e c n, count-closes t e later)

abbrev pub IsPiece : Text → Type 0
IsPiece t = (t ≢ []) × (closes 0 t ≡ true)

emit-ne : (t : Text) → t ≢ [] → emit t ≡ t ∷ []
unfolding emit
emit-ne [] h = absurd (h refl)
emit-ne (c ∷ t) h = refl

-- Fields joined by commas are split again.
pub split_fields-join : (ts : List Text) → All IsPiece ts → split_fields (join ts (codes ",")) ≡ ts
unfolding split_fields join split_loop emit split_step is_zero
split_fields-join [] h = refl
split_fields-join (t ∷ []) ((ne, c), h) =
    ap (split_loop (pos 0) []) (sym (append-nil t)) ∙ split_loop-closes t 0 [] [] c ∙ emit-ne t ne
split_fields-join (t ∷ u ∷ ts) ((ne, c), h) =
    split_loop-closes t 0 [] (b',' ∷ join (u ∷ ts) (codes ",")) c
    ∙ rw (emit-ne t ne) (ap (◌∷◌ t) (split_fields-join (u ∷ ts) h))
