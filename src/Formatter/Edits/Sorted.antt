-- ===== src/Formatter/Edits/Sorted.antt =====
-- The sorting of edits of internal/format/formatter.go, in whatever order they are made
use core_swag.Base.{
  ◌<◌, ◌≡◌, refl, ap, ◌∙◌, List, [], ◌∷◌, ◌++◌, arith, All, ltb, Bool-cases, inl, inr,
}
use core_swag.Base.Text.{Text}
use core_swag.Formatter.{Edit, sort_edits, insert_edit, replace, apply_each, apply_edits}

-- One edit stands before another.
abbrev pub Before : Edit → Edit → Type 0
Before e d = e.begin < d.begin

abbrev pub EachBefore : List Edit → Type 0
EachBefore [] = Unit {0}
EachBefore (e ∷ es) = All (Before e) es × EachBefore es

-- The edits of the first list, in some order
pub data Shuffled : List Edit → List Edit → Type 0 where
  none_left : Shuffled [] []
  place :
      (e : Edit) (es front back : List Edit)
      → Shuffled es (front ++ back)
      → Shuffled (e ∷ es) (front ++ e ∷ back)

insert_swap :
    (e d : Edit) (ds : List Edit)
    → e.begin < d.begin
    → insert_edit d (insert_edit e ds) ≡ insert_edit e (insert_edit d ds)
unfolding insert_edit
insert_swap e d [] h = ground arith
insert_swap e d (c ∷ ds) h = ground (arith, insert_swap e d ds h)

sort-place :
    (e : Edit) (front back : List Edit)
    → All (Before e) (front ++ back)
    → sort_edits (front ++ e ∷ back) ≡ insert_edit e (sort_edits (front ++ back))
unfolding sort_edits
sort-place e [] back h = refl
sort-place e (d ∷ front) back (less, h) =
    ap (insert_edit d) (sort-place e front back h)
    ∙ insert_swap e d (sort_edits (front ++ back)) less

All-place :
    (P : Edit → Type 0) (e : Edit) (front back : List Edit)
    → P e
    → All P (front ++ back)
    → All P (front ++ e ∷ back)
All-place P e [] back p h = (p, h)
All-place P e (d ∷ front) back p (q, h) = (q, All-place P e front back p h)

All-Shuffled : (P : Edit → Type 0) (es ds : List Edit) → Shuffled es ds → All P es → All P ds
All-Shuffled P _ _ none_left h = tt
All-Shuffled P _ _ (place e es front back s) (p, h) =
    All-place P e front back p (All-Shuffled P es (front ++ back) s h)

pub sort-Shuffled :
    (es ds : List Edit) → Shuffled es ds → EachBefore es → sort_edits ds ≡ sort_edits es
unfolding sort_edits
sort-Shuffled _ _ none_left h = refl
sort-Shuffled _ _ (place e es front back s) (first, h) =
    sort-place e front back (All-Shuffled (Before e) es (front ++ back) s first)
    ∙ ap (insert_edit e) (sort-Shuffled es (front ++ back) s h)

All-insert_edit :
    (P : Edit → Type 0) (e : Edit) (ds : List Edit) → P e → All P ds → All P (insert_edit e ds)
unfolding insert_edit
All-insert_edit P e [] p h = (p, tt)
All-insert_edit P e (d ∷ ds) p (q, h) = elim (Bool-cases (ltb d.begin e.begin)) [
  | inl b ↦ rw b (p, (q, h))
  | inr b ↦ rw b (q, All-insert_edit P e ds p h)
]

All-sort_edits : (P : Edit → Type 0) (es : List Edit) → All P es → All P (sort_edits es)
unfolding sort_edits
All-sort_edits P [] h = tt
All-sort_edits P (e ∷ es) (p, h) = All-insert_edit P e (sort_edits es) p (All-sort_edits P es h)

insert_edit-last : (e : Edit) (ds : List Edit) → All (Before e) ds → insert_edit e ds ≡ ds ++ e ∷ []
unfolding insert_edit
insert_edit-last e [] h = refl
insert_edit-last e (d ∷ ds) (less, h) = ground (arith, insert_edit-last e ds h)

apply_each-last :
    (e : Edit) (ds : List Edit) (contents : Text)
    → apply_each (ds ++ e ∷ []) contents ≡ replace e (apply_each ds contents)
unfolding apply_each
apply_each-last e [] contents = refl
apply_each-last e (d ∷ ds) contents = apply_each-last e ds (replace d contents)

-- The first edit is applied last.
pub apply_edits-first :
    (e : Edit) (es : List Edit) (contents : Text)
    → All (Before e) es
    → apply_edits (e ∷ es) contents ≡ replace e (apply_edits es contents)
unfolding apply_edits sort_edits
apply_edits-first e es contents h =
    ap (λ ds. apply_each ds contents)
      (insert_edit-last e (sort_edits es) (All-sort_edits (Before e) es h))
    ∙ apply_each-last e (sort_edits es) contents
