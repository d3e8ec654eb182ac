-- ===== src/General/Fields/Limits.antt =====
-- How many parts a line is split into, and what they are without a limit and with the limit two.
use core_swag.Base.{
  ℕ, ◌+◌, ◌≤◌, ◌<◌, ◌≡◌, refl, ap, sym, ◌∙◌, Bool, true, false, ◌&&◌, [], ◌∷◌, ◌++◌, Option, none,
  some, length, arith, ltb, leb, if◌then◌else◌, All, append_assoc, append-nil, Bool-cases, inl, inr,
}
use core_swag.Base.Text.{Text, is_space, fields, fields_onto}
use core_swag.General.Fields.{fields_func_loop, fields_func, fields_by_any_space}

-- At a limit `n`, `k` recorded spans leave room for `n - k`, and a field is begun only while there is
-- room for one behind it.
fields_func_loop_within :
    (f : ℕ → Bool) (n k : ℕ) (s : Text)
    → (k < n → length (fields_func_loop f n k none s) + k ≤ n)
      × ((cur : Text) → k + 1 < n → length (fields_func_loop f n k (some cur) s) + k ≤ n)
unfolding fields_func_loop
fields_func_loop_within f n k [] = (λ h. omega arith, λ cur h. omega arith)
fields_func_loop_within f n k (c ∷ s) = elim (Bool-cases (f c)) [
  | inl e ↦
      rw (e, length)
        (
          (fields_func_loop_within f n k s).0,
          λ cur h.
              let rest = (fields_func_loop_within f n (k + 1) s).0 (omega arith) in omega arith,
        )
  | inr e ↦
      rw (e, length)
        (
          λ h. elim (Bool-cases (ltb 0 n && leb n (k + 1))) [
            | inl full ↦ rw (full, length) (omega arith)
            | inr room ↦
                rw (room, length) ((fields_func_loop_within f n k s).1 (c ∷ []) (ground arith))
          ],
          λ cur. (fields_func_loop_within f n k s).1 (cur ++ c ∷ []),
        )
]

-- A field between spaces is in the state of `strings.Fields`, when there is no limit.
abbrev started : Text → Option Text
started [] = none
started (c ∷ s) = some (c ∷ s)

fields_func_loop-fields_onto :
    (k : ℕ) (cur s : Text) → fields_func_loop is_space 0 k (started cur) s ≡ fields_onto cur s
unfolding fields_func_loop fields_onto
fields_func_loop-fields_onto k [] [] = refl
fields_func_loop-fields_onto k (b ∷ cur) [] = refl
fields_func_loop-fields_onto k [] (c ∷ s) = elim (Bool-cases (is_space c)) [
  | inl e ↦
      let first : fields_func_loop is_space 0 k none (c ∷ s) ≡ fields_onto [] s =
        rw e (fields_func_loop-fields_onto k [] s) in
      let kept : (if is_space c then [] else c ∷ []) ≡ [] = rw e in
      first ∙ ap (λ t. fields_onto t s) (sym kept)
  | inr e ↦
      let first : fields_func_loop is_space 0 k none (c ∷ s) ≡ fields_onto (c ∷ []) s =
        rw e (fields_func_loop-fields_onto k (c ∷ []) s) in
      let kept : (if is_space c then [] else c ∷ []) ≡ c ∷ [] = rw e in
      first ∙ ap (λ t. fields_onto t s) (sym kept)
]
fields_func_loop-fields_onto k (b ∷ cur) (c ∷ s) = elim (Bool-cases (is_space c)) [
  | inl e ↦ rw e (ap (◌∷◌ (b ∷ cur)) (fields_func_loop-fields_onto (k + 1) [] s))
  | inr e ↦ rw e (fields_func_loop-fields_onto k (b ∷ (cur ++ c ∷ [])) s)
]

-- Without a limit a line has the fields that `strings.Fields` finds.
pub fields_by_any_space-fields : (s : Text) → fields_by_any_space s 0 ≡ fields s
unfolding fields_by_any_space fields_func fields
fields_by_any_space-fields s = fields_func_loop-fields_onto 0 [] s

-- With a limit that is not 0 a line has no more parts than the limit.
pub length-fields_func : (s : Text) (f : ℕ → Bool) (n : ℕ) → 0 < n → length (fields_func s f n) ≤ n
unfolding fields_func
length-fields_func s f n h = omega (arith, (fields_func_loop_within f n 0 s).0 h)

-- The separators before a field are passed over.
skips :
    (f : ℕ → Bool) (n k : ℕ) (sp s : Text)
    → All (λ c. f c ≡ true) sp
    → fields_func_loop f n k none (sp ++ s) ≡ fields_func_loop f n k none s
unfolding fields_func_loop
skips f n k [] s h = refl
skips f n k (c ∷ sp) s (here, later) = rw here (skips f n k sp s later)

-- The characters of a field are collected.
collects :
    (f : ℕ → Bool) (n k : ℕ) (cur w s : Text)
    → All (λ c. f c ≡ false) w
    → fields_func_loop f n k (some cur) (w ++ s) ≡ fields_func_loop f n k (some (cur ++ w)) s
unfolding fields_func_loop
collects f n k cur [] s h = rw append-nil
collects f n k cur (c ∷ w) s (here, later) =
    rw here (simp (collects f n k (cur ++ c ∷ []) w s later, append_assoc))

-- A line of an attribute, space, and a value that begins with no space is split into the attribute
-- and the value.
pub fields_by_any_space-append :
    (a : ℕ) (attr : Text) (b : ℕ) (sp : Text) (v : ℕ) (value : Text)
    → All (λ c. is_space c ≡ false) (a ∷ attr)
    → All (λ c. is_space c ≡ true) (b ∷ sp)
    → is_space v ≡ false
    → fields_by_any_space ((a ∷ attr) ++ ((b ∷ sp) ++ v ∷ value)) 2 ≡ (a ∷ attr) ∷ (v ∷ value) ∷ []
unfolding fields_by_any_space fields_func fields_func_loop
fields_by_any_space-append a attr b sp v value (ha, hw) (hb, hs) hv = rw ha (
    collects is_space 2 0 (a ∷ []) attr ((b ∷ sp) ++ v ∷ value) hw
    ∙ rw hb (ap (◌∷◌ (a ∷ attr)) (skips is_space 2 1 sp (v ∷ value) hs ∙ rw hv)))

-- A line of an attribute alone is split into the attribute.
pub fields_by_any_space-word :
    (a : ℕ) (attr : Text)
    → All (λ c. is_space c ≡ false) (a ∷ attr)
    → fields_by_any_space (a ∷ attr) 2 ≡ (a ∷ attr) ∷ []
unfolding fields_by_any_space fields_func fields_func_loop
fields_by_any_space-word a attr (ha, hw) = rw ha (
    ap (fields_func_loop is_space 2 0 (some (a ∷ []))) (sym (append-nil attr))
    ∙ collects is_space 2 0 (a ∷ []) attr [] hw)
