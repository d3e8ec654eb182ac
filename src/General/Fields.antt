-- ===== src/General/Fields.antt =====
-- internal/parser/base/utils.go: a line is split at any space, into a limited number of parts.
pub mod Limits
use core_swag.Base.{
  ℕ, zero, suc, ◌+◌, ◌-◌, ◌≤◌, ◌<◌, ◌≡◌, refl, ap, Bool, true, false, ◌&&◌, List, [], ◌∷◌, ◌++◌,
  Option, none, some, length, take, arith, ltb, leb, if◌then◌else◌, All, append_assoc,
}
use core_swag.Base.Text.{Text, codes, has_suffix, is_space, fields, fields_onto}

-- The loop of `FieldsFunc` and what follows it. `k` spans are recorded, and `cur` is the text from
-- `start`, or `none` when `start` is negative. The break leaves the rest as the last field.
unfoldable pub fields_func_loop : (ℕ → Bool) → ℕ → ℕ → Option Text → Text → List Text
fields_func_loop f n k none [] = []
fields_func_loop f n k (some cur) [] = cur ∷ []
fields_func_loop f n k (some cur) (c ∷ s) =
    let closed = cur ∷ fields_func_loop f n (k + 1) none s in
    let longer = fields_func_loop f n k (some (cur ++ c ∷ [])) s in if f c then closed else longer
fields_func_loop f n k none (c ∷ s) =
    let later = fields_func_loop f n k none s in
    let begun = fields_func_loop f n k (some (c ∷ [])) s in
    if f c then later else if ltb 0 n && leb n (k + 1) then (c ∷ s) ∷ [] else begun

-- `FieldsFunc`
unfoldable pub fields_func : Text → (ℕ → Bool) → ℕ → List Text
unfolding fields_func_loop
fields_func s f n = fields_func_loop f n 0 none s

-- `FieldsByAnySpace`
unfoldable pub fields_by_any_space : Text → ℕ → List Text
unfolding fields_func
fields_by_any_space s n = fields_func s is_space n

-- `AppendDescription`
unfoldable pub append_description : Text → Text → Text
unfolding has_suffix
append_description current addition =
    if has_suffix current (codes "\\")
    then take (length current - 1) current ++ addition
    else current ++ (codes "\n" ++ addition)

fields_tests :
    (fields_by_any_space (codes "  @title  a  b ") 2 ≡ codes "@title" ∷ codes "a  b " ∷ [])
    × (fields_by_any_space (codes "@title") 2 ≡ codes "@title" ∷ [])
    × (fields_by_any_space (codes "a b\tc") 0 ≡ codes "a" ∷ codes "b" ∷ codes "c" ∷ [])
    × (append_description (codes "a\\") (codes "b") ≡ codes "ab")
unfolding fields_by_any_space append_description is_space
fields_tests = (refl, refl, refl, refl)
