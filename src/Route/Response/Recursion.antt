-- ===== src/Route/Response/Recursion.antt =====
-- The recursion of `resolveOverrideTypeSchema` ends by itself.
use core_swag.Base.{
  ℕ, zero, suc, ◌+◌, ◌-◌, ◌≡◌, ◌≤◌, refl, true, List, [], ◌∷◌, Option, none, some, Bool-cases, inl,
  inr, arith, length, drop, ltb,
}
use core_swag.Base.Text.{Text, codes, has_prefix, index}
use core_swag.Spec.{Schema, Functions}
use core_swag.Route.Response.{Context}
use core_swag.Route.Response.Combined.{
  resolve_step, resolve_map, map_to, resolve_to, resolve_override_type_schema,
}

length-drop {ℓ} : {A : Type ℓ} (n : ℕ) (xs : List A) → length (drop n xs) ≡ length xs - n
length-drop zero xs = omega arith
length-drop (suc n) [] = omega arith
length-drop (suc n) (x ∷ xs) = omega (arith, length-drop n xs)

longer : (c : ℕ) (p t : Text) → has_prefix t (c ∷ p) ≡ true → 1 ≤ length t
unfolding has_prefix
longer c p [] h = ground arith
longer c p (d ∷ t) h = omega arith

module _ {File : Type 0} (lib : Functions) (c : Context File) where
  abbrev Shorter : (Text → Schema) → (Text → Schema) → Text → Type 0
  Shorter f g t = (v : Text) → suc (length v) ≤ length t → f v ≡ g v

  map_to-same : (f g : Text → Schema) (v : Text) → f v ≡ g v → map_to lib c f v ≡ map_to lib c g v
  unfolding map_to
  map_to-same f g v h = rw h refl

  resolve_map-same :
      (f g : Text → Schema) (t : Text) (i : Option ℕ)
      → Shorter f g t
      → resolve_map lib c f t i ≡ resolve_map lib c g t i
  unfolding resolve_map
  resolve_map-same f g t none h = refl
  resolve_map-same f g t (some i) h = elim (Bool-cases (ltb (i + 1) (length t))) [
    | inl e ↦ rw e (
        map_to-same f g (drop (i + 1) t)
          (h (drop (i + 1) t) (ground (arith, length-drop (i + 1) t))))
    | inr e ↦ rw e refl
  ]

  resolve_step-same :
      (f g : Text → Schema) (t : Text)
      → Shorter f g t
      → resolve_step lib c f t ≡ resolve_step lib c g t
  unfolding resolve_step
  resolve_step-same f g t h = elim (Bool-cases (has_prefix t (codes "[]"))) [
    | inl e ↦ rw e (
        let same = h (drop 2 t) (omega (arith, length-drop 2 t, longer b'[' (codes "]") t e)) in
        rw same refl)
    | inr e ↦ rw e (rw (resolve_map-same f g t (index t b']') h) refl)
  ]

  resolve_to-same :
      (m n : ℕ) (t : Text)
      → length t ≤ m
      → length t ≤ n
      → resolve_to lib c m t ≡ resolve_to lib c n t
  unfolding resolve_to
  resolve_to-same zero zero t hm hn = refl
  resolve_to-same zero (suc n) t hm hn =
      resolve_step-same _ (resolve_to lib c n) t (λ v k. absurd (omega arith))
  resolve_to-same (suc m) zero t hm hn =
      resolve_step-same (resolve_to lib c m) _ t (λ v k. absurd (omega arith))
  resolve_to-same (suc m) (suc n) t hm hn =
      resolve_step-same (resolve_to lib c m) (resolve_to lib c n) t
        (λ v k. resolve_to-same m n v (omega arith) (omega arith))

  bounded :
      (n : ℕ) (t : Text)
      → length t ≡ n
      → resolve_to lib c n t ≡ resolve_step lib c (resolve_override_type_schema lib c) t
  unfolding resolve_to resolve_override_type_schema
  bounded zero t h = resolve_step-same _ _ t (λ v k. absurd (omega arith))
  bounded (suc n) t h =
      resolve_step-same (resolve_to lib c n) _ t
        (λ v k. resolve_to-same n (length v) v (omega arith) (omega arith))

  -- The schema of a type is the one that the body of `resolveOverrideTypeSchema` gives if it calls
  -- itself without any bound on the depth, so that the bound that the model has is never met.
  pub resolve_override_type_schema-step :
      (t : Text)
      → resolve_override_type_schema lib c t
        ≡ resolve_step lib c (resolve_override_type_schema lib c) t
  resolve_override_type_schema-step t =
      unfold resolve_override_type_schema in bounded (length t) t refl
