-- ===== src/Base/Maps.antt =====
-- Maps with texts as keys, as association lists.
use core_swag.Base.Tests.{if◌then◌else◌}
use core_swag.Base.Text.{Text, text_eq, text_eq_iff}
use mathlib.Core.Path.{◌≡◌, refl}
use mathlib.Core.Option.{Option, none, some}
use mathlib.Core.List.{List, [], ◌∷◌}
use native.Mathlib.Omega.{arith}

-- A key is written where it stands, or at the end.
module _ {ℓ} {A : Type ℓ} where
  unfoldable pub put_key : Text → A → List (Text × A) → List (Text × A)
  put_key k v [] = (k, v) ∷ []
  put_key k v ((j, w) ∷ m) = if text_eq j k then (k, v) ∷ m else (j, w) ∷ put_key k v m

  unfoldable pub get_key : Text → List (Text × A) → Option A
  get_key k [] = none
  get_key k ((j, w) ∷ m) = if text_eq j k then some w else get_key k m

  pub get_key-put_key :
      (j k : Text) (v : A) (m : List (Text × A))
      → get_key j (put_key k v m) ≡ (if text_eq k j then some v else get_key j m)
  unfolding put_key get_key
  get_key-put_key j k v [] = refl
  get_key-put_key j k v ((i, w) ∷ m) =
      ground (arith, text_eq_iff k j, text_eq_iff i k, text_eq_iff i j, get_key-put_key j k v m)
