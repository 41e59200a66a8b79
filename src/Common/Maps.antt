-- ===== src/Common/Maps.antt =====
-- Go maps with text keys, as lists of pairs without repeated keys.
use mathlib.Core.Path.{◌≡◌, refl}
use mathlib.Core.List.{List, [], ◌∷◌}
use mathlib.Core.Option.{Option, none, some}
use native.Mathlib.Omega.{arith}
use solocoder_6069_go_drive.Common.Tests.{if◌then◌else◌}
use solocoder_6069_go_drive.Common.Text.{Str, str_eq, str_eq_iff}

module _ {ℓ} {V : Type ℓ} where
  -- v, ok := m[key]
  unfoldable pub map_get : Str → List (Str × V) → Option V
  map_get key [] = none
  map_get key ((k, v) ∷ m) = if str_eq k key then some v else map_get key m

  -- m[key] = v
  unfoldable pub map_set : Str → V → List (Str × V) → List (Str × V)
  map_set key v [] = (key, v) ∷ []
  map_set key v ((k, w) ∷ m) =
      let rest = map_set key v m in if str_eq k key then (key, v) ∷ m else (k, w) ∷ rest

  pub map_get-map_set :
      (key j : Str) (v : V) (m : List (Str × V))
      → map_get j (map_set key v m) ≡ (if str_eq key j then some v else map_get j m)
  unfolding map_get map_set
  map_get-map_set key j v [] = refl
  map_get-map_set key j v ((k, w) ∷ m) =
      ground (arith, str_eq_iff k key, str_eq_iff k j, str_eq_iff key j, map_get-map_set key j v m)

  -- delete(m, key)
  unfoldable pub map_delete : Str → List (Str × V) → List (Str × V)
  map_delete key [] = []
  map_delete key ((k, v) ∷ m) =
      let rest = map_delete key m in if str_eq k key then rest else (k, v) ∷ rest

  pub map_get-map_delete :
      (key j : Str) (m : List (Str × V))
      → map_get j (map_delete key m) ≡ (if str_eq key j then none else map_get j m)
  unfolding map_get map_delete
  map_get-map_delete key j [] = ground arith
  map_get-map_delete key j ((k, w) ∷ m) =
      ground (arith, str_eq_iff k key, str_eq_iff k j, str_eq_iff key j, map_get-map_delete key j m)
