-- ===== src/Prelude/Maps.antt =====
-- Go maps with string keys, and database tables with a unique text key, as association lists.
-- The program depends on the order of entries nowhere.
use mathlib.Core.Path.{◌≡◌}
use mathlib.Core.Option.{Option, none, some}
use mathlib.Core.List.{List, [], ◌∷◌}
use native.Mathlib.Omega.{arith}
use apoci.Prelude.Strings.{Text, text_eq, text_eq_iff, text_eq_refl}
use apoci.Prelude.Tests.{if◌then◌else◌}

abbrev pub Map {ℓ} : Type ℓ → Type ℓ
Map V = List (Text × V)

module _ {ℓ} {V : Type ℓ} where
  unfoldable pub get : Text → Map V → Option V
  unfolding text_eq
  get k [] = none
  get k ((j, v) ∷ m) = if text_eq j k then some v else get k m

  unfoldable pub delete : Text → Map V → Map V
  unfolding text_eq
  delete k [] = []
  delete k ((j, v) ∷ m) = let rest = delete k m in if text_eq j k then rest else (j, v) ∷ rest

  unfoldable pub put : Text → V → Map V → Map V
  unfolding delete
  put k v m = (k, v) ∷ delete k m

  pub get-delete :
      (k j : Text) (m : Map V) → get j (delete k m) ≡ (if text_eq k j then none else get j m)
  unfolding get delete
  get-delete k j [] = ground arith
  get-delete k j ((i, v) ∷ m) =
      ground (arith, get-delete k j m, text_eq_iff i k, text_eq_iff i j, text_eq_iff k j)

  pub get-put :
      (k j : Text) (v : V) (m : Map V)
      → get j (put k v m) ≡ (if text_eq k j then some v else get j m)
  unfolding get put
  get-put k j v m = simp get-delete (ground arith)

pub ruleset map_laws = (get-put, get-delete, text_eq_refl)
