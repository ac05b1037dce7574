-- ===== src/Base/Maps.antt =====
-- Go maps with text keys, as association lists. What the program reads of a map is `find`.
use mathlib.Core.Path.{◌≡◌, refl}
use mathlib.Core.Option.{Option, none, some}
use mathlib.Core.List.{List, [], ◌∷◌}
use native.Mathlib.Omega.{arith}
use cube_idp.Base.Tests.{Text, ◌==◌, ==_iff, if◌then◌else◌}

abbrev pub Dict {ℓ} : Type ℓ → Type ℓ
Dict V = List (Text × V)

module _ {ℓ} {V : Type ℓ} where
  -- v, ok := m[k]
  unfoldable pub find : Dict V → Text → Option V
  find [] k = none
  find ((j, v) ∷ m) k = if j == k then some v else find m k

  -- m[k] = v
  unfoldable pub put : Dict V → Text → V → Dict V
  put [] k v = (k, v) ∷ []
  put ((j, w) ∷ m) k v = let rest = put m k v in if j == k then (k, v) ∷ m else (j, w) ∷ rest

  -- delete(m, k)
  unfoldable pub delete : Dict V → Text → Dict V
  delete [] k = []
  delete ((j, w) ∷ m) k = let rest = delete m k in if j == k then rest else (j, w) ∷ rest

  pub find-put :
      (m : Dict V) (k j : Text) (v : V) → find (put m k v) j ≡ (if k == j then some v else find m j)
  unfolding find put
  find-put [] k j v = refl
  find-put ((i, w) ∷ m) k j v = ground (arith, ==_iff k j, ==_iff i k, ==_iff i j, find-put m k j v)

  pub find-delete :
      (m : Dict V) (k j : Text) → find (delete m k) j ≡ (if k == j then none else find m j)
  unfolding find delete
  find-delete [] k j = ground arith
  find-delete ((i, w) ∷ m) k j =
      ground (arith, ==_iff k j, ==_iff i k, ==_iff i j, find-delete m k j)
