-- ===== src/Base/Dict.antt =====
-- JavaScript's `Map`: entries in insertion order, at most one for each key.
pub mod Laws
use mathlib.Core.Path.{◌≡◌, refl}
use mathlib.Core.Option.{Option, none, some}
use mathlib.Core.List.{List, [], ◌∷◌}
use native.Mathlib.Omega.{arith}
use ppv.Base.Tests.{if◌then◌else◌}
use ppv.Base.Equality.{Eq, ◌==◌, ==_iff}

abbrev pub Dict {ℓ κ} : Type ℓ → Type κ → Type (ℓ ⊔ κ)
Dict K V = List (K × V)

module _ {ℓ κ} {K : Type ℓ} {V : Type κ} where
  abbrev pub values : Dict K V → List V
  values [] = []
  values ((k, v) ∷ d) = v ∷ values d

module _ {ℓ κ} {K : Type ℓ} ⦃e : Eq K⦄ {V : Type κ} where
  unfoldable pub get : K → Dict K V → Option V
  get k [] = none
  get k ((j, v) ∷ d) = if j == k then some v else get k d

  -- `map.set`: an entry that exists keeps its place.
  unfoldable pub put : K → V → Dict K V → Dict K V
  put k v [] = (k, v) ∷ []
  put k v ((j, w) ∷ d) = if j == k then (j, v) ∷ d else (j, w) ∷ put k v d

  unfoldable pub delete : K → Dict K V → Dict K V
  delete k [] = []
  delete k ((j, v) ∷ d) = let rest = delete k d in if j == k then rest else (j, v) ∷ rest

  pub get-put :
      (k j : K) (v : V) (d : Dict K V) → get j (put k v d) ≡ (if k == j then some v else get j d)
  unfolding get put
  get-put k j v [] = refl
  get-put k j v ((i, w) ∷ d) = ground (arith, get-put k j v d, ==_iff i k, ==_iff i j, ==_iff k j)

  pub get-delete :
      (k j : K) (d : Dict K V) → get j (delete k d) ≡ (if k == j then none else get j d)
  unfolding get delete
  get-delete k j [] = ground arith
  get-delete k j ((i, v) ∷ d) = ground (arith, get-delete k j d, ==_iff i k, ==_iff i j, ==_iff k j)
