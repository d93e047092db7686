-- ===== src/Base/Dict/Laws.antt =====
-- A `Map` holds each key once; its values by key; its size under `delete`.
use mathlib.Core.Path.{◌≡◌, refl, sym, ap, ◌∙◌}
use mathlib.Core.Logic.{inl, inr}
use mathlib.Core.Bool.{false}
use mathlib.Core.Option.{none, some}
use mathlib.Core.List.{[], ◌∷◌}
use native.Mathlib.Omega.{arith}
use Prim.Native.Nat.{◌≤◌, ◌<◌}
use ppv.Base.Tests.{Bool-cases}
use ppv.Base.Equality.{Eq, ◌==◌, ==_iff, ==_refl}
use ppv.Base.Lists.{length}
use ppv.Base.Members.{In}
use ppv.Base.Dict.{Dict, get, put, delete, values, get-put, get-delete}

module _ {K : Type 0} ⦃e : Eq K⦄ {V : Type 0} where
  abbrev pub IsMap : Dict K V → Type 0
  IsMap [] = Unit
  IsMap ((k, v) ∷ d) = (get k d ≡ none) × IsMap d

  pub get_self : (k : K) (v : V) (d : Dict K V) → get k ((k, v) ∷ d) ≡ some v
  unfolding get
  get_self k v d = rw (==_refl k)

  pub put-IsMap : (k : K) (v : V) (d : Dict K V) → IsMap d → IsMap (put k v d)
  unfolding put
  put-IsMap k v [] h = (unfold get in refl, tt)
  put-IsMap k v ((j, w) ∷ d) h = elim (Bool-cases (j == k)) [
    | inl q ↦ rw q h
    | inr q ↦ rw q (rw get-put (rw (ne_symm q) h.0), put-IsMap k v d h.1)
  ]
    where
      ne_symm : (j == k) ≡ false → (k == j) ≡ false
      ne_symm q = ground (arith, ==_iff j k, ==_iff k j)

  pub delete-IsMap : (k : K) (d : Dict K V) → IsMap d → IsMap (delete k d)
  unfolding delete
  delete-IsMap k [] h = tt
  delete-IsMap k ((j, w) ∷ d) h = elim (Bool-cases (j == k)) [
    | inl q ↦ rw q (delete-IsMap k d h.1)
    | inr q ↦ rw q (ground (arith, get-delete k j d), delete-IsMap k d h.1)
  ]

  pub In-of_get : (k : K) (d : Dict K V) {v : V} → get k d ≡ some v → In v (values d)
  unfolding get
  In-of_get k [] h = cc
  In-of_get k ((j, w) ∷ d) {v} h = ground (arith, In-of_get k d {v = v})

  pub get_of_In : (d : Dict K V) (v : V) → IsMap d → In v (values d) → (k : K) × (get k d ≡ some v)
  unfolding get
  get_of_In [] v m i = absurd i
  get_of_In ((j, w) ∷ d) v m (inl q) = (j, get_self j w d ∙ ap some (sym q))
  get_of_In ((j, w) ∷ d) v m (inr i) =
      let (k, g) = get_of_In d v m.1 i in
      (
        k,
        elim (Bool-cases (j == k)) [
          | inl q ↦ absurd (cc (m.0, g, ap (λ (x : K). get x d) ((==_iff j k).0 q)))
          | inr q ↦ rw q g
        ],
      )

  -- A map with no key is empty.
  pub empty_of_get : (d : Dict K V) → ((k : K) → get k d ≡ none) → d ≡ []
  empty_of_get [] h = refl
  empty_of_get ((j, w) ∷ d) h = cc (h j, get_self j w d)

  pub length-delete-le : (k : K) (d : Dict K V) → length (delete k d) ≤ length d
  unfolding delete
  length-delete-le k [] = omega arith
  length-delete-le k ((j, w) ∷ d) = ground (arith, length-delete-le k d)

  pub length-delete :
      (k : K) (d : Dict K V) {v : V} → get k d ≡ some v → length (delete k d) < length d
  unfolding delete get
  length-delete k [] h = cc
  length-delete k ((j, w) ∷ d) {v} h =
      ground (arith, length-delete-le k d, length-delete k d {v = v})
