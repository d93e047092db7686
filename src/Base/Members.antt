-- ===== src/Base/Members.antt =====
-- Membership by recursion, which the tactics take apart, and lists given by their members.
use mathlib.Core.Path.{◌≡◌, refl, sym, ap, ◌∙◌}
use mathlib.Core.Logic.{◌↔◌, ◌⊎◌, inl, inr}
use mathlib.Core.Bool.{Bool, true}
use mathlib.Core.Option.{some}
use mathlib.Core.List.{List, [], ◌∷◌, ◌++◌}
use native.Mathlib.Omega.{arith}
use ppv.Base.Tests.{Bool-cases}
use ppv.Base.Lists.{any, every, select, find?}

module _ {A : Type 0} where
  abbrev pub In : A → List A → Type 0
  In a [] = ⊥
  In a (x ∷ xs) = (a ≡ x) ⊎ In a xs

  abbrev pub SameMembers : List A → List A → Type 0
  SameMembers xs ys = (a : A) → In a xs ↔ In a ys

  pub SameMembers-symm : (xs ys : List A) → SameMembers xs ys → SameMembers ys xs
  SameMembers-symm xs ys h a = ((h a).1, (h a).0)

  pub append-nil : (xs ys : List A) → (xs ++ ys ≡ []) ↔ ((xs ≡ []) × (ys ≡ []))
  append-nil [] ys = ((λ h. (refl, h)), λ h. h.1)
  append-nil (x ∷ xs) ys = ((λ h. cc), λ h. let a = h.0 in cc)

  pub In-append : (a : A) (xs ys : List A) → In a (xs ++ ys) ↔ (In a xs ⊎ In a ys)
  In-append a [] ys = (λ h. inr h, λ h. elim h [ inl f ↦ elim f [ ] | inr i ↦ i ])
  In-append a (x ∷ xs) ys = ground (arith, In-append a xs ys)

  pub In-select :
      (a : A) (p : A → Bool) (xs : List A) → In a (select p xs) ↔ (In a xs × (p a ≡ true))
  In-select a p [] = (λ h. absurd h, λ h. absurd h.0)
  In-select a p (x ∷ xs) = elim (Bool-cases (p x)) [
    | inl e ↦ (
      λ h.
          let k : In a (x ∷ select p xs) = rw e at h in
          elim k [
            | inl q ↦ (inl q, ap p q ∙ e)
            | inr i ↦ let (j, t) = (In-select a p xs).0 i in (inr j, t)
          ],
      λ h. rw e (elim h.0 [ inl q ↦ inl q | inr i ↦ inr ((In-select a p xs).1 (i, h.1)) ]),
    )
    | inr e ↦ (
      λ h.
          let k : In a (select p xs) = rw e at h in
          let (j, t) = (In-select a p xs).0 k in (inr j, t),
      λ h. rw e (elim h.0 [
        | inl q ↦ absurd (cc (ap p q, h.1, e))
        | inr i ↦ (In-select a p xs).1 (i, h.1)
      ]),
    )
  ]

  pub every-In : (p : A → Bool) (xs : List A) (a : A) → every p xs ≡ true → In a xs → p a ≡ true
  every-In p [] a h i = absurd i
  every-In p (x ∷ xs) a h (inl q) = ap p q ∙ ground arith
  every-In p (x ∷ xs) a h (inr i) = every-In p xs a (ground arith) i

  pub every_of_In :
      (p : A → Bool) (xs : List A) → ((a : A) → In a xs → p a ≡ true) → every p xs ≡ true
  every_of_In p [] h = refl
  every_of_In p (x ∷ xs) h = rw (h x (inl refl)) (every_of_In p xs (λ a i. h a (inr i)))

  pub any-In : (p : A → Bool) (xs : List A) (a : A) → In a xs → p a ≡ true → any p xs ≡ true
  any-In p [] a i h = absurd i
  any-In p (x ∷ xs) a (inl q) h = rw (sym (ap p q) ∙ h) refl
  any-In p (x ∷ xs) a (inr i) h = ground (arith, any-In p xs a i h)

  pub find?-In : (p : A → Bool) (xs : List A) {a : A} → find? p xs ≡ some a → In a xs × (p a ≡ true)
  find?-In p [] h = cc
  find?-In p (x ∷ xs) {a} h = elim (Bool-cases (p x)) [
    | inl e ↦
        let q : some x ≡ some a = rw e at h in let r : x ≡ a = cc in (inl (sym r), ap p (sym r) ∙ e)
    | inr e ↦ let q : find? p xs ≡ some a = rw e at h in let (i, t) = find?-In p xs q in (inr i, t)
  ]

  pub find?_of_In :
      (p : A → Bool) (xs : List A) (a : A) → In a xs → p a ≡ true → (b : A) × (find? p xs ≡ some b)
  find?_of_In p [] a i h = absurd i
  find?_of_In p (x ∷ xs) a i h = elim (Bool-cases (p x)) [
    | inl e ↦ (x, rw e)
    | inr e ↦ elim i [ inl q ↦ absurd (cc (ap p q, h, e)) | inr j ↦ rw e (find?_of_In p xs a j h) ]
  ]
