-- ===== src/Indexer/Store/Projection.antt =====
-- indexer/src/projections.ts: `project` against `projectAgreement`.
use ppv.Base.{
  refl, ◌≡◌, ◌↔◌, inl, inr, some, none, Option, List, [], ◌∷◌, ◌++◌, ◌==◌, list_eq, ◌∙◌, sym, ap,
  ==_iff, Bool-cases, select,
}
use ppv.Base.Int.{ℤ}
use mathlib.Core.List.{append_assoc}
use ppv.Base.Text.{Text}
use ppv.Base.Result.{ok, >>=-eq-ok}
use ppv.Base.Dict.{Dict, get, put, get-put, values}
use ppv.Escrow.Receipts.{PpvEscrowReceiptV1, or_else}
use ppv.Escrow.Lifecycle.Reconstruct.{AgreementLifecycle, reconstruct_agreement_lifecycle}
use ppv.Indexer.Store.{
  ReceiptStore, Groups, group, for_agreement, all, project_groups, project, project_agreement,
}

abbrev of_agreement : Text → List PpvEscrowReceiptV1 → List PpvEscrowReceiptV1
of_agreement a rs = select (λ r. r.agreement == a) rs

-- A bucket with more receipts pushed on it.
abbrev grown :
    Option (List PpvEscrowReceiptV1) → List PpvEscrowReceiptV1 → Option (List PpvEscrowReceiptV1)
grown none [] = none
grown none (x ∷ xs) = some (x ∷ xs)
grown (some b) xs = some (b ++ xs)

append-nil : (xs : List PpvEscrowReceiptV1) → xs ++ [] ≡ xs
append-nil [] = refl
append-nil (x ∷ xs) = ap (λ (l : List PpvEscrowReceiptV1). x ∷ l) (append-nil xs)

grown-nil : (o : Option (List PpvEscrowReceiptV1)) → o ≡ grown o []
grown-nil none = refl
grown-nil (some b) = ap some (sym (append-nil b))

grown-cons :
    (o : Option (List PpvEscrowReceiptV1)) (r : PpvEscrowReceiptV1) (rs : List PpvEscrowReceiptV1)
    → grown (some (or_else o [] ++ r ∷ [])) rs ≡ grown o (r ∷ rs)
grown-cons none r rs = refl
grown-cons (some b) r rs = ap some (append_assoc b (r ∷ []) rs)

group-get :
    (a : Text) (g : Groups) (rs : List PpvEscrowReceiptV1)
    → get a (group g rs) ≡ grown (get a g) (of_agreement a rs)
unfolding group
group-get a g [] = grown-nil (get a g)
group-get a g (r ∷ rs) =
    let step =
      group-get a (put r.agreement (or_else (get r.agreement g) [] ++ r ∷ []) g) rs
      ∙ ap (λ (o : Option (List PpvEscrowReceiptV1)). grown o (of_agreement a rs))
          (get-put r.agreement a (or_else (get r.agreement g) [] ++ r ∷ []) g) in
    elim (Bool-cases (r.agreement == a)) [
      | inl e ↦
          let q = (==_iff r.agreement a).0 e in
          rw e (
            step
            ∙ (rw e (
                ap (λ (k : Text). grown (some (or_else (get k g) [] ++ r ∷ [])) (of_agreement a rs))
                  q
                ∙ grown-cons (get a g) r (of_agreement a rs))))
      | inr e ↦ rw e (step ∙ rw e refl)
    ]

module _ (compare : Text → Text → ℤ) where
  -- What `project_groups` made of an agreement's group.
  data Projected (a : Text) (g : Groups) (p : Dict Text AgreementLifecycle) : Type 0 where
    absent : get a g ≡ none → get a p ≡ none → Projected a g p
    rebuilt :
        (rs : List PpvEscrowReceiptV1) (l : AgreementLifecycle)
        → get a g ≡ some rs
        → reconstruct_agreement_lifecycle compare rs ≡ ok l
        → get a p ≡ some l
        → Projected a g p

  project_groups-Projected :
      (a : Text) (g : Groups) {p : Dict Text AgreementLifecycle}
      → project_groups compare g ≡ ok p
      → Projected a g p
  unfolding project_groups get
  project_groups-Projected a [] {p} e =
      let q : [] ≡ p = cc in
      absent refl (ap (λ (d : Dict Text AgreementLifecycle). get a d) (sym q))
  project_groups-Projected a ((k, rs) ∷ g) {p} e =
      let (l, made, f) = >>=-eq-ok (reconstruct_agreement_lifecycle compare rs) _ e in
      let (ps, rest, h) = >>=-eq-ok (project_groups compare g) _ f in
      let q : (k, l) ∷ ps ≡ p = cc in
      let at_a = ap (λ (d : Dict Text AgreementLifecycle). get a d) (sym q) in
      elim (Bool-cases (k == a)) [
        | inl t ↦ rebuilt rs l (rw t refl) made (at_a ∙ rw t refl)
        | inr t ↦ elim (project_groups-Projected a g rest) [
          | absent x y ↦ absent (rw t x) (at_a ∙ rw t y)
          | rebuilt ss m x y z ↦ rebuilt ss m (rw t x) y (at_a ∙ rw t z)
        ]
      ]

  nothing_rebuilt : {l : AgreementLifecycle} → reconstruct_agreement_lifecycle compare [] ≡ ok l → ⊥
  unfolding reconstruct_agreement_lifecycle
  nothing_rebuilt e = cc

  -- When every agreement of the store can be rebuilt, an agreement is in the projections with a
  -- lifecycle exactly when that lifecycle is the one rebuilt from the agreement's own receipts.
  pub project-iff-project_agreement :
      (store : ReceiptStore) (a : Text) {p : Dict Text AgreementLifecycle} (l : AgreementLifecycle)
      → project compare store ≡ ok p
      → (get a p ≡ some l) ↔ (project_agreement compare store a ≡ ok l)
  unfolding project project_agreement for_agreement all get
  project-iff-project_agreement store a {p} l e =
      bucket (of_agreement a (values store)) (group-get a [] (values store))
        (project_groups-Projected a (group [] (values store)) e)
    where
      bucket :
          (xs : List PpvEscrowReceiptV1)
          → get a (group [] (values store)) ≡ grown none xs
          → Projected a (group [] (values store)) p
          → (get a p ≡ some l) ↔ (reconstruct_agreement_lifecycle compare xs ≡ ok l)
      bucket [] g (absent x y) = (λ h. cc, λ h. absurd (nothing_rebuilt h))
      bucket [] g (rebuilt rs m x y z) = cc
      bucket (r ∷ rs) g (absent x y) = cc
      bucket (r ∷ rs) g (rebuilt ss m x y z) =
          let q : ss ≡ r ∷ rs = cc in
          let made : reconstruct_agreement_lifecycle compare (r ∷ rs) ≡ ok m =
            ap (reconstruct_agreement_lifecycle compare) (sym q) ∙ y in
          (
            λ h. let t : m ≡ l = cc in made ∙ ap ok t,
            λ h. let t : ok m ≡ ok l = sym made ∙ h in let u : m ≡ l = cc in z ∙ ap some u,
          )
