-- ===== src/Escrow/Lifecycle/Delivery.antt =====
-- sdk/src/escrow/receipts.ts: receipts that arrive out of order and more than once.
use ppv.Base.{
  ◌≡◌, refl, ap, inl, inr, List, [], ◌∷◌, select, some, Bool-cases, ◌==◌, ==_iff, list_eq,
}
use ppv.Base.Members.{SameMembers, In-select}
use ppv.Base.Int.{ℤ}
use ppv.Base.Text.{Text}
use ppv.Base.Result.{ok, >>=-eq-ok}
use ppv.Base.Dict.{values, get}
use ppv.Base.Dict.Laws.{get_self}
use ppv.Escrow.Receipts.{PpvEscrowReceiptV1}
use ppv.Escrow.Lifecycle.Chain.{ById, index_receipts, is_annotation, delete_all, chain}
use ppv.Escrow.Lifecycle.Chain.Index.{
  IsIndex, IsIndex-nil, Consistent, In-values, index_receipts-IsIndex, index_receipts-members,
  index_receipts_total, delete_all-IsIndex, remaining-members,
}
use ppv.Escrow.Lifecycle.Chain.Order.{
  AllDistinct, Consistent-SameMembers, select-AllDistinct, chain-SameMembers,
}
use ppv.Escrow.Lifecycle.Keys.{IsCollation, ReceiptIds}
use ppv.Escrow.Lifecycle.Sorting.{sort-SameMembers}
use ppv.Escrow.Lifecycle.Payments.{observe_custody-sort}
use ppv.Escrow.Lifecycle.Placement.{sort_annotations}
use ppv.Escrow.Lifecycle.Reconstruct.{
  AgreementLifecycle, assemble_chain, reconstruct_unique, reconstruct_agreement_lifecycle,
}

-- The rest of an index is one.
tail-IsIndex : (k : Text) (r : PpvEscrowReceiptV1) (d : ById) → IsIndex ((k, r) ∷ d) → IsIndex d
unfolding get
tail-IsIndex k r d h = record {
  is_map = h.is_map.1;
  own_id = λ j s g. elim (Bool-cases (k == j)) [
    | inl e ↦ absurd (cc (h.is_map.0, g, ap (λ (x : Text). get x d) ((==_iff k j).0 e)))
    | inr e ↦ h.own_id j s (rw e g)
  ];
}

-- An index lists no receipt twice.
pub values-AllDistinct : (d : ById) → IsIndex d → AllDistinct (values d)
values-AllDistinct [] h = tt
values-AllDistinct ((k, r) ∷ d) h =
    let rest = tail-IsIndex k r d h in
    (
      λ i.
          let g = (In-values d r rest).0 i in
          absurd (cc (h.is_map.0, g, ap (λ (x : Text). get x d) (h.own_id k r (get_self k r d)))),
      values-AllDistinct d rest,
    )

no_entry :
    (k : Text) (y : PpvEscrowReceiptV1) {x : PpvEscrowReceiptV1}
    → get {V = PpvEscrowReceiptV1} k [] ≡ some y
    → y ≡ x
unfolding get
no_entry k y g = cc

abbrev pub annotations_of : ById → List PpvEscrowReceiptV1
annotations_of d = select is_annotation (values d)

abbrev pub transitions_of : ById → List PpvEscrowReceiptV1
transitions_of d = values (delete_all (annotations_of d) d)

module _ (compare : Text → Text → ℤ) (law : IsCollation compare) where
  assemble_chain-SameMembers :
      (xs ys ordered : List PpvEscrowReceiptV1) {l : AgreementLifecycle}
      → sort_annotations compare xs ≡ sort_annotations compare ys
      → assemble_chain compare xs ordered ≡ ok l
      → assemble_chain compare ys ordered ≡ ok l
  unfolding assemble_chain
  assemble_chain-SameMembers xs ys [] h e = cc
  assemble_chain-SameMembers xs ys (c ∷ path) h e =
      rw (← h, ← observe_custody-sort compare (c ∷ path) xs ys h) e

  -- What follows for the receipts of one id each.
  reconstruct_unique-SameMembers :
      (xs ys rs ss : List PpvEscrowReceiptV1) {l : AgreementLifecycle}
      → Consistent xs
      → AllDistinct xs
      → AllDistinct ys
      → SameMembers xs ys
      → ReceiptIds xs
      → Consistent rs
      → AllDistinct ss
      → SameMembers rs ss
      → reconstruct_unique compare xs rs ≡ ok l
      → reconstruct_unique compare ys ss ≡ ok l
  unfolding reconstruct_unique
  reconstruct_unique-SameMembers xs ys rs ss ca da db sab ids cr ds srs e =
      let (o, chained, assembled) = >>=-eq-ok (chain rs) _ e in
      rw (chain-SameMembers rs ss cr ds srs chained) (
        assemble_chain-SameMembers xs ys o (sort-SameMembers compare law xs ys ca da db sab ids)
          assembled)

  same_parts :
      (rs ss : List PpvEscrowReceiptV1) (d d' : ById) {l : AgreementLifecycle}
      → Consistent rs
      → SameMembers rs ss
      → ReceiptIds rs
      → index_receipts [] rs ≡ ok d
      → index_receipts [] ss ≡ ok d'
      → reconstruct_unique compare (annotations_of d) (transitions_of d) ≡ ok l
      → reconstruct_unique compare (annotations_of d') (transitions_of d') ≡ ok l
  same_parts rs ss d d' c same ids e f =
      let h = index_receipts-IsIndex [] rs IsIndex-nil e in
      let h' = index_receipts-IsIndex [] ss IsIndex-nil f in
      let m = index_receipts-members rs c e in
      let m' = index_receipts-members ss (Consistent-SameMembers rs ss same c) f in
      let c' : Consistent (values d) = Consistent-SameMembers rs (values d) m c in
      let sv : SameMembers (values d) (values d') =
        λ a. (λ i. (m' a).0 ((same a).0 ((m a).1 i)), λ i. (m a).0 ((same a).1 ((m' a).1 i))) in
      reconstruct_unique-SameMembers (annotations_of d) (annotations_of d') (transitions_of d)
        (transitions_of d')
        (λ a b i j.
          c' a b ((In-select a is_annotation (values d)).0 i).0
            ((In-select b is_annotation (values d)).0 j).0)
        (select-AllDistinct is_annotation (values d) (values-AllDistinct d h))
        (select-AllDistinct is_annotation (values d') (values-AllDistinct d' h'))
        (λ a. (
          λ i.
              let (j, t) = (In-select a is_annotation (values d)).0 i in
              (In-select a is_annotation (values d')).1 ((sv a).0 j, t),
          λ i.
              let (j, t) = (In-select a is_annotation (values d')).0 i in
              (In-select a is_annotation (values d)).1 ((sv a).1 j, t),
        ))
        (λ r i. ids r ((m r).1 ((In-select r is_annotation (values d)).0 i).0))
        (λ a b i j. c' a b ((remaining-members d a h).0 i).0 ((remaining-members d b h).0 j).0)
        (values-AllDistinct _ (delete_all-IsIndex (annotations_of d') d' h'))
        (λ a. (
          λ i.
              let (j, t) = (remaining-members d a h).0 i in
              (remaining-members d' a h').1 ((sv a).0 j, t),
          λ i.
              let (j, t) = (remaining-members d' a h').0 i in
              (remaining-members d a h).1 ((sv a).1 j, t),
        ))

  -- Where receipts of one id are one receipt, their ids are texts of the form that receipt ids have,
  -- and the collation compares consistently and tells such texts apart: a list of receipts that is
  -- accepted gives the same lifecycle as every other list of the same receipts, in any order and with
  -- any repetitions.
  pub reconstruct-SameMembers :
      (rs ss : List PpvEscrowReceiptV1) {l : AgreementLifecycle}
      → Consistent rs
      → SameMembers rs ss
      → ReceiptIds rs
      → reconstruct_agreement_lifecycle compare rs ≡ ok l
      → reconstruct_agreement_lifecycle compare ss ≡ ok l
  unfolding reconstruct_agreement_lifecycle
  reconstruct-SameMembers [] ss c same ids e = cc
  reconstruct-SameMembers (r ∷ rs) [] c same ids e = absurd ((same r).0 (inl refl))
  reconstruct-SameMembers (r ∷ rs) (s ∷ ss) c same ids e =
      let (d, indexed, rebuilt) = >>=-eq-ok (index_receipts [] (r ∷ rs)) _ e in
      let (d', indexed') =
        index_receipts_total [] (s ∷ ss) (λ x y i g. no_entry x.receipt_id y g)
          (Consistent-SameMembers (r ∷ rs) (s ∷ ss) same c) in
      rw indexed' (same_parts (r ∷ rs) (s ∷ ss) d d' c same ids indexed indexed' rebuilt)
