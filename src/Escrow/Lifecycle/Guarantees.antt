-- ===== src/Escrow/Lifecycle/Guarantees.antt =====
-- sdk/src/escrow/receipts.ts: the histories that `reconstructAgreementLifecycle` accepts.
use ppv.Base.{◌≡◌, refl, sym, ap, ◌∙◌, ◌↔◌, inl, false, none, List, [], ◌∷◌, option_eq, nat_eq}
use ppv.Base.Members.{In}
use ppv.Base.Result.{ok, >>=-eq-ok}
use ppv.Base.Text.{Text}
use ppv.Base.Int.{ℤ}
use ppv.Escrow.Receipts.{PpvEscrowReceiptV1}
use ppv.Escrow.Receipts.Actions.{action_eq}
use ppv.Escrow.Lifecycle.Chain.{ById, index_receipts, is_annotation, chain}
use ppv.Escrow.Lifecycle.Chain.Index.{
  IsIndex-nil, Consistent, index_receipts-IsIndex, index_receipts-members, remaining-members,
}
use ppv.Escrow.Lifecycle.Chain.Path.{Linked, NeverRevisits}
use ppv.Escrow.Lifecycle.Chain.Run.{chain_sound, chain-Run}
use ppv.Escrow.Lifecycle.Chain.Order.{same_agreement-In}
use ppv.Escrow.Lifecycle.Placement.{sort_annotations}
use ppv.Escrow.Lifecycle.Delivery.{annotations_of, transitions_of}
use ppv.Escrow.Lifecycle.Settlement.{Assembled, assemble-Assembled}
use ppv.Escrow.Lifecycle.Reconstruct.{
  AgreementLifecycle, assemble_chain, reconstruct_unique, reconstruct_agreement_lifecycle, last_of,
}

module _ (compare : Text → Text → ℤ) where
  -- What a successful call has gone through.
  pub record Rebuilt (rs : List PpvEscrowReceiptV1) (l : AgreementLifecycle) : Type 0 where
    pub by_id : ById
    pub indexed : index_receipts [] rs ≡ ok by_id
    pub created : PpvEscrowReceiptV1
    pub path : List PpvEscrowReceiptV1
    pub chained : chain (transitions_of by_id) ≡ ok (created ∷ path)
    pub assembled :
        Assembled created path
          (annotations_of by_id)
          (sort_annotations compare (annotations_of by_id))
          l

  assemble_chain-cons :
      (xs o : List PpvEscrowReceiptV1) {l : AgreementLifecycle}
      → assemble_chain compare xs o ≡ ok l
      → (created : PpvEscrowReceiptV1) × (path : List PpvEscrowReceiptV1) × (o ≡ created ∷ path)
        × Assembled created path xs (sort_annotations compare xs) l
  unfolding assemble_chain
  assemble_chain-cons xs [] e = cc
  assemble_chain-cons xs (c ∷ path) e =
      (c, path, refl, assemble-Assembled compare c path xs (sort_annotations compare xs) e)

  pub reconstruct-Rebuilt :
      (rs : List PpvEscrowReceiptV1) {l : AgreementLifecycle}
      → reconstruct_agreement_lifecycle compare rs ≡ ok l
      → Rebuilt rs l
  unfolding reconstruct_agreement_lifecycle reconstruct_unique
  reconstruct-Rebuilt [] e = cc
  reconstruct-Rebuilt (r ∷ rs) e =
      let (d, indexed, f) = >>=-eq-ok (index_receipts [] (r ∷ rs)) _ e in
      let (o, chained, g) = >>=-eq-ok (chain (transitions_of d)) _ f in
      let (c, path, shape, made) = assemble_chain-cons (annotations_of d) o g in
      record {
        by_id = d;
        indexed = indexed;
        created = c;
        path = path;
        chained = chained ∙ ap ok shape;
        assembled = made;
      }

  -- The transitions of the index are those of the receipts.
  transitions-members :
      (rs : List PpvEscrowReceiptV1) (d : ById)
      → Consistent rs
      → index_receipts [] rs ≡ ok d
      → (r : PpvEscrowReceiptV1) → In r (transitions_of d) ↔ (In r rs × (is_annotation r ≡ false))
  transitions-members rs d c e r =
      let m = index_receipts-members rs c e r in
      let k = remaining-members d r (index_receipts-IsIndex [] rs IsIndex-nil e) in
      (λ i. let (j, a) = k.0 i in (m.1 j, a), λ h. k.1 (m.0 h.0, h.1))

  Consistent-transitions :
      (rs : List PpvEscrowReceiptV1) (d : ById)
      → Consistent rs
      → index_receipts [] rs ≡ ok d
      → Consistent (transitions_of d)
  Consistent-transitions rs d c e r s i j =
      c r s ((transitions-members rs d c e r).0 i).0 ((transitions-members rs d c e s).0 j).0

  -- The path of a history that was accepted.
  pub record History (rs : List PpvEscrowReceiptV1) (l : AgreementLifecycle) : Type 0 where
    pub created : PpvEscrowReceiptV1
    pub path : List PpvEscrowReceiptV1
    pub from_nothing : created.previous_state ≡ none
    pub linked : Linked created path
    pub fresh : NeverRevisits (created.new_state ∷ []) path
    pub complete :
        (r : PpvEscrowReceiptV1) → In r (created ∷ path) ↔ (In r rs × (is_annotation r ≡ false))
    pub ends :
        (l.state ≡ (last_of created path).new_state) × (l.last_slot ≡ (last_of created path).slot)
    pub parties : (l.agreement ≡ created.agreement) × (l.buyer ≡ created.buyer)

  -- A history that is accepted, of receipts that agree under each id, is one path: it begins with
  -- a transition from no state, each step starts in the state that the one before it ended in and
  -- in no earlier slot, no state is entered twice, and the path has exactly the transitions that
  -- were given. The lifecycle reports the path's last state and slot, and the agreement and buyer
  -- it began with.
  pub reconstruct-History :
      (rs : List PpvEscrowReceiptV1) {l : AgreementLifecycle}
      → Consistent rs
      → reconstruct_agreement_lifecycle compare rs ≡ ok l
      → History rs l
  reconstruct-History rs c e =
      let b = reconstruct-Rebuilt rs e in
      let (root, linked, fresh, members) =
        chain_sound (transitions_of b.by_id) b.created b.path
          (Consistent-transitions rs b.by_id c b.indexed) b.chained in
      record {
        created = b.created;
        path = b.path;
        from_nothing = root;
        linked = linked;
        fresh = fresh;
        complete = λ r.
            let k = transitions-members rs b.by_id c b.indexed r in
            (λ i. k.0 ((members r).1 i), λ h. (members r).0 (k.1 h));
        ends = (b.assembled.state, b.assembled.last_slot);
        parties = (b.assembled.agreement, b.assembled.buyer);
      }

  -- Every transition given is on the path.
  pub on_path :
      (rs : List PpvEscrowReceiptV1) {l : AgreementLifecycle} (b : Rebuilt rs l)
      (r : PpvEscrowReceiptV1)
      → Consistent rs
      → In r rs
      → is_annotation r ≡ false
      → In r (b.created ∷ b.path)
  on_path rs b r c i a =
      let (root, linked, fresh, members) =
        chain_sound (transitions_of b.by_id) b.created b.path
          (Consistent-transitions rs b.by_id c b.indexed) b.chained in
      (members r).0 ((transitions-members rs b.by_id c b.indexed r).1 (i, a))

  -- Every transition on the path was given.
  pub from_path :
      (rs : List PpvEscrowReceiptV1) {l : AgreementLifecycle} (b : Rebuilt rs l)
      (r : PpvEscrowReceiptV1)
      → Consistent rs
      → In r (b.created ∷ b.path)
      → In r rs
  from_path rs b r c i =
      let (root, linked, fresh, members) =
        chain_sound (transitions_of b.by_id) b.created b.path
          (Consistent-transitions rs b.by_id c b.indexed) b.chained in
      ((transitions-members rs b.by_id c b.indexed r).0 ((members r).1 i)).0

  -- No state of the path is entered twice.
  pub path_fresh :
      (rs : List PpvEscrowReceiptV1) {l : AgreementLifecycle} (b : Rebuilt rs l)
      → Consistent rs
      → NeverRevisits (b.created.new_state ∷ []) b.path
  path_fresh rs b c =
      let (root, linked, fresh, members) =
        chain_sound (transitions_of b.by_id) b.created b.path
          (Consistent-transitions rs b.by_id c b.indexed) b.chained in
      fresh

  -- What is on the path is a transition.
  pub path_moves :
      (rs : List PpvEscrowReceiptV1) {l : AgreementLifecycle} (b : Rebuilt rs l)
      (r : PpvEscrowReceiptV1)
      → Consistent rs
      → In r (b.created ∷ b.path)
      → is_annotation r ≡ false
  path_moves rs b r c i =
      let (root, linked, fresh, members) =
        chain_sound (transitions_of b.by_id) b.created b.path
          (Consistent-transitions rs b.by_id c b.indexed) b.chained in
      ((transitions-members rs b.by_id c b.indexed r).0 ((members r).1 i)).1

  -- The receipts of the path are of the lifecycle's agreement.
  pub path_agreement :
      (rs : List PpvEscrowReceiptV1) {l : AgreementLifecycle} (b : Rebuilt rs l)
      (r : PpvEscrowReceiptV1)
      → Consistent rs
      → In r (b.created ∷ b.path)
      → r.agreement ≡ l.agreement
  path_agreement rs b r c i =
      let (root, linked, fresh, members) =
        chain_sound (transitions_of b.by_id) b.created b.path
          (Consistent-transitions rs b.by_id c b.indexed) b.chained in
      let (start, steps, shape, run) = chain-Run (transitions_of b.by_id) b.chained in
      same_agreement-In (transitions_of b.by_id) r b.created run.agrees ((members r).1 i)
        ((members b.created).1 (inl refl))
      ∙ sym b.assembled.agreement
