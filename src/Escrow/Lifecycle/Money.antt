-- ===== src/Escrow/Lifecycle/Money.antt =====
-- sdk/src/escrow/receipts.ts: what the receipts of an accepted history say of the money.
use ppv.Escrow.Lifecycle.Balances.{
  paid_out-some, found, AddsUp-settled, AddsUp-refunded, revisit, NeverRevisits-AllDistinct,
}
use ppv.Base.{
  ℕ, ◌+◌, ◌≡◌, refl, sym, ap, ◌∙◌, inl, inr, Bool, true, false, not, ◌&&◌, Option, none, some, List,
  [], ◌∷◌, ◌++◌, arith, Bool-cases, find?, ==_iff, option_eq, nat_eq,
}
use ppv.Base.Members.{In, SameMembers, In-append, In-select, find?-In}
use ppv.Base.Result.{ok}
use ppv.Base.Dict.{values}
use ppv.Base.Text.{Text}
use ppv.Base.Int.{ℤ}
use ppv.Escrow.Receipts.{PpvEscrowReceiptV1, or_else}
use ppv.Escrow.Receipts.Actions.{
  EscrowReceiptAction, action_eq, settlement_executed, refund_executed, agreement_funded,
}
use ppv.Escrow.Lifecycle.Chain.{is_annotation}
use ppv.Escrow.Lifecycle.Chain.Index.{
  IsIndex-nil, Consistent, index_receipts-IsIndex, index_receipts-members,
}
use ppv.Escrow.Lifecycle.Chain.Order.{AllDistinct, select-AllDistinct}
use ppv.Escrow.Lifecycle.Custody.{observe_custody, paid_out, has_action, is_some, amount_of}
use ppv.Escrow.Lifecycle.Delivery.{annotations_of, values-AllDistinct}
use ppv.Escrow.Lifecycle.Guarantees.{
  Rebuilt, reconstruct-Rebuilt, on_path, from_path, path_fresh, path_moves,
}
use ppv.Escrow.Lifecycle.Sums.{
  total_of, paid_out-total, some-or_else, total_of-SameMembers, append-AllDistinct,
}
use ppv.Escrow.Lifecycle.Reconstruct.{AgreementLifecycle, reconstruct_agreement_lifecycle}

-- A funding, a transition among the receipts, of exactly what was paid, which the lifecycle reports.
pub record FullyPaid (rs : List PpvEscrowReceiptV1) (l : AgreementLifecycle) (paid : ℕ)
    : Type 0 where
  pub funding : PpvEscrowReceiptV1
  pub given : In funding rs
  pub funds : funding.action ≡ agreement_funded
  pub moves : is_annotation funding ≡ false
  pub reported : l.funded_amount ≡ funding.amount
  pub in_full : funding.amount ≡ some paid

module _ (compare : Text → Text → ℤ) where
  -- The path and the annotations.
  abbrev pub all_of :
      {rs : List PpvEscrowReceiptV1} {l : AgreementLifecycle}
      → Rebuilt compare rs l
      → List PpvEscrowReceiptV1
  all_of b = (b.created ∷ b.path) ++ annotations_of b.by_id

  pub all_of-members :
      (rs : List PpvEscrowReceiptV1) {l : AgreementLifecycle} (b : Rebuilt compare rs l)
      → Consistent rs
      → SameMembers (all_of b) rs
  all_of-members rs b c r =
      let both = In-append r (b.created ∷ b.path) (annotations_of b.by_id) in
      let members = index_receipts-members rs c b.indexed r in
      let chosen = In-select r is_annotation (values b.by_id) in
      (
        λ i. elim (both.0 i) [
          | inl j ↦ from_path compare rs b r c j
          | inr j ↦ members.1 (chosen.0 j).0
        ],
        λ i. both.1 (elim (Bool-cases (is_annotation r)) [
          | inl e ↦ inr (chosen.1 (members.0 i, e))
          | inr e ↦ inl (on_path compare rs b r c i e)
        ]),
      )

  all_of-AllDistinct :
      (rs : List PpvEscrowReceiptV1) {l : AgreementLifecycle} (b : Rebuilt compare rs l)
      → Consistent rs
      → AllDistinct (all_of b)
  all_of-AllDistinct rs b c =
      let fresh = path_fresh compare rs b c in
      append-AllDistinct (b.created ∷ b.path) (annotations_of b.by_id)
        (
          λ i. revisit (b.created.new_state ∷ []) b.path b.created fresh i (inl refl),
          NeverRevisits-AllDistinct (b.created.new_state ∷ []) b.path fresh,
        )
        (select-AllDistinct is_annotation (values b.by_id)
          (values-AllDistinct b.by_id (index_receipts-IsIndex [] rs IsIndex-nil b.indexed)))
        (λ r i j.
          cc (path_moves compare rs b r c i, ((In-select r is_annotation (values b.by_id)).0 j).1))

  -- What an accepted history has paid out, summed over its receipts, each once.
  pub paid_once :
      (rs once : List PpvEscrowReceiptV1) {l : AgreementLifecycle} (b : Rebuilt compare rs l)
      (a : EscrowReceiptAction)
      → Consistent rs
      → AllDistinct once
      → SameMembers once rs
      → or_else (paid_out a (all_of b)) 0 ≡ total_of a once
  paid_once rs once b a c d same =
      let m = all_of-members rs b c in
      paid_out-total a (all_of b)
      ∙ total_of-SameMembers a (all_of b) once (all_of-AllDistinct rs b c) d
          (λ r. (λ i. (same r).1 ((m r).0 i), λ i. (m r).1 ((same r).0 i)))

  some_funding :
      (rs : List PpvEscrowReceiptV1) {l : AgreementLifecycle} (b : Rebuilt compare rs l) (paid : ℕ)
      → Consistent rs
      → is_some (find? (has_action agreement_funded) (b.created ∷ b.path)) ≡ true
      → amount_of (find? (has_action agreement_funded) (b.created ∷ b.path)) ≡ some paid
      → l.funded_amount ≡ amount_of (find? (has_action agreement_funded) (b.created ∷ b.path))
      → FullyPaid rs l paid
  some_funding rs {l} b paid c there amount reported =
      go (find? (has_action agreement_funded) (b.created ∷ b.path)) refl there amount reported
    where
      go :
          (o : Option PpvEscrowReceiptV1)
          → find? (has_action agreement_funded) (b.created ∷ b.path) ≡ o
          → is_some o ≡ true
          → amount_of o ≡ some paid
          → l.funded_amount ≡ amount_of o
          → FullyPaid rs l paid
      go none e t m r = cc
      go (some f) e t m r =
          let (i, funds) = find?-In (has_action agreement_funded) (b.created ∷ b.path) e in
          record {
            funding = f;
            given = from_path compare rs b f c i;
            funds = (==_iff f.action agreement_funded).0 funds;
            moves = path_moves compare rs b f c i;
            reported = r;
            in_full = m;
          }

  -- Where an accepted history, of receipts that agree under each id, has a SETTLEMENT_EXECUTED
  -- transition, it has an AGREEMENT_FUNDED transition whose amount is the sum of the amounts of all
  -- SETTLEMENT_EXECUTED receipts, transitions and annotations, each receipt counted once; the
  -- lifecycle reports this amount as funded and as settled.
  pub settled_amount-eq-funded :
      (rs once : List PpvEscrowReceiptV1) {l : AgreementLifecycle} (r : PpvEscrowReceiptV1)
      → Consistent rs
      → AllDistinct once
      → SameMembers once rs
      → reconstruct_agreement_lifecycle compare rs ≡ ok l
      → In r rs
      → is_annotation r ≡ false
      → r.action ≡ settlement_executed
      → FullyPaid rs l (total_of settlement_executed once) × (l.settled_amount ≡ l.funded_amount)
  unfolding observe_custody
  settled_amount-eq-funded rs once {l} r c d same e i a s =
      let b = reconstruct-Rebuilt compare rs e in
      let j = on_path compare rs b r c i a in
      let paid =
        paid_out-some settlement_executed (all_of b) r
          ((In-append r (b.created ∷ b.path) (annotations_of b.by_id)).1 (inl j)) s in
      let full =
        AddsUp-settled (observe_custody (b.created ∷ b.path) (annotations_of b.by_id))
          b.assembled.adds_up (found settlement_executed (b.created ∷ b.path) r j s) paid in
      let sums =
        some-or_else (paid_out settlement_executed (all_of b)) paid
        ∙ ap some (paid_once rs once b settlement_executed c d same) in
      (
        some_funding rs b (total_of settlement_executed once) c
            (after paid b.assembled.adds_up.settled_after_funding) (sym full ∙ sums)
            b.assembled.funded_amount,
        b.assembled.settled_amount ∙ (full ∙ sym b.assembled.funded_amount),
      )
    where
      after : {x y : Bool} → x ≡ true → (x && not y) ≡ false → y ≡ true
      after h k = ground arith

  -- Where an accepted history, of receipts that agree under each id, has a REFUND_EXECUTED
  -- transition, it has an AGREEMENT_FUNDED transition whose amount is the sum of the amounts of all
  -- REFUND_EXECUTED and SETTLEMENT_EXECUTED receipts, transitions and annotations, each receipt
  -- counted once; the lifecycle reports this amount as funded, and its refunded and settled amounts
  -- add up to it.
  pub refunded-add-settled :
      (rs once : List PpvEscrowReceiptV1) {l : AgreementLifecycle} (r : PpvEscrowReceiptV1)
      → Consistent rs
      → AllDistinct once
      → SameMembers once rs
      → reconstruct_agreement_lifecycle compare rs ≡ ok l
      → In r rs
      → is_annotation r ≡ false
      → r.action ≡ refund_executed
      → FullyPaid rs l (total_of refund_executed once + total_of settlement_executed once)
        × (some (or_else l.refunded_amount 0 + or_else l.settled_amount 0) ≡ l.funded_amount)
  unfolding observe_custody
  refunded-add-settled rs once {l} r con d same e i a s =
      let b = reconstruct-Rebuilt compare rs e in
      let j = on_path compare rs b r con i a in
      let c = observe_custody (b.created ∷ b.path) (annotations_of b.by_id) in
      let paid =
        paid_out-some refund_executed (all_of b) r
          ((In-append r (b.created ∷ b.path) (annotations_of b.by_id)).1 (inl j)) s in
      let full =
        AddsUp-refunded c b.assembled.adds_up (found refund_executed (b.created ∷ b.path) r j s)
          paid in
      let back = paid_once rs once b refund_executed con d same in
      let out = paid_once rs once b settlement_executed con d same in
      (
        some_funding rs b (total_of refund_executed once + total_of settlement_executed once) con
            (after paid b.assembled.adds_up.refunded_after_funding) (sym full ∙ cc (back, out))
            b.assembled.funded_amount,
        cc (
          full, b.assembled.refunded_amount, b.assembled.settled_amount, b.assembled.funded_amount,
        ),
      )
    where
      after : {x y : Bool} → x ≡ true → (x && not y) ≡ false → y ≡ true
      after h k = ground arith
