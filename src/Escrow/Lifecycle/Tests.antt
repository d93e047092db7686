-- ===== src/Escrow/Lifecycle/Tests.antt =====
-- Runs of the model of sdk/src/escrow/receipts.ts, and its theorems at concrete histories.
use ppv.Escrow.Lifecycle.Scenarios.{
  AllIn-In, UniqueIds-AllDistinct, UniqueIds-Consistent, r_settle, r_refund,
}
use ppv.Escrow.Receipts.{or_else, loop_limit}
use ppv.Escrow.Receipts.Actions.{action_beq}
use ppv.Escrow.Lifecycle.Chain.{index_receipts, delete_all, chain}
use ppv.Escrow.Lifecycle.Chain.Index.{Consistent}
use ppv.Escrow.Credential.{escrow_credential}
use ppv.Escrow.Credential.Laws.{Backed, escrow_credential-Backed}
use ppv.Reputation.Seal.{PpvSealState, resolve_seal_state}
use ppv.Base.Int.{◌-ℤ◌}
use ppv.Escrow.Lifecycle.Placement.{sort_annotations, compare_annotations, with_annotations}
use ppv.Escrow.Lifecycle.Custody.{
  observe_custody, check_custody, assigned_seller, check_schedule, check_cited_proof,
}
use ppv.Escrow.Lifecycle.Records.{proof_records, milestone_records}
use ppv.Escrow.Lifecycle.Reconstruct.{reconstruct_agreement_lifecycle}
use ppv.Escrow.Lifecycle.Delivery.{reconstruct-SameMembers}
use ppv.Escrow.Lifecycle.Guarantees.{History, reconstruct-History}
use ppv.Escrow.Lifecycle.Money.{FullyPaid, settled_amount-eq-funded, refunded-add-settled}
use ppv.Escrow.Lifecycle.Sums.{total_of}
use ppv.Escrow.Lifecycle.Chain.Order.{AllDistinct}
use ppv.Escrow.Receipts.Actions.{settlement_executed, refund_executed}
use ppv.Escrow.Lifecycle.Termination.{reconstruct-ne-loop_limit}
use ppv.Escrow.Lifecycle.Scenarios.{r_open, r_fund, r_submit, r_complete}
use ppv.Base.Text.{codes}
use ppv.Base.Result.{Result}
use ppv.Escrow.Receipts.{PpvEscrowReceiptV1, ReceiptError}
use ppv.Escrow.Lifecycle.Reconstruct.{AgreementLifecycle}
use ppv.Reputation.Contracts.{behind, is_run, is_hex, in_range}
use ppv.Escrow.Lifecycle.Keys.{ReceiptIds}
use ppv.Base.Members.{every-In}
use ppv.Base.{
  every, ◌↔◌, [], ◌∷◌, List, some, ◌+◌, ◌≡◌, refl, inl, inr, list_eq, nat_eq, some, true,
}
use ppv.Base.Result.{ok, err}
use ppv.Escrow.Lifecycle.Completeness.{reconstruct-members}
use ppv.Base.Members.{In, SameMembers}
use ppv.Base.Dict.{get, put, delete}
use ppv.Escrow.States.{state_beq}
use ppv.Escrow.Lifecycle.Collation.{by_code_unit, by_code_unit-IsCollation}
use ppv.Escrow.Lifecycle.Scenarios.{
  shuffled, in_order, refund_in_order, settled_lifecycle, refunded_lifecycle, AllIn-In,
}

ids_differ : Consistent in_order
ids_differ = UniqueIds-Consistent in_order (refl, (refl, (refl, (refl, (refl, (refl, tt))))))

refund_ids_differ : Consistent refund_in_order
refund_ids_differ =
    UniqueIds-Consistent refund_in_order (refl, (refl, (refl, (refl, (refl, (refl, (refl, tt)))))))

in_order_once : AllDistinct in_order
in_order_once = UniqueIds-AllDistinct in_order (refl, (refl, (refl, (refl, (refl, (refl, tt))))))

refund_once : AllDistinct refund_in_order
refund_once =
    UniqueIds-AllDistinct refund_in_order (refl, (refl, (refl, (refl, (refl, (refl, (refl, tt)))))))

formed :
    (rs : List PpvEscrowReceiptV1)
    → every (λ r. behind (codes "ppvr_") (is_run is_hex 40 40) r.receipt_id) rs ≡ true
    → ReceiptIds rs
formed rs h r i = every-In (λ s. behind (codes "ppvr_") (is_run is_hex 40 40) s.receipt_id) rs r h i

ids_formed : ReceiptIds in_order
unfolding behind is_run is_hex in_range
ids_formed = formed in_order refl

same_receipts : SameMembers in_order shuffled
same_receipts = λ a. (
  AllIn-In in_order shuffled a (
    inr (inr (inl refl)),
    (
      inr (inr (inr (inr (inr (inr (inl refl)))))),
      (
        inr (inr (inr (inr (inr (inl refl))))),
        (inr (inl refl), (inr (inr (inr (inr (inl refl)))), (inl refl, tt))),
      ),
    ),
  ),
  AllIn-In shuffled in_order a (
    inr (inr (inr (inr (inr (inl refl))))),
    (
      inr (inr (inr (inl refl))),
      (
        inl refl,
        (
          inl refl,
          (
            inr (inr (inr (inr (inl refl)))),
            (inr (inr (inl refl)), (inr (inl refl), (inr (inr (inr (inr (inr (inl refl))))), tt))),
          ),
        ),
      ),
    ),
  ),
)

settles : reconstruct_agreement_lifecycle by_code_unit in_order ≡ ok settled_lifecycle
unfolding reconstruct_agreement_lifecycle index_receipts get put delete delete_all chain action_beq
    state_beq sort_annotations compare_annotations with_annotations observe_custody check_custody
    assigned_seller proof_records milestone_records check_schedule check_cited_proof ◌-ℤ◌
settles = refl

refunds : reconstruct_agreement_lifecycle by_code_unit refund_in_order ≡ ok refunded_lifecycle
unfolding reconstruct_agreement_lifecycle index_receipts get put delete delete_all chain action_beq
    state_beq sort_annotations compare_annotations with_annotations observe_custody check_custody
    assigned_seller proof_records milestone_records check_schedule check_cited_proof ◌-ℤ◌
refunds = refl

settled_seal : (escrow_credential settled_lifecycle true).state ≡ PpvSealState.settled
unfolding escrow_credential resolve_seal_state action_beq state_beq
settled_seal = refl

reconstruct-SameMembers_example :
    reconstruct_agreement_lifecycle by_code_unit shuffled ≡ ok settled_lifecycle
reconstruct-SameMembers_example =
    reconstruct-SameMembers by_code_unit by_code_unit-IsCollation in_order shuffled ids_differ
      same_receipts ids_formed settles

reconstruct-History_example : History by_code_unit in_order settled_lifecycle
reconstruct-History_example = reconstruct-History by_code_unit in_order ids_differ settles

reconstruct-members_example : In r_submit settled_lifecycle.receipts ↔ In r_submit in_order
reconstruct-members_example = reconstruct-members by_code_unit in_order r_submit ids_differ settles

settled_amount-eq-funded_example :
    FullyPaid in_order settled_lifecycle (total_of settlement_executed in_order)
    × (settled_lifecycle.settled_amount ≡ settled_lifecycle.funded_amount)
settled_amount-eq-funded_example =
    settled_amount-eq-funded by_code_unit in_order in_order r_settle ids_differ in_order_once
      (λ r. (λ i. i, λ i. i)) settles (inr (inr (inr (inr (inr (inl refl)))))) refl refl

refunded-add-settled_example :
    FullyPaid refund_in_order refunded_lifecycle
      (total_of refund_executed refund_in_order + total_of settlement_executed refund_in_order)
    × (some (
          or_else refunded_lifecycle.refunded_amount 0
          + or_else refunded_lifecycle.settled_amount 0)
        ≡ refunded_lifecycle.funded_amount)
refunded-add-settled_example =
    refunded-add-settled by_code_unit refund_in_order refund_in_order r_refund refund_ids_differ
      refund_once (λ r. (λ i. i, λ i. i)) refunds (inr (inr (inr (inr (inr (inr (inl refl)))))))
      refl refl

reconstruct-ne-loop_limit_example :
    reconstruct_agreement_lifecycle by_code_unit shuffled ≡ err loop_limit → ⊥
reconstruct-ne-loop_limit_example = reconstruct-ne-loop_limit by_code_unit shuffled

abbrev r_foreign : PpvEscrowReceiptV1
r_foreign = record r_submit { agreement = codes "Z" }

abbrev receipts_of : Result ReceiptError AgreementLifecycle → List PpvEscrowReceiptV1
receipts_of (ok l) = l.receipts
receipts_of (err e) = []

-- A proof that was anchored to another agreement is taken into this one's history, since only the
-- transitions are compared with its address.
accepts_foreign_annotation :
    receipts_of
      (reconstruct_agreement_lifecycle by_code_unit (r_open ∷ r_fund ∷ r_foreign ∷ r_complete ∷ []))
    ≡ r_open ∷ r_fund ∷ r_foreign ∷ r_complete ∷ []
unfolding reconstruct_agreement_lifecycle index_receipts get put delete delete_all chain action_beq
    state_beq sort_annotations compare_annotations with_annotations observe_custody check_custody
    assigned_seller proof_records milestone_records check_schedule check_cited_proof ◌-ℤ◌
accepts_foreign_annotation = refl

escrow_credential-Backed_example :
    Backed in_order in_order (escrow_credential settled_lifecycle true)
escrow_credential-Backed_example =
    escrow_credential-Backed by_code_unit in_order in_order true ids_differ in_order_once
      (λ r. (λ i. i, λ i. i)) settles settled_seal
