-- ===== src/Indexer/Tests.antt =====
-- Runs of the model of indexer/src/projections.ts, and its theorems at concrete events.
use ppv.Base.{[], ◌∷◌, ◌≡◌, refl, some, inl, inr, list_eq, nat_eq, ◌↔◌, ℕ}
use ppv.Base.Result.{ok}
use ppv.Base.Text.{codes, hex, iso_string, decimal_ℤ, decimal}
use ppv.Escrow.Events.{timestamp_of, agreement_of}
use ppv.Base.Int.{◌-ℤ◌}
use ppv.Base.Members.{SameMembers}
use ppv.Base.Dict.{get, put, delete}
use ppv.Escrow.States.{state_beq}
use ppv.Escrow.Receipts.{escrow_receipt_from_event}
use ppv.Escrow.Receipts.Actions.{action_beq, action_of, action_text}
use ppv.Escrow.Lifecycle.Chain.{index_receipts, delete_all, chain}
use ppv.Escrow.Lifecycle.Placement.{sort_annotations, compare_annotations, with_annotations}
use ppv.Escrow.Lifecycle.Custody.{
  observe_custody, check_custody, assigned_seller, check_schedule, check_cited_proof,
}
use ppv.Escrow.Lifecycle.Records.{proof_records, milestone_records}
use ppv.Escrow.Lifecycle.Reconstruct.{reconstruct_agreement_lifecycle}
use ppv.Escrow.Lifecycle.Collation.{by_code_unit, by_code_unit-IsCollation}
use ppv.Escrow.Lifecycle.Scenarios.{UniqueIds-Consistent}
use ppv.Indexer.Store.{
  ReceiptStore, add, add_events, all, for_agreement, group, project_groups, project,
  project_agreement,
}
use ppv.Indexer.Store.Contents.{ConsistentEvents}
use ppv.Indexer.Store.Delivery.{project_agreement-SameMembers}
use ppv.Indexer.Store.Projection.{project-iff-project_agreement}
use ppv.Indexer.Scenarios.{
  reversed_digest, opened_event, funded_event, opened_receipt, funded_receipt, first_store,
  funded_lifecycle, Makes-ConsistentEvents, reversed_digest-IsDigest,
}

events_agree : ConsistentEvents reversed_digest (opened_event ∷ funded_event ∷ [])
unfolding escrow_receipt_from_event action_of action_text timestamp_of hex agreement_of iso_string
    decimal_ℤ decimal state_beq
events_agree =
    Makes-ConsistentEvents reversed_digest (opened_event ∷ funded_event ∷ [])
      (opened_receipt ∷ funded_receipt ∷ []) (refl, (refl, tt))
      (UniqueIds-Consistent (opened_receipt ∷ funded_receipt ∷ []) (refl, (refl, tt)))

same_events :
    SameMembers (opened_event ∷ funded_event ∷ []) (funded_event ∷ opened_event ∷ opened_event ∷ [])
same_events = λ e. (
  λ i. elim i [ inl q ↦ inr (inl q) | inr j ↦ elim j [ inl q ↦ inl q | inr k ↦ absurd k ] ],
  λ i. elim i [
    | inl q ↦ inr (inl q)
    | inr j ↦ elim j [ inl q ↦ inl q | inr k ↦ elim k [ inl q ↦ inl q | inr n ↦ absurd n ] ]
  ],
)

taken : add_events reversed_digest [] (opened_event ∷ funded_event ∷ []) ≡ (first_store, ok 2)
unfolding add_events add get put escrow_receipt_from_event action_of action_text timestamp_of hex
    decimal_ℤ decimal agreement_of iso_string state_beq
taken = refl

projected : project_agreement by_code_unit first_store (codes "A") ≡ ok funded_lifecycle
unfolding project_agreement all for_agreement reconstruct_agreement_lifecycle index_receipts get put
    delete delete_all chain action_beq state_beq sort_annotations compare_annotations
    with_annotations observe_custody check_custody assigned_seller proof_records milestone_records
    check_schedule check_cited_proof ◌-ℤ◌
projected = refl

all_projected : project by_code_unit first_store ≡ ok ((codes "A", funded_lifecycle) ∷ [])
unfolding project group project_groups reconstruct_agreement_lifecycle index_receipts get put delete
    delete_all chain action_beq state_beq sort_annotations compare_annotations with_annotations
    observe_custody check_custody assigned_seller proof_records milestone_records check_schedule
    check_cited_proof ◌-ℤ◌
all_projected = refl

project_agreement-SameMembers_example :
    (after : ReceiptStore) × (m : ℕ) × (add_events reversed_digest []
        (funded_event ∷ opened_event ∷ opened_event ∷ [])
      ≡ (after, ok m))
    × (project_agreement by_code_unit after (codes "A") ≡ ok funded_lifecycle)
project_agreement-SameMembers_example =
    project_agreement-SameMembers reversed_digest reversed_digest-IsDigest by_code_unit
      by_code_unit-IsCollation (opened_event ∷ funded_event ∷ [])
      (funded_event ∷ opened_event ∷ opened_event ∷ []) (codes "A") events_agree same_events taken
      projected

project-iff-project_agreement_example :
    (get (codes "A") ((codes "A", funded_lifecycle) ∷ []) ≡ some funded_lifecycle)
    ↔ (project_agreement by_code_unit first_store (codes "A") ≡ ok funded_lifecycle)
project-iff-project_agreement_example =
    project-iff-project_agreement by_code_unit first_store (codes "A") funded_lifecycle
      all_projected
