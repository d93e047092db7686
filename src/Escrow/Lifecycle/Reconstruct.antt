-- ===== src/Escrow/Lifecycle/Reconstruct.antt =====
-- `reconstructAgreementLifecycle` of sdk/src/escrow/receipts.ts.
use ppv.Base.{ℕ, Option, none, some, List, [], ◌∷◌, select}
use ppv.Base.Result.{Result, ok, err, ◌>>=◌, ◌>>◌}
use ppv.Base.Int.{ℤ}
use ppv.Base.Text.{Text}
use ppv.Base.Dict.{values}
use ppv.Escrow.States.{AgreementState, state_eq}
use ppv.Escrow.Receipts.{PpvEscrowReceiptV1, ReceiptError, no_receipts}
use ppv.Escrow.Receipts.Actions.{counterparty_assigned}
use ppv.Escrow.Lifecycle.Records.{ProofRecord, MilestoneRecord, proof_records, milestone_records}
use ppv.Escrow.Lifecycle.Chain.{index_receipts, is_annotation, delete_all, chain}
use ppv.Escrow.Lifecycle.Placement.{sort_annotations, with_annotations}
use ppv.Escrow.Lifecycle.Custody.{
  has_action, observe_custody, check_custody, assigned_seller, check_schedule, check_cited_proof,
  amount_of, destination_of,
}

pub data Outcome : Type 0 where
  settled refunded cancelled ongoing : Outcome

-- `outcome`, where `"open"` is `ongoing`.
abbrev pub outcome_of : AgreementState → Outcome
outcome_of AgreementState.settled = Outcome.settled
outcome_of AgreementState.refunded = Outcome.refunded
outcome_of AgreementState.cancelled = Outcome.cancelled
outcome_of _ = ongoing

pub record AgreementLifecycle : Type 0 where
  pub agreement : Text
  pub agreement_id : ℕ
  pub buyer : Text
  pub seller : Text
  pub mint : Option Text
  pub state : AgreementState
  pub funded_amount : Option ℕ
  pub settled_amount : Option ℕ
  pub refunded_amount : Option ℕ
  pub settlement_destination : Option Text
  pub outcome : Outcome
  pub last_slot : ℤ
  pub proofs : List ProofRecord
  pub milestones : List MilestoneRecord
  pub receipts : List PpvEscrowReceiptV1

-- The last transition of the path that begins with `created`.
abbrev pub last_of : PpvEscrowReceiptV1 → List PpvEscrowReceiptV1 → PpvEscrowReceiptV1
last_of r [] = r
last_of r (s ∷ rs) = last_of s rs

-- `a ?? b` where both may be null.
abbrev pub or_option : {A : Type 0} → Option A → Option A → Option A
or_option none b = b
or_option (some a) b = some a

module _ (locale_compare : Text → Text → ℤ) where
  -- All that follows once the transitions are in order and the annotations sorted.
  unfoldable pub assemble :
      PpvEscrowReceiptV1
      → List PpvEscrowReceiptV1
      → List PpvEscrowReceiptV1
      → List PpvEscrowReceiptV1
      → Result ReceiptError AgreementLifecycle
  assemble created path annotations sorted = do
    history ← with_annotations (created ∷ path) sorted
    let custody = observe_custody (created ∷ path) annotations
    check_custody custody
    seller ← assigned_seller created.seller (select (has_action counterparty_assigned) sorted)
    proofs ← proof_records sorted
    milestones ← milestone_records sorted
    check_schedule custody milestones
    check_cited_proof custody proofs
    ok (record {
      agreement = created.agreement;
      agreement_id = created.agreement_id;
      buyer = created.buyer;
      seller = seller;
      mint = created.mint;
      state = (last_of created path).new_state;
      funded_amount = amount_of custody.funded;
      settled_amount = custody.settled_total;
      refunded_amount = custody.refunded_total;
      settlement_destination =
          or_option (destination_of custody.settled) (destination_of custody.refunded);
      outcome = outcome_of (last_of created path).new_state;
      last_slot = (last_of created path).slot;
      proofs = proofs;
      milestones = milestones;
      receipts = history;
    })

  unfoldable pub assemble_chain :
      List PpvEscrowReceiptV1 → List PpvEscrowReceiptV1 → Result ReceiptError AgreementLifecycle
  unfolding assemble
  assemble_chain annotations [] = err no_receipts
  assemble_chain annotations (created ∷ path) =
      assemble created path annotations (sort_annotations locale_compare annotations)

  -- The receipts of one id each: annotations apart, the rest in a chain.
  unfoldable pub reconstruct_unique :
      List PpvEscrowReceiptV1 → List PpvEscrowReceiptV1 → Result ReceiptError AgreementLifecycle
  unfolding assemble_chain
  reconstruct_unique annotations remaining = do
    ordered ← chain remaining
    assemble_chain annotations ordered

  unfoldable pub reconstruct_agreement_lifecycle :
      List PpvEscrowReceiptV1 → Result ReceiptError AgreementLifecycle
  unfolding reconstruct_unique
  reconstruct_agreement_lifecycle [] = err no_receipts
  reconstruct_agreement_lifecycle (r ∷ rs) = do
    by_id ← index_receipts [] (r ∷ rs)
    let annotations = select is_annotation (values by_id)
    reconstruct_unique annotations (values (delete_all annotations by_id))
