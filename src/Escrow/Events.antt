-- ===== src/Escrow/Events.antt =====
-- sdk/src/escrow/events.ts: the events of `ppv_escrow`. The SDK holds keys and hashes as text; on the
-- wire they are 32 bytes. So the types take the type `K` of keys and `H` of hashes.
pub mod Reader
pub mod Names
pub mod Readers
pub mod Decode
use ppv.Base.{ℕ, Option}
use ppv.Base.Int.{ℤ}
use ppv.Base.Text.{Text}
use ppv.Escrow.States.{AgreementState, AgreementType, MilestoneState, DisputeOutcome}

pub record AgreementOpened (K H : Type 0) : Type 0 where
  pub agreement : K
  pub agreement_id : ℕ
  pub creator : K
  pub counterparty : K
  pub agreement_type : AgreementType
  pub mint : K
  pub vault : K
  pub amount : ℕ
  pub terms_hash : H
  pub new_state : AgreementState
  pub timestamp : ℤ

pub record AgreementFunded (K H : Type 0) : Type 0 where
  pub agreement : K
  pub creator : K
  pub counterparty : K
  pub amount : ℕ
  pub mint : K
  pub vault : K
  pub previous_state : AgreementState
  pub new_state : AgreementState
  pub timestamp : ℤ

pub record WorkCompleted (K H : Type 0) : Type 0 where
  pub agreement : K
  pub creator : K
  pub counterparty : K
  pub actor : K
  pub previous_state : AgreementState
  pub new_state : AgreementState
  pub timestamp : ℤ

pub record SettlementExecuted (K H : Type 0) : Type 0 where
  pub agreement : K
  pub buyer : K
  pub seller : K
  pub amount : ℕ
  pub mint : K
  pub destination : K
  pub proof : Option K
  pub previous_state : AgreementState
  pub new_state : AgreementState
  pub timestamp : ℤ

pub record ProofSubmitted (K H : Type 0) : Type 0 where
  pub agreement : K
  pub proof : K
  pub core_proof : K
  pub creator : K
  pub counterparty : K
  pub submitter : K
  pub proof_index : ℕ
  pub content_hash : H
  pub metadata_hash : H
  pub agreement_state : AgreementState
  pub timestamp : ℤ

pub record ProofDecision (K H : Type 0) : Type 0 where
  pub agreement : K
  pub proof : K
  pub core_proof : K
  pub creator : K
  pub counterparty : K
  pub submitter : K
  pub decided_by : K
  pub proof_index : ℕ
  pub agreement_state : AgreementState
  pub timestamp : ℤ

pub record AgreementAbandoned (K H : Type 0) : Type 0 where
  pub agreement : K
  pub creator : K
  pub counterparty : K
  pub cancelled_by : K
  pub previous_state : AgreementState
  pub new_state : AgreementState
  pub timestamp : ℤ

pub record DisputeOpened (K H : Type 0) : Type 0 where
  pub agreement : K
  pub creator : K
  pub counterparty : K
  pub opened_by : K
  pub reason_hash : H
  pub previous_state : AgreementState
  pub new_state : AgreementState
  pub timestamp : ℤ

pub record DisputeResolved (K H : Type 0) : Type 0 where
  pub agreement : K
  pub creator : K
  pub counterparty : K
  pub resolved_by : K
  pub beneficiary : K
  pub outcome : DisputeOutcome
  pub opened_by : K
  pub resulting_state : AgreementState
  pub timestamp : ℤ

pub record RefundExecuted (K H : Type 0) : Type 0 where
  pub agreement : K
  pub buyer : K
  pub seller : K
  pub refunded_by : K
  pub amount : ℕ
  pub mint : K
  pub destination : K
  pub previous_state : AgreementState
  pub new_state : AgreementState
  pub timestamp : ℤ

pub record MilestoneCreated (K H : Type 0) : Type 0 where
  pub agreement : K
  pub milestone : K
  pub creator : K
  pub counterparty : K
  pub milestone_index : ℕ
  pub amount : ℕ
  pub terms_hash : H
  pub agreement_state : AgreementState
  pub timestamp : ℤ

pub record MilestoneTransition (K H : Type 0) : Type 0 where
  pub agreement : K
  pub milestone : K
  pub creator : K
  pub counterparty : K
  pub milestone_index : ℕ
  pub previous_state : MilestoneState
  pub new_state : MilestoneState
  pub agreement_state : AgreementState
  pub timestamp : ℤ

pub record MilestoneSettled (K H : Type 0) : Type 0 where
  pub agreement : K
  pub milestone : K
  pub creator : K
  pub counterparty : K
  pub milestone_index : ℕ
  pub amount : ℕ
  pub destination : K
  pub proof : Option K
  pub previous_state : MilestoneState
  pub new_state : MilestoneState
  pub agreement_state : AgreementState
  pub timestamp : ℤ

pub record CounterpartyAssigned (K H : Type 0) : Type 0 where
  pub agreement : K
  pub creator : K
  pub counterparty : K
  pub agreement_state : AgreementState
  pub timestamp : ℤ

-- One constructor for each event name.
pub data EscrowEvent (K H : Type 0) : Type 0 where
  agreement_opened : AgreementOpened K H → EscrowEvent K H
  agreement_funded : AgreementFunded K H → EscrowEvent K H
  work_completed : WorkCompleted K H → EscrowEvent K H
  settlement_executed : SettlementExecuted K H → EscrowEvent K H
  proof_submitted : ProofSubmitted K H → EscrowEvent K H
  proof_approved : ProofDecision K H → EscrowEvent K H
  proof_rejected : ProofDecision K H → EscrowEvent K H
  agreement_abandoned : AgreementAbandoned K H → EscrowEvent K H
  dispute_opened : DisputeOpened K H → EscrowEvent K H
  dispute_resolved : DisputeResolved K H → EscrowEvent K H
  refund_executed : RefundExecuted K H → EscrowEvent K H
  milestone_created : MilestoneCreated K H → EscrowEvent K H
  milestone_submitted : MilestoneTransition K H → EscrowEvent K H
  milestone_approved : MilestoneTransition K H → EscrowEvent K H
  milestone_rejected : MilestoneTransition K H → EscrowEvent K H
  milestone_settled : MilestoneSettled K H → EscrowEvent K H
  counterparty_assigned : CounterpartyAssigned K H → EscrowEvent K H

-- `PpvEscrowEvent`, with keys in base58 and hashes in hexadecimal.
abbrev pub PpvEscrowEvent : Type 0
PpvEscrowEvent = EscrowEvent Text Text

-- The fields that every event has.
module _ {K H : Type 0} where
  unfoldable pub agreement_of : EscrowEvent K H → K
  agreement_of (agreement_opened e) = e.agreement
  agreement_of (agreement_funded e) = e.agreement
  agreement_of (work_completed e) = e.agreement
  agreement_of (settlement_executed e) = e.agreement
  agreement_of (proof_submitted e) = e.agreement
  agreement_of (proof_approved e) = e.agreement
  agreement_of (proof_rejected e) = e.agreement
  agreement_of (agreement_abandoned e) = e.agreement
  agreement_of (dispute_opened e) = e.agreement
  agreement_of (dispute_resolved e) = e.agreement
  agreement_of (refund_executed e) = e.agreement
  agreement_of (milestone_created e) = e.agreement
  agreement_of (milestone_submitted e) = e.agreement
  agreement_of (milestone_approved e) = e.agreement
  agreement_of (milestone_rejected e) = e.agreement
  agreement_of (milestone_settled e) = e.agreement
  agreement_of (counterparty_assigned e) = e.agreement

  unfoldable pub timestamp_of : EscrowEvent K H → ℤ
  timestamp_of (agreement_opened e) = e.timestamp
  timestamp_of (agreement_funded e) = e.timestamp
  timestamp_of (work_completed e) = e.timestamp
  timestamp_of (settlement_executed e) = e.timestamp
  timestamp_of (proof_submitted e) = e.timestamp
  timestamp_of (proof_approved e) = e.timestamp
  timestamp_of (proof_rejected e) = e.timestamp
  timestamp_of (agreement_abandoned e) = e.timestamp
  timestamp_of (dispute_opened e) = e.timestamp
  timestamp_of (dispute_resolved e) = e.timestamp
  timestamp_of (refund_executed e) = e.timestamp
  timestamp_of (milestone_created e) = e.timestamp
  timestamp_of (milestone_submitted e) = e.timestamp
  timestamp_of (milestone_approved e) = e.timestamp
  timestamp_of (milestone_rejected e) = e.timestamp
  timestamp_of (milestone_settled e) = e.timestamp
  timestamp_of (counterparty_assigned e) = e.timestamp
