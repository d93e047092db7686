-- ===== src/Escrow/Events/Readers.antt =====
-- The cases of the `switch` of `decodeEscrowEventData` in sdk/src/escrow/events.ts: the fields of
-- each event, in the order in which they are read.
pub mod Custody
pub mod Work
use ppv.Escrow.Events.{PpvEscrowEvent, EscrowEvent}
use ppv.Escrow.Events.Reader.{Reader, pure, ◌>>=◌}
use ppv.Escrow.Events.Names.{EventName}
use ppv.Escrow.Events.Readers.Custody.{
  read_agreement_opened, read_agreement_funded, read_work_completed, read_settlement_executed,
  read_agreement_abandoned, read_dispute_opened, read_dispute_resolved, read_refund_executed,
  read_counterparty_assigned,
}
use ppv.Escrow.Events.Readers.Work.{
  read_proof_submitted, read_proof_decision, read_milestone_created, read_milestone_transition,
  read_milestone_settled,
}

-- The `switch` on the name that the discriminator matched.
unfoldable pub read_event : EventName → Reader PpvEscrowEvent
unfolding read_agreement_opened read_agreement_funded read_work_completed read_settlement_executed
    read_proof_submitted read_proof_decision read_agreement_abandoned read_dispute_opened
    read_dispute_resolved read_refund_executed read_milestone_created read_milestone_transition
    read_milestone_settled read_counterparty_assigned
read_event EventName.agreement_opened = do
  e ← read_agreement_opened
  pure (EscrowEvent.agreement_opened e)
read_event EventName.agreement_funded = do
  e ← read_agreement_funded
  pure (EscrowEvent.agreement_funded e)
read_event EventName.work_completed = do
  e ← read_work_completed
  pure (EscrowEvent.work_completed e)
read_event EventName.settlement_executed = do
  e ← read_settlement_executed
  pure (EscrowEvent.settlement_executed e)
read_event EventName.proof_submitted = do
  e ← read_proof_submitted
  pure (EscrowEvent.proof_submitted e)
read_event EventName.proof_approved = do
  e ← read_proof_decision
  pure (EscrowEvent.proof_approved e)
read_event EventName.proof_rejected = do
  e ← read_proof_decision
  pure (EscrowEvent.proof_rejected e)
read_event EventName.agreement_abandoned = do
  e ← read_agreement_abandoned
  pure (EscrowEvent.agreement_abandoned e)
read_event EventName.dispute_opened = do
  e ← read_dispute_opened
  pure (EscrowEvent.dispute_opened e)
read_event EventName.dispute_resolved = do
  e ← read_dispute_resolved
  pure (EscrowEvent.dispute_resolved e)
read_event EventName.refund_executed = do
  e ← read_refund_executed
  pure (EscrowEvent.refund_executed e)
read_event EventName.milestone_created = do
  e ← read_milestone_created
  pure (EscrowEvent.milestone_created e)
read_event EventName.milestone_submitted = do
  e ← read_milestone_transition
  pure (EscrowEvent.milestone_submitted e)
read_event EventName.milestone_approved = do
  e ← read_milestone_transition
  pure (EscrowEvent.milestone_approved e)
read_event EventName.milestone_rejected = do
  e ← read_milestone_transition
  pure (EscrowEvent.milestone_rejected e)
read_event EventName.milestone_settled = do
  e ← read_milestone_settled
  pure (EscrowEvent.milestone_settled e)
read_event EventName.counterparty_assigned = do
  e ← read_counterparty_assigned
  pure (EscrowEvent.counterparty_assigned e)
