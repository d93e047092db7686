-- ===== src/Escrow/Events/Names.antt =====
-- The event names of sdk/src/escrow/events.ts.
use ppv.Base.{List, [], ◌∷◌}
use ppv.Base.Text.{Text, codes}

-- `PPV_ESCROW_EVENT_NAMES`.
pub data EventName : Type 0 where
  agreement_opened : EventName
  agreement_funded : EventName
  work_completed : EventName
  settlement_executed : EventName
  proof_submitted : EventName
  proof_approved : EventName
  proof_rejected : EventName
  agreement_abandoned : EventName
  dispute_opened : EventName
  dispute_resolved : EventName
  refund_executed : EventName
  milestone_created : EventName
  milestone_submitted : EventName
  milestone_approved : EventName
  milestone_rejected : EventName
  milestone_settled : EventName
  counterparty_assigned : EventName

abbrev pub ppv_escrow_event_names : List EventName
ppv_escrow_event_names =
    EventName.agreement_opened ∷ EventName.agreement_funded ∷ EventName.work_completed
    ∷ EventName.settlement_executed ∷ EventName.proof_submitted ∷ EventName.proof_approved
    ∷ EventName.proof_rejected ∷ EventName.agreement_abandoned ∷ EventName.dispute_opened
    ∷ EventName.dispute_resolved ∷ EventName.refund_executed ∷ EventName.milestone_created
    ∷ EventName.milestone_submitted ∷ EventName.milestone_approved ∷ EventName.milestone_rejected
    ∷ EventName.milestone_settled ∷ EventName.counterparty_assigned ∷ []

unfoldable pub name_text : EventName → Text
name_text EventName.agreement_opened = codes "AgreementOpened"
name_text EventName.agreement_funded = codes "AgreementFunded"
name_text EventName.work_completed = codes "WorkCompleted"
name_text EventName.settlement_executed = codes "SettlementExecuted"
name_text EventName.proof_submitted = codes "ProofSubmitted"
name_text EventName.proof_approved = codes "ProofApproved"
name_text EventName.proof_rejected = codes "ProofRejected"
name_text EventName.agreement_abandoned = codes "AgreementAbandoned"
name_text EventName.dispute_opened = codes "DisputeOpened"
name_text EventName.dispute_resolved = codes "DisputeResolved"
name_text EventName.refund_executed = codes "RefundExecuted"
name_text EventName.milestone_created = codes "MilestoneCreated"
name_text EventName.milestone_submitted = codes "MilestoneSubmitted"
name_text EventName.milestone_approved = codes "MilestoneApproved"
name_text EventName.milestone_rejected = codes "MilestoneRejected"
name_text EventName.milestone_settled = codes "MilestoneSettled"
name_text EventName.counterparty_assigned = codes "CounterpartyAssigned"
