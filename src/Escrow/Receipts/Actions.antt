-- ===== src/Escrow/Receipts/Actions.antt =====
-- The actions of sdk/src/escrow/receipts.ts: one for each event, with the text that stands for it.
use ppv.Base.{
  ℕ, ◌≡◌, refl, ap, ◌↔◌, Bool, true, some, List, [], ◌∷◌, Eq, nat_beq, nat_beq_iff, get_elem?,
}
use ppv.Base.Text.{Text, codes}
use ppv.Escrow.Events.{EscrowEvent}

pub data EscrowReceiptAction : Type 0 where
  agreement_opened : EscrowReceiptAction
  agreement_funded : EscrowReceiptAction
  work_completed : EscrowReceiptAction
  settlement_executed : EscrowReceiptAction
  proof_submitted : EscrowReceiptAction
  proof_approved : EscrowReceiptAction
  proof_rejected : EscrowReceiptAction
  agreement_abandoned : EscrowReceiptAction
  dispute_opened : EscrowReceiptAction
  dispute_resolved : EscrowReceiptAction
  refund_executed : EscrowReceiptAction
  milestone_created : EscrowReceiptAction
  milestone_submitted : EscrowReceiptAction
  milestone_approved : EscrowReceiptAction
  milestone_rejected : EscrowReceiptAction
  milestone_settled : EscrowReceiptAction
  counterparty_assigned : EscrowReceiptAction

-- `ESCROW_RECEIPT_ACTIONS[event.name]`.
unfoldable pub action_of : {K H : Type 0} → EscrowEvent K H → EscrowReceiptAction
action_of (EscrowEvent.agreement_opened e) = agreement_opened
action_of (EscrowEvent.agreement_funded e) = agreement_funded
action_of (EscrowEvent.work_completed e) = work_completed
action_of (EscrowEvent.settlement_executed e) = settlement_executed
action_of (EscrowEvent.proof_submitted e) = proof_submitted
action_of (EscrowEvent.proof_approved e) = proof_approved
action_of (EscrowEvent.proof_rejected e) = proof_rejected
action_of (EscrowEvent.agreement_abandoned e) = agreement_abandoned
action_of (EscrowEvent.dispute_opened e) = dispute_opened
action_of (EscrowEvent.dispute_resolved e) = dispute_resolved
action_of (EscrowEvent.refund_executed e) = refund_executed
action_of (EscrowEvent.milestone_created e) = milestone_created
action_of (EscrowEvent.milestone_submitted e) = milestone_submitted
action_of (EscrowEvent.milestone_approved e) = milestone_approved
action_of (EscrowEvent.milestone_rejected e) = milestone_rejected
action_of (EscrowEvent.milestone_settled e) = milestone_settled
action_of (EscrowEvent.counterparty_assigned e) = counterparty_assigned

unfoldable pub action_text : EscrowReceiptAction → Text
action_text agreement_opened = codes "AGREEMENT_OPENED"
action_text agreement_funded = codes "AGREEMENT_FUNDED"
action_text work_completed = codes "WORK_COMPLETED"
action_text settlement_executed = codes "SETTLEMENT_EXECUTED"
action_text proof_submitted = codes "PROOF_SUBMITTED"
action_text proof_approved = codes "PROOF_APPROVED"
action_text proof_rejected = codes "PROOF_REJECTED"
action_text agreement_abandoned = codes "AGREEMENT_ABANDONED"
action_text dispute_opened = codes "DISPUTE_OPENED"
action_text dispute_resolved = codes "DISPUTE_RESOLVED"
action_text refund_executed = codes "REFUND_EXECUTED"
action_text milestone_created = codes "MILESTONE_CREATED"
action_text milestone_submitted = codes "MILESTONE_SUBMITTED"
action_text milestone_approved = codes "MILESTONE_APPROVED"
action_text milestone_rejected = codes "MILESTONE_REJECTED"
action_text milestone_settled = codes "MILESTONE_SETTLED"
action_text counterparty_assigned = codes "COUNTERPARTY_ASSIGNED"

abbrev all_actions : List EscrowReceiptAction
all_actions =
    agreement_opened ∷ agreement_funded ∷ work_completed ∷ settlement_executed ∷ proof_submitted
    ∷ proof_approved ∷ proof_rejected ∷ agreement_abandoned ∷ dispute_opened ∷ dispute_resolved
    ∷ refund_executed ∷ milestone_created ∷ milestone_submitted ∷ milestone_approved
    ∷ milestone_rejected ∷ milestone_settled ∷ counterparty_assigned ∷ []

unfoldable pub action_index : EscrowReceiptAction → ℕ
action_index agreement_opened = 0
action_index agreement_funded = 1
action_index work_completed = 2
action_index settlement_executed = 3
action_index proof_submitted = 4
action_index proof_approved = 5
action_index proof_rejected = 6
action_index agreement_abandoned = 7
action_index dispute_opened = 8
action_index dispute_resolved = 9
action_index refund_executed = 10
action_index milestone_created = 11
action_index milestone_submitted = 12
action_index milestone_approved = 13
action_index milestone_rejected = 14
action_index milestone_settled = 15
action_index counterparty_assigned = 16

index-found : (a : EscrowReceiptAction) → get_elem? all_actions (action_index a) ≡ some a
unfolding action_index
index-found agreement_opened = refl
index-found agreement_funded = refl
index-found work_completed = refl
index-found settlement_executed = refl
index-found proof_submitted = refl
index-found proof_approved = refl
index-found proof_rejected = refl
index-found agreement_abandoned = refl
index-found dispute_opened = refl
index-found dispute_resolved = refl
index-found refund_executed = refl
index-found milestone_created = refl
index-found milestone_submitted = refl
index-found milestone_approved = refl
index-found milestone_rejected = refl
index-found milestone_settled = refl
index-found counterparty_assigned = refl

action_index_injective : (a b : EscrowReceiptAction) → action_index a ≡ action_index b → a ≡ b
action_index_injective a b h = cc (index-found a, index-found b, ap (get_elem? all_actions) h)

-- `===` on actions.
unfoldable pub action_beq : EscrowReceiptAction → EscrowReceiptAction → Bool
unfolding action_index
action_beq a b = nat_beq (action_index a) (action_index b)

pub action_beq_iff : (a b : EscrowReceiptAction) → (action_beq a b ≡ true) ↔ (a ≡ b)
unfolding action_beq
action_beq_iff a b = (
  λ h. action_index_injective a b ((nat_beq_iff _ _).0 h),
  λ h. (nat_beq_iff _ _).1 (ap action_index h),
)

instance abbrev pub action_eq : Eq EscrowReceiptAction
action_eq = record { same = action_beq; same_iff = action_beq_iff }
