-- ===== src/Escrow/Credential.antt =====
-- sdk/src/escrow/credential.ts: the seal of an agreement, from its rebuilt lifecycle.
pub mod Laws
use ppv.Base.{ℕ, Bool, false, Option, none, some, List, ◌==◌, ◌||◌, any, select, map, ltb}
use ppv.Base.Int.{ℤ}
use ppv.Base.Text.{Text}
use ppv.Escrow.States.{AgreementState, MilestoneState, disputed, state_eq, milestone_eq}
use ppv.Escrow.Receipts.Actions.{EscrowReceiptAction, action_eq}
use ppv.Escrow.Receipts.Actions
use ppv.Escrow.Lifecycle.Records.{ProofRecord, MilestoneRecord}
use ppv.Escrow.Lifecycle.Custody.{is_approved}
use ppv.Escrow.Lifecycle.Reconstruct.{AgreementLifecycle}
use ppv.Reputation.Seal.{SealFacts, PpvSealState, resolve_seal_state}

pub record EscrowCredential : Type 0 where
  pub agreement : Text
  pub state : PpvSealState
  pub facts : SealFacts
  pub buyer : Text
  pub seller : Text
  pub mint : Option Text
  pub funded_amount : Option ℕ
  pub settled_amount : Option ℕ
  pub refunded_amount : Option ℕ
  pub approved_proofs : List (Option Text)
  pub receipt_ids : List Text
  pub last_slot : ℤ

abbrev pub has : EscrowReceiptAction → AgreementLifecycle → Bool
has a l = any (λ r. r.action == a) l.receipts

-- `amount !== null && amount > 0n`.
abbrev pub is_positive : Option ℕ → Bool
is_positive none = false
is_positive (some n) = ltb 0 n

abbrev pub proof_approved : ProofRecord → Bool
proof_approved p = is_approved p.status

abbrev pub milestone_settled : MilestoneRecord → Bool
milestone_settled m = m.state == MilestoneState.settled

unfoldable pub escrow_seal_facts : AgreementLifecycle → Bool → SealFacts
escrow_seal_facts l chain_verified = record {
  chain_verified = chain_verified;
  proof_revoked = false;
  counterparty_confirmed =
      any proof_approved l.proofs
      || any milestone_settled l.milestones
      || l.state == AgreementState.settled;
  settled = is_positive l.settled_amount;
  refunded = is_positive l.refunded_amount;
  dispute_open = l.state == disputed;
  dispute_resolved = has Actions.dispute_resolved l;
}

unfoldable pub escrow_credential : AgreementLifecycle → Bool → EscrowCredential
unfolding escrow_seal_facts
escrow_credential l chain_verified =
    let facts = escrow_seal_facts l chain_verified in
    record {
      agreement = l.agreement;
      state = resolve_seal_state facts;
      facts = facts;
      buyer = l.buyer;
      seller = l.seller;
      mint = l.mint;
      funded_amount = l.funded_amount;
      settled_amount = l.settled_amount;
      refunded_amount = l.refunded_amount;
      approved_proofs = map (λ p. p.proof) (select proof_approved l.proofs);
      receipt_ids = map (λ r. r.receipt_id) l.receipts;
      last_slot = l.last_slot;
    }
