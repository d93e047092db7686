-- ===== src/Escrow/Lifecycle/Custody.antt =====
-- sdk/src/escrow/receipts.ts: what the receipts say was funded, paid out and returned, and the
-- checks that it adds up.
use ppv.Base.{
  ℕ, ◌+◌, Bool, true, false, Option, none, some, List, [], ◌∷◌, ◌++◌, ◌==◌, ◌&&◌, not, nat_eq,
  option_eq, list_eq, if◌then◌else◌, find?, select, length, ltb,
}
use ppv.Base.Result.{Result, ok, err, ◌>>=◌, ◌>>◌, throw_if}
use ppv.Base.Text.{Text}
use ppv.Escrow.Receipts.{
  PpvEscrowReceiptV1, ReceiptError, or_else, settlement_without_funding, settled_amount_mismatch,
  settled_and_refunded, refund_without_funding, refunded_amount_mismatch, schedule_mismatch,
  cites_unseen_proof, cites_unapproved_proof, mixes_bigint, assigned_more_than_once,
}
use ppv.Escrow.Receipts.Actions.{
  EscrowReceiptAction, action_eq, agreement_funded, settlement_executed, refund_executed,
}
use ppv.Escrow.States.{ProofStatus}
use ppv.Escrow.Lifecycle.Records.{ProofRecord, MilestoneRecord, truthy}

abbrev pub has_action : EscrowReceiptAction → PpvEscrowReceiptV1 → Bool
has_action a r = r.action == a

abbrev pub is_some {ℓ} : {A : Type ℓ} → Option A → Bool
is_some none = false
is_some (some a) = true

-- `paidOut(action)`: the sum over the receipts of that action, `null` when there is none.
unfoldable pub add_payments : Option ℕ → List PpvEscrowReceiptV1 → Option ℕ
add_payments total [] = total
add_payments total (r ∷ rs) = add_payments (some (or_else total 0 + or_else r.amount 0)) rs

unfoldable pub paid_out : EscrowReceiptAction → List PpvEscrowReceiptV1 → Option ℕ
unfolding add_payments
paid_out a all = add_payments none (select (has_action a) all)

-- `x?.f ?? null`.
abbrev pub amount_of : Option PpvEscrowReceiptV1 → Option ℕ
amount_of none = none
amount_of (some r) = r.amount

abbrev pub destination_of : Option PpvEscrowReceiptV1 → Option Text
destination_of none = none
destination_of (some r) = r.destination

abbrev pub proof_of : Option PpvEscrowReceiptV1 → Option Text
proof_of none = none
proof_of (some r) = r.proof

pub record Custody : Type 0 where
  pub funded : Option PpvEscrowReceiptV1
  pub settled : Option PpvEscrowReceiptV1
  pub refunded : Option PpvEscrowReceiptV1
  pub settled_total : Option ℕ
  pub refunded_total : Option ℕ

unfoldable pub observe_custody : List PpvEscrowReceiptV1 → List PpvEscrowReceiptV1 → Custody
unfolding paid_out
observe_custody ordered annotations = record {
  funded = find? (has_action agreement_funded) ordered;
  settled = find? (has_action settlement_executed) ordered;
  refunded = find? (has_action refund_executed) ordered;
  settled_total = paid_out settlement_executed (ordered ++ annotations);
  refunded_total = paid_out refund_executed (ordered ++ annotations);
}

unfoldable pub check_custody : Custody → Result ReceiptError (Unit {0})
check_custody c = do
  throw_if (is_some c.settled_total && not (is_some c.funded)) settlement_without_funding
  throw_if (is_some c.settled && (is_some c.funded && not (c.settled_total == amount_of c.funded)))
      settled_amount_mismatch
  throw_if (is_some c.settled && is_some c.refunded) settled_and_refunded
  throw_if (is_some c.refunded_total && not (is_some c.funded)) refund_without_funding
  throw_if
      (is_some c.refunded
        && (is_some c.funded
            && not (
                some (or_else c.refunded_total 0 + or_else c.settled_total 0)
                == amount_of c.funded)))
      refunded_amount_mismatch

-- A bounty names its payee once.
unfoldable pub assigned_seller : Text → List PpvEscrowReceiptV1 → Result ReceiptError Text
assigned_seller seller [] = ok seller
assigned_seller seller (r ∷ []) = ok r.seller
assigned_seller seller (r ∷ s ∷ rs) = err assigned_more_than_once

-- `total + record.amount` throws where the amount is `null`.
unfoldable pub schedule_total : ℕ → List MilestoneRecord → Result ReceiptError ℕ
schedule_total total [] = ok total
schedule_total total (m ∷ ms) = elim m.amount [
  | none ↦ err mixes_bigint
  | some a ↦ schedule_total (total + a) ms
]

unfoldable pub check_schedule : Custody → List MilestoneRecord → Result ReceiptError (Unit {0})
unfolding schedule_total
check_schedule c milestones = do
  scheduled ← schedule_total 0 milestones
  throw_if
      (ltb 0 (length milestones)
        && (is_some c.funded && not (some scheduled == amount_of c.funded)))
      schedule_mismatch

abbrev pub is_approved : ProofStatus → Bool
is_approved ProofStatus.approved = true
is_approved _ = false

abbrev pub check_cited : Option ProofRecord → Result ReceiptError (Unit {0})
check_cited none = err cites_unseen_proof
check_cited (some p) = throw_if (not (is_approved p.status)) cites_unapproved_proof

-- `if (settled?.proof)`: a cited proof was seen and approved.
unfoldable pub check_cited_proof : Custody → List ProofRecord → Result ReceiptError (Unit {0})
check_cited_proof c proofs =
    if truthy (proof_of c.settled)
    then check_cited (find? (λ p. p.proof == proof_of c.settled) proofs)
    else ok tt
