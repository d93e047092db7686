-- ===== src/Escrow/Lifecycle/Records.antt =====
-- sdk/src/escrow/receipts.ts: `proofRecords` and `milestoneRecords`, which fold the annotations of a
-- history into one record for each proof and each milestone. A cast such as `as string` changes
-- nothing at run time, so a missing proof or milestone stays `none` as a key.
use ppv.Base.{
  ℕ, Bool, false, Option, none, some, List, [], ◌∷◌, ◌==◌, ◌&&◌, ◌||◌, not, option_eq, list_eq,
  if◌then◌else◌, leb,
}
use ppv.Base.Result.{Result, ok, err, ◌>>=◌}
use ppv.Base.Int.{ℤ}
use ppv.Base.Text.{Text}
use ppv.Base.Dict.{Dict, get, put, values}
use ppv.Escrow.States.{AgreementState, ProofStatus, MilestoneState, rejected, pending}
use ppv.Escrow.Receipts.{
  PpvEscrowReceiptV1, ReceiptError, proof_never_submitted, proof_decided_twice,
  milestone_never_created, or_else,
}
use ppv.Escrow.Receipts.Actions.{
  EscrowReceiptAction, action_eq, proof_submitted, proof_approved, proof_rejected,
  milestone_created, milestone_submitted, milestone_approved, milestone_rejected, milestone_settled,
}

pub record ProofRecord : Type 0 where
  pub proof : Option Text
  pub proof_index : Option ℕ
  pub submitter : Text
  pub agreement_state : AgreementState
  pub status : ProofStatus
  pub decided_by : Option Text
  pub receipt_id : Text
  pub occurred_at : Text
  pub slot : ℤ

pub record MilestoneRecord : Type 0 where
  pub milestone : Option Text
  pub milestone_index : Option ℕ
  pub amount : Option ℕ
  pub state : MilestoneState
  pub destination : Option Text
  pub slot : ℤ

-- The record that a submission opens.
unfoldable pub open_proof : PpvEscrowReceiptV1 → ProofRecord
open_proof r = record {
  proof = r.proof;
  proof_index = r.proof_index;
  submitter = r.actor;
  agreement_state = r.new_state;
  status = ProofStatus.submitted;
  decided_by = none;
  receipt_id = r.receipt_id;
  occurred_at = r.occurred_at;
  slot = r.slot;
}

unfoldable pub collect_proofs :
    Dict (Option Text) ProofRecord → List PpvEscrowReceiptV1 → Dict (Option Text) ProofRecord
unfolding open_proof
collect_proofs records [] = records
collect_proofs records (r ∷ rs) =
    collect_proofs
      (if r.action == proof_submitted then put r.proof (open_proof r) records else records) rs

unfoldable pub is_decision : EscrowReceiptAction → Bool
is_decision a = a == proof_approved || a == proof_rejected

-- The body of the second loop, for a receipt that decides a proof.
unfoldable pub decide_proof :
    Dict (Option Text) ProofRecord
    → PpvEscrowReceiptV1
    → Option ProofRecord
    → Result ReceiptError (Dict (Option Text) ProofRecord)
decide_proof records r none = err (proof_never_submitted r.proof)
decide_proof records r (some found) =
    if not (found.decided_by == none)
    then err (proof_decided_twice found.proof)
    else ok (
        put r.proof
          (record found {
            status = if r.action == proof_approved then ProofStatus.approved else rejected;
            decided_by = some r.actor;
          })
          records)

unfoldable pub decide_proofs :
    Dict (Option Text) ProofRecord
    → List PpvEscrowReceiptV1
    → Result ReceiptError (Dict (Option Text) ProofRecord)
unfolding is_decision decide_proof
decide_proofs records [] = ok records
decide_proofs records (r ∷ rs) = do
  next ← (if is_decision r.action then decide_proof records r (get r.proof records) else ok records)
  decide_proofs next rs

unfoldable pub proof_records : List PpvEscrowReceiptV1 → Result ReceiptError (List ProofRecord)
unfolding collect_proofs decide_proofs
proof_records annotations = do
  records ← decide_proofs (collect_proofs [] annotations) annotations
  ok (values records)

unfoldable pub open_milestone : PpvEscrowReceiptV1 → MilestoneRecord
open_milestone r = record {
  milestone = r.milestone;
  milestone_index = r.milestone_index;
  amount = r.amount;
  state = pending;
  destination = none;
  slot = r.slot;
}

unfoldable pub collect_milestones :
    Dict (Option Text) MilestoneRecord
    → List PpvEscrowReceiptV1
    → Dict (Option Text) MilestoneRecord
unfolding open_milestone
collect_milestones records [] = records
collect_milestones records (r ∷ rs) =
    collect_milestones
      (if r.action == milestone_created
        then put r.milestone (open_milestone r) records
        else records)
      rs

-- The `switch` of the second loop.
unfoldable pub advance_milestone :
    PpvEscrowReceiptV1 → EscrowReceiptAction → MilestoneRecord → MilestoneRecord
advance_milestone r milestone_submitted m = record m { state = MilestoneState.submitted }
advance_milestone r milestone_approved m = record m { state = MilestoneState.approved }
advance_milestone r milestone_rejected m = record m { state = pending }
advance_milestone r milestone_settled m = record m {
  state = MilestoneState.settled;
  destination = r.destination;
}
advance_milestone r _ m = m

-- A JavaScript string is true unless it is empty.
abbrev pub truthy : Option Text → Bool
truthy none = false
truthy (some t) = not (t == [])

unfoldable pub step_milestone :
    Dict (Option Text) MilestoneRecord
    → PpvEscrowReceiptV1
    → Option MilestoneRecord
    → Result ReceiptError (Dict (Option Text) MilestoneRecord)
unfolding advance_milestone
step_milestone records r none =
    if truthy r.milestone && not (r.action == milestone_created)
    then err (milestone_never_created r.milestone)
    else ok records
step_milestone records r (some found) =
    ok (put (some (or_else r.milestone [])) (advance_milestone r r.action found) records)

unfoldable pub step_milestones :
    Dict (Option Text) MilestoneRecord
    → List PpvEscrowReceiptV1
    → Result ReceiptError (Dict (Option Text) MilestoneRecord)
unfolding step_milestone
step_milestones records [] = ok records
step_milestones records (r ∷ rs) = do
  next ← step_milestone records r (get (some (or_else r.milestone [])) records)
  step_milestones next rs

-- `sort` by index; `null` counts as 0 in a subtraction. The sort is stable.
unfoldable pub insert_milestone : MilestoneRecord → List MilestoneRecord → List MilestoneRecord
insert_milestone m [] = m ∷ []
insert_milestone m (x ∷ xs) =
    if leb (or_else m.milestone_index 0) (or_else x.milestone_index 0)
    then m ∷ x ∷ xs
    else x ∷ insert_milestone m xs

unfoldable pub sort_milestones : List MilestoneRecord → List MilestoneRecord
unfolding insert_milestone
sort_milestones [] = []
sort_milestones (m ∷ ms) = insert_milestone m (sort_milestones ms)

unfoldable pub milestone_records :
    List PpvEscrowReceiptV1 → Result ReceiptError (List MilestoneRecord)
unfolding collect_milestones step_milestones sort_milestones
milestone_records annotations = do
  records ← step_milestones (collect_milestones [] annotations) annotations
  ok (sort_milestones (values records))
