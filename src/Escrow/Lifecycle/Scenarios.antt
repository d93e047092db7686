-- ===== src/Escrow/Lifecycle/Scenarios.antt =====
-- Concrete histories, run through the model of sdk/src/escrow/receipts.ts.
use ppv.Escrow.Lifecycle.Chain.Order.{AllDistinct}
use ppv.Base.{
  refl, ◌++◌, replicate, list_eq, nat_eq, ==_iff, sym, ap, ◌∙◌, inl, inr, not, every, ◌==◌, ℕ, ◌≡◌,
  Option, none, some, List, [], ◌∷◌, true, arith,
}
use ppv.Base.Int.{pos}
use ppv.Base.Text.{hex_digit, Text, codes}
use ppv.Escrow.States.{AgreementState, opened, funded, completed, disputed, ProofStatus, pending}
use ppv.Escrow.Receipts.{PpvEscrowReceiptV1, transition, annotation, EscrowReceiptKind}
use ppv.Escrow.Receipts.Actions.{
  EscrowReceiptAction, agreement_opened, agreement_funded, work_completed, settlement_executed,
  proof_submitted, proof_approved, milestone_created, dispute_opened, refund_executed,
}
use ppv.Base.Members.{In}
use ppv.Escrow.Lifecycle.Chain.Index.{Consistent}
use ppv.Escrow.Lifecycle.Records.{MilestoneRecord}
use ppv.Escrow.Lifecycle.Reconstruct.{AgreementLifecycle, Outcome}

abbrev pub plain :
    ℕ
    → EscrowReceiptAction
    → EscrowReceiptKind
    → Option AgreementState
    → AgreementState
    → ℕ
    → PpvEscrowReceiptV1
plain id action kind previous next slot = record {
  schema_version = 1;
  receipt_id = codes "ppvr_" ++ (replicate 39 48 ++ hex_digit id ∷ []);
  program_id = codes "P";
  action = action;
  kind = kind;
  agreement = codes "A";
  facts = record {
    agreement_id = 0;
    buyer = codes "B";
    seller = codes "S";
    actor = codes "B";
    mint = some (codes "M");
    amount = none;
    destination = none;
    proof = none;
    proof_index = none;
    milestone = none;
    milestone_index = none;
    previous_state = previous;
    new_state = next;
  };
  occurred_at = codes "T";
  transaction_signature = codes "X";
  slot = pos slot;
  instruction_index = pos 0;
  inner_instruction_index = none;
}

abbrev pub paying : ℕ → PpvEscrowReceiptV1 → PpvEscrowReceiptV1
paying n r = record r { facts = record (r.facts) { amount = some n } }

abbrev pub about_proof : Text → PpvEscrowReceiptV1 → PpvEscrowReceiptV1
about_proof p r = record r { facts = record (r.facts) { proof = some p; proof_index = some 0 } }

abbrev pub about_milestone : PpvEscrowReceiptV1 → PpvEscrowReceiptV1
about_milestone r = record r {
  facts = record (r.facts) { milestone = some (codes "V"); milestone_index = some 0 };
}

abbrev pub r_open : PpvEscrowReceiptV1
r_open = plain 1 agreement_opened transition none opened 10

abbrev pub r_fund : PpvEscrowReceiptV1
r_fund = paying 500 (plain 2 agreement_funded transition (some opened) funded 11)

abbrev pub r_submit : PpvEscrowReceiptV1
r_submit = about_proof (codes "Q") (plain 3 proof_submitted annotation (some funded) funded 12)

abbrev pub r_approve : PpvEscrowReceiptV1
r_approve = about_proof (codes "Q") (plain 4 proof_approved annotation (some funded) funded 13)

abbrev pub r_complete : PpvEscrowReceiptV1
r_complete = plain 5 work_completed transition (some funded) completed 14

abbrev pub r_settle : PpvEscrowReceiptV1
r_settle =
    about_proof (codes "Q") (
      paying 500
        (plain 6 settlement_executed transition (some completed) AgreementState.settled 15))

abbrev pub shuffled : List PpvEscrowReceiptV1
shuffled = r_settle ∷ r_approve ∷ r_open ∷ r_open ∷ r_complete ∷ r_submit ∷ r_fund ∷ r_settle ∷ []

abbrev pub in_order : List PpvEscrowReceiptV1
in_order = r_open ∷ r_fund ∷ r_submit ∷ r_approve ∷ r_complete ∷ r_settle ∷ []

-- A history that is refunded after a dispute, one tranche of it already paid out.
abbrev pub r_milestone : PpvEscrowReceiptV1
r_milestone =
    about_milestone (paying 200 (plain 7 milestone_created annotation (some opened) opened 10))

abbrev pub r_milestone_2 : PpvEscrowReceiptV1
r_milestone_2 =
    record (paying 300 (plain 11 milestone_created annotation (some opened) opened 10)) {
      facts =
          record ((paying 300
            (plain 11 milestone_created annotation (some opened) opened 10)).facts) {
              milestone = some (codes "W");
              milestone_index = some 1;
            };
    }

abbrev pub r_tranche : PpvEscrowReceiptV1
r_tranche =
    about_milestone (paying 200 (plain 8 settlement_executed annotation (some funded) funded 12))

abbrev pub r_dispute : PpvEscrowReceiptV1
r_dispute = plain 9 dispute_opened transition (some funded) disputed 13

abbrev pub r_refund : PpvEscrowReceiptV1
r_refund =
    paying 300 (plain 10 refund_executed transition (some disputed) AgreementState.refunded 14)

abbrev pub refund_in_order : List PpvEscrowReceiptV1
refund_in_order =
    r_open ∷ r_milestone ∷ r_milestone_2 ∷ r_fund ∷ r_tranche ∷ r_dispute ∷ r_refund ∷ []

abbrev pub settled_lifecycle : AgreementLifecycle
settled_lifecycle = record {
  agreement = codes "A";
  agreement_id = 0;
  buyer = codes "B";
  seller = codes "S";
  mint = some (codes "M");
  state = AgreementState.settled;
  funded_amount = some 500;
  settled_amount = some 500;
  refunded_amount = none;
  settlement_destination = none;
  outcome = Outcome.settled;
  last_slot = pos 15;
  proofs =
      record {
        proof = some (codes "Q");
        proof_index = some 0;
        submitter = codes "B";
        agreement_state = funded;
        status = ProofStatus.approved;
        decided_by = some (codes "B");
        receipt_id = r_submit.receipt_id;
        occurred_at = codes "T";
        slot = pos 12;
      }
      ∷ [];
  milestones = [];
  receipts = in_order;
}

abbrev pub milestone_record : Text → ℕ → ℕ → MilestoneRecord
milestone_record name index amount = record {
  milestone = some name;
  milestone_index = some index;
  amount = some amount;
  state = pending;
  destination = none;
  slot = pos 10;
}

abbrev pub refunded_lifecycle : AgreementLifecycle
refunded_lifecycle = record {
  agreement = codes "A";
  agreement_id = 0;
  buyer = codes "B";
  seller = codes "S";
  mint = some (codes "M");
  state = AgreementState.refunded;
  funded_amount = some 500;
  settled_amount = some 200;
  refunded_amount = some 300;
  settlement_destination = none;
  outcome = Outcome.refunded;
  last_slot = pos 14;
  proofs = [];
  milestones = milestone_record (codes "V") 0 200 ∷ milestone_record (codes "W") 1 300 ∷ [];
  receipts = refund_in_order;
}

-- Ids that differ pairwise.
abbrev pub UniqueIds : List PpvEscrowReceiptV1 → Type 0
UniqueIds [] = Unit
UniqueIds (r ∷ rs) = (every (λ s. not (s.receipt_id == r.receipt_id)) rs ≡ true) × UniqueIds rs

unlike :
    (t : Text) (rs : List PpvEscrowReceiptV1) (s : PpvEscrowReceiptV1)
    → every (λ s. not (s.receipt_id == t)) rs ≡ true
    → In s rs
    → ¬ (s.receipt_id ≡ t)
unlike t [] s h i q = i
unlike t (x ∷ rs) s h (inl p) q =
    let e : x.receipt_id ≡ t = ap (λ (y : PpvEscrowReceiptV1). y.receipt_id) (sym p) ∙ q in
    ground (arith, (==_iff x.receipt_id t).1 e)
unlike t (x ∷ rs) s h (inr i) q = unlike t rs s (ground arith) i q

pub UniqueIds-AllDistinct : (rs : List PpvEscrowReceiptV1) → UniqueIds rs → AllDistinct rs
UniqueIds-AllDistinct [] u = tt
UniqueIds-AllDistinct (r ∷ rs) u =
    (λ i. unlike r.receipt_id rs r u.0 i refl, UniqueIds-AllDistinct rs u.1)

pub UniqueIds-Consistent : (rs : List PpvEscrowReceiptV1) → UniqueIds rs → Consistent rs
UniqueIds-Consistent [] u r s i j e = absurd i
UniqueIds-Consistent (x ∷ rs) u r s (inl p) (inl q) e = p ∙ sym q
UniqueIds-Consistent (x ∷ rs) u r s (inl p) (inr j) e =
    absurd
      (unlike x.receipt_id rs s u.0 j (sym e ∙ ap (λ (y : PpvEscrowReceiptV1). y.receipt_id) p))
UniqueIds-Consistent (x ∷ rs) u r s (inr i) (inl q) e =
    absurd (unlike x.receipt_id rs r u.0 i (e ∙ ap (λ (y : PpvEscrowReceiptV1). y.receipt_id) q))
UniqueIds-Consistent (x ∷ rs) u r s (inr i) (inr j) e = UniqueIds-Consistent rs u.1 r s i j e

abbrev pub AllIn : List PpvEscrowReceiptV1 → List PpvEscrowReceiptV1 → Type 0
AllIn [] ys = Unit
AllIn (x ∷ xs) ys = In x ys × AllIn xs ys

pub AllIn-In :
    (xs ys : List PpvEscrowReceiptV1) (a : PpvEscrowReceiptV1) → AllIn xs ys → In a xs → In a ys
AllIn-In [] ys a h i = absurd i
AllIn-In (x ∷ xs) ys a h (inl q) = rw q h.0
AllIn-In (x ∷ xs) ys a h (inr i) = AllIn-In xs ys a h.1 i
