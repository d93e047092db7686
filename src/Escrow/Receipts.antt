-- ===== src/Escrow/Receipts.antt =====
-- sdk/src/escrow/receipts.ts, first half: a receipt as a projection of one committed event. Slots,
-- indices and times are JavaScript numbers that hold integers; amounts are `bigint`s read from u64.
pub mod Actions
pub mod Laws
use ppv.Base.{ℕ, Option, none, some, [], ◌++◌, ◌==◌, option_eq, list_eq, if◌then◌else◌, ltb}
use ppv.Base.Result.{Result, ok, err, ◌>>=◌, ◌>>◌, throw_if}
use ppv.Base.Int.{ℤ, pos, negsuc, ltb_ℤ}
use ppv.Base.Text.{Text, Bytes, codes, decimal_ℤ, hex, iso_string, max_date_seconds}
use ppv.Base.{take_front}
use ppv.Escrow.States.{AgreementState, state_eq}
use ppv.Escrow.Events.{EscrowEvent, PpvEscrowEvent, agreement_of, timestamp_of}
use Actions.{EscrowReceiptAction, action_of, action_text}

pub data EscrowReceiptKind : Type 0 where
  transition annotation : EscrowReceiptKind

-- `EscrowEventEnvelope`: an event with its chain coordinates.
pub record EscrowEventEnvelope : Type 0 where
  pub event : PpvEscrowEvent
  pub program_id : Text
  pub transaction_signature : Text
  pub slot : ℤ
  pub instruction_index : ℤ
  pub inner_instruction_index : Option ℤ
  pub block_time : Option ℤ

-- The fields of a receipt that the `switch` on the event's name fills in.
pub record Facts : Type 0 where
  pub agreement_id : ℕ
  pub buyer : Text
  pub seller : Text
  pub actor : Text
  pub mint : Option Text
  pub amount : Option ℕ
  pub destination : Option Text
  pub proof : Option Text
  pub proof_index : Option ℕ
  pub milestone : Option Text
  pub milestone_index : Option ℕ
  pub previous_state : Option AgreementState
  pub new_state : AgreementState

pub record PpvEscrowReceiptV1 : Type 0 where
  pub schema_version : ℕ
  pub receipt_id : Text
  pub program_id : Text
  pub action : EscrowReceiptAction
  pub kind : EscrowReceiptKind
  pub agreement : Text
  pub facts : Facts
  pub open facts use *
  pub occurred_at : Text
  pub transaction_signature : Text
  pub slot : ℤ
  pub instruction_index : ℤ
  pub inner_instruction_index : Option ℤ

-- What is thrown: a `ReceiptError` for each message, the `RangeError` of a date out of range, and the
-- `TypeError` of adding a `bigint` to `null`. `loop_limit` is the model's own.
pub data ReceiptError : Type 0 where
  requires_transaction_signature invalid_instruction_index invalid_slot : ReceiptError
  invalid_timestamp invalid_time_value mixes_bigint loop_limit : ReceiptError
  no_receipts more_than_one_agreement missing_creation more_than_one_creation : ReceiptError
  replayed_with_different_action : Text → ReceiptError
  two_transitions_leave revisits : AgreementState → ReceiptError
  committed_before : EscrowReceiptAction → EscrowReceiptAction → ReceiptError
  never_reached : EscrowReceiptAction → Option AgreementState → ReceiptError
  before_agreement_existed : EscrowReceiptAction → ReceiptError
  settlement_without_funding settled_amount_mismatch settled_and_refunded : ReceiptError
  refund_without_funding refunded_amount_mismatch assigned_more_than_once : ReceiptError
  proof_never_submitted proof_decided_twice milestone_never_created : Option Text → ReceiptError
  schedule_mismatch cites_unseen_proof cites_unapproved_proof : ReceiptError

abbrev pub schema_version_1 : ℕ
schema_version_1 = 1

unfoldable pub kind_of : Option AgreementState → AgreementState → EscrowReceiptKind
kind_of previous next =
    if previous == none
    then transition
    else if previous == some next
    then annotation
    else transition

unfoldable pub iso_from_unix : ℤ → Result ReceiptError Text
iso_from_unix (negsuc n) = err invalid_timestamp
iso_from_unix (pos n) = if ltb max_date_seconds n then err invalid_time_value else ok (iso_string n)

-- `a ?? b`.
abbrev pub or_else {ℓ} : {A : Type ℓ} → Option A → A → A
or_else none b = b
or_else (some a) b = a

abbrev inner_text : Option ℤ → Text
inner_text none = codes "-"
inner_text (some n) = decimal_ℤ n

-- The text whose hash makes the id.
unfoldable pub receipt_preimage : Text → Text → ℤ → Option ℤ → EscrowReceiptAction → Text
receipt_preimage program_id signature index inner action =
    codes "ppv-escrow-receipt:v1|"
    ++ (program_id
        ++ (codes "|"
            ++ (signature
                ++ (codes "|"
                    ++ (decimal_ℤ index
                        ++ (codes "|"
                            ++ (inner_text inner ++ (codes "|" ++ action_text action))))))))

-- A step with no tokens, no proof and no milestone: `null` in the other fields, and `0n` for the id.
abbrev step : Text → Text → Text → Option AgreementState → AgreementState → Facts
step buyer seller actor previous next = record {
  agreement_id = 0;
  buyer = buyer;
  seller = seller;
  actor = actor;
  mint = none;
  amount = none;
  destination = none;
  proof = none;
  proof_index = none;
  milestone = none;
  milestone_index = none;
  previous_state = previous;
  new_state = next;
}

unfoldable pub facts_of : PpvEscrowEvent → Facts
facts_of (EscrowEvent.agreement_opened e) =
    record (step e.creator e.counterparty e.creator none e.new_state) {
      agreement_id = e.agreement_id;
      mint = some e.mint;
    }
facts_of (EscrowEvent.agreement_funded e) =
    record (step e.creator e.counterparty e.creator (some e.previous_state) e.new_state) {
      mint = some e.mint;
      amount = some e.amount;
      destination = some e.vault;
    }
facts_of (EscrowEvent.work_completed e) =
    step e.creator e.counterparty e.actor (some e.previous_state) e.new_state
facts_of (EscrowEvent.settlement_executed e) =
    record (step e.buyer e.seller e.seller (some e.previous_state) e.new_state) {
      mint = some e.mint;
      amount = some e.amount;
      destination = some e.destination;
      proof = e.proof;
    }
facts_of (EscrowEvent.counterparty_assigned e) =
    step e.creator e.counterparty e.creator (some e.agreement_state) e.agreement_state
facts_of (EscrowEvent.milestone_created e) =
    record (step e.creator e.counterparty e.creator (some e.agreement_state) e.agreement_state) {
      amount = some e.amount;
      milestone = some e.milestone;
      milestone_index = some e.milestone_index;
    }
facts_of (EscrowEvent.milestone_submitted e) =
    record (step e.creator e.counterparty e.counterparty (some e.agreement_state)
      e.agreement_state) { milestone = some e.milestone; milestone_index = some e.milestone_index }
facts_of (EscrowEvent.milestone_approved e) =
    record (step e.creator e.counterparty e.creator (some e.agreement_state) e.agreement_state) {
      milestone = some e.milestone;
      milestone_index = some e.milestone_index;
    }
facts_of (EscrowEvent.milestone_rejected e) =
    record (step e.creator e.counterparty e.creator (some e.agreement_state) e.agreement_state) {
      milestone = some e.milestone;
      milestone_index = some e.milestone_index;
    }
facts_of (EscrowEvent.milestone_settled e) =
    record (step e.creator e.counterparty e.counterparty (some e.agreement_state)
      e.agreement_state) {
        destination = some e.destination;
        proof = e.proof;
        milestone = some e.milestone;
        milestone_index = some e.milestone_index;
      }
facts_of (EscrowEvent.agreement_abandoned e) =
    step e.creator e.counterparty e.cancelled_by (some e.previous_state) e.new_state
facts_of (EscrowEvent.dispute_opened e) =
    step e.creator e.counterparty e.opened_by (some e.previous_state) e.new_state
facts_of (EscrowEvent.dispute_resolved e) =
    step e.creator e.counterparty e.resolved_by (some e.resulting_state) e.resulting_state
facts_of (EscrowEvent.refund_executed e) =
    record (step e.buyer e.seller e.refunded_by (some e.previous_state) e.new_state) {
      mint = some e.mint;
      amount = some e.amount;
      destination = some e.destination;
    }
facts_of (EscrowEvent.proof_approved e) =
    record (step e.creator e.counterparty e.decided_by (some e.agreement_state) e.agreement_state) {
      proof = some e.proof;
      proof_index = some e.proof_index;
    }
facts_of (EscrowEvent.proof_rejected e) =
    record (step e.creator e.counterparty e.decided_by (some e.agreement_state) e.agreement_state) {
      proof = some e.proof;
      proof_index = some e.proof_index;
    }
facts_of (EscrowEvent.proof_submitted e) =
    record (step e.creator e.counterparty e.submitter (some e.agreement_state) e.agreement_state) {
      proof = some e.proof;
      proof_index = some e.proof_index;
    }

-- SHA-256 is the platform's: `sha256` stands for it.
module _ (sha256 : Text → Bytes) where
  unfoldable pub escrow_receipt_id : Text → Text → ℤ → Option ℤ → EscrowReceiptAction → Text
  unfolding receipt_preimage
  escrow_receipt_id program_id signature index inner action =
      codes "ppvr_"
      ++ take_front 40 (hex (sha256 (receipt_preimage program_id signature index inner action)))

  -- `buildReceipt`, and the `kind` that `escrowReceiptFromEvent` adds.
  unfoldable pub escrow_receipt_from_event :
      EscrowEventEnvelope → Result ReceiptError PpvEscrowReceiptV1
  unfolding escrow_receipt_id iso_from_unix kind_of facts_of
  escrow_receipt_from_event e = do
    throw_if (e.transaction_signature == []) requires_transaction_signature
    throw_if (ltb_ℤ e.instruction_index (pos 0)) invalid_instruction_index
    throw_if (ltb_ℤ e.slot (pos 0)) invalid_slot
    occurred_at ← iso_from_unix (or_else e.block_time (timestamp_of e.event))
    let action = action_of e.event
    let facts = facts_of e.event
    ok (record {
      schema_version = schema_version_1;
      receipt_id =
          escrow_receipt_id e.program_id e.transaction_signature e.instruction_index
            e.inner_instruction_index action;
      program_id = e.program_id;
      action = action;
      kind = kind_of facts.previous_state facts.new_state;
      agreement = agreement_of e.event;
      facts = facts;
      occurred_at = occurred_at;
      transaction_signature = e.transaction_signature;
      slot = e.slot;
      instruction_index = e.instruction_index;
      inner_instruction_index = e.inner_instruction_index;
    })
