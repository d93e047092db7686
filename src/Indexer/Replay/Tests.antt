-- ===== src/Indexer/Replay/Tests.antt =====
-- A replay of indexer/src/replay.ts: one transaction that opens an agreement, and its theorems.
use ppv.Base.{ℕ, ◌≡◌, ◌≢◌, ◌↔◌, refl, Option, none, some, [], ◌∷◌}
use ppv.Escrow.States.{opened, AgreementType}
use ppv.Escrow.Events.{agreement_opened}
use ppv.Escrow.Receipts.{EscrowEventEnvelope, PpvEscrowReceiptV1}
use ppv.Escrow.Lifecycle.Reconstruct.{ongoing}
use ppv.Base.Result.{Result, ok, err}
use ppv.Base.Int.{pos}
use ppv.Base.Text.{Text, codes, decimal, decimal_ℤ, hex, iso_string}
use ppv.Base.Members.{In}
use ppv.Base.Dict.{get, put}
use ppv.Indexer.Scenarios.{backwards, opened_receipt}
use ppv.Escrow.Lifecycle.Collation.{by_code_unit}
use ppv.Indexer.Extraction.{RpcTransaction, RpcInstruction, extract_escrow_events}
use ppv.Indexer.Extraction.Emitted.{Emitted, extract_escrow_events-Emitted}
use ppv.Indexer.Replay.{
  ReplayOptions, ReplayResult, Pages, replay_agreement, signature_history, out_of_fuel,
}
use ppv.Indexer.Replay.Histories.{signature_history-ne-out_of_fuel}
use ppv.Indexer.Replay.Agreement.{Replayed, replay_agreement-Replayed}

abbrev zeros : Text
zeros = codes "11111111111111111111111111111111"

abbrev authority : Text
authority =
    codes
      "PPn91YdT8HKRZtdeic8LdVDRw3fZ6qHXcg61YMAnEJvL5xzrhwPjqSiTuBGwndht6W5F7J1cHXiss4zfbBs9yuUBV3VM1pzLv"

-- The program calls itself, with its event authority, and the data of an `AgreementOpened`.
abbrev event_call : RpcInstruction
event_call = record {
  program_id_index = 0;
  accounts = 1 ∷ [];
  payload =
      codes
        "9opCxkAgBxqaJ7LphnEQVLp6DpTwpGSNK6dF1ofcZvhdD1Quav8cs2aVKpFP1hFYuDbsKjWL9fCXet3AH8YRNxGiQvpVzhPXdNbZWv51q4mCC5mEg5ymTUSiENm1mmG2Ug8TqpcWF3cDqqA6fcLJEPyvY9gZtvFS3GVqC81m6yTrLZ9qZyB3BAyter4An3CGnpQrtiFgYZz5S2a8mZgX8T7ZDs3jNUquLzeisEtMqbuMChdEhpSRFdPqXpfTUSSWHz7phoLep7fSGP85odhmcibomHhTzXcpo3oLYnPU5AzYg1BqtsbZWW6i7Z6iYtQP";
}

abbrev opening : RpcTransaction
opening = record {
  slot = pos 10;
  block_time = none;
  signatures = codes "X" ∷ [];
  account_keys = zeros ∷ authority ∷ [];
  about = some (record {
    failure = none;
    inner_instructions = some (record { index = pos 0; instructions = event_call ∷ [] } ∷ []);
    loaded_addresses = none;
  });
}

abbrev options : ReplayOptions
options = record { program_id = zeros; until = none; page_size = 2; max_signatures = 10 }

-- One page, with one signature.
abbrev one_page : Pages ℕ
one_page before limit =
    ok (record { signature = codes "X"; slot = pos 10; failure = none; block_time = none } ∷ [])

abbrev transactions : Text → Result ℕ (Option RpcTransaction)
transactions signature = ok (some opening)

abbrev opened_here : EscrowEventEnvelope
opened_here = record {
  event = agreement_opened (record {
    agreement = zeros;
    agreement_id = 0;
    creator = zeros;
    counterparty = zeros;
    agreement_type = AgreementType.escrow;
    mint = zeros;
    vault = zeros;
    amount = 0;
    terms_hash = codes "0000000000000000000000000000000000000000000000000000000000000000";
    new_state = opened;
    timestamp = pos 0;
  });
  program_id = zeros;
  transaction_signature = codes "X";
  slot = pos 10;
  instruction_index = pos 0;
  inner_instruction_index = some (pos 0);
  block_time = none;
}

abbrev receipt_here : PpvEscrowReceiptV1
receipt_here = record opened_receipt {
  receipt_id = codes "ppvr_44454e45504f5f544e454d45455247417c307c30";
  program_id = zeros;
  agreement = zeros;
  facts = record (opened_receipt.facts) {
    agreement_id = 0;
    buyer = zeros;
    seller = zeros;
    actor = zeros;
    mint = some zeros;
  };
  inner_instruction_index = some (pos 0);
}

abbrev replayed : ReplayResult
replayed = record {
  agreement = zeros;
  lifecycle = record {
    agreement = zeros;
    agreement_id = 0;
    buyer = zeros;
    seller = zeros;
    mint = some zeros;
    state = opened;
    funded_amount = none;
    settled_amount = none;
    refunded_amount = none;
    settlement_destination = none;
    outcome = ongoing;
    last_slot = pos 10;
    proofs = [];
    milestones = [];
    receipts = receipt_here ∷ [];
  };
  events = opened_here ∷ [];
  transactions_scanned = 1;
  failed_transactions_skipped = 0;
}

extracts : extract_escrow_events backwards zeros authority opening ≡ ok (opened_here ∷ [])
unfolding ppv.Base.Text.hex ppv.Base58.encode_base58 ppv.Base58.decode_base58
    ppv.Escrow.Events.Reader.hex_32 ppv.Escrow.Events.Reader.i64
    ppv.Escrow.Events.Reader.optional_pubkey ppv.Escrow.Events.Reader.state
    ppv.Escrow.Events.Reader.agreement_type ppv.Escrow.Events.Decode.decode_escrow_event_data
    ppv.Escrow.States.agreement_state_from_index ppv.Escrow.States.agreement_type_from_index
    ppv.Indexer.Extraction.account_keys_of ppv.Indexer.Extraction.program_of
    ppv.Indexer.Extraction.first_account ppv.Indexer.Extraction.inner_groups
    ppv.Indexer.Extraction.extract_escrow_events
extracts = refl

replays : replay_agreement backwards by_code_unit one_page transactions zeros options ≡ ok replayed
unfolding ppv.Base.Text.decimal ppv.Base.Text.decimal_ℤ ppv.Base.Text.hex ppv.Base.Text.iso_string
    ppv.Base.Dict.get ppv.Base.Dict.put ppv.Base58.encode_base58 ppv.Base58.decode_base58
    ppv.Curve.is_on_curve ppv.Pdas.create_program_address ppv.Pdas.derive_agreement_addresses
    ppv.Escrow.Events.agreement_of ppv.Escrow.Events.timestamp_of ppv.Escrow.Events.Reader.hex_32
    ppv.Escrow.Events.Reader.i64 ppv.Escrow.Events.Reader.optional_pubkey
    ppv.Escrow.Events.Reader.state ppv.Escrow.Events.Reader.agreement_type
    ppv.Escrow.Events.Decode.decode_escrow_event_data ppv.Escrow.States.agreement_state_from_index
    ppv.Escrow.States.agreement_type_from_index ppv.Escrow.Receipts.escrow_receipt_from_event
    ppv.Escrow.Receipts.Actions.action_of ppv.Escrow.Receipts.Actions.action_text
    ppv.Escrow.Receipts.Actions.action_beq ppv.Escrow.Lifecycle.Chain.index_receipts
    ppv.Escrow.Lifecycle.Chain.delete_all ppv.Escrow.Lifecycle.Chain.chain
    ppv.Escrow.Lifecycle.Placement.sort_annotations ppv.Escrow.Lifecycle.Placement.with_annotations
    ppv.Escrow.Lifecycle.Custody.observe_custody ppv.Escrow.Lifecycle.Custody.check_custody
    ppv.Escrow.Lifecycle.Custody.assigned_seller ppv.Escrow.Lifecycle.Custody.check_schedule
    ppv.Escrow.Lifecycle.Custody.check_cited_proof
    ppv.Escrow.Lifecycle.Reconstruct.reconstruct_agreement_lifecycle
    ppv.Escrow.Lifecycle.Records.proof_records ppv.Escrow.Lifecycle.Records.milestone_records
    ppv.Indexer.Extraction.account_keys_of ppv.Indexer.Extraction.program_of
    ppv.Indexer.Extraction.first_account ppv.Indexer.Extraction.inner_groups
    ppv.Indexer.Extraction.derive_event_authority ppv.Indexer.Extraction.extract_escrow_events
    ppv.Indexer.Replay.replay_agreement ppv.Indexer.Store.add_event
    ppv.Indexer.Store.project_agreement
replays = refl

extract_escrow_events-Emitted_example :
    In opened_here (opened_here ∷ []) ↔ Emitted backwards zeros authority opening opened_here
extract_escrow_events-Emitted_example =
    extract_escrow_events-Emitted backwards zeros authority opening opened_here extracts

signature_history-ne-out_of_fuel_example : signature_history one_page options ≢ err out_of_fuel
signature_history-ne-out_of_fuel_example = signature_history-ne-out_of_fuel one_page options

replay_agreement-Replayed_example :
    Replayed backwards by_code_unit one_page transactions zeros options replayed
replay_agreement-Replayed_example =
    replay_agreement-Replayed backwards by_code_unit one_page transactions zeros options replayed
      replays
