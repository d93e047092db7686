-- ===== src/Escrow/Events/Readers/Custody.antt =====
-- sdk/src/escrow/events.ts: the events of an agreement and of its money.
use ppv.Base.Text.{Text}
use ppv.Escrow.Events.{
  AgreementOpened, AgreementFunded, WorkCompleted, SettlementExecuted, AgreementAbandoned,
  DisputeOpened, DisputeResolved, RefundExecuted, CounterpartyAssigned,
}
use ppv.Escrow.Events.Reader.{
  Reader, pure, ◌>>=◌, pubkey, u64, i64, state, agreement_type, dispute_outcome, optional_pubkey,
  hex_32,
}

unfoldable pub read_agreement_opened : Reader (AgreementOpened Text Text)
read_agreement_opened = do
  agreement ← pubkey
  agreement_id ← u64
  creator ← pubkey
  counterparty ← pubkey
  agreement_type ← agreement_type
  mint ← pubkey
  vault ← pubkey
  amount ← u64
  terms_hash ← hex_32
  new_state ← state
  timestamp ← i64
  pure (record {
    agreement = agreement;
    agreement_id = agreement_id;
    creator = creator;
    counterparty = counterparty;
    agreement_type = agreement_type;
    mint = mint;
    vault = vault;
    amount = amount;
    terms_hash = terms_hash;
    new_state = new_state;
    timestamp = timestamp;
  })

unfoldable pub read_agreement_funded : Reader (AgreementFunded Text Text)
read_agreement_funded = do
  agreement ← pubkey
  creator ← pubkey
  counterparty ← pubkey
  amount ← u64
  mint ← pubkey
  vault ← pubkey
  previous_state ← state
  new_state ← state
  timestamp ← i64
  pure (record {
    agreement = agreement;
    creator = creator;
    counterparty = counterparty;
    amount = amount;
    mint = mint;
    vault = vault;
    previous_state = previous_state;
    new_state = new_state;
    timestamp = timestamp;
  })

unfoldable pub read_work_completed : Reader (WorkCompleted Text Text)
read_work_completed = do
  agreement ← pubkey
  creator ← pubkey
  counterparty ← pubkey
  actor ← pubkey
  previous_state ← state
  new_state ← state
  timestamp ← i64
  pure (record {
    agreement = agreement;
    creator = creator;
    counterparty = counterparty;
    actor = actor;
    previous_state = previous_state;
    new_state = new_state;
    timestamp = timestamp;
  })

unfoldable pub read_settlement_executed : Reader (SettlementExecuted Text Text)
read_settlement_executed = do
  agreement ← pubkey
  buyer ← pubkey
  seller ← pubkey
  amount ← u64
  mint ← pubkey
  destination ← pubkey
  proof ← optional_pubkey
  previous_state ← state
  new_state ← state
  timestamp ← i64
  pure (record {
    agreement = agreement;
    buyer = buyer;
    seller = seller;
    amount = amount;
    mint = mint;
    destination = destination;
    proof = proof;
    previous_state = previous_state;
    new_state = new_state;
    timestamp = timestamp;
  })

unfoldable pub read_agreement_abandoned : Reader (AgreementAbandoned Text Text)
read_agreement_abandoned = do
  agreement ← pubkey
  creator ← pubkey
  counterparty ← pubkey
  cancelled_by ← pubkey
  previous_state ← state
  new_state ← state
  timestamp ← i64
  pure (record {
    agreement = agreement;
    creator = creator;
    counterparty = counterparty;
    cancelled_by = cancelled_by;
    previous_state = previous_state;
    new_state = new_state;
    timestamp = timestamp;
  })

unfoldable pub read_dispute_opened : Reader (DisputeOpened Text Text)
read_dispute_opened = do
  agreement ← pubkey
  creator ← pubkey
  counterparty ← pubkey
  opened_by ← pubkey
  reason_hash ← hex_32
  previous_state ← state
  new_state ← state
  timestamp ← i64
  pure (record {
    agreement = agreement;
    creator = creator;
    counterparty = counterparty;
    opened_by = opened_by;
    reason_hash = reason_hash;
    previous_state = previous_state;
    new_state = new_state;
    timestamp = timestamp;
  })

unfoldable pub read_dispute_resolved : Reader (DisputeResolved Text Text)
read_dispute_resolved = do
  agreement ← pubkey
  creator ← pubkey
  counterparty ← pubkey
  resolved_by ← pubkey
  beneficiary ← pubkey
  outcome ← dispute_outcome
  opened_by ← pubkey
  resulting_state ← state
  timestamp ← i64
  pure (record {
    agreement = agreement;
    creator = creator;
    counterparty = counterparty;
    resolved_by = resolved_by;
    beneficiary = beneficiary;
    outcome = outcome;
    opened_by = opened_by;
    resulting_state = resulting_state;
    timestamp = timestamp;
  })

unfoldable pub read_refund_executed : Reader (RefundExecuted Text Text)
read_refund_executed = do
  agreement ← pubkey
  buyer ← pubkey
  seller ← pubkey
  refunded_by ← pubkey
  amount ← u64
  mint ← pubkey
  destination ← pubkey
  previous_state ← state
  new_state ← state
  timestamp ← i64
  pure (record {
    agreement = agreement;
    buyer = buyer;
    seller = seller;
    refunded_by = refunded_by;
    amount = amount;
    mint = mint;
    destination = destination;
    previous_state = previous_state;
    new_state = new_state;
    timestamp = timestamp;
  })

unfoldable pub read_counterparty_assigned : Reader (CounterpartyAssigned Text Text)
read_counterparty_assigned = do
  agreement ← pubkey
  creator ← pubkey
  counterparty ← pubkey
  agreement_state ← state
  timestamp ← i64
  pure (record {
    agreement = agreement;
    creator = creator;
    counterparty = counterparty;
    agreement_state = agreement_state;
    timestamp = timestamp;
  })
