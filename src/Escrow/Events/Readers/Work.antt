-- ===== src/Escrow/Events/Readers/Work.antt =====
-- sdk/src/escrow/events.ts: the events of proofs and milestones.
use ppv.Base.Text.{Text}
use ppv.Escrow.Events.{
  ProofSubmitted, ProofDecision, MilestoneCreated, MilestoneTransition, MilestoneSettled,
}
use ppv.Escrow.Events.Reader.{
  Reader, pure, ◌>>=◌, pubkey, u64, u32, i64, state, milestone_state, optional_pubkey, hex_32,
}

unfoldable pub read_proof_submitted : Reader (ProofSubmitted Text Text)
read_proof_submitted = do
  agreement ← pubkey
  proof ← pubkey
  core_proof ← pubkey
  creator ← pubkey
  counterparty ← pubkey
  submitter ← pubkey
  proof_index ← u32
  content_hash ← hex_32
  metadata_hash ← hex_32
  agreement_state ← state
  timestamp ← i64
  pure (record {
    agreement = agreement;
    proof = proof;
    core_proof = core_proof;
    creator = creator;
    counterparty = counterparty;
    submitter = submitter;
    proof_index = proof_index;
    content_hash = content_hash;
    metadata_hash = metadata_hash;
    agreement_state = agreement_state;
    timestamp = timestamp;
  })

unfoldable pub read_proof_decision : Reader (ProofDecision Text Text)
read_proof_decision = do
  agreement ← pubkey
  proof ← pubkey
  core_proof ← pubkey
  creator ← pubkey
  counterparty ← pubkey
  submitter ← pubkey
  decided_by ← pubkey
  proof_index ← u32
  agreement_state ← state
  timestamp ← i64
  pure (record {
    agreement = agreement;
    proof = proof;
    core_proof = core_proof;
    creator = creator;
    counterparty = counterparty;
    submitter = submitter;
    decided_by = decided_by;
    proof_index = proof_index;
    agreement_state = agreement_state;
    timestamp = timestamp;
  })

unfoldable pub read_milestone_created : Reader (MilestoneCreated Text Text)
read_milestone_created = do
  agreement ← pubkey
  milestone ← pubkey
  creator ← pubkey
  counterparty ← pubkey
  milestone_index ← u32
  amount ← u64
  terms_hash ← hex_32
  agreement_state ← state
  timestamp ← i64
  pure (record {
    agreement = agreement;
    milestone = milestone;
    creator = creator;
    counterparty = counterparty;
    milestone_index = milestone_index;
    amount = amount;
    terms_hash = terms_hash;
    agreement_state = agreement_state;
    timestamp = timestamp;
  })

unfoldable pub read_milestone_transition : Reader (MilestoneTransition Text Text)
read_milestone_transition = do
  agreement ← pubkey
  milestone ← pubkey
  creator ← pubkey
  counterparty ← pubkey
  milestone_index ← u32
  previous_state ← milestone_state
  new_state ← milestone_state
  agreement_state ← state
  timestamp ← i64
  pure (record {
    agreement = agreement;
    milestone = milestone;
    creator = creator;
    counterparty = counterparty;
    milestone_index = milestone_index;
    previous_state = previous_state;
    new_state = new_state;
    agreement_state = agreement_state;
    timestamp = timestamp;
  })

unfoldable pub read_milestone_settled : Reader (MilestoneSettled Text Text)
read_milestone_settled = do
  agreement ← pubkey
  milestone ← pubkey
  creator ← pubkey
  counterparty ← pubkey
  milestone_index ← u32
  amount ← u64
  destination ← pubkey
  proof ← optional_pubkey
  previous_state ← milestone_state
  new_state ← milestone_state
  agreement_state ← state
  timestamp ← i64
  pure (record {
    agreement = agreement;
    milestone = milestone;
    creator = creator;
    counterparty = counterparty;
    milestone_index = milestone_index;
    amount = amount;
    destination = destination;
    proof = proof;
    previous_state = previous_state;
    new_state = new_state;
    agreement_state = agreement_state;
    timestamp = timestamp;
  })
