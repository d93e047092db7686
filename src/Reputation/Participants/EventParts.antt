-- ===== src/Reputation/Participants/EventParts.antt =====
-- sdk/src/reputation/contracts.ts `isReputationEventV1`: what a well-formed event has.
use ppv.Base.{◌≡◌, Bool, true, Option, list_eq, and_true}
use ppv.Base.Text.{Text, codes}
use ppv.Reputation.Contracts.{
  GnsRecordSnapshotV1, behind, is_run, is_hex, is_instruction_index, nullable, is_solana_address,
  is_gns_record_snapshot, snapshot_matches_wallet, is_iso_timestamp, is_sha256_hex, is_short_text,
  is_amount, is_transaction_signature, is_instruction_index,
}
use ppv.Reputation.Contracts.Events.{
  ReputationEventV1, snapshot_matches_nullable, is_reputation_event_v1,
}

-- A wallet's address and, where there is one, a snapshot of the wallet itself.
pub record IsNamed (is_date : Text → Bool) (wallet : Text) (snapshot : Option GnsRecordSnapshotV1)
    : Type 0 where
  pub address : is_solana_address wallet ≡ true
  pub snapshot_valid : nullable (is_gns_record_snapshot is_date) snapshot ≡ true
  pub snapshot_matches : snapshot_matches_wallet is_date snapshot wallet ≡ true

module _ (is_date : Text → Bool) where
  -- What a well-formed event has of what its receipts are tested for.
  pub record EventParts (e : ReputationEventV1) : Type 0 where
    pub event_id : behind (codes "evt_") (is_run is_hex 40 40) e.event_id ≡ true
    pub time : is_iso_timestamp is_date e.occurred_at ≡ true
    pub actor : IsNamed is_date e.actor_wallet e.actor_gns_record
    pub counterparty : nullable is_solana_address e.counterparty_wallet ≡ true
    pub counterparty_snapshot :
        nullable (is_gns_record_snapshot is_date) e.counterparty_gns_record ≡ true
    pub counterparty_matches :
        snapshot_matches_nullable is_date e.counterparty_gns_record e.counterparty_wallet ≡ true
    pub proof : nullable is_solana_address e.ppv_proof_id ≡ true
    pub proof_hash : nullable is_sha256_hex e.proof_hash ≡ true
    pub agreement : nullable is_solana_address e.agreement_id ≡ true
    pub object : nullable is_short_text e.source_object_id ≡ true
    pub deliverable : nullable is_short_text e.deliverable_id ≡ true
    pub amount : nullable is_amount e.amount ≡ true
    pub mint : nullable is_solana_address e.mint ≡ true
    pub program : is_solana_address e.program_id ≡ true
    pub signature : is_transaction_signature e.transaction_signature ≡ true
    pub index : is_instruction_index e.instruction_index ≡ true
    pub inner_index : nullable is_instruction_index e.inner_instruction_index ≡ true

  pub event_parts : (e : ReputationEventV1) → is_reputation_event_v1 is_date e ≡ true → EventParts e
  unfolding is_reputation_event_v1
  event_parts e h =
      let (_, h1) = and_true _ _ h in
      let (id, h2) = and_true _ _ h1 in
      let (time, h3) = and_true _ _ h2 in
      let (actor, h4) = and_true _ _ h3 in
      let (actor_snapshot, h5) = and_true _ _ h4 in
      let (actor_matches, h6) = and_true _ _ h5 in
      let (other, h7) = and_true _ _ h6 in
      let (other_snapshot, h8) = and_true _ _ h7 in
      let (other_matches, h9) = and_true _ _ h8 in
      let (proof, h10) = and_true _ _ h9 in
      let (proof_hash, h11) = and_true _ _ h10 in
      let (agreement, h12) = and_true _ _ h11 in
      let (_, h13) = and_true _ _ h12 in
      let (object, h14) = and_true _ _ h13 in
      let (deliverable, h15) = and_true _ _ h14 in
      let (amount, h16) = and_true _ _ h15 in
      let (mint, h17) = and_true _ _ h16 in
      let (program, h18) = and_true _ _ h17 in
      let (signature, h19) = and_true _ _ h18 in
      let (index, inner_index) = and_true _ _ h19 in
      record {
        event_id = id;
        time = time;
        actor = record {
          address = actor;
          snapshot_valid = actor_snapshot;
          snapshot_matches = actor_matches;
        };
        counterparty = other;
        counterparty_snapshot = other_snapshot;
        counterparty_matches = other_matches;
        proof = proof;
        proof_hash = proof_hash;
        agreement = agreement;
        object = object;
        deliverable = deliverable;
        amount = amount;
        mint = mint;
        program = program;
        signature = signature;
        index = index;
        inner_index = inner_index;
      }
