-- ===== src/Reputation/Contracts/Events.antt =====
-- sdk/src/reputation/contracts.ts: a reputation event and the test that one is well formed. The
-- tests that only ask for a type are left out.
use ppv.Base.{ℕ, Bool, true, false, ◌&&◌, Option, none, some, nat_beq}
use ppv.Base.Text.{Text, codes}
use ppv.Reputation.Seal.{ReputationEventType}
use ppv.Reputation.Contracts.{
  ReputationOutcome, SourceProduct, GnsRecordSnapshotV1, behind, is_run, is_hex, nullable,
  is_solana_address, is_sha256_hex, is_gns_record_snapshot, snapshot_matches_wallet, is_short_text,
  is_amount, is_transaction_signature, is_instruction_index, is_iso_timestamp,
}

pub data ReputationEventSource : Type 0 where
  chain product : ReputationEventSource

pub record ReputationEventV1 : Type 0 where
  pub schema_version : ℕ
  pub event_id : Text
  pub event_type : ReputationEventType
  pub occurred_at : Text
  pub event_source : ReputationEventSource
  pub actor_wallet : Text
  pub actor_gns_record : Option GnsRecordSnapshotV1
  pub counterparty_wallet : Option Text
  pub counterparty_gns_record : Option GnsRecordSnapshotV1
  pub ppv_proof_id : Option Text
  pub proof_hash : Option Text
  pub agreement_id : Option Text
  pub escrow_id : Option Text
  pub milestone_index : Option ℕ
  pub source_product : Option SourceProduct
  pub source_object_id : Option Text
  pub deliverable_id : Option Text
  pub amount : Option Text
  pub mint : Option Text
  pub outcome : ReputationOutcome
  pub program_id : Text
  pub transaction_signature : Text
  pub instruction_index : ℕ
  pub inner_instruction_index : Option ℕ

-- A snapshot where there may be no wallet: one of a wallet that is missing does not match.
unfoldable pub snapshot_matches_nullable :
    (Text → Bool) → Option GnsRecordSnapshotV1 → Option Text → Bool
unfolding snapshot_matches_wallet
snapshot_matches_nullable is_date none wallet = true
snapshot_matches_nullable is_date (some s) none = false
snapshot_matches_nullable is_date (some s) (some wallet) =
    snapshot_matches_wallet is_date (some s) wallet

unfoldable pub is_reputation_event_v1 : (Text → Bool) → ReputationEventV1 → Bool
unfolding behind nullable snapshot_matches_nullable
is_reputation_event_v1 is_date e =
    nat_beq e.schema_version 1
    && (behind (codes "evt_") (is_run is_hex 40 40) e.event_id
        && (is_iso_timestamp is_date e.occurred_at
            && (is_solana_address e.actor_wallet
                && (nullable (is_gns_record_snapshot is_date) e.actor_gns_record
                    && (snapshot_matches_wallet is_date e.actor_gns_record e.actor_wallet
                        && (nullable is_solana_address e.counterparty_wallet
                            && (nullable (is_gns_record_snapshot is_date) e.counterparty_gns_record
                                && (snapshot_matches_nullable is_date e.counterparty_gns_record
                                      e.counterparty_wallet
                                    && (nullable is_solana_address e.ppv_proof_id
                                        && (nullable is_sha256_hex e.proof_hash
                                            && (nullable is_solana_address e.agreement_id
                                                && (nullable is_solana_address e.escrow_id
                                                    && (nullable is_short_text e.source_object_id
                                                        && (nullable is_short_text e.deliverable_id
                                                            && (nullable is_amount e.amount
                                                            && (nullable is_solana_address e.mint
                                                            && (is_solana_address e.program_id
                                                            && (is_transaction_signature
                                                            e.transaction_signature
                                                            && (is_instruction_index
                                                            e.instruction_index
                                                            && nullable is_instruction_index
                                                            e.inner_instruction_index)))))))))))))))))))
