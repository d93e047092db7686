-- ===== src/Reputation/Contracts/References.antt =====
-- sdk/src/reputation/contracts.ts: the reference of a product's deliverable to a proof, and the test
-- that one is well formed. The tests that only ask for a type are left out.
use ppv.Base.{ℕ, Bool, false, ◌&&◌, ◌||◌, Option, [], ◌∷◌, nat_beq, leb, length, every}
use ppv.Base.Text.{Text}
use ppv.Reputation.Contracts.{
  SourceProduct, GnsRecordSnapshotV1, in_range, is_run, is_label_end, is_label_part, nullable,
  is_solana_address, is_sha256_hex, is_gns_record_snapshot, snapshot_matches_wallet,
  is_iso_timestamp,
}

pub record GwapDeliverableReferenceV1 : Type 0 where
  pub schema_version : ℕ
  pub source_product : SourceProduct
  pub source_object_id : Text
  pub deliverable_id : Text
  pub creator_wallet : Text
  pub creator_gns_record : Option GnsRecordSnapshotV1
  pub ppv_proof_id : Text
  pub proof_hash : Text
  pub created_at : Text
  pub counterparty_wallet : Option Text
  pub deliverable_kind : Text

-- `[A-Za-z0-9:_.-]`
unfoldable pub is_object_part : ℕ → Bool
unfolding is_label_end in_range
is_object_part c =
    is_label_end c
    || (in_range 65 90 c || (nat_beq c 58 || (nat_beq c 95 || (nat_beq c 46 || nat_beq c 45))))

-- `^[a-z][a-z0-9-]{0,39}$`
unfoldable pub is_kind : Text → Bool
unfolding in_range is_label_part
is_kind [] = false
is_kind (c ∷ cs) = in_range 97 122 c && (every is_label_part cs && leb (length cs) 39)

unfoldable pub is_gwap_deliverable_reference_v1 : (Text → Bool) → GwapDeliverableReferenceV1 → Bool
unfolding is_object_part is_kind is_run
is_gwap_deliverable_reference_v1 is_date r =
    nat_beq r.schema_version 1
    && (is_run is_object_part 1 120 r.source_object_id
        && (is_run is_object_part 1 120 r.deliverable_id
            && (is_solana_address r.creator_wallet
                && (nullable (is_gns_record_snapshot is_date) r.creator_gns_record
                    && (snapshot_matches_wallet is_date r.creator_gns_record r.creator_wallet
                        && (is_solana_address r.ppv_proof_id
                            && (is_sha256_hex r.proof_hash
                                && (is_iso_timestamp is_date r.created_at
                                    && (nullable is_solana_address r.counterparty_wallet
                                        && is_kind r.deliverable_kind)))))))))
