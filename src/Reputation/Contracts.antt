-- ===== src/Reputation/Contracts.antt =====
-- sdk/src/reputation/contracts.ts: a participant receipt and the test that one is well formed. A
-- receipt here has the types that its fields declare, so the tests that only ask for a type are left
-- out. Date.parse is a parameter: whether it reads a text as a time.
use package.ppv.Base.{◌-◌}
pub mod Events
pub mod References
use ppv.Base.{
  ℕ, Bool, true, false, ◌&&◌, ◌||◌, Option, none, some, List, [], ◌∷◌, ◌++◌, ◌==◌, list_eq, nat_beq,
  leb, ltb, length, every, drop, replicate,
}
use ppv.Base.Text.{Text, codes}
use ppv.Reputation.Seal.{ReputationEventType, PpvSealState}

pub data ReputationOutcome : Type 0 where
  recorded completed rejected cancelled revoked opened : ReputationOutcome
  resolved_for_actor resolved_for_counterparty resolved_split : ReputationOutcome

pub data SourceProduct : Type 0 where
  ppv_itself marketplace daily_ideas dimi gwapos : SourceProduct

pub data ParticipantRole : Type 0 where
  creator buyer seller payer payee collaborator arbiter : ParticipantRole

pub record GnsRecordSnapshotV1 : Type 0 where
  pub schema_version : ℕ
  pub name : Text
  pub full_name : Text
  pub owner : Text
  pub resolved_at : Text

pub record PpvReceiptV1 : Type 0 where
  pub schema_version : ℕ
  pub receipt_id : Text
  pub event_id : Text
  pub ppv_proof_id : Option Text
  pub proof_hash : Option Text
  pub agreement_id : Option Text
  pub holder_wallet : Text
  pub holder_gns_record : Option GnsRecordSnapshotV1
  pub role : ParticipantRole
  pub counterparty_wallets : List Text
  pub counterparty_gns_records : List (Option GnsRecordSnapshotV1)
  pub source_product : Option SourceProduct
  pub source_object_id : Option Text
  pub deliverable_id : Option Text
  pub event_type : ReputationEventType
  pub outcome : ReputationOutcome
  pub amount : Option Text
  pub mint : Option Text
  pub program_id : Text
  pub transaction_signature : Text
  pub instruction_index : ℕ
  pub inner_instruction_index : Option ℕ
  pub completed_at : Text
  pub seal_state : PpvSealState
  pub dispute_open : Bool
  pub mint_eligible : Bool
  pub credential_mint : Option Text

-- A character class of the regular expressions: the code units from one to another.
unfoldable pub in_range : ℕ → ℕ → ℕ → Bool
in_range low high c = leb low c && leb c high

unfoldable pub is_digit : ℕ → Bool
unfolding in_range
is_digit c = in_range 48 57 c

-- `[1-9A-HJ-NP-Za-km-z]`
unfoldable pub is_base58 : ℕ → Bool
unfolding in_range
is_base58 c =
    in_range 49 57 c
    || (in_range 65 72 c
        || (in_range 74 78 c || (in_range 80 90 c || (in_range 97 107 c || in_range 109 122 c))))

-- `[0-9a-f]`
unfoldable pub is_hex : ℕ → Bool
unfolding in_range
is_hex c = in_range 48 57 c || in_range 97 102 c

-- `[a-z0-9]`
unfoldable pub is_label_end : ℕ → Bool
unfolding in_range
is_label_end c = in_range 97 122 c || in_range 48 57 c

-- `[a-z0-9-]`
unfoldable pub is_label_part : ℕ → Bool
unfolding is_label_end
is_label_part c = is_label_end c || nat_beq c 45

-- `^[...]{low,high}$`
unfoldable pub is_run : (ℕ → Bool) → ℕ → ℕ → Text → Bool
is_run class low high t = every class t && (leb low (length t) && leb (length t) high)

-- A text of one code unit for each class.
unfoldable pub follows : List (ℕ → Bool) → Text → Bool
follows [] [] = true
follows [] (c ∷ t) = false
follows (class ∷ classes) [] = false
follows (class ∷ classes) (c ∷ t) = class c && follows classes t

-- `^prefix...` : what is behind the prefix is tested.
unfoldable pub behind : Text → (Text → Bool) → Text → Bool
behind [] test t = test t
behind (p ∷ ps) test [] = false
behind (p ∷ ps) test (c ∷ t) = nat_beq p c && behind ps test t

unfoldable pub is_solana_address : Text → Bool
unfolding is_run is_base58
is_solana_address t = is_run is_base58 32 44 t

unfoldable pub is_transaction_signature : Text → Bool
unfolding is_run is_base58
is_transaction_signature t = is_run is_base58 64 90 t

unfoldable pub is_sha256_hex : Text → Bool
unfolding is_run is_hex
is_sha256_hex t = is_run is_hex 64 64 t

abbrev pub iso_seconds : List (ℕ → Bool)
iso_seconds =
    replicate 4 is_digit
    ++ nat_beq 45
      ∷ (replicate 2 is_digit
          ++ nat_beq 45
            ∷ (replicate 2 is_digit
                ++ nat_beq 84
                  ∷ (replicate 2 is_digit
                      ++ nat_beq 58 ∷ (replicate 2 is_digit ++ nat_beq 58 ∷ replicate 2 is_digit))))

-- With a fraction of so many digits.
abbrev pub iso_fraction : ℕ → List (ℕ → Bool)
iso_fraction digits = iso_seconds ++ nat_beq 46 ∷ (replicate digits is_digit ++ nat_beq 90 ∷ [])

-- `ISO_TIME`
unfoldable pub is_iso_time : Text → Bool
unfolding follows is_digit
is_iso_time t =
    follows (iso_seconds ++ nat_beq 90 ∷ []) t
    || (follows (iso_fraction 1) t || (follows (iso_fraction 2) t || follows (iso_fraction 3) t))

-- `GNS_LABEL`
unfoldable pub is_gns_label : Text → Bool
unfolding is_run is_label_end is_label_part
is_gns_label t =
    is_run is_label_part 1 32 t
    && (every is_label_end (first_of t) && every is_label_end (drop (length t - 1) t))
  where
    first_of : Text → Text
    first_of [] = []
    first_of (c ∷ t) = c ∷ []

unfoldable pub nullable {ℓ} : {A : Type ℓ} → (A → Bool) → Option A → Bool
nullable test none = true
nullable test (some a) = test a

unfoldable pub is_short_text : Text → Bool
is_short_text t = ltb 0 (length t) && leb (length t) 200

-- `^(0|[1-9]\d{0,38})$`
unfoldable pub is_amount : Text → Bool
unfolding is_digit in_range
is_amount [] = false
is_amount (c ∷ t) =
    (t == [] && nat_beq c 48) || (in_range 49 57 c && (every is_digit t && leb (length t) 38))

unfoldable pub is_instruction_index : ℕ → Bool
is_instruction_index n = ltb n 1024

module _ (is_date : Text → Bool) where
  unfoldable pub is_iso_timestamp : Text → Bool
  unfolding is_iso_time
  is_iso_timestamp t = is_iso_time t && is_date t

  unfoldable pub is_gns_record_snapshot : GnsRecordSnapshotV1 → Bool
  unfolding is_gns_label is_solana_address is_iso_timestamp
  is_gns_record_snapshot s =
      nat_beq s.schema_version 1
      && (is_gns_label s.name
          && ((s.full_name == s.name ++ codes ".gwap")
              && (is_solana_address s.owner && is_iso_timestamp s.resolved_at)))

  unfoldable pub snapshot_matches_wallet : Option GnsRecordSnapshotV1 → Text → Bool
  unfolding is_solana_address is_gns_record_snapshot
  snapshot_matches_wallet none wallet = true
  snapshot_matches_wallet (some s) wallet =
      is_solana_address wallet && (is_gns_record_snapshot s && s.owner == wallet)

  -- One snapshot for each wallet, in their order.
  unfoldable pub snapshot_list_matches_wallets :
      List (Option GnsRecordSnapshotV1) → List Text → Bool
  unfolding snapshot_matches_wallet
  snapshot_list_matches_wallets [] [] = true
  snapshot_list_matches_wallets [] (w ∷ ws) = false
  snapshot_list_matches_wallets (s ∷ ss) [] = false
  snapshot_list_matches_wallets (s ∷ ss) (w ∷ ws) =
      snapshot_matches_wallet s w && snapshot_list_matches_wallets ss ws

  unfoldable pub is_ppv_receipt_v1 : PpvReceiptV1 → Bool
  unfolding behind is_run is_hex nullable is_solana_address is_sha256_hex is_gns_record_snapshot
      snapshot_matches_wallet snapshot_list_matches_wallets is_short_text is_amount
      is_transaction_signature is_instruction_index is_iso_timestamp
  is_ppv_receipt_v1 r =
      nat_beq r.schema_version 1
      && (behind (codes "rcpt_") (is_run is_hex 40 40) r.receipt_id
          && (behind (codes "evt_") (is_run is_hex 40 40) r.event_id
              && (nullable is_solana_address r.ppv_proof_id
                  && (nullable is_sha256_hex r.proof_hash
                      && (nullable is_solana_address r.agreement_id
                          && (is_solana_address r.holder_wallet
                              && (nullable is_gns_record_snapshot r.holder_gns_record
                                  && (snapshot_matches_wallet r.holder_gns_record r.holder_wallet
                                      && (every is_solana_address r.counterparty_wallets
                                          && (every (nullable is_gns_record_snapshot)
                                                r.counterparty_gns_records
                                              && (snapshot_list_matches_wallets
                                                    r.counterparty_gns_records
                                                    r.counterparty_wallets
                                                  && (nullable is_short_text r.source_object_id
                                                      && (nullable is_short_text r.deliverable_id
                                                          && (nullable is_amount r.amount
                                                            && (nullable is_solana_address r.mint
                                                            && (is_solana_address r.program_id
                                                            && (is_transaction_signature
                                                            r.transaction_signature
                                                            && (is_instruction_index
                                                            r.instruction_index
                                                            && (nullable is_instruction_index
                                                            r.inner_instruction_index
                                                            && (is_iso_timestamp r.completed_at
                                                            && nullable is_solana_address
                                                            r.credential_mint))))))))))))))))))))
