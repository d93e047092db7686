-- ===== src/Reputation/Eligibility/Metadata.antt =====
-- sdk/src/reputation/eligibility.ts: the public metadata of a credential, and the test that an
-- object has no key that is not public. Of an object the test only reads the keys.
use ppv.Base.{not, Option, none, some, List, [], ◌∷◌, ◌++◌, ◌==◌, list_eq, any, if◌then◌else◌, ℕ}
use ppv.Base.Result.{Result, ok, err, ◌>>=◌}
use ppv.Base.Text.{Text, codes}
use ppv.Base.Search.{starts_with}
use ppv.Reputation.Seal.{ReputationEventType, PpvSealState}
use ppv.Reputation.Contracts.{PpvReceiptV1, GnsRecordSnapshotV1, SourceProduct, ParticipantRole}

pub record PpvCredentialMetadataV1 : Type 0 where
  pub schema_version : ℕ
  pub name : Text
  pub symbol : Text
  pub description : Text
  pub ppv_proof_id : Option Text
  pub receipt_id : Text
  pub holder_wallet : Text
  pub holder_gns_record : Option GnsRecordSnapshotV1
  pub role : ParticipantRole
  pub source_product : Option SourceProduct
  pub event_type : ReputationEventType
  pub completion_date : Text
  pub seal_state : PpvSealState
  pub verification_uri : Text

pub data MetadataError : Type 0 where
  not_https : MetadataError
  key_not_public : Text → MetadataError
  gns_key_not_public : Text → MetadataError

abbrev pub public_metadata_keys : List Text
public_metadata_keys =
    codes "schemaVersion"
    ∷ codes "name"
    ∷ codes "symbol"
    ∷ codes "description"
    ∷ codes "ppv_proof_id"
    ∷ codes "receipt_id"
    ∷ codes "holder_wallet"
    ∷ codes "holder_gns_record"
    ∷ codes "role"
    ∷ codes "source_product"
    ∷ codes "event_type"
    ∷ codes "completion_date"
    ∷ codes "seal_state"
    ∷ codes "verification_uri"
    ∷ []

abbrev pub gns_record_keys : List Text
gns_record_keys =
    codes "schemaVersion"
    ∷ codes "name"
    ∷ codes "fullName"
    ∷ codes "owner"
    ∷ codes "resolvedAt"
    ∷ []

-- The first key outside the list.
unfoldable pub first_outside : List Text → List Text → Option Text
first_outside allowed [] = none
first_outside allowed (k ∷ ks) =
    let rest = first_outside allowed ks in if any (λ a. a == k) allowed then rest else some k

abbrev or_refuse : (Text → MetadataError) → Option Text → Result MetadataError (Unit {0})
or_refuse refusal none = ok tt
or_refuse refusal (some key) = err (refusal key)

-- The keys of an object, and those of what it has under `holder_gns_record` where that is an object.
unfoldable pub assert_public_credential_metadata :
    List Text → Option (List Text) → Result MetadataError (Unit {0})
unfolding first_outside
assert_public_credential_metadata keys none =
    or_refuse key_not_public (first_outside public_metadata_keys keys)
assert_public_credential_metadata keys (some nested) =
    or_refuse key_not_public (first_outside public_metadata_keys keys) >>= λ _.
    or_refuse gns_key_not_public (first_outside gns_record_keys nested)

unfoldable pub event_type_text : ReputationEventType → Text
event_type_text ReputationEventType.proof_created = codes "proof.created"
event_type_text ReputationEventType.proof_revoked = codes "proof.revoked"
event_type_text ReputationEventType.proof_submitted = codes "proof.submitted"
event_type_text ReputationEventType.agreement_created = codes "agreement.created"
event_type_text ReputationEventType.agreement_revised = codes "agreement.revised"
event_type_text ReputationEventType.agreement_signed = codes "agreement.signed"
event_type_text ReputationEventType.agreement_executed = codes "agreement.executed"
event_type_text ReputationEventType.agreement_cancelled = codes "agreement.cancelled"
event_type_text ReputationEventType.escrow_funded = codes "escrow.funded"
event_type_text ReputationEventType.milestone_created = codes "milestone.created"
event_type_text ReputationEventType.milestone_delivered = codes "milestone.delivered"
event_type_text ReputationEventType.milestone_approved = codes "milestone.approved"
event_type_text ReputationEventType.milestone_rejected = codes "milestone.rejected"
event_type_text ReputationEventType.invoice_paid = codes "invoice.paid"
event_type_text ReputationEventType.dispute_opened = codes "dispute.opened"
event_type_text ReputationEventType.dispute_resolved = codes "dispute.resolved"
event_type_text ReputationEventType.settlement_completed = codes "settlement.completed"
event_type_text ReputationEventType.work_completed = codes "work.completed"
event_type_text ReputationEventType.milestone_settled = codes "milestone.settled"
event_type_text ReputationEventType.agreement_refunded = codes "agreement.refunded"
event_type_text ReputationEventType.proof_approved = codes "proof.approved"
event_type_text ReputationEventType.proof_rejected = codes "proof.rejected"

abbrev credential_description : Text
credential_description =
    codes
      "This credential corresponds to a verifiable PPV protocol record. It does not certify quality, ownership, honesty, or future behaviour."

-- `nested` are the keys of the receipt's snapshot, where it has one; 183 is the dot of the name.
unfoldable pub build_credential_metadata :
    PpvReceiptV1
    → PpvSealState
    → Option (List Text)
    → Text
    → Result MetadataError PpvCredentialMetadataV1
unfolding assert_public_credential_metadata event_type_text
build_credential_metadata receipt seal nested verification_uri =
    if not (starts_with (codes "https://") verification_uri)
    then err not_https
    else (assert_public_credential_metadata public_metadata_keys nested >>= λ _. ok (record {
      schema_version = 1;
      name = codes "PPV Receipt " ++ 183 ∷ 32 ∷ event_type_text receipt.event_type;
      symbol = codes "PPV";
      description = credential_description;
      ppv_proof_id = receipt.ppv_proof_id;
      receipt_id = receipt.receipt_id;
      holder_wallet = receipt.holder_wallet;
      holder_gns_record = receipt.holder_gns_record;
      role = receipt.role;
      source_product = receipt.source_product;
      event_type = receipt.event_type;
      completion_date = receipt.completed_at;
      seal_state = seal;
      verification_uri = verification_uri;
    }))
