-- ===== src/Accounts/Escrow.antt =====
-- sdk/src/escrow/accounts.ts: the accounts of `ppv_escrow`.
use ppv.Base.{ℕ, list_eq}
use ppv.Base.Result.{Result}
use ppv.Base.Int.{ℤ}
use ppv.Base.Text.{Text, Bytes, codes}
use ppv.Escrow.States.{AgreementState, AgreementType, MilestoneState, ProofStatus, RangeError}
use ppv.Escrow.Events.Reader.{
  Reader, ◌>>=◌, ◌>>◌, pure, pubkey, u8, u32, u64, i64, hex_32, state, agreement_type, proof_status,
  milestone_state, skip, read_all, behind_discriminator,
}
use ppv.Accounts.Discriminators.{account_discriminator}

pub record EscrowAgreementAccount : Type 0 where
  pub schema_version : ℕ
  pub bump : ℕ
  pub vault_authority_bump : ℕ
  pub vault_bump : ℕ
  pub creator : Text
  pub counterparty : Text
  pub agreement_id : ℕ
  pub agreement_type : AgreementType
  pub mint : Text
  pub vault : Text
  pub amount : ℕ
  pub terms_hash : Text
  pub state : AgreementState
  pub created_at : ℤ
  pub funded_at : ℤ
  pub completed_at : ℤ
  pub settled_at : ℤ
  pub proof_count : ℕ
  pub settlement_proof : Text
  pub dispute_opened_by : Text
  pub state_changed_at : ℤ
  pub milestone_count : ℕ
  pub milestones_settled : ℕ
  pub milestone_total : ℕ
  pub settled_total : ℕ

unfoldable pub read_escrow_agreement_account : Reader EscrowAgreementAccount
read_escrow_agreement_account = do
  schema_version ← u8
  bump ← u8
  vault_authority_bump ← u8
  vault_bump ← u8
  creator ← pubkey
  counterparty ← pubkey
  agreement_id ← u64
  agreement_type ← agreement_type
  mint ← pubkey
  vault ← pubkey
  amount ← u64
  terms_hash ← hex_32
  state ← state
  created_at ← i64
  funded_at ← i64
  completed_at ← i64
  settled_at ← i64
  proof_count ← u32
  settlement_proof ← pubkey
  dispute_opened_by ← pubkey
  state_changed_at ← i64
  milestone_count ← u32
  milestones_settled ← u32
  milestone_total ← u64
  settled_total ← u64
  skip 40
  pure (record {
    schema_version = schema_version;
    bump = bump;
    vault_authority_bump = vault_authority_bump;
    vault_bump = vault_bump;
    creator = creator;
    counterparty = counterparty;
    agreement_id = agreement_id;
    agreement_type = agreement_type;
    mint = mint;
    vault = vault;
    amount = amount;
    terms_hash = terms_hash;
    state = state;
    created_at = created_at;
    funded_at = funded_at;
    completed_at = completed_at;
    settled_at = settled_at;
    proof_count = proof_count;
    settlement_proof = settlement_proof;
    dispute_opened_by = dispute_opened_by;
    state_changed_at = state_changed_at;
    milestone_count = milestone_count;
    milestones_settled = milestones_settled;
    milestone_total = milestone_total;
    settled_total = settled_total;
  })

unfoldable pub decode_escrow_agreement_account :
    (Text → Bytes) → Bytes → Result RangeError EscrowAgreementAccount
unfolding account_discriminator read_escrow_agreement_account
decode_escrow_agreement_account sha256 =
    behind_discriminator (account_discriminator sha256 (codes "EscrowAgreement"))
      (read_all read_escrow_agreement_account)

pub record ProofAccount : Type 0 where
  pub schema_version : ℕ
  pub bump : ℕ
  pub agreement : Text
  pub core_proof : Text
  pub submitter : Text
  pub proof_index : ℕ
  pub status : ProofStatus
  pub created_at : ℤ
  pub decided_at : ℤ
  pub decided_by : Text

unfoldable pub read_proof_account : Reader ProofAccount
read_proof_account = do
  schema_version ← u8
  bump ← u8
  agreement ← pubkey
  core_proof ← pubkey
  submitter ← pubkey
  proof_index ← u32
  status ← proof_status
  created_at ← i64
  decided_at ← i64
  decided_by ← pubkey
  skip 32
  pure (record {
    schema_version = schema_version;
    bump = bump;
    agreement = agreement;
    core_proof = core_proof;
    submitter = submitter;
    proof_index = proof_index;
    status = status;
    created_at = created_at;
    decided_at = decided_at;
    decided_by = decided_by;
  })

unfoldable pub decode_proof_account : (Text → Bytes) → Bytes → Result RangeError ProofAccount
unfolding account_discriminator read_proof_account
decode_proof_account sha256 =
    behind_discriminator (account_discriminator sha256 (codes "Proof"))
      (read_all read_proof_account)

pub record MilestoneAccount : Type 0 where
  pub schema_version : ℕ
  pub bump : ℕ
  pub agreement : Text
  pub milestone_index : ℕ
  pub amount : ℕ
  pub terms_hash : Text
  pub state : MilestoneState
  pub proof : Text
  pub created_at : ℤ
  pub submitted_at : ℤ
  pub approved_at : ℤ
  pub settled_at : ℤ

unfoldable pub read_milestone_account : Reader MilestoneAccount
read_milestone_account = do
  schema_version ← u8
  bump ← u8
  agreement ← pubkey
  milestone_index ← u32
  amount ← u64
  terms_hash ← hex_32
  state ← milestone_state
  proof ← pubkey
  created_at ← i64
  submitted_at ← i64
  approved_at ← i64
  settled_at ← i64
  skip 32
  pure (record {
    schema_version = schema_version;
    bump = bump;
    agreement = agreement;
    milestone_index = milestone_index;
    amount = amount;
    terms_hash = terms_hash;
    state = state;
    proof = proof;
    created_at = created_at;
    submitted_at = submitted_at;
    approved_at = approved_at;
    settled_at = settled_at;
  })

unfoldable pub decode_milestone_account :
    (Text → Bytes) → Bytes → Result RangeError MilestoneAccount
unfolding account_discriminator read_milestone_account
decode_milestone_account sha256 =
    behind_discriminator (account_discriminator sha256 (codes "Milestone"))
      (read_all read_milestone_account)
