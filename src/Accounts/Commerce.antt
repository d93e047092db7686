-- ===== src/Accounts/Commerce.antt =====
-- sdk/src/commerce/accounts.ts: the negotiated agreement of `ppv_commerce`.
use ppv.Base.{ℕ, Option, none, some, nat_beq, if◌then◌else◌, list_eq, List, [], ◌∷◌, get_elem?}
use ppv.Base.Result.{Result, err, or_throw}
use ppv.Base.Int.{ℤ}
use ppv.Base.Text.{Text, Bytes, codes}
use ppv.Escrow.States.{RangeError, invalid_option_tag, unknown_commerce_state}
use ppv.Escrow.Events.Reader.{
  Reader, ◌>>=◌, ◌>>◌, pure, lift, pubkey, u8, u32, i64, hex_16, hex_32, state, skip,
  read_into_space, behind_discriminator,
}
use ppv.Accounts.Discriminators.{account_discriminator}

pub data CommerceAgreementState : Type 0 where
  pending executed cancelled : CommerceAgreementState

abbrev pub commerce_agreement_states : List CommerceAgreementState
commerce_agreement_states = pending ∷ executed ∷ cancelled ∷ []

unfoldable pub commerce_state_from_index : ℕ → Result RangeError CommerceAgreementState
commerce_state_from_index n =
    or_throw (get_elem? commerce_agreement_states n) (unknown_commerce_state n)

pub record CommerceSignature : Type 0 where
  pub signer : Text
  pub version_signed : ℕ
  pub content_hash_signed : Text
  pub terms_hash_signed : Text
  pub signed_at : ℤ

unfoldable pub read_signed : Reader CommerceSignature
read_signed = do
  signer ← pubkey
  version_signed ← u32
  content_hash_signed ← hex_32
  terms_hash_signed ← hex_32
  signed_at ← i64
  pure (record {
    signer = signer;
    version_signed = version_signed;
    content_hash_signed = content_hash_signed;
    terms_hash_signed = terms_hash_signed;
    signed_at = signed_at;
  })

unfoldable pub read_signature : Reader (Option CommerceSignature)
unfolding read_signed
read_signature = do
  tag ← u8
  if nat_beq tag 0
      then pure none
      else if nat_beq tag 1
      then (do signature ← read_signed; pure (some signature))
      else lift (err invalid_option_tag)

unfoldable pub commerce_state : Reader CommerceAgreementState
unfolding commerce_state_from_index
commerce_state = do index ← u8; lift (commerce_state_from_index index)

pub record CommerceAgreementAccount : Type 0 where
  pub schema_version : ℕ
  pub bump : ℕ
  pub agreement_id : Text
  pub party_a : Text
  pub party_b : Text
  pub version : ℕ
  pub content_hash : Text
  pub terms_hash : Text
  pub signature_a : Option CommerceSignature
  pub signature_b : Option CommerceSignature
  pub state : CommerceAgreementState
  pub created_at : ℤ
  pub expires_at : ℤ
  pub executed_at : ℤ
  pub cancelled_at : ℤ

unfoldable pub read_commerce_agreement_account : Reader CommerceAgreementAccount
read_commerce_agreement_account = do
  schema_version ← u8
  bump ← u8
  agreement_id ← hex_16
  party_a ← pubkey
  party_b ← pubkey
  version ← u32
  content_hash ← hex_32
  terms_hash ← hex_32
  signature_a ← read_signature
  signature_b ← read_signature
  state ← commerce_state
  created_at ← i64
  expires_at ← i64
  executed_at ← i64
  cancelled_at ← i64
  skip 64
  pure (record {
    schema_version = schema_version;
    bump = bump;
    agreement_id = agreement_id;
    party_a = party_a;
    party_b = party_b;
    version = version;
    content_hash = content_hash;
    terms_hash = terms_hash;
    signature_a = signature_a;
    signature_b = signature_b;
    state = state;
    created_at = created_at;
    expires_at = expires_at;
    executed_at = executed_at;
    cancelled_at = cancelled_at;
  })

unfoldable pub decode_commerce_agreement_account :
    (Text → Bytes) → Bytes → Result RangeError CommerceAgreementAccount
unfolding account_discriminator read_commerce_agreement_account
decode_commerce_agreement_account sha256 =
    behind_discriminator (account_discriminator sha256 (codes "Agreement"))
      (read_into_space read_commerce_agreement_account)
