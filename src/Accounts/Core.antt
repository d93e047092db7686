-- ===== src/Accounts/Core.antt =====
-- sdk/src/core/accounts.ts: the proof records of `ppv_core`.
use ppv.Base.{ℕ, nat_beq, list_eq, List, [], ◌∷◌, get_elem?, Bool}
use ppv.Base.Result.{Result, or_throw}
use ppv.Base.Int.{ℤ}
use ppv.Base.Text.{Text, Bytes, codes}
use ppv.Escrow.States.{RangeError, unknown_core_kind, unknown_core_status}
use ppv.Escrow.Events.Reader.{
  Reader, ◌>>=◌, ◌>>◌, pure, lift, pubkey, u8, i64, hex_16, hex_32, skip, read_all,
  behind_discriminator,
}
use ppv.Accounts.Discriminators.{account_discriminator}
use ppv.Base.{every, not}

pub data CoreProofKind : Type 0 where
  creation document agreement invoice deliverable other : CoreProofKind

abbrev pub core_proof_kinds : List CoreProofKind
core_proof_kinds = creation ∷ document ∷ agreement ∷ invoice ∷ deliverable ∷ other ∷ []

pub data CoreProofStatus : Type 0 where
  active revoked : CoreProofStatus

abbrev pub core_proof_statuses : List CoreProofStatus
core_proof_statuses = active ∷ revoked ∷ []

unfoldable pub core_proof_kind_from_index : ℕ → Result RangeError CoreProofKind
core_proof_kind_from_index n = or_throw (get_elem? core_proof_kinds n) (unknown_core_kind n)

unfoldable pub core_proof_status_from_index : ℕ → Result RangeError CoreProofStatus
core_proof_status_from_index n = or_throw (get_elem? core_proof_statuses n) (unknown_core_status n)

unfoldable pub core_kind : Reader CoreProofKind
unfolding core_proof_kind_from_index
core_kind = do index ← u8; lift (core_proof_kind_from_index index)

unfoldable pub core_status : Reader CoreProofStatus
unfolding core_proof_status_from_index
core_status = do index ← u8; lift (core_proof_status_from_index index)

pub record CoreProofAccount : Type 0 where
  pub schema_version : ℕ
  pub bump : ℕ
  pub proof_id : Text
  pub authority : Text
  pub content_hash : Text
  pub context_hash : Text
  pub kind : CoreProofKind
  pub status : CoreProofStatus
  pub created_at : ℤ
  pub revoked_at : ℤ

unfoldable pub read_core_proof_account : Reader CoreProofAccount
read_core_proof_account = do
  schema_version ← u8
  bump ← u8
  proof_id ← hex_16
  authority ← pubkey
  content_hash ← hex_32
  context_hash ← hex_32
  kind ← core_kind
  status ← core_status
  created_at ← i64
  revoked_at ← i64
  skip 64
  pure (record {
    schema_version = schema_version;
    bump = bump;
    proof_id = proof_id;
    authority = authority;
    content_hash = content_hash;
    context_hash = context_hash;
    kind = kind;
    status = status;
    created_at = created_at;
    revoked_at = revoked_at;
  })

unfoldable pub decode_core_proof_account :
    (Text → Bytes) → Bytes → Result RangeError CoreProofAccount
unfolding account_discriminator read_core_proof_account
decode_core_proof_account sha256 =
    behind_discriminator (account_discriminator sha256 (codes "ProofRecord"))
      (read_all read_core_proof_account)

-- `!/^0+$/.test(account.contextHash)`: the text of a hash is not empty.
unfoldable pub has_core_context_commitment : CoreProofAccount → Bool
has_core_context_commitment account = not (every (λ c. nat_beq c 48) account.context_hash)
