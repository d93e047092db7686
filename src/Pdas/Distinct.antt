-- ===== src/Pdas/Distinct.antt =====
-- sdk/src/escrow/pdas.ts: the addresses that its derivations return, one against another.
use ppv.Base.{◌≡◌, list_eq, nat_eq}
use ppv.Base.Int.{ℤ, pos}
use ppv.Base.Result.{Result}
use ppv.Base.Text.{Text, Bytes}
use ppv.Base58.{encode_base58}
use ppv.Pdas.{
  PdaError, Derived, derive_agreement, derive_vault_authority, derive_vault, derive_proof,
  derive_milestone,
}
use ppv.Pdas.Preimages.{Origin, agreement, vault_authority, vault, proof, milestone}
use ppv.Pdas.Origins.{Derives}

-- A call of one of the functions that derive an address of `ppv_escrow`, with its arguments.
pub data Derivation : Type 0 where
  agreement_of : Text → ℤ → Derivation
  vault_authority_of : Text → Derivation
  vault_of : Text → Derivation
  proof_of : Text → ℤ → Derivation
  milestone_of : Text → ℤ → Derivation

abbrev pub derive : (Bytes → Bytes) → Text → Derivation → Result PdaError Derived
derive sha256 program_id (agreement_of creator id) = derive_agreement sha256 program_id creator id
derive sha256 program_id (vault_authority_of a) = derive_vault_authority sha256 program_id a
derive sha256 program_id (vault_of a) = derive_vault sha256 program_id a
derive sha256 program_id (proof_of a index) = derive_proof sha256 program_id a index
derive sha256 program_id (milestone_of a index) = derive_milestone sha256 program_id a index

-- Two different texts of bytes with one hash.
pub record Collision (sha256 : Bytes → Bytes) : Type 0 where
  pub left : Bytes
  pub right : Bytes
  pub differ : ¬ (left ≡ right)
  pub same_hash : sha256 left ≡ sha256 right

-- The call that an origin stands for.
abbrev call_of : Origin → Derivation
call_of (agreement key n) = agreement_of (encode_base58 key) (pos n)
call_of (vault_authority key) = vault_authority_of (encode_base58 key)
call_of (vault key) = vault_of (encode_base58 key)
call_of (proof key n) = proof_of (encode_base58 key) (pos n)
call_of (milestone key n) = milestone_of (encode_base58 key) (pos n)

module _ (sha256 : Bytes → Bytes) where
  -- What a derived address comes from.
  record Comes (program_id : Text) (r : Derivation) (d : Derived) : Type 0 where
    origin : Origin
    is_call : r ≡ call_of origin
    derives : Derives sha256 program_id origin d
