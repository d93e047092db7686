-- ===== src/Reputation/Eligibility.antt =====
-- sdk/src/reputation/eligibility.ts: whether a credential may be minted for a receipt. A value that
-- does not have the types of a receipt's fields is none. SHA-256 and Date.parse are parameters.
pub mod Laws
pub mod Metadata
mod Tests
use ppv.Base.{
  ℕ, Bool, true, false, not, ◌&&◌, ◌||◌, Option, none, some, List, [], ◌∷◌, ◌++◌, ◌==◌, list_eq,
  nat_beq, take_front, select, if◌then◌else◌,
}
use ppv.Base.Text.{Text, Bytes, codes, hex}
use ppv.Reputation.Seal.{SealFacts, PpvSealState, resolve_seal_state}
use ppv.Reputation.Contracts.{
  PpvReceiptV1, ParticipantRole, is_ppv_receipt_v1, creator, buyer, seller, payer, payee,
  collaborator, arbiter,
}

pub data CredentialRejection : Type 0 where
  proof_missing proof_revoked proof_not_verified receipt_invalid : CredentialRejection
  wrong_holder dispute_active not_settled already_minted : CredentialRejection

pub record ProofChainState : Type 0 where
  pub exists : Bool
  pub revoked : Bool
  pub authority : Option Text
  pub content_hash : Option Text

pub data CredentialEligibility : Type 0 where
  eligible : PpvReceiptV1 → PpvSealState → CredentialEligibility
  refused : List CredentialRejection → CredentialEligibility

unfoldable pub role_text : ParticipantRole → Text
role_text creator = codes "creator"
role_text buyer = codes "buyer"
role_text seller = codes "seller"
role_text payer = codes "payer"
role_text payee = codes "payee"
role_text collaborator = codes "collaborator"
role_text arbiter = codes "arbiter"

-- The position in `CREDENTIAL_REJECTIONS`.
abbrev pub rejection_index : CredentialRejection → ℕ
rejection_index proof_missing = 0
rejection_index CredentialRejection.proof_revoked = 1
rejection_index proof_not_verified = 2
rejection_index receipt_invalid = 3
rejection_index wrong_holder = 4
rejection_index dispute_active = 5
rejection_index not_settled = 6
rejection_index already_minted = 7

-- `[...new Set(reasons)]`: the first of each.
unfoldable pub distinct : List CredentialRejection → List CredentialRejection
distinct [] = []
distinct (x ∷ xs) =
    x ∷ select (λ y. not (nat_beq (rejection_index x) (rejection_index y))) (distinct xs)

-- `if (wrong) reasons.push(reason)`
unfoldable pub rejection_if : Bool → CredentialRejection → List CredentialRejection
rejection_if wrong r = if wrong then r ∷ [] else []

-- A text in a condition: null and the empty text are false.
unfoldable pub is_given : Option Text → Bool
is_given none = false
is_given (some []) = false
is_given (some (c ∷ t)) = true

-- `a && b && a !== b`
unfoldable pub hashes_differ : Option Text → Option Text → Bool
unfolding is_given
hashes_differ none b = false
hashes_differ (some a) none = false
hashes_differ (some a) (some b) = is_given (some a) && (is_given (some b) && not (a == b))

unfoldable pub is_final_seal : PpvSealState → Bool
is_final_seal PpvSealState.settled = true
is_final_seal PpvSealState.dispute_resolved = true
is_final_seal _ = false

-- What is said of the proof: that it is missing, or what is wrong with it.
unfoldable pub proof_rejections :
    PpvReceiptV1 → ProofChainState → SealFacts → List CredentialRejection
unfolding rejection_if is_given hashes_differ
proof_rejections receipt proof facts =
    if not (is_given receipt.ppv_proof_id) || not proof.exists
    then proof_missing ∷ []
    else (rejection_if (proof.revoked || facts.proof_revoked) CredentialRejection.proof_revoked
        ++ (rejection_if (hashes_differ receipt.proof_hash proof.content_hash) receipt_invalid
            ++ rejection_if (not facts.chain_verified) proof_not_verified))

unfoldable pub decide :
    PpvReceiptV1 → PpvSealState → List CredentialRejection → CredentialEligibility
unfolding distinct
decide receipt seal [] = eligible receipt seal
decide receipt seal (r ∷ rs) = refused (distinct (r ∷ rs))

module _ (sha256 : Text → Bytes) where
  -- `receiptId` of hashing.ts.
  unfoldable pub receipt_id : Text → Text → ParticipantRole → Text
  unfolding role_text
  receipt_id event_id holder role =
      codes "rcpt_"
      ++ take_front 40 (
          hex (
            sha256
              (codes "ppv-receipt:v1|" ++ (event_id ++ 124 ∷ (holder ++ 124 ∷ role_text role)))))

  unfoldable pub rejections :
      PpvReceiptV1 → Text → ProofChainState → SealFacts → List CredentialRejection
  unfolding rejection_if is_given is_final_seal proof_rejections receipt_id
  rejections receipt requested_by proof facts =
      rejection_if
        (not (receipt_id receipt.event_id receipt.holder_wallet receipt.role == receipt.receipt_id))
        receipt_invalid
      ++ (rejection_if (not (receipt.holder_wallet == requested_by)) wrong_holder
          ++ (rejection_if (is_given receipt.credential_mint) already_minted
              ++ (proof_rejections receipt proof facts
                  ++ (rejection_if facts.dispute_open dispute_active
                      ++ rejection_if (not (is_final_seal (resolve_seal_state facts)))
                          not_settled))))

  unfoldable pub evaluate_credential_eligibility :
      (Text → Bool)
      → Option PpvReceiptV1
      → Text
      → ProofChainState
      → SealFacts
      → CredentialEligibility
  unfolding rejections decide
  evaluate_credential_eligibility is_date none requested_by proof facts =
      refused (receipt_invalid ∷ [])
  evaluate_credential_eligibility is_date (some receipt) requested_by proof facts =
      if not (is_ppv_receipt_v1 is_date receipt)
      then refused (receipt_invalid ∷ [])
      else decide receipt (resolve_seal_state facts) (rejections receipt requested_by proof facts)
