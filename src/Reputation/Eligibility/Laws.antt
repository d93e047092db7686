-- ===== src/Reputation/Eligibility/Laws.antt =====
-- sdk/src/reputation/eligibility.ts: when a receipt is eligible for a credential.
use ppv.Base.{
  ◌≡◌, ◌↔◌, ◌⊎◌, inl, inr, refl, arith, Bool, true, false, not, ◌||◌, some, List, [], ◌∷◌, ◌++◌,
  list_eq, ==_iff, Bool-cases,
}
use ppv.Base.Members.{append-nil}
use ppv.Base.Text.{Text, Bytes}
use ppv.Reputation.Seal.{SealFacts, PpvSealState, resolve_seal_state}
use ppv.Reputation.Contracts.{PpvReceiptV1, is_ppv_receipt_v1}
use ppv.Reputation.Eligibility.{
  CredentialRejection, ProofChainState, eligible, rejection_if, is_given, hashes_differ,
  is_final_seal, proof_rejections, receipt_id, rejections, decide, evaluate_credential_eligibility,
  receipt_invalid, proof_not_verified, proof_missing,
}

-- The proof is on chain and named by the receipt, is not revoked by either account of it, was
-- verified, and where both the receipt and the account have a content hash it is the same.
pub record Proven (receipt : PpvReceiptV1) (proof : ProofChainState) (facts : SealFacts)
    : Type 0 where
  pub named : is_given receipt.ppv_proof_id ≡ true
  pub exists : proof.exists ≡ true
  pub not_revoked : proof.revoked ≡ false
  pub never_revoked : facts.proof_revoked ≡ false
  pub same_hash : hashes_differ receipt.proof_hash proof.content_hash ≡ false
  pub verified : facts.chain_verified ≡ true

pub record IsEligible (sha256 : Text → Bytes) (is_date : Text → Bool) (receipt : PpvReceiptV1)
    (requested_by : Text) (proof : ProofChainState) (facts : SealFacts) : Type 0 where
  pub well_formed : is_ppv_receipt_v1 is_date receipt ≡ true
  pub own_id :
      receipt_id sha256 receipt.event_id receipt.holder_wallet receipt.role ≡ receipt.receipt_id
  pub holder : receipt.holder_wallet ≡ requested_by
  pub not_minted : is_given receipt.credential_mint ≡ false
  pub proven : Proven receipt proof facts
  pub no_dispute : facts.dispute_open ≡ false
  pub final :
      (resolve_seal_state facts ≡ PpvSealState.settled)
      ⊎ (resolve_seal_state facts ≡ PpvSealState.dispute_resolved)

rejection_if-nil :
    (wrong : Bool) (r : CredentialRejection) → (rejection_if wrong r ≡ []) ↔ (wrong ≡ false)
unfolding rejection_if
rejection_if-nil true r = ((λ h. cc), λ h. cc)
rejection_if-nil false r = ((λ h. refl), λ h. refl)

no_rejection :
    (right : Bool) (r : CredentialRejection) → (rejection_if (not right) r ≡ []) ↔ (right ≡ true)
unfolding rejection_if
no_rejection true r = ((λ h. refl), λ h. refl)
no_rejection false r = ((λ h. cc), λ h. cc)

is_final_seal_iff :
    (s : PpvSealState)
    → (is_final_seal s ≡ true) ↔ ((s ≡ PpvSealState.settled) ⊎ (s ≡ PpvSealState.dispute_resolved))
unfolding is_final_seal
is_final_seal_iff s = ground arith

missing_iff : (a b : Bool) → ((not a || not b) ≡ false) ↔ ((a ≡ true) × (b ≡ true))
missing_iff a b = ground arith

neither_iff : (a b : Bool) → ((a || b) ≡ false) ↔ ((a ≡ false) × (b ≡ false))
neither_iff a b = ground arith

proof_rejections-nil :
    (receipt : PpvReceiptV1) (proof : ProofChainState) (facts : SealFacts)
    → (proof_rejections receipt proof facts ≡ []) ↔ Proven receipt proof facts
unfolding proof_rejections
proof_rejections-nil receipt proof facts =
    elim (Bool-cases (not (is_given receipt.ppv_proof_id) || not proof.exists)) [
      | inl e ↦ (
        λ h. let k : proof_missing ∷ [] ≡ [] = rw e at h in cc,
        λ p. let k = (missing_iff _ _).1 (p.named, p.exists) in cc,
      )
      | inr e ↦ rw e (proven ((missing_iff _ _).0 e))
    ]
  where
    proven :
        (is_given receipt.ppv_proof_id ≡ true) × (proof.exists ≡ true)
        → (rejection_if (proof.revoked || facts.proof_revoked) CredentialRejection.proof_revoked
              ++ (rejection_if (hashes_differ receipt.proof_hash proof.content_hash) receipt_invalid
                  ++ rejection_if (not facts.chain_verified) proof_not_verified)
            ≡ [])
          ↔ Proven receipt proof facts
    proven (n, x) = (
      λ h.
          let (r, h1) = (append-nil _ _).0 h in
          let (s, v) = (append-nil _ _).0 h1 in
          let (a, b) = (neither_iff _ _).0 ((rejection_if-nil _ _).0 r) in
          record {
            named = n;
            exists = x;
            not_revoked = a;
            never_revoked = b;
            same_hash = (rejection_if-nil _ _).0 s;
            verified = (no_rejection _ _).0 v;
          },
      λ p. (append-nil _ _).1 (
        (rejection_if-nil _ _).1 ((neither_iff _ _).1 (p.not_revoked, p.never_revoked)),
        (append-nil _ _).1 ((rejection_if-nil _ _).1 p.same_hash, (no_rejection _ _).1 p.verified),
      ),
    )

decide_iff :
    (receipt : PpvReceiptV1) (seal : PpvSealState) (rs : List CredentialRejection)
    → (decide receipt seal rs ≡ eligible receipt seal) ↔ (rs ≡ [])
unfolding decide
decide_iff receipt seal [] = ((λ h. refl), λ h. refl)
decide_iff receipt seal (r ∷ rs) = ((λ h. cc), λ h. cc)

module _ (sha256 : Text → Bytes) (is_date : Text → Bool) where
  rejections-nil :
      (receipt : PpvReceiptV1) (requested_by : Text) (proof : ProofChainState) (facts : SealFacts)
      → is_ppv_receipt_v1 is_date receipt ≡ true
      → (rejections sha256 receipt requested_by proof facts ≡ [])
        ↔ IsEligible sha256 is_date receipt requested_by proof facts
  unfolding rejections
  rejections-nil receipt requested_by proof facts valid = (
    λ h.
        let (i, h1) = (append-nil _ _).0 h in
        let (w, h2) = (append-nil _ _).0 h1 in
        let (m, h3) = (append-nil _ _).0 h2 in
        let (p, h4) = (append-nil _ _).0 h3 in
        let (d, f) = (append-nil _ _).0 h4 in
        record {
          well_formed = valid;
          own_id =
              (==_iff (receipt_id sha256 receipt.event_id receipt.holder_wallet receipt.role)
                  receipt.receipt_id).0
                ((no_rejection _ _).0 i);
          holder = (==_iff receipt.holder_wallet requested_by).0 ((no_rejection _ _).0 w);
          not_minted = (rejection_if-nil _ _).0 m;
          proven = (proof_rejections-nil receipt proof facts).0 p;
          no_dispute = (rejection_if-nil _ _).0 d;
          final = (is_final_seal_iff (resolve_seal_state facts)).0 ((no_rejection _ _).0 f);
        },
    λ e. (append-nil _ _).1 (
      (no_rejection _ _).1 (
          (==_iff (receipt_id sha256 receipt.event_id receipt.holder_wallet receipt.role)
              receipt.receipt_id).1
            e.own_id),
      (append-nil _ _).1 (
        (no_rejection _ _).1 ((==_iff receipt.holder_wallet requested_by).1 e.holder),
        (append-nil _ _).1 (
          (rejection_if-nil _ _).1 e.not_minted,
          (append-nil _ _).1 (
            (proof_rejections-nil receipt proof facts).1 e.proven,
            (append-nil _ _).1 (
              (rejection_if-nil _ _).1 e.no_dispute,
              (no_rejection _ _).1 ((is_final_seal_iff (resolve_seal_state facts)).1 e.final),
            ),
          ),
        ),
      ),
    ),
  )

  -- Whatever SHA-256 and Date.parse are, whatever the receipt, the wallet that asks, the proof
  -- account and the seal facts: the receipt is eligible with the seal of the facts exactly where it
  -- is well formed, has the id that its event, holder and role hash to, is held by the wallet that
  -- asks, has no credential minted, its proof is on chain, unrevoked, verified and not of another
  -- content hash, no dispute is open, and the seal is settled or dispute resolved.
  pub evaluate_credential_eligibility-IsEligible :
      (receipt : PpvReceiptV1) (requested_by : Text) (proof : ProofChainState) (facts : SealFacts)
      → (evaluate_credential_eligibility sha256 is_date (some receipt) requested_by proof facts
          ≡ eligible receipt (resolve_seal_state facts))
        ↔ IsEligible sha256 is_date receipt requested_by proof facts
  unfolding evaluate_credential_eligibility
  evaluate_credential_eligibility-IsEligible receipt requested_by proof facts =
      elim (Bool-cases (is_ppv_receipt_v1 is_date receipt)) [
        | inl valid ↦ rw valid (
          λ h. (rejections-nil receipt requested_by proof facts valid).0 ((decide_iff _ _ _).0 h),
          λ e. (decide_iff _ _ _).1 ((rejections-nil receipt requested_by proof facts valid).1 e),
        )
        | inr invalid ↦ rw invalid ((λ h. cc), λ e. let v = e.well_formed in cc)
      ]
