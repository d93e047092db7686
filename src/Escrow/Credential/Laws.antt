-- ===== src/Escrow/Credential/Laws.antt =====
-- sdk/src/escrow/credential.ts: what stands behind a credential of a history that was accepted.
use ppv.Base.{
  ℕ, ◌<◌, ◌≡◌, refl, sym, ap, ◌∙◌, Bool, true, false, not, ◌&&◌, Option, none, some, List, ◌∷◌,
  arith, find?, ==_iff,
}
use ppv.Base.Members.{In, SameMembers, find?-In}
use ppv.Base.Result.{ok}
use ppv.Base.Text.{Text}
use ppv.Base.Int.{ℤ}
use ppv.Escrow.Receipts.{PpvEscrowReceiptV1, or_else}
use ppv.Escrow.Receipts.Actions.{action_eq, settlement_executed, agreement_funded}
use ppv.Escrow.Lifecycle.Chain.{is_annotation}
use ppv.Escrow.Lifecycle.Chain.Index.{Consistent}
use ppv.Escrow.Lifecycle.Chain.Order.{AllDistinct}
use ppv.Escrow.Lifecycle.Custody.{observe_custody, has_action, is_some, amount_of}
use ppv.Escrow.Lifecycle.Guarantees.{reconstruct-Rebuilt, from_path, path_moves, path_agreement}
use ppv.Escrow.Lifecycle.Money.{paid_once}
use ppv.Escrow.Lifecycle.Sums.{total_of, some-or_else}
use ppv.Escrow.Lifecycle.Reconstruct.{AgreementLifecycle, reconstruct_agreement_lifecycle}
use ppv.Reputation.Seal.{SealFacts, PpvSealState, resolve_seal_state}
use ppv.Escrow.Credential.{EscrowCredential, is_positive, escrow_seal_facts, escrow_credential}

resolve-settled : (f : SealFacts) → resolve_seal_state f ≡ PpvSealState.settled → f.settled ≡ true
unfolding resolve_seal_state
resolve-settled f h = ground arith

positive-some : (o : Option ℕ) → is_positive o ≡ true → is_some o ≡ true
positive-some o h = ground arith

-- What a settled credential stands for: a total of settlements that is more than nothing, and a
-- funding of its own agreement.
pub record Backed (rs once : List PpvEscrowReceiptV1) (credential : EscrowCredential) : Type 0 where
  pub settled_amount : credential.settled_amount ≡ some (total_of settlement_executed once)
  pub positive : 0 < total_of settlement_executed once
  pub funding : PpvEscrowReceiptV1
  pub funding_given : In funding rs
  pub funding_funds : funding.action ≡ agreement_funded
  pub funding_moves : is_annotation funding ≡ false
  pub funding_agreement : funding.agreement ≡ credential.agreement
  pub funded_amount : credential.funded_amount ≡ funding.amount

module _ (compare : Text → Text → ℤ) where
  -- Where a history is accepted, of receipts that agree under each id, and its credential says
  -- settled, the credential's settled amount is the sum of the amounts of all SETTLEMENT_EXECUTED
  -- receipts, transitions and annotations, each receipt counted once, and it is more than nothing;
  -- and there is an AGREEMENT_FUNDED transition of the credential's own agreement, whose amount the
  -- credential reports as funded.
  pub escrow_credential-Backed :
      (rs once : List PpvEscrowReceiptV1) {l : AgreementLifecycle} (chain_verified : Bool)
      → Consistent rs
      → AllDistinct once
      → SameMembers once rs
      → reconstruct_agreement_lifecycle compare rs ≡ ok l
      → (escrow_credential l chain_verified).state ≡ PpvSealState.settled
      → Backed rs once (escrow_credential l chain_verified)
  unfolding escrow_credential escrow_seal_facts observe_custody
  escrow_credential-Backed rs once {l} cv c d same e s =
      let b = reconstruct-Rebuilt compare rs e in
      let settled : is_positive l.settled_amount ≡ true =
        resolve-settled (escrow_seal_facts l cv) s in
      let amount : l.settled_amount ≡ some (total_of settlement_executed once) =
        some-or_else l.settled_amount (positive-some l.settled_amount settled)
        ∙ ap some (
            ap (λ (o : Option ℕ). or_else o 0) b.assembled.settled_amount
            ∙ paid_once compare rs once b settlement_executed c d same) in
      let (f, found) = funded_first (find? (has_action agreement_funded) (b.created ∷ b.path)) (
        after (positive-some _ (sym (ap is_positive b.assembled.settled_amount) ∙ settled))
          b.assembled.adds_up.settled_after_funding) in
      let (j, funds) = find?-In (has_action agreement_funded) (b.created ∷ b.path) found in
      record {
        settled_amount = amount;
        positive = more (total_of settlement_executed once) (sym (ap is_positive amount) ∙ settled);
        funding = f;
        funding_given = from_path compare rs b f c j;
        funding_funds = (==_iff f.action agreement_funded).0 funds;
        funding_moves = path_moves compare rs b f c j;
        funding_agreement = path_agreement compare rs b f c j;
        funded_amount = b.assembled.funded_amount ∙ ap amount_of found;
      }
    where
      more : (n : ℕ) → is_positive (some n) ≡ true → 0 < n
      more n h = ground arith

      funded_first :
          (o : Option PpvEscrowReceiptV1)
          → is_some o ≡ true
          → (f : PpvEscrowReceiptV1) × (o ≡ some f)
      funded_first none h = cc
      funded_first (some f) h = (f, refl)

      after : {x y : Bool} → x ≡ true → (x && not y) ≡ false → y ≡ true
      after h k = ground arith
