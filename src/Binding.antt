-- ===== src/Binding.antt =====
-- sdk/src/commerce/binding.ts `verifyTermsBinding`: the ways in which an escrow agreement and a
-- negotiated contract disagree. A message is a constructor with what it names.
pub mod Laws
mod Tests
use ppv.Base.{
  ℕ, Bool, true, false, not, ◌||◌, Option, none, some, List, [], ◌∷◌, ◌++◌, ◌==◌, list_eq, nat_eq,
  nat_beq, length, if◌then◌else◌,
}
use ppv.Base.Text.{Text}
use ppv.Accounts.Escrow.{EscrowAgreementAccount}
use ppv.Accounts.Commerce.{
  CommerceAgreementAccount, CommerceSignature, CommerceAgreementState, executed,
}

pub data Party : Type 0 where
  party_a party_b : Party

pub data Reason : Type 0 where
  other_terms_hash : Reason
  not_executed : CommerceAgreementState → Reason
  other_parties : Reason
  same_wallet_twice : Reason
  not_signed : Party → Reason
  other_version : Party → ℕ → ℕ → Reason
  other_terms_signed : Party → Reason
  other_content_signed : Party → Reason
  one_signer : Reason
  signer_not_a_party : Party → Reason

pub record TermsBinding : Type 0 where
  pub bound : Bool
  pub reasons : List Reason

-- `if (wrong) reasons.push(reason)`
unfoldable pub reason_if : Bool → Reason → List Reason
reason_if wrong r = if wrong then r ∷ [] else []

unfoldable pub is_executed : CommerceAgreementState → Bool
is_executed CommerceAgreementState.pending = false
is_executed executed = true
is_executed CommerceAgreementState.cancelled = false

-- `contractParties.has(wallet)`
unfoldable pub has_party : CommerceAgreementAccount → Text → Bool
has_party contract wallet = (contract.party_a == wallet) || (contract.party_b == wallet)

-- The first loop, of one signature.
unfoldable pub signature_reasons :
    CommerceAgreementAccount → Party → Option CommerceSignature → List Reason
unfolding reason_if
signature_reasons contract party none = not_signed party ∷ []
signature_reasons contract party (some s) =
    reason_if (not (nat_beq s.version_signed contract.version))
      (other_version party s.version_signed contract.version)
    ++ (reason_if (not (s.terms_hash_signed == contract.terms_hash)) (other_terms_signed party)
        ++ reason_if (not (s.content_hash_signed == contract.content_hash))
            (other_content_signed party))

-- What both signatures are looked at for, where both are there.
unfoldable pub pair_reasons :
    CommerceAgreementAccount → Option CommerceSignature → Option CommerceSignature → List Reason
unfolding reason_if has_party
pair_reasons contract none b = []
pair_reasons contract (some a) none = []
pair_reasons contract (some a) (some b) =
    reason_if (a.signer == b.signer) one_signer
    ++ (reason_if (not (has_party contract a.signer)) (signer_not_a_party party_a)
        ++ reason_if (not (has_party contract b.signer)) (signer_not_a_party party_b))

unfoldable pub binding_reasons : EscrowAgreementAccount → CommerceAgreementAccount → List Reason
unfolding reason_if is_executed has_party signature_reasons pair_reasons
binding_reasons escrow contract =
    reason_if (not (contract.terms_hash == escrow.terms_hash)) other_terms_hash
    ++ (reason_if (not (is_executed contract.state)) (not_executed contract.state)
        ++ (reason_if
              (not (has_party contract escrow.creator)
                || not (has_party contract escrow.counterparty))
              other_parties
            ++ (reason_if (escrow.creator == escrow.counterparty) same_wallet_twice
                ++ (signature_reasons contract party_a contract.signature_a
                    ++ (signature_reasons contract party_b contract.signature_b
                        ++ pair_reasons contract contract.signature_a contract.signature_b)))))

unfoldable pub verify_terms_binding :
    EscrowAgreementAccount → CommerceAgreementAccount → TermsBinding
unfolding binding_reasons
verify_terms_binding escrow contract =
    let reasons = binding_reasons escrow contract in
    record { bound = nat_beq (length reasons) 0; reasons = reasons }
