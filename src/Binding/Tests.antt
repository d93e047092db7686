-- ===== src/Binding/Tests.antt =====
-- The binding theorem at a contract that both parties have signed, and at the same contract where
-- party B has signed an older version.
use ppv.Base.{ℕ, ◌≡◌, ◌↔◌, true, Option, none, some, [], ◌∷◌, refl}
use ppv.Base.Int.{pos}
use ppv.Base.Text.{Text, codes}
use ppv.Escrow.States.{AgreementState, AgreementType}
use ppv.Accounts.Escrow.{EscrowAgreementAccount}
use ppv.Accounts.Commerce.{CommerceAgreementAccount, CommerceSignature, executed}
use ppv.Binding.{verify_terms_binding, other_version, party_b, not_signed}
use ppv.Binding.Laws.{Bound, verify_terms_binding-Bound}

abbrev alice : Text
alice = codes "alice"

abbrev bob : Text
bob = codes "bob"

abbrev signature_of : Text → ℕ → CommerceSignature
signature_of wallet version = record {
  signer = wallet;
  version_signed = version;
  content_hash_signed = codes "content";
  terms_hash_signed = codes "terms";
  signed_at = pos 1000;
}

abbrev contract_with : Option CommerceSignature → CommerceAgreementAccount
contract_with second = record {
  schema_version = 1;
  bump = 255;
  agreement_id = codes "1";
  party_a = alice;
  party_b = bob;
  version = 2;
  content_hash = codes "content";
  terms_hash = codes "terms";
  signature_a = some (signature_of alice 2);
  signature_b = second;
  state = executed;
  created_at = pos 900;
  expires_at = pos 2000;
  executed_at = pos 1001;
  cancelled_at = pos 0;
}

abbrev escrow : EscrowAgreementAccount
escrow = record {
  schema_version = 2;
  bump = 254;
  vault_authority_bump = 253;
  vault_bump = 252;
  creator = bob;
  counterparty = alice;
  agreement_id = 7;
  agreement_type = AgreementType.contract;
  mint = codes "mint";
  vault = codes "vault";
  amount = 1000;
  terms_hash = codes "terms";
  state = AgreementState.funded;
  created_at = pos 1100;
  funded_at = pos 1200;
  completed_at = pos 0;
  settled_at = pos 0;
  proof_count = 0;
  settlement_proof = codes "none";
  dispute_opened_by = codes "none";
  state_changed_at = pos 1200;
  milestone_count = 0;
  milestones_settled = 0;
  milestone_total = 0;
  settled_total = 0;
}

signed_by_both :
    (verify_terms_binding escrow (contract_with (some (signature_of bob 2)))).bound ≡ true
unfolding ppv.Binding.verify_terms_binding
signed_by_both = refl

signed_an_older_version :
    (verify_terms_binding escrow (contract_with (some (signature_of bob 1)))).reasons
    ≡ other_version party_b 1 2 ∷ []
unfolding ppv.Binding.verify_terms_binding
signed_an_older_version = refl

not_signed_by_b :
    (verify_terms_binding escrow (contract_with none)).reasons ≡ not_signed party_b ∷ []
unfolding ppv.Binding.verify_terms_binding
not_signed_by_b = refl

verify_terms_binding-Bound_example :
    ((verify_terms_binding escrow (contract_with (some (signature_of bob 2)))).bound ≡ true)
    ↔ Bound escrow (contract_with (some (signature_of bob 2)))
verify_terms_binding-Bound_example =
    verify_terms_binding-Bound escrow (contract_with (some (signature_of bob 2)))
