-- ===== src/Reputation/Eligibility/Tests.antt =====
-- The eligibility theorem at a settled invoice's receipt, and the same receipt asked for by another
-- wallet while a dispute is open. The hash and the dates are given by constant functions.
use ppv.Base.{◌≡◌, ◌↔◌, refl, Bool, true, false, none, some, [], ◌∷◌, ◌++◌, replicate}
use ppv.Base.Text.{Text, Bytes, codes}
use ppv.Reputation.Seal.{
  SealFacts, PpvSealState, resolve_seal_state, empty_seal_facts, invoice_paid,
}
use ppv.Reputation.Contracts.{PpvReceiptV1, completed, payee}
use ppv.Reputation.Eligibility.{
  ProofChainState, eligible, refused, evaluate_credential_eligibility, wrong_holder, dispute_active,
  receipt_invalid,
}
use ppv.Base.Result.{ok, err}
use ppv.Reputation.Eligibility.Metadata.{
  assert_public_credential_metadata, build_credential_metadata, public_metadata_keys,
  gns_record_keys, key_not_public, not_https,
}
use ppv.Reputation.Eligibility.Laws.{IsEligible, evaluate_credential_eligibility-IsEligible}

abbrev zeros : Text → Bytes
zeros t = replicate 32 0

abbrev every_date : Text → Bool
every_date t = true

abbrev address : Text
address = replicate 43 65

abbrev paid : PpvReceiptV1
paid = record {
  schema_version = 1;
  receipt_id = codes "rcpt_" ++ replicate 40 48;
  event_id = codes "evt_" ++ replicate 40 49;
  ppv_proof_id = some address;
  proof_hash = some (replicate 64 97);
  agreement_id = none;
  holder_wallet = address;
  holder_gns_record = none;
  role = payee;
  counterparty_wallets = [];
  counterparty_gns_records = [];
  source_product = none;
  source_object_id = none;
  deliverable_id = none;
  event_type = invoice_paid;
  outcome = completed;
  amount = some (codes "1000");
  mint = none;
  program_id = address;
  transaction_signature = replicate 88 66;
  instruction_index = 0;
  inner_instruction_index = some 1;
  completed_at = codes "2025-01-02T03:04:05.000Z";
  seal_state = PpvSealState.settled;
  dispute_open = false;
  mint_eligible = true;
  credential_mint = none;
}

abbrev proof : ProofChainState
proof = record {
  exists = true;
  revoked = false;
  authority = some address;
  content_hash = some (replicate 64 97);
}

abbrev settled_facts : SealFacts
settled_facts = record empty_seal_facts {
  chain_verified = true;
  counterparty_confirmed = true;
  settled = true;
}

is_granted :
    evaluate_credential_eligibility zeros every_date (some paid) address proof settled_facts
    ≡ eligible paid PpvSealState.settled
unfolding ppv.Reputation.Eligibility.evaluate_credential_eligibility
    ppv.Reputation.Contracts.is_ppv_receipt_v1 ppv.Base.Text.hex resolve_seal_state
is_granted = refl

is_refused :
    evaluate_credential_eligibility zeros every_date
      (some paid)
      (replicate 43 66)
      proof
      (record settled_facts { dispute_open = true })
    ≡ refused (wrong_holder ∷ dispute_active ∷ [])
unfolding ppv.Reputation.Eligibility.evaluate_credential_eligibility
    ppv.Reputation.Contracts.is_ppv_receipt_v1 ppv.Base.Text.hex resolve_seal_state
is_refused = refl

of_another_id :
    evaluate_credential_eligibility zeros every_date
      (some (record paid { receipt_id = codes "rcpt_" ++ replicate 40 49 }))
      address
      (record proof { content_hash = some (replicate 64 98) })
      settled_facts
    ≡ refused (receipt_invalid ∷ [])
unfolding ppv.Reputation.Eligibility.evaluate_credential_eligibility
    ppv.Reputation.Contracts.is_ppv_receipt_v1 ppv.Base.Text.hex resolve_seal_state
of_another_id = refl

evaluate_credential_eligibility-IsEligible_example :
    (evaluate_credential_eligibility zeros every_date (some paid) address proof settled_facts
      ≡ eligible paid (resolve_seal_state settled_facts))
    ↔ IsEligible zeros every_date paid address proof settled_facts
evaluate_credential_eligibility-IsEligible_example =
    evaluate_credential_eligibility-IsEligible zeros every_date paid address proof settled_facts

is_public : assert_public_credential_metadata public_metadata_keys (some gns_record_keys) ≡ ok tt
unfolding ppv.Reputation.Eligibility.Metadata.assert_public_credential_metadata
is_public = refl

terms_are_private :
    assert_public_credential_metadata (codes "name" ∷ codes "terms" ∷ []) none
    ≡ err (key_not_public (codes "terms"))
unfolding ppv.Reputation.Eligibility.Metadata.assert_public_credential_metadata
terms_are_private = refl

wants_https :
    build_credential_metadata paid PpvSealState.settled none (codes "http://ppv.example")
    ≡ err not_https
unfolding ppv.Reputation.Eligibility.Metadata.build_credential_metadata ppv.Base.Search.starts_with
wants_https = refl
