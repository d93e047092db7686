-- ===== src/Reputation/Participants/Tests.antt =====
-- The participants and the receipts of a dispute with an arbiter, and of a payment to oneself.
use ppv.Base.{
  zero, suc, ℕ, ◌≡◌, refl, true, none, some, [], ◌∷◌, ◌++◌, replicate, map, Bool, length, subst,
  All, ◌<◌, suc, arith,
}
use ppv.Base.Text.{Text, Bytes, codes}
use ppv.Reputation.Seal.{ReputationEventType, verified}
use ppv.Reputation.Contracts.{
  opened, buyer, collaborator, arbiter, is_ppv_receipt_v1, is_solana_address, PpvReceiptV1,
}
use ppv.Reputation.Contracts.Events.{ReputationEventV1, chain, is_reputation_event_v1}
use ppv.Reputation.Participants.EventParts.{IsNamed}
use ppv.Reputation.Participants.WellFormed.{project_receipts-valid}
use ppv.Reputation.Participants.{ReceiptProjectionContext, participants_for, project_receipts}
use ppv.Base.{every}

abbrev address : ℕ → Text
address c = replicate 43 c

abbrev event : ReputationEventType → ℕ → ReputationEventV1
event event_type other = record {
  schema_version = 1;
  event_id = codes "evt_" ++ replicate 40 49;
  event_type = event_type;
  occurred_at = codes "2025-01-02T03:04:05.000Z";
  event_source = chain;
  actor_wallet = address 65;
  actor_gns_record = none;
  counterparty_wallet = some (address other);
  counterparty_gns_record = none;
  ppv_proof_id = none;
  proof_hash = none;
  agreement_id = some (address 67);
  escrow_id = none;
  milestone_index = none;
  source_product = none;
  source_object_id = none;
  deliverable_id = none;
  amount = some (codes "0");
  mint = none;
  outcome = opened;
  program_id = address 68;
  transaction_signature = replicate 88 66;
  instruction_index = 0;
  inner_instruction_index = none;
}

abbrev context : ReceiptProjectionContext
context = record {
  seal_state = verified;
  dispute_open = true;
  role_hints = (address 65, buyer) ∷ [];
  arbiter_wallet = some (address 69);
  arbiter_gns_record = none;
}

abbrev zeros : Text → Bytes
zeros t = replicate 32 0

abbrev every_date : Text → Bool
every_date t = true

of_a_dispute :
    map (λ p. p.role) (participants_for (event ReputationEventType.dispute_opened 66) context)
    ≡ buyer ∷ collaborator ∷ arbiter ∷ []
unfolding ppv.Reputation.Participants.participants_for ppv.Base.Dict.get
of_a_dispute = refl

of_a_payment_to_oneself :
    map (λ p. p.role) (participants_for (event ReputationEventType.invoice_paid 65) context)
    ≡ buyer ∷ []
unfolding ppv.Reputation.Participants.participants_for ppv.Base.Dict.get
of_a_payment_to_oneself = refl

counterparties_of_a_dispute :
    map
      (λ r. r.counterparty_wallets)
      (project_receipts zeros (event ReputationEventType.dispute_opened 66) context)
    ≡ (address 66 ∷ address 69 ∷ [])
      ∷ (address 65 ∷ address 69 ∷ [])
      ∷ (address 65 ∷ address 66 ∷ [])
      ∷ []
unfolding ppv.Reputation.Participants.project_receipts
counterparties_of_a_dispute = refl

is_valid : is_reputation_event_v1 every_date (event ReputationEventType.dispute_opened 66) ≡ true
unfolding ppv.Reputation.Contracts.Events.is_reputation_event_v1 ppv.Reputation.Contracts.is_hex
    ppv.Reputation.Contracts.is_amount ppv.Reputation.Contracts.is_transaction_signature
    ppv.Reputation.Contracts.is_instruction_index
is_valid = refl

their_receipts_are_well_formed :
    every
      (is_ppv_receipt_v1 (λ t. true))
      (project_receipts zeros (event ReputationEventType.dispute_opened 66) context)
    ≡ true
unfolding ppv.Reputation.Participants.project_receipts ppv.Reputation.Contracts.is_ppv_receipt_v1
    ppv.Base.Text.hex
their_receipts_are_well_formed = refl

zeros_digest : (length (zeros []) ≡ 32) × All (λ b. b < 256) (zeros [])
zeros_digest = (refl, replicate-All 32 (omega arith))
  where
    replicate-All : (n : ℕ) → 0 < 256 → All (λ b. b < 256) (replicate n 0)
    replicate-All zero h = tt
    replicate-All (suc n) h = (h, replicate-All n h)

the_address : is_solana_address (address 69) ≡ true
unfolding ppv.Reputation.Contracts.is_solana_address
the_address = refl

context-HasNamedArbiter :
    (wallet : Text) → some (address 69) ≡ some wallet → IsNamed every_date wallet none
unfolding ppv.Reputation.Contracts.nullable ppv.Reputation.Contracts.snapshot_matches_wallet
context-HasNamedArbiter wallet e =
    let same : address 69 ≡ wallet = cc in
    record {
      address = subst (λ (w : Text). is_solana_address w ≡ true) same the_address;
      snapshot_valid = refl;
      snapshot_matches = refl;
    }

project_receipts-valid_example :
    All
      (λ (r : PpvReceiptV1). is_ppv_receipt_v1 every_date r ≡ true)
      (project_receipts zeros (event ReputationEventType.dispute_opened 66) context)
project_receipts-valid_example =
    project_receipts-valid zeros (λ t. zeros_digest) every_date
      (event ReputationEventType.dispute_opened 66) context is_valid context-HasNamedArbiter
