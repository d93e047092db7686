-- ===== src/Indexer/Scenarios.antt =====
-- Two events of one agreement for indexer/src/projections.ts, as the chain delivers them.
use ppv.Reputation.Participants.Identifiers.{IsDigest}
use ppv.Base.{
  suc, zero, ◌%◌, length, All, ◌<◌, arith, refl, ◌≡◌, none, List, [], ◌∷◌, ◌++◌, ap, sym, ◌∙◌, inl,
  inr, ℕ, some,
}
use ppv.Escrow.Lifecycle.Reconstruct.{AgreementLifecycle, ongoing}
use ppv.Indexer.Store.{ReceiptStore}
use ppv.Escrow.Receipts.Actions.{agreement_opened, agreement_funded}
use ppv.Base.Int.{pos}
use ppv.Base.Text.{Text, Bytes, codes}
use ppv.Base.Members.{In}
use ppv.Base.Result.{ok}
use ppv.Escrow.States.{opened, funded, AgreementType}
use ppv.Escrow.Events.{PpvEscrowEvent, EscrowEvent}
use ppv.Escrow.Receipts.{
  transition, PpvEscrowReceiptV1, EscrowEventEnvelope, escrow_receipt_from_event,
}
use ppv.Escrow.Lifecycle.Chain.Index.{Consistent}
use ppv.Indexer.Store.Contents.{Made, ConsistentEvents}

-- Stands for the hash: texts backwards, so that short endings differ.
abbrev pub backwards : Text → Bytes
backwards [] = []
backwards (x ∷ xs) = backwards xs ++ x ∷ []

-- The first bytes of a text, zeros behind them.
abbrev pub fill : ℕ → Text → Bytes
fill zero t = []
fill (suc n) [] = 0 ∷ fill n []
fill (suc n) (c ∷ t) = c % 256 ∷ fill n t

abbrev pub reversed_digest : Text → Bytes
reversed_digest t = fill 32 (backwards t)

length-fill : (n : ℕ) (t : Text) → length (fill n t) ≡ n
length-fill zero t = refl
length-fill (suc n) [] = omega (arith, length-fill n [])
length-fill (suc n) (c ∷ t) = omega (arith, length-fill n t)

fill-bytes : (n : ℕ) (t : Text) → All (λ b. b < 256) (fill n t)
fill-bytes zero t = tt
fill-bytes (suc n) [] = (omega arith, fill-bytes n [])
fill-bytes (suc n) (c ∷ t) = (omega arith, fill-bytes n t)

pub reversed_digest-IsDigest : (t : Text) → IsDigest (reversed_digest t)
reversed_digest-IsDigest t = (length-fill 32 (backwards t), fill-bytes 32 (backwards t))

abbrev pub envelope : ℕ → PpvEscrowEvent → EscrowEventEnvelope
envelope slot event = record {
  event = event;
  program_id = codes "P";
  transaction_signature = codes "X";
  slot = pos slot;
  instruction_index = pos 0;
  inner_instruction_index = none;
  block_time = none;
}

abbrev pub opened_event : EscrowEventEnvelope
opened_event = envelope 10 (
    EscrowEvent.agreement_opened (record {
      agreement = codes "A";
      agreement_id = 7;
      creator = codes "B";
      counterparty = codes "S";
      agreement_type = AgreementType.escrow;
      mint = codes "M";
      vault = codes "V";
      amount = 500;
      terms_hash = codes "00";
      new_state = opened;
      timestamp = pos 0;
    }))

abbrev pub funded_event : EscrowEventEnvelope
funded_event = envelope 11 (
    EscrowEvent.agreement_funded (record {
      agreement = codes "A";
      creator = codes "B";
      counterparty = codes "S";
      amount = 500;
      mint = codes "M";
      vault = codes "V";
      previous_state = opened;
      new_state = funded;
      timestamp = pos 60;
    }))

-- The receipts that events make, one for one.
abbrev pub Makes : (Text → Bytes) → List EscrowEventEnvelope → List PpvEscrowReceiptV1 → Type 0
Makes sha256 [] [] = Unit
Makes sha256 [] (r ∷ rs) = ⊥
Makes sha256 (e ∷ es) [] = ⊥
Makes sha256 (e ∷ es) (r ∷ rs) = Made sha256 e r × Makes sha256 es rs

Makes-In :
    (sha256 : Text → Bytes) (es : List EscrowEventEnvelope) (rs : List PpvEscrowReceiptV1)
    (e : EscrowEventEnvelope) (r : PpvEscrowReceiptV1)
    → Makes sha256 es rs
    → In e es
    → Made sha256 e r
    → In r rs
Makes-In sha256 [] rs e r h i m = absurd i
Makes-In sha256 (d ∷ es) [] e r h i m = absurd h
Makes-In sha256 (d ∷ es) (s ∷ rs) e r h (inl q) m =
    let t : ok r ≡ ok s =
      sym m ∙ (ap (λ (x : EscrowEventEnvelope). escrow_receipt_from_event sha256 x) q ∙ h.0) in
    inl (cc)
Makes-In sha256 (d ∷ es) (s ∷ rs) e r h (inr i) m = inr (Makes-In sha256 es rs e r h.1 i m)

pub Makes-ConsistentEvents :
    (sha256 : Text → Bytes) (es : List EscrowEventEnvelope) (rs : List PpvEscrowReceiptV1)
    → Makes sha256 es rs
    → Consistent rs
    → ConsistentEvents sha256 es
Makes-ConsistentEvents sha256 es rs h c e f r s i j m n =
    c r s (Makes-In sha256 es rs e r h i m) (Makes-In sha256 es rs f s h j n)

abbrev pub opened_receipt : PpvEscrowReceiptV1
opened_receipt = record {
  schema_version = 1;
  receipt_id = codes "ppvr_44454e45504f5f544e454d45455247417c2d7c30";
  program_id = codes "P";
  action = agreement_opened;
  kind = transition;
  agreement = codes "A";
  facts = record {
    agreement_id = 7;
    buyer = codes "B";
    seller = codes "S";
    actor = codes "B";
    mint = some (codes "M");
    amount = none;
    destination = none;
    proof = none;
    proof_index = none;
    milestone = none;
    milestone_index = none;
    previous_state = none;
    new_state = opened;
  };
  occurred_at = codes "1970-01-01T00:00:00.000Z";
  transaction_signature = codes "X";
  slot = pos 10;
  instruction_index = pos 0;
  inner_instruction_index = none;
}

abbrev pub funded_receipt : PpvEscrowReceiptV1
funded_receipt = record opened_receipt {
  receipt_id = codes "ppvr_4445444e55465f544e454d45455247417c2d7c30";
  action = agreement_funded;
  facts = record (opened_receipt.facts) {
    agreement_id = 0;
    amount = some 500;
    destination = some (codes "V");
    previous_state = some opened;
    new_state = funded;
  };
  occurred_at = codes "1970-01-01T00:01:00.000Z";
  slot = pos 11;
}

abbrev pub first_store : ReceiptStore
first_store =
    (opened_receipt.receipt_id, opened_receipt) ∷ (funded_receipt.receipt_id, funded_receipt) ∷ []

abbrev pub funded_lifecycle : AgreementLifecycle
funded_lifecycle = record {
  agreement = codes "A";
  agreement_id = 7;
  buyer = codes "B";
  seller = codes "S";
  mint = some (codes "M");
  state = funded;
  funded_amount = some 500;
  settled_amount = none;
  refunded_amount = none;
  settlement_destination = none;
  outcome = ongoing;
  last_slot = pos 11;
  proofs = [];
  milestones = [];
  receipts = opened_receipt ∷ funded_receipt ∷ [];
}
