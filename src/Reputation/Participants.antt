-- ===== src/Reputation/Participants.antt =====
-- sdk/src/reputation/receipts.ts: the receipts of one event, one for each participant. A record of
-- role hints is an association list, and SHA-256 is a parameter.
pub mod Identifiers
pub mod EventParts
pub mod WellFormed
mod Tests
use ppv.Base.{
  Bool, true, false, not, ◌&&◌, Option, none, some, List, [], ◌∷◌, ◌++◌, ◌==◌, list_eq, map, any,
  select, if◌then◌else◌,
}
use ppv.Base.Dict.{Dict, get}
use ppv.Base.Text.{Text, Bytes}
use ppv.Reputation.Seal.{ReputationEventType, PpvSealState}
use ppv.Reputation.Contracts.{
  PpvReceiptV1, GnsRecordSnapshotV1, SourceProduct, ParticipantRole, marketplace, creator, buyer,
  seller, payer, payee, collaborator, arbiter,
}
use ppv.Reputation.Contracts.Events.{ReputationEventV1}
use ppv.Reputation.Eligibility.{receipt_id, is_given}

pub record Participant : Type 0 where
  pub wallet : Text
  pub gns_record : Option GnsRecordSnapshotV1
  pub role : ParticipantRole

pub record ReceiptProjectionContext : Type 0 where
  pub seal_state : PpvSealState
  pub dispute_open : Bool
  pub role_hints : Dict Text ParticipantRole
  pub arbiter_wallet : Option Text
  pub arbiter_gns_record : Option GnsRecordSnapshotV1

pub record DefaultRoles : Type 0 where
  pub actor : ParticipantRole
  pub counterparty : ParticipantRole

abbrev pub roles : ParticipantRole → ParticipantRole → DefaultRoles
roles a c = record { actor = a; counterparty = c }

unfoldable pub submitted_to : Option SourceProduct → ParticipantRole
submitted_to (some marketplace) = buyer
submitted_to _ = collaborator

unfoldable pub roles_for : Option SourceProduct → ReputationEventType → DefaultRoles
unfolding submitted_to
roles_for source ReputationEventType.proof_created = roles creator collaborator
roles_for source ReputationEventType.proof_revoked = roles creator collaborator
roles_for source ReputationEventType.proof_submitted = roles creator (submitted_to source)
roles_for source ReputationEventType.escrow_funded = roles payer payee
roles_for source ReputationEventType.invoice_paid = roles payer payee
roles_for source ReputationEventType.milestone_approved = roles payer payee
roles_for source ReputationEventType.milestone_settled = roles payer payee
roles_for source ReputationEventType.settlement_completed = roles payer payee
roles_for source ReputationEventType.agreement_refunded = roles seller buyer
roles_for source ReputationEventType.milestone_created = roles buyer seller
roles_for source ReputationEventType.milestone_rejected = roles buyer seller
roles_for source ReputationEventType.milestone_delivered = roles seller buyer
roles_for source ReputationEventType.work_completed = roles seller buyer
roles_for source _ = roles collaborator collaborator

unfoldable pub default_roles : ReputationEventV1 → DefaultRoles
unfolding roles_for
default_roles event = roles_for event.source_product event.event_type

unfoldable pub is_dispute : ReputationEventType → Bool
is_dispute ReputationEventType.dispute_opened = true
is_dispute ReputationEventType.dispute_resolved = true
is_dispute _ = false

-- `hints[wallet] ?? role`
unfoldable pub hinted : Dict Text ParticipantRole → Text → ParticipantRole → ParticipantRole
hinted hints wallet role = or_role (get wallet hints)
  where
    or_role : Option ParticipantRole → ParticipantRole
    or_role none = role
    or_role (some r) = r

unfoldable pub counterparty_of : ReputationEventV1 → ReceiptProjectionContext → List Participant
unfolding hinted default_roles is_given
counterparty_of event context = join event.counterparty_wallet
  where
    join : Option Text → List Participant
    join none = []
    join (some wallet) =
        if is_given (some wallet) && not (wallet == event.actor_wallet)
        then record {
          wallet = wallet;
          gns_record = event.counterparty_gns_record;
          role = hinted context.role_hints wallet (default_roles event).counterparty;
        }
          ∷ []
        else []

unfoldable pub arbiter_of :
    ReputationEventV1 → ReceiptProjectionContext → List Participant → List Participant
unfolding is_dispute is_given
arbiter_of event context participants = join context.arbiter_wallet
  where
    join : Option Text → List Participant
    join none = []
    join (some wallet) =
        if is_dispute event.event_type
          && (is_given (some wallet) && not (any (λ p. p.wallet == wallet) participants))
        then record { wallet = wallet; gns_record = context.arbiter_gns_record; role = arbiter }
          ∷ []
        else []

unfoldable pub participants_for : ReputationEventV1 → ReceiptProjectionContext → List Participant
unfolding hinted default_roles counterparty_of arbiter_of
participants_for event context =
    let actor : Participant = record {
      wallet = event.actor_wallet;
      gns_record = event.actor_gns_record;
      role = hinted context.role_hints event.actor_wallet (default_roles event).actor;
    } in
    let parties = actor ∷ counterparty_of event context in
    parties ++ arbiter_of event context parties

module _ (sha256 : Text → Bytes) where
  unfoldable pub project_receipt :
      ReputationEventV1 → Participant → List Participant → ReceiptProjectionContext → PpvReceiptV1
  unfolding receipt_id
  project_receipt event holder others context = record {
    schema_version = 1;
    receipt_id = receipt_id sha256 event.event_id holder.wallet holder.role;
    event_id = event.event_id;
    ppv_proof_id = event.ppv_proof_id;
    proof_hash = event.proof_hash;
    agreement_id = event.agreement_id;
    holder_wallet = holder.wallet;
    holder_gns_record = holder.gns_record;
    role = holder.role;
    counterparty_wallets = map (λ p. p.wallet) others;
    counterparty_gns_records = map (λ p. p.gns_record) others;
    source_product = event.source_product;
    source_object_id = event.source_object_id;
    deliverable_id = event.deliverable_id;
    event_type = event.event_type;
    outcome = event.outcome;
    amount = event.amount;
    mint = event.mint;
    program_id = event.program_id;
    transaction_signature = event.transaction_signature;
    instruction_index = event.instruction_index;
    inner_instruction_index = event.inner_instruction_index;
    completed_at = event.occurred_at;
    seal_state = context.seal_state;
    dispute_open = context.dispute_open;
    mint_eligible = false;
    credential_mint = none;
  }

  unfoldable pub project_receipts : ReputationEventV1 → ReceiptProjectionContext → List PpvReceiptV1
  unfolding participants_for project_receipt
  project_receipts event context =
      let participants = participants_for event context in
      map
        (λ holder.
          project_receipt event holder (select (λ p. not (p.wallet == holder.wallet)) participants)
            context)
        participants

-- What changes of a stored receipt.
pub record ReceiptState : Type 0 where
  pub seal_state : PpvSealState
  pub dispute_open : Bool
  pub mint_eligible : Bool
  pub credential_mint : Option Text

unfoldable pub refresh_receipt_state : PpvReceiptV1 → ReceiptState → PpvReceiptV1
refresh_receipt_state receipt state = record receipt {
  seal_state = state.seal_state;
  dispute_open = state.dispute_open;
  mint_eligible = state.mint_eligible;
  credential_mint = state.credential_mint;
}
