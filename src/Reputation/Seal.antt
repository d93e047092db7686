-- ===== src/Reputation/Seal.antt =====
-- sdk/src/reputation/seal-state.ts: the seal of a proof or an agreement, from its recorded events.
pub mod Latest
pub mod Facts
pub mod Delivery
use ppv.Base.{Bool, true, false, Option, none, some, List, [], ◌∷◌, ◌&&◌, not, if◌then◌else◌}
use ppv.Base.Int.{ℤ, pos, negsuc}
use ppv.Base.Text.{Text, ltb_text}

-- `REPUTATION_EVENT_TYPES`, in the order of the source.
pub data ReputationEventType : Type 0 where
  proof_created proof_revoked proof_submitted : ReputationEventType
  agreement_created agreement_revised agreement_signed agreement_executed : ReputationEventType
  agreement_cancelled escrow_funded : ReputationEventType
  milestone_created milestone_delivered milestone_approved milestone_rejected : ReputationEventType
  invoice_paid dispute_opened dispute_resolved settlement_completed : ReputationEventType
  work_completed milestone_settled agreement_refunded : ReputationEventType
  proof_approved proof_rejected : ReputationEventType

-- The two fields of `ReputationEventV1` that the seal is derived from.
pub record DatedEvent : Type 0 where
  pub event_type : ReputationEventType
  pub occurred_at : Text

pub data PpvSealState : Type 0 where
  recorded verified counterparty_confirmed settled dispute_resolved revoked : PpvSealState

pub record SealFacts : Type 0 where
  pub chain_verified : Bool
  pub proof_revoked : Bool
  pub counterparty_confirmed : Bool
  pub settled : Bool
  pub refunded : Bool
  pub dispute_open : Bool
  pub dispute_resolved : Bool

abbrev pub empty_seal_facts : SealFacts
empty_seal_facts = record {
  chain_verified = false;
  proof_revoked = false;
  counterparty_confirmed = false;
  settled = false;
  refunded = false;
  dispute_open = false;
  dispute_resolved = false;
}

-- The loop's variables.
pub record Fold : Type 0 where
  pub last_opened : Option Text
  pub last_resolved : Option Text
  pub facts : SealFacts

-- `if (!last || at > last) last = at`. The empty text is false, and no text is below it.
unfoldable pub later : Option Text → Text → Option Text
unfolding ltb_text
later none at = some at
later (some last) at = if ltb_text last at then some at else some last

-- The `switch`.
unfoldable pub note : Text → ReputationEventType → Fold → Fold
unfolding later
note at ReputationEventType.proof_revoked s = record s {
  facts = record (s.facts) { proof_revoked = true };
}
note at agreement_executed s = record s {
  facts = record (s.facts) { counterparty_confirmed = true };
}
note at milestone_approved s = record s {
  facts = record (s.facts) { counterparty_confirmed = true };
}
note at proof_approved s = record s { facts = record (s.facts) { counterparty_confirmed = true } }
note at invoice_paid s = record s {
  facts = record (s.facts) { counterparty_confirmed = true; settled = true };
}
note at settlement_completed s = record s {
  facts = record (s.facts) { counterparty_confirmed = true; settled = true };
}
note at milestone_settled s = record s {
  facts = record (s.facts) { counterparty_confirmed = true; settled = true };
}
note at agreement_refunded s = record s { facts = record (s.facts) { refunded = true } }
note at dispute_opened s = record s { last_opened = later s.last_opened at }
note at ReputationEventType.dispute_resolved s = record s {
  last_resolved = later s.last_resolved at;
}
note at _ s = s

unfoldable pub note_all : Fold → List DatedEvent → Fold
unfolding note
note_all s [] = s
note_all s (e ∷ es) = note_all (note e.occurred_at e.event_type s) es

abbrev pub is_some_text : Option Text → Bool
is_some_text none = false
is_some_text (some t) = true

-- `opened !== null && (resolved === null || opened > resolved)`.
unfoldable pub open_after : Option Text → Option Text → Bool
unfolding ltb_text
open_after none resolved = false
open_after (some o) none = true
open_after (some o) (some r) = ltb_text r o

unfoldable pub derive_seal_facts : List DatedEvent → Bool → SealFacts
unfolding note_all open_after
derive_seal_facts events chain_verified =
    let s =
      note_all
        (record {
          last_opened = none;
          last_resolved = none;
          facts = record empty_seal_facts { chain_verified = chain_verified };
        })
        events in
    record (s.facts) {
      dispute_resolved = is_some_text s.last_resolved;
      dispute_open = open_after s.last_opened s.last_resolved;
    }

unfoldable pub resolve_seal_state : SealFacts → PpvSealState
resolve_seal_state f =
    if f.proof_revoked
    then revoked
    else if f.dispute_resolved && not f.dispute_open
    then PpvSealState.dispute_resolved
    else if f.settled
    then PpvSealState.settled
    else if f.counterparty_confirmed
    then PpvSealState.counterparty_confirmed
    else if f.chain_verified
    then verified
    else recorded

unfoldable pub seal_rank : PpvSealState → ℤ
seal_rank revoked = negsuc 0
seal_rank recorded = pos 0
seal_rank verified = pos 1
seal_rank PpvSealState.counterparty_confirmed = pos 2
seal_rank PpvSealState.settled = pos 3
seal_rank PpvSealState.dispute_resolved = pos 4
