-- ===== src/Reputation/Tests.antt =====
-- Runs of the model of sdk/src/reputation/seal-state.ts, and its theorems at concrete events.
use ppv.Base.{[], ◌∷◌, ◌≡◌, refl, List, true, inl, inr}
use ppv.Base.Members.{SameMembers}
use ppv.Base.Text.{codes, Text, ltb_text}
use ppv.Reputation.Seal.{
  ReputationEventType, DatedEvent, PpvSealState, dispute_opened, settlement_completed,
  derive_seal_facts, resolve_seal_state, later,
}
use ppv.Reputation.Seal.Facts.{Derived, derive_seal_facts-Derived}
use ppv.Reputation.Seal.Delivery.{Earned, derive_seal_facts-SameMembers, resolve_seal_state-Earned}

abbrev event : ReputationEventType → Text → DatedEvent
event t at = record { event_type = t; occurred_at = at }

abbrev history : List DatedEvent
history =
    event dispute_opened (codes "2024-05-01")
    ∷ event settlement_completed (codes "2024-05-02")
    ∷ event ReputationEventType.dispute_resolved (codes "2024-05-03")
    ∷ []

abbrev replayed : List DatedEvent
replayed =
    event ReputationEventType.dispute_resolved (codes "2024-05-03")
    ∷ event dispute_opened (codes "2024-05-01")
    ∷ event settlement_completed (codes "2024-05-02")
    ∷ event dispute_opened (codes "2024-05-01")
    ∷ []

same_history : SameMembers history replayed
same_history = λ e. (
  λ i. elim i [
    | inl q ↦ inr (inl q)
    | inr j ↦ elim j [
      | inl q ↦ inr (inr (inl q))
      | inr k ↦ elim k [ inl q ↦ inl q | inr n ↦ absurd n ]
    ]
  ],
  λ i. elim i [
    | inl q ↦ inr (inr (inl q))
    | inr j ↦ elim j [
      | inl q ↦ inl q
      | inr k ↦ elim k [ inl q ↦ inr (inl q) | inr n ↦ elim n [ inl q ↦ inl q | inr m ↦ absurd m ] ]
    ]
  ],
)

sealed : resolve_seal_state (derive_seal_facts replayed true) ≡ PpvSealState.dispute_resolved
unfolding resolve_seal_state derive_seal_facts later ltb_text
sealed = refl

derive_seal_facts-Derived_example : Derived history true (derive_seal_facts history true)
derive_seal_facts-Derived_example = derive_seal_facts-Derived history true

derive_seal_facts-SameMembers_example :
    derive_seal_facts history true ≡ derive_seal_facts replayed true
derive_seal_facts-SameMembers_example =
    derive_seal_facts-SameMembers history replayed true same_history

resolve_seal_state-Earned_example :
    Earned history true (resolve_seal_state (derive_seal_facts history true))
resolve_seal_state-Earned_example = resolve_seal_state-Earned history true
