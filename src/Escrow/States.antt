-- ===== src/Escrow/States.antt =====
-- sdk/src/escrow/states.ts: the client's mirror of the escrow lifecycle.
pub mod Laws
use ppv.Base.{
  ℕ, ◌≡◌, ◌↔◌, Bool, true, ◌||◌, Option, none, some, List, [], ◌∷◌, arith, Eq, ◌==◌, nat_beq,
  get_elem?, any, select, if◌then◌else◌,
}
use ppv.Base.Result.{Result, or_throw}

pub data AgreementState : Type 0 where
  opened funded completed settled cancelled disputed refunded : AgreementState

pub data AgreementType : Type 0 where
  escrow invoice contract milestone_contract bounty proof_only : AgreementType

pub data ProofStatus : Type 0 where
  submitted approved rejected : ProofStatus

pub data MilestoneState : Type 0 where
  pending submitted approved settled : MilestoneState

pub data MilestoneAction : Type 0 where
  submit_milestone approve_milestone reject_milestone settle_milestone : MilestoneAction

pub data DisputeOutcome : Type 0 where
  seller_paid buyer_refunded : DisputeOutcome

pub data EscrowAction : Type 0 where
  select_counterparty fund mark_completed settle cancel open_dispute : EscrowAction
  resolve_dispute refund : EscrowAction

-- `ACTION_SIGNER` and `MILESTONE_ACTION_SIGNER` name one of these.
pub data Signer : Type 0 where
  buyer seller either_party conceding_party : Signer

-- The arrays, in the order that gives each value its index on chain.
abbrev pub agreement_states : List AgreementState
agreement_states =
    opened ∷ funded ∷ completed ∷ AgreementState.settled ∷ cancelled ∷ disputed ∷ refunded ∷ []

abbrev pub agreement_types : List AgreementType
agreement_types = escrow ∷ invoice ∷ contract ∷ milestone_contract ∷ bounty ∷ proof_only ∷ []

abbrev pub proof_statuses : List ProofStatus
proof_statuses = ProofStatus.submitted ∷ ProofStatus.approved ∷ rejected ∷ []

abbrev pub milestone_states : List MilestoneState
milestone_states =
    pending ∷ MilestoneState.submitted ∷ MilestoneState.approved ∷ MilestoneState.settled ∷ []

abbrev pub dispute_outcomes : List DisputeOutcome
dispute_outcomes = seller_paid ∷ buyer_refunded ∷ []

abbrev pub escrow_actions : List EscrowAction
escrow_actions =
    select_counterparty ∷ fund ∷ mark_completed ∷ settle ∷ cancel ∷ open_dispute ∷ resolve_dispute
    ∷ refund ∷ []

-- `RangeError`s, one constructor for each message of the SDK's readers.
pub data RangeError : Type 0 where
  truncated invalid_option_tag unsafe_integer trailing_bytes : RangeError
  wrong_discriminator : RangeError
  unknown_state unknown_type unknown_proof_status unknown_milestone_state : ℕ → RangeError
  unknown_outcome unknown_commerce_state : ℕ → RangeError
  unknown_core_kind unknown_core_status : ℕ → RangeError

unfoldable pub agreement_state_from_index : ℕ → Result RangeError AgreementState
agreement_state_from_index n = or_throw (get_elem? agreement_states n) (unknown_state n)

unfoldable pub agreement_type_from_index : ℕ → Result RangeError AgreementType
agreement_type_from_index n = or_throw (get_elem? agreement_types n) (unknown_type n)

unfoldable pub proof_status_from_index : ℕ → Result RangeError ProofStatus
proof_status_from_index n = or_throw (get_elem? proof_statuses n) (unknown_proof_status n)

unfoldable pub milestone_state_from_index : ℕ → Result RangeError MilestoneState
milestone_state_from_index n = or_throw (get_elem? milestone_states n) (unknown_milestone_state n)

unfoldable pub dispute_outcome_from_index : ℕ → Result RangeError DisputeOutcome
dispute_outcome_from_index n = or_throw (get_elem? dispute_outcomes n) (unknown_outcome n)

-- The place of a value in its array.
unfoldable pub state_index : AgreementState → ℕ
state_index opened = 0
state_index funded = 1
state_index completed = 2
state_index AgreementState.settled = 3
state_index cancelled = 4
state_index disputed = 5
state_index refunded = 6

unfoldable pub state_beq : AgreementState → AgreementState → Bool
unfolding state_index
state_beq s t = nat_beq (state_index s) (state_index t)

pub state_beq_iff : (s t : AgreementState) → (state_beq s t ≡ true) ↔ (s ≡ t)
unfolding state_beq
state_beq_iff s t = ground arith

instance abbrev pub state_eq : Eq AgreementState
state_eq = record { same = state_beq; same_iff = state_beq_iff }

-- `TRANSITIONS`: where each action is legal and where it leads.
pub record Transition (S : Type 0) : Type 0 where
  pub from : S
  pub to : S

unfoldable pub transitions : EscrowAction → Transition (List AgreementState)
transitions select_counterparty = record { from = opened ∷ funded ∷ []; to = opened ∷ funded ∷ [] }
transitions fund = record { from = opened ∷ []; to = funded ∷ [] }
transitions mark_completed = record { from = funded ∷ []; to = completed ∷ [] }
transitions settle = record { from = completed ∷ []; to = AgreementState.settled ∷ [] }
transitions cancel = record { from = opened ∷ []; to = cancelled ∷ [] }
transitions open_dispute = record { from = funded ∷ completed ∷ []; to = disputed ∷ [] }
transitions resolve_dispute = record {
  from = disputed ∷ [];
  to = AgreementState.settled ∷ refunded ∷ [];
}
transitions refund = record { from = funded ∷ completed ∷ []; to = refunded ∷ [] }

unfoldable pub milestone_transitions : MilestoneAction → Transition MilestoneState
milestone_transitions submit_milestone = record { from = pending; to = MilestoneState.submitted }
milestone_transitions approve_milestone = record {
  from = MilestoneState.submitted;
  to = MilestoneState.approved;
}
milestone_transitions reject_milestone = record { from = MilestoneState.submitted; to = pending }
milestone_transitions settle_milestone = record {
  from = MilestoneState.approved;
  to = MilestoneState.settled;
}

milestone_index : MilestoneState → ℕ
milestone_index pending = 0
milestone_index MilestoneState.submitted = 1
milestone_index MilestoneState.approved = 2
milestone_index MilestoneState.settled = 3

unfoldable pub milestone_beq : MilestoneState → MilestoneState → Bool
unfolding milestone_index
milestone_beq s t = nat_beq (milestone_index s) (milestone_index t)

pub milestone_beq_iff : (s t : MilestoneState) → (milestone_beq s t ≡ true) ↔ (s ≡ t)
unfolding milestone_beq
milestone_beq_iff s t = ground arith

instance abbrev pub milestone_eq : Eq MilestoneState
milestone_eq = record { same = milestone_beq; same_iff = milestone_beq_iff }

unfoldable pub is_legal_milestone_transition : MilestoneState → MilestoneAction → Bool
is_legal_milestone_transition state action = (milestone_transitions action).from == state

unfoldable pub milestone_state_after : MilestoneState → MilestoneAction → Option MilestoneState
milestone_state_after state action =
    if is_legal_milestone_transition state action
    then some (milestone_transitions action).to
    else none

unfoldable pub action_signer : EscrowAction → Signer
action_signer select_counterparty = buyer
action_signer fund = buyer
action_signer mark_completed = seller
action_signer settle = either_party
action_signer cancel = buyer
action_signer open_dispute = either_party
action_signer resolve_dispute = conceding_party
action_signer refund = seller

unfoldable pub milestone_action_signer : MilestoneAction → Signer
milestone_action_signer submit_milestone = seller
milestone_action_signer approve_milestone = buyer
milestone_action_signer reject_milestone = buyer
milestone_action_signer settle_milestone = either_party

unfoldable pub is_terminal : AgreementState → Bool
is_terminal state = state == AgreementState.settled || state == cancelled || state == refunded

unfoldable pub is_legal_transition : AgreementState → EscrowAction → Bool
is_legal_transition state action = any (λ s. s == state) (transitions action).from

-- `destinations.length === 1 ? destinations[0] : null`.
only_one : List AgreementState → Option AgreementState
only_one (s ∷ []) = some s
only_one _ = none

unfoldable pub state_after : AgreementState → EscrowAction → Option AgreementState
unfolding only_one
state_after state action =
    if is_legal_transition state action then only_one (transitions action).to else none

unfoldable pub legal_actions : AgreementState → List EscrowAction
legal_actions state = select (λ a. is_legal_transition state a) escrow_actions
