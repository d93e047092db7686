-- ===== src/Escrow/States/Laws.antt =====
-- What the lifecycle tables of sdk/src/escrow/states.ts promise.
use ppv.Base.{ℕ, ◌<◌, ◌≡◌, true, [], ◌↔◌, arith, refl}
use ppv.Base.Members.{In}
use ppv.Escrow.States.{
  AgreementState, EscrowAction, is_terminal, is_legal_transition, legal_actions, transitions,
  state_beq, opened, funded, completed, cancelled, disputed, refunded, select_counterparty, fund,
  mark_completed, settle, cancel, open_dispute, resolve_dispute, refund,
}

-- An agreement is terminal exactly when no action is legal in it.
pub is_terminal-iff-legal_actions-nil :
    (s : AgreementState) → (is_terminal s ≡ true) ↔ (legal_actions s ≡ [])
unfolding is_terminal legal_actions is_legal_transition transitions state_beq
is_terminal-iff-legal_actions-nil s = ground arith

-- How far along an agreement is.
abbrev pub progress : AgreementState → ℕ
progress opened = 0
progress funded = 1
progress completed = 2
progress disputed = 3
progress AgreementState.settled = 4
progress cancelled = 4
progress refunded = 4

-- Every legal action but the selection of a payee leads only to states that are further on, in the
-- order open, funded, completed, disputed, and last the three terminal states.
pub is_legal_transition-progress :
    (s : AgreementState) (a : EscrowAction) (t : AgreementState)
    → ¬ (a ≡ select_counterparty)
    → is_legal_transition s a ≡ true
    → In t (transitions a).to
    → progress s < progress t
unfolding is_legal_transition transitions state_beq
is_legal_transition-progress s select_counterparty t n h i = absurd (n refl)
is_legal_transition-progress s fund t n h i = ground arith
is_legal_transition-progress s mark_completed t n h i = ground arith
is_legal_transition-progress s settle t n h i = ground arith
is_legal_transition-progress s cancel t n h i = ground arith
is_legal_transition-progress s open_dispute t n h i = ground arith
is_legal_transition-progress s resolve_dispute t n h i = ground arith
is_legal_transition-progress s refund t n h i = ground arith
