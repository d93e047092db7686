-- ===== src/Escrow/Tests.antt =====
-- The theorems on the lifecycle tables and on single receipts, at concrete inputs.
use ppv.Base.{◌≡◌, ◌↔◌, refl, true, list_eq}
use ppv.Base.Result.{ok}
use ppv.Base.Text.{hex, iso_string, decimal_ℤ, decimal}
use ppv.Escrow.States.{resolve_dispute, disputed, is_legal_transition, transitions, state_beq}
use ppv.Escrow.Events.{timestamp_of, agreement_of}
use ppv.Escrow.Receipts.{PpvEscrowReceiptV1, escrow_receipt_from_event}
use ppv.Escrow.Receipts.Actions.{action_of, action_text}
use ppv.Escrow.Receipts.Laws.{IsValid, escrow_receipt_from_event-iff-IsValid}
use ppv.Indexer.Scenarios.{backwards, funded_event, funded_receipt}

conceded : is_legal_transition disputed resolve_dispute ≡ true
unfolding is_legal_transition transitions state_beq
conceded = refl

makes_receipt : escrow_receipt_from_event backwards funded_event ≡ ok funded_receipt
unfolding escrow_receipt_from_event action_of action_text timestamp_of hex agreement_of iso_string
    decimal_ℤ decimal state_beq
makes_receipt = refl

escrow_receipt_from_event-iff-IsValid_example :
    ((r : PpvEscrowReceiptV1) × (escrow_receipt_from_event backwards funded_event ≡ ok r))
    ↔ IsValid funded_event
escrow_receipt_from_event-iff-IsValid_example =
    escrow_receipt_from_event-iff-IsValid backwards funded_event
