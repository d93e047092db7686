-- ===== src/Escrow/Lifecycle/Chain.antt =====
-- sdk/src/escrow/receipts.ts: receipts by id, the map of transitions, and the walk from the creation
-- receipt that puts them in order.
pub mod Index
pub mod Forks
pub mod Walking
pub mod Path
pub mod Run
pub mod Order
use ppv.Base.{
  ℕ, zero, suc, Bool, true, false, Option, none, some, List, [], ◌∷◌, ◌==◌, not, option_eq, list_eq,
  if◌then◌else◌, any, every, select, length,
}
use ppv.Base.Result.{Result, ok, err, ◌>>=◌, ◌>>◌, throw_if}
use ppv.Base.Int.{ltb_ℤ}
use ppv.Base.Text.{Text}
use ppv.Base.Dict.{Dict, get, put, delete}
use ppv.Escrow.States.{AgreementState, state_eq}
use ppv.Escrow.Receipts.{
  transition, annotation, PpvEscrowReceiptV1, ReceiptError, missing_creation,
  more_than_one_creation, more_than_one_agreement, replayed_with_different_action,
  two_transitions_leave, revisits, committed_before, never_reached, loop_limit,
}
use ppv.Escrow.Receipts.Actions.{action_eq}

abbrev pub ById : Type 0
ById = Dict Text PpvEscrowReceiptV1

abbrev pub Transitions : Type 0
Transitions = Dict AgreementState PpvEscrowReceiptV1

-- `existing && existing.action !== receipt.action`.
abbrev pub conflicts : Option PpvEscrowReceiptV1 → PpvEscrowReceiptV1 → Bool
conflicts none r = false
conflicts (some old) r = not (old.action == r.action)

-- The first loop: a receipt that arrives again replaces itself.
unfoldable pub index_receipts : ById → List PpvEscrowReceiptV1 → Result ReceiptError ById
index_receipts by_id [] = ok by_id
index_receipts by_id (r ∷ rs) = do
  throw_if (conflicts (get r.receipt_id by_id) r) (replayed_with_different_action r.receipt_id)
  index_receipts (put r.receipt_id r by_id) rs

abbrev pub is_annotation : PpvEscrowReceiptV1 → Bool
is_annotation r = elim r.kind [ annotation ↦ true | transition ↦ false ]

-- `for (const annotation of annotations) byId.delete(annotation.receiptId)`.
unfoldable pub delete_all : List PpvEscrowReceiptV1 → ById → ById
delete_all [] by_id = by_id
delete_all (r ∷ rs) by_id = delete_all rs (delete r.receipt_id by_id)

-- Every transition names the first one's agreement.
unfoldable pub same_agreement : List PpvEscrowReceiptV1 → Bool
same_agreement [] = true
same_agreement (r ∷ rs) = every (λ s. s.agreement == r.agreement) (r ∷ rs)

abbrev pub is_root : PpvEscrowReceiptV1 → Bool
is_root r = r.previous_state == none

unfoldable pub the_root : List PpvEscrowReceiptV1 → Result ReceiptError PpvEscrowReceiptV1
the_root [] = err missing_creation
the_root (r ∷ []) = ok r
the_root (r ∷ s ∷ rs) = err more_than_one_creation

-- `existing && existing.receiptId !== receipt.receiptId`.
abbrev pub forks : Option PpvEscrowReceiptV1 → PpvEscrowReceiptV1 → Bool
forks none r = false
forks (some old) r = not (old.receipt_id == r.receipt_id)

unfoldable pub add_transition :
    Option AgreementState → PpvEscrowReceiptV1 → Transitions → Result ReceiptError Transitions
add_transition none r ts = ok ts
add_transition (some s) r ts =
    if forks (get s ts) r then err (two_transitions_leave s) else ok (put s r ts)

unfoldable pub transition_map :
    Transitions → List PpvEscrowReceiptV1 → Result ReceiptError Transitions
unfolding add_transition
transition_map ts [] = ok ts
transition_map ts (r ∷ rs) = do next ← add_transition r.previous_state r ts; transition_map next rs

-- What the loop leaves: the receipts after `previous`, and the transitions that were not taken.
pub record Walk : Type 0 where
  pub path : List PpvEscrowReceiptV1
  pub left : Transitions

abbrev pub extend : PpvEscrowReceiptV1 → Result ReceiptError Walk → Result ReceiptError Walk
extend next (ok w) = ok (record w { path = next ∷ w.path })
extend next (err e) = err e

-- `for (let next = transitions.get(state); next; next = transitions.get(state))`. `state` is
-- `previous.newState` throughout. Each round deletes an entry, so the size of the map bounds them.
unfoldable pub walk :
    ℕ → Transitions → PpvEscrowReceiptV1 → List AgreementState → Result ReceiptError Walk
walk zero ts previous visited = err loop_limit
walk (suc fuel) ts previous visited = elim (get previous.new_state ts) [
  | none ↦ ok (record { path = []; left = ts })
  | some next ↦
      if ltb_ℤ next.slot previous.slot
      then err (committed_before next.action previous.action)
      else if any (λ s. s == next.new_state) visited
      then err (revisits next.new_state)
      else extend next (walk fuel (delete previous.new_state ts) next (next.new_state ∷ visited))
]

-- `const orphan = [...transitions.values()][0]; if (orphan) throw`.
unfoldable pub no_orphan : Transitions → Result ReceiptError (Unit {0})
no_orphan [] = ok tt
no_orphan ((s, r) ∷ ts) = err (never_reached r.action r.previous_state)

-- The transitions in chain order, the creation receipt first.
unfoldable pub chain : List PpvEscrowReceiptV1 → Result ReceiptError (List PpvEscrowReceiptV1)
unfolding same_agreement the_root transition_map walk no_orphan
chain receipts = do
  throw_if (not (same_agreement receipts)) more_than_one_agreement
  created ← the_root (select is_root receipts)
  ts ← transition_map [] receipts
  w ← walk (suc (length ts)) ts created (created.new_state ∷ [])
  no_orphan w.left
  ok (created ∷ w.path)
