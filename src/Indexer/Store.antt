-- ===== src/Indexer/Store.antt =====
-- indexer/src/projections.ts: `ReceiptStore`. A method that changes the store returns the new one.
pub mod Contents
pub mod Delivery
pub mod Projection
use ppv.Base.{
  ℕ, ◌+◌, Bool, true, false, Option, none, some, List, [], ◌∷◌, ◌++◌, ◌==◌, ◌||◌, not, list_eq,
  if◌then◌else◌, select, length,
}
use ppv.Base.Result.{Result, ok, err, ◌>>=◌}
use ppv.Base.Int.{ℤ}
use ppv.Base.Text.{Text, Bytes}
use ppv.Base.Dict.{Dict, get, put, values}
use ppv.Escrow.Receipts.{
  PpvEscrowReceiptV1, ReceiptError, EscrowEventEnvelope, escrow_receipt_from_event, or_else,
}
use ppv.Escrow.Receipts.Actions.{action_eq}
use ppv.Escrow.Lifecycle.Reconstruct.{AgreementLifecycle, reconstruct_agreement_lifecycle}

-- The private map of receipts, by id.
abbrev pub ReceiptStore : Type 0
ReceiptStore = Dict Text PpvEscrowReceiptV1

pub data StoreError : Type 0 where
  replayed_with_different_content : Text → StoreError
  receipt_error : ReceiptError → StoreError

unfoldable pub size : ReceiptStore → ℕ
size store = length store

-- The body of `add`, on what is already kept under the id. The flag is true when the receipt was new.
unfoldable pub add_to :
    ReceiptStore
    → PpvEscrowReceiptV1
    → Option PpvEscrowReceiptV1
    → Result StoreError (Bool × ReceiptStore)
add_to store r none = ok (true, put r.receipt_id r store)
add_to store r (some existing) =
    if not (existing.action == r.action) || not (existing.agreement == r.agreement)
    then err (replayed_with_different_content r.receipt_id)
    else ok (false, store)

unfoldable pub add : ReceiptStore → PpvEscrowReceiptV1 → Result StoreError (Bool × ReceiptStore)
unfolding add_to
add store r = add_to store r (get r.receipt_id store)

abbrev pub add_made :
    ReceiptStore → Result ReceiptError PpvEscrowReceiptV1 → Result StoreError (Bool × ReceiptStore)
add_made store (ok r) = add store r
add_made store (err e) = err (receipt_error e)

abbrev pub counted : Bool → ReceiptStore × Result StoreError ℕ → ReceiptStore × Result StoreError ℕ
counted new (store, ok n) = (store, ok ((if new then 1 else 0) + n))
counted new (store, err e) = (store, err e)

unfoldable pub all : ReceiptStore → List PpvEscrowReceiptV1
all store = values store

unfoldable pub for_agreement : ReceiptStore → Text → List PpvEscrowReceiptV1
unfolding all
for_agreement store agreement = select (λ r. r.agreement == agreement) (all store)

-- The first loop of `project`: the receipts of each agreement.
abbrev pub Groups : Type 0
Groups = Dict Text (List PpvEscrowReceiptV1)

unfoldable pub group : Groups → List PpvEscrowReceiptV1 → Groups
group grouped [] = grouped
group grouped (r ∷ rs) =
    group (put r.agreement (or_else (get r.agreement grouped) [] ++ r ∷ []) grouped) rs

module _ (sha256 : Text → Bytes) where
  unfoldable pub add_event :
      ReceiptStore → EscrowEventEnvelope → Result StoreError (Bool × ReceiptStore)
  unfolding add
  add_event store envelope = add_made store (escrow_receipt_from_event sha256 envelope)

  -- An envelope that throws leaves the store as the ones before it made it.
  unfoldable pub add_events :
      ReceiptStore → List EscrowEventEnvelope → ReceiptStore × Result StoreError ℕ
  unfolding add_event
  add_events store [] = (store, ok 0)
  add_events store (e ∷ es) = elim (add_event store e) [
    | err x ↦ (store, err x)
    | ok p ↦ counted p.0 (add_events p.1 es)
  ]

module _ (locale_compare : Text → Text → ℤ) where
  -- The second loop: `grouped` has each agreement once, so each `set` adds an entry.
  unfoldable pub project_groups : Groups → Result ReceiptError (Dict Text AgreementLifecycle)
  project_groups [] = ok []
  project_groups ((agreement, receipts) ∷ grouped) = do
    lifecycle ← reconstruct_agreement_lifecycle locale_compare receipts
    projections ← project_groups grouped
    ok ((agreement, lifecycle) ∷ projections)

  unfoldable pub project : ReceiptStore → Result ReceiptError (Dict Text AgreementLifecycle)
  unfolding group project_groups
  project store = project_groups (group [] (values store))

  unfoldable pub project_agreement : ReceiptStore → Text → Result ReceiptError AgreementLifecycle
  unfolding for_agreement
  project_agreement store agreement =
      reconstruct_agreement_lifecycle locale_compare (for_agreement store agreement)
