-- ===== src/Indexer/Replay.antt =====
-- indexer/src/replay.ts: the history of an agreement read from a chain source, and replayed. What the
-- source answers is a parameter: a page of signatures by the signature it is asked before, and a
-- transaction by its signature.
pub mod Histories
pub mod Scanning
pub mod Agreement
mod Tests
use ppv.Base.{
  ℕ, zero, suc, Bool, true, false, Option, none, some, List, [], ◌∷◌, ◌++◌, ◌==◌, list_eq,
  option_eq, leb, ltb, length, if◌then◌else◌,
}
use ppv.Base.Result.{Result, ok, err, ◌>>=◌}
use ppv.Base.Int.{ℤ}
use ppv.Base.Text.{Text, Bytes}
use ppv.Escrow.Events.{agreement_of}
use ppv.Escrow.Receipts.{EscrowEventEnvelope, ReceiptError}
use ppv.Escrow.Lifecycle.Reconstruct.{AgreementLifecycle}
use ppv.Pdas.{PdaError, derive_agreement_addresses}
use ppv.Indexer.Extraction.{
  RpcTransaction, ExtractError, extract_escrow_events, derive_event_authority,
}
use ppv.Indexer.Store.{ReceiptStore, StoreError, add_event, project_agreement}
use mathlib.Core.List.{reverse}

pub record RpcSignatureEntry : Type 0 where
  pub signature : Text
  pub slot : ℤ
  pub failure : Option Text
  pub block_time : Option ℤ

pub data ReplayError {ℓ} (E : Type ℓ) : Type ℓ where
  source_failed : E → ReplayError E
  too_many_signatures : ReplayError E
  bad_program : PdaError → ReplayError E
  bad_agreement_id : PdaError → ReplayError E
  bad_transaction : ExtractError → ReplayError E
  bad_event_receipt : StoreError → ReplayError E
  no_events : ℕ → ℕ → ReplayError E
  bad_lifecycle : ReceiptError → ReplayError E
  out_of_fuel : ReplayError E

pub record ReplayOptions : Type 0 where
  pub program_id : Text
  pub until : Option Text
  pub page_size : ℕ
  pub max_signatures : ℕ

-- `options?.until &&`: an empty one stops nothing.
unfoldable pub stop_at : Option Text → Option Text
stop_at none = none
stop_at (some []) = none
stop_at (some (c ∷ cs)) = some (c ∷ cs)

-- The entries of a page up to the signature to stop at, and whether it was met.
unfoldable pub take_page : Option Text → List RpcSignatureEntry → List RpcSignatureEntry × Bool
take_page stop [] = ([], false)
take_page stop (e ∷ es) =
    let rest = take_page stop es in
    if stop == some e.signature then ([], true) else (e ∷ rest.0, rest.1)

-- `page[page.length - 1]?.signature`, where it is not empty.
unfoldable pub last_signature : List RpcSignatureEntry → Option Text
last_signature [] = none
last_signature (e ∷ []) = elim e.signature [ [] ↦ none | c ∷ cs ↦ some (c ∷ cs) ]
last_signature (e ∷ f ∷ es) = last_signature (f ∷ es)

abbrev pub Pages : Type 0 → Type 0
Pages E = Option Text → ℕ → Result E (List RpcSignatureEntry)

module _ {E : Type 0} (pages : Pages E) where
  -- The loop, from a page on; `collected` is newest first. A page that is not the last adds entries,
  -- so the most signatures allowed, and one, are enough rounds.
  unfoldable pub collect :
      ReplayOptions
      → ℕ
      → Option Text
      → List RpcSignatureEntry
      → Result (ReplayError E) (List RpcSignatureEntry)
  unfolding take_page stop_at last_signature
  collect options zero before collected = err out_of_fuel
  collect options (suc fuel) before collected = elim (pages before options.page_size) [
    | err e ↦ err (source_failed e)
    | ok [] ↦ ok (reverse collected)
    | ok (e ∷ es) ↦
        let taken = take_page (stop_at options.until) (e ∷ es) in
        let all = collected ++ taken.0 in
        elim taken.1 [
          | true ↦ ok (reverse all)
          | false ↦ elim (leb options.max_signatures (length all)) [
            | true ↦ err too_many_signatures
            | false ↦ elim (ltb (length (e ∷ es)) options.page_size) [
              | true ↦ ok (reverse all)
              | false ↦ elim (last_signature (e ∷ es)) [
                | none ↦ ok (reverse all)
                | some s ↦ collect options fuel (some s) all
              ]
            ]
          ]
        ]
  ]

  unfoldable pub signature_history : ReplayOptions → Result (ReplayError E) (List RpcSignatureEntry)
  unfolding collect
  signature_history options = collect options (suc options.max_signatures) none []

-- What the loop of `replayAgreement` keeps.
pub record Progress : Type 0 where
  pub store : ReceiptStore
  pub events : List EscrowEventEnvelope
  pub transactions_scanned : ℕ
  pub failed_transactions_skipped : ℕ

unfoldable pub at_start : Progress
at_start = record {
  store = [];
  events = [];
  transactions_scanned = 0;
  failed_transactions_skipped = 0;
}

pub record ReplayResult : Type 0 where
  pub agreement : Text
  pub lifecycle : AgreementLifecycle
  pub events : List EscrowEventEnvelope
  pub transactions_scanned : ℕ
  pub failed_transactions_skipped : ℕ

abbrev pub map_error {ℓ κ μ} :
    {E : Type ℓ} {F : Type κ} {A : Type μ} → (E → F) → Result E A → Result F A
map_error f (ok a) = ok a
map_error f (err e) = err (f e)

module _ {E : Type 0} (sha256 : Text → Bytes) (compare : Text → Text → ℤ) (pages : Pages E)
    (transaction : Text → Result E (Option RpcTransaction)) where
  -- The inner loop, over the envelopes of a transaction.
  unfoldable pub keep_events :
      Text → Progress → List EscrowEventEnvelope → Result (ReplayError E) Progress
  keep_events agreement p [] = ok p
  keep_events agreement p (e ∷ es) = elim (agreement_of e.event == agreement) [
    | false ↦ keep_events agreement p es
    | true ↦ map_error bad_event_receipt (add_event sha256 p.store e) >>= λ added.
        keep_events agreement (record p { store = added.1; events = p.events ++ e ∷ [] }) es
  ]

  -- What `source.transaction` gave for an entry.
  unfoldable pub scan_transaction :
      Text → Text → Text → Progress → Option RpcTransaction → Result (ReplayError E) Progress
  unfolding keep_events
  scan_transaction program_id authority agreement p none = ok p
  scan_transaction program_id authority agreement p (some tx) = do
    envelopes ← map_error bad_transaction (extract_escrow_events sha256 program_id authority tx)
    keep_events agreement (record p { transactions_scanned = suc p.transactions_scanned }) envelopes

  unfoldable pub scan_entry :
      Text → Text → Text → Progress → RpcSignatureEntry → Result (ReplayError E) Progress
  unfolding scan_transaction
  scan_entry program_id authority agreement p entry = elim entry.failure [
    | some f ↦ ok (record p { failed_transactions_skipped = suc p.failed_transactions_skipped })
    | none ↦ map_error source_failed (transaction entry.signature) >>= λ tx.
        scan_transaction program_id authority agreement p tx
  ]

  unfoldable pub scan :
      Text → Text → Text → Progress → List RpcSignatureEntry → Result (ReplayError E) Progress
  unfolding scan_entry
  scan program_id authority agreement p [] = ok p
  scan program_id authority agreement p (entry ∷ entries) = do
    next ← scan_entry program_id authority agreement p entry
    scan program_id authority agreement next entries

  unfoldable pub finish_replay : Text → Progress → Result (ReplayError E) ReplayResult
  finish_replay agreement p = elim p.events [
    | [] ↦ err (no_events p.transactions_scanned p.failed_transactions_skipped)
    | e ∷ es ↦
        map_error bad_lifecycle (project_agreement compare p.store agreement) >>= λ lifecycle.
        ok (record {
          agreement = agreement;
          lifecycle = lifecycle;
          events = p.events;
          transactions_scanned = p.transactions_scanned;
          failed_transactions_skipped = p.failed_transactions_skipped;
        })
  ]

  unfoldable pub replay_agreement : Text → ReplayOptions → Result (ReplayError E) ReplayResult
  unfolding signature_history scan finish_replay at_start
  replay_agreement agreement options = do
    authority ← map_error bad_program (derive_event_authority sha256 options.program_id)
    history ← signature_history pages options
    p ← scan options.program_id authority.address agreement at_start history
    finish_replay agreement p

-- The source answers for every address here: its pages are those of the derived one.
unfoldable pub replay_agreement_by_id :
    {E : Type 0}
    → (Text → Bytes)
    → (Text → Text → ℤ)
    → (Text → Pages E)
    → (Text → Result E (Option RpcTransaction))
    → Text
    → ℤ
    → ReplayOptions
    → Result (ReplayError E) ReplayResult
unfolding replay_agreement
replay_agreement_by_id sha256 compare pages transaction creator agreement_id options =
    map_error bad_agreement_id
      (derive_agreement_addresses sha256 options.program_id creator agreement_id)
    >>= λ addresses.
        replay_agreement sha256 compare (pages addresses.agreement) transaction addresses.agreement
          options
