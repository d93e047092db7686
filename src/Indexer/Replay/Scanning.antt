-- ===== src/Indexer/Replay/Scanning.antt =====
-- indexer/src/replay.ts: what the loop of `replayAgreement` keeps of the transactions it reads.
use ppv.Base.{
  ℕ, suc, ◌≡◌, inl, inr, refl, sym, ap, ◌∙◌, subst, Bool, Option, none, some, List, [], ◌∷◌, ◌++◌,
  ◌==◌, list_eq, ==_iff, Bool-cases, Option-cases,
}
use ppv.Base.Result.{Result, ok, err, >>=-eq-ok, Result-cases}
use ppv.Base.Int.{ℤ}
use ppv.Base.Text.{Text, Bytes}
use ppv.Base.Members.{In, In-append}
use ppv.Escrow.Events.{agreement_of}
use ppv.Escrow.Receipts.{EscrowEventEnvelope}
use ppv.Indexer.Extraction.{RpcTransaction, extract_escrow_events}
use ppv.Indexer.Extraction.Emitted.{Emitted, extract_escrow_events-Emitted}
use ppv.Indexer.Store.{ReceiptStore, StoreError, add_event, add_events, counted}
use ppv.Indexer.Replay.{
  RpcSignatureEntry, Pages, Progress, map_error, keep_events, scan_transaction, scan_entry, scan,
  bad_event_receipt, bad_transaction, source_failed,
}

pub map_error-eq-ok {ℓ κ μ} :
    {A : Type ℓ} {F : Type κ} {X : Type μ} (f : A → F) (r : Result A X) {x : X}
    → map_error f r ≡ ok x
    → r ≡ ok x
map_error-eq-ok f (ok a) h = cc
map_error-eq-ok f (err e) h = absurd (cc)

counted-eq-ok :
    (c : Bool) (r : ReceiptStore × Result StoreError ℕ) {s : ReceiptStore} {n : ℕ}
    → counted c r ≡ (s, ok n)
    → (m : ℕ) × (r ≡ (s, ok m))
counted-eq-ok c (t, ok m) h = (m, cc)
counted-eq-ok c (t, err e) h = absurd (cc)

module _ (sha256 : Text → Bytes) where
  add_events-first :
      (store : ReceiptStore) (x : EscrowEventEnvelope) (es : List EscrowEventEnvelope) (c : Bool)
      (next : ReceiptStore)
      → add_event sha256 store x ≡ ok (c, next)
      → add_events sha256 store (x ∷ es) ≡ counted c (add_events sha256 next es)
  unfolding add_events
  add_events-first store x es c next h = rw (h, add_events) refl

  -- One event more.
  add_events-snoc :
      (store : ReceiptStore) (es : List EscrowEventEnvelope) (e : EscrowEventEnvelope)
      (between after : ReceiptStore) (n : ℕ) (b : Bool)
      → add_events sha256 store es ≡ (between, ok n)
      → add_event sha256 between e ≡ ok (b, after)
      → (m : ℕ) × (add_events sha256 store (es ++ e ∷ []) ≡ (after, ok m))
  unfolding add_events
  add_events-snoc store [] e between after n b h k =
      let q : store ≡ between = cc in
      (
        _,
        add_events-first store e [] b after
            (subst (λ s. add_event sha256 s e ≡ ok (b, after)) (sym q) k),
      )
  add_events-snoc store (x ∷ es) e between after n b h k =
      elim (Result-cases (add_event sha256 store x)) [
        | inr (y, f) ↦ absurd (let z = rw (f, add_events) at h in cc)
        | inl ((c, next), f) ↦
            let (m, g) =
              counted-eq-ok c (add_events sha256 next es)
                (sym (add_events-first store x es c next f) ∙ h) in
            let (o, r) = add_events-snoc next es e between after m b g k in
            (_, add_events-first store x (es ++ e ∷ []) c next f ∙ ap (counted c) r)
      ]

module _ {E : Type 0} (sha256 : Text → Bytes) (compare : Text → Text → ℤ) (pages : Pages E)
    (transaction : Text → Result E (Option RpcTransaction))
    (program_id authority agreement : Text) where
  -- An event of the agreement that a transaction of the history has, where the listing does not say
  -- that it failed.
  pub record FromHistory (history : List RpcSignatureEntry) (e : EscrowEventEnvelope) : Type 0 where
    pub entry : RpcSignatureEntry
    pub tx : RpcTransaction
    pub is_entry : In entry history
    pub listed_as_good : entry.failure ≡ none
    pub read : transaction entry.signature ≡ ok (some tx)
    pub emitted : Emitted sha256 program_id authority tx e
    pub of_agreement : agreement_of e.event ≡ agreement

  -- What holds after each entry: the store is what the events make, and they come from the history.
  pub record Kept (history : List RpcSignatureEntry) (p : Progress) : Type 0 where
    pub count : ℕ
    pub stored : add_events sha256 [] p.events ≡ (p.store, ok count)
    pub from_history : (e : EscrowEventEnvelope) → In e p.events → FromHistory history e

  keep_events-Kept :
      (history : List RpcSignatureEntry) (p : Progress) (es : List EscrowEventEnvelope)
      {q : Progress}
      → ((e : EscrowEventEnvelope)
          → In e es
          → agreement_of e.event ≡ agreement
          → FromHistory history e)
      → Kept history p
      → keep_events {E = E} sha256 compare pages transaction agreement p es ≡ ok q
      → Kept history q
  unfolding keep_events
  keep_events-Kept history p [] {q} from k h = let e : p ≡ q = cc in subst (Kept history) e k
  keep_events-Kept history p (x ∷ es) {q} from k h =
      elim (Bool-cases (agreement_of x.event == agreement)) [
        | inr b ↦
            keep_events-Kept history p es (λ e i a. from e (inr i) a) k (rw (b, keep_events) at h)
        | inl b ↦
            let ((new, after), a, h1) =
              >>=-eq-ok (map_error bad_event_receipt (add_event sha256 p.store x)) _
                (rw (b, keep_events) at h) in
            let added = map_error-eq-ok bad_event_receipt (add_event sha256 p.store x) a in
            let (m, stored) =
              add_events-snoc sha256 [] p.events x p.store after k.count new k.stored added in
            keep_events-Kept history (record p { store = after; events = p.events ++ x ∷ [] }) es
              (λ e i a. from e (inr i) a)
              (record {
                count = m;
                stored = stored;
                from_history = λ e i. elim ((In-append e p.events (x ∷ [])).0 i) [
                  | inl j ↦ k.from_history e j
                  | inr (inl same) ↦
                      subst (FromHistory history) (sym same)
                        (from x (inl refl) ((==_iff (agreement_of x.event) agreement).0 b))
                  | inr (inr no_more) ↦ absurd no_more
                ];
              })
              h1
      ]

  scan_entry-Kept :
      (history : List RpcSignatureEntry) (p : Progress) (entry : RpcSignatureEntry) {q : Progress}
      → In entry history
      → Kept history p
      → scan_entry sha256 compare pages transaction program_id authority agreement p entry ≡ ok q
      → Kept history q
  unfolding scan_entry scan_transaction
  scan_entry-Kept history p entry {q} i k h = elim (Option-cases entry.failure) [
    | inr (f, e) ↦
        let same : record p { failed_transactions_skipped = suc p.failed_transactions_skipped }
            ≡ q =
          let z = rw (e, scan_entry) at h in cc in
        subst (Kept history) same
          (record { count = k.count; stored = k.stored; from_history = k.from_history })
    | inl e ↦
        let (o, a, h1) =
          >>=-eq-ok (map_error source_failed (transaction entry.signature)) _
            (rw (e, scan_entry) at h) in
        read e o (map_error-eq-ok source_failed (transaction entry.signature) a) h1
  ]
    where
      read :
          entry.failure ≡ none
          → (o : Option RpcTransaction) → transaction entry.signature ≡ ok o
          → scan_transaction sha256 compare pages transaction program_id authority agreement p o
            ≡ ok q
          → Kept history q
      read e none a h1 = let same : p ≡ q = cc in subst (Kept history) same k
      read e (some tx) a h1 =
          let (es, x, h2) =
            >>=-eq-ok
              (map_error bad_transaction (extract_escrow_events sha256 program_id authority tx)) _
              h1 in
          let extracted =
            map_error-eq-ok bad_transaction (extract_escrow_events sha256 program_id authority tx)
              x in
          keep_events-Kept history (record p { transactions_scanned = suc p.transactions_scanned })
            es
            (λ ev j of. record {
              entry = entry;
              tx = tx;
              is_entry = i;
              listed_as_good = e;
              read = a;
              emitted =
                  (extract_escrow_events-Emitted sha256 program_id authority tx ev extracted).0 j;
              of_agreement = of;
            })
            (record { count = k.count; stored = k.stored; from_history = k.from_history }) h2

  pub scan-Kept :
      (history : List RpcSignatureEntry) (p : Progress) (entries : List RpcSignatureEntry)
      {q : Progress}
      → ((e : RpcSignatureEntry) → In e entries → In e history)
      → Kept history p
      → scan sha256 compare pages transaction program_id authority agreement p entries ≡ ok q
      → Kept history q
  unfolding scan
  scan-Kept history p [] {q} sub k h = let e : p ≡ q = cc in subst (Kept history) e k
  scan-Kept history p (x ∷ es) sub k h =
      let (next, a, h1) =
        >>=-eq-ok (scan_entry sha256 compare pages transaction program_id authority agreement p x) _
          h in
      scan-Kept history next es (λ e i. sub e (inr i))
        (scan_entry-Kept history p x (sub x (inl refl)) k a) h1
