-- ===== src/Indexer/Replay/Agreement.antt =====
-- indexer/src/replay.ts `replayAgreement`: what a replay that returned has read, and that its
-- lifecycle is the one the store projects from the events.
use ppv.Base.{ℕ, ◌≡◌, ◌≢◌, refl, sym, ap, ◌∙◌, subst, Option, List, [], ◌∷◌, list_eq}
use ppv.Base.Result.{Result, ok, >>=-eq-ok}
use ppv.Base.Int.{ℤ}
use ppv.Base.Text.{Text, Bytes}
use ppv.Base.Members.{In}
use ppv.Escrow.Receipts.{EscrowEventEnvelope}
use ppv.Indexer.Extraction.{RpcTransaction, derive_event_authority}
use ppv.Indexer.Store.{ReceiptStore, add_events, project_agreement}
use ppv.Pdas.{Derived}
use ppv.Indexer.Replay.{
  RpcSignatureEntry, ReplayOptions, Pages, Progress, at_start, ReplayResult, map_error, scan,
  finish_replay, replay_agreement, signature_history, bad_lifecycle, bad_program,
}
use ppv.Indexer.Replay.Scanning.{FromHistory, map_error-eq-ok, scan-Kept}

module _ {E : Type 0} (sha256 : Text → Bytes) (compare : Text → Text → ℤ) (pages : Pages E)
    (transaction : Text → Result E (Option RpcTransaction)) where
  -- What a replay that returned stands for.
  pub record Replayed (agreement : Text) (options : ReplayOptions) (r : ReplayResult) : Type 0 where
    pub authority : Text
    pub history : List RpcSignatureEntry
    pub store : ReceiptStore
    pub count : ℕ
    pub is_authority :
        (d : Derived) × (derive_event_authority sha256 options.program_id ≡ ok d)
        × (d.address ≡ authority)
    pub is_history : signature_history pages options ≡ ok history
    pub from_history :
        (e : EscrowEventEnvelope)
        → In e r.events
        → FromHistory sha256 compare pages transaction options.program_id authority agreement
            history e
    pub has_events : r.events ≢ []
    pub stored : add_events sha256 [] r.events ≡ (store, ok count)
    pub projected : project_agreement compare store agreement ≡ ok r.lifecycle

  finish_replay-lem :
      (agreement : Text) (p : Progress) (r : ReplayResult)
      → finish_replay {E = E} sha256 compare pages transaction agreement p ≡ ok r
      → (p.events ≡ r.events)
        × (r.events ≢ [])
        × (project_agreement compare p.store agreement ≡ ok r.lifecycle)
  unfolding finish_replay
  finish_replay-lem agreement p r h = events p.events refl
    where
      events :
          (es : List EscrowEventEnvelope)
          → p.events ≡ es
          → (p.events ≡ r.events)
            × (r.events ≢ [])
            × (project_agreement compare p.store agreement ≡ ok r.lifecycle)
      events [] q = absurd (let k = rw (q, finish_replay) at h in cc)
      events (e ∷ es) q =
          let (l, made, h1) =
            >>=-eq-ok (map_error bad_lifecycle (project_agreement compare p.store agreement)) _
              (rw (q, finish_replay) at h) in
          let is =
            map_error-eq-ok bad_lifecycle (project_agreement compare p.store agreement) made in
          let out : record {
            agreement = agreement;
            lifecycle = l;
            events = p.events;
            transactions_scanned = p.transactions_scanned;
            failed_transactions_skipped = p.failed_transactions_skipped;
          }
              ≡ r =
            cc in
          let same : p.events ≡ r.events = ap (λ (x : ReplayResult). x.events) out in
          (
            same,
            (λ none_left. let z : e ∷ es ≡ [] = sym q ∙ (same ∙ none_left) in cc),
            is ∙ ap (λ (x : ReplayResult). ok x.lifecycle) out,
          )

  -- Where `replayAgreement` returns, it has events, and each is an event of the agreement that a
  -- transaction of the history has which the listing does not give as failed; its lifecycle is the
  -- one that a new store projects for the agreement after it was given these events.
  pub replay_agreement-Replayed :
      (agreement : Text) (options : ReplayOptions) (r : ReplayResult)
      → replay_agreement sha256 compare pages transaction agreement options ≡ ok r
      → Replayed agreement options r
  unfolding replay_agreement at_start add_events
  replay_agreement-Replayed agreement options r h =
      let (d, a, h1) =
        >>=-eq-ok (map_error bad_program (derive_event_authority sha256 options.program_id)) _ h in
      let (history, b, h2) = >>=-eq-ok (signature_history pages options) _ h1 in
      let (p, c, h3) =
        >>=-eq-ok
          (scan sha256 compare pages transaction options.program_id d.address agreement at_start
            history)
          _ h2 in
      let k =
        scan-Kept sha256 compare pages transaction options.program_id d.address agreement history
          at_start history (λ e i. i)
          (record { count = 0; stored = refl; from_history = λ e i. absurd i }) c in
      let (same, some_events, projected) = finish_replay-lem agreement p r h3 in
      record {
        authority = d.address;
        history = history;
        store = p.store;
        count = k.count;
        is_authority = (
          d,
          map_error-eq-ok bad_program (derive_event_authority sha256 options.program_id) a,
          refl,
        );
        is_history = b;
        from_history = λ e i. k.from_history e (subst (In e) (sym same) i);
        has_events = some_events;
        stored = ap (add_events sha256 []) (sym same) ∙ k.stored;
        projected = projected;
      }
