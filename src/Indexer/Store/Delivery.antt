-- ===== src/Indexer/Store/Delivery.antt =====
-- indexer/src/projections.ts: events that come more than once and in any order.
use ppv.Reputation.Contracts.{behind, is_run, is_hex}
use ppv.Escrow.Events.{timestamp_of}
use ppv.Escrow.Receipts.{
  receipt_preimage, iso_from_unix, or_else, escrow_receipt_from_event, escrow_receipt_id,
}
use ppv.Escrow.Receipts.Actions.{action_of}
use ppv.Base.Int.{ltb_ℤ, pos}
use ppv.Base.Text.{codes}
use ppv.Indexer.Store.Contents.{Made}
use ppv.Reputation.Participants.Identifiers.{IsDigest, forty_digits}
use ppv.Base.{
  ◌++◌, refl, ◌≡◌, ◌↔◌, inl, inr, some, none, Option, List, [], ◌∷◌, ℕ, ◌+◌, ◌==◌, list_eq, Bool,
  true, ◌∙◌, sym, ap, if◌then◌else◌, false, ==_refl,
}
use ppv.Base.Members.{In, SameMembers, In-select}
use ppv.Base.Int.{ℤ, ltb_ℤ, pos}
use ppv.Base.Text.{Text, Bytes, codes}
use ppv.Base.Result.{ok, err, Result, >>=-eq-ok, throw_if}
use ppv.Base.Dict.{get, put, values}
use ppv.Escrow.Receipts.{
  PpvEscrowReceiptV1, EscrowEventEnvelope, escrow_receipt_from_event, escrow_receipt_id,
  ReceiptError, iso_from_unix, or_else,
}
use ppv.Escrow.Receipts.Actions.{action_eq}
use ppv.Escrow.Lifecycle.Chain.Index.{IsIndex-nil, In-values, Index-injective, IsIndex}
use ppv.Escrow.Lifecycle.Keys.{IsCollation, IsReceiptId}
use ppv.Escrow.Lifecycle.Delivery.{reconstruct-SameMembers}
use ppv.Escrow.Lifecycle.Reconstruct.{AgreementLifecycle}
use ppv.Indexer.Store.{
  ReceiptStore, add, add_event, add_events, for_agreement, all, project_agreement, add_to, counted,
  add_made,
}
use ppv.Indexer.Store.Contents.{
  add-Added, Added-IsIndex, Added-In, Made, ConsistentEvents, add_events-IsIndex, add_events-In,
  add_events-has,
}

module _ (sha256 : Text → Bytes) where
  -- The store holds the receipts of the envelopes, and nothing else.
  pub add_events-members :
      (es : List EscrowEventEnvelope) {store : ReceiptStore} {n : ℕ} (r : PpvEscrowReceiptV1)
      → ConsistentEvents sha256 es
      → add_events sha256 [] es ≡ (store, ok n)
      → In r (values store) ↔ ((e : EscrowEventEnvelope) × In e es × Made sha256 e r)
  unfolding get
  add_events-members es {store} r c f =
      let x = add_events-IsIndex sha256 [] es IsIndex-nil f in
      (
        λ i. elim (add_events-In sha256 [] es r.receipt_id r f ((In-values store r x).0 i)) [
          | inl m ↦ m
          | inr g ↦ cc
        ],
        λ (e, i, m).
            let (s, made, g) =
              add_events-has sha256 [] es e IsIndex-nil c (λ d t u p q h. cc) f i in
            let q : s ≡ r = cc in
            (In-values store r x).1
              (ap (λ (t : PpvEscrowReceiptV1). get t.receipt_id store) (sym q) ∙ (g ∙ ap some q)),
      )

  add_accepts :
      (store : ReceiptStore) (r : PpvEscrowReceiptV1)
      → ((s : PpvEscrowReceiptV1) → get r.receipt_id store ≡ some s → s ≡ r)
      → (b : Bool) × (between : ReceiptStore) × (add store r ≡ ok (b, between))
  unfolding add add_to
  add_accepts store r h = split (get r.receipt_id store) h
    where
      split :
          (o : Option PpvEscrowReceiptV1)
          → ((s : PpvEscrowReceiptV1) → o ≡ some s → s ≡ r)
          → (b : Bool) × (between : ReceiptStore) × (add_to store r o ≡ ok (b, between))
      split none k = (true, put r.receipt_id r store, refl)
      split (some s) k = (false, store, rw (k s refl, ==_refl r.action, ==_refl r.agreement) refl)

  add_events-step :
      (store : ReceiptStore) (e : EscrowEventEnvelope) (es : List EscrowEventEnvelope)
      (r : PpvEscrowReceiptV1) (b : Bool) (between after : ReceiptStore) (n : ℕ)
      → Made sha256 e r
      → add store r ≡ ok (b, between)
      → add_events sha256 between es ≡ (after, ok n)
      → add_events sha256 store (e ∷ es) ≡ (after, ok ((if b then 1 else 0) + n))
  unfolding add_events add_event
  add_events-step store e es r b between after n made added rest =
      ap (λ o. elim o [ err x ↦ (store, err x) | ok p ↦ counted p.0 (add_events sha256 p.1 es) ])
        (ap (add_made store) made ∙ added)
      ∙ ap (counted b) rest

  -- Envelopes that agree, and that make receipts, are never refused.
  add_events_total :
      (store : ReceiptStore) (es : List EscrowEventEnvelope)
      → IsIndex store
      → ConsistentEvents sha256 es
      → ((e : EscrowEventEnvelope) → In e es → (r : PpvEscrowReceiptV1) × Made sha256 e r)
      → ((e : EscrowEventEnvelope) (r s : PpvEscrowReceiptV1)
          → In e es
          → Made sha256 e r
          → get r.receipt_id store ≡ some s
          → s ≡ r)
      → (after : ReceiptStore) × (n : ℕ) × (add_events sha256 store es ≡ (after, ok n))
  unfolding add_events
  add_events_total store [] x c m h = (store, 0, refl)
  add_events_total store (e ∷ es) x c m h =
      let (r, made) = m e (inl refl) in
      let (b, between, added) = add_accepts store r (λ s g. h e r s (inl refl) made g) in
      let x' = Added-IsIndex store r between x (add-Added store r added) in
      let (after, n, f) =
        add_events_total between es x' (λ y z t u p q. c y z t u (inr p) (inr q))
          (λ d i. m d (inr i))
          (λ d t s i w k.
            elim (Added-In store r between t.receipt_id s (add-Added store r added) k) [
              | inl q ↦
                  q
                  ∙ c e d r t (inl refl) (inr i) made w (
                      sym (
                        x'.own_id t.receipt_id s k
                        ∙ ap (λ (z : PpvEscrowReceiptV1). z.receipt_id) q))
              | inr o ↦ h d t s (inr i) w o
            ]) in
      (after, (if b then 1 else 0) + n, add_events-step store e es r b between after n made added f)

receipt_id_formed :
    (t : Text)
    → behind (codes "ppvr_") (is_run is_hex 40 40) (codes "ppvr_" ++ t) ≡ is_run is_hex 40 40 t
unfolding behind
receipt_id_formed t = refl

Made-IsReceiptId :
    (sha256 : Text → Bytes) (e : EscrowEventEnvelope) (r : PpvEscrowReceiptV1)
    → ((t : Text) → IsDigest (sha256 t))
    → Made sha256 e r
    → IsReceiptId r.receipt_id
unfolding escrow_receipt_from_event escrow_receipt_id
Made-IsReceiptId sha256 e r digest h =
    let (u, a, h1) = >>=-eq-ok (throw_if (e.transaction_signature == []) _) _ h in
    let (v, b, h2) = >>=-eq-ok (throw_if (ltb_ℤ e.instruction_index (pos 0)) _) _ h1 in
    let (w, c, h3) = >>=-eq-ok (throw_if (ltb_ℤ e.slot (pos 0)) _) _ h2 in
    let (t, d, h4) = >>=-eq-ok (iso_from_unix (or_else e.block_time (timestamp_of e.event))) _ h3 in
    made _ _ refl h4 (
      receipt_id_formed _
      ∙ forty_digits
          (sha256 (
            receipt_preimage e.program_id e.transaction_signature e.instruction_index
              e.inner_instruction_index (action_of e.event)))
          (digest _))
  where
    made :
        (m : Result ReceiptError PpvEscrowReceiptV1) (x : PpvEscrowReceiptV1)
        → m ≡ ok x
        → m ≡ ok r
        → IsReceiptId x.receipt_id
        → IsReceiptId r.receipt_id
    made m x o p k = let q : x ≡ r = cc in rw (← q) k

module _ (sha256 : Text → Bytes) (digest : (t : Text) → IsDigest (sha256 t))
    (compare : Text → Text → ℤ) (law : IsCollation compare) where
  -- Where the hash gives 32 bytes, envelopes that share a receipt id make one receipt, and the
  -- collation compares consistently and tells texts of the form of receipt ids apart: when the store
  -- has taken in a list of envelopes, it takes in every other list of the same envelopes, in any
  -- order and with any repetitions, and each agreement that the first store projects is projected the
  -- same by the second.
  pub project_agreement-SameMembers :
      (es fs : List EscrowEventEnvelope) (agreement : Text) {store : ReceiptStore} {n : ℕ}
      {l : AgreementLifecycle}
      → ConsistentEvents sha256 es
      → SameMembers es fs
      → add_events sha256 [] es ≡ (store, ok n)
      → project_agreement compare store agreement ≡ ok l
      → (after : ReceiptStore) × (m : ℕ) × (add_events sha256 [] fs ≡ (after, ok m))
        × (project_agreement compare after agreement ≡ ok l)
  unfolding project_agreement for_agreement all get
  project_agreement-SameMembers es fs agreement {store} c same f e =
      let c' : ConsistentEvents sha256 fs =
        λ x y r s p q. c x y r s ((same x).1 p) ((same y).1 q) in
      let (after, m, g) =
        add_events_total sha256 [] fs IsIndex-nil c'
          (λ d i.
            let (r, made, h) =
              add_events-has sha256 [] es d IsIndex-nil c (λ x t u p q k. cc) f ((same d).1 i) in
            (r, made))
          (λ d r s i w k. cc) in
      let x = add_events-IsIndex sha256 [] es IsIndex-nil f in
      let there : (r : PpvEscrowReceiptV1) → In r (values store) ↔ In r (values after) = λ r. (
        λ i.
            let (d, j, w) = (add_events-members sha256 es r c f).0 i in
            (add_events-members sha256 fs r c' g).1 (d, (same d).0 j, w),
        λ i.
            let (d, j, w) = (add_events-members sha256 fs r c' g).0 i in
            (add_events-members sha256 es r c f).1 (d, (same d).1 j, w),
      ) in
      (
        after,
        m,
        g,
        reconstruct-SameMembers compare law (for_agreement store agreement)
            (for_agreement after agreement)
            (λ r s i j q.
              Index-injective store r s x
                ((In-select r (λ t. t.agreement == agreement) (values store)).0 i).0
                ((In-select s (λ t. t.agreement == agreement) (values store)).0 j).0 q)
            (λ r. (
              λ i.
                  let (j, t) = (In-select r (λ t. t.agreement == agreement) (values store)).0 i in
                  (In-select r (λ t. t.agreement == agreement) (values after)).1 ((there r).0 j, t),
              λ i.
                  let (j, t) = (In-select r (λ t. t.agreement == agreement) (values after)).0 i in
                  (In-select r (λ t. t.agreement == agreement) (values store)).1 ((there r).1 j, t),
            ))
            (λ r i.
              let (j, t) = (In-select r (λ t. t.agreement == agreement) (values store)).0 i in
              let (d, k, w) = (add_events-members sha256 es r c f).0 j in
              Made-IsReceiptId sha256 d r digest w)
            e,
      )
