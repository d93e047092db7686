-- ===== src/Indexer/Store/Contents.antt =====
-- indexer/src/projections.ts: what the store holds after events were added.
use ppv.Base.{
  [], ◌≡◌, refl, Bool, Option, none, some, List, ◌∷◌, arith, list_eq, ℕ, ◌⊎◌, ◌∙◌, inl, ==_iff, inr,
  ap, ==_refl, sym,
}
use ppv.Base.Members.{In}
use ppv.Base.Dict.Laws.{put-IsMap}
use ppv.Base.Result.{Result, ok, err}
use ppv.Base.Text.{Bytes, Text}
use ppv.Base.Dict.{get, put, get-put}
use ppv.Escrow.Receipts.{
  PpvEscrowReceiptV1, ReceiptError, EscrowEventEnvelope, escrow_receipt_from_event,
}
use ppv.Escrow.Lifecycle.Chain.Index.{IsIndex}
use ppv.Escrow.Receipts.Actions.{action_eq}
use ppv.Indexer.Store.{
  ReceiptStore, StoreError, add_to, add_made, counted, add, add_event, add_events,
}

-- What `add` did: nothing, for an id that it knows, or one entry more.
pub data Added (store : ReceiptStore) (r : PpvEscrowReceiptV1) (after : ReceiptStore) : Type 0 where
  known :
      (s : PpvEscrowReceiptV1)
      → get r.receipt_id store ≡ some s
      → after ≡ store
      → Added store r after
  new : get r.receipt_id store ≡ none → after ≡ put r.receipt_id r store → Added store r after

pub add-Added :
    (store : ReceiptStore) (r : PpvEscrowReceiptV1) {b : Bool} {after : ReceiptStore}
    → add store r ≡ ok (b, after)
    → Added store r after
unfolding add add_to
add-Added store r {b} {after} e = split (get r.receipt_id store) refl e
  where
    split :
        (o : Option PpvEscrowReceiptV1)
        → get r.receipt_id store ≡ o
        → add_to store r o ≡ ok (b, after)
        → Added store r after
    split none g f = new g (cc)
    split (some s) g f = known s g (ground arith)

pub Added-IsIndex :
    (store : ReceiptStore) (r : PpvEscrowReceiptV1) (after : ReceiptStore)
    → IsIndex store
    → Added store r after
    → IsIndex after
Added-IsIndex store r after h (known s g q) = rw q h
Added-IsIndex store r after h (new g q) = rw q (record {
  is_map = put-IsMap r.receipt_id r store h.is_map;
  own_id =
      λ k s f. ground (arith, get-put r.receipt_id k r store, ==_iff r.receipt_id k, h.own_id k s);
})

-- What is kept stays.
Added-keeps :
    (store : ReceiptStore) (r : PpvEscrowReceiptV1) (after : ReceiptStore) (k : Text)
    (s : PpvEscrowReceiptV1)
    → Added store r after
    → get k store ≡ some s
    → get k after ≡ some s
Added-keeps store r after k s (known t g q) f = rw q f
Added-keeps store r after k s (new g q) f = rw q (
    ground (
      arith,
      get-put r.receipt_id k r store,
      ==_iff r.receipt_id k,
      ap (λ (x : Text). get x store),
    ))

pub Added-In :
    (store : ReceiptStore) (r : PpvEscrowReceiptV1) (after : ReceiptStore) (k : Text)
    (s : PpvEscrowReceiptV1)
    → Added store r after
    → get k after ≡ some s
    → (s ≡ r) ⊎ (get k store ≡ some s)
Added-In store r after k s (known t g q) f = inr (rw q at f)
Added-In store r after k s (new g q) f =
    let p : get k (put r.receipt_id r store) ≡ some s = rw q at f in
    ground (arith, get-put r.receipt_id k r store)

-- The receipt is there afterwards, where the id does not stand for another.
Added-has :
    (store : ReceiptStore) (r : PpvEscrowReceiptV1) (after : ReceiptStore)
    → Added store r after
    → ((s : PpvEscrowReceiptV1) → get r.receipt_id store ≡ some s → s ≡ r)
    → get r.receipt_id after ≡ some r
Added-has store r after (known s g q) h = rw q (g ∙ ap some (h s g))
Added-has store r after (new g q) h =
    rw q (get-put r.receipt_id r.receipt_id r store ∙ rw (==_refl r.receipt_id) refl)

module _ (sha256 : Text → Bytes) where
  -- The receipt of an envelope.
  abbrev pub Made : EscrowEventEnvelope → PpvEscrowReceiptV1 → Type 0
  Made e r = escrow_receipt_from_event sha256 e ≡ ok r

  -- Envelopes whose receipts share an id make the same receipt.
  abbrev pub ConsistentEvents : List EscrowEventEnvelope → Type 0
  ConsistentEvents es =
      (e f : EscrowEventEnvelope) (r s : PpvEscrowReceiptV1)
      → In e es
      → In f es
      → Made e r
      → Made f s
      → r.receipt_id ≡ s.receipt_id
      → r ≡ s

  pub record FirstAdded (store : ReceiptStore) (e : EscrowEventEnvelope)
      (es : List EscrowEventEnvelope) (after : ReceiptStore) : Type 0 where
    pub receipt : PpvEscrowReceiptV1
    pub made : Made e receipt
    pub between : ReceiptStore
    pub added : Added store receipt between
    pub count : ℕ
    pub rest : add_events sha256 between es ≡ (after, ok count)

  pub add_events-cons :
      (store : ReceiptStore) (e : EscrowEventEnvelope) (es : List EscrowEventEnvelope)
      {after : ReceiptStore} {n : ℕ}
      → add_events sha256 store (e ∷ es) ≡ (after, ok n)
      → FirstAdded store e es after
  unfolding add_events add_event
  add_events-cons store e es {after} {n} h = made (escrow_receipt_from_event sha256 e) refl h
    where
      counted-ok :
          (b : Bool) (p : ReceiptStore × Result StoreError ℕ)
          → counted b p ≡ (after, ok n)
          → (m : ℕ) × (p ≡ (after, ok m))
      counted-ok b (st, ok m) q = (m, ground arith)
      counted-ok b (st, err x) q = cc

      made :
          (o : Result ReceiptError PpvEscrowReceiptV1)
          → escrow_receipt_from_event sha256 e ≡ o
          → (elim (add_made store o) [
            | err x ↦ (store, err x)
            | ok p ↦ counted p.0 (add_events sha256 p.1 es)
          ])
            ≡ (after, ok n)
          → FirstAdded store e es after
      made (err x) q k = cc
      made (ok r) q k = stored (add store r) refl k
        where
          stored :
              (o : Result StoreError (Bool × ReceiptStore))
              → add store r ≡ o
              → (elim o [ err x ↦ (store, err x) | ok p ↦ counted p.0 (add_events sha256 p.1 es) ])
                ≡ (after, ok n)
              → FirstAdded store e es after
          stored (err x) a k = cc
          stored (ok (b, between)) a k =
              let (m, c) = counted-ok b (add_events sha256 between es) k in
              record {
                receipt = r;
                made = q;
                between = between;
                added = add-Added store r a;
                count = m;
                rest = c;
              }

  pub add_events-IsIndex :
      (store : ReceiptStore) (es : List EscrowEventEnvelope) {after : ReceiptStore} {n : ℕ}
      → IsIndex store
      → add_events sha256 store es ≡ (after, ok n)
      → IsIndex after
  unfolding add_events
  add_events-IsIndex store [] {after} h f = let q : store ≡ after = cc in rw (← q) h
  add_events-IsIndex store (e ∷ es) h f =
      let a = add_events-cons store e es f in
      add_events-IsIndex a.between es (Added-IsIndex store a.receipt a.between h a.added) a.rest

  add_events-keeps :
      (store : ReceiptStore) (es : List EscrowEventEnvelope) {after : ReceiptStore} {n : ℕ}
      (k : Text) (s : PpvEscrowReceiptV1)
      → add_events sha256 store es ≡ (after, ok n)
      → get k store ≡ some s
      → get k after ≡ some s
  unfolding add_events
  add_events-keeps store [] {after} k s f g = let q : store ≡ after = cc in rw (← q) g
  add_events-keeps store (e ∷ es) k s f g =
      let a = add_events-cons store e es f in
      add_events-keeps a.between es k s a.rest (Added-keeps store a.receipt a.between k s a.added g)

  pub add_events-In :
      (store : ReceiptStore) (es : List EscrowEventEnvelope) {after : ReceiptStore} {n : ℕ}
      (k : Text) (s : PpvEscrowReceiptV1)
      → add_events sha256 store es ≡ (after, ok n)
      → get k after ≡ some s
      → ((e : EscrowEventEnvelope) × In e es × Made e s) ⊎ (get k store ≡ some s)
  unfolding add_events
  add_events-In store [] {after} k s f g = let q : store ≡ after = cc in inr (rw q g)
  add_events-In store (e ∷ es) k s f g =
      let a = add_events-cons store e es f in
      elim (add_events-In a.between es k s a.rest g) [
        | inl (d, i, m) ↦ inl (d, inr i, m)
        | inr p ↦ elim (Added-In store a.receipt a.between k s a.added p) [
          | inl q ↦ inl (e, inl refl, a.made ∙ ap ok (sym q))
          | inr o ↦ inr o
        ]
      ]

  -- Every envelope that was added makes a receipt, which the store then holds.
  pub add_events-has :
      (store : ReceiptStore) (es : List EscrowEventEnvelope) {after : ReceiptStore} {n : ℕ}
      (e : EscrowEventEnvelope)
      → IsIndex store
      → ConsistentEvents es
      → ((d : EscrowEventEnvelope) (r s : PpvEscrowReceiptV1)
          → In d es
          → Made d r
          → get r.receipt_id store ≡ some s
          → s ≡ r)
      → add_events sha256 store es ≡ (after, ok n)
      → In e es
      → (r : PpvEscrowReceiptV1) × Made e r × (get r.receipt_id after ≡ some r)
  unfolding add_events
  add_events-has store [] e x c h f i = absurd i
  add_events-has store (d ∷ es) e x c h f i =
      let a = add_events-cons store d es f in
      let x' = Added-IsIndex store a.receipt a.between x a.added in
      elim i [
        | inl q ↦ (
          a.receipt,
          ap (λ (x : EscrowEventEnvelope). escrow_receipt_from_event sha256 x) q ∙ a.made,
          add_events-keeps a.between es a.receipt.receipt_id a.receipt a.rest (
              Added-has store a.receipt a.between a.added
                (λ s g. h d a.receipt s (inl refl) a.made g)),
        )
        | inr j ↦
            add_events-has a.between es e x' (λ x y r s p q. c x y r s (inr p) (inr q))
              (λ y r s p m g. elim (Added-In store a.receipt a.between r.receipt_id s a.added g) [
                | inl q ↦
                    q
                    ∙ c d y a.receipt r (inl refl) (inr p) a.made m (
                        sym (
                          x'.own_id r.receipt_id s g
                          ∙ ap (λ (z : PpvEscrowReceiptV1). z.receipt_id) q))
                | inr o ↦ h y r s (inr p) m o
              ])
              a.rest j
      ]
