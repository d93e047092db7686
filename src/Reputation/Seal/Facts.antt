-- ===== src/Reputation/Seal/Facts.antt =====
-- sdk/src/reputation/seal-state.ts: what each seal fact says of the events, and what a seal state
-- has behind it.
use ppv.Base.{
  arith, ◌≡◌, refl, ap, ◌∙◌, ◌↔◌, inl, inr, Bool, true, false, ◌||◌, none, some, List, [], ◌∷◌, any,
  Bool-cases, if◌then◌else◌,
}
use ppv.Base.Text.{Text, ltb_text}
use ppv.Reputation.Seal.{
  ReputationEventType, DatedEvent, SealFacts, Fold, note, note_all, later, derive_seal_facts,
  is_some_text, empty_seal_facts, agreement_executed, milestone_approved, proof_approved,
  invoice_paid, settlement_completed, milestone_settled, agreement_refunded, dispute_opened,
}
use ppv.Reputation.Seal.Latest.{latest, OpenAfterAll, open_after_iff}

abbrev pub revokes : DatedEvent → Bool
revokes e = elim e.event_type [ ReputationEventType.proof_revoked ↦ true | _ ↦ false ]

abbrev pub settles : DatedEvent → Bool
settles e = elim e.event_type [
  | invoice_paid ↦ true
  | settlement_completed ↦ true
  | milestone_settled ↦ true
  | _ ↦ false
]

abbrev pub confirms : DatedEvent → Bool
confirms e = elim e.event_type [
  | agreement_executed ↦ true
  | milestone_approved ↦ true
  | proof_approved ↦ true
  | invoice_paid ↦ true
  | settlement_completed ↦ true
  | milestone_settled ↦ true
  | _ ↦ false
]

abbrev pub refunds : DatedEvent → Bool
refunds e = elim e.event_type [ agreement_refunded ↦ true | _ ↦ false ]

abbrev pub opens : DatedEvent → Bool
opens e = elim e.event_type [ dispute_opened ↦ true | _ ↦ false ]

abbrev pub resolves : DatedEvent → Bool
resolves e = elim e.event_type [ ReputationEventType.dispute_resolved ↦ true | _ ↦ false ]

-- When the events of one sort happened.
abbrev pub times : (DatedEvent → Bool) → List DatedEvent → List Text
times p [] = []
times p (e ∷ es) = let rest = times p es in if p e then e.occurred_at ∷ rest else rest

record Noted (s : Fold) (es : List DatedEvent) (s' : Fold) : Type 0 where
  opened : s'.last_opened ≡ latest s.last_opened (times opens es)
  resolved : s'.last_resolved ≡ latest s.last_resolved (times resolves es)
  chain : s'.facts.chain_verified ≡ s.facts.chain_verified
  revocation : s'.facts.proof_revoked ≡ (s.facts.proof_revoked || any revokes es)
  confirmation :
      s'.facts.counterparty_confirmed ≡ (s.facts.counterparty_confirmed || any confirms es)
  settlement : s'.facts.settled ≡ (s.facts.settled || any settles es)
  refund : s'.facts.refunded ≡ (s.facts.refunded || any refunds es)

or_false : (b : Bool) → b ≡ (b || false)
or_false b = ground arith

note-flags :
    (e : DatedEvent) (s : Fold)
    → let n = note e.occurred_at e.event_type s in
      (n.facts.chain_verified ≡ s.facts.chain_verified)
      × (n.facts.proof_revoked ≡ (s.facts.proof_revoked || revokes e))
      × (n.facts.counterparty_confirmed ≡ (s.facts.counterparty_confirmed || confirms e))
      × (n.facts.settled ≡ (s.facts.settled || settles e))
      × (n.facts.refunded ≡ (s.facts.refunded || refunds e))
unfolding note
note-flags e s = ground arith

-- The time that a dispute event adds, among those that follow.
note-opened :
    (e : DatedEvent) (s : Fold) (ts : List Text)
    → latest (note e.occurred_at e.event_type s).last_opened ts
      ≡ latest s.last_opened (if opens e then e.occurred_at ∷ ts else ts)
unfolding note
note-opened e s ts = ground arith

note-resolved :
    (e : DatedEvent) (s : Fold) (ts : List Text)
    → latest (note e.occurred_at e.event_type s).last_resolved ts
      ≡ latest s.last_resolved (if resolves e then e.occurred_at ∷ ts else ts)
unfolding note
note-resolved e s ts = ground arith

or_assoc : (a b c : Bool) {x : Bool} → x ≡ (a || b) → (x || c) ≡ (a || (b || c))
or_assoc a b c h = ground arith

note_all-Noted : (s : Fold) (es : List DatedEvent) → Noted s es (note_all s es)
unfolding note_all
note_all-Noted s [] = record {
  opened = refl;
  resolved = refl;
  chain = refl;
  revocation = or_false s.facts.proof_revoked;
  confirmation = or_false s.facts.counterparty_confirmed;
  settlement = or_false s.facts.settled;
  refund = or_false s.facts.refunded;
}
note_all-Noted s (e ∷ es) =
    let n = note_all-Noted (note e.occurred_at e.event_type s) es in
    let f = note-flags e s in
    record {
      opened = n.opened ∙ note-opened e s (times opens es);
      resolved = n.resolved ∙ note-resolved e s (times resolves es);
      chain = n.chain ∙ f.0;
      revocation = n.revocation ∙ or_assoc s.facts.proof_revoked (revokes e) (any revokes es) f.1;
      confirmation =
          n.confirmation
          ∙ or_assoc s.facts.counterparty_confirmed (confirms e) (any confirms es) f.2;
      settlement = n.settlement ∙ or_assoc s.facts.settled (settles e) (any settles es) f.3;
      refund = n.refund ∙ or_assoc s.facts.refunded (refunds e) (any refunds es) f.4;
    }

-- What each fact says of the events.
pub record Derived (es : List DatedEvent) (cv : Bool) (f : SealFacts) : Type 0 where
  pub chain : f.chain_verified ≡ cv
  pub revocation : f.proof_revoked ≡ any revokes es
  pub confirmation : f.counterparty_confirmed ≡ any confirms es
  pub settlement : f.settled ≡ any settles es
  pub refund : f.refunded ≡ any refunds es
  pub resolution : f.dispute_resolved ≡ any resolves es
  pub open_dispute : (f.dispute_open ≡ true) ↔ OpenAfterAll (times opens es) (times resolves es)

start : Bool → Fold
start cv = record {
  last_opened = none;
  last_resolved = none;
  facts = record empty_seal_facts { chain_verified = cv };
}

is_some-resolves :
    (es : List DatedEvent) → is_some_text (latest none (times resolves es)) ≡ any resolves es
unfolding later
is_some-resolves [] = refl
is_some-resolves (e ∷ es) = elim (Bool-cases (resolves e)) [
  | inl q ↦ rw q (stays e.occurred_at (times resolves es))
  | inr q ↦ rw q (is_some-resolves es)
]
  where
    stays : (t : Text) (ts : List Text) → is_some_text (latest (some t) ts) ≡ true
    stays t [] = refl
    stays t (u ∷ ts) = elim (Bool-cases (ltb_text t u)) [
      | inl q ↦ rw q (stays u ts)
      | inr q ↦ rw q (stays t ts)
    ]

-- The derived facts say that a proof was revoked, the other party confirmed, value was settled,
-- money was returned or a dispute was resolved exactly when there is an event of that sort; and
-- that a dispute is open exactly when one was opened after every resolution.
pub derive_seal_facts-Derived :
    (es : List DatedEvent) (cv : Bool) → Derived es cv (derive_seal_facts es cv)
unfolding derive_seal_facts start
derive_seal_facts-Derived es cv =
    let n = note_all-Noted (start cv) es in
    record {
      chain = n.chain;
      revocation = n.revocation;
      confirmation = n.confirmation;
      settlement = n.settlement;
      refund = n.refund;
      resolution = ap is_some_text n.resolved ∙ is_some-resolves es;
      open_dispute =
          rw (n.opened, n.resolved) (open_after_iff (times opens es) (times resolves es));
    }
