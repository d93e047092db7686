-- ===== src/Reputation/Seal/Delivery.antt =====
-- sdk/src/reputation/seal-state.ts: order and repetition of events, and what stands behind each seal.
use ppv.Base.{
  arith, ◌≡◌, refl, sym, ap, ◌∙◌, ◌↔◌, inl, inr, Bool, true, false, List, [], ◌∷◌, any, Bool-cases,
  not, ◌&&◌, if◌then◌else◌,
}
use ppv.Base.Members.{In, SameMembers, SameMembers-symm, any-In}
use ppv.Base.Text.{Text}
use ppv.Reputation.Seal.{
  DatedEvent, PpvSealState, SealFacts, derive_seal_facts, resolve_seal_state, revoked, verified,
  recorded,
}
use ppv.Reputation.Seal.Latest.{OpenAfterAll}
use ppv.Reputation.Seal.Facts.{
  revokes, settles, confirms, refunds, opens, resolves, times, Derived, derive_seal_facts-Derived,
}

any_witness :
    (p : DatedEvent → Bool) (es : List DatedEvent)
    → any p es ≡ true
    → (e : DatedEvent) × In e es × (p e ≡ true)
any_witness p [] h = cc
any_witness p (e ∷ es) h = elim (Bool-cases (p e)) [
  | inl q ↦ (e, inl refl, q)
  | inr q ↦ let (d, i, t) = any_witness p es (rw q at h) in (d, inr i, t)
]

Bool_ext : (a b : Bool) → (a ≡ true → b ≡ true) → (b ≡ true → a ≡ true) → a ≡ b
Bool_ext a b h k = ground arith

any-SameMembers :
    (p : DatedEvent → Bool) (es fs : List DatedEvent) → SameMembers es fs → any p es ≡ any p fs
any-SameMembers p es fs same =
    Bool_ext (any p es) (any p fs)
      (λ h. let (e, i, t) = any_witness p es h in any-In p fs e ((same e).0 i) t)
      (λ h. let (e, i, t) = any_witness p fs h in any-In p es e ((same e).1 i) t)

times-In :
    (p : DatedEvent → Bool) (es : List DatedEvent) (t : Text)
    → In t (times p es) ↔ ((e : DatedEvent) × In e es × (p e ≡ true) × (t ≡ e.occurred_at))
times-In p [] t = (λ i. absurd i, λ h. h.1)
times-In p (e ∷ es) t = elim (Bool-cases (p e)) [
  | inl q ↦ (
    λ i.
        let j : In t (e.occurred_at ∷ times p es) = rw q at i in
        elim j [
          | inl r ↦ (e, inl refl, q, r)
          | inr k ↦ let (d, m, y, z) = (times-In p es t).0 k in (d, inr m, y, z)
        ],
    λ (d, i, y, z). rw q (elim i [
      | inl r ↦ inl (z ∙ ap (λ (x : DatedEvent). x.occurred_at) r)
      | inr j ↦ inr ((times-In p es t).1 (d, j, y, z))
    ]),
  )
  | inr q ↦ (
    λ i.
        let j : In t (times p es) = rw q at i in
        let (d, m, y, z) = (times-In p es t).0 j in (d, inr m, y, z),
    λ (d, i, y, z).
        rw q (elim i [
          | inl r ↦ absurd (cc (y, q, ap p r))
          | inr j ↦ (times-In p es t).1 (d, j, y, z)
        ]),
  )
]

times-moves :
    (p : DatedEvent → Bool) (es fs : List DatedEvent) (t : Text)
    → SameMembers es fs
    → In t (times p es)
    → In t (times p fs)
times-moves p es fs t same i =
    let (e, j, y, z) = (times-In p es t).0 i in (times-In p fs t).1 (e, (same e).0 j, y, z)

OpenAfterAll-moves :
    (es fs : List DatedEvent)
    → SameMembers es fs
    → OpenAfterAll (times opens es) (times resolves es)
    → OpenAfterAll (times opens fs) (times resolves fs)
OpenAfterAll-moves es fs same (o, i, h) = (
  o,
  times-moves opens es fs o same i,
  λ r j. h r (times-moves resolves fs es r (SameMembers-symm es fs same) j),
)

abbrev facts_with : Bool → Bool → Bool → Bool → Bool → Bool → Bool → SealFacts
facts_with a b c d e f g = record {
  chain_verified = a;
  proof_revoked = b;
  counterparty_confirmed = c;
  settled = d;
  refunded = e;
  dispute_open = f;
  dispute_resolved = g;
}

-- The seal facts are the same for every list of the same events, in any order and with any
-- repetitions.
pub derive_seal_facts-SameMembers :
    (es fs : List DatedEvent) (cv : Bool)
    → SameMembers es fs
    → derive_seal_facts es cv ≡ derive_seal_facts fs cv
derive_seal_facts-SameMembers es fs cv same =
    let a = derive_seal_facts-Derived es cv in
    let b = derive_seal_facts-Derived fs cv in
    equal (derive_seal_facts es cv) (derive_seal_facts fs cv) (a.chain ∙ sym b.chain)
      (a.revocation ∙ (any-SameMembers revokes es fs same ∙ sym b.revocation))
      (a.confirmation ∙ (any-SameMembers confirms es fs same ∙ sym b.confirmation))
      (a.settlement ∙ (any-SameMembers settles es fs same ∙ sym b.settlement))
      (a.refund ∙ (any-SameMembers refunds es fs same ∙ sym b.refund))
      (Bool_ext (derive_seal_facts es cv).dispute_open (derive_seal_facts fs cv).dispute_open
        (λ h. b.open_dispute.1 (OpenAfterAll-moves es fs same (a.open_dispute.0 h)))
        (λ h.
          a.open_dispute.1
            (OpenAfterAll-moves fs es (SameMembers-symm es fs same) (b.open_dispute.0 h))))
      (a.resolution ∙ (any-SameMembers resolves es fs same ∙ sym b.resolution))
  where
    equal :
        (f g : SealFacts)
        → f.chain_verified ≡ g.chain_verified
        → f.proof_revoked ≡ g.proof_revoked
        → f.counterparty_confirmed ≡ g.counterparty_confirmed
        → f.settled ≡ g.settled
        → f.refunded ≡ g.refunded
        → f.dispute_open ≡ g.dispute_open
        → f.dispute_resolved ≡ g.dispute_resolved
        → f ≡ g
    equal f g p1 p2 p3 p4 p5 p6 p7 =
        let q : facts_with f.chain_verified f.proof_revoked f.counterparty_confirmed f.settled
              f.refunded f.dispute_open f.dispute_resolved
            ≡ facts_with g.chain_verified g.proof_revoked g.counterparty_confirmed g.settled
                g.refunded g.dispute_open g.dispute_resolved =
          cc in
        q

-- A dispute has ended and none is open.
abbrev pub DisputeOver : List DatedEvent → Type 0
DisputeOver es = (any resolves es ≡ true) × (¬ OpenAfterAll (times opens es) (times resolves es))

-- What stands behind each state of the seal.
abbrev pub Earned : List DatedEvent → Bool → PpvSealState → Type 0
Earned es cv revoked = any revokes es ≡ true
Earned es cv PpvSealState.dispute_resolved = (any revokes es ≡ false) × DisputeOver es
Earned es cv PpvSealState.settled =
    (any revokes es ≡ false) × (¬ DisputeOver es) × (any settles es ≡ true)
Earned es cv PpvSealState.counterparty_confirmed =
    (any revokes es ≡ false)
    × (¬ DisputeOver es)
    × (any settles es ≡ false)
    × (any confirms es ≡ true)
Earned es cv verified =
    (any revokes es ≡ false)
    × (¬ DisputeOver es)
    × (any settles es ≡ false)
    × (any confirms es ≡ false)
    × (cv ≡ true)
Earned es cv recorded =
    (any revokes es ≡ false)
    × (¬ DisputeOver es)
    × (any settles es ≡ false)
    × (any confirms es ≡ false)
    × (cv ≡ false)

over_iff :
    (es : List DatedEvent) (cv : Bool) (f : SealFacts)
    → Derived es cv f
    → ((f.dispute_resolved && not f.dispute_open) ≡ true) ↔ DisputeOver es
over_iff es cv f d = (
  λ h.
      let (ended, closed) = parts f.dispute_resolved f.dispute_open h in
      (sym d.resolution ∙ ended, λ o. cc (closed, d.open_dispute.1 o)),
  λ (ended, closed).
      whole f.dispute_resolved f.dispute_open (d.resolution ∙ ended)
        (λ o. closed (d.open_dispute.0 o)),
)
  where
    parts : (a b : Bool) → (a && not b) ≡ true → (a ≡ true) × (b ≡ false)
    parts a b h = ground arith

    whole : (a b : Bool) → a ≡ true → ¬ (b ≡ true) → (a && not b) ≡ true
    whole a b h k = ground arith

ladder :
    (es : List DatedEvent) (cv r o s c v : Bool)
    → any revokes es ≡ r
    → (o ≡ true) ↔ DisputeOver es
    → any settles es ≡ s
    → any confirms es ≡ c
    → cv ≡ v
    → Earned es cv (
        if r
        then revoked
        else if o
        then PpvSealState.dispute_resolved
        else if s
        then PpvSealState.settled
        else if c
        then PpvSealState.counterparty_confirmed
        else if v
        then verified
        else recorded)
ladder es cv true o s c v a b d e f = a
ladder es cv false true s c v a b d e f = (a, b.0 refl)
ladder es cv false false true c v a b d e f = (a, λ x. cc (b.1 x), d)
ladder es cv false false false true v a b d e f = (a, λ x. cc (b.1 x), d, e)
ladder es cv false false false false true a b d e f = (a, λ x. cc (b.1 x), d, e, f)
ladder es cv false false false false false a b d e f = (a, λ x. cc (b.1 x), d, e, f)

-- The seal state resolved from the derived facts is earned: it is revoked exactly when a proof was
-- revoked; otherwise it is dispute_resolved exactly when a dispute was resolved and none was
-- opened after every resolution; otherwise settled exactly when an event moved value; otherwise
-- counterparty_confirmed exactly when the other party accepted something; otherwise verified or
-- recorded by the check on the chain.
pub resolve_seal_state-Earned :
    (es : List DatedEvent) (cv : Bool) → Earned es cv (resolve_seal_state (derive_seal_facts es cv))
unfolding resolve_seal_state
resolve_seal_state-Earned es cv =
    let f = derive_seal_facts es cv in
    let d = derive_seal_facts-Derived es cv in
    ladder es cv f.proof_revoked (f.dispute_resolved && not f.dispute_open) f.settled
      f.counterparty_confirmed f.chain_verified (sym d.revocation) (over_iff es cv f d)
      (sym d.settlement) (sym d.confirmation) (sym d.chain)
