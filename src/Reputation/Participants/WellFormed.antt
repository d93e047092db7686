-- ===== src/Reputation/Participants/WellFormed.antt =====
-- sdk/src/reputation/receipts.ts: the receipts of a well-formed event are well formed.
use ppv.Base.{
  ◌≡◌, refl, Bool, true, false, not, ◌&&◌, Bool-cases, inl, inr, Option, none, some, List, [], ◌∷◌,
  ◌++◌, All, map, every, select, any, ◌==◌, list_eq, if◌then◌else◌, Option-cases, true_and,
}
use ppv.Reputation.Participants.Identifiers.{IsDigest, forty_digits}
use ppv.Reputation.Participants.EventParts.{IsNamed, EventParts, event_parts}
use ppv.Base.Text.{Text, Bytes, codes}
use ppv.Reputation.Contracts.{
  PpvReceiptV1, GnsRecordSnapshotV1, behind, is_run, is_hex, nullable, is_solana_address,
  is_gns_record_snapshot, snapshot_matches_wallet, snapshot_list_matches_wallets, is_ppv_receipt_v1,
  ParticipantRole,
}
use ppv.Reputation.Contracts.Events.{
  ReputationEventV1, snapshot_matches_nullable, is_reputation_event_v1,
}
use ppv.Reputation.Eligibility.{receipt_id, is_given}
use ppv.Reputation.Participants.{
  Participant, ReceiptProjectionContext, counterparty_of, arbiter_of, participants_for,
  project_receipt, project_receipts, is_dispute, hinted, default_roles,
}

module _ (sha256 : Text → Bytes) (digest : (t : Text) → IsDigest (sha256 t))
    (is_date : Text → Bool) where
  receipt_id-hex :
      (e h : Text) (r : ParticipantRole)
      → behind (codes "rcpt_") (is_run is_hex 40 40) (receipt_id sha256 e h r) ≡ true
  unfolding receipt_id behind
  receipt_id-hex e h r = forty_digits (sha256 _) (digest _)

  abbrev IsNamedParticipant : Participant → Type 0
  IsNamedParticipant p = IsNamed is_date p.wallet p.gns_record

  others-IsNamed :
      (keep : Participant → Bool) (ps : List Participant)
      → All IsNamedParticipant ps
      → All IsNamedParticipant (select keep ps)
  others-IsNamed keep [] h = tt
  others-IsNamed keep (p ∷ ps) (h, k) = elim (Bool-cases (keep p)) [
    | inl e ↦ rw e (h, others-IsNamed keep ps k)
    | inr e ↦ rw e (others-IsNamed keep ps k)
  ]

  wallets_of :
      (ps : List Participant)
      → All IsNamedParticipant ps
      → (every is_solana_address (map (λ p. p.wallet) ps) ≡ true)
        × (every (nullable (is_gns_record_snapshot is_date)) (map (λ p. p.gns_record) ps) ≡ true)
        × (snapshot_list_matches_wallets is_date
              (map (λ p. p.gns_record) ps)
              (map (λ p. p.wallet) ps)
            ≡ true)
  unfolding snapshot_list_matches_wallets
  wallets_of [] h = (refl, refl, refl)
  wallets_of (p ∷ ps) (h, k) =
      let (a, b, c) = wallets_of ps k in
      (true_and _ _ h.address a, true_and _ _ h.snapshot_valid b, true_and _ _ h.snapshot_matches c)

  if_named :
      (joins : Bool) (p : Participant)
      → IsNamedParticipant p
      → All IsNamedParticipant (if joins then p ∷ [] else [])
  if_named true p h = (h, tt)
  if_named false p h = tt

  -- The arbiter of the context, where it names one.
  abbrev pub HasNamedArbiter : ReceiptProjectionContext → Type 0
  HasNamedArbiter context =
      (wallet : Text)
      → context.arbiter_wallet ≡ some wallet
      → IsNamed is_date wallet context.arbiter_gns_record

  project_receipt-valid :
      (e : ReputationEventV1) (holder : Participant) (others : List Participant)
      (context : ReceiptProjectionContext)
      → EventParts is_date e
      → IsNamedParticipant holder
      → All IsNamedParticipant others
      → is_ppv_receipt_v1 is_date (project_receipt sha256 e holder others context) ≡ true
  unfolding is_ppv_receipt_v1 project_receipt nullable
  project_receipt-valid e holder others context v h k =
      let (wallets, snapshots, match) = wallets_of others k in
      true_and _ _ (receipt_id-hex e.event_id holder.wallet holder.role) (
        true_and _ _ v.event_id (
          true_and _ _ v.proof (
            true_and _ _ v.proof_hash (
              true_and _ _ v.agreement (
                true_and _ _ h.address (
                  true_and _ _ h.snapshot_valid (
                    true_and _ _ h.snapshot_matches (
                      true_and _ _ wallets (
                        true_and _ _ snapshots (
                          true_and _ _ match (
                            true_and _ _ v.object (
                              true_and _ _ v.deliverable (
                                true_and _ _ v.amount (
                                  true_and _ _ v.mint (
                                    true_and _ _ v.program (
                                      true_and _ _ v.signature (
                                        true_and _ _ v.index (
                                          true_and _ _ v.inner_index
                                            (true_and _ _ v.time refl)))))))))))))))))))

  counterparty_of-IsNamed :
      (e : ReputationEventV1) (context : ReceiptProjectionContext)
      → EventParts is_date e
      → All IsNamedParticipant (counterparty_of e context)
  unfolding counterparty_of nullable snapshot_matches_nullable
  counterparty_of-IsNamed e context v = elim (Option-cases e.counterparty_wallet) [
    | inl none_given ↦ rw (none_given, counterparty_of) tt
    | inr (wallet, given) ↦
        let address : is_solana_address wallet ≡ true = rw given at v.counterparty in
        let matches : snapshot_matches_nullable is_date e.counterparty_gns_record (some wallet)
            ≡ true =
          rw given at v.counterparty_matches in
        let named : IsNamed is_date wallet e.counterparty_gns_record = record {
          address = address;
          snapshot_valid = v.counterparty_snapshot;
          snapshot_matches = matches_wallet e.counterparty_gns_record wallet matches;
        } in
        rw (given, counterparty_of)
          (if_named (is_given (some wallet) && not (wallet == e.actor_wallet)) _ named)
  ]
    where
      matches_wallet :
          (s : Option GnsRecordSnapshotV1) (w : Text)
          → snapshot_matches_nullable is_date s (some w) ≡ true
          → snapshot_matches_wallet is_date s w ≡ true
      matches_wallet none w h = refl
      matches_wallet (some s) w h = h

  arbiter_of-IsNamed :
      (e : ReputationEventV1) (context : ReceiptProjectionContext) (ps : List Participant)
      → HasNamedArbiter context
      → All IsNamedParticipant (arbiter_of e context ps)
  unfolding arbiter_of
  arbiter_of-IsNamed e context ps h = elim (Option-cases context.arbiter_wallet) [
    | inl none_given ↦ rw (none_given, arbiter_of) tt
    | inr (wallet, given) ↦
        rw (given, arbiter_of)
          (if_named
            (is_dispute e.event_type
              && (is_given (some wallet) && not (any (λ p. p.wallet == wallet) ps)))
            _ (h wallet given))
  ]

  named_append :
      (ps qs : List Participant)
      → All IsNamedParticipant ps
      → All IsNamedParticipant qs
      → All IsNamedParticipant (ps ++ qs)
  named_append [] qs h k = k
  named_append (p ∷ ps) qs (h, hs) k = (h, named_append ps qs hs k)

  participants_for-IsNamed :
      (e : ReputationEventV1) (context : ReceiptProjectionContext)
      → EventParts is_date e
      → HasNamedArbiter context
      → All IsNamedParticipant (participants_for e context)
  unfolding participants_for
  participants_for-IsNamed e context v h =
      let actor : Participant = record {
        wallet = e.actor_wallet;
        gns_record = e.actor_gns_record;
        role = hinted context.role_hints e.actor_wallet (default_roles e).actor;
      } in
      let parties = actor ∷ counterparty_of e context in
      named_append parties (arbiter_of e context parties)
        (v.actor, counterparty_of-IsNamed e context v) (arbiter_of-IsNamed e context parties h)

  receipts_of :
      (e : ReputationEventV1) (context : ReceiptProjectionContext) (all holders : List Participant)
      → EventParts is_date e
      → All IsNamedParticipant all
      → All IsNamedParticipant holders
      → All
          (λ (r : PpvReceiptV1). is_ppv_receipt_v1 is_date r ≡ true)
          (map
            (λ holder.
              project_receipt sha256 e holder
                (select (λ p. not (p.wallet == holder.wallet)) all)
                context)
            holders)
  receipts_of e context all [] v h k = tt
  receipts_of e context all (p ∷ ps) v h (n, k) = (
    project_receipt-valid e p _ context v n (others-IsNamed _ all h),
    receipts_of e context all ps v h k,
  )

  -- Where the hash always gives 32 bytes, the event is well formed, and the arbiter that the context
  -- names, if it does, has an address and a snapshot that is its own: every receipt that is
  -- projected from the event passes the test of a receipt.
  pub project_receipts-valid :
      (e : ReputationEventV1) (context : ReceiptProjectionContext)
      → is_reputation_event_v1 is_date e ≡ true
      → HasNamedArbiter context
      → All
          (λ (r : PpvReceiptV1). is_ppv_receipt_v1 is_date r ≡ true)
          (project_receipts sha256 e context)
  unfolding project_receipts
  project_receipts-valid e context valid arbiter =
      let v = event_parts is_date e valid in
      let named = participants_for-IsNamed e context v arbiter in
      receipts_of e context (participants_for e context) (participants_for e context) v named named
