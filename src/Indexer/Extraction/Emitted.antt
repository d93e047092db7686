-- ===== src/Indexer/Extraction/Emitted.antt =====
-- indexer/src/events.ts `extractEscrowEvents`: which events a transaction has.
use ppv.Base.{
  ◌==◌, ==_iff, ◌&&◌, option_eq, list_eq, nat_eq, ℕ, ◌≡◌, ◌↔◌, inl, inr, refl, sym, ap, ◌∙◌, subst,
  arith, true, false, Option, none, some, List, [], get_elem?, Bool-cases, Bool,
}
use ppv.Base.Result.{Result, ok}
use ppv.Base.Int.{pos}
use ppv.Base.Text.{Text, Bytes}
use ppv.Base.Members.{In}
use ppv.Escrow.Events.{PpvEscrowEvent}
use ppv.Escrow.Receipts.{EscrowEventEnvelope}
use ppv.Indexer.Extraction.{
  RpcInstruction, RpcInnerInstructions, RpcTransaction, ExtractError, Source, is_event_call,
  read_event, envelope_at, extract_signed, extract_escrow_events, has_failed, first_signature,
  inner_groups, account_keys_of, program_of, first_account,
}
use ppv.Indexer.Extraction.Found.{extract_groups-FoundIn}

is_event_call_iff :
    (program_id authority : Text) (keys : List Text) (i : RpcInstruction)
    → (is_event_call program_id authority keys i ≡ true)
      ↔ ((program_of keys i ≡ some program_id) × (first_account keys i.accounts ≡ some authority))
unfolding is_event_call
is_event_call_iff program_id authority keys i =
    both (program_of keys i == some program_id) (first_account keys i.accounts == some authority)
      (==_iff (program_of keys i) (some program_id))
      (==_iff (first_account keys i.accounts) (some authority))
  where
    both :
        (a b : Bool) {P Q : Type 0} → (a ≡ true) ↔ P → (b ≡ true) ↔ Q → ((a && b) ≡ true) ↔ (P × Q)
    both true b p q = ((λ h. (p.0 refl, q.0 h)), λ (x, y). q.1 y)
    both false b p q = ((λ h. cc), λ (x, y). p.1 x)

module _ (sha256 : Bytes → Bytes) where
  -- An event that a transaction has: of an inner instruction of a transaction that did not fail,
  -- of the program, with the event authority as its first account, whose payload decodes; the
  -- envelope names the transaction by its first signature and the instruction by its two numbers.
  pub record Emitted (program_id authority : Text) (tx : RpcTransaction) (e : EscrowEventEnvelope)
      : Type 0 where
    pub signature : Text
    pub group : RpcInnerInstructions
    pub at : ℕ
    pub instruction : RpcInstruction
    pub event : PpvEscrowEvent
    pub not_failed : has_failed tx.about ≡ false
    pub signed : first_signature tx.signatures ≡ some signature
    pub is_group : In group (inner_groups tx.about)
    pub stands : get_elem? group.instructions at ≡ some instruction
    pub calls_program : program_of (account_keys_of tx) instruction ≡ some program_id
    pub authority_first : first_account (account_keys_of tx) instruction.accounts ≡ some authority
    pub reads : read_event sha256 instruction.payload ≡ ok (some event)
    pub is_envelope : e ≡ record {
      event = event;
      program_id = program_id;
      transaction_signature = signature;
      slot = tx.slot;
      instruction_index = group.index;
      inner_instruction_index = some (pos at);
      block_time = tx.block_time;
    }

  -- Where extraction returns, the envelopes are those of the events that the transaction has, and no
  -- other.
  pub extract_escrow_events-Emitted :
      (program_id authority : Text) (tx : RpcTransaction) {es : List EscrowEventEnvelope}
      (e : EscrowEventEnvelope)
      → extract_escrow_events sha256 program_id authority tx ≡ ok es
      → In e es ↔ Emitted program_id authority tx e
  unfolding extract_escrow_events extract_signed envelope_at
  extract_escrow_events-Emitted program_id authority tx {es} e h =
      elim (Bool-cases (has_failed tx.about)) [
        | inl c ↦ ((λ i. absurd (nothing (rw c at h) i)), λ m. let n = m.not_failed in cc)
        | inr c ↦ signed (first_signature tx.signatures) refl c (rw c at h)
      ]
    where
      same : {x y : Text} → some x ≡ some y → x ≡ y
      same p = cc

      nothing :
          ◌≡◌ {A = Result ExtractError (List EscrowEventEnvelope)} (ok []) (ok es) → In e es → ⊥
      nothing k i = let q : [] ≡ es = cc in subst (In e) (sym q) i

      source : Text → Source
      source signature = record {
        program_id = program_id;
        authority = authority;
        keys = account_keys_of tx;
        signature = signature;
        slot = tx.slot;
        block_time = tx.block_time;
      }

      signed :
          (o : Option Text)
          → first_signature tx.signatures ≡ o
          → has_failed tx.about ≡ false
          → extract_signed sha256 program_id authority tx o ≡ ok es
          → In e es ↔ Emitted program_id authority tx e
      signed none q c k = ((λ i. absurd (nothing k i)), λ m. let n = m.signed in cc)
      signed (some s) q c k =
          let both = extract_groups-FoundIn sha256 (source s) (inner_groups tx.about) e k in
          (
            λ i.
                let (g, j, f) = both.0 i in
                record {
                  signature = s;
                  group = g;
                  at = f.at;
                  instruction = f.instruction;
                  event = f.event;
                  not_failed = c;
                  signed = q;
                  is_group = j;
                  stands = f.stands;
                  calls_program =
                      ((is_event_call_iff program_id authority (account_keys_of tx) f.instruction).0
                        f.is_call).0;
                  authority_first =
                      ((is_event_call_iff program_id authority (account_keys_of tx) f.instruction).0
                        f.is_call).1;
                  reads = f.reads;
                  is_envelope =
                      f.is_envelope
                      ∙ ap (λ n. envelope_at (source s) g.index n f.event)
                          (f.counted ∙ omega arith);
                },
            λ m. both.1 (
              m.group,
              m.is_group,
              record {
                at = m.at;
                number = m.at;
                instruction = m.instruction;
                event = m.event;
                stands = m.stands;
                counted = omega arith;
                is_call =
                    (is_event_call_iff program_id authority (account_keys_of tx) m.instruction).1
                      (m.calls_program, m.authority_first);
                reads = m.reads;
                is_envelope =
                    m.is_envelope
                    ∙ ap (λ t. envelope_at (source t) m.group.index m.at m.event)
                        (same (sym m.signed ∙ q));
              },
            ),
          )
