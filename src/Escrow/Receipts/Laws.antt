-- ===== src/Escrow/Receipts/Laws.antt =====
-- What sdk/src/escrow/receipts.ts makes of an event: when it makes a receipt, and of which kind.
use ppv.Base.{
  [], ◌≡◌, ◌↔◌, refl, ap, ◌∙◌, Bool, true, false, Option, none, some, arith, ◌==◌, ==_iff, ==_ne,
  list_eq, option_eq, ltb, if◌then◌else◌,
}
use ppv.Base.Result.{Result, ok, err, ◌>>=◌, ◌>>◌, throw_if, >>=-eq-ok, throw_if-eq-ok}
use ppv.Base.Int.{ℤ, pos, negsuc, ltb_ℤ, ◌≤ℤ◌}
use ppv.Base.Text.{Text, Bytes, max_date_seconds, iso_string}
use ppv.Escrow.States.{AgreementState, state_eq}
use ppv.Escrow.Events.{timestamp_of}
use ppv.Escrow.Receipts.{
  PpvEscrowReceiptV1, requires_transaction_signature, invalid_instruction_index, invalid_slot,
  ReceiptError, EscrowEventEnvelope, escrow_receipt_from_event, iso_from_unix, invalid_time_value,
  kind_of, or_else, annotation, facts_of,
}

kind_of_iff :
    (previous : Option AgreementState) (next : AgreementState)
    → (kind_of previous next ≡ annotation) ↔ (previous ≡ some next)
unfolding kind_of
kind_of_iff none next = (λ e. cc, λ e. cc)
kind_of_iff (some s) next = ground (arith, ==_iff s next)

-- The time that a receipt reports: the block's, or else the event's own.
abbrev time_of : EscrowEventEnvelope → ℤ
time_of e = or_else e.block_time (timestamp_of e.event)

-- An envelope with a signature, whose indices and time are in range.
abbrev pub IsValid : EscrowEventEnvelope → Type 0
IsValid e =
    (¬ (e.transaction_signature ≡ []))
    × (pos 0 ≤ℤ e.instruction_index)
    × (pos 0 ≤ℤ e.slot)
    × (pos 0 ≤ℤ time_of e)
    × (time_of e ≤ℤ pos max_date_seconds)

iso_from_unix-Returns :
    (t : ℤ) → ((x : Text) × (iso_from_unix t ≡ ok x)) ↔ ((pos 0 ≤ℤ t) × (t ≤ℤ pos max_date_seconds))
unfolding iso_from_unix
iso_from_unix-Returns (negsuc n) = (λ p. cc (p.1), λ h. ground arith)
iso_from_unix-Returns (pos n) = split (ltb max_date_seconds n) refl
  where
    split :
        (b : Bool)
        → ltb max_date_seconds n ≡ b
        → ((x : Text) × ((if b then err invalid_time_value else ok (iso_string n)) ≡ ok x))
          ↔ ((pos 0 ≤ℤ pos n) × (pos n ≤ℤ pos max_date_seconds))
    split true q = (λ p. cc (p.1), λ h. absurd (too_late q h.1))
      where
        too_late : ltb max_date_seconds n ≡ true → ¬ (pos n ≤ℤ pos max_date_seconds)
        too_late e k = ground arith
    split false q = (λ p. (ground arith, ground arith), λ h. (iso_string n, refl))

-- A guard in front passes, and so does what follows.
throw_if-Returns :
    {B : Type 0} (c : Bool) (x : ReceiptError) (m : Result ReceiptError B)
    → ((r : B) × ((throw_if c x >> m) ≡ ok r)) ↔ ((c ≡ false) × ((r : B) × (m ≡ ok r)))
throw_if-Returns true x m = (λ p. cc (p.1), λ q. cc (q.0))
throw_if-Returns false x m = (λ p. (refl, p), λ q. q.1)

bind-Returns :
    {A B : Type 0} (m : Result ReceiptError A) (f : A → Result ReceiptError B) {a : A}
    → m ≡ ok a
    → ((x : A) → (r : B) × (f x ≡ ok r))
    → (r : B) × ((m >>= f) ≡ ok r)
bind-Returns m f {a} e k = let (r, h) = k a in (r, ap (λ o. o >>= f) e ∙ h)

module _ (sha256 : Text → Bytes) where
  -- A receipt that was made is an annotation exactly when the event left the agreement in the
  -- state in which it found it, and a transition otherwise.
  pub escrow_receipt_from_event-kind :
      (e : EscrowEventEnvelope) (r : PpvEscrowReceiptV1)
      → escrow_receipt_from_event sha256 e ≡ ok r
      → (r.kind ≡ annotation) ↔ (r.previous_state ≡ some r.new_state)
  unfolding escrow_receipt_from_event
  escrow_receipt_from_event-kind e r h =
      let (u, a, h1) = >>=-eq-ok (throw_if (e.transaction_signature == []) _) _ h in
      let (v, b, h2) = >>=-eq-ok (throw_if (ltb_ℤ e.instruction_index (pos 0)) _) _ h1 in
      let (w, c, h3) = >>=-eq-ok (throw_if (ltb_ℤ e.slot (pos 0)) _) _ h2 in
      let (t, d, h4) =
        >>=-eq-ok (iso_from_unix (or_else e.block_time (timestamp_of e.event))) _ h3 in
      made _ _ refl h4 (kind_of_iff (facts_of e.event).previous_state (facts_of e.event).new_state)
    where
      made :
          (m : Result ReceiptError PpvEscrowReceiptV1) (x : PpvEscrowReceiptV1)
          → m ≡ ok x
          → m ≡ ok r
          → (x.kind ≡ annotation) ↔ (x.previous_state ≡ some x.new_state)
          → (r.kind ≡ annotation) ↔ (r.previous_state ≡ some r.new_state)
      made m x o p k = let q : x ≡ r = cc in rw (← q) k

  -- An envelope makes a receipt exactly when it is valid: it has a signature, its instruction
  -- index and slot are not negative, and its time is one that a date can hold.
  pub escrow_receipt_from_event-iff-IsValid :
      (e : EscrowEventEnvelope)
      → ((r : PpvEscrowReceiptV1) × (escrow_receipt_from_event sha256 e ≡ ok r)) ↔ IsValid e
  unfolding escrow_receipt_from_event
  escrow_receipt_from_event-iff-IsValid e = (
    λ (r, h).
        let (u, a, h1) = >>=-eq-ok (throw_if (e.transaction_signature == []) _) _ h in
        let (v, b, h2) = >>=-eq-ok (throw_if (ltb_ℤ e.instruction_index (pos 0)) _) _ h1 in
        let (w, c, h3) = >>=-eq-ok (throw_if (ltb_ℤ e.slot (pos 0)) _) _ h2 in
        let (t, d, h4) = >>=-eq-ok (iso_from_unix (time_of e)) _ h3 in
        let time = (iso_from_unix-Returns (time_of e)).0 (t, d) in
        (
          λ q. cc (throw_if-eq-ok _ _ a, (==_iff e.transaction_signature []).1 q),
          (not_below e.instruction_index).0 (throw_if-eq-ok _ _ b),
          (not_below e.slot).0 (throw_if-eq-ok _ _ c),
          time.0,
          time.1,
        ),
    λ (a, b, c, d, f).
        let (t, made) = (iso_from_unix-Returns (time_of e)).1 (d, f) in
        (throw_if-Returns (e.transaction_signature == []) requires_transaction_signature _).1 (
          signed a,
          (throw_if-Returns (ltb_ℤ e.instruction_index (pos 0)) invalid_instruction_index _).1 (
            (not_below e.instruction_index).1 b,
            (throw_if-Returns (ltb_ℤ e.slot (pos 0)) invalid_slot _).1 (
              (not_below e.slot).1 c,
              bind-Returns (iso_from_unix (time_of e)) _ made (λ x. (_, refl)),
            ),
          ),
        ),
  )
    where
      signed : ¬ (e.transaction_signature ≡ []) → (e.transaction_signature == []) ≡ false
      signed n = ==_ne e.transaction_signature [] n

      not_below : (x : ℤ) → (ltb_ℤ x (pos 0) ≡ false) ↔ (pos 0 ≤ℤ x)
      not_below x = ground arith
