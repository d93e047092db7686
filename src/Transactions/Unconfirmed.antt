-- ===== src/Transactions/Unconfirmed.antt =====
-- scripts/lib/transaction-lifecycle.mjs `sendExpectingSuccess`, lines 290 to 298: a submission that
-- threw and whose signature the node has seen but not confirmed.
use ppv.Base.{ℕ, zero, suc, ◌+◌, ◌≤◌, ◌≡◌, refl, Bool, true, false, some, arith, leb, ◌||◌}
use ppv.Base.Result.{Result, ok}
use ppv.Transactions.Errors.{ThrownError, Failure, is_failure, is_pre_submission_blockhash_expiry}
use ppv.Transactions.Confirming.{
  Looks, SignatureStatus, Resolution, look, is_settled, has_landed, resolution,
  confirm_by_signature,
}
use ppv.Transactions.Sending.{
  Endpoint, Prepared, submit, confirmed, success, prepare_transaction, send_expecting_success,
  resolve_ambiguity,
}
use ppv.Transactions.Rules.{poll_rule}
use ppv.Transactions.Submissions.{Advancing}

-- The node gives the signature one status at every look, which is neither accepted nor failed.
pub record StaysUnconfirmed (looks : Looks) (st : SignatureStatus) : Type 0 where
  pub looked : (n : ℕ) → look looks n ≡ ok (some st)
  pub not_landed : has_landed st ≡ false
  pub has_no_error : is_failure st.status_err ≡ false

unconfirmed-not_settled :
    {looks : Looks} {st : SignatureStatus}
    → StaysUnconfirmed looks st
    → is_settled (some st) ≡ false
unfolding is_settled
unconfirmed-not_settled {looks} {st} u =
    neither (has_landed st) (is_failure st.status_err) u.not_landed u.has_no_error
  where
    neither : (a b : Bool) → a ≡ false → b ≡ false → (a || b) ≡ false
    neither a b x y = ground arith

confirm_by_signature-late :
    (looks : Looks) (clock : ℕ → ℕ) (timeout : ℕ) (st : SignatureStatus)
    → Advancing clock
    → StaysUnconfirmed looks st
    → confirm_by_signature looks clock timeout ≡ ok (resolution (some st) true)
unfolding confirm_by_signature
confirm_by_signature-late looks clock timeout st c u =
    poll_rule looks clock deadline
      (λ f m r.
        (g : ℕ) → f ≡ suc g → deadline ≤ clock (suc m) + g → r ≡ ok (resolution (some st) true))
      (record {
        stopped = λ m g e k. absurd (omega arith);
        unseen = λ f m x e g k l. absurd (let d = u.looked m in cc);
        settled = λ f m last e s g k l.
            absurd (let d = u.looked m in let w = unconfirmed-not_settled u in cc);
        late = λ f m last e s d g k l. let w = u.looked m in cc;
        again = λ f m last r e s d go g k l. again f m r go d g (ground arith) l;
      })
      (suc timeout) 0 timeout refl (omega (arith, c 0))
  where
    deadline : ℕ
    deadline = clock 0 + timeout

    again :
        (f m : ℕ) (r : Result Failure Resolution)
        → ((g : ℕ)
            → f ≡ suc g
            → deadline ≤ clock (suc (suc m)) + g
            → r ≡ ok (resolution (some st) true))
        → leb deadline (clock (suc m)) ≡ false
        → (g : ℕ) → f ≡ g
        → deadline ≤ clock (suc m) + g
        → r ≡ ok (resolution (some st) true)
    again zero m r go d g k l = absurd (ground arith)
    again (suc f) m r go d g k l = go f refl (omega (arith, c (suc m)))

-- Where the first submission throws for another reason than a stale blockhash, and the node goes on
-- giving the signature a status that is neither confirmed nor finalized and has no error,
-- `sendExpectingSuccess` returns a success.
pub send_expecting_success-unconfirmed :
    (endpoint : Endpoint) (max timeout : ℕ) (p : Prepared) (e : ThrownError) (st : SignatureStatus)
    → prepare_transaction endpoint 0 ≡ ok p
    → endpoint.send_raw_transaction 0 p false ≡ some e
    → is_pre_submission_blockhash_expiry e ≡ false
    → Advancing endpoint.clock
    → StaysUnconfirmed (endpoint.statuses p.signature) st
    → (send_expecting_success endpoint max timeout).outcome
      ≡ ok (success p (resolution (some st) true) true)
unfolding send_expecting_success submit confirmed resolve_ambiguity resolution
send_expecting_success-unconfirmed endpoint max timeout p e st prepared threw x c u =
    rw (prepared, submit)
      (rw threw (
        rw x (
          rw
            (confirm_by_signature-late (endpoint.statuses p.signature) endpoint.clock timeout st c
              u)
            (resolved st u.has_no_error))))
  where
    resolved :
        (st : SignatureStatus)
        → is_failure st.status_err ≡ false
        → resolve_ambiguity e p (resolution (some st) true)
          ≡ ok (success p (resolution (some st) true) true)
    resolved st k = ground arith
