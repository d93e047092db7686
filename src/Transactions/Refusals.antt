-- ===== src/Transactions/Refusals.antt =====
-- scripts/lib/transaction-lifecycle.mjs `sendExpectingRefusal`: what a refusal has seen on the chain.
use ppv.Base.{
  list_eq, ℕ, suc, ◌≡◌, inl, inr, refl, sym, ap, ◌∙◌, Bool, true, Option, none, some, List, arith,
  subst,
}
use ppv.Base.Result.{ok}
use ppv.Transactions.Errors.{ThrownError, is_failure}
use ppv.Transactions.Confirming.{SignatureStatus, Resolution, resolution}
use ppv.Transactions.Sending.{Endpoint, Prepared, Submission, confirmed, fail}
use ppv.Transactions.Refusing.{
  Refusal, Reporting, send_expecting_refusal, expect_refusal, refusal_after_error, finish_refusal,
}
use ppv.Transactions.Returning.{
  Seen, OnChain, look-OnChain, Submitted, submit-Returned, confirmed-Seen,
}

-- The chain status that a refusal stands for.
pub record ProvenRefusal (endpoint : Endpoint) (f : Refusal) (sent : List Submission) : Type 0 where
  pub submitted : Submitted sent f.signature
  pub status : SignatureStatus
  pub on_chain : OnChain endpoint f.signature status
  pub reported : f.chain_err ≡ status.status_err
  pub failed_there : is_failure f.chain_err ≡ true

finish_refusal-lem :
    (report : Reporting) (p : Prepared) (last : Option SignatureStatus) (late : Bool) (f : Refusal)
    → finish_refusal report p (resolution last late) ≡ ok f
    → (st : SignatureStatus) × (last ≡ some st)
      × (p.signature ≡ f.signature)
      × (f.chain_err ≡ st.status_err)
      × (is_failure f.chain_err ≡ true)
unfolding finish_refusal resolution fail is_failure
finish_refusal-lem report p none late f h = absurd (cc)
finish_refusal-lem report p (some st) late f h =
    (st, refl, ground arith, ground arith, ground arith)

expect_refusal-lem :
    (report : Reporting) (p : Prepared) (r : Resolution) (f : Refusal)
    → expect_refusal report p r ≡ ok f
    → finish_refusal report p r ≡ ok f
unfolding expect_refusal fail
expect_refusal-lem report p r f h = ground arith

refusal_after_error-lem :
    (report : Reporting) (e : ThrownError) (p : Prepared) (r : Resolution) (f : Refusal)
    → refusal_after_error report e p r ≡ ok f
    → finish_refusal report p r ≡ ok f
unfolding refusal_after_error fail
refusal_after_error-lem report e p r f h = ground arith

-- A refusal that `sendExpectingRefusal` returns is of a signature that it submitted and that the
-- node gave a status of whose error is the refusal's, and that error is one.
pub send_expecting_refusal-ProvenRefusal :
    (endpoint : Endpoint) (report : Reporting) (max timeout : ℕ) (f : Refusal)
    → (send_expecting_refusal endpoint report max timeout).outcome ≡ ok f
    → ProvenRefusal endpoint f (send_expecting_refusal endpoint report max timeout).submissions
unfolding send_expecting_refusal
send_expecting_refusal-ProvenRefusal endpoint report max timeout f h =
    let (p, sent, ways) =
      submit-Returned endpoint true max (confirmed endpoint timeout (expect_refusal report))
        (λ e. confirmed endpoint timeout (refusal_after_error report e)) (suc max) 0 f h in
    elim ways [
      | inl k ↦
          let (r, seen, t) = confirmed-Seen endpoint timeout (expect_refusal report) p f k in
          proven p sent seen (expect_refusal-lem report p r f t)
      | inr (e, k) ↦
          let (r, seen, t) = confirmed-Seen endpoint timeout (refusal_after_error report e) p f k in
          proven p sent seen (refusal_after_error-lem report e p r f t)
    ]
  where
    proven :
        {sent : List Submission} (p : Prepared)
        → Submitted sent p.signature
        → {r : Resolution} → Seen (endpoint.statuses p.signature) r
        → finish_refusal report p r ≡ ok f
        → ProvenRefusal endpoint f sent
    proven {sent} p submitted seen t =
        let t' = subst (λ q. finish_refusal report p q ≡ ok f) (sym seen.is_resolution) t in
        let (st, is_last, same, reported, failed) =
          finish_refusal-lem report p seen.last seen.late f t' in
        record {
          submitted = subst (Submitted sent) same submitted;
          status = st;
          on_chain = look-OnChain endpoint same (seen.at) (seen.looked ∙ ap ok is_last);
          reported = reported;
          failed_there = failed;
        }
