-- ===== src/Transactions/Submissions.antt =====
-- scripts/lib/transaction-lifecycle.mjs: how often a transaction is submitted, and that the loops
-- end.
use ppv.Base.{
  ℕ, zero, suc, ◌+◌, ◌≤◌, ◌<◌, ◌≡◌, ◌≢◌, refl, Bool, true, false, none, some, List, [], ◌∷◌, arith,
  length, leb, ◌∙◌,
}
use ppv.Base.Result.{Result, err, >>=-ne-err}
use ppv.Transactions.Errors.{ThrownError, Failure, out_of_fuel, is_pre_submission_blockhash_expiry}
use ppv.Transactions.Confirming.{Looks, Resolution, poll, look, confirm_by_signature}
use ppv.Transactions.Rules.{SubmitCases, submit_rule, poll_rule}
use ppv.Transactions.Sending.{
  Endpoint, Prepared, Submission, Sent, submit, confirmed, prepare_transaction,
  send_expecting_success, expect_success, resolve_ambiguity, submission, fail, also_sent, signed,
}
use ppv.Transactions.Refusing.{
  Reporting, send_expecting_refusal, expect_refusal, refusal_after_error, finish_refusal,
}

abbrev pub was_expired : Submission → Bool
was_expired s = elim s.thrown [ none ↦ false | some e ↦ is_pre_submission_blockhash_expiry e ]

-- Every submission but the last was refused for a stale blockhash before it was broadcast.
abbrev pub ResendsOnlyExpired : List Submission → Type 0
ResendsOnlyExpired [] = Unit
ResendsOnlyExpired (s ∷ []) = Unit
ResendsOnlyExpired (s ∷ t ∷ ts) = (was_expired s ≡ true) × ResendsOnlyExpired (t ∷ ts)

cons-ResendsOnlyExpired :
    (s : Submission) (ts : List Submission)
    → was_expired s ≡ true
    → ResendsOnlyExpired ts
    → ResendsOnlyExpired (s ∷ ts)
cons-ResendsOnlyExpired s [] e h = tt
cons-ResendsOnlyExpired s (t ∷ ts) e h = (e, h)

module _ {ℓ} {A : Type ℓ} (endpoint : Endpoint) (skip : Bool) (max : ℕ)
    (accepted : Prepared → Result Failure A)
    (failed : ThrownError → Prepared → Result Failure A) where
  bounds_cases :
      SubmitCases endpoint skip max accepted failed
        (λ f n r. ResendsOnlyExpired r.submissions × (n ≤ max → length r.submissions + n ≤ suc max))
  unfolding also_sent submission
  bounds_cases = record {
    stopped = λ n. (tt, λ h. omega arith);
    unprepared = λ f n e h. (tt, λ k. omega arith);
    taken = λ f n p h. (tt, λ k. omega arith);
    given_up = λ f n p. (tt, λ k. omega arith);
    again = λ f n p e rest s b l (r, h). (
      cons-ResendsOnlyExpired (submission endpoint n skip p) rest.submissions (rw s b) r,
      λ k. ground (arith, h),
    );
    broken = λ f n p e s b. (tt, λ k. omega arith);
  }

  prepare_transaction-ne-out_of_fuel : (n : ℕ) → prepare_transaction endpoint n ≢ err out_of_fuel
  unfolding prepare_transaction signed fail
  prepare_transaction-ne-out_of_fuel n = ground arith

  ends_cases :
      ((p : Prepared) → accepted p ≢ err out_of_fuel)
      → ((e : ThrownError) (p : Prepared) → failed e p ≢ err out_of_fuel)
      → SubmitCases endpoint skip max accepted failed
          (λ f n r. suc max ≤ f + n → n ≤ max → r.outcome ≢ err out_of_fuel)
  unfolding fail also_sent
  ends_cases a b = record {
    stopped = λ n h k. absurd (omega arith);
    unprepared = λ f n e s h k. λ x. prepare_transaction-ne-out_of_fuel n (s ∙ cc);
    taken = λ f n p s h k. a p;
    given_up = λ f n p h k. λ x. cc;
    again = λ f n p e rest s x l go h k. go (omega arith) (ground arith);
    broken = λ f n p e s x h k. b e p;
  }

-- How a sender behaves towards the node, whatever the node answers.
pub record Sends {ℓ} {A : Type ℓ} (max : ℕ) (r : Sent A) : Type ℓ where
  pub ends : r.outcome ≢ err out_of_fuel
  pub resends : ResendsOnlyExpired r.submissions
  pub bounded : length r.submissions ≤ suc max

submit-Sends {ℓ} :
    {A : Type ℓ} (endpoint : Endpoint) (skip : Bool) (max : ℕ)
    (accepted : Prepared → Result Failure A) (failed : ThrownError → Prepared → Result Failure A)
    → ((p : Prepared) → accepted p ≢ err out_of_fuel)
    → ((e : ThrownError) (p : Prepared) → failed e p ≢ err out_of_fuel)
    → Sends max (submit endpoint skip max accepted failed (suc max) 0)
submit-Sends endpoint skip max accepted failed a b =
    let (r, l) =
      submit_rule endpoint skip max accepted failed _
        (bounds_cases endpoint skip max accepted failed) (suc max) 0 in
    record {
      ends =
          submit_rule endpoint skip max accepted failed _
            (ends_cases endpoint skip max accepted failed a b) (suc max) 0 (omega arith)
            (omega arith);
      resends = r;
      bounded = let k = l (omega arith) in omega arith;
    }

look-ne-out_of_fuel : (looks : Looks) (n : ℕ) → look looks n ≢ err out_of_fuel
unfolding look
look-ne-out_of_fuel looks n = ground arith

-- Each reading of the clock is later than the one before.
abbrev pub Advancing : (ℕ → ℕ) → Type 0
Advancing clock = (n : ℕ) → clock n < clock (suc n)

poll-ne-out_of_fuel :
    (looks : Looks) (clock : ℕ → ℕ) (deadline : ℕ)
    → Advancing clock
    → (fuel n : ℕ) → deadline ≤ clock (suc n) + fuel
    → poll looks clock deadline (suc fuel) n ≢ err out_of_fuel
poll-ne-out_of_fuel looks clock deadline c fuel n h =
    poll_rule looks clock deadline
      (λ f m r. (g : ℕ) → f ≡ suc g → deadline ≤ clock (suc m) + g → r ≢ err out_of_fuel)
      (record {
        stopped = λ m g e k. absurd (omega arith);
        unseen = λ f m x e g k l y. look-ne-out_of_fuel looks m (e ∙ cc);
        settled = λ f m last e s g k l y. cc;
        late = λ f m last e s d g k l y. cc;
        again = λ f m last r e s d go g k l. again f m r go d g (ground arith) l;
      })
      (suc fuel) n fuel refl h
  where
    again :
        (f m : ℕ) (r : Result Failure Resolution)
        → ((g : ℕ) → f ≡ suc g → deadline ≤ clock (suc (suc m)) + g → r ≢ err out_of_fuel)
        → leb deadline (clock (suc m)) ≡ false
        → (g : ℕ) → f ≡ g
        → deadline ≤ clock (suc m) + g
        → r ≢ err out_of_fuel
    again zero m r go d g k l = ground arith
    again (suc f) m r go d g k l = go f refl (omega (arith, c (suc m)))

clock_bound : (clock : ℕ → ℕ) → Advancing clock → (n : ℕ) → clock 0 + n ≤ clock n
clock_bound clock c zero = omega arith
clock_bound clock c (suc n) = omega (arith, c n, clock_bound clock c n)

confirm_by_signature-ne-out_of_fuel :
    (looks : Looks) (clock : ℕ → ℕ) (timeout : ℕ)
    → Advancing clock
    → confirm_by_signature looks clock timeout ≢ err out_of_fuel
unfolding confirm_by_signature
confirm_by_signature-ne-out_of_fuel looks clock timeout c =
    poll-ne-out_of_fuel looks clock (clock 0 + timeout) c timeout 0 (omega (arith, c 0))

confirmed-ne-out_of_fuel {ℓ} :
    {A : Type ℓ} (endpoint : Endpoint) (timeout : ℕ)
    (next : Prepared → Resolution → Result Failure A)
    → Advancing endpoint.clock
    → ((p : Prepared) (r : Resolution) → next p r ≢ err out_of_fuel)
    → (p : Prepared) → confirmed endpoint timeout next p ≢ err out_of_fuel
unfolding confirmed
confirmed-ne-out_of_fuel endpoint timeout next c h p =
    >>=-ne-err _ (next p)
      (confirm_by_signature-ne-out_of_fuel (endpoint.statuses p.signature) endpoint.clock timeout c)
      (h p)

-- Where the clock advances, `sendExpectingSuccess` comes to an end whatever the node answers; it
-- submits at most one more time than the retries allow, and it submits again only after a
-- submission that was refused for a stale blockhash before it was broadcast.
pub send_expecting_success-Sends :
    (endpoint : Endpoint) (max timeout : ℕ)
    → Advancing endpoint.clock
    → Sends max (send_expecting_success endpoint max timeout)
unfolding send_expecting_success expect_success resolve_ambiguity fail
send_expecting_success-Sends endpoint max timeout c =
    submit-Sends endpoint false max _ _
      (confirmed-ne-out_of_fuel endpoint timeout expect_success c expected)
      (λ e. confirmed-ne-out_of_fuel endpoint timeout (resolve_ambiguity e) c (resolved e))
  where
    expected : (p : Prepared) (r : Resolution) → expect_success p r ≢ err out_of_fuel
    expected p r = ground arith

    resolved :
        (e : ThrownError) (p : Prepared) (r : Resolution)
        → resolve_ambiguity e p r ≢ err out_of_fuel
    resolved e p r = ground arith

-- Where the clock advances, `sendExpectingRefusal` comes to an end whatever the node answers; it
-- submits at most one more time than the retries allow, and it submits again only after a
-- submission that was refused for a stale blockhash before it was broadcast.
pub send_expecting_refusal-Sends :
    (endpoint : Endpoint) (report : Reporting) (max timeout : ℕ)
    → Advancing endpoint.clock
    → Sends max (send_expecting_refusal endpoint report max timeout)
unfolding send_expecting_refusal expect_refusal refusal_after_error finish_refusal fail
send_expecting_refusal-Sends endpoint report max timeout c =
    submit-Sends endpoint true max _ _
      (confirmed-ne-out_of_fuel endpoint timeout (expect_refusal report) c expected)
      (λ e. confirmed-ne-out_of_fuel endpoint timeout (refusal_after_error report e) c (resolved e))
  where
    expected : (p : Prepared) (r : Resolution) → expect_refusal report p r ≢ err out_of_fuel
    expected p r = ground arith

    resolved :
        (e : ThrownError) (p : Prepared) (r : Resolution)
        → refusal_after_error report e p r ≢ err out_of_fuel
    resolved e p r = ground arith
