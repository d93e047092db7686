-- ===== src/Transactions/Rules.antt =====
-- Induction over the two loops of scripts/lib/transaction-lifecycle.mjs.
use ppv.Base.{
  ℕ, zero, suc, ◌≡◌, inl, inr, Bool, true, false, Option, none, some, [], ◌∷◌, Option-cases,
  Bool-cases, leb,
}
use ppv.Base.Result.{Result, ok, err, Result-cases, ◌>>=◌}
use ppv.Transactions.Errors.{
  ThrownError, Failure, out_of_fuel, is_pre_submission_blockhash_expiry,
  pre_submission_blockhash_expired, no_detail,
}
use ppv.Transactions.Confirming.{
  Looks, Resolution, poll, look, is_settled, SignatureStatus, resolution,
}
use ppv.Transactions.Sending.{
  Endpoint, Prepared, Sent, submit, prepare_transaction, submission, fail, also_sent,
}

module _ {ℓ} {A : Type ℓ} (endpoint : Endpoint) (skip : Bool) (max : ℕ)
    (accepted : Prepared → Result Failure A)
    (failed : ThrownError → Prepared → Result Failure A) where
  -- What has to be shown of each way through the loop, of `P` at the fuel and the attempts.
  pub record SubmitCases {κ} (P : ℕ → ℕ → Sent A → Type κ) : Type (ℓ ⊔ κ) where
    pub stopped : (n : ℕ) → P zero n (record { submissions = []; outcome = err out_of_fuel })
    pub unprepared :
        (f n : ℕ) (e : Failure)
        → prepare_transaction endpoint n ≡ err e
        → P (suc f) n (record { submissions = []; outcome = err e })
    pub taken :
        (f n : ℕ) (p : Prepared)
        → endpoint.send_raw_transaction n p skip ≡ none
        → P
            (suc f)
            n
            (record { submissions = submission endpoint n skip p ∷ []; outcome = accepted p })
    pub given_up :
        (f n : ℕ) (p : Prepared)
        → P (suc f) n (record {
          submissions = submission endpoint n skip p ∷ [];
          outcome = fail pre_submission_blockhash_expired none no_detail;
        })
    pub again :
        (f n : ℕ) (p : Prepared) (e : ThrownError) (rest : Sent A)
        → endpoint.send_raw_transaction n p skip ≡ some e
        → is_pre_submission_blockhash_expiry e ≡ true
        → leb max n ≡ false
        → P f (suc n) rest
        → P (suc f) n (also_sent (submission endpoint n skip p) rest)
    pub broken :
        (f n : ℕ) (p : Prepared) (e : ThrownError)
        → endpoint.send_raw_transaction n p skip ≡ some e
        → is_pre_submission_blockhash_expiry e ≡ false
        → P
            (suc f)
            n
            (record { submissions = submission endpoint n skip p ∷ []; outcome = failed e p })

  pub submit_rule {κ} :
      (P : ℕ → ℕ → Sent A → Type κ)
      → SubmitCases P
      → (f n : ℕ) → P f n (submit endpoint skip max accepted failed f n)
  unfolding submit
  submit_rule P c zero n = c.stopped n
  submit_rule P c (suc f) n = elim (Result-cases (prepare_transaction endpoint n)) [
    | inr (x, e) ↦ rw (e, submit) (c.unprepared f n x e)
    | inl (p, e) ↦
        rw (e, submit)
          (elim (Option-cases (endpoint.send_raw_transaction n p skip)) [
            | inl s ↦ rw s (c.taken f n p s)
            | inr (x, s) ↦ rw s (elim (Bool-cases (is_pre_submission_blockhash_expiry x)) [
              | inr b ↦ rw b (c.broken f n p x s b)
              | inl b ↦ rw b (elim (Bool-cases (leb max n)) [
                | inl l ↦ rw l (c.given_up f n p)
                | inr l ↦ rw l (c.again f n p x _ s b l (submit_rule P c f (suc n)))
              ])
            ])
          ])
  ]

-- What has to be shown of each way through the polling loop.
pub record PollCases {κ} (looks : Looks) (clock : ℕ → ℕ) (deadline : ℕ)
    (P : ℕ → ℕ → Result Failure Resolution → Type κ) : Type κ where
  pub stopped : (n : ℕ) → P zero n (err out_of_fuel)
  pub unseen : (f n : ℕ) (x : Failure) → look looks n ≡ err x → P (suc f) n (err x)
  pub settled :
      (f n : ℕ) (last : Option SignatureStatus)
      → look looks n ≡ ok last
      → is_settled last ≡ true
      → P (suc f) n (ok (resolution last false))
  pub late :
      (f n : ℕ) (last : Option SignatureStatus)
      → look looks n ≡ ok last
      → is_settled last ≡ false
      → leb deadline (clock (suc n)) ≡ true
      → P (suc f) n (ok (resolution last true))
  pub again :
      (f n : ℕ) (last : Option SignatureStatus) (r : Result Failure Resolution)
      → look looks n ≡ ok last
      → is_settled last ≡ false
      → leb deadline (clock (suc n)) ≡ false
      → P f (suc n) r
      → P (suc f) n r

pub poll_rule {κ} :
    (looks : Looks) (clock : ℕ → ℕ) (deadline : ℕ) (P : ℕ → ℕ → Result Failure Resolution → Type κ)
    → PollCases looks clock deadline P
    → (f n : ℕ) → P f n (poll looks clock deadline f n)
unfolding poll
poll_rule looks clock deadline P c zero n = c.stopped n
poll_rule looks clock deadline P c (suc f) n = elim (Result-cases (look looks n)) [
  | inr (x, e) ↦ rw (e, poll) (c.unseen f n x e)
  | inl (last, e) ↦
      rw (e, poll, ◌>>=◌)
        (elim (Bool-cases (is_settled last)) [
          | inl s ↦ rw (s, ◌>>=◌) (c.settled f n last e s)
          | inr s ↦
              rw (s, ◌>>=◌)
                (elim (Bool-cases (leb deadline (clock (suc n)))) [
                  | inl d ↦ rw (d, ◌>>=◌) (c.late f n last e s d)
                  | inr d ↦
                      rw (d, ◌>>=◌)
                        (c.again f n last _ e s d (poll_rule looks clock deadline P c f (suc n)))
                ])
        ])
]
