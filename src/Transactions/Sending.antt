-- ===== src/Transactions/Sending.antt =====
-- scripts/lib/transaction-lifecycle.mjs: `prepareTransaction`, `sendExpectingSuccess` and what they
-- call. The pause before a submission and between two looks
-- shows only in the clock.
use ppv.Base.{
  ℕ, zero, suc, Bool, true, false, not, ◌&&◌, ◌||◌, Option, none, some, List, [], ◌∷◌, leb,
  if◌then◌else◌,
}
use ppv.Base.Result.{Result, ok, err, ◌>>=◌}
use ppv.Base.Text.{Text, Bytes}
use ppv.Base58.{encode_base58}
use ppv.Transactions.Errors.{
  Classification, pre_submission_blockhash_expired, transaction_submitted_success,
  transaction_submitted_program_failure, transaction_confirmation_ambiguous, rpc_rate_limit,
  harness_defect, ThrownError, FailureDetail, no_detail, lookup_detail, code_detail, Failure,
  lifecycle, passed_on, out_of_fuel, is_failure, is_rate_limited, is_transport_failure,
  is_pre_submission_blockhash_expiry, extract_on_chain_error_code,
}
use ppv.Transactions.Confirming.{Looks, Resolution, confirm_by_signature}

pub record Prepared : Type 0 where
  pub signature : Text
  pub blockhash : Text
  pub last_valid_block_height : ℕ

-- `getLatestBlockhash` and `sendRawTransaction` at each attempt, the signature of the transaction
-- signed over a blockhash and its height, the looks at a signature, and the clock as it is read
-- while one signature is confirmed.
pub record Endpoint : Type 0 where
  pub get_latest_blockhash : ℕ → Result ThrownError (Text × ℕ)
  pub sign : Text → ℕ → Option Bytes
  pub send_raw_transaction : ℕ → Prepared → Bool → Option ThrownError
  pub statuses : Text → Looks
  pub clock : ℕ → ℕ

-- A call of `sendRawTransaction`, and what it threw.
pub record Submission : Type 0 where
  pub sent_signature : Text
  pub skip_preflight : Bool
  pub thrown : Option ThrownError

pub record Sent {ℓ} (A : Type ℓ) : Type ℓ where
  pub submissions : List Submission
  pub outcome : Result Failure A

unfoldable pub fail {ℓ} :
    {A : Type ℓ} → Classification → Option Text → FailureDetail → Result Failure A
fail c s d = err (lifecycle (record { classification = c; signature = s; detail = d }))

unfoldable pub signed : Text → ℕ → Option Bytes → Result Failure Prepared
unfolding fail
signed blockhash height none = fail harness_defect none no_detail
signed blockhash height (some bytes) = ok (record {
  signature = encode_base58 bytes;
  blockhash = blockhash;
  last_valid_block_height = height;
})

unfoldable pub prepare_transaction : Endpoint → ℕ → Result Failure Prepared
unfolding signed
prepare_transaction endpoint attempt = elim (endpoint.get_latest_blockhash attempt) [
  | err e ↦ err (passed_on e)
  | ok (blockhash, height) ↦ signed blockhash height (endpoint.sign blockhash height)
]

unfoldable pub submission : Endpoint → ℕ → Bool → Prepared → Submission
submission endpoint attempt skip p = record {
  sent_signature = p.signature;
  skip_preflight = skip;
  thrown = endpoint.send_raw_transaction attempt p skip;
}

unfoldable pub also_sent {ℓ} : {A : Type ℓ} → Submission → Sent A → Sent A
also_sent s r = record { submissions = s ∷ r.submissions; outcome = r.outcome }

-- The loop that both senders have: prepare, submit, and start again with a fresh blockhash where
-- the submission was refused for a stale one and a retry is left. They differ in `skipPreflight`
-- and in what they do about an accepted and a failed submission.
unfoldable pub submit {ℓ} :
    {A : Type ℓ}
    → Endpoint
    → Bool
    → ℕ
    → (Prepared → Result Failure A)
    → (ThrownError → Prepared → Result Failure A)
    → ℕ
    → ℕ
    → Sent A
unfolding fail prepare_transaction submission also_sent
submit endpoint skip max accepted failed zero attempts = record {
  submissions = [];
  outcome = err out_of_fuel;
}
submit endpoint skip max accepted failed (suc fuel) attempts =
    elim (prepare_transaction endpoint attempts) [
      | err e ↦ record { submissions = []; outcome = err e }
      | ok p ↦ elim (endpoint.send_raw_transaction attempts p skip) [
        | none ↦ record {
          submissions = submission endpoint attempts skip p ∷ [];
          outcome = accepted p;
        }
        | some e ↦ elim (is_pre_submission_blockhash_expiry e) [
          | true ↦ elim (leb max attempts) [
            | true ↦ record {
              submissions = submission endpoint attempts skip p ∷ [];
              outcome = fail pre_submission_blockhash_expired none no_detail;
            }
            | false ↦
                also_sent (submission endpoint attempts skip p)
                  (submit endpoint skip max accepted failed fuel (suc attempts))
          ]
          | false ↦ record {
            submissions = submission endpoint attempts skip p ∷ [];
            outcome = failed e p;
          }
        ]
      ]
    ]

-- A success that `sendExpectingSuccess` returns.
pub record Success : Type 0 where
  pub signature : Text
  pub classification : Classification
  pub confirmation_status : Option Text
  pub resolved_after_ambiguity : Bool

unfoldable pub success : Prepared → Resolution → Bool → Success
success p r ambiguous = record {
  signature = p.signature;
  classification = transaction_submitted_success;
  confirmation_status = r.confirmation_level;
  resolved_after_ambiguity = ambiguous;
}

unfoldable pub classify_ambiguity : ThrownError → Resolution → Classification
classify_ambiguity e r =
    if r.found && is_failure r.chain_err
    then transaction_submitted_program_failure
    else if is_rate_limited e
    then rpc_rate_limit
    else if is_transport_failure e
    then transaction_confirmation_ambiguous
    else transaction_confirmation_ambiguous

-- After a submission that threw.
unfoldable pub resolve_ambiguity : ThrownError → Prepared → Resolution → Result Failure Success
unfolding fail success classify_ambiguity
resolve_ambiguity e p r =
    if r.found && not (is_failure r.chain_err)
    then ok (success p r true)
    else fail (classify_ambiguity e r) (some p.signature) (lookup_detail r.chain_err r.found)

-- After a submission that was accepted.
unfoldable pub expect_success : Prepared → Resolution → Result Failure Success
unfolding fail success
expect_success p r =
    if not r.found || r.timed_out
    then fail transaction_confirmation_ambiguous (some p.signature) no_detail
    else if is_failure r.chain_err
    then fail transaction_submitted_program_failure (some p.signature)
        (code_detail r.chain_err (extract_on_chain_error_code r.chain_err))
    else ok (success p r false)

unfoldable pub confirmed {ℓ} :
    {A : Type ℓ}
    → Endpoint
    → ℕ
    → (Prepared → Resolution → Result Failure A)
    → Prepared
    → Result Failure A
confirmed endpoint timeout next p =
    confirm_by_signature (endpoint.statuses p.signature) endpoint.clock timeout >>= next p

-- The attempts go from 0 to `max`.
unfoldable pub send_expecting_success : Endpoint → ℕ → ℕ → Sent Success
unfolding submit confirmed resolve_ambiguity expect_success
send_expecting_success endpoint max timeout =
    submit endpoint false max (confirmed endpoint timeout expect_success)
      (λ e. confirmed endpoint timeout (resolve_ambiguity e)) (suc max) 0
