-- ===== src/Transactions/Refusing.antt =====
-- scripts/lib/transaction-lifecycle.mjs: `sendExpectingRefusal` and what it calls, and
-- `assertProvenRefusal`.
use ppv.Base.{
  ℕ, suc, Bool, true, false, not, ◌||◌, Option, none, some, List, [], ◌∷◌, map, any, if◌then◌else◌,
}
use ppv.Base.Result.{Result, ok, err}
use ppv.Base.Text.{Text}
use ppv.Base.Search.{includes}
use ppv.EndpointSafety.{redact}
use ppv.Transactions.Errors.{
  Classification, transaction_submitted_program_failure, transaction_confirmation_ambiguous,
  rpc_rate_limit, rpc_provider_failure, custody_defect, harness_defect, ThrownError, ChainError,
  ErrorCode, no_detail, label_detail, Failure, is_failure, is_rate_limited,
  extract_on_chain_error_code,
}
use ppv.Transactions.Confirming.{Resolution}
use ppv.Transactions.Sending.{Prepared, Endpoint, Sent, fail, submit, confirmed}

pub data Attribution : Type 0 where
  unverified : Attribution
  ppv_escrow : Attribution
  other : Attribution

pub record Refusal : Type 0 where
  pub signature : Text
  pub on_chain : Bool
  pub chain_err : Option ChainError
  pub error_code : ErrorCode
  pub confirmation_status : Option Text
  pub classification : Classification
  pub program_attributed : Attribution
  pub logs : Option (List Text)

-- `fetchLogs`, which may be absent, throw, or return no array: all three leave no logs. The last
-- field is what is registered for redaction.
pub record Reporting : Type 0 where
  pub label : Text
  pub fetch_logs : Option (Text → Result ThrownError (Option (List Text)))
  pub escrow_program_id : Option Text
  pub sensitive : List Text

unfoldable pub log_lines : Result ThrownError (Option (List Text)) → Option (List Text)
log_lines (err e) = none
log_lines (ok lines) = lines

unfoldable pub read_logs :
    Option (Text → Result ThrownError (Option (List Text))) → Text → Option (List Text)
unfolding log_lines
read_logs none s = none
read_logs (some fetch) s = log_lines (fetch s)

-- `programAttributed`: the logs are there only where `fetchLogs` was given.
unfoldable pub attribution : Option (List Text) → Option Text → Attribution
attribution none id = unverified
attribution (some lines) none = unverified
attribution (some lines) (some []) = unverified
attribution (some lines) (some (c ∷ cs)) =
    if any (includes (c ∷ cs)) lines then ppv_escrow else other

unfoldable pub redacted_logs : List Text → Option (List Text) → Option (List Text)
redacted_logs sensitive none = none
redacted_logs sensitive (some lines) = some (map (redact sensitive) lines)

unfoldable pub finish_refusal : Reporting → Prepared → Resolution → Result Failure Refusal
unfolding fail read_logs attribution redacted_logs
finish_refusal report p r =
    if not (is_failure r.chain_err)
    then fail custody_defect (some p.signature) (label_detail report.label)
    else let lines = read_logs report.fetch_logs p.signature in
      ok (record {
        signature = p.signature;
        on_chain = true;
        chain_err = r.chain_err;
        error_code = extract_on_chain_error_code r.chain_err;
        confirmation_status = r.confirmation_level;
        classification = transaction_submitted_program_failure;
        program_attributed = attribution lines report.escrow_program_id;
        logs = redacted_logs report.sensitive lines;
      })

unfoldable pub refusal_after_error :
    Reporting → ThrownError → Prepared → Resolution → Result Failure Refusal
unfolding fail finish_refusal
refusal_after_error report e p r =
    if not r.found
    then fail (if is_rate_limited e then rpc_rate_limit else rpc_provider_failure)
        (some p.signature) no_detail
    else finish_refusal report p r

unfoldable pub expect_refusal : Reporting → Prepared → Resolution → Result Failure Refusal
unfolding fail finish_refusal
expect_refusal report p r =
    if not r.found || r.timed_out
    then fail transaction_confirmation_ambiguous (some p.signature) no_detail
    else finish_refusal report p r

unfoldable pub send_expecting_refusal : Endpoint → Reporting → ℕ → ℕ → Sent Refusal
unfolding submit confirmed refusal_after_error expect_refusal
send_expecting_refusal endpoint report max timeout =
    submit endpoint true max (confirmed endpoint timeout (expect_refusal report))
      (λ e. confirmed endpoint timeout (refusal_after_error report e)) (suc max) 0

-- A row of published evidence: `row.signature` and `row.err` may be missing, and `row` too.
pub record RefusalRow : Type 0 where
  pub signature : Option Text
  pub on_chain : Bool
  pub chain_err : Option ChainError

-- `!row.signature`: missing or empty.
unfoldable pub is_missing : Option Text → Bool
is_missing none = true
is_missing (some []) = true
is_missing (some (c ∷ cs)) = false

unfoldable pub is_absent {ℓ} : {A : Type ℓ} → Option A → Bool
is_absent none = true
is_absent (some a) = false

unfoldable pub assert_proven_refusal : Option RefusalRow → Result Failure RefusalRow
unfolding fail is_missing is_absent
assert_proven_refusal none = fail harness_defect none no_detail
assert_proven_refusal (some row) =
    if is_missing row.signature
    then fail harness_defect none no_detail
    else if not row.on_chain
    then fail harness_defect row.signature no_detail
    else if is_absent row.chain_err
    then fail custody_defect row.signature no_detail
    else ok row
