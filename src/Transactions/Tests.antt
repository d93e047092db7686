-- ===== src/Transactions/Tests.antt =====
-- Runs of the senders of scripts/lib/transaction-lifecycle.mjs, and their theorems at endpoints.
use ppv.Base.{ℕ, zero, suc, ◌*◌, ◌≡◌, refl, true, false, Option, none, some, [], ◌∷◌, arith, nat_eq}
use ppv.Base.Result.{ok}
use ppv.Base.Int.{pos}
use ppv.Base.Text.{Text, codes}
use ppv.Base.Search.{
  includes, includes_any_case, has_word, starts_with, lower_case, ends_word, is_word, replace_all,
}
use ppv.Base58.{encode_base58, count_front, drop_front, scale_add, encode_digits}
use ppv.EndpointSafety.{redact, longest_first}
use ppv.Transactions.Errors.{
  ThrownError, describe_for_classification, is_pre_submission_blockhash_expiry, is_rate_limited,
  is_failure, or_text, join_spaced, joined_logs, ChainError, instruction_error, custom,
  extract_on_chain_error_code, transaction_submitted_success, transaction_submitted_program_failure,
}
use ppv.Transactions.Confirming.{
  Looks, SignatureStatus, counted, signature_status, look, poll, confirm_by_signature, is_settled,
  has_landed, is_accepted, resolution,
}
use ppv.Transactions.Sending.{
  Endpoint, Prepared, Success, submit, also_sent, confirmed, signed, prepare_transaction, success,
  expect_success, send_expecting_success,
}
use ppv.Transactions.Refusing.{
  Refusal, Reporting, expect_refusal, finish_refusal, send_expecting_refusal, read_logs,
  attribution, redacted_logs, unverified,
}
use ppv.Transactions.Submissions.{Sends, send_expecting_success-Sends, send_expecting_refusal-Sends}
use ppv.Transactions.Landing.{Landed, send_expecting_success-Landed}
use ppv.Transactions.Refusals.{ProvenRefusal, send_expecting_refusal-ProvenRefusal}
use ppv.Transactions.Unconfirmed.{send_expecting_success-unconfirmed, StaysUnconfirmed}

abbrev thrown_with : Text → ThrownError
thrown_with t = record {
  message = some t;
  printed = t;
  cause_message = none;
  code_text = none;
  logs = none;
}

abbrev stale : ThrownError
stale = thrown_with (codes "Simulation failed. Blockhash not found")

abbrev busy : ThrownError
busy = thrown_with (codes "HTTP 429")

abbrev with_level : Text → Option ChainError → SignatureStatus
with_level level e = record {
  confirmation_status = some level;
  confirmations = counted 1;
  status_err = e;
}

-- Nothing at the first look, the status from the second on.
abbrev second_look : SignatureStatus → Looks
second_look s zero = ok (some (none ∷ []))
second_look s (suc n) = ok (some (some s ∷ []))

-- The first submission is refused for a stale blockhash.
abbrev then_accepted : ℕ → Option ThrownError
then_accepted zero = some stale
then_accepted (suc n) = none

abbrev node : (ℕ → Option ThrownError) → Looks → Endpoint
node answers looks = record {
  get_latest_blockhash = λ n. ok (codes "hash", 100);
  sign = λ b h. some (1 ∷ []);
  send_raw_transaction = λ n p skip. answers n;
  statuses = λ s. looks;
  clock = λ n. 700 * n;
}

abbrev landing : Endpoint
landing = node then_accepted (second_look (with_level (codes "confirmed") none))

abbrev refusing : Endpoint
refusing =
    node then_accepted
      (second_look (with_level (codes "finalized") (some (instruction_error (custom (pos 6001))))))

abbrev seen_only : Endpoint
seen_only = node (λ n. some busy) (λ n. ok (some (some (with_level (codes "processed") none) ∷ [])))

abbrev reporting : Reporting
reporting = record {
  label = codes "drain";
  fetch_logs = none;
  escrow_program_id = none;
  sensitive = [];
}

stale_expires : is_pre_submission_blockhash_expiry stale ≡ true
unfolding is_pre_submission_blockhash_expiry describe_for_classification or_text join_spaced
    joined_logs includes includes_any_case starts_with lower_case
stale_expires = refl

busy_stays : is_pre_submission_blockhash_expiry busy ≡ false
unfolding is_pre_submission_blockhash_expiry describe_for_classification or_text join_spaced
    joined_logs includes includes_any_case starts_with lower_case
busy_stays = refl

busy_limited : is_rate_limited busy ≡ true
unfolding is_rate_limited describe_for_classification or_text join_spaced joined_logs has_word
    starts_with ends_word is_word
busy_limited = refl

send_expecting_success-Sends_example : Sends 1 (send_expecting_success landing 1 2000)
send_expecting_success-Sends_example =
    send_expecting_success-Sends landing 1 2000 (λ n. omega arith)

send_expecting_refusal-Sends_example : Sends 1 (send_expecting_refusal refusing reporting 1 2000)
send_expecting_refusal-Sends_example =
    send_expecting_refusal-Sends refusing reporting 1 2000 (λ n. omega arith)

abbrev landed : Success
landed = record {
  signature = codes "2";
  classification = transaction_submitted_success;
  confirmation_status = some (codes "confirmed");
  resolved_after_ambiguity = false;
}

lands : (send_expecting_success landing 1 2000).outcome ≡ ok landed
unfolding send_expecting_success submit prepare_transaction signed encode_base58 count_front
    drop_front encode_digits scale_add is_pre_submission_blockhash_expiry
    describe_for_classification or_text join_spaced joined_logs includes includes_any_case
    starts_with lower_case also_sent confirmed confirm_by_signature poll look signature_status
    is_settled has_landed is_accepted is_failure resolution expect_success success
lands = refl

send_expecting_success-Landed_example :
    Landed landing landed (send_expecting_success landing 1 2000).submissions
send_expecting_success-Landed_example = send_expecting_success-Landed landing 1 2000 landed lands

abbrev refused : Refusal
refused = record {
  signature = codes "2";
  on_chain = true;
  chain_err = some (instruction_error (custom (pos 6001)));
  error_code = record { name = none; number = some (pos 6001); kind = some (codes "Custom") };
  confirmation_status = some (codes "finalized");
  classification = transaction_submitted_program_failure;
  program_attributed = unverified;
  logs = none;
}

refuses : (send_expecting_refusal refusing reporting 1 2000).outcome ≡ ok refused
unfolding send_expecting_refusal submit prepare_transaction signed encode_base58 count_front
    drop_front encode_digits scale_add is_pre_submission_blockhash_expiry
    describe_for_classification or_text join_spaced joined_logs includes includes_any_case
    starts_with lower_case also_sent confirmed confirm_by_signature poll look signature_status
    is_settled has_landed is_accepted is_failure resolution expect_refusal finish_refusal
    extract_on_chain_error_code read_logs attribution redacted_logs
refuses = refl

send_expecting_refusal-ProvenRefusal_example :
    ProvenRefusal refusing refused (send_expecting_refusal refusing reporting 1 2000).submissions
send_expecting_refusal-ProvenRefusal_example =
    send_expecting_refusal-ProvenRefusal refusing reporting 1 2000 refused refuses

abbrev processed : SignatureStatus
processed = with_level (codes "processed") none

abbrev first_try : Prepared
first_try = record {
  signature = codes "2";
  blockhash = codes "hash";
  last_valid_block_height = 100;
}

prepares : prepare_transaction seen_only 0 ≡ ok first_try
unfolding prepare_transaction signed encode_base58 count_front drop_front encode_digits scale_add
prepares = refl

stays_unconfirmed : StaysUnconfirmed (seen_only.statuses (codes "2")) processed
unfolding look signature_status has_landed is_accepted is_failure
stays_unconfirmed = record { looked = λ n. refl; not_landed = refl; has_no_error = refl }

send_expecting_success-unconfirmed_example :
    (send_expecting_success seen_only 1 2000).outcome
    ≡ ok (success first_try (resolution (some processed) true) true)
send_expecting_success-unconfirmed_example =
    send_expecting_success-unconfirmed seen_only 1 2000 first_try busy processed prepares refl
      busy_stays (λ n. omega arith) stays_unconfirmed

-- The program of a log line is named by what the line includes, and the endpoint is taken out.
redacts :
    redact
      (codes "node.example" ∷ codes "https://node.example/key" ∷ [])
      (codes "at https://node.example/key")
    ≡ codes "at <redacted rpc endpoint>"
unfolding redact longest_first includes starts_with replace_all
redacts = refl
