-- ===== src/Transactions/Errors.antt =====
-- scripts/lib/transaction-lifecycle.mjs: the classification of failures, and what the text of a
-- thrown error says about it.
use ppv.Base.{
  Bool, true, false, not, ◌&&◌, ◌||◌, Option, none, some, List, [], ◌∷◌, ◌++◌, if◌then◌else◌,
}
use ppv.Base.Int.{ℤ}
use ppv.Base.Text.{Text, codes}
use ppv.Base.Search.{includes, includes_any_case, has_word}

pub data Classification : Type 0 where
  pre_submission_blockhash_expired : Classification
  transaction_submitted_success : Classification
  transaction_submitted_program_failure : Classification
  transaction_confirmation_ambiguous : Classification
  rpc_rate_limit : Classification
  rpc_provider_failure : Classification
  custody_defect : Classification
  harness_defect : Classification

-- What a call threw: `error.message`, `String(error)`, `error.cause?.message`, `error.code` as a
-- template prints it, and `error.logs` where that is an array.
pub record ThrownError : Type 0 where
  pub message : Option Text
  pub printed : Text
  pub cause_message : Option Text
  pub code_text : Option Text
  pub logs : Option (List Text)

-- The second part of an `InstructionError`.
pub data InstructionDetail : Type 0 where
  custom : ℤ → InstructionDetail
  named : Text → InstructionDetail
  other_detail : InstructionDetail

-- The `err` of a status that is not null: a string, an object whose `InstructionError` is an array,
-- or another object, by its keys.
pub data ChainError : Type 0 where
  text_error : Text → ChainError
  instruction_error : InstructionDetail → ChainError
  object_error : List Text → ChainError

pub record ErrorCode : Type 0 where
  pub name : Option Text
  pub number : Option ℤ
  pub kind : Option Text

-- The `detail` of a lifecycle error.
pub data FailureDetail : Type 0 where
  no_detail : FailureDetail
  lookup_detail : Option ChainError → Bool → FailureDetail
  code_detail : Option ChainError → ErrorCode → FailureDetail
  label_detail : Text → FailureDetail

-- The message is left out.
pub record TransactionLifecycleError : Type 0 where
  pub classification : Classification
  pub signature : Option Text
  pub detail : FailureDetail

-- Why a call ended with no value: the program's own error, one that it passed on, or a loop of the
-- model that stopped before the program's did.
pub data Failure : Type 0 where
  lifecycle : TransactionLifecycleError → Failure
  passed_on : ThrownError → Failure
  out_of_fuel : Failure

unfoldable pub or_text : Option Text → Text → Text
or_text none d = d
or_text (some t) d = t

-- `lines.join(" ")`
unfoldable pub join_spaced : List Text → Text
join_spaced [] = []
join_spaced (t ∷ []) = t
join_spaced (t ∷ u ∷ ts) = t ++ 32 ∷ join_spaced (u ∷ ts)

unfoldable pub joined_logs : Option (List Text) → Text
unfolding join_spaced
joined_logs none = []
joined_logs (some ls) = join_spaced ls

unfoldable pub describe_for_classification : ThrownError → Text
unfolding or_text join_spaced joined_logs
describe_for_classification e =
    join_spaced
      (or_text e.message e.printed ∷ or_text e.cause_message [] ∷ or_text e.code_text [] ∷ [])
    ++ 32 ∷ joined_logs e.logs

unfoldable pub is_pre_submission_blockhash_expiry : ThrownError → Bool
unfolding describe_for_classification
is_pre_submission_blockhash_expiry e =
    let text = describe_for_classification e in
    if not (includes_any_case (codes "blockhash not found") text)
      && not (includes (codes "BlockhashNotFound") text)
    then false
    else if includes_any_case (codes "simulation failed") text
    then true
    else includes_any_case (codes "failed to send transaction") text
      || includes_any_case (codes "sendtransaction") text

unfoldable pub is_rate_limited : ThrownError → Bool
unfolding describe_for_classification
is_rate_limited e =
    let text = describe_for_classification e in
    has_word false (codes "429") text || includes_any_case (codes "too many requests") text

-- `timed? out` is `time out` or `timed out`.
unfoldable pub is_transport_failure : ThrownError → Bool
unfolding describe_for_classification
is_transport_failure e =
    let text = describe_for_classification e in
    includes_any_case (codes "fetch failed") text
    || includes_any_case (codes "econnreset") text
    || includes_any_case (codes "econnrefused") text
    || includes_any_case (codes "enotfound") text
    || includes_any_case (codes "eai_again") text
    || includes_any_case (codes "etimedout") text
    || includes_any_case (codes "socket hang up") text
    || includes_any_case (codes "network error") text
    || includes_any_case (codes "time out") text
    || includes_any_case (codes "timed out") text
    || includes_any_case (codes "tls") text
    || includes_any_case (codes "certificate") text

-- `Object.keys(err)[0] ?? null`
unfoldable pub first_key : List Text → Option Text
first_key [] = none
first_key (k ∷ ks) = some k

unfoldable pub extract_on_chain_error_code : Option ChainError → ErrorCode
unfolding first_key
extract_on_chain_error_code none = record { name = none; number = none; kind = none }
extract_on_chain_error_code (some (text_error t)) = record {
  name = none;
  number = none;
  kind = none;
}
extract_on_chain_error_code (some (object_error keys)) = record {
  name = none;
  number = none;
  kind = first_key keys;
}
extract_on_chain_error_code (some (instruction_error (custom n))) = record {
  name = none;
  number = some n;
  kind = some (codes "Custom");
}
extract_on_chain_error_code (some (instruction_error (named t))) = record {
  name = some t;
  number = none;
  kind = some t;
}
extract_on_chain_error_code (some (instruction_error other_detail)) = record {
  name = none;
  number = none;
  kind = some (codes "InstructionError");
}

-- Whether a test such as `if (err)` takes it: the empty string is the one error that it does not.
unfoldable pub is_failure : Option ChainError → Bool
is_failure none = false
is_failure (some (text_error [])) = false
is_failure (some (text_error (c ∷ cs))) = true
is_failure (some (instruction_error d)) = true
is_failure (some (object_error keys)) = true
