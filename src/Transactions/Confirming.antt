-- ===== src/Transactions/Confirming.antt =====
-- scripts/lib/rpc.mjs `signatureStatus` and scripts/lib/transaction-lifecycle.mjs
-- `confirmBySignature`: polling for the status of one signature until a deadline.
use ppv.Base.{
  ℕ, zero, suc, ◌+◌, Bool, true, false, ◌||◌, Option, none, some, List, [], ◌∷◌, ◌==◌, list_eq, any,
  leb,
}
use ppv.Base.Result.{Result, ok, err, ◌>>=◌}
use ppv.Base.Text.{Text, codes}
use ppv.Transactions.Errors.{ChainError, ThrownError, Failure, passed_on, out_of_fuel, is_failure}

-- `confirmations` is absent, null or a number.
pub data Confirmations : Type 0 where
  absent : Confirmations
  rooted : Confirmations
  counted : ℕ → Confirmations

pub record SignatureStatus : Type 0 where
  pub confirmation_status : Option Text
  pub confirmations : Confirmations
  pub status_err : Option ChainError

-- What `getSignatureStatuses` answers, as `result?.value`: an array with null for what the node has
-- not seen.
abbrev pub StatusAnswer : Type 0
StatusAnswer = Option (List (Option SignatureStatus))

unfoldable pub signature_status : StatusAnswer → Option SignatureStatus
signature_status none = none
signature_status (some []) = none
signature_status (some (s ∷ rest)) = s

abbrev pub accepted_confirmations : List Text
accepted_confirmations = codes "confirmed" ∷ codes "finalized" ∷ []

unfoldable pub is_accepted : Option Text → Confirmations → Bool
is_accepted none rooted = true
is_accepted none absent = false
is_accepted none (counted n) = false
is_accepted (some level) c = any (λ a. a == level) accepted_confirmations

unfoldable pub has_landed : SignatureStatus → Bool
unfolding is_accepted
has_landed s = is_accepted s.confirmation_status s.confirmations

pub record Resolution : Type 0 where
  pub found : Bool
  pub status : Option SignatureStatus
  pub confirmation_level : Option Text
  pub chain_err : Option ChainError
  pub timed_out : Bool

-- `last && (landed || last.err)`
unfoldable pub is_settled : Option SignatureStatus → Bool
unfolding has_landed is_failure
is_settled none = false
is_settled (some s) = has_landed s || is_failure s.status_err

unfoldable pub resolution : Option SignatureStatus → Bool → Resolution
resolution none late = record {
  found = false;
  status = none;
  confirmation_level = none;
  chain_err = none;
  timed_out = late;
}
resolution (some s) late = record {
  found = true;
  status = some s;
  confirmation_level = s.confirmation_status;
  chain_err = s.status_err;
  timed_out = late;
}

-- What `client.call("getSignatureStatuses", …)` does at each look.
abbrev pub Looks : Type 0
Looks = ℕ → Result ThrownError StatusAnswer

unfoldable pub look : Looks → ℕ → Result Failure (Option SignatureStatus)
unfolding signature_status
look looks n = elim (looks n) [
  | ok answer ↦ ok (signature_status answer)
  | err e ↦ err (passed_on e)
]

-- The loop from its look `n` on, which reads the clock for the time `n + 1`.
unfoldable pub poll : Looks → (ℕ → ℕ) → ℕ → ℕ → ℕ → Result Failure Resolution
poll looks clock deadline zero n = err out_of_fuel
poll looks clock deadline (suc fuel) n = look looks n >>= λ last. elim (is_settled last) [
  | true ↦ ok (resolution last false)
  | false ↦ elim (leb deadline (clock (suc n))) [
    | true ↦ ok (resolution last true)
    | false ↦ poll looks clock deadline fuel (suc n)
  ]
]

-- The clock is read once for the deadline, and then once after each look. Where a reading is
-- later than the one before, so many rounds as the timeout has milliseconds, and one, are enough.
unfoldable pub confirm_by_signature : Looks → (ℕ → ℕ) → ℕ → Result Failure Resolution
unfolding poll
confirm_by_signature looks clock timeout = poll looks clock (clock 0 + timeout) (suc timeout) 0
