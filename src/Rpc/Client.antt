-- ===== src/Rpc/Client.antt =====
-- scripts/lib/rpc.mjs: the read-only client of the harness, whose retries are for the methods of a
-- list, and which refuses the methods that change the chain.
use ppv.Base.{
  ℕ, suc, ◌-◌, ◌==◌, Bool, Option, List, [], ◌∷◌, any, length, list_eq, if◌then◌else◌, get_elem?,
}
use ppv.Base.Result.{Result, err}
use ppv.Base.Text.{Text, codes}
use ppv.Rpc.{
  rate_limit_backoff_ms, rate_limit_max_delay_ms, minimum, parse_retry_after, jittered, base_delay,
  honoured_or, Timing, TransportError, Response, not_available, transport_reason,
}
use ppv.Rpc.Exchanges.{Exchange, attempt_call}

abbrev pub retryable_read_methods : List Text
retryable_read_methods =
    codes "getAccountInfo"
    ∷ codes "getBalance"
    ∷ codes "getBlockHeight"
    ∷ codes "getGenesisHash"
    ∷ codes "getLatestBlockhash"
    ∷ codes "getMultipleAccounts"
    ∷ codes "getProgramAccounts"
    ∷ codes "getSignaturesForAddress"
    ∷ codes "getSignatureStatuses"
    ∷ codes "getSlot"
    ∷ codes "getTokenAccountBalance"
    ∷ codes "getTransaction"
    ∷ codes "getVersion"
    ∷ []

abbrev pub refused_mutating_methods : List Text
refused_mutating_methods =
    codes "requestAirdrop" ∷ codes "sendTransaction" ∷ codes "simulateTransaction" ∷ []

unfoldable pub lists : List Text → Text → Bool
lists methods method = any (λ m. m == method) methods

-- The attempts count from 1, so the index is in the list.
unfoldable pub client_delay_ms : Timing → ℕ → Option Text → ℕ
client_delay_ms timing attempt header =
    let base =
      base_delay
        (get_elem? rate_limit_backoff_ms (minimum attempt (length rate_limit_backoff_ms) - 1)) in
    honoured_or
      (parse_retry_after timing.parse_date (timing.now attempt) rate_limit_max_delay_ms header)
      (jittered (minimum base rate_limit_max_delay_ms) (timing.random attempt))

unfoldable pub retries_for : ℕ → Text → ℕ
retries_for max method = if lists retryable_read_methods method then max else 0

unfoldable pub client_call {ℓ} :
    {A : Type ℓ}
    → (ℕ → Result TransportError (Response A))
    → Timing
    → ℕ
    → ℕ
    → Text
    → Text
    → Exchange A
client_call fetch timing max next method params =
    if lists refused_mutating_methods method
    then record { requests = []; waits = []; next_id = next; outcome = err (not_available method) }
    else attempt_call fetch
        (transport_reason (codes "the request failed before a response arrived"))
        (client_delay_ms timing) method params (retries_for max method)
        (suc (retries_for max method)) 0 next
