-- ===== src/Rpc/Source.antt =====
-- indexer/src/rpc.ts: `call` of `httpChainSource`.
use ppv.Base.{ℕ, suc, ◌==◌, not, List, [], ◌∷◌, any, list_eq, if◌then◌else◌}
use ppv.Base.Result.{Result, err}
use ppv.Base.Text.{Text, codes}
use ppv.Rpc.{Timing, TransportError, Response, not_available, transport_reason}
use ppv.Rpc.Exchanges.{Exchange, attempt_call}
use ppv.Rpc.{rate_limit_delay_ms}

abbrev pub read_only_methods : List Text
read_only_methods = codes "getSignaturesForAddress" ∷ codes "getTransaction" ∷ []

-- `call` of the source. The attempts go from 0 to the retries allowed.
unfoldable pub call {ℓ} :
    {A : Type ℓ}
    → (ℕ → Result TransportError (Response A))
    → Timing
    → ℕ
    → ℕ
    → Text
    → Text
    → Exchange A
call fetch timing max next method params =
    if not (any (λ m. m == method) read_only_methods)
    then record { requests = []; waits = []; next_id = next; outcome = err (not_available method) }
    else attempt_call fetch (transport_reason (codes "the request could not be completed"))
        (rate_limit_delay_ms timing) method params max (suc max) 0 next
