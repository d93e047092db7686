-- ===== src/Rpc/Attempts.antt =====
-- indexer/src/rpc.ts and scripts/lib/rpc.mjs: how many requests a call sends, what it sends, and
-- how long it waits, whatever the endpoint answers.
use ppv.Rpc.Methods.{
  source_methods, submitting_methods, repeatable_methods, lists-true, lists-false,
}
use ppv.Base.Members.{In}
use ppv.Base.{
  ℕ, zero, suc, ◌+◌, ◌*◌, ◌≤◌, ◌≡◌, ◌≢◌, ◌⊎◌, inl, inr, refl, true, false, Option, List, [], ◌∷◌,
  arith, leb, nat_beq, length, any, ◌==◌, list_eq, Bool-cases,
}
use ppv.Base.Result.{Result, ok, err, Result-cases}
use ppv.Base.Text.{Text, codes}
use ppv.Rpc.{
  Timing, Request, TransportError, Response, RpcFailure, not_available, unreachable, rate_limited,
  out_of_fuel, rate_limit_status, rate_limit_delay_ms, transport_reason,
}
use ppv.Rpc.Exchanges.{Exchange, attempt_call, read_response, read_body, after_wait}
use ppv.Rpc.Source.{call, read_only_methods}
use ppv.Rpc.Client.{
  client_call, client_delay_ms, lists, refused_mutating_methods, retryable_read_methods,
  retries_for,
}
use ppv.Rpc.Delays.{IsShare, rate_limit_delay_ms-DelayBounds, client_delay_ms-DelayBounds}

-- The requests are for one method and one set of parameters, and are numbered one after the other.
abbrev pub Numbered : Text → Text → ℕ → List Request → Type 0
Numbered method params next [] = Unit
Numbered method params next (r ∷ rs) =
    (r ≡ record { id = next; method = method; params = params })
    × Numbered method params (suc next) rs

abbrev pub total : List ℕ → ℕ
total [] = 0
total (d ∷ ds) = d + total ds

-- No wait is longer than the bound.
abbrev pub AtMost : ℕ → List ℕ → Type 0
AtMost bound [] = Unit
AtMost bound (d ∷ ds) = (d ≤ bound) × AtMost bound ds

-- The answers before the waits of a call were rate limited.
abbrev pub Limited {ℓ} :
    {A : Type ℓ} → (ℕ → Result TransportError (Response A)) → ℕ → List ℕ → Type ℓ
Limited {A} fetch attempt [] = Unit {ℓ}
Limited {A} fetch attempt (d ∷ ds) =
    ((r : Response A) × (fetch attempt ≡ ok r) × (r.status ≡ rate_limit_status))
    × Limited fetch (suc attempt) ds

-- What a call has sent and waited, from an attempt on.
pub record Bounded {ℓ} {A : Type ℓ} (fetch : ℕ → Result TransportError (Response A))
    (method params : Text) (max attempt next : ℕ) (x : Exchange A) : Type ℓ where
  pub numbered : Numbered method params next x.requests
  pub counted : x.next_id ≡ next + length x.requests
  pub sent : length x.requests + attempt ≤ suc max
  pub waited : length x.waits + attempt ≤ max
  pub each_wait : AtMost 8000 x.waits
  pub total_wait : total x.waits ≤ 8000 * length x.waits
  pub limited : Limited fetch attempt x.waits
  pub ends : x.outcome ≢ err out_of_fuel

read_response-ne-out_of_fuel {ℓ} :
    {A : Type ℓ} (method : Text) (r : Response A) → read_response method r ≢ err out_of_fuel
unfolding read_response read_body
read_response-ne-out_of_fuel method r = ground arith

attempt_call-Bounded {ℓ} :
    {A : Type ℓ} (fetch : ℕ → Result TransportError (Response A)) (reason : TransportError → Text)
    (delay : ℕ → Option Text → ℕ) (method params : Text) (max : ℕ)
    → ((attempt : ℕ) (header : Option Text) → delay (suc attempt) header ≤ 8000)
    → (fuel attempt next : ℕ) → attempt ≤ max
    → fuel + attempt ≡ suc max
    → Bounded fetch method params max attempt next
        (attempt_call fetch reason delay method params max fuel attempt next)
unfolding attempt_call after_wait
attempt_call-Bounded fetch reason delay method params max short zero attempt next a f =
    absurd (omega arith)
attempt_call-Bounded {A} fetch reason delay method params max short (suc fuel) attempt next a f =
    elim (Result-cases (fetch attempt)) [
      | inr (e, s) ↦ rw (s, attempt_call) (last_one (err (unreachable method (reason e))) (λ k. cc))
      | inl (r, s) ↦
          rw (s, attempt_call)
            (elim (Bool-cases (nat_beq r.status rate_limit_status)) [
              | inr b ↦
                  rw b (last_one (read_response method r) (read_response-ne-out_of_fuel method r))
              | inl b ↦ rw b (elim (Bool-cases (leb max attempt)) [
                | inl l ↦ rw l (last_one (err (rate_limited method (suc attempt))) (λ k. cc))
                | inr l ↦ rw l (
                    waits r s b (
                      attempt_call-Bounded fetch reason delay method params max short fuel
                        (suc attempt) (suc next) (ground arith) (omega arith)))
              ])
            ])
    ]
  where
    last_one :
        (o : Result RpcFailure A)
        → o ≢ err out_of_fuel
        → Bounded fetch method params max attempt next (record {
          requests = record { id = next; method = method; params = params } ∷ [];
          waits = [];
          next_id = suc next;
          outcome = o;
        })
    last_one o h = record {
      numbered = (refl, tt);
      counted = omega arith;
      sent = omega arith;
      waited = omega arith;
      each_wait = tt;
      total_wait = omega arith;
      limited = tt;
      ends = h;
    }

    waits :
        (r : Response A)
        → fetch attempt ≡ ok r
        → nat_beq r.status rate_limit_status ≡ true
        → {x : Exchange A} → Bounded fetch method params max (suc attempt) (suc next) x
        → Bounded fetch method params max attempt next (
            after_wait
              (record { id = next; method = method; params = params })
              (delay (suc attempt) r.retry_after)
              x)
    waits r s b {x} v = record {
      numbered = (refl, v.numbered);
      counted = let c = v.counted in omega arith;
      sent = let c = v.sent in omega arith;
      waited = let c = v.waited in omega arith;
      each_wait = (short attempt r.retry_after, v.each_wait);
      total_wait = let c = v.total_wait in omega (arith, short attempt r.retry_after);
      limited = ((r, s, ground arith), v.limited);
      ends = v.ends;
    }

-- Every share that a call may use is one.
abbrev pub Shares : Timing → Type 0
Shares timing = (attempt : ℕ) → IsShare (timing.random attempt)

-- A call that sent no request.
pub record SentNothing {ℓ} {A : Type ℓ} (x : Exchange A) : Type ℓ where
  pub no_requests : x.requests ≡ []
  pub no_waits : x.waits ≡ []
  pub fails : (e : RpcFailure) × (x.outcome ≡ err e)

-- Where Math.random gives at most one: a call of the indexer's source comes to an end whatever the
-- endpoint answers. With one of its two methods, getSignaturesForAddress and getTransaction, it sends
-- at most one more request than the retries allow, each for that method, with its parameters and the
-- next number; it waits only after an answer with status 429, at most so often as the retries allow
-- and at most 8000 ms at a time. With another method it sends nothing and fails.
pub call-Bounded {ℓ} :
    {A : Type ℓ} (fetch : ℕ → Result TransportError (Response A)) (timing : Timing) (max next : ℕ)
    (method params : Text)
    → Shares timing
    → (In method source_methods
        × Bounded fetch method params max 0 next (call fetch timing max next method params))
      ⊎ ((¬ In method source_methods) × SentNothing (call fetch timing max next method params))
unfolding call
call-Bounded fetch timing max next method params s =
    elim (Bool-cases (any (λ m. m == method) read_only_methods)) [
      | inl e ↦ inl (
        lists-true read_only_methods source_methods method refl e,
        rw e (
            attempt_call-Bounded fetch
              (transport_reason (codes "the request could not be completed"))
              (rate_limit_delay_ms timing) method params max
              (λ a h.
                (rate_limit_delay_ms-DelayBounds timing (suc a) h (omega arith)
                  (s (suc a))).at_most)
              (suc max) 0 next (omega arith) (omega arith)),
      )
      | inr e ↦ inr (
        lists-false read_only_methods source_methods method refl e,
        rw e (record { no_requests = refl; no_waits = refl; fails = (not_available method, refl) }),
      )
    ]

retries-listed :
    (max : ℕ) (method : Text)
    → lists retryable_read_methods method ≡ true
    → retries_for max method ≡ max
unfolding retries_for
retries-listed max method e = rw e refl

retries-other :
    (max : ℕ) (method : Text)
    → lists retryable_read_methods method ≡ false
    → retries_for max method ≡ 0
unfolding retries_for
retries-other max method e = rw e refl

-- The retries of the harness's client: those allowed for a read that is safe to repeat, and else none.
abbrev pub Retries : ℕ → Text → ℕ → Type 0
Retries max method n =
    (In method repeatable_methods × (n ≡ max)) ⊎ ((¬ In method repeatable_methods) × (n ≡ 0))

-- Where Math.random gives at most one: a call of the harness's client comes to an end whatever the
-- endpoint answers. With sendTransaction, simulateTransaction and requestAirdrop it sends nothing and
-- fails. With another method it sends at most one more request than its retries, which are those
-- allowed for one of thirteen named reads and else none; it waits only after an answer with status
-- 429, at most 8000 ms at a time.
pub client_call-Bounded {ℓ} :
    {A : Type ℓ} (fetch : ℕ → Result TransportError (Response A)) (timing : Timing) (max next : ℕ)
    (method params : Text)
    → Shares timing
    → (In method submitting_methods × SentNothing (client_call fetch timing max next method params))
      ⊎ ((¬ In method submitting_methods)
          × ((n : ℕ) × Retries max method n
              × Bounded fetch method params n 0 next
                  (client_call fetch timing max next method params)))
unfolding client_call lists
client_call-Bounded fetch timing max next method params s =
    elim (Bool-cases (lists refused_mutating_methods method)) [
      | inl e ↦ inl (
        lists-true refused_mutating_methods submitting_methods method refl e,
        rw e (record { no_requests = refl; no_waits = refl; fails = (not_available method, refl) }),
      )
      | inr e ↦ inr (
        lists-false refused_mutating_methods submitting_methods method refl e,
        (
          retries_for max method,
          retries (Bool-cases (lists retryable_read_methods method)),
          rw e (bounded (retries_for max method)),
        ),
      )
    ]
  where
    retries :
        (lists retryable_read_methods method ≡ true) ⊎ (lists retryable_read_methods method ≡ false)
        → Retries max method (retries_for max method)
    retries (inl e) = inl (
      lists-true retryable_read_methods repeatable_methods method refl e,
      retries-listed max method e,
    )
    retries (inr e) = inr (
      lists-false retryable_read_methods repeatable_methods method refl e,
      retries-other max method e,
    )

    bounded :
        (n : ℕ)
        → Bounded fetch method params n 0 next (
            attempt_call fetch
              (transport_reason (codes "the request failed before a response arrived"))
              (client_delay_ms timing)
              method
              params
              n
              (suc n)
              0
              next)
    bounded n =
        attempt_call-Bounded fetch
          (transport_reason (codes "the request failed before a response arrived"))
          (client_delay_ms timing) method params n
          (λ a h. (client_delay_ms-DelayBounds timing (suc a) h (omega arith) (s (suc a))).at_most)
          (suc n) 0 next (omega arith) (omega arith)
