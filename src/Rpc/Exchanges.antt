-- ===== src/Rpc/Exchanges.antt =====
-- The loop of `call` that the clients of indexer/src/rpc.ts and scripts/lib/rpc.mjs share.
use ppv.Base.{
  ℕ, zero, suc, true, false, not, Option, none, some, List, [], ◌∷◌, leb, nat_beq, list_eq,
  if◌then◌else◌,
}
use ppv.Base.Result.{Result, ok, err}
use ppv.Base.Text.{Text, codes}
use ppv.Rpc.{
  rate_limit_status, Request, TransportError, Body, Response, RpcFailure, unreachable, rate_limited,
  http_failed, refused, unreadable, out_of_fuel,
}

-- What a call leaves behind: its requests and its waits in order, the next number for a request,
-- and its value or why there is none.
pub record Exchange {ℓ} (A : Type ℓ) : Type ℓ where
  pub requests : List Request
  pub waits : List ℕ
  pub next_id : ℕ
  pub outcome : Result RpcFailure A

unfoldable pub message_of : Option Text → Text
message_of none = codes "unknown error"
message_of (some m) = m

unfoldable pub read_body {ℓ} : {A : Type ℓ} → Text → Option (Body A) → Result RpcFailure A
unfolding message_of
read_body method none = err unreadable
read_body method (some body) = elim body.error [
  | some m ↦ err (refused method (message_of m))
  | none ↦ ok body.result
]

-- A response that is not rate limited.
unfoldable pub read_response {ℓ} : {A : Type ℓ} → Text → Response A → Result RpcFailure A
unfolding read_body
read_response method r =
    if not r.is_ok then err (http_failed method r.status) else read_body method r.body

unfoldable pub after_wait {ℓ} : {A : Type ℓ} → Request → ℕ → Exchange A → Exchange A
after_wait request delay x = record x { requests = request ∷ x.requests; waits = delay ∷ x.waits }

-- The loop of a call, from an attempt on. `fetch` says what the request of an attempt meets.
unfoldable pub attempt_call {ℓ} :
    {A : Type ℓ}
    → (ℕ → Result TransportError (Response A))
    → (TransportError → Text)
    → (ℕ → Option Text → ℕ)
    → Text
    → Text
    → ℕ
    → ℕ
    → ℕ
    → ℕ
    → Exchange A
attempt_call fetch reason delay method params max zero attempt next = record {
  requests = [];
  waits = [];
  next_id = next;
  outcome = err out_of_fuel;
}
attempt_call fetch reason delay method params max (suc fuel) attempt next =
    let request : Request = record { id = next; method = method; params = params } in
    elim (fetch attempt) [
      | err e ↦ record {
        requests = request ∷ [];
        waits = [];
        next_id = suc next;
        outcome = err (unreachable method (reason e));
      }
      | ok r ↦ elim (nat_beq r.status rate_limit_status) [
        | true ↦ elim (leb max attempt) [
          | true ↦ record {
            requests = request ∷ [];
            waits = [];
            next_id = suc next;
            outcome = err (rate_limited method (suc attempt));
          }
          | false ↦
              after_wait request (delay (suc attempt) r.retry_after)
                (attempt_call fetch reason delay method params max fuel (suc attempt) (suc next))
        ]
        | false ↦ record {
          requests = request ∷ [];
          waits = [];
          next_id = suc next;
          outcome = read_response method r;
        }
      ]
    ]
