-- ===== src/Rpc/Tests.antt =====
-- Runs of the clients of indexer/src/rpc.ts and scripts/lib/rpc.mjs, and their theorems at answers.
use ppv.Base.Members.{In}
use ppv.Base.{ℕ, zero, suc, ◌≡◌, ◌⊎◌, refl, none, some, [], ◌∷◌, arith, nat_beq, list_eq}
use ppv.Base.Result.{Result, ok, err}
use ppv.Base.Int.{pos}
use ppv.Base.Text.{codes}
use ppv.Base.Search.{trim, trim_start, is_space}
use ppv.Rpc.{
  Timing, TransportError, Response, rate_limit_delay_ms, parse_retry_after, read_delay,
  digits_value, minimum, honoured_or, base_delay, jittered, not_available,
}
use ppv.Rpc.Exchanges.{attempt_call, read_response, read_body, after_wait}
use ppv.Rpc.Source.{call}
use ppv.Rpc.Client.{client_call, lists, retries_for}
use ppv.Rpc.Delays.{DelayBounds, doubling, rate_limit_delay_ms-DelayBounds}
use ppv.Rpc.Attempts.{Bounded, SentNothing, Retries, call-Bounded, client_call-Bounded}
use ppv.Rpc.Methods.{source_methods, submitting_methods}

abbrev timing : Timing
timing = record {
  parse_date = λ t. none;
  now = λ n. pos 0;
  random = λ n. record { num = 1; den = 4 };
}

abbrev answered : ℕ → Response ℕ
answered status = record {
  status = status;
  is_ok = nat_beq status 200;
  retry_after = none;
  body = some (record { error = none; result = 7 });
}

-- Two answers with status 429, then the result.
abbrev limited_twice : ℕ → Result TransportError (Response ℕ)
limited_twice zero = ok (answered 429)
limited_twice (suc zero) = ok (answered 429)
limited_twice (suc (suc n)) = ok (answered 200)

rate_limit_delay_ms-DelayBounds_example :
    DelayBounds timing 2
      (some (codes " 3 "))
      (doubling 2)
      (rate_limit_delay_ms timing 2 (some (codes " 3 ")))
rate_limit_delay_ms-DelayBounds_example =
    rate_limit_delay_ms-DelayBounds timing 2 (some (codes " 3 ")) (omega arith)
      (record { positive = omega arith; at_most_one = omega arith })

call_runs : (call limited_twice timing 4 1 (codes "getTransaction") []).outcome ≡ ok 7
unfolding call attempt_call after_wait read_response read_body
call_runs = refl

call_waits : (call limited_twice timing 4 1 (codes "getTransaction") []).waits ≡ 313 ∷ 625 ∷ []
unfolding call attempt_call after_wait rate_limit_delay_ms minimum base_delay honoured_or jittered
    parse_retry_after
call_waits = refl

reads_seconds : parse_retry_after timing.parse_date (pos 0) 8000 (some (codes " 3 ")) ≡ some 3000
unfolding parse_retry_after read_delay digits_value minimum trim trim_start is_space
reads_seconds = refl

-- A submission is refused before a request is made.
refuses_submission : client_call limited_twice timing 4 1 (codes "sendTransaction") [] ≡ record {
  requests = [];
  waits = [];
  next_id = 1;
  outcome = err (not_available (codes "sendTransaction"));
}
unfolding client_call lists
refuses_submission = refl

reads_slot : (client_call limited_twice timing 4 1 (codes "getSlot") []).outcome ≡ ok 7
unfolding client_call lists retries_for attempt_call after_wait read_response read_body
reads_slot = refl

call-Bounded_example :
    (In (codes "getTransaction") source_methods
      × Bounded limited_twice
          (codes "getTransaction")
          []
          4
          0
          1
          (call limited_twice timing 4 1 (codes "getTransaction") []))
    ⊎ ((¬ In (codes "getTransaction") source_methods)
        × SentNothing (call limited_twice timing 4 1 (codes "getTransaction") []))
call-Bounded_example =
    call-Bounded limited_twice timing 4 1 (codes "getTransaction") []
      (λ n. record { positive = omega arith; at_most_one = omega arith })

client_call-Bounded_example :
    (In (codes "sendTransaction") submitting_methods
      × SentNothing (client_call limited_twice timing 4 1 (codes "sendTransaction") []))
    ⊎ ((¬ In (codes "sendTransaction") submitting_methods)
        × ((n : ℕ) × Retries 4 (codes "sendTransaction") n
            × Bounded limited_twice
                (codes "sendTransaction")
                []
                n
                0
                1
                (client_call limited_twice timing 4 1 (codes "sendTransaction") [])))
client_call-Bounded_example =
    client_call-Bounded limited_twice timing 4 1 (codes "sendTransaction") []
      (λ n. record { positive = omega arith; at_most_one = omega arith })
