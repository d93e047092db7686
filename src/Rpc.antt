-- ===== src/Rpc.antt =====
-- The two JSON-RPC clients: indexer/src/rpc.ts, and scripts/lib/rpc.mjs, whose retry policy is the
-- same text. Here stand the shapes of a request and a response, and the policy. What `fetch`
-- answers, the clock, `Math.random` and `Date.parse` are parameters.
pub mod Exchanges
pub mod Source
pub mod Client
pub mod RetryAfter
pub mod Delays
pub mod Methods
pub mod Attempts
pub mod Deployed
mod Tests
use ppv.Base.{
  ℕ, ◌+◌, ◌-◌, ◌*◌, ◌/◌, ◌^◌, ◌==◌, Bool, not, ◌&&◌, ◌||◌, Option, none, some, List, [], ◌∷◌, any,
  every, leb, ltb, list_eq, if◌then◌else◌, get_elem?, length,
}
use ppv.Base.Int.{ℤ, pos, ◌-ℤ◌, leb_ℤ, pos_part}
use ppv.Base.Text.{Text, codes}
use ppv.Base.Search.{trim}

abbrev pub rate_limit_status : ℕ
rate_limit_status = 429

abbrev pub rate_limit_max_retries : ℕ
rate_limit_max_retries = 4

abbrev pub rate_limit_backoff_ms : List ℕ
rate_limit_backoff_ms = 500 ∷ 1000 ∷ 2000 ∷ 4000 ∷ []

abbrev pub rate_limit_max_delay_ms : ℕ
rate_limit_max_delay_ms = 8000

abbrev pub is_digit : ℕ → Bool
is_digit c = leb 48 c && leb c 57

abbrev pub is_letter : ℕ → Bool
is_letter c = leb 65 c && leb c 90 || leb 97 c && leb c 122

-- `Number(text)` of decimal digits, before it is rounded to a double.
unfoldable pub digits_value : ℕ → Text → ℕ
digits_value n [] = n
digits_value n (c ∷ cs) = digits_value (10 * n + (c - 48)) cs

-- The least number that a double rounds to infinity.
unfoldable pub infinite : ℕ
infinite = 2 ^ 1024 - 2 ^ 970

unfoldable pub minimum : ℕ → ℕ → ℕ
minimum a b = if leb a b then a else b

-- `when - now`, at most `max`, and 0 where it is past.
unfoldable pub until : Option ℤ → ℤ → ℕ → Option ℕ
unfolding minimum
until none now max = none
until (some when) now max =
    let delta = when -ℤ now in
    some (if leb_ℤ delta (pos 0) then 0 else minimum (pos_part delta) max)

-- A header that is there and was trimmed.
unfoldable pub read_delay : (Text → Option ℤ) → ℤ → ℕ → Text → Option ℕ
unfolding digits_value infinite minimum until
read_delay parse_date now max [] = none
read_delay parse_date now max (c ∷ cs) =
    if every is_digit (c ∷ cs)
    then (let seconds = digits_value 0 (c ∷ cs) in
        if ltb seconds infinite then some (minimum (seconds * 1000) max) else none)
    else if not (any is_letter (c ∷ cs))
    then none
    else until (parse_date (c ∷ cs)) now max

unfoldable pub parse_retry_after : (Text → Option ℤ) → ℤ → ℕ → Option Text → Option ℕ
unfolding read_delay
parse_retry_after parse_date now max none = none
parse_retry_after parse_date now max (some value) = read_delay parse_date now max (trim value)

-- What `Math.random` gives, as a fraction from 0 to 1.
pub record Share : Type 0 where
  pub num : ℕ
  pub den : ℕ

-- `RATE_LIMIT_BACKOFF_MS[index] ?? RATE_LIMIT_MAX_DELAY_MS`
unfoldable pub base_delay : Option ℕ → ℕ
base_delay none = rate_limit_max_delay_ms
base_delay (some b) = b

unfoldable pub honoured_or : Option ℕ → ℕ → ℕ
honoured_or (some delay) own = delay
honoured_or none own = own

abbrev pub maximum : ℕ → ℕ → ℕ
maximum a b = if leb a b then b else a

-- `Math.round(capped / 2 + random() * (capped / 2))`, in exact arithmetic.
unfoldable pub jittered : ℕ → Share → ℕ
jittered capped share = (capped * (share.den + share.num) + share.den) / (2 * share.den)

-- What is given from outside for the delays of one call: the clock and the random share at each
-- retry, and `Date.parse`.
pub record Timing : Type 0 where
  pub parse_date : Text → Option ℤ
  pub now : ℕ → ℤ
  pub random : ℕ → Share

-- `attempt` counts from 1.
unfoldable pub rate_limit_delay_ms : Timing → ℕ → Option Text → ℕ
unfolding base_delay honoured_or parse_retry_after minimum jittered
rate_limit_delay_ms timing attempt header =
    let index = maximum 1 (minimum attempt (length rate_limit_backoff_ms)) - 1 in
    let base = base_delay (get_elem? rate_limit_backoff_ms index) in
    honoured_or
      (parse_retry_after timing.parse_date (timing.now attempt) rate_limit_max_delay_ms header)
      (jittered (minimum base rate_limit_max_delay_ms) (timing.random attempt))

-- A request that was sent; its parameters are the text that they are sent as.
pub record Request : Type 0 where
  pub id : ℕ
  pub method : Text
  pub params : Text

pub record TransportError : Type 0 where
  pub cause_code : Option Text
  pub code : Option Text

-- The parsed body; an error may have no message.
pub record Body {ℓ} (A : Type ℓ) : Type ℓ where
  pub error : Option (Option Text)
  pub result : A

-- `body` is none where `response.json()` throws.
pub record Response {ℓ} (A : Type ℓ) : Type ℓ where
  pub status : ℕ
  pub is_ok : Bool
  pub retry_after : Option Text
  pub body : Option (Body A)

pub data RpcFailure : Type 0 where
  not_available : Text → RpcFailure
  unreachable : Text → Text → RpcFailure
  rate_limited : Text → ℕ → RpcFailure
  http_failed : Text → ℕ → RpcFailure
  refused : Text → Text → RpcFailure
  unreadable : RpcFailure
  out_of_fuel : RpcFailure

unfoldable pub or_code : Option Text → Option Text → Text
or_code (some c) d = c
or_code none (some d) = d
or_code none none = []

-- The table of known codes, by its values.
pub reasons : List (Text × Text)
reasons =
    (codes "ENOTFOUND", codes "the host could not be resolved")
    ∷ (codes "EAI_AGAIN", codes "the host could not be resolved")
    ∷ (codes "ECONNREFUSED", codes "the connection was refused")
    ∷ (codes "ECONNRESET", codes "the connection was reset")
    ∷ (codes "ETIMEDOUT", codes "the connection timed out")
    ∷ (codes "UND_ERR_CONNECT_TIMEOUT", codes "the connection timed out")
    ∷ (codes "UND_ERR_HEADERS_TIMEOUT", codes "the response headers timed out")
    ∷ (codes "UND_ERR_BODY_TIMEOUT", codes "the response body timed out")
    ∷ (codes "CERT_HAS_EXPIRED", codes "the TLS certificate is not valid")
    ∷ (codes "ERR_TLS_CERT_ALTNAME_INVALID", codes "the TLS certificate is not valid")
    ∷ []

unfoldable pub reason_of : List (Text × Text) → Text → Text → Text
reason_of [] code default = default
reason_of ((k, reason) ∷ rows) code default =
    let rest = reason_of rows code default in if k == code then reason else rest

-- Both clients have the table; they differ in what they say of another code.
unfoldable pub transport_reason : Text → TransportError → Text
unfolding or_code reasons reason_of
transport_reason default e = reason_of reasons (or_code e.cause_code e.code) default
