-- ===== src/Rpc/Delays.antt =====
-- indexer/src/rpc.ts and scripts/lib/rpc.mjs: how long a client waits before a retry.
use ppv.Rpc.RetryAfter.{AskedWait, parse_retry_after-AskedWait, parse_retry_after-nothing_asked}
use ppv.Base.{
  ◌^◌, ℕ, zero, suc, ◌+◌, ◌-◌, ◌*◌, ◌/◌, ◌≤◌, ◌<◌, ◌≡◌, ◌⊎◌, inl, inr, refl, if◌then◌else◌, Bool,
  false, Option, none, some, [], ◌∷◌, arith, leb, length, get_elem?, Bool-cases, Option-cases,
  subst,
}
use ppv.Base.Int.{ℤ, pos, ◌-ℤ◌, leb_ℤ, pos_part}
use ppv.Base.Text.{Text}
use ppv.Rpc.{
  Timing, Share, jittered, minimum, maximum, until, read_delay, parse_retry_after, honoured_or,
  base_delay, rate_limit_backoff_ms, rate_limit_max_delay_ms, rate_limit_delay_ms, digits_value,
  trim,
}
use ppv.Rpc.Client.{client_delay_ms}
use native.Mathlib.Nat.{div-lt_iff_lt-mul, lt-mul-div-succ}

-- `Math.random` gives a share of one.
pub record IsShare (s : Share) : Type 0 where
  pub positive : 0 < s.den
  pub at_most_one : s.num ≤ s.den

minimum-le : (a b : ℕ) → minimum a b ≤ b
unfolding minimum
minimum-le a b = ground arith

jittered-le : (c : ℕ) (s : Share) → IsShare s → jittered c s ≤ c
unfolding jittered
jittered-le c s h =
    let b : c * (s.den + s.num) + s.den < suc c * (2 * s.den) =
      product c s.num s.den h.positive h.at_most_one in
    let d : (c * (s.den + s.num) + s.den) / (2 * s.den) < suc c =
      (div-lt_iff_lt-mul (positive s.den h.positive)).1 b in
    omega arith
  where
    positive : (n : ℕ) → 0 < n → 0 < 2 * n
    positive n p = omega arith

    product : (a n d : ℕ) → 0 < d → n ≤ d → a * (d + n) + d < suc a * (2 * d)
    product zero n d p q = omega arith
    product (suc a) n d p q = omega (arith, product a n d p q)

until-le : (o : Option ℤ) (now : ℤ) (max d : ℕ) → until o now max ≡ some d → d ≤ max
unfolding until
until-le none now max d h = absurd (cc)
until-le (some w) now max d h = chosen (leb_ℤ (w -ℤ now) (pos 0)) (pos_part (w -ℤ now)) h
  where
    chosen :
        (past : Bool) (delta : ℕ) → some (if past then 0 else minimum delta max) ≡ some d → d ≤ max
    chosen past delta k = ground (arith, minimum-le delta max)

read_delay-le :
    (parse : Text → Option ℤ) (now : ℤ) (max : ℕ) (t : Text) (d : ℕ)
    → read_delay parse now max t ≡ some d
    → d ≤ max
unfolding read_delay
read_delay-le parse now max [] d h = absurd (cc)
read_delay-le parse now max (c ∷ cs) d h =
    ground
      (arith, minimum-le (digits_value 0 (c ∷ cs) * 1000) max, until-le (parse (c ∷ cs)) now max d)

parse_retry_after-le :
    (parse : Text → Option ℤ) (now : ℤ) (max : ℕ) (header : Option Text) (d : ℕ)
    → parse_retry_after parse now max header ≡ some d
    → d ≤ max
unfolding parse_retry_after
parse_retry_after-le parse now max none d h = absurd (cc)
parse_retry_after-le parse now max (some v) d h = read_delay-le parse now max (trim v) d h

jittered-ge : (c : ℕ) (s : Share) → IsShare s → c ≤ 2 * jittered c s
unfolding jittered
jittered-ge c s h =
    half c s.num s.den ((c * (s.den + s.num) + s.den) / (2 * s.den)) h.positive
      (lt-mul-div-succ (c * (s.den + s.num) + s.den) (positive s.den h.positive))
  where
    positive : (n : ℕ) → 0 < n → 0 < 2 * n
    positive n p = omega arith

    le-mul : (d x y : ℕ) → x ≤ y → x * d ≤ y * d
    le-mul zero x y k = omega arith
    le-mul (suc d) x y k = omega (arith, le-mul d x y k)

    half : (a n d j : ℕ) → 0 < d → a * (d + n) + d < 2 * d * (j + 1) → a ≤ 2 * j
    half a n d j p q = elim (Bool-cases (leb a (2 * j))) [
      | inl e ↦ ground arith
      | inr e ↦
          let k : 2 * j + 1 ≤ a = ground arith in absurd (omega (arith, le-mul d (2 * j + 1) a k))
    ]

-- The bounds of a wait: it is never longer than the longest, and it is the wait that the endpoint
-- asked for, cut down to the longest, or, where it asked for none, it is between half of what the
-- schedule says and the whole.
pub record DelayBounds (timing : Timing) (attempt : ℕ) (header : Option Text) (base delay : ℕ)
    : Type 0 where
  pub at_most : delay ≤ rate_limit_max_delay_ms
  pub asked_or_scheduled :
      AskedWait timing.parse_date (timing.now attempt) rate_limit_max_delay_ms header delay
      ⊎ (((d : ℕ)
            → ¬ AskedWait timing.parse_date (timing.now attempt) rate_limit_max_delay_ms header d)
          × (base ≤ 2 * delay)
          × (delay ≤ base))

-- 500, 1000, 2000 and 4000, and from then on 4000.
abbrev pub doubling : ℕ → ℕ
doubling attempt = 250 * 2 ^ (if leb attempt 4 then attempt else 4)

abbrev source_base : ℕ → ℕ
source_base attempt =
    minimum
      (base_delay (
        get_elem? rate_limit_backoff_ms
          (maximum 1 (minimum attempt (length rate_limit_backoff_ms)) - 1)))
      rate_limit_max_delay_ms

abbrev client_base : ℕ → ℕ
client_base attempt =
    minimum
      (base_delay
        (get_elem? rate_limit_backoff_ms (minimum attempt (length rate_limit_backoff_ms) - 1)))
      rate_limit_max_delay_ms

source_base-doubling : (attempt : ℕ) → 0 < attempt → source_base attempt ≡ doubling attempt
unfolding minimum base_delay
source_base-doubling zero h = absurd (omega arith)
source_base-doubling (suc zero) h = refl
source_base-doubling (suc (suc zero)) h = refl
source_base-doubling (suc (suc (suc zero))) h = refl
source_base-doubling (suc (suc (suc (suc zero)))) h = refl
source_base-doubling (suc (suc (suc (suc (suc n))))) h =
    let over : leb (suc (suc (suc (suc (suc n))))) 4 ≡ false = ground arith in ground (arith, over)

client_base-doubling : (attempt : ℕ) → 0 < attempt → client_base attempt ≡ doubling attempt
unfolding minimum base_delay
client_base-doubling zero h = absurd (omega arith)
client_base-doubling (suc zero) h = refl
client_base-doubling (suc (suc zero)) h = refl
client_base-doubling (suc (suc (suc zero))) h = refl
client_base-doubling (suc (suc (suc (suc zero)))) h = refl
client_base-doubling (suc (suc (suc (suc (suc n))))) h =
    let over : leb (suc (suc (suc (suc (suc n))))) 4 ≡ false = ground arith in ground (arith, over)

honoured_or-DelayBounds :
    (timing : Timing) (attempt : ℕ) (header : Option Text) (base : ℕ)
    → IsShare (timing.random attempt)
    → base ≤ rate_limit_max_delay_ms
    → DelayBounds timing attempt header base (
        honoured_or
          (parse_retry_after timing.parse_date (timing.now attempt) rate_limit_max_delay_ms header)
          (jittered base (timing.random attempt)))
unfolding honoured_or
honoured_or-DelayBounds timing attempt header base s b =
    elim (Option-cases
      (parse_retry_after timing.parse_date (timing.now attempt) rate_limit_max_delay_ms header)) [
        | inr (d, e) ↦ record {
          at_most = rw e (
              parse_retry_after-le timing.parse_date (timing.now attempt) rate_limit_max_delay_ms
                header d e);
          asked_or_scheduled = rw e (
              inl (
                parse_retry_after-AskedWait timing.parse_date (timing.now attempt)
                  rate_limit_max_delay_ms header d e));
        }
        | inl e ↦ record {
          at_most = rw e (omega (arith, jittered-le base (timing.random attempt) s));
          asked_or_scheduled = rw e (
              inr (
                parse_retry_after-nothing_asked timing.parse_date (timing.now attempt)
                    rate_limit_max_delay_ms header e,
                jittered-ge base (timing.random attempt) s,
                jittered-le base (timing.random attempt) s,
              ));
        }
      ]

-- Where Math.random gives at most one: a wait of the indexer's client before a retry is at most
-- 8000 ms. Where `Retry-After` gives, trimmed, a number of seconds in decimal digits that a double
-- holds, or a text with a letter that Date.parse reads as a date, it is that time, nothing for a date
-- that is past, or 8000 ms where that is longer. Where the header is missing or gives neither, the
-- wait is between half of 500, 1000, 2000 or 4000 ms, for the first to the fourth retry and those
-- after it, and the whole.
pub rate_limit_delay_ms-DelayBounds :
    (timing : Timing) (attempt : ℕ) (header : Option Text)
    → 0 < attempt
    → IsShare (timing.random attempt)
    → DelayBounds timing attempt header
        (doubling attempt)
        (rate_limit_delay_ms timing attempt header)
unfolding rate_limit_delay_ms
rate_limit_delay_ms-DelayBounds timing attempt header h s =
    subst
      (λ base. DelayBounds timing attempt header base (rate_limit_delay_ms timing attempt header))
      (source_base-doubling attempt h)
      (honoured_or-DelayBounds timing attempt header (source_base attempt) s (
        minimum-le
          (base_delay (
            get_elem? rate_limit_backoff_ms
              (maximum 1 (minimum attempt (length rate_limit_backoff_ms)) - 1)))
          rate_limit_max_delay_ms))

pub client_delay_ms-DelayBounds :
    (timing : Timing) (attempt : ℕ) (header : Option Text)
    → 0 < attempt
    → IsShare (timing.random attempt)
    → DelayBounds timing attempt header (doubling attempt) (client_delay_ms timing attempt header)
unfolding client_delay_ms
client_delay_ms-DelayBounds timing attempt header h s =
    subst (λ base. DelayBounds timing attempt header base (client_delay_ms timing attempt header))
      (client_base-doubling attempt h)
      (honoured_or-DelayBounds timing attempt header (client_base attempt) s (
        minimum-le
          (base_delay
            (get_elem? rate_limit_backoff_ms (minimum attempt (length rate_limit_backoff_ms) - 1)))
          rate_limit_max_delay_ms))
