-- ===== src/Rpc/RetryAfter.antt =====
-- indexer/src/rpc.ts `parseRetryAfter`: what a `Retry-After` header asks for.
use ppv.Base.{
  subst, ℕ, ◌+◌, ◌-◌, ◌*◌, ◌^◌, ◌≤◌, ◌<◌, ◌≡◌, ◌⊎◌, inl, inr, refl, ap, ◌∙◌, true, false, Option,
  none, some, [], ◌∷◌, arith, every, any, length, ltb, Bool-cases, Option-cases, if◌then◌else◌,
}
use ppv.Base.Int.{ℤ, pos, ◌-ℤ◌, leb_ℤ, pos_part}
use ppv.Base.Text.{Text}
use ppv.Base.Search.{trim}
use ppv.Rpc.{
  is_digit, is_letter, digits_value, infinite, minimum, until, read_delay, parse_retry_after,
}
use native.Mathlib.Nat.{pow-suc, pow-zero, add-mul, mul_comm, mul_assoc}

-- The number that decimal digits write: each digit with its power of ten.
abbrev pub decimal_value : Text → ℕ
decimal_value [] = 0
decimal_value (c ∷ cs) = (c - 48) * 10 ^ length cs + decimal_value cs

digits_value-eq : (n : ℕ) (t : Text) → digits_value n t ≡ n * 10 ^ length t + decimal_value t
unfolding digits_value
digits_value-eq n [] = omega (arith, pow-zero 10)
digits_value-eq n (c ∷ cs) =
    digits_value-eq (10 * n + (c - 48)) cs
    ∙ omega (
      arith,
      add-mul (10 * n) (c - 48) (10 ^ length cs),
      times_ten n (10 ^ length cs),
      ap (λ (p : ℕ). n * p) (pow-suc 10 (length cs)),
    )
  where
    times_ten : (a p : ℕ) → 10 * a * p ≡ a * (10 * p)
    times_ten a p = ap (λ (x : ℕ). x * p) (mul_comm 10 a) ∙ mul_assoc a 10 p

digits_value-decimal : (t : Text) → digits_value 0 t ≡ decimal_value t
digits_value-decimal t = omega (arith, digits_value-eq 0 t)

-- Below the least number that a double rounds to infinity.
abbrev pub IsFinite : ℕ → Type 0
IsFinite n = n < 2 ^ 1024 - 2 ^ 970

-- A trimmed text asks for a wait, in milliseconds: for the seconds that its decimal digits write, or
-- up to the date that it is read as.
abbrev pub Asks : (Text → Option ℤ) → ℤ → Text → ℕ → Type 0
Asks parse_date now t ms =
    ((¬ (t ≡ []))
      × (every is_digit t ≡ true)
      × IsFinite (decimal_value t)
      × (ms ≡ 1000 * decimal_value t))
    ⊎ ((every is_digit t ≡ false)
        × (any is_letter t ≡ true)
        × (date : ℤ) × (parse_date t ≡ some date)
        × (ms ≡ pos_part (date -ℤ now)))

-- A wait cut down to the longest.
abbrev pub Capped : ℕ → ℕ → ℕ → Type 0
Capped max ms delay = ((ms ≤ max) × (delay ≡ ms)) ⊎ ((max < ms) × (delay ≡ max))

minimum-Capped : (ms max : ℕ) → Capped max ms (minimum ms max)
unfolding minimum
minimum-Capped ms max = ground arith

until-Capped :
    (date now : ℤ) (max d : ℕ)
    → until (some date) now max ≡ some d
    → Capped max (pos_part (date -ℤ now)) d
unfolding until
until-Capped date now max d h = cut (date -ℤ now) h
  where
    cut :
        (x : ℤ)
        → some (if leb_ℤ x (pos 0) then 0 else minimum (pos_part x) max) ≡ some d
        → Capped max (pos_part x) d
    cut x k = ground (arith, minimum-Capped (pos_part x) max)

-- What a header asks for, and how long it is waited for it.
pub record AskedWait (parse_date : Text → Option ℤ) (now : ℤ) (max : ℕ) (header : Option Text)
    (delay : ℕ) : Type 0 where
  pub value : Text
  pub ms : ℕ
  pub is_header : header ≡ some value
  pub asks : Asks parse_date now (trim value) ms
  pub capped : Capped max ms delay

read_delay-Asks :
    (parse_date : Text → Option ℤ) (now : ℤ) (max : ℕ) (t : Text) (d : ℕ)
    → read_delay parse_date now max t ≡ some d
    → (ms : ℕ) × Asks parse_date now t ms × Capped max ms d
unfolding read_delay infinite
read_delay-Asks parse_date now max [] d h = absurd (cc)
read_delay-Asks parse_date now max (c ∷ cs) d h =
    let v = digits_value 0 (c ∷ cs) in
    let value = digits_value-decimal (c ∷ cs) in
    elim (Bool-cases (every is_digit (c ∷ cs))) [
      | inl e ↦ elim (Bool-cases (ltb v infinite)) [
        | inl l ↦
            let k : some (minimum (v * 1000) max) ≡ some d = rw (e, l, read_delay) at h in
            let q : minimum (v * 1000) max ≡ d = cc in
            (
              v * 1000,
              inl ((λ n. cc), e, finite v value l, omega (arith, value)),
              subst (Capped max (v * 1000)) q (minimum-Capped (v * 1000) max),
            )
        | inr l ↦ absurd (let k = rw (e, l, read_delay) at h in cc)
      ]
      | inr e ↦ elim (Bool-cases (any is_letter (c ∷ cs))) [
        | inr l ↦ absurd (let k = rw (e, l, read_delay) at h in cc)
        | inl l ↦ elim (Option-cases (parse_date (c ∷ cs))) [
          | inl n ↦ absurd (let k = rw (e, l, n, read_delay, until) at h in cc)
          | inr (date, w) ↦
              let k : until (some date) now max ≡ some d = rw (e, l, w, read_delay) at h in
              (pos_part (date -ℤ now), inr (e, l, date, w, refl), until-Capped date now max d k)
        ]
      ]
    ]
  where
    finite :
        (v : ℕ)
        → v ≡ decimal_value (c ∷ cs)
        → ltb v infinite ≡ true
        → IsFinite (decimal_value (c ∷ cs))
    finite v q l = ground arith

-- A text that asks for a wait is read.
Asks-read :
    (parse_date : Text → Option ℤ) (now : ℤ) (max : ℕ) (t : Text) (ms : ℕ)
    → Asks parse_date now t ms
    → read_delay parse_date now max t ≡ none
    → ⊥
unfolding read_delay infinite
Asks-read parse_date now max [] ms (inl (n, e, f, q)) h = n refl
Asks-read parse_date now max [] ms (inr (e, l, date, w, q)) h = cc
Asks-read parse_date now max (c ∷ cs) ms (inl (n, e, f, q)) h =
    let l : ltb (digits_value 0 (c ∷ cs)) infinite ≡ true =
      below (digits_value 0 (c ∷ cs)) (decimal_value (c ∷ cs)) (digits_value-decimal (c ∷ cs)) f in
    let k = rw (e, l, read_delay) at h in cc
  where
    below : (v x : ℕ) → v ≡ x → IsFinite x → ltb v infinite ≡ true
    below v x q i = ground arith
Asks-read parse_date now max (c ∷ cs) ms (inr (e, l, date, w, q)) h =
    let k = rw (e, l, w, read_delay, until) at h in cc

pub parse_retry_after-AskedWait :
    (parse_date : Text → Option ℤ) (now : ℤ) (max : ℕ) (header : Option Text) (d : ℕ)
    → parse_retry_after parse_date now max header ≡ some d
    → AskedWait parse_date now max header d
unfolding parse_retry_after
parse_retry_after-AskedWait parse_date now max none d h = absurd (cc)
parse_retry_after-AskedWait parse_date now max (some v) d h =
    let (ms, a, c) = read_delay-Asks parse_date now max (trim v) d h in
    record { value = v; ms = ms; is_header = refl; asks = a; capped = c }

pub parse_retry_after-nothing_asked :
    (parse_date : Text → Option ℤ) (now : ℤ) (max : ℕ) (header : Option Text)
    → parse_retry_after parse_date now max header ≡ none
    → (delay : ℕ) → ¬ AskedWait parse_date now max header delay
unfolding parse_retry_after
parse_retry_after-nothing_asked parse_date now max header h delay a =
    Asks-read parse_date now max (trim a.value) a.ms a.asks
      (rw (a.is_header, parse_retry_after) at h)
