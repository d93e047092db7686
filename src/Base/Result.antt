-- ===== src/Base/Result.antt =====
-- What a call that may throw returns: its value, or the error.
use mathlib.Core.Path.{◌≡◌, refl}
use mathlib.Core.Bool.{Bool, true, false}
use mathlib.Core.Option.{Option, none, some}
use mathlib.Core.Logic.{◌⊎◌, inl, inr}

pub data Result {ℓ κ} (E : Type ℓ) (A : Type κ) : Type (ℓ ⊔ κ) where
  ok : A → Result E A
  err : E → Result E A

infixl 5 ◌>>=◌ ◌>>◌
abbrev pub ◌>>=◌ {ℓ κ μ} :
    {E : Type ℓ} {A : Type κ} {B : Type μ} → Result E A → (A → Result E B) → Result E B
ok a >>= f = f a
err e >>= f = err e

abbrev pub ◌>>◌ {ℓ κ} : {E : Type ℓ} {B : Type κ} → Result E (Unit {0}) → Result E B → Result E B
m >> k = m >>= λ _. k

-- `if (condition) throw e;`
abbrev pub throw_if {ℓ} : {E : Type ℓ} → Bool → E → Result E (Unit {0})
throw_if true e = err e
throw_if false e = ok tt

abbrev pub or_throw {ℓ κ} : {E : Type ℓ} {A : Type κ} → Option A → E → Result E A
or_throw none e = err e
or_throw (some a) e = ok a

-- A chain that returned has a first step that returned.
pub >>=-eq-ok {ℓ κ μ} :
    {X : Type ℓ} {S : Type κ} {T : Type μ} (first : Result X S) (next : S → Result X T) {final : T}
    → (first >>= next) ≡ ok final
    → (s : S) × (first ≡ ok s) × (next s ≡ ok final)
>>=-eq-ok (ok s) next returned = (s, refl, returned)
>>=-eq-ok (err x) next returned = cc

pub throw_if-eq-ok {ℓ} :
    {E : Type ℓ} (c : Bool) (e : E) {u : Unit {0}} → throw_if c e ≡ ok u → c ≡ false
throw_if-eq-ok true e h = cc
throw_if-eq-ok false e h = refl

pub Result-cases {ℓ κ} :
    {E : Type ℓ} {A : Type κ} (r : Result E A) → ((a : A) × (r ≡ ok a)) ⊎ ((e : E) × (r ≡ err e))
Result-cases (ok a) = inl (a, refl)
Result-cases (err e) = inr (e, refl)

pub >>=-ne-err {ℓ κ μ} :
    {X : Type ℓ} {S : Type κ} {T : Type μ} (first : Result X S) (next : S → Result X T) {x : X}
    → (first ≡ err x → ⊥)
    → ((s : S) → next s ≡ err x → ⊥)
    → (first >>= next) ≡ err x
    → ⊥
>>=-ne-err (ok s) next a b e = b s e
>>=-ne-err (err y) next a b e = a cc
