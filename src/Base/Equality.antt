-- ===== src/Base/Equality.antt =====
-- `===` on the values that the program compares: one operator for every type with an instance.
use Prim.Native.Nat.{ℕ}
use mathlib.Core.Path.{◌≡◌, refl}
use mathlib.Core.Logic.{◌↔◌}
use mathlib.Core.Bool.{Bool, true, false, ◌&&◌}
use mathlib.Core.Option.{Option, none, some}
use mathlib.Core.List.{List, [], ◌∷◌}
use native.Mathlib.Omega.{arith}
use ppv.Base.Tests.{nat_beq, nat_beq_iff}

pub record Eq {κ} (S : Type κ) : Type κ where
  pub same : S → S → Bool
  pub same_iff : (s t : S) → (same s t ≡ true) ↔ (s ≡ t)

infix 50 ◌==◌
abbrev pub ◌==◌ {κ} : {S : Type κ} ⦃d : Eq S⦄ → S → S → Bool
◌==◌ ⦃d⦄ = d.same

pub ==_iff {κ} : {S : Type κ} ⦃d : Eq S⦄ (s t : S) → ((s == t) ≡ true) ↔ (s ≡ t)
==_iff ⦃d⦄ s t = d.same_iff s t

pub ==_refl {κ} : {S : Type κ} ⦃d : Eq S⦄ (s : S) → (s == s) ≡ true
==_refl ⦃d⦄ s = (d.same_iff s s).1 refl

pub ==_ne {κ} : {S : Type κ} ⦃d : Eq S⦄ (s t : S) → (s ≡ t → ⊥) → (s == t) ≡ false
==_ne ⦃d⦄ s t h = ground (arith, d.same_iff s t)

instance abbrev pub nat_eq : Eq ℕ
nat_eq = record { same = nat_beq; same_iff = nat_beq_iff }

-- Texts are lists of code units, and bytes are lists of numbers.
abbrev pub list_beq : List ℕ → List ℕ → Bool
list_beq [] [] = true
list_beq [] (y ∷ ys) = false
list_beq (x ∷ xs) [] = false
list_beq (x ∷ xs) (y ∷ ys) = nat_beq x y && list_beq xs ys

pub list_beq_iff : (xs ys : List ℕ) → (list_beq xs ys ≡ true) ↔ (xs ≡ ys)
list_beq_iff [] [] = ground arith
list_beq_iff [] (y ∷ ys) = ground arith
list_beq_iff (x ∷ xs) [] = ground arith
list_beq_iff (x ∷ xs) (y ∷ ys) = ground (arith, list_beq_iff xs ys)

instance abbrev pub list_eq : Eq (List ℕ)
list_eq = record { same = list_beq; same_iff = list_beq_iff }

abbrev pub option_beq {ℓ} : {A : Type ℓ} ⦃e : Eq A⦄ → Option A → Option A → Bool
option_beq none none = true
option_beq none (some b) = false
option_beq (some a) none = false
option_beq (some a) (some b) = a == b

pub option_beq_iff {ℓ} :
    {A : Type ℓ} ⦃e : Eq A⦄ (x y : Option A) → (option_beq x y ≡ true) ↔ (x ≡ y)
option_beq_iff none none = ground arith
option_beq_iff none (some b) = ground arith
option_beq_iff (some a) none = ground arith
option_beq_iff ⦃e⦄ (some a) (some b) = ground (arith, e.same_iff a b)

-- `===` on a value that may be `null`.
instance abbrev pub option_eq {ℓ} : {A : Type ℓ} ⦃e : Eq A⦄ → Eq (Option A)
option_eq = record { same = option_beq; same_iff = option_beq_iff }
