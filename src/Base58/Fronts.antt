-- ===== src/Base58/Fronts.antt =====
-- sdk/src/reputation/base58.ts: the zero bytes and the ones at the front.
use ppv.Base.{
  ℕ, zero, suc, ◌<◌, ◌≡◌, ◌↔◌, refl, sym, ap, arith, true, false, nat_beq, nat_beq_iff, Bool-cases,
  inl, inr, List, [], ◌∷◌, ◌++◌, All, replicate, option_eq, nat_eq,
}
use ppv.Base58.{count_front, drop_front}
use ppv.Base58.Conversion.{Leads}

-- The list is empty or begins with something other than `z`.
abbrev pub NotLed : ℕ → List ℕ → Type 0
NotLed z [] = Unit
NotLed z (x ∷ xs) = nat_beq x z ≡ false

pub drop_front-NotLed : (z : ℕ) (xs : List ℕ) → NotLed z (drop_front z xs)
unfolding drop_front
drop_front-NotLed z [] = tt
drop_front-NotLed z (x ∷ xs) = elim (Bool-cases (nat_beq x z)) [
  | inl e ↦ rw e (drop_front-NotLed z xs)
  | inr e ↦ rw e e
]

pub replicate-drop_front :
    (z : ℕ) (xs : List ℕ) → replicate (count_front z xs) z ++ drop_front z xs ≡ xs
unfolding count_front drop_front
replicate-drop_front z [] = refl
replicate-drop_front z (x ∷ xs) = elim (Bool-cases (nat_beq x z)) [
  | inl e ↦
      let same = (nat_beq_iff x z).0 e in
      let rest = replicate-drop_front z xs in rw e (let k = sym same in cc)
  | inr e ↦ rw e refl
]

pub count_front-replicate :
    (z n : ℕ) (xs : List ℕ)
    → NotLed z xs
    → (count_front z (replicate n z ++ xs) ≡ n) × (drop_front z (replicate n z ++ xs) ≡ xs)
unfolding count_front drop_front
count_front-replicate z zero [] h = (refl, refl)
count_front-replicate z zero (x ∷ xs) h = rw h (refl, refl)
count_front-replicate z (suc n) xs h =
    let (c, d) = count_front-replicate z n xs h in
    let e : nat_beq z z ≡ true = (nat_beq_iff z z).1 refl in rw e (ap suc c, d)

pub NotLed-Leads : (xs : List ℕ) → NotLed 0 xs ↔ Leads xs
NotLed-Leads [] = ((λ h. tt), λ h. tt)
NotLed-Leads (x ∷ xs) = ((λ h. ground arith), λ h. ground arith)

pub drop_front-All :
    (z : ℕ) (xs : List ℕ) → All (λ x. x < 256) xs → All (λ x. x < 256) (drop_front z xs)
unfolding drop_front
drop_front-All z [] p = tt
drop_front-All z (x ∷ xs) (h, p) = elim (Bool-cases (nat_beq x z)) [
  | inl e ↦ rw e (drop_front-All z xs p)
  | inr e ↦ rw e (h, p)
]

pub replicate-All :
    (n : ℕ) (xs : List ℕ) → All (λ x. x < 256) xs → All (λ x. x < 256) (replicate n 0 ++ xs)
replicate-All zero xs p = p
replicate-All (suc n) xs p = (omega arith, replicate-All n xs p)
