-- ===== src/Base58/Value.antt =====
-- sdk/src/reputation/base58.ts: the number that a list of digits stands for, in either base, and the
-- rounds of the two loops, which multiply it and add to it.
use ppv.Base.{
  ℕ, zero, suc, ◌+◌, ◌*◌, ◌/◌, ◌%◌, ◌≤◌, ◌<◌, ◌≡◌, refl, sym, ap, ◌∙◌, arith, nat_beq, Bool-cases,
  inl, inr, List, [], ◌∷◌, ◌++◌,
}
use ppv.Base58.{push_carry, scale_add}
use native.Mathlib.Nat.{
  mod-lt, mod-eq_of_lt, div-eq_of_lt, div-add-mod, div-lt_self, add-mul-mod_self_left,
  add-mul-div_left,
}
use mathlib.Core.List.{reverse, reverse-cons}

-- Digits, least significant first.
abbrev pub value : ℕ → List ℕ → ℕ
value b [] = 0
value b (d ∷ ds) = d + b * value b ds

-- Digits, most significant first, behind a number that is there already.
abbrev pub horner : ℕ → ℕ → List ℕ → ℕ
horner b n [] = n
horner b n (d ∷ ds) = horner b (b * n + d) ds

-- Digits of the base, least significant first, of which the last is not zero.
abbrev pub IsProper : ℕ → List ℕ → Type 0
IsProper b [] = Unit
IsProper b (d ∷ ds) = (d < b) × (0 < d + b * value b ds) × IsProper b ds

horner-append : (b n : ℕ) (xs ys : List ℕ) → horner b n (xs ++ ys) ≡ horner b (horner b n xs) ys
horner-append b n [] ys = refl
horner-append b n (x ∷ xs) ys = horner-append b (b * n + x) xs ys

pub horner-reverse : (b : ℕ) (ds : List ℕ) → horner b 0 (reverse ds) ≡ value b ds
horner-reverse b [] = refl
horner-reverse b (d ∷ ds) = rw reverse-cons (
    horner-append b 0 (reverse ds) (d ∷ [])
    ∙ (ap (λ (n : ℕ). b * n + d) (horner-reverse b ds) ∙ omega arith))

-- Two numbers with a digit in front agree in that digit and in the rest.
digit_unique : (b d e v w : ℕ) → d < b → e < b → d + b * v ≡ e + b * w → (d ≡ e) × (v ≡ w)
digit_unique b d e v w hd he h =
    let positive : 0 < b = omega arith in
    (
      sym (mod-eq_of_lt hd)
          ∙ (sym (add-mul-mod_self_left d b v)
              ∙ (ap (λ (n : ℕ). n % b) h ∙ (add-mul-mod_self_left e b w ∙ mod-eq_of_lt he))),
      sym (quotient d v hd positive) ∙ (ap (λ (n : ℕ). n / b) h ∙ quotient e w he positive),
    )
  where
    quotient : (x y : ℕ) → x < b → 0 < b → (x + b * y) / b ≡ y
    quotient x y hx p =
        add-mul-div_left x y p ∙ ap (λ (n : ℕ). n + y) (div-eq_of_lt hx) ∙ omega arith

pub value_unique :
    (b : ℕ) (xs ys : List ℕ) → IsProper b xs → IsProper b ys → value b xs ≡ value b ys → xs ≡ ys
value_unique b [] [] p q h = refl
value_unique b [] (y ∷ ys) p q h = let k = q.1 in absurd (omega arith)
value_unique b (x ∷ xs) [] p q h = let k = p.1 in absurd (omega arith)
value_unique b (x ∷ xs) (y ∷ ys) (hx, px, p) (hy, py, q) h =
    let (same, rest) = digit_unique b x y (value b xs) (value b ys) hx hy h in
    let tails = value_unique b xs ys p q rest in cc

module _ (b : ℕ) (big : 1 < b) where
  digits_of : (n : ℕ) → n % b + b * (n / b) ≡ n
  digits_of n = let e = div-add-mod n b in omega arith

  push_carry-IsProper :
      (fuel carry : ℕ)
      → carry ≤ fuel
      → (value b (push_carry b fuel carry) ≡ carry) × IsProper b (push_carry b fuel carry)
  unfolding push_carry
  push_carry-IsProper zero carry h = (omega arith, tt)
  push_carry-IsProper (suc fuel) carry h = elim (Bool-cases (nat_beq carry 0)) [
    | inl e ↦ rw e (ground arith, tt)
    | inr e ↦
        let positive : 0 < carry = ground arith in
        let falls = div-lt_self positive big in
        let (same, proper) = push_carry-IsProper fuel (carry / b) (omega arith) in
        let all : carry % b + b * value b (push_carry b fuel (carry / b)) ≡ carry =
          ap (λ (n : ℕ). carry % b + b * n) same ∙ digits_of carry in
        rw e (all, (mod-lt carry (omega arith), omega arith, proper))
  ]

  -- One round: the number is multiplied by the factor, and the carry is added.
  pub scale_add-IsProper :
      (f carry : ℕ) (ds : List ℕ)
      → 0 < f
      → IsProper b ds
      → (value b (scale_add f b carry ds) ≡ f * value b ds + carry)
        × IsProper b (scale_add f b carry ds)
  unfolding scale_add
  scale_add-IsProper f carry [] hf p =
      let (same, proper) = push_carry-IsProper carry carry (omega arith) in
      (same ∙ omega arith, proper)
  scale_add-IsProper f carry (d ∷ ds) hf (hd, positive, p) =
      let total = carry + d * f in
      let (same, proper) = scale_add-IsProper f (total / b) ds hf p in
      let all : total % b + b * value b (scale_add f b (total / b) ds)
          ≡ f * (d + b * value b ds) + carry =
        ap (λ (n : ℕ). total % b + b * n) same ∙ round (value b ds) total (digits_of total) refl in
      let grows : 0 < f * (d + b * value b ds) = grind arith in
      (all, (mod-lt total (omega arith), omega arith, proper))
    where
      round :
          (v t : ℕ)
          → t % b + b * (t / b) ≡ t
          → t ≡ carry + d * f
          → t % b + b * (f * v + t / b) ≡ f * (d + b * v) + carry
      round v t e k = omega arith
