-- ===== src/Base58/Characters.antt =====
-- sdk/src/reputation/base58.ts: the characters of digits.
use ppv.Base.{
  ℕ, zero, suc, ◌+◌, ◌<◌, ◌≡◌, ◌↔◌, refl, sym, ap, ◌∙◌, arith, Bool, true, false, nat_beq,
  nat_beq_iff, Bool-cases, inl, inr, some, List, [], ◌∷◌, All, map, length, ◌==◌, option_eq, nat_eq,
  ==_iff, if◌then◌else◌, Option-cases,
}
use ppv.Base.Result.{ok, err}
use ppv.Base.Text.{Text}
use ppv.Base58.{alphabet, char_at, index_of, decode_digits, invalid_base58_character, scale_add}
use ppv.Base58.Conversion.{convert, Leads}
use ppv.Base58.Fronts.{NotLed}

-- A test that holds below a bound, tried for each number.
tried_below : ℕ → (ℕ → Bool) → Bool
tried_below zero p = true
tried_below (suc n) p = let rest = tried_below n p in if p n then rest else false

tried_below_lem : (p : ℕ → Bool) (n d : ℕ) → tried_below n p ≡ true → d < n → p d ≡ true
unfolding tried_below
tried_below_lem p zero d h lt = absurd (omega arith)
tried_below_lem p (suc n) d h lt = elim (Bool-cases (p n)) [
  | inl e ↦
      let k : tried_below n p ≡ true = rw e at h in
      elim (Bool-cases (nat_beq d n)) [
        | inl q ↦ ap p ((nat_beq_iff d n).0 q) ∙ e
        | inr q ↦ tried_below_lem p n d k (ground arith)
      ]
  | inr e ↦ let k : false ≡ true = rw e at h in absurd (cc)
]

-- Each digit has one character, and only the digit 0 has the character 1.
index_of-char_at : (d : ℕ) → d < 58 → index_of (char_at alphabet d) alphabet 0 ≡ some d
unfolding tried_below
index_of-char_at d h =
    (==_iff (index_of (char_at alphabet d) alphabet 0) (some d)).0
      (tried_below_lem (λ d. index_of (char_at alphabet d) alphabet 0 == some d) 58 d every h)
  where
    every : tried_below 58 (λ d. index_of (char_at alphabet d) alphabet 0 == some d) ≡ true
    every = refl

char_at-one : (d : ℕ) → d < 58 → nat_beq (char_at alphabet d) 49 ≡ nat_beq d 0
char_at-one d h = elim (Bool-cases (nat_beq d 0)) [
  | inl e ↦ let z = (nat_beq_iff d 0).0 e in rw z refl
  | inr e ↦ elim (Bool-cases (nat_beq (char_at alphabet d) 49)) [
    | inl q ↦
        let c = (nat_beq_iff (char_at alphabet d) 49).0 q in
        let i : some d ≡ some 0 =
          sym (index_of-char_at d h) ∙ ap (λ (n : ℕ). index_of n alphabet 0) c in
        let z : d ≡ 0 = cc in
        ap (λ (n : ℕ). nat_beq (char_at alphabet n) 49) z ∙ ap (λ (n : ℕ). nat_beq n 0) (sym z)
    | inr q ↦ q ∙ sym e
  ]
]

index_of-found :
    (c : ℕ) (cs : Text) (i v : ℕ)
    → index_of c cs i ≡ some v
    → (k : ℕ) × (v ≡ i + k) × (k < length cs) × (char_at cs k ≡ c)
index_of-found c [] i v h = absurd (cc)
index_of-found c (x ∷ xs) i v h = elim (Bool-cases (nat_beq x c)) [
  | inl e ↦
      let k : some i ≡ some v = rw e at h in
      let q : i ≡ v = cc in (0, omega arith, omega arith, (nat_beq_iff x c).0 e)
  | inr e ↦
      let (k, q, lt, found) = index_of-found c xs (suc i) v (rw e at h) in
      (suc k, omega arith, omega arith, found)
]

pub decode_digits-map :
    (xs bytes : List ℕ)
    → All (λ d. d < 58) xs
    → decode_digits bytes (map (char_at alphabet) xs) ≡ ok (convert 58 256 bytes xs)
unfolding decode_digits convert
decode_digits-map [] bytes p = refl
decode_digits-map (x ∷ xs) bytes (h, p) =
    rw (index_of-char_at x h, decode_digits) (decode_digits-map xs _ p)

-- What is decoded is the characters of digits.
pub decode_digits-digits :
    (text : Text) (bytes ds : List ℕ)
    → decode_digits bytes text ≡ ok ds
    → (xs : List ℕ) × (text ≡ map (char_at alphabet) xs)
      × All (λ d. d < 58) xs
      × (convert 58 256 bytes xs ≡ ds)
unfolding decode_digits convert
decode_digits-digits [] bytes ds h = ([], refl, tt, cc)
decode_digits-digits (c ∷ cs) bytes ds h = elim (Option-cases (index_of c alphabet 0)) [
  | inl e ↦ let k : err invalid_base58_character ≡ ok ds = rw (e, decode_digits) at h in absurd (cc)
  | inr (v, e) ↦
      let (k, q, lt, found) = index_of-found c alphabet 0 v e in
      let (xs, same, digits, result) =
        decode_digits-digits cs (scale_add 58 256 v bytes) ds (rw (e, decode_digits) at h) in
      let z : k ≡ v = omega arith in
      let here : char_at alphabet v ≡ c = ap (char_at alphabet) (sym z) ∙ found in
      let below : v < 58 = omega arith in (v ∷ xs, cc, (below, digits), result)
]

-- A list of digits begins with the digit 0 where its characters begin with 1.
pub NotLed-map :
    (xs : List ℕ) → All (λ d. d < 58) xs → NotLed 49 (map (char_at alphabet) xs) ↔ Leads xs
NotLed-map [] p = ((λ h. tt), λ h. tt)
NotLed-map (x ∷ xs) (h, p) =
    let e = char_at-one x h in
    ((λ k. let z : nat_beq x 0 ≡ false = sym e ∙ k in ground arith), λ k. e ∙ positive x k)
  where
    positive : (n : ℕ) → 0 < n → nat_beq n 0 ≡ false
    positive n k = ground arith
