-- ===== src/Rpc/Deployed/Layout.antt =====
-- scripts/lib/rpc.mjs `readDeployedProgram`: how the bytes of an account hold a release.
use ppv.Base.{
  ℕ, zero, suc, ◌≤◌, ◌≡◌, refl, sym, ap, ◌∙◌, arith, Bool, true, false, not, Bool-cases, inl, inr,
  Option, some, [], ◌∷◌, ◌++◌, list_eq, All, nat_beq, nat_beq_iff, ltb, length, take_front, drop,
  any, ◌||◌, length-take_front,
}
use ppv.Base.Result.{ok, err}
use ppv.Base.Text.{Bytes}
use ppv.Rpc.Deployed.{
  decode_program_data_authority, code_of, shorter_than_release, no_padding, program_data_too_short,
}

-- The bytes of an account that holds the program's code: a header, the code of the length that was
-- asked for, and zeros.
pub record HoldsRelease (n : ℕ) (bytes binary : Bytes) (padding_length : Option ℕ) : Type 0 where
  pub header : Bytes
  pub padding : Bytes
  pub layout : bytes ≡ header ++ (binary ++ padding)
  pub header_size : length header ≡ 45
  pub binary_size : length binary ≡ n
  pub is_padding : All (λ b. b ≡ 0) padding
  pub padding_size : padding_length ≡ some (length padding)

pub take_front-drop : (n : ℕ) (xs : Bytes) → take_front n xs ++ drop n xs ≡ xs
take_front-drop zero xs = refl
take_front-drop (suc n) [] = refl
take_front-drop (suc n) (x ∷ xs) = ap (λ (t : Bytes). x ∷ t) (take_front-drop n xs)

all_zero : (xs : Bytes) → any (λ b. not (nat_beq b 0)) xs ≡ false → All (λ b. b ≡ 0) xs
all_zero [] h = tt
all_zero (x ∷ xs) h =
    let (z, rest) = neither (nat_beq x 0) (any (λ b. not (nat_beq b 0)) xs) h in
    ((nat_beq_iff x 0).0 z, all_zero xs rest)
  where
    neither : (a b : Bool) → (not a || b) ≡ false → (a ≡ true) × (b ≡ false)
    neither a b h = ground arith

module _ {E : Type 0} where
  -- The code that was cut out of the bytes behind the header.
  pub code_of-some :
      (n : ℕ) (elf binary : Bytes) (padding_length : Option ℕ)
      → code_of {E = E} (some n) elf ≡ ok (binary, padding_length)
      → (binary ++ drop n elf ≡ elf)
        × (length binary ≡ n)
        × All (λ b. b ≡ 0) (drop n elf)
        × (padding_length ≡ some (length (drop n elf)))
  unfolding code_of
  code_of-some n elf binary padding_length h = elim (Bool-cases (ltb (length elf) n)) [
    | inl e ↦
        let k : err (shorter_than_release (length elf) n) ≡ ok (binary, padding_length) =
          rw e at h in
        absurd cc
    | inr e ↦
        let fits : n ≤ length elf = ground arith in
        elim (Bool-cases (any (λ byte. not (nat_beq byte 0)) (drop n elf))) [
          | inl q ↦
              let k : err (no_padding (length elf) n) ≡ ok (binary, padding_length) =
                rw (e, q) at h in
              absurd cc
          | inr q ↦
              let k : ok (take_front n elf, some (length (drop n elf)))
                  ≡ ok (binary, padding_length) =
                rw (e, q) at h in
              let b : take_front n elf ≡ binary = cc in
              let p : some (length (drop n elf)) ≡ padding_length = cc in
              (
                ap (λ (t : Bytes). t ++ drop n elf) (sym b) ∙ take_front-drop n elf,
                ap length (sym b) ∙ length-take_front n elf fits,
                all_zero (drop n elf) q,
                sym p,
              )
        ]
  ]

  pub program_data-long :
      (bytes : Bytes) (r : ℕ × Option Bytes)
      → decode_program_data_authority {E = E} bytes ≡ ok r
      → 45 ≤ length bytes
  unfolding decode_program_data_authority
  program_data-long bytes r h = elim (Bool-cases (ltb (length bytes) 45)) [
    | inl e ↦ let k : err program_data_too_short ≡ ok r = rw e at h in absurd cc
    | inr e ↦ ground arith
  ]
