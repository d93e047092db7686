-- ===== src/Pdas/Seeds.antt =====
-- sdk/src/escrow/pdas.ts `agreementIdSeed` and `proofIndexSeed`, read back by the readers of
-- sdk/src/escrow/reader.ts.
use ppv.Base.{
  ℕ, zero, suc, ◌+◌, ◌*◌, ◌/◌, ◌%◌, ◌^◌, ◌<◌, ◌≡◌, ◌⊎◌, inl, inr, refl, ap, ◌∙◌, arith, ◌++◌, leb,
  Bool-cases, ◌≤◌,
}
use ppv.Base.Result.{ok, err}
use ppv.Base.Int.{ℤ, pos, negsuc}
use ppv.Base.Text.{Bytes}
use ppv.Escrow.Events.Reader.{Reader, ◌>>=◌, pure, take, le_value, u64, u32}
use ppv.Pdas.{le_bytes, agreement_id_seed, proof_index_seed, id_out_of_range, index_out_of_range}
use native.Mathlib.Nat.{pow-suc, pow-zero}

pub le_value-le_bytes : (n v : ℕ) → v < 256 ^ n → le_value (le_bytes n v) ≡ v
unfolding le_value le_bytes
le_value-le_bytes zero v h = omega (arith, pow-zero 256)
le_value-le_bytes (suc n) v h =
    let q : v / 256 < 256 ^ n = omega (arith, pow-suc 256 n) in
    ap (λ (t : ℕ). v % 256 + 256 * t) (le_value-le_bytes n (v / 256) q) ∙ omega arith

pub take-le_bytes :
    (n v : ℕ) (rest : Bytes) → take n (le_bytes n v ++ rest) ≡ ok (le_bytes n v, rest)
unfolding take le_bytes
take-le_bytes zero v rest = refl
take-le_bytes (suc n) v rest = rw (take-le_bytes n (v / 256) rest) refl

read_value :
    (m : Reader Bytes) (word : Bytes) (n : ℕ) (rest : Bytes)
    → m (word ++ rest) ≡ ok (word, rest)
    → le_value word ≡ n
    → (m >>= λ bytes. pure (le_value bytes)) (word ++ rest) ≡ ok (n, rest)
read_value m word n rest e v = rw (e, ◌>>=◌) (ap (λ (t : ℕ). ok (t, rest)) v)

-- `setBigUint64` and `getBigUint64`: a number below 2^64 reads back, whatever comes behind it.
u64-le_bytes : (n : ℕ) (rest : Bytes) → n < 2 ^ 64 → u64 (le_bytes 8 n ++ rest) ≡ ok (n, rest)
unfolding u64
u64-le_bytes n rest h =
    read_value (take 8) (le_bytes 8 n) n rest (take-le_bytes 8 n rest) (le_value-le_bytes 8 n h)

u32-le_bytes : (n : ℕ) (rest : Bytes) → n < 2 ^ 32 → u32 (le_bytes 4 n ++ rest) ≡ ok (n, rest)
unfolding u32
u32-le_bytes n rest h =
    read_value (take 4) (le_bytes 4 n) n rest (take-le_bytes 4 n rest) (le_value-le_bytes 4 n h)

-- A number that is negative, or not below the bound.
abbrev pub OutOfRange : ℕ → ℤ → Type 0
OutOfRange bound id = ((n : ℕ) × (id ≡ pos n) × (bound ≤ n)) ⊎ ((n : ℕ) × (id ≡ negsuc n))

-- The seed of an agreement's number is read back as the number, and what follows it is left, where
-- the number is a u64; a number that is negative or 2^64 and more is refused as out of range.
pub agreement_id_seed-u64 :
    (id : ℤ) (rest : Bytes)
    → ((n : ℕ) × (id ≡ pos n)
        × (n < 2 ^ 64)
        × (seed : Bytes) × (agreement_id_seed id ≡ ok seed)
        × (u64 (seed ++ rest) ≡ ok (n, rest)))
      ⊎ (OutOfRange (2 ^ 64) id × (agreement_id_seed id ≡ err id_out_of_range))
unfolding agreement_id_seed
agreement_id_seed-u64 (negsuc n) rest = inr (inr (n, refl), refl)
agreement_id_seed-u64 (pos n) rest = elim (Bool-cases (leb (2 ^ 64) n)) [
  | inl e ↦ inr (inl (n, refl, ground arith), rw e refl)
  | inr e ↦
      let h : n < 2 ^ 64 = ground arith in
      inl (n, refl, h, le_bytes 8 n, rw e refl, u64-le_bytes n rest h)
]

-- The seed of an index is read back as the index, and what follows it is left, where the index is a
-- u32; a number that is negative or 2^32 and more is refused as out of range.
pub proof_index_seed-u32 :
    (index : ℤ) (rest : Bytes)
    → ((n : ℕ) × (index ≡ pos n)
        × (n < 2 ^ 32)
        × (seed : Bytes) × (proof_index_seed index ≡ ok seed)
        × (u32 (seed ++ rest) ≡ ok (n, rest)))
      ⊎ (OutOfRange (2 ^ 32) index × (proof_index_seed index ≡ err index_out_of_range))
unfolding proof_index_seed
proof_index_seed-u32 (negsuc n) rest = inr (inr (n, refl), refl)
proof_index_seed-u32 (pos n) rest = elim (Bool-cases (leb (2 ^ 32) n)) [
  | inl e ↦ inr (inl (n, refl, ground arith), rw e refl)
  | inr e ↦
      let h : n < 2 ^ 32 = ground arith in
      inl (n, refl, h, le_bytes 4 n, rw e refl, u32-le_bytes n rest h)
]
