-- ===== src/Reputation/Participants/Identifiers.antt =====
-- sdk/src/reputation/hashing.ts: the hexadecimal digits of an identifier.
use ppv.Base.{
  ℕ, zero, suc, ◌*◌, ◌/◌, ◌%◌, ◌<◌, ◌≡◌, refl, arith, Bool, true, List, [], ◌∷◌, All, every, length,
  take_front, list_eq, true_and, and_true, length-take_front,
}
use ppv.Base.Text.{Bytes, hex, hex_digit}
use ppv.Reputation.Contracts.{is_run, is_hex, in_range}

-- SHA-256 gives 32 bytes.
abbrev pub IsDigest : Bytes → Type 0
IsDigest d = (length d ≡ 32) × All (λ b. b < 256) d

is_hex-digit : (d : ℕ) → d < 16 → is_hex (hex_digit d) ≡ true
unfolding is_hex in_range
is_hex-digit d h = ground arith

length-hex : (bs : Bytes) → length (hex bs) ≡ 2 * length bs
unfolding hex
length-hex [] = refl
length-hex (b ∷ bs) = omega (arith, length-hex bs)

every-hex : (bs : Bytes) → All (λ b. b < 256) bs → every is_hex (hex bs) ≡ true
unfolding hex
every-hex [] p = refl
every-hex (b ∷ bs) (h, p) =
    true_and _ _ (is_hex-digit (b / 16) (omega arith))
      (true_and _ _ (is_hex-digit (b % 16) (omega arith)) (every-hex bs p))

every-take_front :
    (p : ℕ → Bool) (n : ℕ) (xs : List ℕ) → every p xs ≡ true → every p (take_front n xs) ≡ true
every-take_front p zero xs h = refl
every-take_front p (suc n) [] h = refl
every-take_front p (suc n) (x ∷ xs) h =
    let (a, b) = and_true _ _ h in true_and _ _ a (every-take_front p n xs b)

pub forty_digits : (d : Bytes) → IsDigest d → is_run is_hex 40 40 (take_front 40 (hex d)) ≡ true
unfolding is_run
forty_digits d (size, p) =
    let k = length-take_front 40 (hex d) (omega (arith, length-hex d)) in
    rw k (true_and _ _ (every-take_front is_hex 40 (hex d) (every-hex d p)) refl)
