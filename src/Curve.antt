-- ===== src/Curve.antt =====
-- sdk/src/escrow/curve.ts: whether 32 bytes are the encoding of a point of the ed25519 curve, in the
-- field of `prime` elements.
pub mod Power
mod Tests
use ppv.Base.{
  ℕ, zero, suc, ◌+◌, ◌-◌, ◌*◌, ◌/◌, ◌%◌, ◌^◌, Bool, true, false, not, ◌&&◌, [], ◌∷◌, nat_beq,
  length, if◌then◌else◌,
}
use ppv.Base.Text.{Bytes}

unfoldable pub prime : ℕ
prime = 2 ^ 255 - 19

unfoldable pub edwards_d : ℕ
edwards_d = 37095705934669439343138083508754565189542113879843219016388785533085940283555

-- The loop of `modPow`, modulo `p`: the exponent loses a bit in each round.
unfoldable pub mod_pow_loop : ℕ → ℕ → ℕ → ℕ → ℕ → ℕ
mod_pow_loop p zero result acc e = result
mod_pow_loop p (suc fuel) result acc e = elim (nat_beq e 0) [
  | true ↦ result
  | false ↦
      mod_pow_loop p fuel (if nat_beq (e % 2) 1 then result * acc % p else result) (acc * acc % p)
        (e / 2)
]

-- No exponent of the program has more than 256 bits.
unfoldable pub mod_pow : ℕ → ℕ → ℕ
unfolding mod_pow_loop
mod_pow base exponent = mod_pow_loop prime 256 1 (base % prime) exponent

unfoldable pub inverse : ℕ → ℕ
unfolding mod_pow
inverse value = mod_pow value (prime - 2)

unfoldable pub is_square : ℕ → Bool
unfolding mod_pow
is_square w = if nat_beq w 0 then true else nat_beq (mod_pow w ((prime - 1) / 2)) 1

-- `mod(value - 1)` for a value that is not negative.
unfoldable pub mod_pred : ℕ → ℕ
mod_pred value = if nat_beq value 0 then prime - 1 else (value - 1) % prime

-- The bytes as a number, the last the most significant.
unfoldable pub little_endian : Bytes → ℕ
little_endian [] = 0
little_endian (b ∷ bs) = b + 256 * little_endian bs

-- The test of a `w` and a sign, which both are computed from the bytes.
unfoldable pub decompresses : ℕ → ℕ → Bool
unfolding is_square
decompresses w sign = if not (is_square w) then false else not (nat_beq w 0 && nat_beq sign 1)

unfoldable pub is_on_curve : Bytes → Bool
unfolding little_endian mod_pred inverse decompresses
is_on_curve bytes =
    let encoded = little_endian bytes in
    let sign = encoded / 2 ^ 255 % 2 in
    let y = encoded % 2 ^ 255 % prime in
    let y_squared = y * y % prime in
    let u = mod_pred y_squared in
    let v = (edwards_d * y_squared + 1) % prime in
    if not (nat_beq (length bytes) 32)
    then false
    else if nat_beq v 0
    then false
    else decompresses (u * inverse v % prime) sign
