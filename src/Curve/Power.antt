-- ===== src/Curve/Power.antt =====
-- sdk/src/escrow/curve.ts `modPow` against powers that are multiplied out.
use ppv.Base.{
  ℕ, zero, suc, ◌+◌, ◌-◌, ◌*◌, ◌/◌, ◌%◌, ◌^◌, ◌<◌, ◌≡◌, refl, sym, ap, ◌∙◌, ◌⊎◌, ◌↔◌, arith, inl,
  inr, Bool, true, false, nat_beq, Bool-cases, if◌then◌else◌,
}
use native.Mathlib.Nat.{pow-suc, pow-zero, add-mul-mod_self_left, div-add-mod, mod-mod}
use ppv.Curve.{inverse, is_square, prime, mod_pow_loop, mod_pow}

-- `base` to the `n`.
abbrev pub power : ℕ → ℕ → ℕ
power base zero = 1
power base (suc n) = base * power base n

mul-mod_left : (x y p : ℕ) → x % p * y % p ≡ x * y % p
mul-mod_left x y p =
    let e : x * y ≡ x % p * y + p * (x / p * y) =
      ap (λ (t : ℕ). t * y) (sym (div-add-mod x p)) ∙ omega arith in
    sym (ap (λ (t : ℕ). t % p) e ∙ add-mul-mod_self_left (x % p * y) p (x / p * y))

power-mod : (r a n p : ℕ) → r * power (a % p) n % p ≡ r * power a n % p
power-mod r a zero p = refl
power-mod r a (suc n) p =
    let e : r * (a % p * power (a % p) n) ≡ (a % p) * r * power (a % p) n = omega arith in
    let f : (a % p) * r * power a n ≡ a % p * (r * power a n) = omega arith in
    let g : a * (r * power a n) ≡ r * (a * power a n) = omega arith in
    ap (λ (t : ℕ). t % p) e
    ∙ (power-mod (a % p * r) a n p
        ∙ (ap (λ (t : ℕ). t % p) f ∙ (mul-mod_left a (r * power a n) p ∙ ap (λ (t : ℕ). t % p) g)))

power_square : (a n : ℕ) → power (a * a) n ≡ power a (2 * n)
power_square a zero = refl
power_square a (suc n) =
    let e : 2 * suc n ≡ suc (suc (2 * n)) = omega arith in
    rw e (ap (λ (t : ℕ). a * a * t) (power_square a n) ∙ omega arith)

-- One round of the loop: the bit of the exponent is multiplied into the result.
round :
    (r a e p : ℕ)
    → (if nat_beq (e % 2) 1 then r * a % p else r) * power (a * a % p) (e / 2) % p
      ≡ r * power a e % p
round r a e p = elim (Bool-cases (nat_beq (e % 2) 1)) [
  | inl odd ↦
      let x : e ≡ suc (2 * (e / 2)) = ground arith in
      let y : r * a * power a (2 * (e / 2)) ≡ r * (a * power a (2 * (e / 2))) = omega arith in
      rw odd (
        power-mod (r * a % p) (a * a) (e / 2) p
        ∙ (mul-mod_left (r * a) (power (a * a) (e / 2)) p
            ∙ (ap (λ (t : ℕ). r * a * t % p) (power_square a (e / 2))
                ∙ (ap (λ (t : ℕ). t % p) y ∙ ap (λ (t : ℕ). r * power a t % p) (sym x)))))
  | inr even ↦
      let x : e ≡ 2 * (e / 2) = ground arith in
      rw even (
        power-mod r (a * a) (e / 2) p
        ∙ (ap (λ (t : ℕ). r * t % p) (power_square a (e / 2))
            ∙ ap (λ (t : ℕ). r * power a t % p) (sym x)))
]

mod_pow_loop-power :
    (p fuel r a e : ℕ) → e < 2 ^ fuel → r % p ≡ r → mod_pow_loop p fuel r a e ≡ r * power a e % p
unfolding mod_pow_loop
mod_pow_loop-power p zero r a e h k =
    let z : e ≡ 0 = omega (arith, pow-zero 2) in rw z (sym k ∙ ap (λ (t : ℕ). t % p) (omega arith))
mod_pow_loop-power p (suc fuel) r a e h k = elim (Bool-cases (nat_beq e 0)) [
  | inl z ↦
      rw (z, mod_pow_loop)
        (let y : e ≡ 0 = ground arith in rw y (sym k ∙ ap (λ (t : ℕ). t % p) (omega arith)))
  | inr z ↦
      rw (z, mod_pow_loop)
        (mod_pow_loop-power p fuel (if nat_beq (e % 2) 1 then r * a % p else r) (a * a % p) (e / 2)
            (omega (arith, pow-suc 2 fuel)) (reduced (nat_beq (e % 2) 1))
          ∙ round r a e p)
]
  where
    reduced : (b : Bool) → (if b then r * a % p else r) % p ≡ (if b then r * a % p else r)
    reduced true = mod-mod (r * a) p
    reduced false = k

one_mod : 1 % prime ≡ 1
unfolding prime
one_mod = refl

pub mod_pow-power :
    (base exponent : ℕ) → exponent < 2 ^ 256 → mod_pow base exponent ≡ power base exponent % prime
unfolding mod_pow
mod_pow-power base exponent h =
    mod_pow_loop-power prime 256 1 (base % prime) exponent h one_mod
    ∙ (power-mod 1 base exponent prime ∙ ap (λ (t : ℕ). t % prime) (omega arith))

inverse_bits : prime - 2 < 2 ^ 256
unfolding prime
inverse_bits = omega arith

square_bits : (prime - 1) / 2 < 2 ^ 256
unfolding prime
square_bits = omega arith

-- `inverse` is the power of Fermat's little theorem, and `isSquare` holds exactly of 0 and of what
-- meets Euler's criterion.
pub curve_powers :
    (value w : ℕ)
    → (inverse value ≡ power value (prime - 2) % prime)
      × ((is_square w ≡ true) ↔ ((w ≡ 0) ⊎ (power w ((prime - 1) / 2) % prime ≡ 1)))
unfolding inverse is_square
curve_powers value w = (
  mod_pow-power value (prime - 2) inverse_bits,
  criterion (mod_pow w ((prime - 1) / 2)) (power w ((prime - 1) / 2) % prime)
      (mod_pow-power w ((prime - 1) / 2) square_bits),
)
  where
    criterion :
        (computed q : ℕ)
        → computed ≡ q
        → ((if nat_beq w 0 then true else nat_beq computed 1) ≡ true) ↔ ((w ≡ 0) ⊎ (q ≡ 1))
    criterion computed q e = ground arith
