-- ===== src/Base58.antt =====
-- sdk/src/reputation/base58.ts: the Bitcoin-alphabet base58 codec.
pub mod Value
pub mod Conversion
pub mod Fronts
pub mod Characters
pub mod RoundTrip
mod Tests
use ppv.Base.{
  ℕ, zero, suc, ◌+◌, ◌*◌, ◌/◌, ◌%◌, ◌≡◌, refl, Option, none, some, List, [], ◌∷◌, ◌++◌, map,
  nat_beq, replicate, if◌then◌else◌,
}
use ppv.Base.Result.{Result, ok, err}
use ppv.Base.Text.{Text, Bytes, codes}
use mathlib.Core.List.{reverse}

abbrev pub alphabet : Text
alphabet = codes "123456789ABCDEFGHJKLMNPQRSTUVWXYZabcdefghijkmnopqrstuvwxyz"

-- `ALPHABET[d]`; every digit is below 58, where there is a character.
abbrev pub char_at : Text → ℕ → ℕ
char_at [] d = 0
char_at (c ∷ cs) zero = c
char_at (c ∷ cs) (suc d) = char_at cs d

-- `ALPHABET_MAP.get(c)`.
abbrev pub index_of : ℕ → Text → ℕ → Option ℕ
index_of c [] i = none
index_of c (x ∷ xs) i = let rest = index_of c xs (suc i) in if nat_beq x c then some i else rest

-- How often the value `z` stands at the front, and what follows.
unfoldable pub count_front : ℕ → List ℕ → ℕ
count_front z [] = 0
count_front z (x ∷ xs) = let rest = count_front z xs in if nat_beq x z then suc rest else 0

unfoldable pub drop_front : ℕ → List ℕ → List ℕ
drop_front z [] = []
drop_front z (x ∷ xs) = let rest = drop_front z xs in if nat_beq x z then rest else x ∷ xs

-- `while (carry > 0) { digits.push(carry % base); carry = carry / base; }`. The carry is a bound on
-- the rounds, since it falls in each.
push_carry : ℕ → ℕ → ℕ → List ℕ
push_carry base zero carry = []
push_carry base (suc fuel) carry =
    let rest = push_carry base fuel (carry / base) in
    if nat_beq carry 0 then [] else carry % base ∷ rest

-- One round of the outer loop: the digits, least significant first, times `factor` plus `carry`.
unfoldable pub scale_add : ℕ → ℕ → ℕ → List ℕ → List ℕ
unfolding push_carry
scale_add factor base carry [] = push_carry base carry carry
scale_add factor base carry (d ∷ ds) =
    let total = carry + d * factor in total % base ∷ scale_add factor base (total / base) ds

unfoldable pub encode_digits : List ℕ → Bytes → List ℕ
encode_digits digits [] = digits
encode_digits digits (b ∷ bs) = encode_digits (scale_add 256 58 b digits) bs

unfoldable pub encode_base58 : Bytes → Text
unfolding count_front drop_front scale_add encode_digits
encode_base58 bytes =
    replicate (count_front 0 bytes) 49
    ++ map (char_at alphabet) (reverse (encode_digits [] (drop_front 0 bytes)))

pub data Base58Error : Type 0 where
  invalid_base58_character : Base58Error

unfoldable pub decode_digits : List ℕ → Text → Result Base58Error (List ℕ)
decode_digits bytes [] = ok bytes
decode_digits bytes (c ∷ cs) = elim (index_of c alphabet 0) [
  | none ↦ err invalid_base58_character
  | some value ↦ decode_digits (scale_add 58 256 value bytes) cs
]

prepend_zeros : ℕ → Result Base58Error (List ℕ) → Result Base58Error Bytes
prepend_zeros n (ok bytes) = ok (replicate n 0 ++ reverse bytes)
prepend_zeros n (err e) = err e

unfoldable pub decode_base58 : Text → Result Base58Error Bytes
unfolding count_front drop_front scale_add decode_digits prepend_zeros
decode_base58 text = prepend_zeros (count_front 49 text) (decode_digits [] (drop_front 49 text))

system_program : encode_base58 (replicate 32 0) ≡ codes "11111111111111111111111111111111"
unfolding encode_base58
system_program = refl

hello : encode_base58 (codes "Hello World!") ≡ codes "2NEpo7TZRRrLZSi2U"
unfolding encode_base58
hello = refl

hello_back : decode_base58 (codes "2NEpo7TZRRrLZSi2U") ≡ ok (codes "Hello World!")
unfolding decode_base58
hello_back = refl
