-- ===== src/Pdas/Tests.antt =====
-- Runs of the derivations of sdk/src/escrow/pdas.ts, and their theorems at seeds.
use ppv.Base.{
  ◌-◌, ◌%◌, ◌/◌, ◌↔◌, ℕ, ◌≡◌, ◌≤◌, ◌<◌, ◌^◌, ◌⊎◌, refl, true, [], ◌∷◌, ◌++◌, replicate, nat_beq,
  if◌then◌else◌, arith,
}
use ppv.Base.Result.{ok, err}
use ppv.Base.Int.{pos}
use ppv.Base.Text.{Text, Bytes, codes}
use ppv.Base58.{encode_base58, decode_base58, count_front, drop_front, scale_add, encode_digits}
use ppv.Curve.{
  is_on_curve, prime, edwards_d, mod_pow_loop, mod_pow, inverse, is_square, mod_pred, little_endian,
  decompresses,
}
use ppv.Curve.Power.{curve_powers, power}
use ppv.Escrow.Events.Reader.{u64}
use ppv.Pdas.{
  Derived, AgreementAddresses, find_program_address, find_from, create_program_address,
  derive_agreement, derive_vault_authority, derive_vault, derive_agreement_addresses, address_bytes,
  address_of_bytes, off_curve, preimage, concat, is_curve_error, agreement_id_seed, le_bytes,
  id_out_of_range,
}
use ppv.Pdas.Bumps.{OffCurve, find_program_address-OffCurve, find_program_address-greatest}
use ppv.Pdas.Seeds.{OutOfRange, agreement_id_seed-u64, OutOfRange}

-- Stands for the hash: a point of the curve for what begins with 255, and else none.
abbrev hash : Bytes → Bytes
hash [] = 2 ∷ replicate 31 0
hash (b ∷ bs) = if nat_beq b 255 then 88 ∷ replicate 31 102 else 2 ∷ replicate 31 0

abbrev program : Text
program = codes "11111111111111111111111111111111"

abbrev derived : Derived
derived = record { address = codes "8opHzTAnfzRpPEx21XtnrVTX28YQuCpAjcn1PczScKh"; bump = 254 }

finds : find_program_address hash [] program ≡ ok derived
unfolding find_program_address find_from create_program_address address_bytes address_of_bytes
    decode_base58 off_curve preimage concat is_curve_error encode_base58 count_front drop_front
    scale_add encode_digits is_on_curve prime edwards_d mod_pow_loop mod_pow inverse is_square
    mod_pred little_endian decompresses
finds = refl

created_200 :
    create_program_address hash ([] ++ (200 ∷ []) ∷ []) program
    ≡ ok (codes "8opHzTAnfzRpPEx21XtnrVTX28YQuCpAjcn1PczScKh")
unfolding create_program_address address_bytes address_of_bytes decode_base58 off_curve preimage
    concat encode_base58 count_front drop_front scale_add encode_digits is_on_curve prime edwards_d
    mod_pow_loop mod_pow inverse is_square mod_pred little_endian decompresses
created_200 = refl

find_program_address-OffCurve_example : (derived.bump ≤ 255) × OffCurve hash [] program derived
find_program_address-OffCurve_example = find_program_address-OffCurve hash [] program derived finds

find_program_address-greatest_example :
    (derived.bump ≤ 255)
    × (create_program_address hash ([] ++ (derived.bump ∷ []) ∷ []) program ≡ ok derived.address)
    × (200 ≤ derived.bump)
find_program_address-greatest_example =
    find_program_address-greatest hash [] program derived 200
      (codes "8opHzTAnfzRpPEx21XtnrVTX28YQuCpAjcn1PczScKh") finds created_200 (omega arith)

agreement_id_seed-u64_example :
    ((n : ℕ) × (pos 300 ≡ pos n)
      × (n < 2 ^ 64)
      × (seed : Bytes) × (agreement_id_seed (pos 300) ≡ ok seed)
      × (u64 (seed ++ 7 ∷ []) ≡ ok (n, 7 ∷ [])))
    ⊎ (OutOfRange (2 ^ 64) (pos 300) × (agreement_id_seed (pos 300) ≡ err id_out_of_range))
agreement_id_seed-u64_example = agreement_id_seed-u64 (pos 300) (7 ∷ [])

abbrev derived_here : Derived
derived_here = record { address = codes "8opHzTAnfzRpPEx21XtnrVTX28YQuCpAjcn1PczScKh"; bump = 255 }

abbrev addresses : AgreementAddresses
addresses = record {
  agreement = codes "8opHzTAnfzRpPEx21XtnrVTX28YQuCpAjcn1PczScKh";
  agreement_bump = 255;
  vault_authority = codes "8opHzTAnfzRpPEx21XtnrVTX28YQuCpAjcn1PczScKh";
  vault_authority_bump = 255;
  vault = codes "8opHzTAnfzRpPEx21XtnrVTX28YQuCpAjcn1PczScKh";
  vault_bump = 255;
}

derives_all : derive_agreement_addresses hash program program (pos 7) ≡ ok addresses
unfolding derive_agreement_addresses derive_agreement derive_vault_authority derive_vault
    agreement_id_seed le_bytes find_program_address find_from create_program_address address_bytes
    address_of_bytes decode_base58 off_curve preimage concat is_curve_error encode_base58
    count_front drop_front scale_add encode_digits is_on_curve prime edwards_d mod_pow_loop mod_pow
    inverse is_square mod_pred little_endian decompresses
derives_all = refl

curve_powers_example :
    (inverse 5 ≡ power 5 (prime - 2) % prime)
    × ((is_square 4 ≡ true) ↔ ((◌≡◌ {A = ℕ} 4 0) ⊎ (power 4 ((prime - 1) / 2) % prime ≡ 1)))
curve_powers_example = curve_powers 5 4
