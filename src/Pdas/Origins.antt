-- ===== src/Pdas/Origins.antt =====
-- sdk/src/escrow/pdas.ts `deriveAgreementAddresses` and the derivations of proofs and milestones: the
-- keys and numbers that their addresses come from.
use ppv.Base.{
  ℕ, ◌^◌, ◌<◌, ◌≡◌, refl, inl, inr, arith, Bool, not, [], ◌∷◌, leb, nat_beq, length, Bool-cases,
  if◌then◌else◌, subst,
}
use ppv.Base.Result.{Result, ok, err, >>=-eq-ok}
use ppv.Base.Int.{ℤ, pos, negsuc}
use ppv.Base.Text.{Text, Bytes}
use ppv.Base58.{Base58Error, decode_base58}
use ppv.Pdas.{
  not_an_address, Derived, AgreementAddresses, agreement_seed, proof_seed, milestone_seed, le_bytes,
  address_bytes, address_of_bytes, agreement_id_seed, proof_index_seed, find_program_address,
  derive_agreement, derive_vault_authority, derive_vault, derive_proof, derive_milestone,
  derive_agreement_addresses,
}
use ppv.Pdas.Preimages.{
  Origin, agreement, vault_authority, vault, proof, milestone, seeds_of, IsOrigin,
}

pub length-address_bytes :
    (a : Text) (bytes : Bytes) → address_bytes a ≡ ok bytes → length bytes ≡ 32
unfolding address_bytes address_of_bytes
length-address_bytes a bytes h = decoded (decode_base58 a) h
  where
    sized :
        (b : Bytes) (fits : Bool)
        → nat_beq (length b) 32 ≡ fits
        → (if not fits then err not_an_address else ok b) ≡ ok bytes
        → length bytes ≡ 32
    sized b fits e k = ground arith

    decoded : (r : Result Base58Error Bytes) → address_of_bytes r ≡ ok bytes → length bytes ≡ 32
    decoded (err e) k = absurd (cc)
    decoded (ok b) k = sized b (nat_beq (length b) 32) refl k

-- A derived address, and what it comes from.
pub record Derives (sha256 : Bytes → Bytes) (program_id : Text) (o : Origin) (d : Derived)
    : Type 0 where
  pub is_origin : IsOrigin o
  pub found : find_program_address sha256 (seeds_of o) program_id ≡ ok d

agreement_id_seed-bytes :
    (id : ℤ) (seed : Bytes)
    → agreement_id_seed id ≡ ok seed
    → (n : ℕ) × (id ≡ pos n) × (n < 2 ^ 64) × (seed ≡ le_bytes 8 n)
unfolding agreement_id_seed
agreement_id_seed-bytes (negsuc n) seed h = absurd (cc)
agreement_id_seed-bytes (pos n) seed h = elim (Bool-cases (leb (2 ^ 64) n)) [
  | inl e ↦ absurd (let k = rw e at h in cc)
  | inr e ↦ let k = rw e at h in (n, refl, ground arith, cc)
]

proof_index_seed-bytes :
    (index : ℤ) (seed : Bytes)
    → proof_index_seed index ≡ ok seed
    → (n : ℕ) × (index ≡ pos n) × (n < 2 ^ 32) × (seed ≡ le_bytes 4 n)
unfolding proof_index_seed
proof_index_seed-bytes (negsuc n) seed h = absurd (cc)
proof_index_seed-bytes (pos n) seed h = elim (Bool-cases (leb (2 ^ 32) n)) [
  | inl e ↦ absurd (let k = rw e at h in cc)
  | inr e ↦ let k = rw e at h in (n, refl, ground arith, cc)
]

module _ (sha256 : Bytes → Bytes) (program_id : Text) where
  pub derive_agreement-Derives :
      (creator : Text) (id : ℤ) (d : Derived)
      → derive_agreement sha256 program_id creator id ≡ ok d
      → (key : Bytes) × (n : ℕ) × (address_bytes creator ≡ ok key)
        × (id ≡ pos n)
        × Derives sha256 program_id (agreement key n) d
  unfolding derive_agreement
  derive_agreement-Derives creator id d h =
      let (key, a, k) = >>=-eq-ok (address_bytes creator) _ h in
      let (seed, s, f) = >>=-eq-ok (agreement_id_seed id) _ k in
      let (n, is, below, bytes) = agreement_id_seed-bytes id seed s in
      (
        key,
        n,
        a,
        is,
        record {
          is_origin = (length-address_bytes creator key a, below);
          found =
              subst
                (λ b. find_program_address sha256 (agreement_seed ∷ key ∷ b ∷ []) program_id ≡ ok d)
                bytes f;
        },
      )

  pub derive_vault_authority-Derives :
      (address : Text) (d : Derived)
      → derive_vault_authority sha256 program_id address ≡ ok d
      → (key : Bytes) × (address_bytes address ≡ ok key)
        × Derives sha256 program_id (vault_authority key) d
  unfolding derive_vault_authority
  derive_vault_authority-Derives address d h =
      let (key, a, f) = >>=-eq-ok (address_bytes address) _ h in
      (key, a, record { is_origin = length-address_bytes address key a; found = f })

  pub derive_vault-Derives :
      (address : Text) (d : Derived)
      → derive_vault sha256 program_id address ≡ ok d
      → (key : Bytes) × (address_bytes address ≡ ok key) × Derives sha256 program_id (vault key) d
  unfolding derive_vault
  derive_vault-Derives address d h =
      let (key, a, f) = >>=-eq-ok (address_bytes address) _ h in
      (key, a, record { is_origin = length-address_bytes address key a; found = f })

  -- An address of a proof comes from the agreement's 32 bytes and the index, which is a u32.
  pub derive_proof-Derives :
      (address : Text) (index : ℤ) (d : Derived)
      → derive_proof sha256 program_id address index ≡ ok d
      → (key : Bytes) × (n : ℕ) × (address_bytes address ≡ ok key)
        × (index ≡ pos n)
        × Derives sha256 program_id (proof key n) d
  unfolding derive_proof
  derive_proof-Derives address index d h =
      let (key, a, k) = >>=-eq-ok (address_bytes address) _ h in
      let (seed, s, f) = >>=-eq-ok (proof_index_seed index) _ k in
      let (n, is, below, bytes) = proof_index_seed-bytes index seed s in
      (
        key,
        n,
        a,
        is,
        record {
          is_origin = (length-address_bytes address key a, below);
          found =
              subst (λ b. find_program_address sha256 (proof_seed ∷ key ∷ b ∷ []) program_id ≡ ok d)
                bytes f;
        },
      )

  pub derive_milestone-Derives :
      (address : Text) (index : ℤ) (d : Derived)
      → derive_milestone sha256 program_id address index ≡ ok d
      → (key : Bytes) × (n : ℕ) × (address_bytes address ≡ ok key)
        × (index ≡ pos n)
        × Derives sha256 program_id (milestone key n) d
  unfolding derive_milestone
  derive_milestone-Derives address index d h =
      let (key, a, k) = >>=-eq-ok (address_bytes address) _ h in
      let (seed, s, f) = >>=-eq-ok (proof_index_seed index) _ k in
      let (n, is, below, bytes) = proof_index_seed-bytes index seed s in
      (
        key,
        n,
        a,
        is,
        record {
          is_origin = (length-address_bytes address key a, below);
          found =
              subst
                (λ b. find_program_address sha256 (milestone_seed ∷ key ∷ b ∷ []) program_id ≡ ok d)
                bytes f;
        },
      )

  -- Where the addresses of an agreement come from: the agreement's from the creator's key and the
  -- number, the other two from the bytes of the agreement's address.
  pub record AddressOrigins (creator : Text) (id : ℤ) (a : AgreementAddresses) : Type 0 where
    pub creator_key : Bytes
    pub number : ℕ
    pub agreement_key : Bytes
    pub is_creator : address_bytes creator ≡ ok creator_key
    pub is_number : id ≡ pos number
    pub is_agreement : address_bytes a.agreement ≡ ok agreement_key
    pub agreement_derives :
        Derives sha256 program_id
          (agreement creator_key number)
          (record { address = a.agreement; bump = a.agreement_bump })
    pub authority_derives :
        Derives sha256 program_id
          (vault_authority agreement_key)
          (record { address = a.vault_authority; bump = a.vault_authority_bump })
    pub vault_derives :
        Derives sha256 program_id
          (vault agreement_key)
          (record { address = a.vault; bump = a.vault_bump })

  -- The addresses that `deriveAgreementAddresses` returns are the program's addresses for the
  -- creator's 32 bytes with the number, which is a u64, and for the 32 bytes of the agreement's own
  -- address.
  pub derive_agreement_addresses-AddressOrigins :
      (creator : Text) (id : ℤ) (a : AgreementAddresses)
      → derive_agreement_addresses sha256 program_id creator id ≡ ok a
      → AddressOrigins creator id a
  unfolding derive_agreement_addresses
  derive_agreement_addresses-AddressOrigins creator id a h =
      let (x, is_x, h1) = >>=-eq-ok (derive_agreement sha256 program_id creator id) _ h in
      let (y, is_y, h2) = >>=-eq-ok (derive_vault_authority sha256 program_id x.address) _ h1 in
      let (z, is_z, h3) = >>=-eq-ok (derive_vault sha256 program_id x.address) _ h2 in
      let (key, n, is_key, is_n, dx) = derive_agreement-Derives creator id x is_x in
      let (own, is_own, dy) = derive_vault_authority-Derives x.address y is_y in
      let (own', is_own', dz) = derive_vault-Derives x.address z is_z in
      let same : own' ≡ own = cc in
      let e : record {
        agreement = x.address;
        agreement_bump = x.bump;
        vault_authority = y.address;
        vault_authority_bump = y.bump;
        vault = z.address;
        vault_bump = z.bump;
      }
          ≡ a =
        cc in
      subst (AddressOrigins creator id) e (record {
        creator_key = key;
        number = n;
        agreement_key = own;
        is_creator = is_key;
        is_number = is_n;
        is_agreement = is_own;
        agreement_derives = dx;
        authority_derives = dy;
        vault_derives = subst (λ k. Derives sha256 program_id (vault k) z) same dz;
      })
