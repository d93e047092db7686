-- ===== src/Pdas.antt =====
-- sdk/src/escrow/pdas.ts: the addresses that the programs derive. SHA-256 is a parameter.
pub mod Bumps
pub mod Seeds
pub mod Preimages
pub mod Origins
pub mod Distinct
mod Tests
use ppv.Base.{
  ℕ, zero, suc, ◌/◌, ◌%◌, ◌^◌, Bool, true, false, not, List, [], ◌∷◌, ◌++◌, any, ltb, leb, nat_beq,
  length, take_front, if◌then◌else◌,
}
use ppv.Base.Result.{Result, ok, err, ◌>>=◌}
use ppv.Base.Int.{ℤ, pos, negsuc}
use ppv.Base.Text.{Text, Bytes, codes}
use ppv.Base58.{Base58Error, decode_base58, encode_base58}
use ppv.Curve.{is_on_curve}

abbrev pub agreement_seed : Bytes
agreement_seed = codes "agreement"

abbrev pub vault_authority_seed : Bytes
vault_authority_seed = codes "vault"

abbrev pub vault_token_seed : Bytes
vault_token_seed = codes "vault_token"

abbrev pub proof_seed : Bytes
proof_seed = codes "proof"

abbrev pub milestone_seed : Bytes
milestone_seed = codes "milestone"

abbrev pub core_proof_seed : Bytes
core_proof_seed = codes "proof"

abbrev pub core_proof_id_domain : Bytes
core_proof_id_domain = codes "ppv:escrow:core-proof:v1"

abbrev pub pda_marker : Bytes
pda_marker = codes "ProgramDerivedAddress"

abbrev pub max_seed_length : ℕ
max_seed_length = 32

abbrev pub max_seeds : ℕ
max_seeds = 16

-- A `PdaError`, by its message, or the `TypeError` of a character that is not base58.
pub data PdaError : Type 0 where
  not_an_address : PdaError
  too_many_seeds : PdaError
  seed_too_long : PdaError
  address_on_curve : PdaError
  no_off_curve_bump : PdaError
  id_out_of_range : PdaError
  index_out_of_range : PdaError
  not_base58 : PdaError

-- `error.message.includes("on the ed25519 curve")`: no other message has these words.
unfoldable pub is_curve_error : PdaError → Bool
is_curve_error address_on_curve = true
is_curve_error not_an_address = false
is_curve_error too_many_seeds = false
is_curve_error seed_too_long = false
is_curve_error no_off_curve_bump = false
is_curve_error id_out_of_range = false
is_curve_error index_out_of_range = false
is_curve_error not_base58 = false

unfoldable pub address_of_bytes : Result Base58Error Bytes → Result PdaError Bytes
address_of_bytes (err e) = err not_base58
address_of_bytes (ok bytes) =
    if not (nat_beq (length bytes) 32) then err not_an_address else ok bytes

unfoldable pub address_bytes : Text → Result PdaError Bytes
unfolding address_of_bytes
address_bytes address = address_of_bytes (decode_base58 address)

unfoldable pub concat : List Bytes → Bytes
concat [] = []
concat (chunk ∷ chunks) = chunk ++ concat chunks

abbrev pub is_too_long : Bytes → Bool
is_too_long seed = ltb max_seed_length (length seed)

pub record Derived : Type 0 where
  pub address : Text
  pub bump : ℕ

-- The bytes of `n` numbers below 256, the least significant first: `setBigUint64(0, value, true)`.
unfoldable pub le_bytes : ℕ → ℕ → Bytes
le_bytes zero value = []
le_bytes (suc n) value = value % 256 ∷ le_bytes n (value / 256)

unfoldable pub agreement_id_seed : ℤ → Result PdaError Bytes
unfolding le_bytes
agreement_id_seed (negsuc n) = err id_out_of_range
agreement_id_seed (pos n) = if leb (2 ^ 64) n then err id_out_of_range else ok (le_bytes 8 n)

unfoldable pub proof_index_seed : ℤ → Result PdaError Bytes
unfolding le_bytes
proof_index_seed (negsuc n) = err index_out_of_range
proof_index_seed (pos n) = if leb (2 ^ 32) n then err index_out_of_range else ok (le_bytes 4 n)

-- What an address hashes, and the check of its hash.
unfoldable pub preimage : List Bytes → Bytes → Bytes
unfolding concat
preimage seeds program = concat (seeds ++ program ∷ pda_marker ∷ [])

unfoldable pub off_curve : Bytes → Result PdaError Text
off_curve bytes = if is_on_curve bytes then err address_on_curve else ok (encode_base58 bytes)

module _ (sha256 : Bytes → Bytes) where
  unfoldable pub create_program_address : List Bytes → Text → Result PdaError Text
  unfolding address_bytes preimage off_curve
  create_program_address seeds program_id =
      if ltb max_seeds (length seeds)
      then err too_many_seeds
      else if any is_too_long seeds
      then err seed_too_long
      else (address_bytes program_id >>= λ program. off_curve (sha256 (preimage seeds program)))

  -- The loop from a bump down to 0.
  unfoldable pub find_from : List Bytes → Text → ℕ → Result PdaError Derived
  find_from seeds program_id zero =
      elim (create_program_address (seeds ++ (0 ∷ []) ∷ []) program_id) [
        | ok address ↦ ok (record { address = address; bump = 0 })
        | err e ↦ elim (is_curve_error e) [ true ↦ err no_off_curve_bump | false ↦ err e ]
      ]
  find_from seeds program_id (suc bump) =
      elim (create_program_address (seeds ++ (suc bump ∷ []) ∷ []) program_id) [
        | ok address ↦ ok (record { address = address; bump = suc bump })
        | err e ↦ elim (is_curve_error e) [ true ↦ find_from seeds program_id bump | false ↦ err e ]
      ]

  unfoldable pub find_program_address : List Bytes → Text → Result PdaError Derived
  unfolding find_from
  find_program_address seeds program_id = find_from seeds program_id 255

  unfoldable pub derive_agreement : Text → Text → ℤ → Result PdaError Derived
  unfolding find_program_address address_bytes agreement_id_seed
  derive_agreement program_id creator agreement_id = do
    creator_bytes ← address_bytes creator
    id ← agreement_id_seed agreement_id
    find_program_address (agreement_seed ∷ creator_bytes ∷ id ∷ []) program_id

  unfoldable pub derive_vault_authority : Text → Text → Result PdaError Derived
  unfolding find_program_address address_bytes
  derive_vault_authority program_id agreement = do
    bytes ← address_bytes agreement
    find_program_address (vault_authority_seed ∷ bytes ∷ []) program_id

  unfoldable pub derive_vault : Text → Text → Result PdaError Derived
  unfolding find_program_address address_bytes
  derive_vault program_id agreement = do
    bytes ← address_bytes agreement
    find_program_address (vault_token_seed ∷ bytes ∷ []) program_id

  unfoldable pub derive_proof : Text → Text → ℤ → Result PdaError Derived
  unfolding find_program_address address_bytes proof_index_seed
  derive_proof program_id agreement proof_index = do
    bytes ← address_bytes agreement
    index ← proof_index_seed proof_index
    find_program_address (proof_seed ∷ bytes ∷ index ∷ []) program_id

  unfoldable pub core_proof_id : Text → ℤ → Result PdaError Bytes
  unfolding address_bytes proof_index_seed
  core_proof_id agreement proof_index = do
    bytes ← address_bytes agreement
    index ← proof_index_seed proof_index
    ok (take_front 16 (sha256 (core_proof_id_domain ++ (bytes ++ index))))

  unfoldable pub derive_core_proof : Text → Text → Text → ℤ → Result PdaError Derived
  unfolding find_program_address address_bytes core_proof_id
  derive_core_proof core_program_id submitter agreement proof_index = do
    bytes ← address_bytes submitter
    id ← core_proof_id agreement proof_index
    find_program_address (core_proof_seed ∷ bytes ∷ id ∷ []) core_program_id

  unfoldable pub derive_milestone : Text → Text → ℤ → Result PdaError Derived
  unfolding find_program_address address_bytes proof_index_seed
  derive_milestone program_id agreement milestone_index = do
    bytes ← address_bytes agreement
    index ← proof_index_seed milestone_index
    find_program_address (milestone_seed ∷ bytes ∷ index ∷ []) program_id

pub record AgreementAddresses : Type 0 where
  pub agreement : Text
  pub agreement_bump : ℕ
  pub vault_authority : Text
  pub vault_authority_bump : ℕ
  pub vault : Text
  pub vault_bump : ℕ

unfoldable pub derive_agreement_addresses :
    (Bytes → Bytes) → Text → Text → ℤ → Result PdaError AgreementAddresses
unfolding derive_agreement derive_vault_authority derive_vault
derive_agreement_addresses sha256 program_id creator agreement_id = do
  agreement ← derive_agreement sha256 program_id creator agreement_id
  authority ← derive_vault_authority sha256 program_id agreement.address
  vault ← derive_vault sha256 program_id agreement.address
  ok (record {
    agreement = agreement.address;
    agreement_bump = agreement.bump;
    vault_authority = authority.address;
    vault_authority_bump = authority.bump;
    vault = vault.address;
    vault_bump = vault.bump;
  })
