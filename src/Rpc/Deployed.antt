-- ===== src/Rpc/Deployed.antt =====
-- scripts/lib/rpc.mjs `readDeployedProgram`: the state of an upgradeable program as the chain holds
-- it. The client's `accountInfo`, base64 and SHA-256 are parameters.
pub mod Layout
pub mod Release
mod Tests
use ppv.Base.{
  ℕ, Bool, not, Option, none, some, List, ◌==◌, list_eq, nat_beq, ltb, length, take_front, drop,
  any, if◌then◌else◌,
}
use ppv.Base.Result.{Result, ok, err, ◌>>=◌}
use ppv.Base.Text.{Text, Bytes, codes, hex}
use ppv.Base58.{encode_base58}
use ppv.Escrow.Events.Reader.{le_value}

abbrev pub upgradeable_loader_id : Text
upgradeable_loader_id = codes "BPFLoaderUpgradeab1e11111111111111111111111"

-- What is read of an account; `payload` is `data[0]`.
pub record AccountInfo : Type 0 where
  pub executable : Bool
  pub owner : Text
  pub payload : Text

pub data DeployedError {ℓ} (E : Type ℓ) : Type ℓ where
  client_failed : E → DeployedError E
  program_data_too_short : DeployedError E
  not_program_data : ℕ → DeployedError E
  bad_option_tag : DeployedError E
  program_too_short : DeployedError E
  not_a_program : ℕ → DeployedError E
  shorter_than_release : ℕ → ℕ → DeployedError E
  no_padding : ℕ → ℕ → DeployedError E

abbrev pub programdata_header_len : ℕ
programdata_header_len = 45

pub record DeployedProgram : Type 0 where
  pub program_id : Text
  pub executable : Bool
  pub owner : Text
  pub program_data_address : Option Text
  pub program_data_owner : Option Text
  pub last_deploy_slot : Option ℕ
  pub upgrade_authority : Option Text
  pub program_data_length : Option ℕ
  pub deployed_binary : Option Bytes
  pub padding_length : Option ℕ
  pub deployed_binary_hash : Option Text

-- The object of a program that exists, as it begins.
unfoldable pub undeployed : Text → AccountInfo → DeployedProgram
undeployed program_id program = record {
  program_id = program_id;
  executable = program.executable;
  owner = program.owner;
  program_data_address = none;
  program_data_owner = none;
  last_deploy_slot = none;
  upgrade_authority = none;
  program_data_length = none;
  deployed_binary = none;
  padding_length = none;
  deployed_binary_hash = none;
}

-- `subarray(start, end)`, `readUInt32LE(start)` and the others, where the bytes reach so far.
abbrev pub slice : ℕ → ℕ → Bytes → Bytes
slice start count bytes = take_front count (drop start bytes)

module _ {E : Type 0} where
  unfoldable pub authority_of : ℕ → Bytes → Result (DeployedError E) (ℕ × Option Bytes)
  authority_of slot bytes =
      let tag = le_value (slice 12 1 bytes) in
      if nat_beq tag 0
      then ok (slot, none)
      else if not (nat_beq tag 1)
      then err bad_option_tag
      else ok (slot, some (slice 13 32 bytes))

  unfoldable pub decode_program_data_authority : Bytes → Result (DeployedError E) (ℕ × Option Bytes)
  unfolding authority_of
  decode_program_data_authority bytes =
      let tag = le_value (slice 0 4 bytes) in
      if ltb (length bytes) 45
      then err program_data_too_short
      else if not (nat_beq tag 3)
      then err (not_program_data tag)
      else authority_of (le_value (slice 4 8 bytes)) bytes

  unfoldable pub decode_program_data_address : Bytes → Result (DeployedError E) Bytes
  decode_program_data_address bytes =
      let tag = le_value (slice 0 4 bytes) in
      if ltb (length bytes) 36
      then err program_too_short
      else if not (nat_beq tag 2)
      then err (not_a_program tag)
      else ok (slice 4 32 bytes)

  -- The program's code, and how much padding is behind it where the length is known.
  unfoldable pub code_of : Option ℕ → Bytes → Result (DeployedError E) (Bytes × Option ℕ)
  code_of none elf = ok (elf, none)
  code_of (some n) elf =
      let padding = drop n elf in
      if ltb (length elf) n
      then err (shorter_than_release (length elf) n)
      else if any (λ byte. not (nat_beq byte 0)) padding
      then err (no_padding (length elf) n)
      else ok (take_front n elf, some (length padding))

abbrev pub map_failure : {E A : Type 0} → Result E A → Result (DeployedError E) A
map_failure (ok a) = ok a
map_failure (err e) = err (client_failed e)

unfoldable pub base58_of : Option Bytes → Option Text
base58_of none = none
base58_of (some bytes) = some (encode_base58 bytes)

module _ {E : Type 0} (sha256 base64 : List ℕ → Bytes)
    (account_info : Text → Result E (Option AccountInfo)) where
  unfoldable pub read_program_data :
      Option ℕ → DeployedProgram → AccountInfo → Result (DeployedError E) DeployedProgram
  unfolding decode_program_data_authority code_of base58_of
  read_program_data binary_length state data_account =
      let bytes = base64 data_account.payload in
      decode_program_data_authority bytes >>= λ decoded.
      code_of binary_length (drop programdata_header_len bytes) >>= λ code. ok (record state {
        program_data_owner = some data_account.owner;
        last_deploy_slot = some decoded.0;
        upgrade_authority = base58_of decoded.1;
        program_data_length = some (length bytes);
        deployed_binary = some code.0;
        padding_length = code.1;
        deployed_binary_hash = some (hex (sha256 code.0));
      })

  unfoldable pub read_linked :
      Option ℕ → DeployedProgram → Option AccountInfo → Result (DeployedError E) DeployedProgram
  unfolding read_program_data
  read_linked binary_length state none = ok state
  read_linked binary_length state (some data_account) =
      read_program_data binary_length state data_account

  unfoldable pub read_program :
      Option ℕ → DeployedProgram → AccountInfo → Result (DeployedError E) DeployedProgram
  unfolding decode_program_data_address read_linked
  read_program binary_length state program =
      if not (program.owner == upgradeable_loader_id)
      then ok state
      else (decode_program_data_address (base64 program.payload) >>= λ key.
          map_failure (account_info (encode_base58 key)) >>= λ found.
          read_linked binary_length
            (record state { program_data_address = some (encode_base58 key) }) found)

  -- None where there is no account of the program.
  unfoldable pub read_deployed_program :
      Option ℕ → Text → Result (DeployedError E) (Option DeployedProgram)
  unfolding undeployed read_program
  read_deployed_program binary_length program_id =
      map_failure (account_info program_id) >>= λ found. elim found [
        | none ↦ ok none
        | some program ↦
            read_program binary_length (undeployed program_id program) program >>= λ state.
            ok (some state)
      ]
