-- ===== src/Rpc/Deployed/Tests.antt =====
-- A program whose three bytes of code are followed by two of padding, read against its release and
-- against a shorter and a longer one.
use ppv.Base.{
  ◌≡◌, refl, Bool, true, Option, none, some, [], ◌∷◌, ◌++◌, ◌==◌, list_eq, replicate, if◌then◌else◌,
}
use ppv.Base.Result.{Result, ok, err}
use ppv.Base.Text.{Text, Bytes, codes}
use ppv.Rpc.Deployed.{
  AccountInfo, DeployedProgram, upgradeable_loader_id, read_deployed_program, shorter_than_release,
  no_padding,
}
use ppv.Rpc.Deployed.Release.{Deployed, read_deployed_program-Deployed}

abbrev program_bytes : Bytes
program_bytes = 2 ∷ 0 ∷ 0 ∷ 0 ∷ replicate 32 0

abbrev code_bytes : Bytes
code_bytes = 3 ∷ 0 ∷ 0 ∷ 0 ∷ 5 ∷ (replicate 40 0 ++ 9 ∷ 8 ∷ 7 ∷ 0 ∷ 0 ∷ [])

abbrev base64 : Text → Bytes
base64 t = if t == codes "program" then program_bytes else code_bytes

abbrev zeros : Bytes → Bytes
zeros t = replicate 32 0

abbrev account_of : Text → AccountInfo
account_of payload = record { executable = true; owner = upgradeable_loader_id; payload = payload }

abbrev accounts : Text → Result Bool (Option AccountInfo)
accounts address =
    ok (some (account_of (if address == codes "ppv" then codes "program" else codes "code")))

abbrev found : DeployedProgram
found = record {
  program_id = codes "ppv";
  executable = true;
  owner = upgradeable_loader_id;
  program_data_address = some (replicate 32 49);
  program_data_owner = some upgradeable_loader_id;
  last_deploy_slot = some 5;
  upgrade_authority = none;
  program_data_length = some 50;
  deployed_binary = some (9 ∷ 8 ∷ 7 ∷ []);
  padding_length = some 2;
  deployed_binary_hash = some (replicate 64 48);
}

is_found : read_deployed_program zeros base64 accounts (some 3) (codes "ppv") ≡ ok (some found)
unfolding ppv.Rpc.Deployed.read_deployed_program ppv.Escrow.Events.Reader.le_value
    ppv.Base58.encode_base58 ppv.Base.Text.hex
is_found = refl

is_shorter :
    read_deployed_program zeros base64 accounts (some 6) (codes "ppv")
    ≡ err (shorter_than_release 5 6)
unfolding ppv.Rpc.Deployed.read_deployed_program ppv.Escrow.Events.Reader.le_value
    ppv.Base58.encode_base58
is_shorter = refl

is_longer :
    read_deployed_program zeros base64 accounts (some 2) (codes "ppv") ≡ err (no_padding 5 2)
unfolding ppv.Rpc.Deployed.read_deployed_program ppv.Escrow.Events.Reader.le_value
    ppv.Base58.encode_base58
is_longer = refl

read_deployed_program-Deployed_example :
    Deployed zeros base64 accounts 3 (codes "ppv") found (9 ∷ 8 ∷ 7 ∷ [])
read_deployed_program-Deployed_example =
    read_deployed_program-Deployed zeros base64 accounts 3 (codes "ppv") found (9 ∷ 8 ∷ 7 ∷ [])
      is_found refl
