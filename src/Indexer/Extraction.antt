-- ===== src/Indexer/Extraction.antt =====
-- indexer/src/events.ts: the events of `ppv_escrow` in a transaction, as indexer/src/rpc.ts gives it.
pub mod Found
pub mod Emitted
use ppv.Base.{
  ℕ, suc, Bool, true, false, ◌&&◌, Option, none, some, List, [], ◌∷◌, ◌++◌, ◌==◌, list_eq,
  option_eq, nat_eq, get_elem?, if◌then◌else◌,
}
use ppv.Base.Result.{Result, ok, err, ◌>>=◌}
use ppv.Base.Int.{ℤ, pos}
use ppv.Base.Text.{Text, Bytes, codes}
use ppv.Base58.{decode_base58}
use ppv.Escrow.States.{RangeError}
use ppv.Escrow.Events.{PpvEscrowEvent}
use ppv.Escrow.Events.Decode.{decode_escrow_event_data}
use ppv.Escrow.Receipts.{EscrowEventEnvelope}
use ppv.Pdas.{PdaError, Derived, find_program_address}

pub record RpcInstruction : Type 0 where
  pub program_id_index : ℕ
  pub accounts : List ℕ
  pub payload : Text

pub record RpcInnerInstructions : Type 0 where
  pub index : ℤ
  pub instructions : List RpcInstruction

pub record LoadedAddresses : Type 0 where
  pub writable : List Text
  pub readonly : List Text

-- `err` is there where the transaction failed, whatever it is.
pub record Meta : Type 0 where
  pub failure : Option Text
  pub inner_instructions : Option (List RpcInnerInstructions)
  pub loaded_addresses : Option LoadedAddresses

pub record RpcTransaction : Type 0 where
  pub slot : ℤ
  pub block_time : Option ℤ
  pub signatures : List Text
  pub account_keys : List Text
  pub about : Option Meta

abbrev pub event_authority_seed : Bytes
event_authority_seed = codes "__event_authority"

-- What reading an event throws: bytes that are no base58, or an event that does not decode.
pub data ExtractError : Type 0 where
  bad_base58 : ExtractError
  bad_event : RangeError → ExtractError

unfoldable pub loaded_keys : Option LoadedAddresses → List Text
loaded_keys none = []
loaded_keys (some l) = l.writable ++ l.readonly

unfoldable pub meta_keys : Option Meta → List Text
unfolding loaded_keys
meta_keys none = []
meta_keys (some m) = loaded_keys m.loaded_addresses

unfoldable pub account_keys_of : RpcTransaction → List Text
unfolding meta_keys
account_keys_of tx = tx.account_keys ++ meta_keys tx.about

unfoldable pub program_of : List Text → RpcInstruction → Option Text
program_of keys instruction = get_elem? keys instruction.program_id_index

-- `keys[instruction.accounts[0] ?? -1]`
unfoldable pub first_account : List Text → List ℕ → Option Text
first_account keys [] = none
first_account keys (a ∷ accounts) = get_elem? keys a

unfoldable pub has_failed : Option Meta → Bool
has_failed none = false
has_failed (some m) = elim m.failure [ none ↦ false | some e ↦ true ]

unfoldable pub inner_groups : Option Meta → List RpcInnerInstructions
inner_groups none = []
inner_groups (some m) = elim m.inner_instructions [ none ↦ [] | some groups ↦ groups ]

-- The first signature, where it is not empty.
unfoldable pub first_signature : List Text → Option Text
first_signature [] = none
first_signature ([] ∷ ss) = none
first_signature ((c ∷ cs) ∷ ss) = some (c ∷ cs)

-- The guards of the loop: the program's own instruction, and the event authority first.
unfoldable pub is_event_call : Text → Text → List Text → RpcInstruction → Bool
is_event_call program_id authority keys i =
    (program_of keys i == some program_id) && (first_account keys i.accounts == some authority)

-- What all envelopes of an extraction share.
pub record Source : Type 0 where
  pub program_id : Text
  pub authority : Text
  pub keys : List Text
  pub signature : Text
  pub slot : ℤ
  pub block_time : Option ℤ

unfoldable pub envelope_at : Source → ℤ → ℕ → PpvEscrowEvent → EscrowEventEnvelope
envelope_at s group n event = record {
  event = event;
  program_id = s.program_id;
  transaction_signature = s.signature;
  slot = s.slot;
  instruction_index = group;
  inner_instruction_index = some (pos n);
  block_time = s.block_time;
}

-- An instruction's event before those that come after it.
unfoldable pub with_event :
    Source → ℤ → ℕ → Option PpvEscrowEvent → List EscrowEventEnvelope → List EscrowEventEnvelope
unfolding envelope_at
with_event s group n none rest = rest
with_event s group n (some event) rest = envelope_at s group n event ∷ rest

module _ (sha256 : Bytes → Bytes) where
  unfoldable pub derive_event_authority : Text → Result PdaError Derived
  derive_event_authority program_id =
      find_program_address sha256 (event_authority_seed ∷ []) program_id

  -- The decoding that an instruction's payload goes through.
  unfoldable pub read_event : Text → Result ExtractError (Option PpvEscrowEvent)
  read_event payload = elim (decode_base58 payload) [
    | err e ↦ err bad_base58
    | ok bytes ↦ elim (decode_escrow_event_data sha256 bytes) [
      | err e ↦ err (bad_event e)
      | ok event ↦ ok event
    ]
  ]

  -- The `forEach` over the instructions of a group, from an index on.
  unfoldable pub extract_group :
      Source → ℤ → ℕ → List RpcInstruction → Result ExtractError (List EscrowEventEnvelope)
  unfolding is_event_call read_event with_event
  extract_group s group n [] = ok []
  extract_group s group n (i ∷ is) = elim (is_event_call s.program_id s.authority s.keys i) [
    | false ↦ extract_group s group (suc n) is
    | true ↦ read_event i.payload >>= λ event.
        extract_group s group (suc n) is >>= λ rest. ok (with_event s group n event rest)
  ]

  unfoldable pub extract_groups :
      Source → List RpcInnerInstructions → Result ExtractError (List EscrowEventEnvelope)
  unfolding extract_group
  extract_groups s [] = ok []
  extract_groups s (g ∷ gs) = do
    events ← extract_group s g.index 0 g.instructions
    rest ← extract_groups s gs
    ok (events ++ rest)

  unfoldable pub extract_signed :
      Text → Text → RpcTransaction → Option Text → Result ExtractError (List EscrowEventEnvelope)
  unfolding extract_groups
  extract_signed program_id authority tx none = ok []
  extract_signed program_id authority tx (some signature) =
      extract_groups
        (record {
          program_id = program_id;
          authority = authority;
          keys = account_keys_of tx;
          signature = signature;
          slot = tx.slot;
          block_time = tx.block_time;
        })
        (inner_groups tx.about)

  -- With the authority given: the one caller in the indexer derives it beforehand.
  unfoldable pub extract_escrow_events :
      Text → Text → RpcTransaction → Result ExtractError (List EscrowEventEnvelope)
  unfolding has_failed extract_signed first_signature
  extract_escrow_events program_id authority tx =
      if has_failed tx.about
      then ok []
      else extract_signed program_id authority tx (first_signature tx.signatures)
