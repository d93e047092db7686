-- ===== src/Escrow/Events/Reader.antt =====
-- sdk/src/escrow/reader.ts: the little-endian borsh reader. A reader's state is the bytes that it
-- has not yet read, `bytes.subarray(offset)`.
use ppv.Base.{
  any, not, take_front, drop, ◌==◌, list_eq, nat_eq, ℕ, zero, suc, ◌+◌, ◌-◌, ◌*◌, ◌^◌, Bool, Option,
  none, some, [], ◌∷◌, ltb, nat_beq, if◌then◌else◌,
}
use ppv.Base.Result.{Result, ok, err}
use ppv.Base.Int.{ℤ, pos, negsuc}
use ppv.Base.Text.{Text, Bytes, hex}
use ppv.Base58.{encode_base58}
use ppv.Escrow.States.{
  AgreementState, AgreementType, MilestoneState, ProofStatus, DisputeOutcome, RangeError, truncated,
  invalid_option_tag, unsafe_integer, trailing_bytes, wrong_discriminator,
  agreement_state_from_index, agreement_type_from_index, milestone_state_from_index,
  proof_status_from_index, dispute_outcome_from_index,
}

abbrev pub Reader : Type 0 → Type 0
Reader A = Bytes → Result RangeError (A × Bytes)

infixl 5 ◌>>=◌ ◌>>◌
abbrev pub ◌>>=◌ : {A B : Type 0} → Reader A → (A → Reader B) → Reader B
◌>>=◌ m f bs = elim (m bs) [ ok (a, rest) ↦ f a rest | err e ↦ err e ]

abbrev pub ◌>>◌ : {A B : Type 0} → Reader A → Reader B → Reader B
m >> k = m >>= λ _. k

abbrev pub pure : {A : Type 0} → A → Reader A
pure a bs = ok (a, bs)

abbrev pub lift : {A : Type 0} → Result RangeError A → Reader A
lift (ok a) bs = ok (a, bs)
lift (err e) bs = err e

unfoldable pub take : ℕ → Reader Bytes
take zero bs = ok ([], bs)
take (suc n) [] = err truncated
take (suc n) (b ∷ bs) = elim (take n bs) [ ok (slice, rest) ↦ ok (b ∷ slice, rest) | err e ↦ err e ]

-- `DataView.getUint…(0, true)`: little-endian.
unfoldable pub le_value : Bytes → ℕ
le_value [] = 0
le_value (b ∷ bs) = b + 256 * le_value bs

unfoldable pub pubkey : Reader Text
unfolding take
pubkey = do key ← take 32; pure (encode_base58 key)

unfoldable pub hex_32 : Reader Text
unfolding take
hex_32 = do hash ← take 32; pure (hex hash)

unfoldable pub hex_16 : Reader Text
unfolding take
hex_16 = do id ← take 16; pure (hex id)

unfoldable pub u8 : Reader ℕ
unfolding take le_value
u8 = do byte ← take 1; pure (le_value byte)

unfoldable pub u32 : Reader ℕ
unfolding take le_value
u32 = do word ← take 4; pure (le_value word)

unfoldable pub u64 : Reader ℕ
unfolding take le_value
u64 = do word ← take 8; pure (le_value word)

-- `getBigInt64`: two's complement.
abbrev pub signed_64 : ℕ → ℤ
signed_64 n = if ltb n (2 ^ 63) then pos n else negsuc (2 ^ 64 - 1 - n)

-- Between `Number.MIN_SAFE_INTEGER` and `Number.MAX_SAFE_INTEGER`, which is 2^53 - 1.
abbrev pub safe_integer : ℤ → Bool
safe_integer (pos n) = ltb n (2 ^ 53)
safe_integer (negsuc n) = ltb n (2 ^ 53 - 1)

unfoldable pub i64 : Reader ℤ
unfolding u64
i64 = do
  word ← u64
  if safe_integer (signed_64 word) then pure (signed_64 word) else lift (err unsafe_integer)

unfoldable pub optional_pubkey : Reader (Option Text)
unfolding u8 pubkey
optional_pubkey = do
  tag ← u8
  if nat_beq tag 0
      then pure none
      else if nat_beq tag 1
      then (do key ← pubkey; pure (some key))
      else lift (err invalid_option_tag)

unfoldable pub state : Reader AgreementState
unfolding u8
state = do index ← u8; lift (agreement_state_from_index index)

unfoldable pub agreement_type : Reader AgreementType
unfolding u8
agreement_type = do index ← u8; lift (agreement_type_from_index index)

unfoldable pub proof_status : Reader ProofStatus
unfolding u8
proof_status = do index ← u8; lift (proof_status_from_index index)

unfoldable pub dispute_outcome : Reader DisputeOutcome
unfolding u8
dispute_outcome = do index ← u8; lift (dispute_outcome_from_index index)

unfoldable pub milestone_state : Reader MilestoneState
unfolding u8
milestone_state = do index ← u8; lift (milestone_state_from_index index)

unfoldable pub skip : ℕ → Reader (Unit {0})
unfolding take
skip n = do take n; pure tt

-- Runs a decoder whose last check is `if (reader.remaining !== 0) throw`.
abbrev pub read_all : {A : Type 0} → Reader A → Bytes → Result RangeError A
read_all m bs = elim (m bs) [
  | ok (a, []) ↦ ok a
  | ok (a, b ∷ rest) ↦ err trailing_bytes
  | err e ↦ err e
]

-- `assertOnlyUnwrittenSpaceRemains`, as the last check of a decoder.
abbrev pub read_into_space : {A : Type 0} → Reader A → Bytes → Result RangeError A
read_into_space m bs = elim (m bs) [
  | ok (a, rest) ↦ if any (λ b. not (nat_beq b 0)) rest then err trailing_bytes else ok a
  | err e ↦ err e
]

-- The start of each account decoder: the discriminator is checked, and the rest is read.
abbrev pub behind_discriminator :
    {A : Type 0} → Bytes → (Bytes → Result RangeError A) → Bytes → Result RangeError A
behind_discriminator discriminator decode bytes =
    if take_front 8 bytes == discriminator then decode (drop 8 bytes) else err wrong_discriminator
