-- ===== src/Accounts/Tests.antt =====
-- The sizes at 183 zero bytes, which are a milestone that is all zero, and one byte less.
use ppv.Base.{◌≡◌, refl, replicate, arith, ◌++◌, ◌∷◌, []}
use ppv.Base.Result.{ok, err}
use ppv.Base.Int.{pos, negsuc}
use ppv.Base.Text.{Text, Bytes, codes}
use ppv.Escrow.States.{MilestoneState, truncated, trailing_bytes}
use ppv.Accounts.Escrow.{
  MilestoneAccount, decode_escrow_agreement_account, decode_proof_account, decode_milestone_account,
}
use ppv.Accounts.Discriminators.{account_discriminator}
use ppv.Accounts.Layout.{Milestone, FitsWidths, layout, account_of, decode_milestone_account-layout}
use ppv.Accounts.Sizes.{
  IsSized, escrow_agreement_account_size, proof_account_size, milestone_account_size,
  decode_account-IsSized,
}

abbrev zeros : Text → Bytes
zeros t = replicate 32 0

abbrev empty_milestone : MilestoneAccount
empty_milestone = record {
  schema_version = 0;
  bump = 0;
  agreement = replicate 32 49;
  milestone_index = 0;
  amount = 0;
  terms_hash = replicate 64 48;
  state = MilestoneState.pending;
  proof = replicate 32 49;
  created_at = pos 0;
  submitted_at = pos 0;
  approved_at = pos 0;
  settled_at = pos 0;
}

is_decoded : decode_milestone_account zeros (replicate 183 0) ≡ ok empty_milestone
unfolding ppv.Accounts.Escrow.decode_milestone_account ppv.Escrow.Events.Reader.u8
    ppv.Escrow.Events.Reader.pubkey ppv.Escrow.Events.Reader.u32 ppv.Escrow.Events.Reader.u64
    ppv.Escrow.Events.Reader.hex_32 ppv.Escrow.Events.Reader.milestone_state
    ppv.Escrow.States.milestone_state_from_index ppv.Escrow.Events.Reader.i64
    ppv.Escrow.Events.Reader.skip ppv.Base58.encode_base58 ppv.Base.Text.hex
is_decoded = refl

one_byte_short : decode_milestone_account zeros (replicate 182 0) ≡ err truncated
unfolding ppv.Accounts.Escrow.decode_milestone_account ppv.Escrow.Events.Reader.u8
    ppv.Escrow.Events.Reader.pubkey ppv.Escrow.Events.Reader.u32 ppv.Escrow.Events.Reader.u64
    ppv.Escrow.Events.Reader.hex_32 ppv.Escrow.Events.Reader.milestone_state
    ppv.Escrow.States.milestone_state_from_index ppv.Escrow.Events.Reader.i64
    ppv.Escrow.Events.Reader.skip
one_byte_short = refl

decode_account-IsSized_example :
    IsSized escrow_agreement_account_size
      (replicate 183 0)
      (decode_escrow_agreement_account zeros (replicate 183 0))
    × IsSized proof_account_size (replicate 183 0) (decode_proof_account zeros (replicate 183 0))
    × IsSized milestone_account_size
        (replicate 183 0)
        (decode_milestone_account zeros (replicate 183 0))
decode_account-IsSized_example = decode_account-IsSized zeros (replicate 183 0)

abbrev paid_milestone : Milestone
paid_milestone = record {
  schema_version = 2;
  bump = 255;
  agreement = replicate 32 1;
  milestone_index = 3;
  amount = 18446744073709551615;
  terms_hash = replicate 32 2;
  state = MilestoneState.settled;
  proof = replicate 32 3;
  created_at = pos 1735787045;
  submitted_at = negsuc 0;
  approved_at = pos 0;
  settled_at = pos 0;
  reserved = replicate 32 9;
}

fits : FitsWidths paid_milestone
fits = record {
  schema_version = omega arith;
  bump = omega arith;
  agreement = refl;
  milestone_index = omega arith;
  amount = omega arith;
  terms_hash = refl;
  proof = refl;
  created_at = refl;
  submitted_at = refl;
  approved_at = refl;
  settled_at = refl;
  reserved = refl;
}

decode_milestone_account-layout_example :
    (decode_milestone_account zeros
        (account_discriminator zeros (codes "Milestone") ++ layout paid_milestone)
      ≡ ok (account_of paid_milestone))
    × (decode_milestone_account zeros
          (account_discriminator zeros (codes "Milestone") ++ (layout paid_milestone ++ 0 ∷ []))
        ≡ err trailing_bytes)
decode_milestone_account-layout_example =
    decode_milestone_account-layout zeros paid_milestone 0 [] (λ t. refl) fits
