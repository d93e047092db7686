-- ===== src/Accounts/Layout.antt =====
-- sdk/src/escrow/accounts.ts: the bytes in which a milestone is laid out, and their decoding.
use ppv.Base.{
  ℕ, ◌^◌, ◌<◌, ◌≡◌, refl, ◌∙◌, arith, true, [], ◌∷◌, ◌++◌, length, list_eq, length-take_front,
}
use ppv.Base.Result.{ok, err}
use ppv.Base.Int.{ℤ}
use ppv.Base.Text.{Text, Bytes, hex, codes}
use ppv.Base58.{encode_base58}
use ppv.Escrow.States.{MilestoneState, trailing_bytes}
use ppv.Escrow.Events.Reader.{
  pubkey, u8, u32, u64, i64, hex_32, milestone_state, skip, read_all, safe_integer,
}
use ppv.Pdas.{le_bytes}
use ppv.Accounts.Discriminators.{account_discriminator}
use ppv.Accounts.Escrow.{MilestoneAccount, read_milestone_account, decode_milestone_account}
use ppv.Accounts.Reading.{
  word_of, index_of_state, ReadsAs, >>=-ReadsAs, u8-ReadsAs, u32-ReadsAs, u64-ReadsAs, i64-ReadsAs,
  pubkey-ReadsAs, hash-ReadsAs, skip-ReadsAs, state-ReadsAs, behind_discriminator-body,
  read_all-ReadsAs,
}

-- A milestone as the program keeps it: keys and hashes are bytes.
pub record Milestone : Type 0 where
  pub schema_version : ℕ
  pub bump : ℕ
  pub agreement : Bytes
  pub milestone_index : ℕ
  pub amount : ℕ
  pub terms_hash : Bytes
  pub state : MilestoneState
  pub proof : Bytes
  pub created_at : ℤ
  pub submitted_at : ℤ
  pub approved_at : ℤ
  pub settled_at : ℤ
  pub reserved : Bytes

-- The fields are of their widths, and the times are safe integers of JavaScript.
pub record FitsWidths (m : Milestone) : Type 0 where
  pub schema_version : m.schema_version < 256
  pub bump : m.bump < 256
  pub agreement : length m.agreement ≡ 32
  pub milestone_index : m.milestone_index < 2 ^ 32
  pub amount : m.amount < 2 ^ 64
  pub terms_hash : length m.terms_hash ≡ 32
  pub proof : length m.proof ≡ 32
  pub created_at : safe_integer m.created_at ≡ true
  pub submitted_at : safe_integer m.submitted_at ≡ true
  pub approved_at : safe_integer m.approved_at ≡ true
  pub settled_at : safe_integer m.settled_at ≡ true
  pub reserved : length m.reserved ≡ 32

abbrev pub layout : Milestone → Bytes
layout m =
    le_bytes 1 m.schema_version
    ++ (le_bytes 1 m.bump
        ++ (m.agreement
            ++ (le_bytes 4 m.milestone_index
                ++ (le_bytes 8 m.amount
                    ++ (m.terms_hash
                        ++ (le_bytes 1 (index_of_state m.state)
                            ++ (m.proof
                                ++ (le_bytes 8 (word_of m.created_at)
                                    ++ (le_bytes 8 (word_of m.submitted_at)
                                        ++ (le_bytes 8 (word_of m.approved_at)
                                            ++ (le_bytes 8 (word_of m.settled_at)
                                                ++ (m.reserved ++ []))))))))))))

abbrev pub account_of : Milestone → MilestoneAccount
account_of m = record {
  schema_version = m.schema_version;
  bump = m.bump;
  agreement = encode_base58 m.agreement;
  milestone_index = m.milestone_index;
  amount = m.amount;
  terms_hash = hex m.terms_hash;
  state = m.state;
  proof = encode_base58 m.proof;
  created_at = m.created_at;
  submitted_at = m.submitted_at;
  approved_at = m.approved_at;
  settled_at = m.settled_at;
}

layout-ReadsAs :
    (m : Milestone) → FitsWidths m → ReadsAs read_milestone_account (layout m) (account_of m)
unfolding read_milestone_account
layout-ReadsAs m w = >>=-ReadsAs u8 _ _ _ _ _ (u8-ReadsAs m.schema_version w.schema_version) (
    >>=-ReadsAs u8 _ _ _ _ _ (u8-ReadsAs m.bump w.bump) (
      >>=-ReadsAs pubkey _ _ _ _ _ (pubkey-ReadsAs m.agreement w.agreement) (
        >>=-ReadsAs u32 _ _ _ _ _ (u32-ReadsAs m.milestone_index w.milestone_index) (
          >>=-ReadsAs u64 _ _ _ _ _ (u64-ReadsAs m.amount w.amount) (
            >>=-ReadsAs hex_32 _ _ _ _ _ (hash-ReadsAs m.terms_hash w.terms_hash) (
              >>=-ReadsAs milestone_state _ _ _ _ _ (state-ReadsAs m.state) (
                >>=-ReadsAs pubkey _ _ _ _ _ (pubkey-ReadsAs m.proof w.proof) (
                  >>=-ReadsAs i64 _ _ _ _ _ (i64-ReadsAs m.created_at w.created_at) (
                    >>=-ReadsAs i64 _ _ _ _ _ (i64-ReadsAs m.submitted_at w.submitted_at) (
                      >>=-ReadsAs i64 _ _ _ _ _ (i64-ReadsAs m.approved_at w.approved_at) (
                        >>=-ReadsAs i64 _ _ _ _ _ (i64-ReadsAs m.settled_at w.settled_at) (
                          >>=-ReadsAs (skip 32) _ _ _ _ _ (skip-ReadsAs 32 m.reserved w.reserved)
                            (λ rest. refl)))))))))))))

-- Where the hash always gives 32 bytes: a milestone whose fields fit their widths, and whose times are
-- safe integers of JavaScript, no further from 0 than 2^53 - 1, is decoded, from the discriminator of
-- milestones and its layout, as the account with its values, whatever the reserved bytes are; and
-- with a further byte behind it, it is refused.
pub decode_milestone_account-layout :
    (sha256 : Text → Bytes) (m : Milestone) (b : ℕ) (more : Bytes)
    → ((t : Text) → length (sha256 t) ≡ 32)
    → FitsWidths m
    → (decode_milestone_account sha256
          (account_discriminator sha256 (codes "Milestone") ++ layout m)
        ≡ ok (account_of m))
      × (decode_milestone_account sha256
            (account_discriminator sha256 (codes "Milestone") ++ (layout m ++ b ∷ more))
          ≡ err trailing_bytes)
unfolding decode_milestone_account account_discriminator
decode_milestone_account-layout sha256 m b more digest w =
    let size = length-take_front 8 (sha256 _) (omega (arith, digest (codes "account:Milestone"))) in
    let (whole, longer) =
      read_all-ReadsAs read_milestone_account (layout m) (account_of m) b more
        (layout-ReadsAs m w) in
    (
      behind_discriminator-body _ (layout m) (read_all read_milestone_account) size ∙ whole,
      behind_discriminator-body _ (layout m ++ b ∷ more) (read_all read_milestone_account) size
          ∙ longer,
    )
