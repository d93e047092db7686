-- ===== src/Accounts/Discriminators.antt =====
-- sdk/src/reputation/hashing.ts `anchorDiscriminator`, of an account: what the name of the account
-- hashes to, in the namespace of accounts.
use ppv.Base.{◌++◌, take_front}
use ppv.Base.Text.{Text, Bytes, codes}

unfoldable pub account_discriminator : (Text → Bytes) → Text → Bytes
account_discriminator sha256 name = take_front 8 (sha256 (codes "account:" ++ name))
