-- ===== src/CustodyInvariants.antt =====
-- scripts/lib/custody-invariants.mjs: what a live custody run asserts of the balances that it
-- watches. Amounts are BigInts, so integers here: the conversions of `toAmount` from a number or a
-- text are the caller's.
pub mod Movement
pub mod Transfer
pub mod Owed
mod Tests
use ppv.Base.{
  Bool, true, false, Option, none, some, List, [], ◌∷◌, ◌++◌, ◌==◌, not, list_eq, option_eq,
  if◌then◌else◌, any,
}
use ppv.Base.Result.{Result, ok, err, ◌>>=◌, ◌>>◌, throw_if}
use ppv.Base.Int.{ℤ, pos, ◌-ℤ◌, ◌+ℤ◌, ltb_ℤ, int_eq}
use ppv.Base.Text.{Text, codes}
use ppv.Base.Dict.{Dict, get, put}
use ppv.Escrow.Receipts.{or_else}

-- The properties of `PPV_INVARIANTS` that an assertion here can name.
pub data Invariant : Type 0 where
  p1 p2 p3 p4 p7 p8 p10 : Invariant

-- `InvariantViolation`: the invariant and which assertion it is that failed.
pub data Complaint : Type 0 where
  unrecorded unwatched : Text → Complaint
  wrong_movement : List Text → Complaint
  not_conserved : ℤ → Complaint
  overpaid unfunded_settled unfunded_balance owed_mismatch : Complaint
  not_terminal state_moved total_moved : Complaint

pub record InvariantViolation : Type 0 where
  pub invariant : Invariant
  pub complaint : Complaint

abbrev pub violated : Invariant → Complaint → InvariantViolation
violated i c = record { invariant = i; complaint = c }

-- The balances of every account that the run watches.
abbrev pub BalanceSnapshot : Type 0
BalanceSnapshot = Dict Text ℤ

abbrev found : Text → Option ℤ → Result InvariantViolation ℤ
found address none = err (violated p1 (unrecorded address))
found address (some amount) = ok amount

unfoldable pub recorded : BalanceSnapshot → Text → Result InvariantViolation ℤ
unfolding found
recorded snapshot address = found address (get address snapshot)

abbrev pub keys : BalanceSnapshot → List Text
keys [] = []
keys ((a, b) ∷ d) = a ∷ keys d

-- `balances.get(address) ?? 0n`.
unfoldable pub balance : BalanceSnapshot → Text → ℤ
balance snapshot address = or_else (get address snapshot) (pos 0)

-- Setting an address again sets the same movement, so that a list does for the `Set` of addresses.
unfoldable pub collect_deltas :
    BalanceSnapshot → BalanceSnapshot → Dict Text ℤ → List Text → Dict Text ℤ
unfolding balance
collect_deltas before after out [] = out
collect_deltas before after out (a ∷ as') =
    collect_deltas before after (put a (balance after a -ℤ balance before a) out) as'

unfoldable pub deltas : BalanceSnapshot → BalanceSnapshot → Dict Text ℤ
unfolding collect_deltas
deltas before after = collect_deltas before after [] (keys before ++ keys after)

-- `if (!observed.has(address)) throw …` for each address that is expected to move.
unfoldable pub check_watched :
    Invariant → Dict Text ℤ → Dict Text ℤ → Result InvariantViolation (Unit {0})
check_watched i observed [] = ok tt
check_watched i observed ((a, amount) ∷ wanted) =
    let rest = check_watched i observed wanted in
    if get a observed == none then err (violated i (unwatched a)) else rest

-- The accounts that did not move as they should.
unfoldable pub wrong : Dict Text ℤ → Dict Text ℤ → List Text
unfolding balance
wrong wanted [] = []
wrong wanted ((a, moved) ∷ observed) =
    let rest = wrong wanted observed in if moved == balance wanted a then rest else a ∷ rest

unfoldable pub net : Dict Text ℤ → ℤ
net [] = pos 0
net ((a, moved) ∷ observed) = moved +ℤ net observed

abbrev pub is_nil : List Text → Bool
is_nil [] = true
is_nil (a ∷ rest) = false

unfoldable pub assert_deltas :
    BalanceSnapshot
    → BalanceSnapshot
    → Dict Text ℤ
    → Invariant
    → Result InvariantViolation (Dict Text ℤ)
unfolding deltas check_watched wrong net
assert_deltas before after expected invariant = do
  let observed = deltas before after
  check_watched invariant observed expected
  throw_if (not (is_nil (wrong expected observed)))
      (violated invariant (wrong_movement (wrong expected observed)))
  throw_if (not (net observed == pos 0)) (violated p1 (not_conserved (net observed)))
  ok observed

-- `{ [from]: -value, [to]: value }`.
abbrev pub transfer_of : Text → Text → ℤ → Dict Text ℤ
transfer_of from to value = put to value (put from (pos 0 -ℤ value) [])

unfoldable pub assert_payout :
    BalanceSnapshot
    → BalanceSnapshot
    → Text
    → Text
    → ℤ
    → Option Invariant
    → Result InvariantViolation (Dict Text ℤ)
unfolding assert_deltas
assert_payout before after vault recipient amount invariant =
    assert_deltas before after (transfer_of vault recipient amount) (or_else invariant p4)

unfoldable pub assert_funding :
    BalanceSnapshot → BalanceSnapshot → Text → Text → ℤ → Result InvariantViolation (Dict Text ℤ)
unfolding assert_deltas
assert_funding before after buyer vault amount =
    assert_deltas before after (transfer_of buyer vault amount) p8

unfoldable pub assert_no_movement :
    BalanceSnapshot → BalanceSnapshot → Invariant → Result InvariantViolation (Dict Text ℤ)
unfolding assert_deltas
assert_no_movement before after invariant = assert_deltas before after [] invariant

-- The fields of an agreement account that the assertion reads; `funded_at` is 0 until it is funded.
pub record AgreementAccount : Type 0 where
  pub amount : ℤ
  pub settled_total : ℤ
  pub funded_at : ℤ

pub record Accounting : Type 0 where
  pub funded : Bool
  pub owed : ℤ
  pub held : ℤ

-- The branch of an agreement that was never funded, and that of one that was.
unfoldable pub unfunded_branch : AgreementAccount → ℤ → Result InvariantViolation Accounting
unfunded_branch a held = do
  throw_if (not (a.settled_total == pos 0)) (violated p10 unfunded_settled)
  throw_if (not (held == pos 0)) (violated p1 unfunded_balance)
  ok (record { funded = false; owed = pos 0; held = pos 0 })

unfoldable pub funded_branch : AgreementAccount → ℤ → Result InvariantViolation Accounting
funded_branch a held = do
  throw_if (not ((a.amount -ℤ a.settled_total) == held)) (violated p10 owed_mismatch)
  ok (record { funded = true; owed = a.amount -ℤ a.settled_total; held = held })

unfoldable pub assert_accounting_consistent :
    AgreementAccount → ℤ → Result InvariantViolation Accounting
unfolding unfunded_branch funded_branch
assert_accounting_consistent agreement vault_balance = do
  throw_if (ltb_ℤ agreement.amount agreement.settled_total) (violated p2 overpaid)
  if agreement.funded_at == pos 0
      then unfunded_branch agreement vault_balance
      else funded_branch agreement vault_balance

abbrev pub terminal_states : List Text
terminal_states = codes "Settled" ∷ codes "Cancelled" ∷ codes "Refunded" ∷ []

unfoldable pub assert_terminal : Text → Result InvariantViolation Text
assert_terminal state = do
  throw_if (not (any (λ t. t == state) terminal_states)) (violated p7 not_terminal)
  ok state

unfoldable pub assert_refusal_changed_nothing :
    BalanceSnapshot → BalanceSnapshot → Text → Text → ℤ → ℤ → Result InvariantViolation Bool
unfolding assert_no_movement
assert_refusal_changed_nothing before after state_before state_after total_before total_after =
    assert_no_movement before after p7 >>= λ observed. do
      throw_if (not (state_before == state_after)) (violated p7 state_moved)
      throw_if (not (total_before == total_after)) (violated p3 total_moved)
      ok true
