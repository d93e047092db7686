-- ===== src/CustodyInvariants/Tests.antt =====
-- Runs of the model of scripts/lib/custody-invariants.mjs, and its theorems at concrete balances.
use ppv.Base.{[], ◌∷◌, ◌≡◌, refl, none, list_eq, true, ==_iff, ◌↔◌}
use ppv.Base.Result.{ok, err}
use ppv.Base.Text.{Text, codes}
use ppv.Base.Int.{pos, negsuc, ◌+ℤ◌, ◌-ℤ◌}
use ppv.Base.Dict.{get, put}
use ppv.CustodyInvariants.{
  BalanceSnapshot, balance, deltas, assert_deltas, assert_payout, assert_refusal_changed_nothing,
  assert_no_movement, transfer_of, p4, p1, violated, wrong_movement, AgreementAccount,
  assert_accounting_consistent, Accounting,
}
use ppv.CustodyInvariants.Movement.{Passed, assert_deltas-Passed}
use ppv.CustodyInvariants.Transfer.{
  Transferred, assert_payout-Transferred, assert_refusal_changed_nothing-unchanged,
}
use ppv.CustodyInvariants.Owed.{Solvent, assert_accounting_consistent-iff-Solvent}

abbrev before_payout : BalanceSnapshot
before_payout = (codes "V", pos 500) ∷ (codes "S", pos 0) ∷ (codes "B", pos 100) ∷ []

abbrev after_payout : BalanceSnapshot
after_payout = (codes "V", pos 300) ∷ (codes "S", pos 200) ∷ (codes "B", pos 100) ∷ []

abbrev paid_elsewhere : BalanceSnapshot
paid_elsewhere = (codes "V", pos 300) ∷ (codes "S", pos 0) ∷ (codes "B", pos 300) ∷ []

pays :
    assert_payout before_payout after_payout (codes "V") (codes "S") (pos 200) none
    ≡ ok ((codes "V", negsuc 199) ∷ (codes "S", pos 200) ∷ (codes "B", pos 0) ∷ [])
unfolding assert_payout get put ◌-ℤ◌ ◌+ℤ◌
pays = refl

-- A payout to an account that nobody named is refused.
refuses_elsewhere :
    assert_payout before_payout paid_elsewhere (codes "V") (codes "S") (pos 200) none
    ≡ err (violated p4 (wrong_movement (codes "S" ∷ codes "B" ∷ [])))
unfolding assert_payout get put ◌-ℤ◌ ◌+ℤ◌
refuses_elsewhere = refl

moves_both :
    assert_deltas before_payout after_payout (transfer_of (codes "V") (codes "S") (pos 200)) p1
    ≡ ok (deltas before_payout after_payout)
unfolding assert_deltas get put ◌-ℤ◌ ◌+ℤ◌
moves_both = refl

stays :
    assert_refusal_changed_nothing before_payout before_payout
      (codes "Funded")
      (codes "Funded")
      (pos 7)
      (pos 7)
    ≡ ok true
unfolding assert_refusal_changed_nothing assert_no_movement get put ◌-ℤ◌ ◌+ℤ◌
stays = refl

abbrev half_paid : AgreementAccount
half_paid = record { amount = pos 500; settled_total = pos 200; funded_at = pos 12 }

assert_deltas-Passed_example :
    Passed before_payout after_payout
      (transfer_of (codes "V") (codes "S") (pos 200))
      (deltas before_payout after_payout)
assert_deltas-Passed_example =
    assert_deltas-Passed before_payout after_payout (transfer_of (codes "V") (codes "S") (pos 200))
      p1 moves_both

assert_payout-Transferred_example :
    Transferred before_payout after_payout (codes "V") (codes "S") (pos 200)
assert_payout-Transferred_example =
    assert_payout-Transferred before_payout after_payout (codes "V") (codes "S") (pos 200) none
      (λ e. cc ((==_iff (codes "V") (codes "S")).1 e)) pays

assert_refusal_changed_nothing-unchanged_example :
    ((a : Text) → balance before_payout a ≡ balance before_payout a)
    × (codes "Funded" ≡ codes "Funded")
    × (pos 7 ≡ pos 7)
assert_refusal_changed_nothing-unchanged_example =
    assert_refusal_changed_nothing-unchanged before_payout before_payout (codes "Funded")
      (codes "Funded") (pos 7) (pos 7) stays

assert_accounting_consistent-iff-Solvent_example :
    ((r : Accounting) × (assert_accounting_consistent half_paid (pos 300) ≡ ok r))
    ↔ Solvent half_paid (pos 300)
assert_accounting_consistent-iff-Solvent_example =
    assert_accounting_consistent-iff-Solvent half_paid (pos 300)
