-- ===== src/CustodyInvariants/Transfer.antt =====
-- scripts/lib/custody-invariants.mjs: payouts that pass their assertion, and refusals.
use ppv.CustodyInvariants.Movement.{IsWatched, Passed, assert_deltas-Passed, assert_deltas-Moves}
use ppv.Base.{
  ◌≡◌, sym, ap, ◌∙◌, Bool, true, false, Option, none, some, [], ◌==◌, ==_iff, arith, list_eq,
  option_eq, not, ==_refl,
}
use ppv.Base.Result.{throw_if, ok, >>=-eq-ok, throw_if-eq-ok}
use ppv.Base.Int.{ℤ, pos, ◌-ℤ◌, ◌+ℤ◌, int_eq, pos_part, neg_part, eq_of_parts, -ℤ_parts, +ℤ_parts}
use ppv.Base.Text.{Text}
use ppv.Base.Dict.{Dict, get, put, get-put}
use ppv.CustodyInvariants.{
  p7, BalanceSnapshot, Invariant, balance, assert_deltas, assert_payout, assert_no_movement,
  assert_refusal_changed_nothing, transfer_of, or_else,
}

-- A payout that passed: the vault lost the amount and the recipient gained it, both of them watched by
-- the snapshots, and no other account that they watch moved.
pub record Transferred (before after : BalanceSnapshot) (from to : Text) (amount : ℤ) : Type 0 where
  pub taken : balance before from ≡ balance after from +ℤ amount
  pub given : balance after to ≡ balance before to +ℤ amount
  pub from_watched : IsWatched before after from
  pub to_watched : IsWatched before after to
  pub others :
      (a : Text)
      → IsWatched before after a
      → ¬ (a ≡ from)
      → ¬ (a ≡ to)
      → balance after a ≡ balance before a

zero_add : (x : ℤ) → x +ℤ pos 0 ≡ x
zero_add x = eq_of_parts (x +ℤ pos 0) x (omega (arith, +ℤ_parts x (pos 0)))

taken_back : (x y v : ℤ) → y ≡ x +ℤ (pos 0 -ℤ v) → x ≡ y +ℤ v
taken_back x y v h = eq_of_parts x (y +ℤ v) (
    omega (
      arith,
      +ℤ_parts x (pos 0 -ℤ v),
      -ℤ_parts (pos 0) v,
      +ℤ_parts y v,
      ap pos_part h,
      ap neg_part h,
    ))

Passed-Transferred :
    (before after : BalanceSnapshot) (from to : Text) (v : ℤ) {observed : Dict Text ℤ}
    → ¬ (from ≡ to)
    → Passed before after (transfer_of from to v) observed
    → Transferred before after from to v
unfolding balance get
Passed-Transferred before after from to v apart p = record {
  taken = taken_back (balance before from) (balance after from) v (
      p.moves from (p.watched from _ from_entry)
      ∙ ap (λ (o : Option ℤ). balance before from +ℤ or_else o (pos 0)) from_entry);
  given =
      p.moves to (p.watched to _ to_entry)
      ∙ ap (λ (o : Option ℤ). balance before to +ℤ or_else o (pos 0)) to_entry;
  from_watched = p.watched from _ from_entry;
  to_watched = p.watched to _ to_entry;
  others = λ a w r q.
      p.moves a w
      ∙ (ap (λ (o : Option ℤ). balance before a +ℤ or_else o (pos 0)) (no_entry a r q)
          ∙ zero_add (balance before a));
}
  where
    no_entry : (a : Text) → ¬ (a ≡ from) → ¬ (a ≡ to) → get a (transfer_of from to v) ≡ none
    no_entry a p q = ground (
      arith,
      get-put to a v (put from (pos 0 -ℤ v) []),
      get-put from a (pos 0 -ℤ v) [],
      ==_iff to a,
      ==_iff from a,
      λ (e : to ≡ a). q (sym e),
      λ (e : from ≡ a). p (sym e),
    )

    from_entry : get from (transfer_of from to v) ≡ some (pos 0 -ℤ v)
    from_entry = ground (
      arith,
      get-put to from v (put from (pos 0 -ℤ v) []),
      get-put from from (pos 0 -ℤ v) [],
      ==_iff to from,
      ==_refl from,
      λ (e : to ≡ from). apart (sym e),
    )

    to_entry : get to (transfer_of from to v) ≡ some v
    to_entry = ground (arith, get-put to to v (put from (pos 0 -ℤ v) []), ==_refl to)

-- A payout assertion that passes, from a vault to another account, means that the vault lost
-- exactly the amount and the recipient gained exactly it, that the snapshots watch both, and that the
-- balance of every other account that they watch is what it was.
pub assert_payout-Transferred :
    (before after : BalanceSnapshot) (vault recipient : Text) (amount : ℤ) (i : Option Invariant)
    {observed : Dict Text ℤ}
    → ¬ (vault ≡ recipient)
    → assert_payout before after vault recipient amount i ≡ ok observed
    → Transferred before after vault recipient amount
unfolding assert_payout
assert_payout-Transferred before after vault recipient amount i apart e =
    Passed-Transferred before after vault recipient amount apart
      (assert_deltas-Passed before after (transfer_of vault recipient amount) _ e)

-- When the assertion on a refused transaction passes, every watched balance, the state and the
-- settled total are what they were before.
pub assert_refusal_changed_nothing-unchanged :
    (before after : BalanceSnapshot) (state_before state_after : Text)
    (total_before total_after : ℤ)
    → assert_refusal_changed_nothing before after state_before state_after total_before total_after
      ≡ ok true
    → ((a : Text) → balance after a ≡ balance before a)
      × (state_before ≡ state_after)
      × (total_before ≡ total_after)
unfolding assert_refusal_changed_nothing assert_no_movement balance get
assert_refusal_changed_nothing-unchanged before after s s' t t' e =
    let (observed, passed, f) = >>=-eq-ok (assert_deltas before after [] p7) _ e in
    let (u, same_state, g) = >>=-eq-ok (throw_if (not (s == s')) _) _ f in
    let (v, same_total, h) = >>=-eq-ok (throw_if (not (t == t')) _) _ g in
    (
      λ a. assert_deltas-Moves before after [] p7 passed a ∙ zero_add (balance before a),
      (==_iff s s').0 (unflip (s == s') (throw_if-eq-ok _ _ same_state)),
      (==_iff t t').0 (unflip (t == t') (throw_if-eq-ok _ _ same_total)),
    )
  where
    unflip : (b : Bool) → not b ≡ false → b ≡ true
    unflip b k = ground arith
