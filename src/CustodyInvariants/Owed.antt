-- ===== src/CustodyInvariants/Owed.antt =====
-- scripts/lib/custody-invariants.mjs: when an agreement account and its vault agree.
use ppv.Base.{
  ◌≡◌, ◌↔◌, ◌⊎◌, inl, inr, refl, ap, Bool, true, false, not, ◌==◌, ==_iff, arith, if◌then◌else◌,
}
use ppv.Base.Result.{Result, ok, throw_if, ◌>>◌}
use ppv.Base.Int.{
  ℤ, pos, ◌-ℤ◌, ◌+ℤ◌, ◌≤ℤ◌, ltb_ℤ, int_eq, pos_part, neg_part, eq_of_parts, -ℤ_parts, +ℤ_parts,
}
use ppv.CustodyInvariants.{
  unfunded_branch, funded_branch, AgreementAccount, Accounting, assert_accounting_consistent,
  InvariantViolation, violated, p1, p2, p10, overpaid, unfunded_settled, unfunded_balance,
  owed_mismatch,
}

-- The account never recorded more than the agreement's amount as paid out; before the funding nothing
-- was paid out and the vault is empty, and after it what was paid out and what the vault holds make
-- up the amount.
abbrev pub Solvent : AgreementAccount → ℤ → Type 0
Solvent a held =
    (a.settled_total ≤ℤ a.amount)
    × (((a.funded_at ≡ pos 0) × (a.settled_total ≡ pos 0) × (held ≡ pos 0))
        ⊎ ((¬ (a.funded_at ≡ pos 0)) × (a.amount ≡ a.settled_total +ℤ held)))

owed_iff : (amount settled held : ℤ) → (amount -ℤ settled ≡ held) ↔ (amount ≡ settled +ℤ held)
owed_iff amount settled held = (
  λ h.
      eq_of_parts amount (settled +ℤ held) (
        omega
          (arith, -ℤ_parts amount settled, +ℤ_parts settled held, ap pos_part h, ap neg_part h)),
  λ h.
      eq_of_parts (amount -ℤ settled) held (
        omega
          (arith, -ℤ_parts amount settled, +ℤ_parts settled held, ap pos_part h, ap neg_part h)),
)

-- A call returns.
abbrev Returns : {B : Type 0} → Result InvariantViolation B → Type 0
Returns {B} m = (r : B) × (m ≡ ok r)

-- A guard in front passes, and so does what follows.
throw_if-Returns :
    {B : Type 0} (c : Bool) (x : InvariantViolation) (m : Result InvariantViolation B)
    → Returns (throw_if c x >> m) ↔ ((c ≡ false) × Returns m)
throw_if-Returns true x m = (λ p. cc (p.1), λ q. cc (q.0))
throw_if-Returns false x m = (λ p. (refl, p), λ q. q.1)

not_==-iff : (x y : ℤ) → (not (x == y) ≡ false) ↔ (x ≡ y)
not_==-iff x y = ground (arith, ==_iff x y)

within_iff : (x y : ℤ) → (ltb_ℤ x y ≡ false) ↔ (y ≤ℤ x)
within_iff x y = ground arith

unfunded_branch-Returns :
    (a : AgreementAccount) (held : ℤ)
    → Returns (unfunded_branch a held) ↔ ((a.settled_total ≡ pos 0) × (held ≡ pos 0))
unfolding unfunded_branch
unfunded_branch-Returns a held =
    let outer =
      throw_if-Returns (not (a.settled_total == pos 0)) (violated p10 unfunded_settled) _ in
    let inner =
      throw_if-Returns (not (held == pos 0)) (violated p1 unfunded_balance)
        (ok (record { funded = false; owed = pos 0; held = pos 0 })) in
    (
      λ p.
          let (s, q) = outer.0 p in
          ((not_==-iff a.settled_total (pos 0)).0 s, (not_==-iff held (pos 0)).0 (inner.0 q).0),
      λ q. outer.1 (
        (not_==-iff a.settled_total (pos 0)).1 q.0,
        inner.1 ((not_==-iff held (pos 0)).1 q.1, (_, refl)),
      ),
    )

funded_branch-Returns :
    (a : AgreementAccount) (held : ℤ)
    → Returns (funded_branch a held) ↔ (a.amount ≡ a.settled_total +ℤ held)
unfolding funded_branch
funded_branch-Returns a held =
    let guard =
      throw_if-Returns (not ((a.amount -ℤ a.settled_total) == held)) (violated p10 owed_mismatch)
        (ok (record { funded = true; owed = a.amount -ℤ a.settled_total; held = held })) in
    let adds_up = owed_iff a.amount a.settled_total held in
    (
      λ p. adds_up.0 ((not_==-iff (a.amount -ℤ a.settled_total) held).0 (guard.0 p).0),
      λ q. guard.1 ((not_==-iff (a.amount -ℤ a.settled_total) held).1 (adds_up.1 q), (_, refl)),
    )

-- The accounting assertion passes exactly when no more than the amount was paid out and either the
-- agreement was never funded, nothing was paid out and the vault is empty, or it was funded and
-- what was paid out and what the vault holds make up the amount.
pub assert_accounting_consistent-iff-Solvent :
    (a : AgreementAccount) (held : ℤ)
    → ((r : Accounting) × (assert_accounting_consistent a held ≡ ok r)) ↔ Solvent a held
unfolding assert_accounting_consistent unfunded_branch funded_branch
assert_accounting_consistent-iff-Solvent a held =
    branches (a.funded_at == pos 0) (==_iff a.funded_at (pos 0))
  where
    branches :
        (b : Bool)
        → ((b ≡ true) ↔ (a.funded_at ≡ pos 0))
        → Returns (
            throw_if (ltb_ℤ a.amount a.settled_total) (violated p2 overpaid)
            >> (if b then unfunded_branch a held else funded_branch a held))
          ↔ Solvent a held
    branches true w =
        let guard =
          throw_if-Returns (ltb_ℤ a.amount a.settled_total) (violated p2 overpaid)
            (unfunded_branch a held) in
        let rest = unfunded_branch-Returns a held in
        (
          λ p.
              let (c, q) = guard.0 p in
              (
                (within_iff a.amount a.settled_total).0 c,
                inl (w.0 refl, (rest.0 q).0, (rest.0 q).1),
              ),
          λ s. guard.1 (
            (within_iff a.amount a.settled_total).1 s.0,
            elim s.1 [ inl u ↦ rest.1 (u.1, u.2) | inr f ↦ absurd (f.0 (w.0 refl)) ],
          ),
        )
    branches false w =
        let guard =
          throw_if-Returns (ltb_ℤ a.amount a.settled_total) (violated p2 overpaid)
            (funded_branch a held) in
        let rest = funded_branch-Returns a held in
        (
          λ p.
              let (c, q) = guard.0 p in
              ((within_iff a.amount a.settled_total).0 c, inr (λ z. cc (w.1 z), rest.0 q)),
          λ s. guard.1 (
            (within_iff a.amount a.settled_total).1 s.0,
            elim s.1 [ inl u ↦ cc (w.1 (u.0)) | inr f ↦ rest.1 f.1 ],
          ),
        )
