-- ===== src/Escrow/Lifecycle/Sums.antt =====
-- sdk/src/escrow/receipts.ts `paidOut`: its totals as sums over the receipts, each counted once.
use ppv.Base.{
  ℕ, ◌+◌, ◌≡◌, refl, sym, ap, ◌∙◌, ◌↔◌, ◌⊎◌, inl, inr, true, Option, none, some, List, [], ◌∷◌,
  ◌++◌, arith, Bool-cases, select, ◌==◌, if◌then◌else◌,
}
use ppv.Base.Members.{In, SameMembers, In-append}
use ppv.Escrow.Receipts.{PpvEscrowReceiptV1, or_else}
use ppv.Escrow.Receipts.Actions.{EscrowReceiptAction, action_eq}
use ppv.Escrow.Lifecycle.Chain.Order.{AllDistinct}
use ppv.Escrow.Lifecycle.Custody.{paid_out, add_payments, has_action, is_some}

-- What one receipt adds to the total of an action.
abbrev pub share_of : EscrowReceiptAction → PpvEscrowReceiptV1 → ℕ
share_of a r = if r.action == a then or_else r.amount 0 else 0

-- The sum of the amounts of the receipts with an action.
abbrev pub total_of : EscrowReceiptAction → List PpvEscrowReceiptV1 → ℕ
total_of a [] = 0
total_of a (r ∷ rs) = share_of a r + total_of a rs

add_payments-total :
    (a : EscrowReceiptAction) (total : Option ℕ) (rs : List PpvEscrowReceiptV1)
    → or_else (add_payments total (select (has_action a) rs)) 0 ≡ or_else total 0 + total_of a rs
unfolding add_payments
add_payments-total a total [] = omega arith
add_payments-total a total (r ∷ rs) = elim (Bool-cases (r.action == a)) [
  | inl e ↦
      rw e (omega (arith, add_payments-total a (some (or_else total 0 + or_else r.amount 0)) rs))
  | inr e ↦ rw e (omega (arith, add_payments-total a total rs))
]

pub paid_out-total :
    (a : EscrowReceiptAction) (rs : List PpvEscrowReceiptV1)
    → or_else (paid_out a rs) 0 ≡ total_of a rs
unfolding paid_out
paid_out-total a rs = omega (arith, add_payments-total a none rs)

pub some-or_else : (o : Option ℕ) → is_some o ≡ true → o ≡ some (or_else o 0)
some-or_else none h = cc
some-or_else (some n) h = refl

-- A list with one of its members set apart.
record Without (a : EscrowReceiptAction) (x : PpvEscrowReceiptV1) (ys : List PpvEscrowReceiptV1)
    : Type 0 where
  rest : List PpvEscrowReceiptV1
  sums : total_of a ys ≡ share_of a x + total_of a rest
  distinct : AllDistinct rest
  members : (b : PpvEscrowReceiptV1) → In b ys ↔ ((b ≡ x) ⊎ In b rest)
  absent : ¬ In x rest

set_apart :
    (a : EscrowReceiptAction) (x : PpvEscrowReceiptV1) (ys : List PpvEscrowReceiptV1)
    → AllDistinct ys
    → In x ys
    → Without a x ys
set_apart a x [] d i = absurd i
set_apart a x (y ∷ ys) d (inl q) = record {
  rest = ys;
  sums = ap (λ (z : PpvEscrowReceiptV1). share_of a z + total_of a ys) (sym q);
  distinct = d.1;
  members = λ b. (
    λ i. elim i [ inl e ↦ inl (e ∙ sym q) | inr j ↦ inr j ],
    λ i. elim i [ inl e ↦ inl (e ∙ q) | inr j ↦ inr j ],
  );
  absent = λ i. d.0 (rw (← q) i);
}
set_apart a x (y ∷ ys) d (inr i) =
    let w = set_apart a x ys d.1 i in
    record {
      rest = y ∷ w.rest;
      sums = let s = w.sums in omega arith;
      distinct = ((λ j. d.0 ((w.members y).1 (inr j))), w.distinct);
      members = λ b. (
        λ j. elim j [
          | inl e ↦ inr (inl e)
          | inr k ↦ elim ((w.members b).0 k) [ inl e ↦ inl e | inr m ↦ inr (inr m) ]
        ],
        λ j. elim j [
          | inl e ↦ inr ((w.members b).1 (inl e))
          | inr k ↦ elim k [ inl e ↦ inl e | inr m ↦ inr ((w.members b).1 (inr m)) ]
        ],
      );
      absent = λ j. elim j [ inl e ↦ d.0 (rw e at i) | inr k ↦ w.absent k ];
    }

-- The total does not depend on how the receipts are listed, each once.
pub total_of-SameMembers :
    (a : EscrowReceiptAction) (xs ys : List PpvEscrowReceiptV1)
    → AllDistinct xs
    → AllDistinct ys
    → SameMembers xs ys
    → total_of a xs ≡ total_of a ys
total_of-SameMembers a [] [] d e h = refl
total_of-SameMembers a [] (y ∷ ys) d e h = absurd ((h y).1 (inl refl))
total_of-SameMembers a (x ∷ xs) ys d e h =
    let w = set_apart a x ys e ((h x).0 (inl refl)) in
    let same : SameMembers xs w.rest = λ b. (
      λ i. elim ((w.members b).0 ((h b).0 (inr i))) [
        | inl q ↦ absurd (d.0 (rw q at i))
        | inr j ↦ j
      ],
      λ i. elim ((h b).1 ((w.members b).1 (inr i))) [
        | inl q ↦ absurd (w.absent (rw q at i))
        | inr j ↦ j
      ],
    ) in
    ap (λ (n : ℕ). share_of a x + n) (total_of-SameMembers a xs w.rest d.1 w.distinct same)
    ∙ sym w.sums

pub append-AllDistinct :
    (xs ys : List PpvEscrowReceiptV1)
    → AllDistinct xs
    → AllDistinct ys
    → ((r : PpvEscrowReceiptV1) → In r xs → ¬ In r ys)
    → AllDistinct (xs ++ ys)
append-AllDistinct [] ys d e h = e
append-AllDistinct (x ∷ xs) ys d e h = (
  λ i. elim ((In-append x xs ys).0 i) [ inl j ↦ d.0 j | inr j ↦ h x (inl refl) j ],
  append-AllDistinct xs ys d.1 e (λ r i. h r (inr i)),
)
