-- ===== src/Escrow/Lifecycle/Balances.antt =====
-- sdk/src/escrow/receipts.ts: what the checks on the money leave of a history, and that its path has no
-- receipt twice.
use ppv.Base.{
  ℕ, ◌+◌, ◌≡◌, refl, sym, ap, ◌∙◌, inl, inr, Bool, true, false, not, ◌&&◌, some, List, [], ◌∷◌,
  arith, Bool-cases, select, find?, ◌==◌, ==_iff, option_eq, nat_eq,
}
use ppv.Base.Members.{In, find?_of_In}
use ppv.Escrow.States.{AgreementState}
use ppv.Escrow.Receipts.{PpvEscrowReceiptV1, or_else}
use ppv.Escrow.Receipts.Actions.{EscrowReceiptAction, action_eq}
use ppv.Escrow.Lifecycle.Chain.Order.{AllDistinct}
use ppv.Escrow.Lifecycle.Chain.Path.{NeverRevisits}
use ppv.Escrow.Lifecycle.Custody.{Custody, paid_out, add_payments, has_action, is_some, amount_of}
use ppv.Escrow.Lifecycle.Settlement.{AddsUp}

pay-some :
    (total : ℕ) (rs : List PpvEscrowReceiptV1) → is_some (add_payments (some total) rs) ≡ true
unfolding add_payments
pay-some total [] = refl
pay-some total (r ∷ rs) = pay-some (total + or_else r.amount 0) rs

-- Where there is a payment there is a total.
pub paid_out-some :
    (a : EscrowReceiptAction) (rs : List PpvEscrowReceiptV1) (r : PpvEscrowReceiptV1)
    → In r rs
    → r.action ≡ a
    → is_some (paid_out a rs) ≡ true
unfolding paid_out add_payments
paid_out-some a [] r i e = absurd i
paid_out-some a (x ∷ rs) r i e = elim (Bool-cases (x.action == a)) [
  | inl t ↦ rw t (pay-some _ (select (has_action a) rs))
  | inr f ↦ elim i [
    | inl q ↦
        absurd
          (cc (f, (==_iff x.action a).1 (ap (λ (y : PpvEscrowReceiptV1). y.action) (sym q) ∙ e)))
    | inr j ↦ rw f (paid_out-some a rs r j e)
  ]
]

pub found :
    (a : EscrowReceiptAction) (rs : List PpvEscrowReceiptV1) (r : PpvEscrowReceiptV1)
    → In r rs
    → r.action ≡ a
    → is_some (find? (has_action a) rs) ≡ true
found a rs r i e =
    let (q, f) = find?_of_In (has_action a) rs r i ((==_iff r.action a).1 e) in ap is_some f

-- A settled chain has paid out what was funded.
pub AddsUp-settled :
    (c : Custody)
    → AddsUp c
    → is_some c.settled ≡ true
    → is_some c.settled_total ≡ true
    → c.settled_total ≡ amount_of c.funded
AddsUp-settled c a s t = (==_iff c.settled_total (amount_of c.funded)).0 (
    go (is_some c.funded) (c.settled_total == amount_of c.funded) (rw t at a.settled_after_funding)
      (rw s at a.settled_in_full))
  where
    go : (f q : Bool) → true && not f ≡ false → true && (f && not q) ≡ false → q ≡ true
    go f q h k = ground arith

pub AddsUp-refunded :
    (c : Custody)
    → AddsUp c
    → is_some c.refunded ≡ true
    → is_some c.refunded_total ≡ true
    → some (or_else c.refunded_total 0 + or_else c.settled_total 0) ≡ amount_of c.funded
AddsUp-refunded c a s t =
    (==_iff (some (or_else c.refunded_total 0 + or_else c.settled_total 0)) (amount_of c.funded)).0
      (go (is_some c.funded)
        (some (or_else c.refunded_total 0 + or_else c.settled_total 0) == amount_of c.funded)
        (rw t at a.refunded_after_funding) (rw s at a.refunded_in_full))
  where
    go : (f q : Bool) → true && not f ≡ false → true && (f && not q) ≡ false → q ≡ true
    go f q h k = ground arith

pub revisit :
    (v : List AgreementState) (ns : List PpvEscrowReceiptV1) (r : PpvEscrowReceiptV1)
    → NeverRevisits v ns
    → In r ns
    → ¬ In r.new_state v
revisit v [] r h i = absurd i
revisit v (n ∷ ns) r h (inl q) = λ k. h.0 (rw q at k)
revisit v (n ∷ ns) r h (inr i) = λ k. revisit (n.new_state ∷ v) ns r h.1 i (inr k)

pub NeverRevisits-AllDistinct :
    (v : List AgreementState) (ns : List PpvEscrowReceiptV1) → NeverRevisits v ns → AllDistinct ns
NeverRevisits-AllDistinct v [] h = tt
NeverRevisits-AllDistinct v (n ∷ ns) h = (
  λ i. revisit (n.new_state ∷ v) ns n h.1 i (inl refl),
  NeverRevisits-AllDistinct (n.new_state ∷ v) ns h.1,
)
