-- ===== src/Escrow/Lifecycle/Payments.antt =====
-- sdk/src/escrow/receipts.ts: the totals that are paid out, and the order of the payments.
use ppv.Base.{
  ℕ, ◌+◌, ◌≡◌, refl, sym, ap, ◌∙◌, inl, inr, Bool, Option, none, some, List, [], ◌∷◌, ◌++◌, arith,
  Bool-cases, select,
}
use ppv.Base.Int.{ℤ, leb_ℤ, pos}
use ppv.Base.Text.{Text}
use ppv.Escrow.Receipts.{PpvEscrowReceiptV1, or_else}
use ppv.Escrow.Receipts.Actions.{EscrowReceiptAction, settlement_executed, refund_executed}
use ppv.Escrow.Lifecycle.Placement.{compare_annotations, insert_annotation, sort_annotations}
use ppv.Escrow.Lifecycle.Custody.{add_payments, paid_out, has_action, observe_custody}

module _ (p : PpvEscrowReceiptV1 → Bool) where
  abbrev pay : Option ℕ → List PpvEscrowReceiptV1 → Option ℕ
  pay total rs = add_payments total (select p rs)

  pay-append :
      (total : Option ℕ) (xs ys : List PpvEscrowReceiptV1)
      → pay total (xs ++ ys) ≡ pay (pay total xs) ys
  unfolding add_payments
  pay-append total [] ys = refl
  pay-append total (x ∷ xs) ys = elim (Bool-cases (p x)) [
    | inl e ↦ rw e (pay-append (some (or_else total 0 + or_else x.amount 0)) xs ys)
    | inr e ↦ rw e (pay-append total xs ys)
  ]

  pay_swap :
      (total : Option ℕ) (a x : PpvEscrowReceiptV1) (xs : List PpvEscrowReceiptV1)
      → pay total (a ∷ x ∷ xs) ≡ pay total (x ∷ a ∷ xs)
  unfolding add_payments
  pay_swap total a x xs = elim (Bool-cases (p a)) [
    | inl e ↦ elim (Bool-cases (p x)) [
      | inl f ↦ rw (e, f) (ap (λ (n : ℕ). add_payments (some n) (select p xs)) (omega arith))
      | inr f ↦ rw (e, f) refl
    ]
    | inr e ↦ rw e refl
  ]

  pay_cons :
      (total : Option ℕ) (x : PpvEscrowReceiptV1) (xs ys : List PpvEscrowReceiptV1)
      → ((t : Option ℕ) → pay t xs ≡ pay t ys)
      → pay total (x ∷ xs) ≡ pay total (x ∷ ys)
  unfolding add_payments
  pay_cons total x xs ys h = elim (Bool-cases (p x)) [ inl e ↦ rw e (h _) | inr e ↦ rw e (h _) ]

  module _ (compare : Text → Text → ℤ) where
    pay-insert :
        (a : PpvEscrowReceiptV1) (xs : List PpvEscrowReceiptV1) (total : Option ℕ)
        → pay total (insert_annotation compare a xs) ≡ pay total (a ∷ xs)
    unfolding insert_annotation
    pay-insert a [] total = refl
    pay-insert a (x ∷ xs) total =
        elim (Bool-cases (leb_ℤ (compare_annotations compare a x) (pos 0))) [
          | inl e ↦ rw e refl
          | inr e ↦ rw e (
              pay_cons total x (insert_annotation compare a xs) (a ∷ xs) (pay-insert a xs)
              ∙ sym (pay_swap total a x xs))
        ]

    pay-sort :
        (xs : List PpvEscrowReceiptV1) (total : Option ℕ)
        → pay total (sort_annotations compare xs) ≡ pay total xs
    unfolding sort_annotations
    pay-sort [] total = refl
    pay-sort (x ∷ xs) total =
        pay-insert x (sort_annotations compare xs) total
        ∙ pay_cons total x (sort_annotations compare xs) xs (pay-sort xs)

module _ (compare : Text → Text → ℤ) where
  paid_out-sort :
      (a : EscrowReceiptAction) (ordered xs ys : List PpvEscrowReceiptV1)
      → sort_annotations compare xs ≡ sort_annotations compare ys
      → paid_out a (ordered ++ xs) ≡ paid_out a (ordered ++ ys)
  unfolding paid_out
  paid_out-sort a ordered xs ys h =
      let p = has_action a in
      let paid = pay p none ordered in
      pay-append p none ordered xs
      ∙ (sym (pay-sort p compare xs paid)
          ∙ (ap (pay p paid) h ∙ (pay-sort p compare ys paid ∙ sym (pay-append p none ordered ys))))

  -- What is observed of custody is the same for annotations that sort to one list.
  pub observe_custody-sort :
      (ordered xs ys : List PpvEscrowReceiptV1)
      → sort_annotations compare xs ≡ sort_annotations compare ys
      → observe_custody ordered xs ≡ observe_custody ordered ys
  unfolding observe_custody
  observe_custody-sort ordered xs ys h = cc (
    paid_out-sort settlement_executed ordered xs ys h,
    paid_out-sort refund_executed ordered xs ys h,
  )
