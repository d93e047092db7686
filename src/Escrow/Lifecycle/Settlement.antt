-- ===== src/Escrow/Lifecycle/Settlement.antt =====
-- sdk/src/escrow/receipts.ts: what an accepted history says of the money.
use ppv.Base.{
  ◌+◌, ◌≡◌, sym, ap, ◌∙◌, false, not, ◌&&◌, some, List, ◌∷◌, select, ◌==◌, option_eq, nat_eq,
}
use ppv.Base.Result.{Result, ok, throw_if, >>=-eq-ok, throw_if-eq-ok}
use ppv.Base.Text.{Text}
use ppv.Base.Int.{ℤ}
use ppv.Escrow.Receipts.{PpvEscrowReceiptV1, or_else, ReceiptError}
use ppv.Escrow.Receipts.Actions.{action_eq, counterparty_assigned}
use ppv.Escrow.Lifecycle.Records.{proof_records, milestone_records}
use ppv.Escrow.Lifecycle.Placement.{with_annotations}
use ppv.Escrow.Lifecycle.Custody.{
  Custody, observe_custody, check_custody, has_action, is_some, amount_of, destination_of,
  assigned_seller, check_schedule, check_cited_proof,
}
use ppv.Escrow.Lifecycle.Reconstruct.{AgreementLifecycle, assemble, last_of, outcome_of, or_option}

-- The conditions under which a history is refused, none of which holds.
pub record AddsUp (c : Custody) : Type 0 where
  pub settled_after_funding : is_some c.settled_total && not (is_some c.funded) ≡ false
  pub settled_in_full :
      is_some c.settled && (is_some c.funded && not (c.settled_total == amount_of c.funded)) ≡ false
  pub not_both : is_some c.settled && is_some c.refunded ≡ false
  pub refunded_after_funding : is_some c.refunded_total && not (is_some c.funded) ≡ false
  pub refunded_in_full :
      is_some c.refunded
        && (is_some c.funded
            && not (
                some (or_else c.refunded_total 0 + or_else c.settled_total 0)
                == amount_of c.funded))
      ≡ false

check_custody-AddsUp : (c : Custody) {u : Unit {0}} → check_custody c ≡ ok u → AddsUp c
unfolding check_custody
check_custody-AddsUp c e =
    let (u1, a, e1) =
      >>=-eq-ok (throw_if (is_some c.settled_total && not (is_some c.funded)) _) _ e in
    let (u2, b, e2) =
      >>=-eq-ok
        (throw_if
          (is_some c.settled && (is_some c.funded && not (c.settled_total == amount_of c.funded)))
          _)
        _ e1 in
    let (u3, d, e3) = >>=-eq-ok (throw_if (is_some c.settled && is_some c.refunded) _) _ e2 in
    let (u4, f, e4) =
      >>=-eq-ok (throw_if (is_some c.refunded_total && not (is_some c.funded)) _) _ e3 in
    record {
      settled_after_funding = throw_if-eq-ok _ _ a;
      settled_in_full = throw_if-eq-ok _ _ b;
      not_both = throw_if-eq-ok _ _ d;
      refunded_after_funding = throw_if-eq-ok _ _ f;
      refunded_in_full = throw_if-eq-ok _ _ e4;
    }

-- What a lifecycle is made of.
pub record Assembled (created : PpvEscrowReceiptV1)
    (path annotations sorted : List PpvEscrowReceiptV1) (l : AgreementLifecycle) : Type 0 where
  pub history : with_annotations (created ∷ path) sorted ≡ ok l.receipts
  pub adds_up : AddsUp (observe_custody (created ∷ path) annotations)
  pub seller :
      assigned_seller created.seller (select (has_action counterparty_assigned) sorted)
      ≡ ok l.seller
  pub proofs : proof_records sorted ≡ ok l.proofs
  pub milestones : milestone_records sorted ≡ ok l.milestones
  pub scheduled : check_schedule (observe_custody (created ∷ path) annotations) l.milestones ≡ ok tt
  pub cited : check_cited_proof (observe_custody (created ∷ path) annotations) l.proofs ≡ ok tt
  pub agreement : l.agreement ≡ created.agreement
  pub buyer : l.buyer ≡ created.buyer
  pub state : l.state ≡ (last_of created path).new_state
  pub last_slot : l.last_slot ≡ (last_of created path).slot
  pub funded_amount :
      l.funded_amount ≡ amount_of (observe_custody (created ∷ path) annotations).funded
  pub settled_amount :
      l.settled_amount ≡ (observe_custody (created ∷ path) annotations).settled_total
  pub refunded_amount :
      l.refunded_amount ≡ (observe_custody (created ∷ path) annotations).refunded_total

unit_ok : {m : Result ReceiptError (Unit {0})} {u : Unit {0}} → m ≡ ok u → m ≡ ok tt
unit_ok e = e

module _ (compare : Text → Text → ℤ) where
  pub assemble-Assembled :
      (created : PpvEscrowReceiptV1) (path annotations sorted : List PpvEscrowReceiptV1)
      {l : AgreementLifecycle}
      → assemble compare created path annotations sorted ≡ ok l
      → Assembled created path annotations sorted l
  unfolding assemble
  assemble-Assembled created path annotations sorted {l} e =
      let custody = observe_custody (created ∷ path) annotations in
      let (history, a, e1) = >>=-eq-ok (with_annotations (created ∷ path) sorted) _ e in
      let (u, b, e2) = >>=-eq-ok (check_custody custody) _ e1 in
      let (seller, c, e3) =
        >>=-eq-ok
          (assigned_seller created.seller (select (has_action counterparty_assigned) sorted)) _
          e2 in
      let (proofs, d, e4) = >>=-eq-ok (proof_records sorted) _ e3 in
      let (milestones, f, e5) = >>=-eq-ok (milestone_records sorted) _ e4 in
      let (u1, g, e6) = >>=-eq-ok (check_schedule custody milestones) _ e5 in
      let (u2, h, e7) = >>=-eq-ok (check_cited_proof custody proofs) _ e6 in
      let q : record {
        agreement = created.agreement;
        agreement_id = created.agreement_id;
        buyer = created.buyer;
        seller = seller;
        mint = created.mint;
        state = (last_of created path).new_state;
        funded_amount = amount_of custody.funded;
        settled_amount = custody.settled_total;
        refunded_amount = custody.refunded_total;
        settlement_destination =
            or_option (destination_of custody.settled) (destination_of custody.refunded);
        outcome = outcome_of (last_of created path).new_state;
        last_slot = (last_of created path).slot;
        proofs = proofs;
        milestones = milestones;
        receipts = history;
      }
          ≡ l =
        cc in
      record {
        history = a ∙ ap ok (ap (λ (x : AgreementLifecycle). x.receipts) q);
        adds_up = check_custody-AddsUp custody b;
        seller = c ∙ ap ok (ap (λ (x : AgreementLifecycle). x.seller) q);
        proofs = d ∙ ap ok (ap (λ (x : AgreementLifecycle). x.proofs) q);
        milestones = f ∙ ap ok (ap (λ (x : AgreementLifecycle). x.milestones) q);
        scheduled =
            ap (check_schedule custody) (sym (ap (λ (x : AgreementLifecycle). x.milestones) q))
            ∙ unit_ok g;
        cited =
            ap (check_cited_proof custody) (sym (ap (λ (x : AgreementLifecycle). x.proofs) q))
            ∙ unit_ok h;
        agreement = ap (λ (x : AgreementLifecycle). x.agreement) (sym q);
        buyer = ap (λ (x : AgreementLifecycle). x.buyer) (sym q);
        state = ap (λ (x : AgreementLifecycle). x.state) (sym q);
        last_slot = ap (λ (x : AgreementLifecycle). x.last_slot) (sym q);
        funded_amount = ap (λ (x : AgreementLifecycle). x.funded_amount) (sym q);
        settled_amount = ap (λ (x : AgreementLifecycle). x.settled_amount) (sym q);
        refunded_amount = ap (λ (x : AgreementLifecycle). x.refunded_amount) (sym q);
      }
