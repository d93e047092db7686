-- ===== src/Escrow/Lifecycle/Chain/Order.antt =====
-- sdk/src/escrow/receipts.ts: the chain of receipts that are listed in another order.
use ppv.Base.{
  suc, ◌≡◌, refl, sym, ap, ◌∙◌, ◌↔◌, inl, inr, true, Option, none, some, List, [], ◌∷◌, arith,
  select, length, Bool-cases, ==_iff, option_eq, ◌==◌, list_eq, Bool,
}
use ppv.Base.Members.{In, SameMembers, In-select, every-In, every_of_In}
use ppv.Base.Result.{ok}
use ppv.Base.Dict.{get}
use ppv.Base.Dict.Laws.{empty_of_get}
use ppv.Escrow.States.{state_eq}
use ppv.Escrow.Receipts.{PpvEscrowReceiptV1}
use ppv.Escrow.Lifecycle.Chain.{Transitions, chain, is_root, same_agreement, transition_map}
use ppv.Escrow.Lifecycle.Chain.Index.{Consistent}
use ppv.Escrow.Lifecycle.Chain.Forks.{
  get-transition_map, transition_map-Unforked, transition_map_total,
}
use ppv.Escrow.Lifecycle.Chain.Walking.{SameMap, walk-SameMap}
use ppv.Escrow.Lifecycle.Chain.Run.{chain-Run, Run-chain, root-members}

-- No receipt is listed twice.
abbrev pub AllDistinct : List PpvEscrowReceiptV1 → Type 0
AllDistinct [] = Unit
AllDistinct (r ∷ rs) = (¬ In r rs) × AllDistinct rs

pub Consistent-SameMembers :
    (rs ss : List PpvEscrowReceiptV1) → SameMembers rs ss → Consistent rs → Consistent ss
Consistent-SameMembers rs ss same c r s i j = c r s ((same r).1 i) ((same s).1 j)

pub select-AllDistinct :
    (p : PpvEscrowReceiptV1 → Bool) (rs : List PpvEscrowReceiptV1)
    → AllDistinct rs
    → AllDistinct (select p rs)
select-AllDistinct p [] h = tt
select-AllDistinct p (r ∷ rs) h = elim (Bool-cases (p r)) [
  | inl e ↦ rw e ((λ i. h.0 ((In-select r p rs).0 i).0), select-AllDistinct p rs h.1)
  | inr e ↦ rw e (select-AllDistinct p rs h.1)
]

-- A list whose only member is `c`, once, is that list.
singleton :
    (c : PpvEscrowReceiptV1) (rs : List PpvEscrowReceiptV1)
    → AllDistinct rs
    → ((r : PpvEscrowReceiptV1) → In r rs ↔ (r ≡ c))
    → rs ≡ c ∷ []
singleton c [] d h = absurd ((h c).1 refl)
singleton c (r ∷ []) d h = ap (λ (x : PpvEscrowReceiptV1). x ∷ []) ((h r).0 (inl refl))
singleton c (r ∷ s ∷ rs) d h =
    absurd (d.0 (inl ((h r).0 (inl refl) ∙ sym ((h s).0 (inr (inl refl))))))

pub same_agreement-In :
    (rs : List PpvEscrowReceiptV1) (r s : PpvEscrowReceiptV1)
    → same_agreement rs ≡ true
    → In r rs
    → In s rs
    → r.agreement ≡ s.agreement
unfolding same_agreement
same_agreement-In [] r s h i j = absurd i
same_agreement-In (x ∷ rs) r s h i j =
    let all = λ (y : PpvEscrowReceiptV1) (k : In y (x ∷ rs)).
      (==_iff y.agreement x.agreement).0
        (every-In (λ z. z.agreement == x.agreement) (x ∷ rs) y h k) in
    all r i ∙ sym (all s j)

same_agreement_of_In :
    (rs : List PpvEscrowReceiptV1)
    → ((r s : PpvEscrowReceiptV1) → In r rs → In s rs → r.agreement ≡ s.agreement)
    → same_agreement rs ≡ true
unfolding same_agreement
same_agreement_of_In [] h = refl
same_agreement_of_In (x ∷ rs) h =
    every_of_In (λ z. z.agreement == x.agreement) (x ∷ rs)
      (λ r i. (==_iff r.agreement x.agreement).1 (h r x i (inl refl)))

-- The maps of two lists with the same members have the same entries.
same_map :
    (rs ss : List PpvEscrowReceiptV1) {ts us : Transitions}
    → Consistent rs
    → SameMembers rs ss
    → transition_map [] rs ≡ ok ts
    → transition_map [] ss ≡ ok us
    → SameMap ts us
same_map rs ss {ts} {us} c same e f s = option_ext (get s ts) (get s us) λ r. (
  λ g.
      let (i, p) = (get-transition_map rs s r c e).0 g in
      (get-transition_map ss s r (Consistent-SameMembers rs ss same c) f).1 ((same r).0 i, p),
  λ g.
      let (i, p) = (get-transition_map ss s r (Consistent-SameMembers rs ss same c) f).0 g in
      (get-transition_map rs s r c e).1 ((same r).1 i, p),
)
  where
    option_ext :
        (x y : Option PpvEscrowReceiptV1)
        → ((r : PpvEscrowReceiptV1) → (x ≡ some r) ↔ (y ≡ some r))
        → x ≡ y
    option_ext none none h = refl
    option_ext none (some b) h = (h b).1 refl
    option_ext (some a) y h = sym ((h a).0 refl)

-- A list with the same receipts as one that `chain` accepts, each once, has the same chain.
pub chain-SameMembers :
    (rs ss : List PpvEscrowReceiptV1) {o : List PpvEscrowReceiptV1}
    → Consistent rs
    → AllDistinct ss
    → SameMembers rs ss
    → chain rs ≡ ok o
    → chain ss ≡ ok o
unfolding get
chain-SameMembers rs ss {o} c distinct same e =
    let (d, path, shape, run) = chain-Run rs e in
    let forks = transition_map-Unforked rs c run.mapped in
    let (us, mapped) =
      transition_map_total [] ss (λ s q r i j. forks s q r ((same q).1 i) ((same r).1 j))
        (λ s q r g. absurd (cc)) in
    let (left, walked, kept) =
      walk-SameMap _ (suc (length us)) run.ts us d (d.new_state ∷ [])
        (same_map rs ss c same run.mapped mapped) (omega arith) run.walked in
    Run-chain ss d path (record {
      agrees =
          same_agreement_of_In ss
            (λ r s i j. same_agreement-In rs r s run.agrees ((same r).1 i) ((same s).1 j));
      root = singleton d (select is_root ss) (select-AllDistinct is_root ss distinct) (λ r. (
        λ i.
            let (j, t) = (In-select r is_root ss).0 i in
            (root-members rs d run.root r).0 ((same r).1 j, (==_iff r.previous_state none).0 t),
        λ q.
            let (j, n) = (root-members rs d run.root r).1 q in
            (In-select r is_root ss).1 ((same r).0 j, (==_iff r.previous_state none).1 n),
      ));
      ts = us;
      mapped = mapped;
      walked =
          walked
          ∙ ap (λ (l : Transitions). ok (record { path = path; left = l }))
              (empty_of_get left (λ k. sym (kept k)));
    })
    ∙ ap ok (sym shape)
