-- ===== src/Escrow/Lifecycle/Chain/Run.antt =====
-- The stages of `chain`, apart and together.
use ppv.Base.{
  suc, ◌≡◌, refl, sym, ap, ◌∙◌, ◌↔◌, inl, inr, Bool, true, false, not, Option, none, some, List, [],
  ◌∷◌, arith, select, length,
}
use ppv.Base.Members.{In, SameMembers, In-select}
use ppv.Base.Result.{ok, throw_if, >>=-eq-ok, throw_if-eq-ok}
use ppv.Base.Dict.{get}
use ppv.Base.{==_iff, option_eq}
use ppv.Escrow.States.{AgreementState, state_eq}
use ppv.Escrow.Receipts.{PpvEscrowReceiptV1}
use ppv.Escrow.Lifecycle.Chain.{
  Transitions, walk, chain, is_root, the_root, same_agreement, transition_map, no_orphan,
}
use ppv.Escrow.Lifecycle.Chain.Index.{Consistent}
use ppv.Escrow.Lifecycle.Chain.Forks.{get-transition_map}
use ppv.Escrow.Lifecycle.Chain.Path.{Linked, NeverRevisits, walk-Linked, walk-covers, walk-takes}

-- What each stage of a successful run returned.
pub record Run (rs : List PpvEscrowReceiptV1) (c : PpvEscrowReceiptV1)
    (path : List PpvEscrowReceiptV1) : Type 0 where
  pub agrees : same_agreement rs ≡ true
  pub root : select is_root rs ≡ c ∷ []
  pub ts : Transitions
  pub mapped : transition_map [] rs ≡ ok ts
  pub walked :
      walk (suc (length ts)) ts c (c.new_state ∷ []) ≡ ok (record { path = path; left = [] })

the_root-eq-ok :
    (rs : List PpvEscrowReceiptV1) {c : PpvEscrowReceiptV1} → the_root rs ≡ ok c → rs ≡ c ∷ []
unfolding the_root
the_root-eq-ok [] e = cc
the_root-eq-ok (r ∷ []) {c} e = let q : r ≡ c = cc in ap (λ (x : PpvEscrowReceiptV1). x ∷ []) q
the_root-eq-ok (r ∷ s ∷ rs) e = cc

no_orphan-eq-ok : (ts : Transitions) {u : Unit {0}} → no_orphan ts ≡ ok u → ts ≡ []
unfolding no_orphan
no_orphan-eq-ok [] e = refl
no_orphan-eq-ok ((s, r) ∷ ts) e = cc

not-false : (b : Bool) → not b ≡ false → b ≡ true
not-false b h = ground arith

pub chain-Run :
    (rs : List PpvEscrowReceiptV1) {o : List PpvEscrowReceiptV1}
    → chain rs ≡ ok o
    → (c : PpvEscrowReceiptV1) × (path : List PpvEscrowReceiptV1) × (o ≡ c ∷ path) × Run rs c path
unfolding chain
chain-Run rs {o} e =
    let (u, agrees, e1) = >>=-eq-ok (throw_if (not (same_agreement rs)) _) _ e in
    let (c, root, e2) = >>=-eq-ok (the_root (select is_root rs)) _ e1 in
    let (ts, mapped, e3) = >>=-eq-ok (transition_map [] rs) _ e2 in
    let (w, walked, e4) = >>=-eq-ok (walk (suc (length ts)) ts c (c.new_state ∷ [])) _ e3 in
    let (u', orphan, e5) = >>=-eq-ok (no_orphan w.left) _ e4 in
    let q : c ∷ w.path ≡ o = cc in
    (
      c,
      w.path,
      sym q,
      record {
        agrees = not-false _ (throw_if-eq-ok _ _ agrees);
        root = the_root-eq-ok _ root;
        ts = ts;
        mapped = mapped;
        walked =
            walked
            ∙ ap (λ (l : Transitions). ok (record { path = w.path; left = l }))
                (no_orphan-eq-ok w.left orphan);
      },
    )

-- And back: stages that succeed make a chain.
pub Run-chain :
    (rs : List PpvEscrowReceiptV1) (c : PpvEscrowReceiptV1) (path : List PpvEscrowReceiptV1)
    → Run rs c path
    → chain rs ≡ ok (c ∷ path)
unfolding chain the_root no_orphan
Run-chain rs c path r = rw (r.agrees, r.root, r.mapped, r.walked) refl

-- The roots of a list with one root.
pub root-members :
    (rs : List PpvEscrowReceiptV1) (c : PpvEscrowReceiptV1)
    → select is_root rs ≡ c ∷ []
    → (r : PpvEscrowReceiptV1) → (In r rs × (r.previous_state ≡ none)) ↔ (r ≡ c)
root-members rs c root r = (
  λ h.
      let i : In r (c ∷ []) =
        rw root at ((In-select r is_root rs).1 (h.0, (==_iff r.previous_state none).1 h.1)) in
      elim i [ inl q ↦ q | inr f ↦ absurd f ],
  λ q.
      let i : In r (select is_root rs) = rw root (inl q) in
      let (j, t) = (In-select r is_root rs).0 i in (j, (==_iff r.previous_state none).0 t),
)

-- Of consistent receipts that `chain` accepts, the first is the only one that starts from no state;
-- each of the rest starts where the one before it ended, in no earlier slot; no state is entered
-- twice; and the chain has exactly the receipts that were given.
pub chain_sound :
    (rs : List PpvEscrowReceiptV1) (c : PpvEscrowReceiptV1) (path : List PpvEscrowReceiptV1)
    → Consistent rs
    → chain rs ≡ ok (c ∷ path)
    → (c.previous_state ≡ none)
      × Linked c path
      × NeverRevisits (c.new_state ∷ []) path
      × SameMembers rs (c ∷ path)
unfolding get
chain_sound rs c path con e =
    let (c', path', same, run) = chain-Run rs e in
    let qc : c' ≡ c = cc in
    let qp : path' ≡ path = cc in
    let linked =
      walk-Linked _ run.ts c' (c'.new_state ∷ [])
        (λ s r g. ((get-transition_map rs s r con run.mapped).0 g).1) run.walked in
    let members : SameMembers rs (c' ∷ path') = λ r. (
      λ i. placed run r i r.previous_state refl,
      λ i. elim i [
        | inl q ↦ ((root-members rs c' run.root r).1 q).0
        | inr j ↦
            let (s, g) = walk-takes _ run.ts c' (c'.new_state ∷ []) r run.walked j in
            ((get-transition_map rs s r con run.mapped).0 g).0
      ],
    ) in
    (
      ap (λ (x : PpvEscrowReceiptV1). x.previous_state) (sym qc)
          ∙ ((root-members rs c' run.root c').1 refl).1,
      rw (← qc, ← qp) linked.0,
      rw (← qc, ← qp) linked.1,
      rw (← qc, ← qp) members,
    )
  where
    placed :
        {d : PpvEscrowReceiptV1} {q : List PpvEscrowReceiptV1}
        → Run rs d q
        → (r : PpvEscrowReceiptV1) → In r rs
        → (o : Option AgreementState) → r.previous_state ≡ o
        → In r (d ∷ q)
    placed {d} run r i none p = inl ((root-members rs d run.root r).0 (i, p))
    placed {d} run r i (some s) p =
        let g = (get-transition_map rs s r con run.mapped).1 (i, p) in
        elim (walk-covers _ run.ts d (d.new_state ∷ []) s r run.walked g) [
          | inl j ↦ inr j
          | inr f ↦ cc
        ]
