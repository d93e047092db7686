-- ===== src/Escrow/Lifecycle/Chain/Index.antt =====
-- The receipts by id: what `index_receipts` and `delete_all` keep.
use ppv.Base.{
  refl, none, ◌≡◌, sym, ap, ◌∙◌, ◌↔◌, ◌⊎◌, inl, inr, some, List, [], ◌∷◌, arith, list_eq, ==_iff,
  Option, false, select, ==_refl, Bool-cases,
}
use ppv.Base.Members.{In, SameMembers, In-select}
use ppv.Base.Result.{ok, throw_if, >>=-eq-ok}
use ppv.Base.Text.{Text}
use ppv.Base.Dict.{get, put, delete, values, get-put, get-delete}
use ppv.Base.Dict.Laws.{IsMap, put-IsMap, delete-IsMap, In-of_get, get_of_In}
use ppv.Escrow.Receipts.{PpvEscrowReceiptV1}
use ppv.Escrow.Receipts.Actions.{action_eq}
use ppv.Escrow.Lifecycle.Chain.{ById, conflicts, index_receipts, delete_all, is_annotation}

-- Each key once, and each receipt under its own id.
pub record IsIndex (d : ById) : Type 0 where
  pub is_map : IsMap d
  pub own_id : (k : Text) (r : PpvEscrowReceiptV1) → get k d ≡ some r → k ≡ r.receipt_id

pub IsIndex-nil : IsIndex []
unfolding get
IsIndex-nil = record { is_map = tt; own_id = λ k r h. cc }

put-IsIndex : (r : PpvEscrowReceiptV1) (d : ById) → IsIndex d → IsIndex (put r.receipt_id r d)
put-IsIndex r d h = record {
  is_map = put-IsMap r.receipt_id r d h.is_map;
  own_id = λ k s g. ground (arith, get-put r.receipt_id k r d, ==_iff r.receipt_id k, h.own_id k s);
}

delete-IsIndex : (k : Text) (d : ById) → IsIndex d → IsIndex (delete k d)
delete-IsIndex k d h = record {
  is_map = delete-IsMap k d h.is_map;
  own_id = λ j s g. ground (arith, get-delete k j d, h.own_id j s);
}

-- A receipt is among the values exactly when its id leads to it.
pub In-values :
    (d : ById) (r : PpvEscrowReceiptV1)
    → IsIndex d
    → In r (values d) ↔ (get r.receipt_id d ≡ some r)
In-values d r h = (
  λ i.
      let (k, g) = get_of_In d r h.is_map i in
      sym (ap (λ (j : Text). get j d) (h.own_id k r g)) ∙ g,
  λ g. In-of_get r.receipt_id d g,
)

-- Two receipts of an index with one id are one receipt.
pub Index-injective :
    (d : ById) (r s : PpvEscrowReceiptV1)
    → IsIndex d
    → In r (values d)
    → In s (values d)
    → r.receipt_id ≡ s.receipt_id
    → r ≡ s
Index-injective d r s h i j e =
    let p = (In-values d r h).0 i in
    let q = (In-values d s h).0 j in
    let u : some r ≡ some s = sym p ∙ ap (λ (k : Text). get k d) e ∙ q in cc

pub index_receipts-IsIndex :
    (d : ById) (rs : List PpvEscrowReceiptV1) {d' : ById}
    → IsIndex d
    → index_receipts d rs ≡ ok d'
    → IsIndex d'
unfolding index_receipts
index_receipts-IsIndex d [] {d'} h e = let q : d ≡ d' = cc in rw (← q) h
index_receipts-IsIndex d (r ∷ rs) h e =
    let (u, _, f) = >>=-eq-ok (throw_if (conflicts (get r.receipt_id d) r) _) _ e in
    index_receipts-IsIndex (put r.receipt_id r d) rs (put-IsIndex r d h) f

-- What an index holds came from the receipts.
index_receipts-In :
    (d : ById) (rs : List PpvEscrowReceiptV1) {d' : ById} (k : Text) (r : PpvEscrowReceiptV1)
    → index_receipts d rs ≡ ok d'
    → get k d' ≡ some r
    → In r rs ⊎ (get k d ≡ some r)
unfolding index_receipts
index_receipts-In d [] {d'} k r e g = let q : d ≡ d' = cc in inr (rw q g)
index_receipts-In d (s ∷ rs) k r e g =
    let (u, _, f) = >>=-eq-ok (throw_if (conflicts (get s.receipt_id d) s) _) _ e in
    elim (index_receipts-In (put s.receipt_id s d) rs k r f g) [
      | inl i ↦ inl (inr i)
      | inr p ↦ ground (arith, get-put s.receipt_id k s d)
    ]

-- Under one id the receipts all agree.
abbrev pub Consistent : List PpvEscrowReceiptV1 → Type 0
Consistent rs = (r s : PpvEscrowReceiptV1) → In r rs → In s rs → r.receipt_id ≡ s.receipt_id → r ≡ s

index_receipts-keeps :
    (d : ById) (rs : List PpvEscrowReceiptV1) {d' : ById} (r : PpvEscrowReceiptV1)
    → index_receipts d rs ≡ ok d'
    → get r.receipt_id d ≡ some r
    → ((s : PpvEscrowReceiptV1) → In s rs → r.receipt_id ≡ s.receipt_id → r ≡ s)
    → get r.receipt_id d' ≡ some r
unfolding index_receipts
index_receipts-keeps d [] {d'} r e g c =
    let q : d' ≡ d = cc in ap (λ (x : ById). get r.receipt_id x) q ∙ g
index_receipts-keeps d (s ∷ rs) r e g c =
    let (u, _, f) = >>=-eq-ok (throw_if (conflicts (get s.receipt_id d) s) _) _ e in
    index_receipts-keeps (put s.receipt_id s d) rs r f
      (ground (
        arith,
        get-put s.receipt_id r.receipt_id s d,
        ==_iff s.receipt_id r.receipt_id,
        c s (inl refl),
      ))
      (λ t i q. c t (inr i) q)

-- Consistent receipts are all kept.
index_receipts-has :
    (d : ById) (rs : List PpvEscrowReceiptV1) {d' : ById} (r : PpvEscrowReceiptV1)
    → index_receipts d rs ≡ ok d'
    → Consistent rs
    → In r rs
    → get r.receipt_id d' ≡ some r
unfolding index_receipts
index_receipts-has d [] r e c i = absurd i
index_receipts-has d (s ∷ rs) r e c i =
    let (u, _, f) = >>=-eq-ok (throw_if (conflicts (get s.receipt_id d) s) _) _ e in
    let c' : Consistent rs = λ x y p q. c x y (inr p) (inr q) in
    elim i [
      | inl q ↦
          index_receipts-keeps (put s.receipt_id s d) rs r f
            (ground
              (arith, get-put s.receipt_id r.receipt_id s d, ==_iff s.receipt_id r.receipt_id))
            (λ t j p. c r t (inl q) (inr j) p)
      | inr j ↦ index_receipts-has (put s.receipt_id s d) rs r f c' j
    ]

-- Consistent receipts are never refused as replays.
pub index_receipts_total :
    (d : ById) (rs : List PpvEscrowReceiptV1)
    → ((r s : PpvEscrowReceiptV1) → In r rs → get r.receipt_id d ≡ some s → s ≡ r)
    → Consistent rs
    → (d' : ById) × (index_receipts d rs ≡ ok d')
unfolding index_receipts
index_receipts_total d [] h c = (d, refl)
index_receipts_total d (r ∷ rs) h c =
    let same : conflicts (get r.receipt_id d) r ≡ false = no_conflict (get r.receipt_id d) refl in
    let (d', e) =
      index_receipts_total (put r.receipt_id r d) rs
        (λ x s i g. ground (
          arith,
          get-put r.receipt_id x.receipt_id r d,
          ==_iff r.receipt_id x.receipt_id,
          c r x (inl refl) (inr i),
          h x s (inr i),
        ))
        (λ x y p q. c x y (inr p) (inr q)) in
    (d', rw same e)
  where
    no_conflict : (o : Option PpvEscrowReceiptV1) → get r.receipt_id d ≡ o → conflicts o r ≡ false
    no_conflict none g = refl
    no_conflict (some s) g = ground (
      arith,
      ap (λ (x : PpvEscrowReceiptV1). x.action) (h r s (inl refl) g),
      ==_refl r.action,
      ==_iff s.action r.action,
    )

-- The index of consistent receipts has exactly their members.
pub index_receipts-members :
    (rs : List PpvEscrowReceiptV1) {d : ById}
    → Consistent rs
    → index_receipts [] rs ≡ ok d
    → SameMembers rs (values d)
unfolding get
index_receipts-members rs {d} c e r = (
  λ i.
      (In-values d r (index_receipts-IsIndex [] rs IsIndex-nil e)).1
        (index_receipts-has [] rs r e c i),
  λ i.
      let g = (In-values d r (index_receipts-IsIndex [] rs IsIndex-nil e)).0 i in
      elim (index_receipts-In [] rs r.receipt_id r e g) [ inl j ↦ j | inr p ↦ cc ],
)

pub delete_all-IsIndex :
    (rs : List PpvEscrowReceiptV1) (d : ById) → IsIndex d → IsIndex (delete_all rs d)
unfolding delete_all
delete_all-IsIndex [] d h = h
delete_all-IsIndex (r ∷ rs) d h =
    delete_all-IsIndex rs (delete r.receipt_id d) (delete-IsIndex r.receipt_id d h)

get-delete_all :
    (rs : List PpvEscrowReceiptV1) (d : ById) (k : Text) (s : PpvEscrowReceiptV1)
    → (get k (delete_all rs d) ≡ some s)
      ↔ ((get k d ≡ some s) × ((r : PpvEscrowReceiptV1) → In r rs → r.receipt_id ≡ k → ⊥))
unfolding delete_all
get-delete_all [] d k s = (λ g. (g, λ r i. absurd i), λ h. h.0)
get-delete_all (r ∷ rs) d k s =
    let ih = get-delete_all rs (delete r.receipt_id d) k s in
    (
      λ g.
          let (p, q) = ih.0 g in
          (
            ground (arith, get-delete r.receipt_id k d),
            λ x i e. elim i [
              | inl w ↦ ground (
                arith,
                get-delete r.receipt_id k d,
                ==_iff r.receipt_id k,
                ap (λ (y : PpvEscrowReceiptV1). y.receipt_id) w,
              )
              | inr j ↦ q x j e
            ],
          ),
      λ h. ih.1 (
        ground (arith, get-delete r.receipt_id k d, ==_iff r.receipt_id k, h.1 r (inl refl)),
        λ x i e. h.1 x (inr i) e,
      ),
    )

-- What is left when the annotations are deleted is the transitions.
pub remaining-members :
    (d : ById) (r : PpvEscrowReceiptV1)
    → IsIndex d
    → In r (values (delete_all (select is_annotation (values d)) d))
      ↔ (In r (values d) × (is_annotation r ≡ false))
remaining-members d r h =
    let rest = delete_all (select is_annotation (values d)) d in
    let left = In-values rest r (delete_all-IsIndex _ d h) in
    let cut = get-delete_all (select is_annotation (values d)) d r.receipt_id r in
    (
      λ i.
          let (g, kept) = cut.0 (left.0 i) in
          let j = (In-values d r h).1 g in
          (
            j,
            elim (Bool-cases (is_annotation r)) [
              | inl a ↦ absurd (kept r ((In-select r is_annotation (values d)).1 (j, a)) refl)
              | inr a ↦ a
            ],
          ),
      λ k. left.1 (
          cut.1 (
            (In-values d r h).0 k.0,
            λ s i e.
                let (j, a) = (In-select s is_annotation (values d)).0 i in
                let q = Index-injective d s r h j k.0 e in cc (ap is_annotation q, a, k.1),
          )),
    )
