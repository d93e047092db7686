-- ===== src/Escrow/Lifecycle/Chain/Forks.antt =====
-- sdk/src/escrow/receipts.ts: the map of transitions by the state that they leave.
use ppv.Base.{
  list_eq, ◌≡◌, refl, sym, ap, ◌∙◌, ◌↔◌, ◌⊎◌, inl, inr, false, Option, none, some, List, [], ◌∷◌,
  arith, ◌==◌, ==_iff, Bool-cases,
}
use ppv.Base.Members.{In}
use ppv.Base.Result.{ok, >>=-eq-ok}
use ppv.Base.Dict.{get, put, get-put}
use ppv.Base.Dict.Laws.{IsMap, put-IsMap}
use ppv.Escrow.States.{AgreementState, state_eq}
use ppv.Escrow.Receipts.{PpvEscrowReceiptV1}
use ppv.Escrow.Lifecycle.Chain.{Transitions, forks, add_transition, transition_map}
use ppv.Escrow.Lifecycle.Chain.Index.{Consistent}

-- Transitions out of one state are one receipt.
abbrev pub Unforked : List PpvEscrowReceiptV1 → Type 0
Unforked rs =
    (s : AgreementState) (q r : PpvEscrowReceiptV1)
    → In q rs
    → In r rs
    → q.previous_state ≡ some s
    → r.previous_state ≡ some s
    → q.receipt_id ≡ r.receipt_id

-- One round of the loop.
add-get :
    (o : Option AgreementState) (r : PpvEscrowReceiptV1) (ts : Transitions) {ts' : Transitions}
    → add_transition o r ts ≡ ok ts'
    → (s : AgreementState)
    → ((o ≡ some s) × (get s ts' ≡ some r) × (forks (get s ts) r ≡ false))
      ⊎ ((o ≡ some s → ⊥) × (get s ts' ≡ get s ts))
unfolding add_transition
add-get none r ts e s =
    inr (λ q. cc, let q : ts ≡ _ = cc in ap (λ (x : Transitions). get s x) (sym q))
add-get (some k) r ts {ts'} e s = elim (Bool-cases (forks (get k ts) r)) [
  | inl f ↦ absurd (ground arith)
  | inr f ↦
      let q : ts' ≡ put k r ts = ground arith in
      elim (Bool-cases (k == s)) [
        | inl g ↦
            let w = (==_iff k s).0 g in
            inl (
              ap some w,
              ap (λ (x : Transitions). get s x) q ∙ (get-put k s r ts ∙ rw g),
              rw w at f,
            )
        | inr g ↦ inr (
          λ w. let v : k ≡ s = cc in cc (g, (==_iff k s).1 v),
          ap (λ (x : Transitions). get s x) q ∙ (get-put k s r ts ∙ rw g),
        )
      ]
]

add-none : (r : PpvEscrowReceiptV1) (ts : Transitions) → add_transition none r ts ≡ ok ts
unfolding add_transition
add-none r ts = refl

add-some :
    (s : AgreementState) (r : PpvEscrowReceiptV1) (ts : Transitions)
    → forks (get s ts) r ≡ false
    → add_transition (some s) r ts ≡ ok (put s r ts)
unfolding add_transition
add-some s r ts h = rw h

add-IsMap :
    (o : Option AgreementState) (r : PpvEscrowReceiptV1) (ts : Transitions) {ts' : Transitions}
    → add_transition o r ts ≡ ok ts'
    → IsMap ts
    → IsMap ts'
unfolding add_transition
add-IsMap none r ts {ts'} e m = let q : ts ≡ ts' = cc in rw (← q) m
add-IsMap (some k) r ts {ts'} e m = elim (Bool-cases (forks (get k ts) r)) [
  | inl f ↦ absurd (ground arith)
  | inr f ↦ let q : ts' ≡ put k r ts = ground arith in rw q (put-IsMap k r ts m)
]

pub transition_map-IsMap :
    (ts : Transitions) (rs : List PpvEscrowReceiptV1) {ts' : Transitions}
    → transition_map ts rs ≡ ok ts'
    → IsMap ts
    → IsMap ts'
unfolding transition_map
transition_map-IsMap ts [] {ts'} e m = let q : ts ≡ ts' = cc in rw (← q) m
transition_map-IsMap ts (r ∷ rs) e m =
    let (ts1, a, f) = >>=-eq-ok (add_transition r.previous_state r ts) _ e in
    transition_map-IsMap ts1 rs f (add-IsMap r.previous_state r ts a m)

-- What the map holds at a state leaves that state.
transition_map-In :
    (ts : Transitions) (rs : List PpvEscrowReceiptV1) {ts' : Transitions} (s : AgreementState)
    (r : PpvEscrowReceiptV1)
    → transition_map ts rs ≡ ok ts'
    → get s ts' ≡ some r
    → (In r rs × (r.previous_state ≡ some s)) ⊎ (get s ts ≡ some r)
unfolding transition_map
transition_map-In ts [] {ts'} s r e g =
    let q : ts ≡ ts' = cc in inr (ap (λ (x : Transitions). get s x) q ∙ g)
transition_map-In ts (x ∷ rs) s r e g =
    let (ts1, a, f) = >>=-eq-ok (add_transition x.previous_state x ts) _ e in
    elim (transition_map-In ts1 rs s r f g) [
      | inl h ↦ inl (inr h.0, h.1)
      | inr h ↦ elim (add-get x.previous_state x ts a s) [
        | inl w ↦
            let q : r ≡ x = cc (h, w.1) in
            inl (inl q, ap (λ (y : PpvEscrowReceiptV1). y.previous_state) q ∙ w.0)
        | inr w ↦ inr (sym w.1 ∙ h)
      ]
    ]

-- The map holds a receipt of the same id as `r` at `s`.
abbrev Holds : Transitions → AgreementState → PpvEscrowReceiptV1 → Type 0
Holds ts s r = (q : PpvEscrowReceiptV1) × (get s ts ≡ some q) × (q.receipt_id ≡ r.receipt_id)

add-Holds :
    (x r : PpvEscrowReceiptV1) (ts : Transitions) {ts' : Transitions} (s : AgreementState)
    → add_transition x.previous_state x ts ≡ ok ts'
    → Holds ts s r
    → Holds ts' s r
add-Holds x r ts s a (q, g, e) = elim (add-get x.previous_state x ts a s) [
  | inl w ↦ (x, w.1, ground (arith, ==_iff q.receipt_id x.receipt_id))
  | inr w ↦ (q, w.1 ∙ g, e)
]

transition_map-Holds :
    (ts : Transitions) (rs : List PpvEscrowReceiptV1) {ts' : Transitions} (s : AgreementState)
    (r : PpvEscrowReceiptV1)
    → transition_map ts rs ≡ ok ts'
    → Holds ts s r ⊎ (In r rs × (r.previous_state ≡ some s))
    → Holds ts' s r
unfolding transition_map
transition_map-Holds ts [] {ts'} s r e (inl h) = let q : ts ≡ ts' = cc in rw (← q) h
transition_map-Holds ts [] s r e (inr h) = absurd h.0
transition_map-Holds ts (x ∷ rs) s r e h =
    let (ts1, a, f) = >>=-eq-ok (add_transition x.previous_state x ts) _ e in
    transition_map-Holds ts1 rs s r f (elim h [
      | inl k ↦ inl (add-Holds x r ts s a k)
      | inr k ↦ elim k.0 [
        | inl q ↦ elim (add-get x.previous_state x ts a s) [
          | inl w ↦ inl (x, w.1, ap (λ (y : PpvEscrowReceiptV1). y.receipt_id) (sym q))
          | inr w ↦ absurd (w.0 (ap (λ (y : PpvEscrowReceiptV1). y.previous_state) (sym q) ∙ k.1))
        ]
        | inr i ↦ inr (i, k.1)
      ]
    ])

-- Of consistent receipts, the map holds at a state exactly the one that leaves it.
pub get-transition_map :
    (rs : List PpvEscrowReceiptV1) {ts : Transitions} (s : AgreementState) (r : PpvEscrowReceiptV1)
    → Consistent rs
    → transition_map [] rs ≡ ok ts
    → (get s ts ≡ some r) ↔ (In r rs × (r.previous_state ≡ some s))
unfolding get
get-transition_map rs {ts} s r c e =
    let held =
      λ (q : PpvEscrowReceiptV1) (g : get s ts ≡ some q). transition_map-In [] rs s q e g in
    (
      λ g. elim (held r g) [ inl h ↦ h | inr n ↦ cc ],
      λ h.
          let (q, g, same) = transition_map-Holds [] rs s r e (inr h) in
          elim (held q g) [ inl k ↦ g ∙ ap some (c q r k.0 h.0 same) | inr n ↦ cc ],
    )

pub transition_map-Unforked :
    (rs : List PpvEscrowReceiptV1) {ts : Transitions}
    → Consistent rs
    → transition_map [] rs ≡ ok ts
    → Unforked rs
transition_map-Unforked rs c e s q r i j p w =
    let g = (get-transition_map rs s q c e).1 (i, p) in
    let h = (get-transition_map rs s r c e).1 (j, w) in
    let u : q ≡ r = cc in ap (λ (y : PpvEscrowReceiptV1). y.receipt_id) u

-- A list that does not fork is never refused.
pub transition_map_total :
    (ts : Transitions) (rs : List PpvEscrowReceiptV1)
    → Unforked rs
    → ((s : AgreementState) (q r : PpvEscrowReceiptV1)
        → get s ts ≡ some q
        → In r rs
        → r.previous_state ≡ some s
        → q.receipt_id ≡ r.receipt_id)
    → (ts' : Transitions) × (transition_map ts rs ≡ ok ts')
unfolding transition_map
transition_map_total ts [] u h = (ts, refl)
transition_map_total ts (r ∷ rs) u h =
    let (ts1, a) = added r.previous_state refl in
    let (ts', e) =
      transition_map_total ts1 rs (λ s x y i j. u s x y (inr i) (inr j))
        (λ s x y g j p. elim (add-get r.previous_state r ts a s) [
          | inl w ↦
              let q : r ≡ x = cc (g, w.1) in
              ap (λ (z : PpvEscrowReceiptV1). z.receipt_id) (sym q)
              ∙ u s r y (inl refl) (inr j) w.0 p
          | inr w ↦ h s x y (sym w.1 ∙ g) (inr j) p
        ]) in
    (ts', rw a e)
  where
    fits :
        (s : AgreementState) (o : Option PpvEscrowReceiptV1)
        → r.previous_state ≡ some s
        → get s ts ≡ o
        → forks o r ≡ false
    fits s none p g = refl
    fits s (some q) p g = ground (arith, ==_iff q.receipt_id r.receipt_id, h s q r g (inl refl) p)

    added :
        (o : Option AgreementState)
        → r.previous_state ≡ o
        → (ts1 : Transitions) × (add_transition r.previous_state r ts ≡ ok ts1)
    added none p = (ts, ap (λ (o : Option AgreementState). add_transition o r ts) p ∙ add-none r ts)
    added (some s) p = (
      put s r ts,
      ap (λ (o : Option AgreementState). add_transition o r ts) p
          ∙ add-some s r ts (fits s (get s ts) p refl),
    )
