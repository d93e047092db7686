-- ===== src/Escrow/Lifecycle/Chain/Walking.antt =====
-- sdk/src/escrow/receipts.ts: the walk from the creation receipt.
use ppv.Base.{
  ℕ, zero, suc, ◌<◌, ◌≡◌, sym, ap, ◌∙◌, ◌⊎◌, inl, inr, false, none, some, List, [], ◌∷◌, arith,
  ◌==◌, Bool-cases, Option-cases, if◌then◌else◌, any, length,
}
use ppv.Base.Int.{ltb_ℤ}
use ppv.Base.Result.{Result, ok, err}
use ppv.Base.Dict.{get, delete, get-delete}
use ppv.Base.Dict.Laws.{length-delete}
use ppv.Escrow.States.{AgreementState, state_eq}
use ppv.Escrow.Receipts.{PpvEscrowReceiptV1, ReceiptError, loop_limit, committed_before, revisits}
use ppv.Escrow.Lifecycle.Chain.{Transitions, Walk, extend, walk}

walk-none :
    (f : ℕ) (ts : Transitions) (p : PpvEscrowReceiptV1) (v : List AgreementState)
    → get p.new_state ts ≡ none
    → walk (suc f) ts p v ≡ ok (record { path = []; left = ts })
unfolding walk
walk-none f ts p v e = rw (e, walk)

-- One round, where a transition leaves the state.
abbrev round :
    ℕ
    → Transitions
    → PpvEscrowReceiptV1
    → List AgreementState
    → PpvEscrowReceiptV1
    → Result ReceiptError Walk
round f ts p v n =
    if ltb_ℤ n.slot p.slot
    then err (committed_before n.action p.action)
    else if any (λ s. s == n.new_state) v
    then err (revisits n.new_state)
    else extend n (walk f (delete p.new_state ts) n (n.new_state ∷ v))

walk-some :
    (f : ℕ) (ts : Transitions) (p : PpvEscrowReceiptV1) (v : List AgreementState)
    (n : PpvEscrowReceiptV1)
    → get p.new_state ts ≡ some n
    → walk (suc f) ts p v ≡ round f ts p v n
unfolding walk
walk-some f ts p v n e = rw (e, walk)

-- What a round that goes on has passed.
pub record Passed (f : ℕ) (ts : Transitions) (p : PpvEscrowReceiptV1) (v : List AgreementState)
    (n : PpvEscrowReceiptV1) (w : Walk) : Type 0 where
  pub in_order : ltb_ℤ n.slot p.slot ≡ false
  pub fresh : any (λ s. s == n.new_state) v ≡ false
  pub rest : List PpvEscrowReceiptV1
  pub path : w.path ≡ n ∷ rest
  pub goes_on :
      walk f (delete p.new_state ts) n (n.new_state ∷ v)
      ≡ ok (record { path = rest; left = w.left })

abbrev leaving : List PpvEscrowReceiptV1 → Transitions → Result ReceiptError Walk
leaving path left = ok (record { path = path; left = left })

extend-eq-ok :
    (n : PpvEscrowReceiptV1) (r : Result ReceiptError Walk) {w : Walk}
    → extend n r ≡ ok w
    → (rest : List PpvEscrowReceiptV1) × (w.path ≡ n ∷ rest)
      × (r ≡ ok (record { path = rest; left = w.left }))
extend-eq-ok n (err x) e = cc
extend-eq-ok n (ok u) {w} e =
    let q : w ≡ record u { path = n ∷ u.path } = cc in
    (u.path, ap (λ (x : Walk). x.path) q, ap (leaving u.path) (ap (λ (x : Walk). x.left) (sym q)))

round-Passed :
    (f : ℕ) (ts : Transitions) (p : PpvEscrowReceiptV1) (v : List AgreementState)
    (n : PpvEscrowReceiptV1) {w : Walk}
    → round f ts p v n ≡ ok w
    → Passed f ts p v n w
round-Passed f ts p v n {w} e = elim (Bool-cases (ltb_ℤ n.slot p.slot)) [
  | inl a ↦ let q : err (committed_before n.action p.action) ≡ ok w = rw a at e in cc
  | inr a ↦ elim (Bool-cases (any (λ s. s == n.new_state) v)) [
    | inl b ↦ let q : err (revisits n.new_state) ≡ ok w = rw (a, b) at e in cc
    | inr b ↦
        let q : extend n (walk f (delete p.new_state ts) n (n.new_state ∷ v)) ≡ ok w =
          rw (a, b) at e in
        let (rest, path, on) = extend-eq-ok n _ q in
        record { in_order = a; fresh = b; rest = rest; path = path; goes_on = on }
  ]
]

-- The two ways in which a walk that succeeds can begin.
pub walk-inv :
    (f : ℕ) (ts : Transitions) (p : PpvEscrowReceiptV1) (v : List AgreementState) {w : Walk}
    → walk (suc f) ts p v ≡ ok w
    → ((get p.new_state ts ≡ none) × (w.path ≡ []) × (w.left ≡ ts))
      ⊎ ((n : PpvEscrowReceiptV1) × (get p.new_state ts ≡ some n) × Passed f ts p v n w)
walk-inv f ts p v {w} e = elim (Option-cases (get p.new_state ts)) [
  | inl g ↦
      let q : ok (record { path = []; left = ts }) ≡ ok w = sym (walk-none f ts p v g) ∙ e in
      let u : record { path = []; left = ts } ≡ w = cc in
      inl (g, ap (λ (x : Walk). x.path) (sym u), ap (λ (x : Walk). x.left) (sym u))
  | inr (n, g) ↦ inr (n, g, round-Passed f ts p v n (sym (walk-some f ts p v n g) ∙ e))
]

extend-ne-loop_limit :
    (n : PpvEscrowReceiptV1) (r : Result ReceiptError Walk)
    → (r ≡ err loop_limit → ⊥)
    → extend n r ≡ err loop_limit
    → ⊥
extend-ne-loop_limit n (ok w) h e = cc
extend-ne-loop_limit n (err x) h e = h e

-- With more fuel than there are transitions the walk ends by itself.
pub walk-ne-loop_limit :
    (f : ℕ) (ts : Transitions) (p : PpvEscrowReceiptV1) (v : List AgreementState)
    → length ts < f
    → walk f ts p v ≡ err loop_limit
    → ⊥
walk-ne-loop_limit zero ts p v h e = absurd (omega arith)
walk-ne-loop_limit (suc f) ts p v h e = elim (Option-cases (get p.new_state ts)) [
  | inl g ↦ cc (walk-none f ts p v g, e)
  | inr (n, g) ↦
      let q : round f ts p v n ≡ err loop_limit = sym (walk-some f ts p v n g) ∙ e in
      ground (
        arith,
        extend-ne-loop_limit n (walk f (delete p.new_state ts) n (n.new_state ∷ v)) (
            walk-ne-loop_limit f (delete p.new_state ts) n (n.new_state ∷ v)
              (omega (arith, length-delete p.new_state ts g))),
      )
]

-- Two maps with the same entries.
abbrev pub SameMap : Transitions → Transitions → Type 0
SameMap ts us = (s : AgreementState) → get s ts ≡ get s us

delete-SameMap :
    (k : AgreementState) (ts us : Transitions) → SameMap ts us → SameMap (delete k ts) (delete k us)
delete-SameMap k ts us h s = ground (arith, get-delete k s ts, get-delete k s us, h s)

-- A walk over a map with the same entries takes the same path.
pub walk-SameMap :
    (f g : ℕ) (ts us : Transitions) (p : PpvEscrowReceiptV1) (v : List AgreementState) {w : Walk}
    → SameMap ts us
    → length us < g
    → walk f ts p v ≡ ok w
    → (left : Transitions) × (walk g us p v ≡ ok (record { path = w.path; left = left }))
      × SameMap w.left left
unfolding walk
walk-SameMap zero g ts us p v same h e = cc
walk-SameMap (suc f) zero ts us p v same h e = absurd (omega arith)
walk-SameMap (suc f) (suc g) ts us p v {w} same h e = elim (walk-inv f ts p v e) [
  | inl (n, path, left) ↦ (
    us,
    walk-none g us p v (sym (same p.new_state) ∙ n)
        ∙ ap (λ (x : List PpvEscrowReceiptV1). leaving x us) (sym path),
    λ s. ap (λ (x : Transitions). get s x) left ∙ same s,
  )
  | inr (n, found, passed) ↦
      let here : get p.new_state us ≡ some n = sym (same p.new_state) ∙ found in
      let (left, goes, kept) =
        walk-SameMap f g (delete p.new_state ts) (delete p.new_state us) n (n.new_state ∷ v)
          (delete-SameMap p.new_state ts us same) (omega (arith, length-delete p.new_state us here))
          passed.goes_on in
      (
        left,
        walk-some g us p v n here
            ∙ (rw (passed.in_order, passed.fresh) (ap (extend n) goes)
                ∙ ap (λ (x : List PpvEscrowReceiptV1). leaving x left) (sym passed.path)),
        kept,
      )
]
