-- ===== src/Escrow/Lifecycle/Chain/Path.antt =====
-- sdk/src/escrow/receipts.ts: the path that the walk takes.
use ppv.Base.{
  ℕ, zero, suc, ◌≡◌, sym, ap, ◌∙◌, ◌⊎◌, inl, inr, false, some, List, [], ◌∷◌, arith, ◌==◌, ==_iff,
  Bool-cases, any,
}
use ppv.Base.Members.{In}
use ppv.Base.Int.{ltb_ℤ, ◌≤ℤ◌, ℤ}
use ppv.Base.Result.{ok}
use ppv.Base.Dict.{get, delete, get-delete}
use ppv.Escrow.States.{AgreementState, state_eq}
use ppv.Escrow.Receipts.{PpvEscrowReceiptV1}
use ppv.Escrow.Lifecycle.Chain.{Transitions, Walk, walk}
use ppv.Escrow.Lifecycle.Chain.Walking.{walk-inv}

-- Each receipt starts from the state that the one before it ended in, in no earlier slot.
abbrev pub Linked : PpvEscrowReceiptV1 → List PpvEscrowReceiptV1 → Type 0
Linked p [] = Unit
Linked p (n ∷ ns) = (n.previous_state ≡ some p.new_state) × (p.slot ≤ℤ n.slot) × Linked n ns

-- No receipt ends in a state that was visited before.
abbrev pub NeverRevisits : List AgreementState → List PpvEscrowReceiptV1 → Type 0
NeverRevisits v [] = Unit
NeverRevisits v (n ∷ ns) = (¬ In n.new_state v) × NeverRevisits (n.new_state ∷ v) ns

-- Every entry of the map leaves the state that it stands under.
abbrev pub Leaves : Transitions → Type 0
Leaves ts =
    (s : AgreementState) (r : PpvEscrowReceiptV1) → get s ts ≡ some r → r.previous_state ≡ some s

delete-Leaves : (k : AgreementState) (ts : Transitions) → Leaves ts → Leaves (delete k ts)
delete-Leaves k ts h s r g = ground (arith, get-delete k s ts, h s r)

le_of_not_lt : (a b : ℤ) → ltb_ℤ a b ≡ false → b ≤ℤ a
le_of_not_lt a b h = ground arith

not_any-In : (x : AgreementState) (v : List AgreementState) → any (λ s. s == x) v ≡ false → ¬ In x v
not_any-In x [] h i = i
not_any-In x (y ∷ v) h (inl q) = ground (arith, ==_iff y x)
not_any-In x (y ∷ v) h (inr i) = not_any-In x v (ground arith) i

pub walk-Linked :
    (f : ℕ) (ts : Transitions) (p : PpvEscrowReceiptV1) (v : List AgreementState) {w : Walk}
    → Leaves ts
    → walk f ts p v ≡ ok w
    → Linked p w.path × NeverRevisits v w.path
unfolding walk
walk-Linked zero ts p v h e = cc
walk-Linked (suc f) ts p v h e = elim (walk-inv f ts p v e) [
  | inl (n, path, left) ↦ rw path (tt, tt)
  | inr (n, found, passed) ↦
      let (linked, fresh) =
        walk-Linked f (delete p.new_state ts) n (n.new_state ∷ v) (delete-Leaves p.new_state ts h)
          passed.goes_on in
      rw passed.path (
        (h p.new_state n found, le_of_not_lt n.slot p.slot passed.in_order, linked),
        (not_any-In n.new_state v passed.fresh, fresh),
      )
]

-- Every transition is taken or left over, and what is taken was there.
pub walk-covers :
    (f : ℕ) (ts : Transitions) (p : PpvEscrowReceiptV1) (v : List AgreementState) {w : Walk}
    (s : AgreementState) (r : PpvEscrowReceiptV1)
    → walk f ts p v ≡ ok w
    → get s ts ≡ some r
    → In r w.path ⊎ (get s w.left ≡ some r)
unfolding walk
walk-covers zero ts p v s r e g = cc
walk-covers (suc f) ts p v s r e g = elim (walk-inv f ts p v e) [
  | inl (n, path, left) ↦ inr (ap (λ (x : Transitions). get s x) left ∙ g)
  | inr (n, found, passed) ↦ elim (Bool-cases (p.new_state == s)) [
    | inl q ↦
        let here : get s ts ≡ some n =
          ap (λ (k : AgreementState). get k ts) (sym ((==_iff p.new_state s).0 q)) ∙ found in
        let same : r ≡ n = cc (g, here) in inl (rw passed.path (inl same))
    | inr q ↦
        let still : get s (delete p.new_state ts) ≡ some r = get-delete p.new_state s ts ∙ rw q g in
        elim (walk-covers f (delete p.new_state ts) n (n.new_state ∷ v) s r passed.goes_on still) [
          | inl i ↦ inl (rw passed.path (inr i))
          | inr l ↦ inr l
        ]
  ]
]

pub walk-takes :
    (f : ℕ) (ts : Transitions) (p : PpvEscrowReceiptV1) (v : List AgreementState) {w : Walk}
    (r : PpvEscrowReceiptV1)
    → walk f ts p v ≡ ok w
    → In r w.path
    → (s : AgreementState) × (get s ts ≡ some r)
unfolding walk
walk-takes zero ts p v r e i = cc
walk-takes (suc f) ts p v r e i = elim (walk-inv f ts p v e) [
  | inl (n, path, left) ↦ absurd (rw path at i)
  | inr (n, found, passed) ↦
      let j : In r (n ∷ passed.rest) = rw passed.path at i in
      elim j [
        | inl q ↦ (p.new_state, found ∙ ap some (sym q))
        | inr k ↦
            let (s, g) =
              walk-takes f (delete p.new_state ts) n (n.new_state ∷ v) r passed.goes_on k in
            (s, ground (arith, get-delete p.new_state s ts))
      ]
]
