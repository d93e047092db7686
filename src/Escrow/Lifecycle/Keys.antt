-- ===== src/Escrow/Lifecycle/Keys.antt =====
-- The keys by which sdk/src/escrow/receipts.ts sorts annotations, as one order.
use ppv.Reputation.Contracts.{behind, is_run, is_hex}
use ppv.Base.Members.{In}
use ppv.Base.{List, ◌≡◌, sym, ap, ◌∙◌, ◌↔◌, ◌⊎◌, inl, inr, true, arith}
use ppv.Base.Int.{ℤ, pos, negsuc, ◌-ℤ◌, leb_ℤ, ltb_ℤ}
use ppv.Base.Text.{Text, codes}
use ppv.Escrow.Receipts.{PpvEscrowReceiptV1, or_else}
use ppv.Escrow.Lifecycle.Placement.{first_nonzero, compare_annotations}

-- The texts that `escrowReceiptId` makes: `ppvr_` and 40 hexadecimal digits, all in ASCII.
abbrev pub IsReceiptId : Text → Type 0
IsReceiptId t = behind (codes "ppvr_") (is_run is_hex 40 40) t ≡ true

abbrev pub ReceiptIds : List PpvEscrowReceiptV1 → Type 0
ReceiptIds rs = (r : PpvEscrowReceiptV1) → In r rs → IsReceiptId r.receipt_id

-- `localeCompare` compares any two texts consistently: it is total and transitive. It may find two
-- texts equal that differ, those that are canonically equivalent; it tells the ids of receipts apart.
pub record IsCollation (compare : Text → Text → ℤ) : Type 0 where
  pub antisym :
      (a b : Text)
      → IsReceiptId a
      → IsReceiptId b
      → leb_ℤ (compare a b) (pos 0) ≡ true
      → leb_ℤ (compare b a) (pos 0) ≡ true
      → a ≡ b
  pub trans :
      (a b c : Text)
      → leb_ℤ (compare a b) (pos 0) ≡ true
      → leb_ℤ (compare b c) (pos 0) ≡ true
      → leb_ℤ (compare a c) (pos 0) ≡ true
  pub total :
      (a b : Text) → (leb_ℤ (compare a b) (pos 0) ≡ true) ⊎ (leb_ℤ (compare b a) (pos 0) ≡ true)

-- One key before the next.
abbrev Lex : ℤ → ℤ → Type 0 → Type 0
Lex x y R = (ltb_ℤ x y ≡ true) ⊎ ((x ≡ y) × R)

first_nonzero-Lex :
    (x y r : ℤ)
    → (leb_ℤ (first_nonzero (x -ℤ y) r) (pos 0) ≡ true) ↔ Lex x y (leb_ℤ r (pos 0) ≡ true)
unfolding ◌-ℤ◌
first_nonzero-Lex (pos a) (pos b) r = ground arith
first_nonzero-Lex (pos a) (negsuc b) r = ground arith
first_nonzero-Lex (negsuc a) (pos b) r = ground arith
first_nonzero-Lex (negsuc a) (negsuc b) r = ground arith

Lex-map : (x y : ℤ) (P Q : Type 0) → (P ↔ Q) → Lex x y P ↔ Lex x y Q
Lex-map x y P Q h = (
  λ l. elim l [ inl a ↦ inl a | inr b ↦ inr (b.0, h.0 b.1) ],
  λ l. elim l [ inl a ↦ inl a | inr b ↦ inr (b.0, h.1 b.1) ],
)

ltb_ℤ-trans : (x y z : ℤ) → ltb_ℤ x y ≡ true → ltb_ℤ y z ≡ true → ltb_ℤ x z ≡ true
ltb_ℤ-trans x y z h k = ground arith

ltb_ℤ-asymm : (x y : ℤ) → ltb_ℤ x y ≡ true → ltb_ℤ y x ≡ true → ⊥
ltb_ℤ-asymm x y h k = ground arith

ltb_ℤ-irrefl : (x y : ℤ) → ltb_ℤ x y ≡ true → x ≡ y → ⊥
ltb_ℤ-irrefl x y h e = ground arith

ltb_ℤ-cases : (x y : ℤ) → (ltb_ℤ x y ≡ true) ⊎ ((x ≡ y) ⊎ (ltb_ℤ y x ≡ true))
ltb_ℤ-cases (pos a) (pos b) = ground arith
ltb_ℤ-cases (pos a) (negsuc b) = ground arith
ltb_ℤ-cases (negsuc a) (pos b) = ground arith
ltb_ℤ-cases (negsuc a) (negsuc b) = ground arith

Lex-trans : (x y z : ℤ) (P Q R : Type 0) → (P → Q → R) → Lex x y P → Lex y z Q → Lex x z R
Lex-trans x y z P Q R f (inl a) (inl b) = inl (ltb_ℤ-trans x y z a b)
Lex-trans x y z P Q R f (inl a) (inr b) = inl (ap (λ (t : ℤ). ltb_ℤ x t) (sym b.0) ∙ a)
Lex-trans x y z P Q R f (inr a) (inl b) = inl (ap (λ (t : ℤ). ltb_ℤ t z) a.0 ∙ b)
Lex-trans x y z P Q R f (inr a) (inr b) = inr (a.0 ∙ b.0, f a.1 b.1)

Lex-antisym : (x y : ℤ) (P Q : Type 0) → Lex x y P → Lex y x Q → P × Q
Lex-antisym x y P Q (inl a) (inl b) = absurd (ltb_ℤ-asymm x y a b)
Lex-antisym x y P Q (inl a) (inr b) = absurd (ltb_ℤ-irrefl x y a (sym b.0))
Lex-antisym x y P Q (inr a) (inl b) = absurd (ltb_ℤ-irrefl y x b (sym a.0))
Lex-antisym x y P Q (inr a) (inr b) = (a.1, b.1)

Lex-total : (x y : ℤ) (P Q : Type 0) → (P ⊎ Q) → Lex x y P ⊎ Lex y x Q
Lex-total x y P Q h = elim (ltb_ℤ-cases x y) [
  | inl a ↦ inl (inl a)
  | inr (inl e) ↦ elim h [ inl p ↦ inl (inr (e, p)) | inr q ↦ inr (inr (sym e, q)) ]
  | inr (inr b) ↦ inr (inl b)
]

-- The call's place in the inner instructions, -1 for a top-level instruction.
abbrev inner : PpvEscrowReceiptV1 → ℤ
inner r = or_else r.inner_instruction_index (negsuc 0)

module _ (compare : Text → Text → ℤ) (law : IsCollation compare) where
  -- `a` sorts no later than `b`.
  abbrev pub Le : PpvEscrowReceiptV1 → PpvEscrowReceiptV1 → Type 0
  Le a b = leb_ℤ (compare_annotations compare a b) (pos 0) ≡ true

  abbrev ByKeys : PpvEscrowReceiptV1 → PpvEscrowReceiptV1 → Type 0
  ByKeys a b = Lex a.slot b.slot (
      Lex a.instruction_index b.instruction_index
        (Lex (inner a) (inner b) (leb_ℤ (compare a.receipt_id b.receipt_id) (pos 0) ≡ true)))

  Le-ByKeys : (a b : PpvEscrowReceiptV1) → Le a b ↔ ByKeys a b
  unfolding compare_annotations
  Le-ByKeys a b =
      let third = first_nonzero-Lex (inner a) (inner b) (compare a.receipt_id b.receipt_id) in
      let second =
        first_nonzero-Lex a.instruction_index b.instruction_index
          (first_nonzero (inner a -ℤ inner b) (compare a.receipt_id b.receipt_id)) in
      let first = first_nonzero-Lex a.slot b.slot (
        first_nonzero (a.instruction_index -ℤ b.instruction_index)
          (first_nonzero (inner a -ℤ inner b) (compare a.receipt_id b.receipt_id))) in
      let low = Lex-map a.instruction_index b.instruction_index _ _ third in
      let mid = Lex-map a.slot b.slot _ _ second in
      let top = Lex-map a.slot b.slot _ _ low in
      (λ h. top.0 (mid.0 (first.0 h)), λ h. first.1 (mid.1 (top.1 h)))

  pub Le-trans : (a b c : PpvEscrowReceiptV1) → Le a b → Le b c → Le a c
  Le-trans a b c h k = (Le-ByKeys a c).1 (
      Lex-trans a.slot b.slot c.slot _ _ _
        (Lex-trans a.instruction_index b.instruction_index c.instruction_index _ _ _ (
          Lex-trans (inner a) (inner b) (inner c) _ _ _
            (law.trans a.receipt_id b.receipt_id c.receipt_id)))
        ((Le-ByKeys a b).0 h) ((Le-ByKeys b c).0 k))

  pub Le-antisym :
      (a b : PpvEscrowReceiptV1)
      → IsReceiptId a.receipt_id
      → IsReceiptId b.receipt_id
      → Le a b
      → Le b a
      → a.receipt_id ≡ b.receipt_id
  Le-antisym a b m n h k =
      let (p, q) = Lex-antisym a.slot b.slot _ _ ((Le-ByKeys a b).0 h) ((Le-ByKeys b a).0 k) in
      let (r, s) = Lex-antisym a.instruction_index b.instruction_index _ _ p q in
      let (u, v) = Lex-antisym (inner a) (inner b) _ _ r s in
      law.antisym a.receipt_id b.receipt_id m n u v

  pub Le-total : (a b : PpvEscrowReceiptV1) → Le a b ⊎ Le b a
  Le-total a b =
      elim (Lex-total a.slot b.slot _ _ (
        Lex-total a.instruction_index b.instruction_index _ _
          (Lex-total (inner a) (inner b) _ _ (law.total a.receipt_id b.receipt_id)))) [
            | inl h ↦ inl ((Le-ByKeys a b).1 h)
            | inr h ↦ inr ((Le-ByKeys b a).1 h)
          ]
