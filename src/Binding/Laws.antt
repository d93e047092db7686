-- ===== src/Binding/Laws.antt =====
-- sdk/src/commerce/binding.ts: when an escrow agreement is bound to a contract.
use ppv.Base.{
  ◌≡◌, ◌↔◌, ◌⊎◌, inl, inr, refl, sym, ◌∙◌, arith, Bool, true, false, not, ◌||◌, Option, none, some,
  List, [], ◌∷◌, ◌==◌, list_eq, ==_iff, nat_beq, nat_beq_iff, length, Bool-cases, subst,
}
use ppv.Base.Members.{append-nil}
use ppv.Base.Text.{Text}
use ppv.Accounts.Escrow.{EscrowAgreementAccount}
use ppv.Accounts.Commerce.{
  CommerceAgreementAccount, CommerceSignature, CommerceAgreementState, executed,
}
use ppv.Binding.{
  Party, Reason, reason_if, is_executed, has_party, signature_reasons, pair_reasons,
  binding_reasons, verify_terms_binding, party_a, party_b,
}

-- A signature of the contract as it is.
pub record SignsCurrent (contract : CommerceAgreementAccount) (s : CommerceSignature) : Type 0 where
  pub version : s.version_signed ≡ contract.version
  pub terms : s.terms_hash_signed ≡ contract.terms_hash
  pub content : s.content_hash_signed ≡ contract.content_hash

-- Two different wallets that are the parties of the contract, in one order or the other.
pub record AreParties (contract : CommerceAgreementAccount) (x y : Text) : Type 0 where
  pub differ : x ≡ y → ⊥
  pub matched :
      ((contract.party_a ≡ x) × (contract.party_b ≡ y))
      ⊎ ((contract.party_b ≡ x) × (contract.party_a ≡ y))

-- The escrow commits to the contract's terms, the contract is executed, and the two wallets that
-- the escrow names are its parties and have both signed it as it is.
pub record Bound (escrow : EscrowAgreementAccount) (contract : CommerceAgreementAccount)
    : Type 0 where
  pub first : CommerceSignature
  pub second : CommerceSignature
  pub same_terms : contract.terms_hash ≡ escrow.terms_hash
  pub is_final : contract.state ≡ executed
  pub parties : AreParties contract escrow.creator escrow.counterparty
  pub first_given : contract.signature_a ≡ some first
  pub second_given : contract.signature_b ≡ some second
  pub first_current : SignsCurrent contract first
  pub second_current : SignsCurrent contract second
  pub signers : AreParties contract first.signer second.signer

reason_if-nil : (wrong : Bool) (r : Reason) → (reason_if wrong r ≡ []) ↔ (wrong ≡ false)
unfolding reason_if
reason_if-nil true r = ((λ h. cc), λ h. cc)
reason_if-nil false r = ((λ h. refl), λ h. refl)

or_true : (a b : Bool) → (a || b) ≡ true → (a ≡ true) ⊎ (b ≡ true)
or_true a b h = ground arith

differ_iff : (x y : Text) → ((x == y) ≡ false) ↔ (x ≡ y → ⊥)
differ_iff x y = (
  λ h e. let k = (==_iff x y).1 e in cc,
  λ h. elim (Bool-cases (x == y)) [ inl e ↦ absurd (h ((==_iff x y).0 e)) | inr e ↦ e ],
)

has_party-In :
    (contract : CommerceAgreementAccount) (x : Text)
    → (has_party contract x ≡ true) ↔ ((contract.party_a ≡ x) ⊎ (contract.party_b ≡ x))
unfolding has_party
has_party-In contract x = (
  λ h. elim (or_true (contract.party_a == x) (contract.party_b == x) h) [
    | inl e ↦ inl ((==_iff contract.party_a x).0 e)
    | inr e ↦ inr ((==_iff contract.party_b x).0 e)
  ],
  λ h. elim h [
    | inl e ↦ left (contract.party_a == x) (contract.party_b == x) ((==_iff contract.party_a x).1 e)
    | inr e ↦
        right (contract.party_a == x) (contract.party_b == x) ((==_iff contract.party_b x).1 e)
  ],
)
  where
    left : (a b : Bool) → a ≡ true → (a || b) ≡ true
    left a b h = ground arith

    right : (a b : Bool) → b ≡ true → (a || b) ≡ true
    right a b h = ground arith

-- Where both wallets are parties, and differ, they are the two parties.
has_party-AreParties :
    (contract : CommerceAgreementAccount) (x y : Text)
    → ((has_party contract x ≡ true) × (has_party contract y ≡ true) × ((x == y) ≡ false))
      ↔ AreParties contract x y
has_party-AreParties contract x y = (
  λ (h, k, d).
      let ne = (differ_iff x y).0 d in
      record {
        differ = ne;
        matched = order ne ((has_party-In contract x).0 h) ((has_party-In contract y).0 k);
      },
  λ p. elim p.matched [
    | inl (a, b) ↦ (
      (has_party-In contract x).1 (inl a),
      (has_party-In contract y).1 (inr b),
      (differ_iff x y).1 p.differ,
    )
    | inr (b, a) ↦ (
      (has_party-In contract x).1 (inr b),
      (has_party-In contract y).1 (inl a),
      (differ_iff x y).1 p.differ,
    )
  ],
)
  where
    order :
        (x ≡ y → ⊥)
        → (contract.party_a ≡ x) ⊎ (contract.party_b ≡ x)
        → (contract.party_a ≡ y) ⊎ (contract.party_b ≡ y)
        → ((contract.party_a ≡ x) × (contract.party_b ≡ y))
          ⊎ ((contract.party_b ≡ x) × (contract.party_a ≡ y))
    order ne (inl a) (inl b) = absurd (ne (sym a ∙ b))
    order ne (inl a) (inr b) = inl (a, b)
    order ne (inr a) (inl b) = inr (a, b)
    order ne (inr a) (inr b) = absurd (ne (sym a ∙ b))

is_executed_iff : (s : CommerceAgreementState) → (is_executed s ≡ true) ↔ (s ≡ executed)
unfolding is_executed
is_executed_iff s = ground arith

-- No reason is given where a wrong is not there.
no_reason : (right : Bool) (r : Reason) → (reason_if (not right) r ≡ []) ↔ (right ≡ true)
unfolding reason_if
no_reason true r = ((λ h. refl), λ h. refl)
no_reason false r = ((λ h. cc), λ h. cc)

signature_reasons-nil :
    (contract : CommerceAgreementAccount) (p : Party) (o : Option CommerceSignature)
    → (signature_reasons contract p o ≡ [])
      ↔ ((s : CommerceSignature) × (o ≡ some s) × SignsCurrent contract s)
unfolding signature_reasons
signature_reasons-nil contract p none = ((λ h. cc), λ (s, e, c). cc)
signature_reasons-nil contract p (some s) = (
  λ h.
      let (v, h1) = (append-nil _ _).0 h in
      let (t, c) = (append-nil _ _).0 h1 in
      (
        s,
        refl,
        record {
          version = (nat_beq_iff s.version_signed contract.version).0 ((no_reason _ _).0 v);
          terms = (==_iff s.terms_hash_signed contract.terms_hash).0 ((no_reason _ _).0 t);
          content = (==_iff s.content_hash_signed contract.content_hash).0 ((no_reason _ _).0 c);
        },
      ),
  λ (u, e, c).
      let q : s ≡ u = cc in
      let c' : SignsCurrent contract s = subst (SignsCurrent contract) (sym q) c in
      (append-nil _ _).1 (
        (no_reason _ _).1 ((nat_beq_iff s.version_signed contract.version).1 c'.version),
        (append-nil _ _).1 (
          (no_reason _ _).1 ((==_iff s.terms_hash_signed contract.terms_hash).1 c'.terms),
          (no_reason _ _).1 ((==_iff s.content_hash_signed contract.content_hash).1 c'.content),
        ),
      ),
)

pair_reasons-nil :
    (contract : CommerceAgreementAccount) (a b : CommerceSignature)
    → (pair_reasons contract (some a) (some b) ≡ []) ↔ AreParties contract a.signer b.signer
unfolding pair_reasons
pair_reasons-nil contract a b = (
  λ h.
      let (d, h1) = (append-nil _ _).0 h in
      let (p, q) = (append-nil _ _).0 h1 in
      (has_party-AreParties contract a.signer b.signer).0
        ((no_reason _ _).0 p, (no_reason _ _).0 q, (reason_if-nil _ _).0 d),
  λ parties.
      let (p, q, d) = (has_party-AreParties contract a.signer b.signer).1 parties in
      (append-nil _ _).1
        ((reason_if-nil _ _).1 d, (append-nil _ _).1 ((no_reason _ _).1 p, (no_reason _ _).1 q)),
)

length-nil : (xs : List Reason) → (nat_beq (length xs) 0 ≡ true) ↔ (xs ≡ [])
length-nil [] = ((λ h. refl), λ h. refl)
length-nil (x ∷ xs) =
    (λ h. let z = (nat_beq_iff (length (x ∷ xs)) 0).0 h in absurd (omega arith), λ h. cc)

not_parties-false : (a b : Bool) → ((not a || not b) ≡ false) ↔ ((a ≡ true) × (b ≡ true))
not_parties-false a b = ground arith

binding_reasons-nil :
    (escrow : EscrowAgreementAccount) (contract : CommerceAgreementAccount)
    → (binding_reasons escrow contract ≡ []) ↔ Bound escrow contract
unfolding binding_reasons
binding_reasons-nil escrow contract = (
  λ h.
      let (t, h1) = (append-nil _ _).0 h in
      let (x, h2) = (append-nil _ _).0 h1 in
      let (p, h3) = (append-nil _ _).0 h2 in
      let (d, h4) = (append-nil _ _).0 h3 in
      let (sa, h5) = (append-nil _ _).0 h4 in
      let (sb, pair) = (append-nil _ _).0 h5 in
      let (a, ea, ca) = (signature_reasons-nil contract party_a contract.signature_a).0 sa in
      let (b, eb, cb) = (signature_reasons-nil contract party_b contract.signature_b).0 sb in
      let (pc, pq) = (not_parties-false _ _).0 ((reason_if-nil _ _).0 p) in
      let both : pair_reasons contract (some a) (some b) ≡ [] = cc in
      record {
        first = a;
        second = b;
        same_terms = (==_iff contract.terms_hash escrow.terms_hash).0 ((no_reason _ _).0 t);
        is_final = (is_executed_iff contract.state).0 ((no_reason _ _).0 x);
        parties =
            (has_party-AreParties contract escrow.creator escrow.counterparty).0
              (pc, pq, (reason_if-nil _ _).0 d);
        first_given = ea;
        second_given = eb;
        first_current = ca;
        second_current = cb;
        signers = (pair_reasons-nil contract a b).0 both;
      },
  λ bound.
      let (pc, pq, d) =
        (has_party-AreParties contract escrow.creator escrow.counterparty).1 bound.parties in
      let pair = (pair_reasons-nil contract bound.first bound.second).1 bound.signers in
      let ea = bound.first_given in
      let eb = bound.second_given in
      let both : pair_reasons contract contract.signature_a contract.signature_b ≡ [] = cc in
      (append-nil _ _).1 (
        (no_reason _ _).1 ((==_iff contract.terms_hash escrow.terms_hash).1 bound.same_terms),
        (append-nil _ _).1 (
          (no_reason _ _).1 ((is_executed_iff contract.state).1 bound.is_final),
          (append-nil _ _).1 (
            (reason_if-nil _ _).1 ((not_parties-false _ _).1 (pc, pq)),
            (append-nil _ _).1 (
              (reason_if-nil _ _).1 d,
              (append-nil _ _).1 (
                (signature_reasons-nil contract party_a contract.signature_a).1
                    (bound.first, ea, bound.first_current),
                (append-nil _ _).1 (
                  (signature_reasons-nil contract party_b contract.signature_b).1
                      (bound.second, eb, bound.second_current),
                  both,
                ),
              ),
            ),
          ),
        ),
      ),
)

-- Whatever the escrow agreement and the contract: they are reported as bound exactly where the
-- escrow commits to the contract's terms, the contract is executed, the two different wallets that
-- the escrow names are the contract's two parties, and two signatures, of two different wallets
-- that are also the contract's two parties, are each of its version, terms and content.
pub verify_terms_binding-Bound :
    (escrow : EscrowAgreementAccount) (contract : CommerceAgreementAccount)
    → ((verify_terms_binding escrow contract).bound ≡ true) ↔ Bound escrow contract
unfolding verify_terms_binding
verify_terms_binding-Bound escrow contract = (
  λ h. (binding_reasons-nil escrow contract).0 ((length-nil _).0 h),
  λ b. (length-nil _).1 ((binding_reasons-nil escrow contract).1 b),
)
