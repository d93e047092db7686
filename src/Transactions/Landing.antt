-- ===== src/Transactions/Landing.antt =====
-- scripts/lib/transaction-lifecycle.mjs `sendExpectingSuccess`: what a success has seen on the chain.
use ppv.Base.{
  ==_iff, ◌==◌, list_eq, ℕ, suc, ◌≡◌, ◌⊎◌, inl, inr, refl, sym, ap, ◌∙◌, Bool, true, false, Option,
  none, some, List, arith, ◌||◌, subst, Bool-cases,
}
use ppv.Base.Result.{ok}
use ppv.Base.Text.{Text, codes}
use ppv.Transactions.Errors.{ThrownError, is_failure}
use ppv.Transactions.Confirming.{
  SignatureStatus, is_settled, has_landed, Confirmations, absent, counted, resolution,
  Confirmations, is_accepted, counted, rooted,
}
use ppv.Transactions.Sending.{
  Endpoint, Prepared, Submission, Success, confirmed, fail, success, send_expecting_success,
  expect_success, resolve_ambiguity,
}
use ppv.Transactions.Returning.{OnChain, look-OnChain, Submitted, submit-Returned, confirmed-Seen}

-- A status says that it is confirmed or finalized, or, where it has no level, that no
-- confirmations are left to come.
pub data IsConfirmed : Option Text → Confirmations → Type 0 where
  at_confirmed : (c : Confirmations) → IsConfirmed (some (codes "confirmed")) c
  at_finalized : (c : Confirmations) → IsConfirmed (some (codes "finalized")) c
  at_root : IsConfirmed none rooted

is_accepted-IsConfirmed :
    (level : Option Text) (c : Confirmations) → is_accepted level c ≡ true → IsConfirmed level c
unfolding is_accepted
is_accepted-IsConfirmed none absent h = absurd (cc)
is_accepted-IsConfirmed none rooted h = at_root
is_accepted-IsConfirmed none (counted n) h = absurd (cc)
is_accepted-IsConfirmed (some level) c h = elim (Bool-cases (codes "confirmed" == level)) [
  | inl e ↦
      subst (λ l. IsConfirmed (some l) c) ((==_iff (codes "confirmed") level).0 e) (at_confirmed c)
  | inr e ↦ elim (Bool-cases (codes "finalized" == level)) [
    | inl f ↦
        subst (λ l. IsConfirmed (some l) c) ((==_iff (codes "finalized") level).0 f)
          (at_finalized c)
    | inr f ↦ absurd (neither (codes "confirmed" == level) (codes "finalized" == level) e f h)
  ]
]
  where
    neither : (a b : Bool) → a ≡ false → b ≡ false → (a || (b || false)) ≡ true → ⊥
    neither a b x y z = ground arith

-- The chain status that a success stands for.
pub record Landed (endpoint : Endpoint) (s : Success) (sent : List Submission) : Type 0 where
  pub submitted : Submitted sent s.signature
  pub status : SignatureStatus
  pub on_chain : OnChain endpoint s.signature status
  pub has_no_error : is_failure status.status_err ≡ false
  pub landed :
      (s.resolved_after_ambiguity ≡ true)
      ⊎ IsConfirmed status.confirmation_status status.confirmations

settled_landed :
    (st : SignatureStatus)
    → is_settled (some st) ≡ true
    → is_failure st.status_err ≡ false
    → IsConfirmed st.confirmation_status st.confirmations
unfolding is_settled has_landed
settled_landed st h k =
    is_accepted-IsConfirmed st.confirmation_status st.confirmations (
      or_false (is_accepted st.confirmation_status st.confirmations) (is_failure st.status_err) h k)
  where
    or_false : (a b : Bool) → (a || b) ≡ true → b ≡ false → a ≡ true
    or_false a b x y = ground arith

expect_success-lem :
    (p : Prepared) (st : SignatureStatus) (late : Bool) (s : Success)
    → expect_success p (resolution (some st) late) ≡ ok s
    → (p.signature ≡ s.signature) × (is_failure st.status_err ≡ false) × (late ≡ false)
unfolding expect_success resolution fail success
expect_success-lem p st late s h = ground arith

expect_success-found :
    (p : Prepared) (last : Option SignatureStatus) (late : Bool) (s : Success)
    → expect_success p (resolution last late) ≡ ok s
    → (st : SignatureStatus) × (last ≡ some st)
unfolding expect_success resolution fail
expect_success-found p none late s h = absurd (cc)
expect_success-found p (some st) late s h = (st, refl)

resolve_ambiguity-lem :
    (e : ThrownError) (p : Prepared) (st : SignatureStatus) (late : Bool) (s : Success)
    → resolve_ambiguity e p (resolution (some st) late) ≡ ok s
    → (p.signature ≡ s.signature)
      × (is_failure st.status_err ≡ false)
      × (s.resolved_after_ambiguity ≡ true)
unfolding resolve_ambiguity resolution fail success
resolve_ambiguity-lem e p st late s h = ground arith

resolve_ambiguity-found :
    (e : ThrownError) (p : Prepared) (last : Option SignatureStatus) (late : Bool) (s : Success)
    → resolve_ambiguity e p (resolution last late) ≡ ok s
    → (st : SignatureStatus) × (last ≡ some st)
unfolding resolve_ambiguity resolution fail
resolve_ambiguity-found e p none late s h = absurd (cc)
resolve_ambiguity-found e p (some st) late s h = (st, refl)

-- A success that `sendExpectingSuccess` returns is of a signature that it submitted and that the
-- node gave a status with no error of; where the success was not resolved after an ambiguity, the
-- status is confirmed or finalized.
pub send_expecting_success-Landed :
    (endpoint : Endpoint) (max timeout : ℕ) (s : Success)
    → (send_expecting_success endpoint max timeout).outcome ≡ ok s
    → Landed endpoint s (send_expecting_success endpoint max timeout).submissions
unfolding send_expecting_success
send_expecting_success-Landed endpoint max timeout s h =
    let (p, sent, ways) =
      submit-Returned endpoint false max (confirmed endpoint timeout expect_success)
        (λ e. confirmed endpoint timeout (resolve_ambiguity e)) (suc max) 0 s h in
    elim ways [
      | inl k ↦
          let (r, seen, t) = confirmed-Seen endpoint timeout expect_success p s k in
          let t' = subst (λ q. expect_success p q ≡ ok s) (sym seen.is_resolution) t in
          let (st, is_last) = expect_success-found p seen.last seen.late s t' in
          let (same, no_error, in_time) =
            expect_success-lem p st seen.late s
              (subst (λ o. expect_success p (resolution o seen.late) ≡ ok s) is_last t') in
          record {
            submitted = subst (Submitted _) same sent;
            status = st;
            on_chain = look-OnChain endpoint same (seen.at) (seen.looked ∙ ap ok is_last);
            has_no_error = no_error;
            landed = inr (
                settled_landed st (ap is_settled (sym is_last) ∙ seen.settled_in_time in_time)
                  no_error);
          }
      | inr (e, k) ↦
          let (r, seen, t) = confirmed-Seen endpoint timeout (resolve_ambiguity e) p s k in
          let t' = subst (λ q. resolve_ambiguity e p q ≡ ok s) (sym seen.is_resolution) t in
          let (st, is_last) = resolve_ambiguity-found e p seen.last seen.late s t' in
          let (same, no_error, ambiguous) =
            resolve_ambiguity-lem e p st seen.late s
              (subst (λ o. resolve_ambiguity e p (resolution o seen.late) ≡ ok s) is_last t') in
          record {
            submitted = subst (Submitted _) same sent;
            status = st;
            on_chain = look-OnChain endpoint same (seen.at) (seen.looked ∙ ap ok is_last);
            has_no_error = no_error;
            landed = inl ambiguous;
          }
    ]
