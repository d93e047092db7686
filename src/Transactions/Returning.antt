-- ===== src/Transactions/Returning.antt =====
-- scripts/lib/transaction-lifecycle.mjs: what a sender that returned has submitted and looked at.
use ppv.Base.{
  list_eq, ℕ, suc, ◌+◌, ◌≡◌, ◌⊎◌, inl, inr, refl, Bool, true, false, Option, some, List, subst,
}
use ppv.Base.Result.{Result, ok, >>=-eq-ok}
use ppv.Base.Members.{In}
use ppv.Base.Text.{Text}
use ppv.Transactions.Errors.{ThrownError, Failure}
use ppv.Transactions.Confirming.{
  Looks, SignatureStatus, Resolution, look, is_settled, resolution, confirm_by_signature,
}
use ppv.Transactions.Sending.{
  Endpoint, Prepared, Submission, submit, confirmed, submission, also_sent, fail,
}
use ppv.Transactions.Rules.{submit_rule, poll_rule}

-- The look that a resolution stands for.
pub record Seen (looks : Looks) (r : Resolution) : Type 0 where
  pub at : ℕ
  pub last : Option SignatureStatus
  pub late : Bool
  pub looked : look looks at ≡ ok last
  pub is_resolution : resolution last late ≡ r
  pub settled_in_time : late ≡ false → is_settled last ≡ true

pub confirm_by_signature-Seen :
    (looks : Looks) (clock : ℕ → ℕ) (timeout : ℕ) {r : Resolution}
    → confirm_by_signature looks clock timeout ≡ ok r
    → Seen looks r
unfolding confirm_by_signature
confirm_by_signature-Seen looks clock timeout {r} =
    poll_rule looks clock (clock 0 + timeout) (λ f n o. o ≡ ok r → Seen looks r)
      (record {
        stopped = λ n e. absurd (cc);
        unseen = λ f n x e k. absurd (cc);
        settled = λ f n last e s k. record {
          at = n;
          last = last;
          late = false;
          looked = e;
          is_resolution = cc;
          settled_in_time = λ _. s;
        };
        late = λ f n last e s d k. record {
          at = n;
          last = last;
          late = true;
          looked = e;
          is_resolution = cc;
          settled_in_time = λ h. cc;
        };
        again = λ f n last o e s d go k. go k;
      })
      (suc timeout) 0

-- A status of the signature that the node gave.
pub record OnChain (endpoint : Endpoint) (signature : Text) (s : SignatureStatus) : Type 0 where
  pub at : ℕ
  pub looked : look (endpoint.statuses signature) at ≡ ok (some s)

pub look-OnChain :
    (endpoint : Endpoint) {sent got : Text} {st : SignatureStatus}
    → sent ≡ got
    → (n : ℕ) → look (endpoint.statuses sent) n ≡ ok (some st)
    → OnChain endpoint got st
look-OnChain endpoint {sent} {got} {st} same n e = record {
  at = n;
  looked = subst (λ g. look (endpoint.statuses g) n ≡ ok (some st)) same e;
}

abbrev pub Submitted : List Submission → Text → Type 0
Submitted sent signature = (s : Submission) × In s sent × (s.sent_signature ≡ signature)

module _ {ℓ} {A : Type ℓ} (endpoint : Endpoint) (skip : Bool) (max : ℕ)
    (accepted : Prepared → Result Failure A)
    (failed : ThrownError → Prepared → Result Failure A) where
  -- What returned: the handler of an accepted submission, or that of a failed one.
  abbrev pub Returned : A → List Submission → Type ℓ
  Returned a sent =
      (p : Prepared) × Submitted sent p.signature
      × ((accepted p ≡ ok a) ⊎ ((e : ThrownError) × (failed e p ≡ ok a)))

  pub submit-Returned :
      (fuel n : ℕ) (a : A)
      → (submit endpoint skip max accepted failed fuel n).outcome ≡ ok a
      → Returned a (submit endpoint skip max accepted failed fuel n).submissions
  submit-Returned fuel n a =
      submit_rule endpoint skip max accepted failed
        (λ f m r. r.outcome ≡ ok a → Returned a r.submissions)
        (record {
          stopped = λ m h. absurd (cc);
          unprepared = λ f m e s h. absurd (cc);
          taken = λ f m p s h.
              (p, (submission endpoint m skip p, inl refl, unfold submission in refl), inl h);
          given_up = λ f m p h. absurd (unfold fail in cc);
          again = λ f m p e rest s x l go h.
              let (q, (t, i, same), ways) = go (unfold also_sent in h) in
              (q, (t, unfold also_sent in inr i, same), ways);
          broken = λ f m p e s x h.
              (p, (submission endpoint m skip p, inl refl, unfold submission in refl), inr (e, h));
        })
        fuel n

pub confirmed-Seen {ℓ} :
    {A : Type ℓ} (endpoint : Endpoint) (timeout : ℕ)
    (next : Prepared → Resolution → Result Failure A) (p : Prepared) (a : A)
    → confirmed endpoint timeout next p ≡ ok a
    → (r : Resolution) × Seen (endpoint.statuses p.signature) r × (next p r ≡ ok a)
unfolding confirmed
confirmed-Seen endpoint timeout next p a h =
    let (r, c, k) =
      >>=-eq-ok (confirm_by_signature (endpoint.statuses p.signature) endpoint.clock timeout)
        (next p) h in
    (r, confirm_by_signature-Seen (endpoint.statuses p.signature) endpoint.clock timeout c, k)
