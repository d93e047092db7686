-- ===== src/Escrow/Lifecycle/Termination.antt =====
-- sdk/src/escrow/receipts.ts: the errors with which `reconstructAgreementLifecycle` can end.
use ppv.Base.{
  nat_eq, list_eq, option_eq, ◌==◌, find?, ℕ, suc, ◌≡◌, ap, Bool, true, false, not, Option, none,
  some, List, [], ◌∷◌, ◌++◌, arith, select, length, if◌then◌else◌, find?, ◌+◌, ◌==◌, ◌&&◌,
}
use ppv.Base.Result.{Result, ok, err, ◌>>=◌, throw_if, or_throw, ◌>>◌}
use ppv.Base.Int.{ℤ}
use ppv.Base.Text.{Text}
use ppv.Base.Dict.{Dict, get, put}
use ppv.Escrow.States.{AgreementState}
use ppv.Escrow.Receipts.{
  PpvEscrowReceiptV1, ReceiptError, loop_limit, mixes_bigint, settlement_without_funding,
  settled_amount_mismatch, settled_and_refunded, refund_without_funding, refunded_amount_mismatch,
  or_else,
}
use ppv.Escrow.Lifecycle.Chain.{
  ById, Transitions, index_receipts, is_root, the_root, add_transition, transition_map, walk,
  no_orphan, chain, same_agreement, conflicts,
}
use ppv.Escrow.Lifecycle.Chain.Walking.{walk-ne-loop_limit}
use ppv.Escrow.Lifecycle.Placement.{Buckets, bucket_at, home_from, attach_all, with_annotations}
use ppv.Escrow.Lifecycle.Custody.{
  Custody, check_custody, assigned_seller, schedule_total, check_schedule, check_cited_proof,
  check_cited, proof_of, is_some, amount_of,
}
use ppv.Escrow.Lifecycle.Records.{
  truthy, ProofRecord, MilestoneRecord, decide_proof, decide_proofs, proof_records, step_milestone,
  step_milestones, milestone_records, is_decision,
}
use ppv.Escrow.Lifecycle.Reconstruct.{
  assemble, assemble_chain, reconstruct_unique, reconstruct_agreement_lifecycle,
}

-- The call does not end by running out of fuel.
abbrev Ends : {A : Type 0} → Result ReceiptError A → Type 0
Ends r = r ≡ err loop_limit → ⊥

Ends-bind :
    {A B : Type 0} (m : Result ReceiptError A) (f : A → Result ReceiptError B)
    → Ends m
    → ((a : A) → Ends (f a))
    → Ends (m >>= f)
Ends-bind (ok a) f h k e = k a e
Ends-bind (err x) f h k e = let q : x ≡ loop_limit = cc in h (ap err q)

throw_if-Ends : (b : Bool) (x : ReceiptError) → (x ≡ loop_limit → ⊥) → Ends (throw_if b x)
throw_if-Ends true x h e = let q : x ≡ loop_limit = cc in h q
throw_if-Ends false x h e = cc

throw_if->>-Ends :
    {B : Type 0} (b : Bool) (x : ReceiptError) (m : Result ReceiptError B)
    → (x ≡ loop_limit → ⊥)
    → Ends m
    → Ends (throw_if b x >> m)
throw_if->>-Ends b x m h k = Ends-bind (throw_if b x) (λ _. m) (throw_if-Ends b x h) (λ _. k)

or_throw-Ends :
    {A : Type 0} (o : Option A) (x : ReceiptError) → (x ≡ loop_limit → ⊥) → Ends (or_throw o x)
or_throw-Ends none x h e = let q : x ≡ loop_limit = cc in h q
or_throw-Ends (some a) x h e = cc

index_receipts-Ends : (d : ById) (rs : List PpvEscrowReceiptV1) → Ends (index_receipts d rs)
unfolding index_receipts
index_receipts-Ends d [] e = cc
index_receipts-Ends d (r ∷ rs) e =
    Ends-bind (throw_if (conflicts (get r.receipt_id d) r) _) _ (throw_if-Ends _ _ λ e. cc)
      (λ _. index_receipts-Ends (put r.receipt_id r d) rs) e

add_transition-Ends :
    (o : Option AgreementState) (r : PpvEscrowReceiptV1) (ts : Transitions)
    → Ends (add_transition o r ts)
unfolding add_transition
add_transition-Ends none r ts e = cc
add_transition-Ends (some s) r ts e = ground arith

transition_map-Ends :
    (ts : Transitions) (rs : List PpvEscrowReceiptV1) → Ends (transition_map ts rs)
unfolding transition_map
transition_map-Ends ts [] e = cc
transition_map-Ends ts (r ∷ rs) e =
    Ends-bind (add_transition r.previous_state r ts) _ (add_transition-Ends r.previous_state r ts)
      (λ next. transition_map-Ends next rs) e

the_root-Ends : (rs : List PpvEscrowReceiptV1) → Ends (the_root rs)
unfolding the_root
the_root-Ends [] e = cc
the_root-Ends (r ∷ []) e = cc
the_root-Ends (r ∷ s ∷ rs) e = cc

no_orphan-Ends : (ts : Transitions) → Ends (no_orphan ts)
unfolding no_orphan
no_orphan-Ends [] e = cc
no_orphan-Ends (t ∷ ts) e = cc

chain-Ends : (rs : List PpvEscrowReceiptV1) → Ends (chain rs)
unfolding chain
chain-Ends rs = Ends-bind (throw_if (not (same_agreement rs)) _) _ (throw_if-Ends _ _ λ e. cc) λ _.
    Ends-bind (the_root (select is_root rs)) _ (the_root-Ends (select is_root rs)) λ c.
      Ends-bind (transition_map [] rs) _ (transition_map-Ends [] rs) λ ts.
        Ends-bind (walk (suc (length ts)) ts c (c.new_state ∷ [])) _
          (walk-ne-loop_limit (suc (length ts)) ts c (c.new_state ∷ []) (omega arith))
          λ w. Ends-bind (no_orphan w.left) _ (no_orphan-Ends w.left) (λ _ e. cc)

attach_all-Ends :
    (ordered : List PpvEscrowReceiptV1) (b : Buckets) (rs : List PpvEscrowReceiptV1)
    → Ends (attach_all ordered b rs)
unfolding attach_all
attach_all-Ends ordered b [] e = cc
attach_all-Ends ordered b (r ∷ rs) e =
    Ends-bind (or_throw (home_from 0 none ordered r.slot) _) _ (or_throw-Ends _ _ λ e. cc)
      (λ home. attach_all-Ends ordered (put home (bucket_at home b ++ r ∷ []) b) rs) e

check_custody-Ends : (c : Custody) → Ends (check_custody c)
unfolding check_custody
check_custody-Ends c =
    throw_if->>-Ends (is_some c.settled_total && not (is_some c.funded)) settlement_without_funding
      _ (λ e. cc)
      (throw_if->>-Ends
        (is_some c.settled && (is_some c.funded && not (c.settled_total == amount_of c.funded)))
        settled_amount_mismatch _ (λ e. cc)
        (throw_if->>-Ends (is_some c.settled && is_some c.refunded) settled_and_refunded _ (λ e. cc)
          (throw_if->>-Ends (is_some c.refunded_total && not (is_some c.funded))
            refund_without_funding _ (λ e. cc)
            (throw_if-Ends
              (is_some c.refunded
                && (is_some c.funded
                    && not (
                        some (or_else c.refunded_total 0 + or_else c.settled_total 0)
                        == amount_of c.funded)))
              refunded_amount_mismatch (λ e. cc)))))

assigned_seller-Ends : (t : Text) (rs : List PpvEscrowReceiptV1) → Ends (assigned_seller t rs)
unfolding assigned_seller
assigned_seller-Ends t [] e = cc
assigned_seller-Ends t (r ∷ []) e = cc
assigned_seller-Ends t (r ∷ s ∷ rs) e = cc

decide_proof-Ends :
    (d : Dict (Option Text) ProofRecord) (r : PpvEscrowReceiptV1) (o : Option ProofRecord)
    → Ends (decide_proof d r o)
unfolding decide_proof
decide_proof-Ends d r none e = cc
decide_proof-Ends d r (some p) e = ground arith

decide_proofs-Ends :
    (d : Dict (Option Text) ProofRecord) (rs : List PpvEscrowReceiptV1) → Ends (decide_proofs d rs)
unfolding decide_proofs
decide_proofs-Ends d [] e = cc
decide_proofs-Ends d (r ∷ rs) e =
    Ends-bind (if is_decision r.action then decide_proof d r (get r.proof d) else ok d) _
      (decided (is_decision r.action)) (λ next. decide_proofs-Ends next rs) e
  where
    decided : (b : Bool) → Ends (if b then decide_proof d r (get r.proof d) else ok d)
    decided true e = decide_proof-Ends d r (get r.proof d) e
    decided false e = cc

step_milestone-Ends :
    (d : Dict (Option Text) MilestoneRecord) (r : PpvEscrowReceiptV1) (o : Option MilestoneRecord)
    → Ends (step_milestone d r o)
unfolding step_milestone
step_milestone-Ends d r none e = ground arith
step_milestone-Ends d r (some m) e = cc

step_milestones-Ends :
    (d : Dict (Option Text) MilestoneRecord) (rs : List PpvEscrowReceiptV1)
    → Ends (step_milestones d rs)
unfolding step_milestones
step_milestones-Ends d [] e = cc
step_milestones-Ends d (r ∷ rs) e =
    Ends-bind (step_milestone d r _) _ (step_milestone-Ends d r _)
      (λ next. step_milestones-Ends next rs) e

schedule_total-Ends : (n : ℕ) (ms : List MilestoneRecord) → Ends (schedule_total n ms)
unfolding schedule_total
schedule_total-Ends n [] e = cc
schedule_total-Ends n (m ∷ ms) e =
    Ends-bind (or_throw m.amount mixes_bigint) (λ a. schedule_total (n + a) ms)
      (or_throw-Ends m.amount mixes_bigint λ e. cc) (λ a. schedule_total-Ends (n + a) ms)
      (split m.amount e)
  where
    split :
        (o : Option ℕ)
        → (elim o [ none ↦ err mixes_bigint | some a ↦ schedule_total (n + a) ms ]) ≡ err loop_limit
        → (or_throw o mixes_bigint >>= λ a. schedule_total (n + a) ms) ≡ err loop_limit
    split none q = q
    split (some a) q = q

check_schedule-Ends : (c : Custody) (ms : List MilestoneRecord) → Ends (check_schedule c ms)
unfolding check_schedule
check_schedule-Ends c ms =
    Ends-bind (schedule_total 0 ms) _ (schedule_total-Ends 0 ms) (λ n. throw_if-Ends _ _ λ e. cc)

check_cited-Ends : (o : Option ProofRecord) → Ends (check_cited o)
check_cited-Ends none e = cc
check_cited-Ends (some p) e = throw_if-Ends _ _ (λ e. cc) e

check_cited_proof-Ends : (c : Custody) (ps : List ProofRecord) → Ends (check_cited_proof c ps)
unfolding check_cited_proof
check_cited_proof-Ends c ps = cited (truthy (proof_of c.settled))
  where
    cited :
        (b : Bool)
        → Ends (if b then check_cited (find? (λ p. p.proof == proof_of c.settled) ps) else ok tt)
    cited true e = check_cited-Ends _ e
    cited false e = cc

module _ (locale_compare : Text → Text → ℤ) where
  assemble-Ends :
      (c : PpvEscrowReceiptV1) (path annotations sorted : List PpvEscrowReceiptV1)
      → Ends (assemble locale_compare c path annotations sorted)
  unfolding assemble with_annotations proof_records milestone_records
  assemble-Ends c path annotations sorted =
      Ends-bind (attach_all (c ∷ path) [] sorted >>= _) _
        (Ends-bind (attach_all (c ∷ path) [] sorted) _ (attach_all-Ends (c ∷ path) [] sorted)
          (λ b e. cc))
        λ history. Ends-bind (check_custody _) _ (check_custody-Ends _) λ _.
          Ends-bind (assigned_seller c.seller _) _ (assigned_seller-Ends c.seller _) λ seller.
            Ends-bind (decide_proofs _ sorted >>= _) _
              (Ends-bind (decide_proofs _ sorted) _ (decide_proofs-Ends _ sorted) (λ b e. cc))
              λ proofs.
                Ends-bind (step_milestones _ sorted >>= _) _
                  (Ends-bind (step_milestones _ sorted) _ (step_milestones-Ends _ sorted)
                    (λ b e. cc))
                  λ ms. Ends-bind (check_schedule _ ms) _ (check_schedule-Ends _ ms) λ _.
                    Ends-bind (check_cited_proof _ proofs) _ (check_cited_proof-Ends _ proofs)
                      (λ _ e. cc)

  assemble_chain-Ends :
      (annotations ordered : List PpvEscrowReceiptV1)
      → Ends (assemble_chain locale_compare annotations ordered)
  unfolding assemble_chain
  assemble_chain-Ends annotations [] e = cc
  assemble_chain-Ends annotations (c ∷ path) e = assemble-Ends c path annotations _ e

  -- Whatever the receipts, the reconstruction ends with a history or with one of the source's
  -- errors: the number of steps that the model allows the walk is never used up.
  pub reconstruct-ne-loop_limit :
      (rs : List PpvEscrowReceiptV1)
      → reconstruct_agreement_lifecycle locale_compare rs ≡ err loop_limit
      → ⊥
  unfolding reconstruct_agreement_lifecycle reconstruct_unique
  reconstruct-ne-loop_limit [] e = cc
  reconstruct-ne-loop_limit (r ∷ rs) e =
      Ends-bind (index_receipts [] (r ∷ rs)) _ (index_receipts-Ends [] (r ∷ rs))
        (λ d. Ends-bind (chain _) _ (chain-Ends _) (λ ordered. assemble_chain-Ends _ ordered)) e
