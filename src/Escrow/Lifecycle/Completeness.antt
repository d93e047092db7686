-- ===== src/Escrow/Lifecycle/Completeness.antt =====
-- sdk/src/escrow/receipts.ts: the receipts of the history that is reported.
use ppv.Base.{
  ℕ, suc, ◌≤◌, ◌<◌, ◌+◌, ◌≡◌, refl, sym, ap, ◌∙◌, ◌↔◌, ◌⊎◌, inl, inr, Bool, true, false, Option,
  none, some, List, [], ◌∷◌, ◌++◌, arith, ◌==◌, ==_iff, nat_eq, Bool-cases, if◌then◌else◌, length,
}
use ppv.Base.Members.{In, In-append, In-select}
use ppv.Base.Result.{ok, >>=-eq-ok, or_throw}
use ppv.Base.Int.{ℤ, leb_ℤ}
use ppv.Base.Text.{Text}
use ppv.Base.Dict.{get, put, get-put, values}
use ppv.Escrow.Receipts.{PpvEscrowReceiptV1, ReceiptError, or_else}
use ppv.Escrow.Lifecycle.Chain.{is_annotation}
use ppv.Escrow.Lifecycle.Chain.Index.{Consistent, index_receipts-members}
use ppv.Escrow.Lifecycle.Placement.{
  Buckets, bucket_at, home_from, attach_all, interleave, with_annotations, sort_annotations,
}
use ppv.Escrow.Lifecycle.Sorting.{sort-In}
use ppv.Escrow.Lifecycle.Delivery.{annotations_of}
use ppv.Escrow.Lifecycle.Guarantees.{Rebuilt, reconstruct-Rebuilt, from_path, on_path}
use ppv.Escrow.Lifecycle.Reconstruct.{AgreementLifecycle, reconstruct_agreement_lifecycle}

-- A home is the index of a transition.
home_from-bound :
    (index : ℕ) (home : Option ℕ) (ts : List PpvEscrowReceiptV1) (slot : ℤ) {h : ℕ}
    → home_from index home ts slot ≡ some h
    → (home ≡ some h) ⊎ ((index ≤ h) × (h < index + length ts))
unfolding home_from
home_from-bound index home [] slot e = inl e
home_from-bound index home (t ∷ ts) slot {h} e = elim (Bool-cases (leb_ℤ t.slot slot)) [
  | inl q ↦
      let f : home_from (suc index) (some index) ts slot ≡ some h = rw q at e in
      elim (home_from-bound (suc index) (some index) ts slot f) [
        | inl p ↦ let r : index ≡ h = cc in inr (omega (arith, r), omega (arith, r))
        | inr b ↦ inr (omega (arith, b.0), omega (arith, b.1))
      ]
  | inr q ↦
      let f : home_from (suc index) home ts slot ≡ some h = rw q at e in
      elim (home_from-bound (suc index) home ts slot f) [
        | inl p ↦ inl p
        | inr b ↦ inr (omega (arith, b.0), omega (arith, b.1))
      ]
]

bucket_at-put :
    (h k : ℕ) (xs : List PpvEscrowReceiptV1) (b : Buckets)
    → bucket_at k (put h xs b) ≡ (if h == k then xs else bucket_at k b)
unfolding bucket_at
bucket_at-put h k xs b =
    ap (λ (o : Option (List PpvEscrowReceiptV1)). or_else o []) (get-put h k xs b) ∙ split (h == k)
  where
    split :
        (c : Bool)
        → or_else (if c then some xs else get k b) [] ≡ (if c then xs else or_else (get k b) [])
    split true = refl
    split false = refl

-- A bucket with an annotation pushed on it holds it, and what every bucket held before.
pushed :
    (h k : ℕ) (a r : PpvEscrowReceiptV1) (b : Buckets)
    → In r (bucket_at k (put h (bucket_at h b ++ a ∷ []) b))
      ↔ (In r (bucket_at k b) ⊎ ((k ≡ h) × (r ≡ a)))
pushed h k a r b = elim (Bool-cases (h == k)) [
  | inl q ↦
      let same : h ≡ k = (==_iff h k).0 q in
      let at_k = bucket_at-put h k (bucket_at h b ++ a ∷ []) b ∙ rw q refl in
      let members = In-append r (bucket_at h b) (a ∷ []) in
      let moved = ap (λ (x : ℕ). bucket_at x b) same in
      (
        λ i. elim (members.0 (ap_In at_k i)) [
          | inl j ↦ inl (ap_In moved j)
          | inr j ↦ elim j [ inl e ↦ inr (sym same, e) | inr n ↦ absurd n ]
        ],
        λ i.
            ap_In (sym at_k)
              (members.1 (elim i [ inl j ↦ inl (ap_In (sym moved) j) | inr e ↦ inr (inl (e.1)) ])),
      )
  | inr q ↦
      let at_k = bucket_at-put h k (bucket_at h b ++ a ∷ []) b ∙ rw q refl in
      (
        λ i. inl (ap_In at_k i),
        λ i. elim i [ inl j ↦ ap_In (sym at_k) j | inr e ↦ cc (q, (==_iff h k).1 (sym (e.0))) ],
      )
]
  where
    ap_In : {xs ys : List PpvEscrowReceiptV1} → xs ≡ ys → In r xs → In r ys
    ap_In e i = rw (← e) i

-- The buckets hold the annotations, each at the index of a transition, and what they held before.
attach_all-In :
    (ordered : List PpvEscrowReceiptV1) (b : Buckets) (rs : List PpvEscrowReceiptV1) {b' : Buckets}
    (r : PpvEscrowReceiptV1)
    → attach_all ordered b rs ≡ ok b'
    → ((k : ℕ) → In r (bucket_at k b') → In r (bucket_at k b) ⊎ In r rs)
      × ((k : ℕ) → In r (bucket_at k b) → In r (bucket_at k b'))
      × (In r rs → (k : ℕ) × (k < length ordered) × In r (bucket_at k b'))
unfolding attach_all
attach_all-In ordered b [] {b'} r e =
    let q : b ≡ b' = cc in (λ k i. inl (rw q i), λ k i. rw (← q) i, λ i. absurd i)
attach_all-In ordered b (a ∷ rs) r e =
    let (h, found, f) = >>=-eq-ok (or_throw (home_from 0 none ordered a.slot) _) _ e in
    let (back, keep, placed) = attach_all-In ordered (put h (bucket_at h b ++ a ∷ []) b) rs r f in
    (
      λ k i. elim (back k i) [
        | inl j ↦ elim ((pushed h k a r b).0 j) [ inl m ↦ inl m | inr m ↦ inr (inl (m.1)) ]
        | inr j ↦ inr (inr j)
      ],
      λ k i. keep k ((pushed h k a r b).1 (inl i)),
      λ i. elim i [
        | inl q ↦ (
          h,
          home_below _ (home_from 0 none ordered a.slot) refl found,
          keep h ((pushed h h a r b).1 (inr (refl, q))),
        )
        | inr j ↦ placed j
      ],
    )
  where
    home_below :
        {h : ℕ} (x : ReceiptError) (o : Option ℕ)
        → home_from 0 none ordered a.slot ≡ o
        → or_throw o x ≡ ok h
        → h < length ordered
    home_below x none p q = cc
    home_below {h} x (some k) p q =
        let same : k ≡ h = cc in
        elim (home_from-bound 0 none ordered a.slot p) [
          | inl n ↦ cc
          | inr m ↦ omega (arith, m.1, same)
        ]

interleave-In :
    (index : ℕ) (ts : List PpvEscrowReceiptV1) (b : Buckets) (r : PpvEscrowReceiptV1)
    → In r (interleave index ts b)
      ↔ (In r ts ⊎ ((k : ℕ) × (index ≤ k) × (k < index + length ts) × In r (bucket_at k b)))
unfolding interleave
interleave-In index [] b r =
    (λ i. absurd i, λ i. elim i [ inl n ↦ n | inr (k, l, u, j) ↦ absurd (below k l u) ])
  where
    below : (k : ℕ) → index ≤ k → k < index + 0 → ⊥
    below k l u = omega arith
interleave-In index (t ∷ ts) b r =
    let rest = interleave-In (suc index) ts b r in
    let members = In-append r (bucket_at index b) (interleave (suc index) ts b) in
    (
      λ i. elim i [
        | inl q ↦ inl (inl q)
        | inr j ↦ elim (members.0 j) [
          | inl m ↦ inr (index, omega arith, omega arith, m)
          | inr m ↦ elim (rest.0 m) [
            | inl n ↦ inl (inr n)
            | inr (k, l, u, n) ↦ inr (k, omega (arith, l), omega (arith, u), n)
          ]
        ]
      ],
      λ i. elim i [
        | inl j ↦ elim j [ inl q ↦ inl q | inr n ↦ inr (members.1 (inr (rest.1 (inl n)))) ]
        | inr (k, l, u, n) ↦ inr (
            members.1 (elim (Bool-cases (index == k)) [
              | inl q ↦ inl (at_index k ((==_iff index k).0 q) n)
              | inr q ↦ inr (rest.1 (inr (k, above k q l, omega (arith, u), n)))
            ]))
      ],
    )
  where
    at_index : (k : ℕ) → index ≡ k → In r (bucket_at k b) → In r (bucket_at index b)
    at_index k e i = rw e i

    above : (k : ℕ) → (index == k) ≡ false → index ≤ k → suc index ≤ k
    above k q l = ground (arith, ==_iff index k)

with_annotations-In :
    (ordered sorted : List PpvEscrowReceiptV1) {history : List PpvEscrowReceiptV1}
    (r : PpvEscrowReceiptV1)
    → with_annotations ordered sorted ≡ ok history
    → In r history ↔ (In r ordered ⊎ In r sorted)
unfolding with_annotations bucket_at get
with_annotations-In ordered sorted {history} r e =
    let (b, attached, f) = >>=-eq-ok (attach_all ordered [] sorted) _ e in
    let same : interleave 0 ordered b ≡ history = cc in
    let (back, keep, placed) = attach_all-In ordered [] sorted r attached in
    let woven = interleave-In 0 ordered b r in
    (
      λ i.
          let j : In r (interleave 0 ordered b) = rw same i in
          elim (woven.0 j) [
            | inl m ↦ inl m
            | inr (k, l, u, m) ↦ elim (back k m) [ inl n ↦ absurd n | inr n ↦ inr n ]
          ],
      λ i.
          let j : In r (interleave 0 ordered b) = woven.1 (elim i [
            | inl m ↦ inl m
            | inr m ↦ let (k, u, n) = placed m in inr (k, omega arith, omega (arith, u), n)
          ]) in
          rw (← same) j,
    )

module _ (compare : Text → Text → ℤ) where
  -- The annotations of the index are those of the receipts.
  annotations-In :
      (rs : List PpvEscrowReceiptV1) {l : AgreementLifecycle} (b : Rebuilt compare rs l)
      (r : PpvEscrowReceiptV1)
      → Consistent rs
      → In r (sort_annotations compare (annotations_of b.by_id))
        ↔ (In r rs × (is_annotation r ≡ true))
  annotations-In rs b r c =
      let sorted = sort-In compare r (annotations_of b.by_id) in
      let chosen = In-select r is_annotation (values b.by_id) in
      let members = index_receipts-members rs c b.indexed r in
      (
        λ i. let (j, t) = chosen.0 (sorted.0 i) in (members.1 j, t),
        λ (i, t). sorted.1 (chosen.1 (members.0 i, t)),
      )

  -- The history of an accepted lifecycle, from receipts that agree under each id, has exactly the
  -- receipts that were given: none is lost, and none is invented.
  pub reconstruct-members :
      (rs : List PpvEscrowReceiptV1) {l : AgreementLifecycle} (r : PpvEscrowReceiptV1)
      → Consistent rs
      → reconstruct_agreement_lifecycle compare rs ≡ ok l
      → In r l.receipts ↔ In r rs
  reconstruct-members rs r c e =
      let b = reconstruct-Rebuilt compare rs e in
      let placed = with_annotations-In (b.created ∷ b.path) _ r b.assembled.history in
      let sorted = annotations-In rs b r c in
      (
        λ i. elim (placed.0 i) [ inl j ↦ from_path compare rs b r c j | inr j ↦ (sorted.0 j).0 ],
        λ i. placed.1 (elim (Bool-cases (is_annotation r)) [
          | inl a ↦ inr (sorted.1 (i, a))
          | inr a ↦ inl (on_path compare rs b r c i a)
        ]),
      )
