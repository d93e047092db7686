-- ===== src/Escrow/Lifecycle/Sorting.antt =====
-- sdk/src/escrow/receipts.ts: annotations sorted by chain coordinate.
use ppv.Escrow.Lifecycle.Keys.{IsCollation, ReceiptIds, Le, Le-trans, Le-antisym, Le-total}
use ppv.Base.{◌≡◌, refl, sym, ap, ◌∙◌, ◌↔◌, ◌⊎◌, inl, inr, List, [], ◌∷◌, arith, Bool-cases}
use ppv.Base.Members.{In, SameMembers}
use ppv.Base.Int.{ℤ, pos, leb_ℤ}
use ppv.Base.Text.{Text}
use ppv.Escrow.Receipts.{PpvEscrowReceiptV1}
use ppv.Escrow.Lifecycle.Chain.Index.{Consistent}
use ppv.Escrow.Lifecycle.Chain.Order.{AllDistinct}
use ppv.Escrow.Lifecycle.Placement.{compare_annotations, insert_annotation, sort_annotations}

module _ (compare : Text → Text → ℤ) where
  insert-In :
      (a x : PpvEscrowReceiptV1) (xs : List PpvEscrowReceiptV1)
      → In x (insert_annotation compare a xs) ↔ ((x ≡ a) ⊎ In x xs)
  unfolding insert_annotation
  insert-In a x [] = ground arith
  insert-In a x (y ∷ ys) = ground (arith, insert-In a x ys)

  pub sort-In :
      (x : PpvEscrowReceiptV1) (xs : List PpvEscrowReceiptV1)
      → In x (sort_annotations compare xs) ↔ In x xs
  unfolding sort_annotations
  sort-In x [] = (λ i. i, λ i. i)
  sort-In x (y ∷ ys) =
      let (there, back) = insert-In y x (sort_annotations compare ys) in
      let ih = sort-In x ys in
      (
        λ i. elim (there i) [ inl q ↦ inl q | inr j ↦ inr (ih.0 j) ],
        λ i. back (elim i [ inl q ↦ inl q | inr j ↦ inr (ih.1 j) ]),
      )

module _ (compare : Text → Text → ℤ) (law : IsCollation compare) where
  abbrev pub Sorted : List PpvEscrowReceiptV1 → Type 0
  Sorted [] = Unit
  Sorted (a ∷ rest) = ((b : PpvEscrowReceiptV1) → In b rest → Le compare law a b) × Sorted rest

  insert-Sorted :
      (a : PpvEscrowReceiptV1) (xs : List PpvEscrowReceiptV1)
      → Sorted xs
      → Sorted (insert_annotation compare a xs)
  unfolding insert_annotation
  insert-Sorted a [] h = (λ b i. absurd i, tt)
  insert-Sorted a (y ∷ ys) h = elim (Bool-cases (leb_ℤ (compare_annotations compare a y) (pos 0))) [
    | inl e ↦ rw e (
      λ b i. elim i [
        | inl q ↦
            ap (λ (t : PpvEscrowReceiptV1). leb_ℤ (compare_annotations compare a t) (pos 0)) q ∙ e
        | inr j ↦ Le-trans compare law a y b e (h.0 b j)
      ],
      h,
    )
    | inr e ↦
        let below : Le compare law y a = elim (Le-total compare law a y) [
          | inl k ↦ absurd (cc)
          | inr k ↦ k
        ] in
        rw e (
          λ b i. elim ((insert-In compare a b ys).0 i) [
            | inl q ↦
                ap (λ (t : PpvEscrowReceiptV1). leb_ℤ (compare_annotations compare y t) (pos 0)) q
                ∙ below
            | inr j ↦ h.0 b j
          ],
          insert-Sorted a ys h.1,
        )
  ]

  insert-AllDistinct :
      (a : PpvEscrowReceiptV1) (xs : List PpvEscrowReceiptV1)
      → ¬ In a xs
      → AllDistinct xs
      → AllDistinct (insert_annotation compare a xs)
  unfolding insert_annotation
  insert-AllDistinct a [] n d = (n, d)
  insert-AllDistinct a (y ∷ ys) n d =
      elim (Bool-cases (leb_ℤ (compare_annotations compare a y) (pos 0))) [
        | inl e ↦ rw e (n, d)
        | inr e ↦ rw e (
          λ i. elim ((insert-In compare a y ys).0 i) [ inl q ↦ n (inl (sym q)) | inr j ↦ d.0 j ],
          insert-AllDistinct a ys (λ i. n (inr i)) d.1,
        )
      ]

  pub sort-Sorted : (xs : List PpvEscrowReceiptV1) → Sorted (sort_annotations compare xs)
  unfolding sort_annotations
  sort-Sorted [] = tt
  sort-Sorted (x ∷ xs) = insert-Sorted x (sort_annotations compare xs) (sort-Sorted xs)

  pub sort-AllDistinct :
      (xs : List PpvEscrowReceiptV1) → AllDistinct xs → AllDistinct (sort_annotations compare xs)
  unfolding sort_annotations
  sort-AllDistinct [] d = tt
  sort-AllDistinct (x ∷ xs) d =
      insert-AllDistinct x (sort_annotations compare xs) (λ i. d.0 ((sort-In compare x xs).0 i))
        (sort-AllDistinct xs d.1)

  tail_same :
      (x : PpvEscrowReceiptV1) (xs ys : List PpvEscrowReceiptV1)
      → ¬ In x xs
      → ¬ In x ys
      → SameMembers (x ∷ xs) (x ∷ ys)
      → SameMembers xs ys
  tail_same x xs ys n m h a = (
    λ i. elim ((h a).0 (inr i)) [ inl q ↦ absurd (n (subst_In xs q i)) | inr j ↦ j ],
    λ i. elim ((h a).1 (inr i)) [ inl q ↦ absurd (m (subst_In ys q i)) | inr j ↦ j ],
  )
    where
      subst_In : (l : List PpvEscrowReceiptV1) → a ≡ x → In a l → In x l
      subst_In l q i = rw (← q) i

  -- Two sorted lists of the same receipts are one list.
  Sorted-unique :
      (xs ys : List PpvEscrowReceiptV1)
      → Consistent xs
      → AllDistinct xs
      → AllDistinct ys
      → Sorted xs
      → Sorted ys
      → SameMembers xs ys
      → ReceiptIds xs
      → xs ≡ ys
  Sorted-unique [] [] c d e s t h m = refl
  Sorted-unique [] (y ∷ ys) c d e s t h m = absurd ((h y).1 (inl refl))
  Sorted-unique (x ∷ xs) [] c d e s t h m = absurd ((h x).0 (inl refl))
  Sorted-unique (x ∷ xs) (y ∷ ys) c d e s t h m =
      let same : x ≡ y = heads in
      let rest =
        Sorted-unique xs ys (λ a b i j. c a b (inr i) (inr j)) d.1 e.1 s.1 t.1
          (tail_same x xs ys d.0 (rw same e.0) (rw (← same) at h)) (λ r i. m r (inr i)) in
      cc
    where
      heads : x ≡ y
      heads = elim ((h x).0 (inl refl)) [
        | inl q ↦ q
        | inr i ↦ elim ((h y).1 (inl refl)) [
          | inl q ↦ sym q
          | inr j ↦
              c x y (inl refl) (inr j)
                (Le-antisym compare law x y (m x (inl refl)) (m y (inr j)) (s.0 y j) (t.0 x i))
        ]
      ]

  -- However the annotations are listed, sorted they are one list.
  pub sort-SameMembers :
      (xs ys : List PpvEscrowReceiptV1)
      → Consistent xs
      → AllDistinct xs
      → AllDistinct ys
      → SameMembers xs ys
      → ReceiptIds xs
      → sort_annotations compare xs ≡ sort_annotations compare ys
  sort-SameMembers xs ys c d e h m =
      Sorted-unique (sort_annotations compare xs) (sort_annotations compare ys)
        (λ a b i j. c a b ((sort-In compare a xs).0 i) ((sort-In compare b xs).0 j))
        (sort-AllDistinct xs d) (sort-AllDistinct ys e) (sort-Sorted xs) (sort-Sorted ys)
        (λ a. (
          λ i. (sort-In compare a ys).1 ((h a).0 ((sort-In compare a xs).0 i)),
          λ i. (sort-In compare a xs).1 ((h a).1 ((sort-In compare a ys).0 i)),
        ))
        (λ r i. m r ((sort-In compare r xs).0 i))
