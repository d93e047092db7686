-- ===== src/Escrow/Lifecycle/Placement.antt =====
-- sdk/src/escrow/receipts.ts: annotations sorted by chain coordinate and placed behind the last
-- transition that had happened. `String.localeCompare` is the platform's collation, so it is the
-- parameter `locale_compare`: not positive exactly when the first text does not come later.
use ppv.Base.{ℕ, suc, Option, none, some, List, [], ◌∷◌, ◌++◌, ◌==◌, nat_eq, if◌then◌else◌}
use ppv.Base.Result.{Result, ok, ◌>>=◌, or_throw}
use ppv.Base.Int.{ℤ, pos, negsuc, ◌-ℤ◌, leb_ℤ, int_eq}
use ppv.Base.Text.{Text}
use ppv.Base.Dict.{Dict, get, put}
use ppv.Escrow.Receipts.{PpvEscrowReceiptV1, ReceiptError, before_agreement_existed, or_else}

-- `a || b` on numbers.
abbrev pub first_nonzero : ℤ → ℤ → ℤ
first_nonzero a b = if a == pos 0 then b else a

module _ (locale_compare : Text → Text → ℤ) where
  unfoldable pub compare_annotations : PpvEscrowReceiptV1 → PpvEscrowReceiptV1 → ℤ
  compare_annotations a b = first_nonzero (a.slot -ℤ b.slot) (
      first_nonzero (a.instruction_index -ℤ b.instruction_index) (
        first_nonzero
          (or_else a.inner_instruction_index (negsuc 0)
            -ℤ or_else b.inner_instruction_index (negsuc 0))
          (locale_compare a.receipt_id b.receipt_id)))

  -- `Array.prototype.sort` is stable.
  unfoldable pub insert_annotation :
      PpvEscrowReceiptV1 → List PpvEscrowReceiptV1 → List PpvEscrowReceiptV1
  insert_annotation a [] = a ∷ []
  insert_annotation a (x ∷ xs) =
      if leb_ℤ (compare_annotations a x) (pos 0) then a ∷ x ∷ xs else x ∷ insert_annotation a xs

  unfoldable pub sort_annotations : List PpvEscrowReceiptV1 → List PpvEscrowReceiptV1
  unfolding insert_annotation
  sort_annotations [] = []
  sort_annotations (a ∷ rest) = insert_annotation a (sort_annotations rest)

-- `ordered.forEach((transition, index) => { if (transition.slot <= annotation.slot) home = index; })`.
unfoldable pub home_from : ℕ → Option ℕ → List PpvEscrowReceiptV1 → ℤ → Option ℕ
home_from index home [] slot = home
home_from index home (t ∷ ts) slot =
    home_from (suc index) (if leb_ℤ t.slot slot then some index else home) ts slot

-- The annotations of each transition, by its index.
abbrev pub Buckets : Type 0
Buckets = Dict ℕ (List PpvEscrowReceiptV1)

unfoldable pub bucket_at : ℕ → Buckets → List PpvEscrowReceiptV1
bucket_at index buckets = or_else (get index buckets) []

unfoldable pub attach_all :
    List PpvEscrowReceiptV1 → Buckets → List PpvEscrowReceiptV1 → Result ReceiptError Buckets
unfolding home_from bucket_at
attach_all ordered buckets [] = ok buckets
attach_all ordered buckets (a ∷ rest) = do
  home ← or_throw (home_from 0 none ordered a.slot) (before_agreement_existed a.action)
  attach_all ordered (put home (bucket_at home buckets ++ a ∷ []) buckets) rest

unfoldable pub interleave : ℕ → List PpvEscrowReceiptV1 → Buckets → List PpvEscrowReceiptV1
unfolding bucket_at
interleave index [] buckets = []
interleave index (t ∷ ts) buckets =
    t ∷ (bucket_at index buckets ++ interleave (suc index) ts buckets)

-- Transitions in chain order, with annotations placed where they landed.
unfoldable pub with_annotations :
    List PpvEscrowReceiptV1
    → List PpvEscrowReceiptV1
    → Result ReceiptError (List PpvEscrowReceiptV1)
unfolding attach_all interleave
with_annotations ordered sorted = do
  buckets ← attach_all ordered [] sorted
  ok (interleave 0 ordered buckets)
