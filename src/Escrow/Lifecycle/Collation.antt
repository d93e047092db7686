-- ===== src/Escrow/Lifecycle/Collation.antt =====
-- A collation for the histories of Scenarios: texts compared by code unit, which orders the ASCII
-- receipt ids totally.
use ppv.Base.{
  [], ◌∷◌, ◌⊎◌, inl, inr, refl, ◌≡◌, true, arith, ltb, nat_beq, if◌then◌else◌, ◌≡◌, true, ◌⊎◌, inl,
  ◌∷◌, inr,
}
use ppv.Base.Int.{ℤ, pos, negsuc, leb_ℤ}
use ppv.Base.Text.{Text}
use ppv.Escrow.Lifecycle.Keys.{IsCollation}

abbrev pub by_code_unit : Text → Text → ℤ
by_code_unit [] [] = pos 0
by_code_unit [] (y ∷ ys) = negsuc 0
by_code_unit (x ∷ xs) [] = pos 1
by_code_unit (x ∷ xs) (y ∷ ys) =
    let rest = by_code_unit xs ys in
    if ltb x y then negsuc 0 else if nat_beq x y then rest else pos 1

antisym :
    (a b : Text)
    → leb_ℤ (by_code_unit a b) (pos 0) ≡ true
    → leb_ℤ (by_code_unit b a) (pos 0) ≡ true
    → a ≡ b
antisym [] [] h k = refl
antisym [] (y ∷ ys) h k = ground arith
antisym (x ∷ xs) [] h k = ground arith
antisym (x ∷ xs) (y ∷ ys) h k = ground (arith, antisym xs ys)

trans :
    (a b c : Text)
    → leb_ℤ (by_code_unit a b) (pos 0) ≡ true
    → leb_ℤ (by_code_unit b c) (pos 0) ≡ true
    → leb_ℤ (by_code_unit a c) (pos 0) ≡ true
trans [] b [] h k = refl
trans [] b (z ∷ zs) h k = refl
trans (x ∷ xs) [] c h k = ground arith
trans (x ∷ xs) (y ∷ ys) [] h k = ground arith
trans (x ∷ xs) (y ∷ ys) (z ∷ zs) h k = ground (arith, trans xs ys zs)

total :
    (a b : Text)
    → (leb_ℤ (by_code_unit a b) (pos 0) ≡ true) ⊎ (leb_ℤ (by_code_unit b a) (pos 0) ≡ true)
total [] b = go b
  where
    go :
        (b : Text)
        → (leb_ℤ (by_code_unit [] b) (pos 0) ≡ true) ⊎ (leb_ℤ (by_code_unit b []) (pos 0) ≡ true)
    go [] = inl refl
    go (y ∷ ys) = inl refl
total (x ∷ xs) [] = inr refl
total (x ∷ xs) (y ∷ ys) = ground (arith, total xs ys)

pub by_code_unit-IsCollation : IsCollation by_code_unit
by_code_unit-IsCollation = record { antisym = λ a b m n. antisym a b; trans = trans; total = total }
