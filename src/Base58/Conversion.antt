-- ===== src/Base58/Conversion.antt =====
-- sdk/src/reputation/base58.ts: the digits of one base made of those of the other. The encoder goes
-- from base 256 to base 58 and the decoder back; `convert` is the loop that they share.
use ppv.Base.{ℕ, ◌+◌, ◌*◌, ◌<◌, ◌≡◌, refl, sym, ap, ◌∙◌, arith, List, [], ◌∷◌, ◌++◌, All}
use ppv.Base.Text.{Bytes}
use ppv.Base58.{scale_add, encode_digits}
use ppv.Base58.Value.{value, horner, IsProper, horner-reverse, value_unique, scale_add-IsProper}
use mathlib.Core.List.{reverse, reverse-cons, reverse-reverse}

-- To base `b`, digits of base `f` that come most significant first.
unfoldable pub convert : ℕ → ℕ → List ℕ → List ℕ → List ℕ
convert f b digits [] = digits
convert f b digits (x ∷ xs) = convert f b (scale_add f b x digits) xs

-- The list is empty or its first digit is not zero.
abbrev pub Leads : List ℕ → Type 0
Leads [] = Unit
Leads (x ∷ xs) = 0 < x

pub encode_digits-convert : (ds bs : List ℕ) → encode_digits ds bs ≡ convert 256 58 ds bs
unfolding encode_digits convert
encode_digits-convert ds [] = refl
encode_digits-convert ds (b ∷ bs) = encode_digits-convert (scale_add 256 58 b ds) bs

pub All-append :
    (b : ℕ) (xs ys : List ℕ)
    → All (λ x. x < b) xs
    → All (λ x. x < b) ys
    → All (λ x. x < b) (xs ++ ys)
All-append b [] ys p q = q
All-append b (x ∷ xs) ys (h, p) q = (h, All-append b xs ys p q)

pub All-reverse : (b : ℕ) (xs : List ℕ) → All (λ x. x < b) xs → All (λ x. x < b) (reverse xs)
All-reverse b [] p = tt
All-reverse b (x ∷ xs) (h, p) =
    rw reverse-cons (All-append b (reverse xs) (x ∷ []) (All-reverse b xs p) (h, tt))

pub IsProper-digits : (b : ℕ) (ds : List ℕ) → IsProper b ds → All (λ x. x < b) ds
IsProper-digits b [] p = tt
IsProper-digits b (d ∷ ds) (h, positive, p) = (h, IsProper-digits b ds p)

-- Digits behind which a digit other than zero is put.
IsProper-snoc :
    (b x : ℕ) (ds : List ℕ)
    → x < b
    → 0 < x
    → All (λ d. d < b) ds
    → (0 < value b (ds ++ x ∷ [])) × IsProper b (ds ++ x ∷ [])
IsProper-snoc b x [] hx px p = (omega arith, (hx, omega arith, tt))
IsProper-snoc b x (d ∷ ds) hx px (hd, p) =
    let (rest, proper) = IsProper-snoc b x ds hx px p in
    let grows : 0 < d + b * value b (ds ++ x ∷ []) = grind arith in (grows, (hd, grows, proper))

pub Leads-IsProper :
    (b : ℕ) (xs : List ℕ) → Leads xs → All (λ x. x < b) xs → IsProper b (reverse xs)
Leads-IsProper b [] l p = tt
Leads-IsProper b (x ∷ xs) l (h, p) =
    rw reverse-cons ((IsProper-snoc b x (reverse xs) h l (All-reverse b xs p)).1)

Leads-append :
    (b : ℕ) (xs ys : List ℕ) → Leads xs → (horner b 0 xs ≡ 0 → Leads ys) → Leads (xs ++ ys)
Leads-append b [] ys l h = h refl
Leads-append b (x ∷ xs) ys l h = l

pub IsProper-Leads : (b : ℕ) (ds : List ℕ) → IsProper b ds → Leads (reverse ds)
IsProper-Leads b [] p = tt
IsProper-Leads b (d ∷ ds) (h, positive, p) =
    rw reverse-cons (Leads-append b (reverse ds) (d ∷ []) (IsProper-Leads b ds p) (λ e. first e))
  where
    first : horner b 0 (reverse ds) ≡ 0 → 0 < d
    first e =
        let z : value b ds ≡ 0 = sym (horner-reverse b ds) ∙ e in
        let k : d + b * value b ds ≡ d = ap (λ (n : ℕ). d + b * n) z ∙ omega arith in omega arith

pub convert-IsProper :
    (f b : ℕ)
    → 1 < b
    → 0 < f
    → (ds xs : List ℕ) → IsProper b ds
    → (value b (convert f b ds xs) ≡ horner f (value b ds) xs) × IsProper b (convert f b ds xs)
unfolding convert
convert-IsProper f b hb hf ds [] p = (refl, p)
convert-IsProper f b hb hf ds (x ∷ xs) p =
    let (same, proper) = scale_add-IsProper b hb f x ds hf p in
    let (rest, all) = convert-IsProper f b hb hf (scale_add f b x ds) xs proper in
    (rest ∙ ap (λ (n : ℕ). horner f n xs) same, all)

-- Digits that are converted, and whose result is converted back, are there again.
pub convert-convert :
    (f b : ℕ)
    → 1 < f
    → 1 < b
    → (xs : List ℕ) → Leads xs
    → All (λ x. x < f) xs
    → convert b f [] (reverse (convert f b [] xs)) ≡ reverse xs
convert-convert f b hf hb xs l p =
    let (same, proper) = convert-IsProper f b hb (omega arith) [] xs tt in
    let (back, proper') =
      convert-IsProper b f hf (omega arith) [] (reverse (convert f b [] xs)) tt in
    let value_of_xs : horner f 0 xs ≡ value f (reverse xs) =
      sym (ap (λ (t : List ℕ). horner f 0 t) (reverse-reverse xs))
      ∙ horner-reverse f (reverse xs) in
    value_unique f (convert b f [] (reverse (convert f b [] xs))) (reverse xs) proper'
      (Leads-IsProper f xs l p)
      (back ∙ (horner-reverse b (convert f b [] xs) ∙ (same ∙ value_of_xs)))

-- What the encoder computes is the number that the bytes stand for.
pub encode_digits-value :
    (bs : Bytes)
    → (value 58 (encode_digits [] bs) ≡ horner 256 0 bs) × All (λ d. d < 58) (encode_digits [] bs)
encode_digits-value bs =
    let (same, proper) = convert-IsProper 256 58 (omega arith) (omega arith) [] bs tt in
    rw (encode_digits-convert [] bs) (same, IsProper-digits 58 (convert 256 58 [] bs) proper)
