-- ===== src/Reputation/Seal/Latest.antt =====
-- The order of texts, and the latest of several times.
use ppv.Base.{
  ap, sym, ◌∙◌, ◌↔◌, arith, ◌≡◌, refl, ◌⊎◌, inl, inr, true, Option, some, List, [], ◌∷◌, false,
  Bool-cases, none,
}
use ppv.Base.Members.{In}
use ppv.Base.Text.{Text, ltb_text}
use ppv.Reputation.Seal.{later, open_after}

ltb_text-split :
    (a b c : Text) → ltb_text a c ≡ true → (ltb_text a b ≡ true) ⊎ (ltb_text b c ≡ true)
unfolding ltb_text
ltb_text-split a b [] h = cc
ltb_text-split [] [] (z ∷ zs) h = inr refl
ltb_text-split [] (y ∷ ys) (z ∷ zs) h = inl refl
ltb_text-split (x ∷ xs) [] (z ∷ zs) h = inr refl
ltb_text-split (x ∷ xs) (y ∷ ys) (z ∷ zs) h = ground (arith, ltb_text-split xs ys zs)

ltb_text_trans : (a b c : Text) → ltb_text a b ≡ true → ltb_text b c ≡ true → ltb_text a c ≡ true
unfolding ltb_text
ltb_text_trans a b [] h k = cc
ltb_text_trans [] b (z ∷ zs) h k = refl
ltb_text_trans (x ∷ xs) [] (z ∷ zs) h k = cc
ltb_text_trans (x ∷ xs) (y ∷ ys) (z ∷ zs) h k = ground (arith, ltb_text_trans xs ys zs)

-- The latest of the times, after one that is given.
abbrev pub latest : Option Text → List Text → Option Text
latest o [] = o
latest o (t ∷ ts) = latest (later o t) ts

-- What is latest was given or is one of the times, and none of them is later.
pub record IsLatest (o : Option Text) (ts : List Text) (t : Text) : Type 0 where
  pub among : (o ≡ some t) ⊎ In t ts
  pub bounds : (x : Text) → In x ts → ¬ (ltb_text t x ≡ true)
  pub bounds_first : (x : Text) → o ≡ some x → ¬ (ltb_text t x ≡ true)

ltb_text_refl : (a : Text) → ltb_text a a ≡ false
unfolding ltb_text
ltb_text_refl [] = refl
ltb_text_refl (x ∷ xs) = ground (arith, ltb_text_refl xs)

-- A time that is not below the later of two is below neither.
later-bounds :
    (o : Option Text) (t u : Text)
    → ((x : Text) → later o t ≡ some x → ¬ (ltb_text u x ≡ true))
    → (¬ (ltb_text u t ≡ true)) × ((x : Text) → o ≡ some x → ¬ (ltb_text u x ≡ true))
unfolding later
later-bounds none t u h = (h t refl, λ x e. cc)
later-bounds (some s) t u h = elim (Bool-cases (ltb_text s t)) [
  | inl e ↦
      let top : ¬ (ltb_text u t ≡ true) = h t (rw e refl) in
      (top, λ x q k. top (ltb_text_trans u s t (subst_text u x s q k) e))
  | inr e ↦
      let top : ¬ (ltb_text u s ≡ true) = h s (rw e refl) in
      (
        λ k. elim (ltb_text-split u s t k) [ inl m ↦ top m | inr m ↦ cc (m, e) ],
        λ x q k. top (subst_text u x s q k),
      )
]
  where
    subst_text : (a x s : Text) → some s ≡ some x → ltb_text a x ≡ true → ltb_text a s ≡ true
    subst_text a x s q k = let p : s ≡ x = cc in ap (ltb_text a) p ∙ k

later-among : (o : Option Text) (t x : Text) → later o t ≡ some x → (o ≡ some x) ⊎ (x ≡ t)
unfolding later
later-among none t x e = inr (cc)
later-among (some s) t x e = elim (Bool-cases (ltb_text s t)) [
  | inl q ↦ let p : some t ≡ some x = rw q at e in inr (cc)
  | inr q ↦ inl (rw q at e)
]

pub latest-IsLatest :
    (o : Option Text) (ts : List Text) (t : Text) → latest o ts ≡ some t → IsLatest o ts t
latest-IsLatest o [] t e = record {
  among = inl e;
  bounds = λ x i. absurd i;
  bounds_first =
      λ x q k. let p : t ≡ x = cc in cc (k, ap (λ (y : Text). ltb_text t y) p, ltb_text_refl t);
}
latest-IsLatest o (s ∷ ts) t e =
    let rest = latest-IsLatest (later o s) ts t e in
    let (top, first) = later-bounds o s t rest.bounds_first in
    record {
      among = elim rest.among [
        | inl q ↦ elim (later-among o s t q) [ inl p ↦ inl p | inr p ↦ inr (inl p) ]
        | inr i ↦ inr (inr i)
      ];
      bounds = λ x i. elim i [
        | inl q ↦ λ k. top (ap (λ (y : Text). ltb_text t y) (sym q) ∙ k)
        | inr j ↦ rest.bounds x j
      ];
      bounds_first = first;
    }

-- There is a latest as soon as there is a time.
latest-some : (t : Text) (ts : List Text) → (u : Text) × (latest (some t) ts ≡ some u)
unfolding later
latest-some t [] = (t, refl)
latest-some t (s ∷ ts) = elim (Bool-cases (ltb_text t s)) [
  | inl e ↦ rw e (latest-some s ts)
  | inr e ↦ rw e (latest-some t ts)
]

pub latest_total : (ts : List Text) (x : Text) → In x ts → (u : Text) × (latest none ts ≡ some u)
unfolding later
latest_total [] x i = absurd i
latest_total (t ∷ ts) x i = latest-some t ts

-- Some opening lies after every resolution.
abbrev pub OpenAfterAll : List Text → List Text → Type 0
OpenAfterAll opened resolved =
    (o : Text) × In o opened × ((r : Text) → In r resolved → ltb_text r o ≡ true)

pub open_after_iff :
    (opened resolved : List Text)
    → (open_after (latest none opened) (latest none resolved) ≡ true) ↔ OpenAfterAll opened resolved
unfolding open_after
open_after_iff opened resolved = go (latest none opened) (latest none resolved) refl refl
  where
    go :
        (a b : Option Text)
        → latest none opened ≡ a
        → latest none resolved ≡ b
        → (open_after a b ≡ true) ↔ OpenAfterAll opened resolved
    go none b p q = (λ h. cc, λ (o, i, h). let (u, e) = latest_total opened o i in cc (p, e))
    go (some a) none p q = (
      λ h. (
        a,
        elim ((latest-IsLatest none opened a p).among) [ inl e ↦ cc | inr i ↦ i ],
        λ r j. let (u, e) = latest_total resolved r j in cc (q, e),
      ),
      λ h. refl,
    )
    go (some a) (some b) p q =
        let la = latest-IsLatest none opened a p in
        let lb = latest-IsLatest none resolved b q in
        (
          λ h. (
            a,
            elim (la.among) [ inl e ↦ cc | inr i ↦ i ],
            λ r j. elim (ltb_text-split b r a h) [ inl m ↦ absurd (lb.bounds r j m) | inr m ↦ m ],
          ),
          λ (o, i, h).
              let bo = h b (elim (lb.among) [ inl e ↦ cc | inr j ↦ j ]) in
              elim (ltb_text-split b a o bo) [ inl m ↦ m | inr m ↦ absurd (la.bounds o i m) ],
        )
