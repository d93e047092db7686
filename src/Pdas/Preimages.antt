-- ===== src/Pdas/Preimages.antt =====
-- sdk/src/escrow/pdas.ts: what the addresses of `ppv_escrow` hash.
use ppv.Base.{
  ℕ, zero, suc, ◌+◌, ◌/◌, ◌^◌, ◌<◌, ◌≡◌, refl, sym, ap, ◌∙◌, arith, List, [], ◌∷◌, ◌++◌, length,
  length-append,
}
use ppv.Base.Text.{Bytes}
use ppv.Escrow.Events.Reader.{le_value}
use ppv.Pdas.{
  le_bytes, concat, preimage, agreement_seed, vault_authority_seed, vault_token_seed, proof_seed,
  milestone_seed, pda_marker,
}
use ppv.Pdas.Seeds.{le_value-le_bytes}

-- An address of `ppv_escrow`, by what it is derived from: keys as bytes, and numbers.
pub data Origin : Type 0 where
  agreement : Bytes → ℕ → Origin
  vault_authority : Bytes → Origin
  vault : Bytes → Origin
  proof : Bytes → ℕ → Origin
  milestone : Bytes → ℕ → Origin

abbrev pub seeds_of : Origin → List Bytes
seeds_of (agreement creator id) = agreement_seed ∷ creator ∷ le_bytes 8 id ∷ []
seeds_of (vault_authority key) = vault_authority_seed ∷ key ∷ []
seeds_of (vault key) = vault_token_seed ∷ key ∷ []
seeds_of (proof key index) = proof_seed ∷ key ∷ le_bytes 4 index ∷ []
seeds_of (milestone key index) = milestone_seed ∷ key ∷ le_bytes 4 index ∷ []

-- Keys have 32 bytes, the number of an agreement is a u64, and an index is a u32.
abbrev pub IsOrigin : Origin → Type 0
IsOrigin (agreement creator id) = (length creator ≡ 32) × (id < 2 ^ 64)
IsOrigin (vault_authority key) = length key ≡ 32
IsOrigin (vault key) = length key ≡ 32
IsOrigin (proof key index) = (length key ≡ 32) × (index < 2 ^ 32)
IsOrigin (milestone key index) = (length key ≡ 32) × (index < 2 ^ 32)

-- The seeds with their bump, then the program, then the marker.
abbrev pub hashed : Origin → ℕ → Bytes → Bytes
hashed o bump program = preimage (seeds_of o ++ (bump ∷ []) ∷ []) program

append-injective :
    (xs ys us vs : Bytes) → length xs ≡ length ys → xs ++ us ≡ ys ++ vs → (xs ≡ ys) × (us ≡ vs)
append-injective [] [] us vs l e = (refl, e)
append-injective [] (y ∷ ys) us vs l e = absurd (omega arith)
append-injective (x ∷ xs) [] us vs l e = absurd (omega arith)
append-injective (x ∷ xs) (y ∷ ys) us vs l e =
    let (p, q) = append-injective xs ys us vs (omega arith) (cc) in (cc, q)

le_bytes-injective : (n v w : ℕ) → v < 256 ^ n → w < 256 ^ n → le_bytes n v ≡ le_bytes n w → v ≡ w
le_bytes-injective n v w h k e =
    sym (le_value-le_bytes n v h) ∙ (ap le_value e ∙ le_value-le_bytes n w k)

-- What the parts in front of the program take up.
abbrev width : Origin → ℕ
width (agreement creator id) = 50
width (vault_authority key) = 38
width (vault key) = 44
width (proof key index) = 42
width (milestone key index) = 46

length-hashed :
    (o : Origin) (bump : ℕ) (program : Bytes)
    → IsOrigin o
    → length program ≡ 32
    → length (hashed o bump program) ≡ width o + 53
unfolding preimage concat le_bytes
length-hashed (agreement creator id) bump program (c, i) p = simp length-append (omega arith)
length-hashed (vault_authority key) bump program k p = simp length-append (omega arith)
length-hashed (vault key) bump program k p = simp length-append (omega arith)
length-hashed (proof key index) bump program (k, i) p = simp length-append (omega arith)
length-hashed (milestone key index) bump program (k, i) p = simp length-append (omega arith)

length-le_bytes : (n v w : ℕ) → length (le_bytes n v) ≡ length (le_bytes n w)
unfolding le_bytes
length-le_bytes zero v w = refl
length-le_bytes (suc n) v w = omega (arith, length-le_bytes n (v / 256) (w / 256))

-- Behind the seeds: the bump and the program.
tail-injective :
    (b c : ℕ) (p q : Bytes)
    → length p ≡ length q
    → concat ((b ∷ []) ∷ p ∷ pda_marker ∷ []) ≡ concat ((c ∷ []) ∷ q ∷ pda_marker ∷ [])
    → (b ≡ c) × (p ≡ q)
unfolding concat
tail-injective b c p q l e =
    let (d, f) = append-injective (b ∷ []) (c ∷ []) _ _ refl e in
    let (g, h) = append-injective p q _ _ l f in (cc, g)

-- A key behind a seed.
key-injective :
    (seed k l : Bytes) (rest more : List Bytes)
    → length k ≡ length l
    → concat (seed ∷ k ∷ rest) ≡ concat (seed ∷ l ∷ more)
    → (k ≡ l) × (concat rest ≡ concat more)
unfolding concat
key-injective seed k l rest more s e =
    let (x, f) = append-injective seed seed (k ++ concat rest) (l ++ concat more) refl e in
    append-injective k l (concat rest) (concat more) s f

number-injective :
    (n v w : ℕ) (rest more : List Bytes)
    → v < 256 ^ n
    → w < 256 ^ n
    → concat (le_bytes n v ∷ rest) ≡ concat (le_bytes n w ∷ more)
    → (v ≡ w) × (concat rest ≡ concat more)
unfolding concat
number-injective n v w rest more h k e =
    let (x, f) =
      append-injective (le_bytes n v) (le_bytes n w) (concat rest) (concat more)
        (length-le_bytes n v w) e in
    (le_bytes-injective n v w h k x, f)

-- The bytes behind the seeds of an address.
abbrev behind : ℕ → Bytes → List Bytes
behind bump program = (bump ∷ []) ∷ program ∷ pda_marker ∷ []

keyed-injective :
    (seed k l : Bytes) (b c : ℕ) (p q : Bytes)
    → length k ≡ length l
    → length p ≡ length q
    → concat (seed ∷ k ∷ behind b p) ≡ concat (seed ∷ l ∷ behind c q)
    → (k ≡ l) × (b ≡ c) × (p ≡ q)
keyed-injective seed k l b c p q s t e =
    let (x, f) = key-injective seed k l (behind b p) (behind c q) s e in
    let (v, w) = tail-injective b c p q t f in (x, v, w)

numbered-injective :
    (seed k l : Bytes) (n v w b c : ℕ) (p q : Bytes)
    → length k ≡ length l
    → v < 256 ^ n
    → w < 256 ^ n
    → length p ≡ length q
    → concat (seed ∷ k ∷ le_bytes n v ∷ behind b p) ≡ concat (seed ∷ l ∷ le_bytes n w ∷ behind c q)
    → (k ≡ l) × (v ≡ w) × (b ≡ c) × (p ≡ q)
numbered-injective seed k l n v w b c p q s h j t e =
    let (x, f) =
      key-injective seed k l (le_bytes n v ∷ behind b p) (le_bytes n w ∷ behind c q) s e in
    let (y, g) = number-injective n v w (behind b p) (behind c q) h j f in
    let (z, u) = tail-injective b c p q t g in (x, y, z, u)

same_width :
    (o u : Origin) (b c : ℕ) (p q : Bytes)
    → IsOrigin o
    → IsOrigin u
    → length p ≡ 32
    → length q ≡ 32
    → hashed o b p ≡ hashed u c q
    → width o ≡ width u
same_width o u b c p q i j l m e =
    omega (arith, length-hashed o b p i l, length-hashed u c q j m, ap (length {A = ℕ}) e)

-- No two addresses of `ppv_escrow` hash the same bytes: where they do, they are derived from the
-- same thing, with the same bump, under the same program. The keys and programs have 32 bytes, the
-- number of an agreement is a u64, and an index is a u32.
pub hashed-injective :
    (o u : Origin) (b c : ℕ) (p q : Bytes)
    → IsOrigin o
    → IsOrigin u
    → length p ≡ 32
    → length q ≡ 32
    → hashed o b p ≡ hashed u c q
    → (o ≡ u) × (b ≡ c) × (p ≡ q)
unfolding preimage
hashed-injective (agreement k n) (agreement l m) b c p q (i, x) (j, y) d f e =
    let (s, r, v, w) =
      numbered-injective agreement_seed k l 8 n m b c p q (i ∙ sym j) x y (d ∙ sym f) e in
    (cc, v, w)
hashed-injective (vault_authority k) (vault_authority l) b c p q i j d f e =
    let (s, v, w) = keyed-injective vault_authority_seed k l b c p q (i ∙ sym j) (d ∙ sym f) e in
    (cc, v, w)
hashed-injective (vault k) (vault l) b c p q i j d f e =
    let (s, v, w) = keyed-injective vault_token_seed k l b c p q (i ∙ sym j) (d ∙ sym f) e in
    (cc, v, w)
hashed-injective (proof k n) (proof l m) b c p q (i, x) (j, y) d f e =
    let (s, r, v, w) =
      numbered-injective proof_seed k l 4 n m b c p q (i ∙ sym j) x y (d ∙ sym f) e in
    (cc, v, w)
hashed-injective (milestone k n) (milestone l m) b c p q (i, x) (j, y) d f e =
    let (s, r, v, w) =
      numbered-injective milestone_seed k l 4 n m b c p q (i ∙ sym j) x y (d ∙ sym f) e in
    (cc, v, w)
hashed-injective (agreement k n) (vault_authority l) b c p q i j d f e =
    absurd (omega (arith, same_width (agreement k n) (vault_authority l) b c p q i j d f e))
hashed-injective (agreement k n) (vault l) b c p q i j d f e =
    absurd (omega (arith, same_width (agreement k n) (vault l) b c p q i j d f e))
hashed-injective (agreement k n) (proof l m) b c p q i j d f e =
    absurd (omega (arith, same_width (agreement k n) (proof l m) b c p q i j d f e))
hashed-injective (agreement k n) (milestone l m) b c p q i j d f e =
    absurd (omega (arith, same_width (agreement k n) (milestone l m) b c p q i j d f e))
hashed-injective (vault_authority k) (agreement l m) b c p q i j d f e =
    absurd (omega (arith, same_width (vault_authority k) (agreement l m) b c p q i j d f e))
hashed-injective (vault_authority k) (vault l) b c p q i j d f e =
    absurd (omega (arith, same_width (vault_authority k) (vault l) b c p q i j d f e))
hashed-injective (vault_authority k) (proof l m) b c p q i j d f e =
    absurd (omega (arith, same_width (vault_authority k) (proof l m) b c p q i j d f e))
hashed-injective (vault_authority k) (milestone l m) b c p q i j d f e =
    absurd (omega (arith, same_width (vault_authority k) (milestone l m) b c p q i j d f e))
hashed-injective (vault k) (agreement l m) b c p q i j d f e =
    absurd (omega (arith, same_width (vault k) (agreement l m) b c p q i j d f e))
hashed-injective (vault k) (vault_authority l) b c p q i j d f e =
    absurd (omega (arith, same_width (vault k) (vault_authority l) b c p q i j d f e))
hashed-injective (vault k) (proof l m) b c p q i j d f e =
    absurd (omega (arith, same_width (vault k) (proof l m) b c p q i j d f e))
hashed-injective (vault k) (milestone l m) b c p q i j d f e =
    absurd (omega (arith, same_width (vault k) (milestone l m) b c p q i j d f e))
hashed-injective (proof k n) (agreement l m) b c p q i j d f e =
    absurd (omega (arith, same_width (proof k n) (agreement l m) b c p q i j d f e))
hashed-injective (proof k n) (vault_authority l) b c p q i j d f e =
    absurd (omega (arith, same_width (proof k n) (vault_authority l) b c p q i j d f e))
hashed-injective (proof k n) (vault l) b c p q i j d f e =
    absurd (omega (arith, same_width (proof k n) (vault l) b c p q i j d f e))
hashed-injective (proof k n) (milestone l m) b c p q i j d f e =
    absurd (omega (arith, same_width (proof k n) (milestone l m) b c p q i j d f e))
hashed-injective (milestone k n) (agreement l m) b c p q i j d f e =
    absurd (omega (arith, same_width (milestone k n) (agreement l m) b c p q i j d f e))
hashed-injective (milestone k n) (vault_authority l) b c p q i j d f e =
    absurd (omega (arith, same_width (milestone k n) (vault_authority l) b c p q i j d f e))
hashed-injective (milestone k n) (vault l) b c p q i j d f e =
    absurd (omega (arith, same_width (milestone k n) (vault l) b c p q i j d f e))
hashed-injective (milestone k n) (proof l m) b c p q i j d f e =
    absurd (omega (arith, same_width (milestone k n) (proof l m) b c p q i j d f e))
