-- ===== src/Rpc/Methods.antt =====
-- indexer/src/rpc.ts and scripts/lib/rpc.mjs: the methods that the two clients let through, refuse and
-- repeat, by their names.
use ppv.Base.Members.{In, every-In}
use ppv.Base.{every, sym, ==_iff, ◌↔◌, ◌≡◌, true, false, List, [], ◌∷◌, arith, any, ◌==◌, list_eq}
use ppv.Base.Text.{Text, codes}

-- The methods that the indexer's source calls.
abbrev pub source_methods : List Text
source_methods = codes "getSignaturesForAddress" ∷ codes "getTransaction" ∷ []

-- The methods that would submit something, or simulate it.
abbrev pub submitting_methods : List Text
submitting_methods =
    codes "sendTransaction" ∷ codes "simulateTransaction" ∷ codes "requestAirdrop" ∷ []

-- The reads that are safe to repeat.
abbrev pub repeatable_methods : List Text
repeatable_methods =
    codes "getTransaction"
    ∷ codes "getSignaturesForAddress"
    ∷ codes "getSignatureStatuses"
    ∷ codes "getLatestBlockhash"
    ∷ codes "getBlockHeight"
    ∷ codes "getSlot"
    ∷ codes "getVersion"
    ∷ codes "getGenesisHash"
    ∷ codes "getAccountInfo"
    ∷ codes "getMultipleAccounts"
    ∷ codes "getProgramAccounts"
    ∷ codes "getBalance"
    ∷ codes "getTokenAccountBalance"
    ∷ []

any-iff-In : (m : Text) (xs : List Text) → (any (λ x. x == m) xs ≡ true) ↔ In m xs
any-iff-In m [] = (λ h. cc, λ i. absurd i)
any-iff-In m (x ∷ xs) =
    ground (arith, any-iff-In m xs, ==_iff x m, λ (e : x ≡ m). sym e, λ (e : m ≡ x). sym e)

-- Two lists of names with the same names.
all_listed :
    (xs ys : List Text)
    → every (λ x. any (λ y. y == x) ys) xs ≡ true
    → (m : Text) → In m xs
    → In m ys
all_listed xs ys h m i = (any-iff-In m ys).0 (every-In (λ x. any (λ y. y == x) ys) xs m h i)

-- A test of a list of names decides membership in a list with the same names.
pub lists-true :
    (xs ys : List Text) (m : Text)
    → every (λ x. any (λ y. y == x) ys) xs ≡ true
    → any (λ x. x == m) xs ≡ true
    → In m ys
lists-true xs ys m h e = all_listed xs ys h m ((any-iff-In m xs).0 e)

pub lists-false :
    (xs ys : List Text) (m : Text)
    → every (λ x. any (λ y. y == x) xs) ys ≡ true
    → any (λ x. x == m) xs ≡ false
    → ¬ In m ys
lists-false xs ys m h e i = cc (e, (any-iff-In m xs).1 (all_listed ys xs h m i))
