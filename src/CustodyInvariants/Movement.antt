-- ===== src/CustodyInvariants/Movement.antt =====
-- scripts/lib/custody-invariants.mjs: what is known of the accounts of two snapshots once the
-- complete-delta assertion has passed.
use ppv.Base.{
  ◌≡◌, refl, sym, ap, ◌∙◌, Bool, true, false, Option, none, some, List, [], ◌∷◌, ◌++◌, ◌==◌, ==_iff,
  ◌||◌, arith, Bool-cases, inl, inr, list_eq, option_eq, if◌then◌else◌, any, not,
}
use ppv.Base.Result.{throw_if, ok, >>=-eq-ok, throw_if-eq-ok}
use ppv.Base.Int.{ℤ, pos, ◌-ℤ◌, ◌+ℤ◌, int_eq, pos_part, neg_part, eq_of_parts, -ℤ_parts, +ℤ_parts}
use ppv.Base.Text.{Text}
use ppv.Base.Dict.{Dict, get, put, get-put}
use ppv.CustodyInvariants.{
  BalanceSnapshot, Invariant, balance, keys, collect_deltas, deltas, check_watched, wrong, net,
  assert_deltas, is_nil,
}

collect-get :
    (before after : BalanceSnapshot) (out : Dict Text ℤ) (ks : List Text) (a : Text)
    → get a (collect_deltas before after out ks)
      ≡ (if any (λ k. k == a) ks then some (balance after a -ℤ balance before a) else get a out)
unfolding collect_deltas
collect-get before after out [] a = refl
collect-get before after out (k ∷ ks) a =
    let moved : Text → ℤ = λ x. balance after x -ℤ balance before x in
    let rest = collect-get before after (put k (moved k) out) ks a in
    let here = get-put k a (moved k) out in
    elim (Bool-cases (k == a)) [
      | inl e ↦
          let same : some (moved k) ≡ some (moved a) =
            ap (λ (x : Text). some (moved x)) ((==_iff k a).0 e) in
          rest ∙ rw (here, e) (settle (any (λ x. x == a) ks) same)
      | inr e ↦ rest ∙ rw (here, e) refl
    ]
  where
    settle :
        (b : Bool) {x y : Option ℤ}
        → x ≡ y
        → (if b then y else x) ≡ (if true || b then y else get a out)
    settle true e = refl
    settle false e = e

keys-get : (d : BalanceSnapshot) (a : Text) → any (λ k. k == a) (keys d) ≡ false → get a d ≡ none
unfolding get
keys-get [] a h = refl
keys-get ((k, v) ∷ d) a h = ground (arith, keys-get d a)

any-append : (p : Text → Bool) (xs ys : List Text) → any p (xs ++ ys) ≡ (any p xs || any p ys)
any-append p [] ys = refl
any-append p (x ∷ xs) ys = ground (arith, any-append p xs ys)

check_watched-get :
    (i : Invariant) (observed wanted : Dict Text ℤ) (a : Text)
    → check_watched i observed wanted ≡ ok tt
    → get a observed ≡ none
    → get a wanted ≡ none
unfolding check_watched get
check_watched-get i observed [] a h g = refl
check_watched-get i observed ((k, v) ∷ wanted) a h g = elim (Bool-cases (get k observed == none)) [
  | inl e ↦ cc (rw e at h)
  | inr e ↦
      let rest : check_watched i observed wanted ≡ ok tt = rw e at h in
      elim (Bool-cases (k == a)) [
        | inl q ↦
            let here : get k observed ≡ none =
              ap (λ (x : Text). get x observed) ((==_iff k a).0 q) ∙ g in
            let yes = (==_iff (get k observed) none).1 here in cc
        | inr q ↦ rw q (check_watched-get i observed wanted a rest g)
      ]
]

wrong-get :
    (wanted observed : Dict Text ℤ) (a : Text) {m : ℤ}
    → wrong wanted observed ≡ []
    → get a observed ≡ some m
    → m ≡ balance wanted a
unfolding wrong get
wrong-get wanted [] a h g = cc
wrong-get wanted ((k, v) ∷ observed) a {m} h g = elim (Bool-cases (v == balance wanted k)) [
  | inl e ↦
      let rest : wrong wanted observed ≡ [] = rw e at h in
      elim (Bool-cases (k == a)) [
        | inl q ↦
            let here : some v ≡ some m = rw q at g in
            let same : v ≡ m = cc in
            sym same ∙ ((==_iff v (balance wanted k)).0 e ∙ ap (balance wanted) ((==_iff k a).0 q))
        | inr q ↦ wrong-get wanted observed a rest (rw q at g)
      ]
  | inr e ↦ cc (rw e at h)
]

-- An account that the snapshot before or the one after watches.
abbrev pub IsWatched : BalanceSnapshot → BalanceSnapshot → Text → Type 0
IsWatched before after a = any (λ k. k == a) (keys before ++ keys after) ≡ true

-- The balances, 0 where a snapshot has none, differ by what was expected.
abbrev pub Moves : BalanceSnapshot → BalanceSnapshot → Dict Text ℤ → Type 0
Moves before after expected = (a : Text) → balance after a ≡ balance before a +ℤ balance expected a

moved_by : (from to m : ℤ) → to -ℤ from ≡ m → to ≡ from +ℤ m
moved_by from to m h =
    eq_of_parts to (from +ℤ m)
      (omega (arith, -ℤ_parts to from, +ℤ_parts from m, ap pos_part h, ap neg_part h))

no_wrong : (l : List Text) → not (is_nil l) ≡ false → l ≡ []
no_wrong [] h = refl
no_wrong (x ∷ xs) h = cc

known_account :
    (before after : BalanceSnapshot) (expected : Dict Text ℤ) (i : Invariant) (a : Text) (b : Bool)
    → check_watched i (deltas before after) expected ≡ ok tt
    → wrong expected (deltas before after) ≡ []
    → any (λ k. k == a) (keys before ++ keys after) ≡ b
    → balance after a ≡ balance before a +ℤ balance expected a
unfolding deltas get balance ◌+ℤ◌
known_account before after expected i a true watched right q =
    let there : get a (deltas before after) ≡ some (balance after a -ℤ balance before a) =
      collect-get before after [] (keys before ++ keys after) a ∙ rw q refl in
    moved_by (balance before a) (balance after a) (balance expected a)
      (wrong-get expected (deltas before after) a right there)
known_account before after expected i a false watched right q =
    let gone : get a (deltas before after) ≡ none =
      collect-get before after [] (keys before ++ keys after) a ∙ rw q refl in
    let apart = sym (any-append (λ k. k == a) (keys before) (keys after)) ∙ q in
    let b0 = keys-get before a (ground arith) in
    let a0 = keys-get after a (ground arith) in
    let w0 = check_watched-get i (deltas before after) expected a watched gone in
    rw (b0, a0, w0) refl

expected-IsWatched :
    (before after : BalanceSnapshot) (expected : Dict Text ℤ) (i : Invariant) (a : Text) {m : ℤ}
    → check_watched i (deltas before after) expected ≡ ok tt
    → get a expected ≡ some m
    → IsWatched before after a
unfolding deltas get
expected-IsWatched before after expected i a watched q =
    elim (Bool-cases (any (λ k. k == a) (keys before ++ keys after))) [
      | inl e ↦ e
      | inr e ↦
          let gone : get a (deltas before after) ≡ none =
            collect-get before after [] (keys before ++ keys after) a ∙ rw e refl in
          let w0 = check_watched-get i (deltas before after) expected a watched gone in cc
    ]

-- When the complete-delta assertion passes, the balances differ by what was expected, those of
-- accounts that are not watched, which count as 0, included.
pub assert_deltas-Moves :
    (before after : BalanceSnapshot) (expected : Dict Text ℤ) (i : Invariant)
    {observed : Dict Text ℤ}
    → assert_deltas before after expected i ≡ ok observed
    → Moves before after expected
unfolding assert_deltas
assert_deltas-Moves before after expected i e =
    let (u, watched, f) = >>=-eq-ok (check_watched i (deltas before after) expected) _ e in
    let (v, right, g) =
      >>=-eq-ok (throw_if (not (is_nil (wrong expected (deltas before after)))) _) _ f in
    λ a.
      known_account before after expected i a _ watched
        (no_wrong (wrong expected (deltas before after)) (throw_if-eq-ok _ _ right)) refl

pub record Passed (before after : BalanceSnapshot) (expected observed : Dict Text ℤ) : Type 0 where
  pub moves :
      (a : Text)
      → IsWatched before after a
      → balance after a ≡ balance before a +ℤ balance expected a
  pub watched : (a : Text) (m : ℤ) → get a expected ≡ some m → IsWatched before after a
  pub conserved : net observed ≡ pos 0
  pub reported : observed ≡ deltas before after

-- When the complete-delta assertion passes, every account that the snapshots watch moved by what was
-- expected of it, each account that something was expected of is watched, the observed movements sum
-- to zero, and they are what is returned.
pub assert_deltas-Passed :
    (before after : BalanceSnapshot) (expected : Dict Text ℤ) (i : Invariant)
    {observed : Dict Text ℤ}
    → assert_deltas before after expected i ≡ ok observed
    → Passed before after expected observed
unfolding assert_deltas
assert_deltas-Passed before after expected i {observed} e =
    let (u, watched, f) = >>=-eq-ok (check_watched i (deltas before after) expected) _ e in
    let (v, right, g) =
      >>=-eq-ok (throw_if (not (is_nil (wrong expected (deltas before after)))) _) _ f in
    let (w, zero_net, h) = >>=-eq-ok (throw_if (not (net (deltas before after) == pos 0)) _) _ g in
    let none_wrong = no_wrong (wrong expected (deltas before after)) (throw_if-eq-ok _ _ right) in
    let same : deltas before after ≡ observed = cc in
    record {
      moves = λ a w. known_account before after expected i a _ watched none_wrong refl;
      watched = λ a m q. expected-IsWatched before after expected i a watched q;
      conserved =
          ap net (sym same) ∙ net_zero (net (deltas before after)) (throw_if-eq-ok _ _ zero_net);
      reported = sym same;
    }
  where
    net_zero : (n : ℤ) → not (n == pos 0) ≡ false → n ≡ pos 0
    net_zero n h = (==_iff n (pos 0)).0 (flip (n == pos 0) h)
      where
        flip : (b : Bool) → not b ≡ false → b ≡ true
        flip b k = ground arith
