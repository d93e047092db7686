-- ===== src/Accounts/Reading.antt =====
-- sdk/src/escrow/reader.ts: which bytes the readers read as which values.
use ppv.Base.{
  ℕ, ◌-◌, ◌^◌, ◌<◌, ◌≡◌, refl, sym, ap, ◌∙◌, arith, true, [], ◌∷◌, ◌++◌, length, list_eq, ==_iff,
  take_front, drop,
}
use ppv.Base.Result.{Result, ok, err}
use ppv.Base.Int.{ℤ, pos, negsuc}
use mathlib.Core.List.{append-nil, append_assoc}
use ppv.Base.Text.{Bytes, hex}
use ppv.Base58.{encode_base58}
use ppv.Escrow.States.{RangeError, MilestoneState, milestone_state_from_index, trailing_bytes}
use ppv.Escrow.Events.Reader.{
  Reader, ◌>>=◌, pure, take, pubkey, u8, u32, u64, i64, hex_32, milestone_state, skip, read_all,
  behind_discriminator, signed_64, safe_integer, le_value,
}
use ppv.Pdas.{le_bytes}
use ppv.Pdas.Seeds.{le_value-le_bytes, take-le_bytes}

-- The bytes are read as the value, whatever comes behind them.
abbrev pub ReadsAs : {A : Type 0} → Reader A → Bytes → A → Type 0
ReadsAs m bytes a = (rest : Bytes) → m (bytes ++ rest) ≡ ok (a, rest)

pub >>=-ReadsAs :
    {A B : Type 0} (m : Reader A) (f : A → Reader B) (xs ys : Bytes) (a : A) (b : B)
    → ReadsAs m xs a
    → ReadsAs (f a) ys b
    → ReadsAs (m >>= f) (xs ++ ys) b
>>=-ReadsAs m f xs ys a b h k rest = rw (append_assoc xs ys rest, h (ys ++ rest), ◌>>=◌) (k rest)

take-ReadsAs : (xs : Bytes) → ReadsAs (take (length xs)) xs xs
unfolding take
take-ReadsAs [] rest = refl
take-ReadsAs (x ∷ xs) rest = rw (take-ReadsAs xs rest) refl

-- Two's complement.
abbrev pub word_of : ℤ → ℕ
word_of (pos n) = n
word_of (negsuc n) = 2 ^ 64 - 1 - n

signed_64-word_of :
    (z : ℤ) → safe_integer z ≡ true → (word_of z < 2 ^ 64) × (signed_64 (word_of z) ≡ z)
signed_64-word_of (pos n) h = ground arith
signed_64-word_of (negsuc n) h = ground arith

-- A value that is made of what `take` gives.
taken-ReadsAs :
    {A : Type 0} (n : ℕ) (f : Bytes → A) (xs : Bytes)
    → length xs ≡ n
    → ReadsAs (take n >>= λ bytes. pure (f bytes)) xs (f xs)
taken-ReadsAs n f xs size rest =
    let e : take n (xs ++ rest) ≡ ok (xs, rest) =
      ap (λ (k : ℕ). take k (xs ++ rest)) (sym size) ∙ take-ReadsAs xs rest in
    rw (e, ◌>>=◌) refl

number-ReadsAs :
    (n v : ℕ) → v < 256 ^ n → ReadsAs (take n >>= λ bytes. pure (le_value bytes)) (le_bytes n v) v
number-ReadsAs n v h rest =
    rw (take-le_bytes n v rest, ◌>>=◌) (ap (λ (k : ℕ). ok (k, rest)) (le_value-le_bytes n v h))

pub u8-ReadsAs : (v : ℕ) → v < 256 → ReadsAs u8 (le_bytes 1 v) v
unfolding u8
u8-ReadsAs v h = number-ReadsAs 1 v h

pub u32-ReadsAs : (v : ℕ) → v < 2 ^ 32 → ReadsAs u32 (le_bytes 4 v) v
unfolding u32
u32-ReadsAs v h = number-ReadsAs 4 v h

pub u64-ReadsAs : (v : ℕ) → v < 2 ^ 64 → ReadsAs u64 (le_bytes 8 v) v
unfolding u64
u64-ReadsAs v h = number-ReadsAs 8 v h

pub i64-ReadsAs : (z : ℤ) → safe_integer z ≡ true → ReadsAs i64 (le_bytes 8 (word_of z)) z
unfolding i64
i64-ReadsAs z h rest =
    let (below, same) = signed_64-word_of z h in
    let safe : safe_integer (signed_64 (word_of z)) ≡ true = ap safe_integer same ∙ h in
    rw (u64-ReadsAs (word_of z) below rest, safe, ◌>>=◌) (ap (λ (t : ℤ). ok (t, rest)) same)

pub pubkey-ReadsAs : (key : Bytes) → length key ≡ 32 → ReadsAs pubkey key (encode_base58 key)
unfolding pubkey
pubkey-ReadsAs key h = taken-ReadsAs 32 encode_base58 key h

pub hash-ReadsAs : (hash : Bytes) → length hash ≡ 32 → ReadsAs hex_32 hash (hex hash)
unfolding hex_32
hash-ReadsAs hash h = taken-ReadsAs 32 hex hash h

pub skip-ReadsAs : (n : ℕ) (space : Bytes) → length space ≡ n → ReadsAs (skip n) space tt
unfolding skip
skip-ReadsAs n space h = taken-ReadsAs n (λ _. tt) space h

abbrev pub index_of_state : MilestoneState → ℕ
index_of_state MilestoneState.pending = 0
index_of_state MilestoneState.submitted = 1
index_of_state MilestoneState.approved = 2
index_of_state MilestoneState.settled = 3

pub state-ReadsAs : (s : MilestoneState) → ReadsAs milestone_state (le_bytes 1 (index_of_state s)) s
unfolding milestone_state u8 le_bytes milestone_state_from_index
state-ReadsAs MilestoneState.pending rest = refl
state-ReadsAs MilestoneState.submitted rest = refl
state-ReadsAs MilestoneState.approved rest = refl
state-ReadsAs MilestoneState.settled rest = refl

front-length :
    (d body : Bytes)
    → (take_front (length d) (d ++ body) ≡ d) × (drop (length d) (d ++ body) ≡ body)
front-length [] body = (refl, refl)
front-length (x ∷ d) body = let (a, b) = front-length d body in (ap (λ (t : Bytes). x ∷ t) a, b)

pub behind_discriminator-body :
    {A : Type 0} (d body : Bytes) (decode : Bytes → Result RangeError A)
    → length d ≡ 8
    → behind_discriminator d decode (d ++ body) ≡ decode body
behind_discriminator-body d body decode size =
    let (a, b) = front-length d body in
    let front : take_front 8 (d ++ body) ≡ d =
      ap (λ (n : ℕ). take_front n (d ++ body)) (sym size) ∙ a in
    let rest : drop 8 (d ++ body) ≡ body = ap (λ (n : ℕ). drop n (d ++ body)) (sym size) ∙ b in
    let same = (==_iff (take_front 8 (d ++ body)) d).1 front in rw same (ap decode rest)

pub read_all-ReadsAs :
    {A : Type 0} (m : Reader A) (xs : Bytes) (a : A) (b : ℕ) (more : Bytes)
    → ReadsAs m xs a
    → (read_all m xs ≡ ok a) × (read_all m (xs ++ b ∷ more) ≡ err trailing_bytes)
read_all-ReadsAs m xs a b more h =
    let whole : m xs ≡ ok (a, []) = ap m (sym (append-nil xs)) ∙ h [] in
    (rw (whole, read_all) refl, rw (h (b ∷ more), read_all) refl)
