-- ===== src/Accounts/Sizes.antt =====
-- The lengths that the decoders of sdk/src/escrow/accounts.ts accept, and the sizes that the file
-- exports.
use ppv.Base.{
  ℕ, zero, suc, ◌+◌, ◌*◌, ◌≡◌, refl, sym, arith, Bool-cases, inl, inr, [], ◌∷◌, length, drop,
  take_front, ◌==◌, list_eq, if◌then◌else◌, ◌-◌, ◌⊎◌,
}
use ppv.Base.Result.{Result, ok, err}
use ppv.Base.Text.{Text, Bytes}
use ppv.Escrow.States.{RangeError, unsafe_integer, trailing_bytes, wrong_discriminator}
use ppv.Escrow.Events.Reader.{
  Reader, ◌>>=◌, pure, lift, take, pubkey, u8, u32, u64, i64, hex_32, state, agreement_type,
  proof_status, milestone_state, skip, read_all, behind_discriminator, safe_integer, signed_64,
}
use ppv.Accounts.Escrow.{
  read_escrow_agreement_account, read_proof_account, read_milestone_account,
  decode_escrow_agreement_account, decode_proof_account, decode_milestone_account,
}

abbrev pub escrow_agreement_account_size : ℕ
escrow_agreement_account_size =
    8 + 4 + 32 * 2 + 8 + 1 + 32 * 2 + 8 + 32 + 1 + 8 * 4 + 4 + 32 + 32 + 8 + 4 * 2 + 8 * 2 + 40

abbrev pub proof_account_size : ℕ
proof_account_size = 8 + 2 + 32 * 3 + 4 + 1 + 8 * 2 + 32 + 32

abbrev pub milestone_account_size : ℕ
milestone_account_size = 8 + 2 + 32 + 4 + 8 + 32 + 1 + 32 + 8 * 4 + 32

-- Where the reader gives a result, it has read so many bytes.
record Reads {A : Type 0} (n : ℕ) (m : Reader A) : Type 0 where
  consumes : (bs : Bytes) (a : A) (rest : Bytes) → m bs ≡ ok (a, rest) → length bs ≡ n + length rest

-- A step that gave a result came from a step that gave one.
then_ok :
    {A B : Type 0} (r : Result RangeError (A × Bytes)) (next : A → Reader B) (b : B) (rest : Bytes)
    → elim r [ ok (a, left) ↦ next a left | err e ↦ err e ] ≡ ok (b, rest)
    → (a : A) × (left : Bytes) × (r ≡ ok (a, left)) × (next a left ≡ ok (b, rest))
then_ok (ok (a, left)) next b rest h = (a, left, refl, h)
then_ok (err e) next b rest h = absurd (cc)

Reads-bind :
    {A B : Type 0} {k l : ℕ} {m : Reader A} {f : A → Reader B}
    → Reads k m
    → ((a : A) → Reads l (f a))
    → Reads (k + l) (m >>= f)
Reads-bind {m = m} {f = f} hm hf = record {
  consumes = λ bs b rest h.
      let (a, left, e, k) = then_ok (m bs) f b rest h in
      let x = hm.consumes bs a left e in let y = (hf a).consumes left b rest k in omega arith;
}

nothing : (bs rest : Bytes) → bs ≡ rest → length bs ≡ 0 + length rest
nothing bs rest same = rw same (omega arith)

Reads-pure : {A : Type 0} {a : A} → Reads 0 (pure a)
Reads-pure = record { consumes = λ bs b rest h. nothing bs rest cc }

Reads-lift : {A : Type 0} (r : Result RangeError A) → Reads 0 (lift r)
Reads-lift (ok a) = record { consumes = λ bs b rest h. nothing bs rest cc }
Reads-lift (err e) = record { consumes = λ bs b rest h. absurd cc }

take-length :
    (n : ℕ) (bs slice rest : Bytes) → take n bs ≡ ok (slice, rest) → length bs ≡ n + length rest
unfolding take
take-length zero bs a rest h = nothing bs rest cc
take-length (suc n) [] a rest h = absurd cc
take-length (suc n) (b ∷ bs) a rest h =
    let (slice, left, e, k) = then_ok (take n bs) (λ slice. pure (b ∷ slice)) a rest h in
    let x = take-length n bs slice left e in
    let same : left ≡ rest = cc in rw (sym same) (omega arith)

take-Reads : (n : ℕ) → Reads n (take n)
take-Reads n = record { consumes = take-length n }

taken : {A : Type 0} (n : ℕ) (f : Bytes → A) → Reads (n + 0) (take n >>= λ bytes. pure (f bytes))
taken n f = Reads-bind (take-Reads n) (λ bytes. Reads-pure)

u8-Reads : Reads 1 u8
unfolding u8
u8-Reads = taken 1 _

u32-Reads : Reads 4 u32
unfolding u32
u32-Reads = taken 4 _

u64-Reads : Reads 8 u64
unfolding u64
u64-Reads = taken 8 _

pubkey-Reads : Reads 32 pubkey
unfolding pubkey
pubkey-Reads = taken 32 _

hash-Reads : Reads 32 hex_32
unfolding hex_32
hash-Reads = taken 32 _

skip-Reads : (n : ℕ) → Reads (n + 0) (skip n)
unfolding skip
skip-Reads n = taken n _

index-Reads : {A : Type 0} (f : ℕ → Result RangeError A) → Reads 1 (u8 >>= λ i. lift (f i))
index-Reads f = Reads-bind u8-Reads (λ i. Reads-lift (f i))

i64-Reads : Reads 8 i64
unfolding i64
i64-Reads = Reads-bind u64-Reads (λ word. branch word)
  where
    branch :
        (word : ℕ)
        → Reads 0 (
            if safe_integer (signed_64 word)
            then pure (signed_64 word)
            else lift (err unsafe_integer))
    branch word = elim (Bool-cases (safe_integer (signed_64 word))) [
      | inl e ↦ rw e Reads-pure
      | inr e ↦ rw e (Reads-lift (err unsafe_integer))
    ]

state-Reads : Reads 1 state
unfolding state
state-Reads = index-Reads _

agreement_type-Reads : Reads 1 agreement_type
unfolding agreement_type
agreement_type-Reads = index-Reads _

proof_status-Reads : Reads 1 proof_status
unfolding proof_status
proof_status-Reads = index-Reads _

milestone_state-Reads : Reads 1 milestone_state
unfolding milestone_state
milestone_state-Reads = index-Reads _

escrow_agreement-Reads : Reads (escrow_agreement_account_size - 8) read_escrow_agreement_account
unfolding read_escrow_agreement_account
escrow_agreement-Reads = Reads-bind u8-Reads λ _. Reads-bind u8-Reads λ _. Reads-bind u8-Reads λ _.
    Reads-bind u8-Reads λ _. Reads-bind pubkey-Reads λ _. Reads-bind pubkey-Reads λ _.
      Reads-bind u64-Reads λ _. Reads-bind agreement_type-Reads λ _. Reads-bind pubkey-Reads λ _.
        Reads-bind pubkey-Reads λ _. Reads-bind u64-Reads λ _. Reads-bind hash-Reads λ _.
          Reads-bind state-Reads λ _. Reads-bind i64-Reads λ _. Reads-bind i64-Reads λ _.
            Reads-bind i64-Reads λ _. Reads-bind i64-Reads λ _. Reads-bind u32-Reads λ _.
              Reads-bind pubkey-Reads λ _. Reads-bind pubkey-Reads λ _. Reads-bind i64-Reads λ _.
                Reads-bind u32-Reads λ _. Reads-bind u32-Reads λ _.
                  Reads-bind u64-Reads
                    λ _. Reads-bind u64-Reads λ _. Reads-bind (skip-Reads 40) λ _. Reads-pure

proof-Reads : Reads (proof_account_size - 8) read_proof_account
unfolding read_proof_account
proof-Reads = Reads-bind u8-Reads λ _. Reads-bind u8-Reads λ _. Reads-bind pubkey-Reads λ _.
    Reads-bind pubkey-Reads λ _. Reads-bind pubkey-Reads λ _. Reads-bind u32-Reads λ _.
      Reads-bind proof_status-Reads λ _. Reads-bind i64-Reads λ _.
        Reads-bind i64-Reads
          λ _. Reads-bind pubkey-Reads λ _. Reads-bind (skip-Reads 32) λ _. Reads-pure

milestone-Reads : Reads (milestone_account_size - 8) read_milestone_account
unfolding read_milestone_account
milestone-Reads = Reads-bind u8-Reads λ _. Reads-bind u8-Reads λ _. Reads-bind pubkey-Reads λ _.
    Reads-bind u32-Reads λ _. Reads-bind u64-Reads λ _. Reads-bind hash-Reads λ _.
      Reads-bind milestone_state-Reads λ _. Reads-bind pubkey-Reads λ _. Reads-bind i64-Reads λ _.
        Reads-bind i64-Reads λ _.
          Reads-bind i64-Reads
            λ _. Reads-bind i64-Reads λ _. Reads-bind (skip-Reads 32) λ _. Reads-pure

-- A decoder that checks the discriminator, reads so many bytes and wants no more.
decoded_size :
    {A : Type 0} (n : ℕ) (m : Reader A) (discriminator bytes : Bytes) (a : A)
    → Reads (suc n) m
    → behind_discriminator discriminator (read_all m) bytes ≡ ok a
    → length bytes ≡ 8 + suc n
decoded_size {A = A} n m discriminator bytes a reads h =
    elim (Bool-cases (take_front 8 bytes == discriminator)) [
      | inl e ↦
          let k : read_all m (drop 8 bytes) ≡ ok a = rw e at h in
          let body : length (drop 8 bytes) ≡ suc n = whole (m (drop 8 bytes)) refl k in
          long 8 n bytes body
      | inr e ↦ let k : err wrong_discriminator ≡ ok a = rw e at h in absurd cc
    ]
  where
    whole :
        (r : Result RangeError (A × Bytes))
        → m (drop 8 bytes) ≡ r
        → elim r [ ok (a, []) ↦ ok a | ok (a, b ∷ rest) ↦ err trailing_bytes | err e ↦ err e ]
          ≡ ok a
        → length (drop 8 bytes) ≡ suc n
    whole (ok (a', [])) e h = let x = reads.consumes (drop 8 bytes) a' [] e in omega arith
    whole (ok (a', b ∷ rest)) e h = absurd cc
    whole (err x) e h = absurd cc

    long : (k n : ℕ) (bs : Bytes) → length (drop k bs) ≡ suc n → length bs ≡ k + suc n
    long zero n bs h = omega arith
    long (suc k) n [] h = absurd (omega arith)
    long (suc k) n (b ∷ bs) h = let x = long k n bs h in omega arith

-- An account out of so many bytes, or an error.
abbrev pub IsSized : {A : Type 0} → ℕ → Bytes → Result RangeError A → Type 0
IsSized {A} n bytes r =
    ((a : A) × (r ≡ ok a) × (length bytes ≡ n)) ⊎ ((e : RangeError) × (r ≡ err e))

sized :
    {A : Type 0} (n : ℕ) (bytes : Bytes) (r : Result RangeError A)
    → ((a : A) → r ≡ ok a → length bytes ≡ n)
    → IsSized n bytes r
sized n bytes (ok a) h = inl (a, refl, h a refl)
sized n bytes (err e) h = inr (e, refl)

-- Whatever SHA-256 is and whatever the bytes are: decoding them as an escrow agreement, as a proof
-- or as a milestone gives an account only where they are exactly as many as the size that is
-- exported for that account, and an error otherwise.
pub decode_account-IsSized :
    (sha256 : Text → Bytes) (bytes : Bytes)
    → IsSized escrow_agreement_account_size bytes (decode_escrow_agreement_account sha256 bytes)
      × IsSized proof_account_size bytes (decode_proof_account sha256 bytes)
      × IsSized milestone_account_size bytes (decode_milestone_account sha256 bytes)
unfolding decode_escrow_agreement_account decode_proof_account decode_milestone_account
decode_account-IsSized sha256 bytes = (
  sized escrow_agreement_account_size bytes _
      (λ a h. decoded_size 353 read_escrow_agreement_account _ bytes a escrow_agreement-Reads h),
  sized proof_account_size bytes _
      (λ a h. decoded_size 182 read_proof_account _ bytes a proof-Reads h),
  sized milestone_account_size bytes _
      (λ a h. decoded_size 174 read_milestone_account _ bytes a milestone-Reads h),
)
