-- ===== src/Pdas/Bumps.antt =====
-- sdk/src/escrow/pdas.ts `findProgramAddress`: which bump it settles on.
use ppv.Base.{
  if◌then◌else◌, ℕ, zero, suc, ◌≤◌, ◌<◌, ◌≡◌, ◌⊎◌, inl, inr, refl, arith, Bool, true, false, List,
  [], ◌∷◌, ◌++◌, ltb, any, length, subst, Bool-cases, ◌∙◌, ap,
}
use ppv.Base.Result.{Result, ok, err, >>=-eq-ok, Result-cases}
use ppv.Base.Text.{Text, Bytes}
use ppv.Base58.{encode_base58}
use ppv.Curve.{is_on_curve}
use ppv.Pdas.{
  PdaError, address_on_curve, Derived, create_program_address, find_from, find_program_address,
  address_bytes, preimage, off_curve, is_curve_error, is_too_long, too_many_seeds, seed_too_long,
  max_seeds,
}

le_or_gt : (a b : ℕ) → (a ≤ b) ⊎ (b < a)
le_or_gt a b = ground arith

module _ (sha256 : Bytes → Bytes) where
  -- What the loop from `top` down settled on.
  record Settled (seeds : List Bytes) (program_id : Text) (top : ℕ) (d : Derived) : Type 0 where
    within : d.bump ≤ top
    created : create_program_address sha256 (seeds ++ (d.bump ∷ []) ∷ []) program_id ≡ ok d.address
    refused :
        (b : ℕ)
        → d.bump < b
        → b ≤ top
        → create_program_address sha256 (seeds ++ (b ∷ []) ∷ []) program_id ≡ err address_on_curve

  curve_error : (e : PdaError) → is_curve_error e ≡ true → e ≡ address_on_curve
  unfolding is_curve_error
  curve_error e h = ground arith

  at_once :
      (seeds : List Bytes) (program_id : Text) (top : ℕ) (a : Text) (d : Derived)
      → create_program_address sha256 (seeds ++ (top ∷ []) ∷ []) program_id ≡ ok a
      → ◌≡◌ {A = Result PdaError Derived} (ok (record { address = a; bump = top })) (ok d)
      → Settled seeds program_id top d
  at_once seeds program_id top a d e h =
      let q : record { address = a; bump = top } ≡ d = cc in
      subst (Settled seeds program_id top) q
        (record { within = omega arith; created = e; refused = λ b l k. absurd (omega arith) })

  lower :
      (seeds : List Bytes) (program_id : Text) (top : ℕ) (d : Derived)
      → create_program_address sha256 (seeds ++ (suc top ∷ []) ∷ []) program_id
        ≡ err address_on_curve
      → Settled seeds program_id top d
      → Settled seeds program_id (suc top) d
  lower seeds program_id top d e s = record {
    within = let w = s.within in omega arith;
    created = s.created;
    refused = λ b l k. elim (le_cases b top k) [ inl j ↦ s.refused b l j | inr q ↦ rw q e ];
  }
    where
      le_cases : (b n : ℕ) → b ≤ suc n → (b ≤ n) ⊎ (b ≡ suc n)
      le_cases b n k = ground arith

  find_from-Settled :
      (seeds : List Bytes) (program_id : Text) (top : ℕ) (d : Derived)
      → find_from sha256 seeds program_id top ≡ ok d
      → Settled seeds program_id top d
  unfolding find_from
  find_from-Settled seeds program_id zero d h =
      elim (Result-cases (create_program_address sha256 (seeds ++ (0 ∷ []) ∷ []) program_id)) [
        | inl (a, e) ↦ at_once seeds program_id 0 a d e (rw (e, find_from) at h)
        | inr (x, e) ↦ elim (Bool-cases (is_curve_error x)) [
          | inl c ↦ absurd (let k = rw (e, c, find_from) at h in cc)
          | inr c ↦ absurd (let k = rw (e, c, find_from) at h in cc)
        ]
      ]
  find_from-Settled seeds program_id (suc top) d h =
      elim (Result-cases
        (create_program_address sha256 (seeds ++ (suc top ∷ []) ∷ []) program_id)) [
          | inl (a, e) ↦ at_once seeds program_id (suc top) a d e (rw (e, find_from) at h)
          | inr (x, e) ↦ elim (Bool-cases (is_curve_error x)) [
            | inl c ↦
                lower seeds program_id top d (e ∙ ap err (curve_error x c))
                  (find_from-Settled seeds program_id top d (rw (e, c, find_from) at h))
            | inr c ↦ absurd (let k = rw (e, c, find_from) at h in cc)
          ]
        ]

  -- What stands behind a derived address: the bytes of a hash that are no point of the curve.
  pub record OffCurve (seeds : List Bytes) (program_id : Text) (d : Derived) : Type 0 where
    pub program : Bytes
    pub hash : Bytes
    pub is_program : address_bytes program_id ≡ ok program
    pub is_hash : hash ≡ sha256 (preimage (seeds ++ (d.bump ∷ []) ∷ []) program)
    pub not_on_curve : is_on_curve hash ≡ false
    pub is_address : d.address ≡ encode_base58 hash
    pub short_seeds : any is_too_long (seeds ++ (d.bump ∷ []) ∷ []) ≡ false

  create_program_address-OffCurve :
      (seeds : List Bytes) (program_id : Text) (d : Derived)
      → create_program_address sha256 (seeds ++ (d.bump ∷ []) ∷ []) program_id ≡ ok d.address
      → OffCurve seeds program_id d
  unfolding create_program_address
  create_program_address-OffCurve seeds program_id d h =
      let (short, k) =
        allowed (ltb max_seeds (length (seeds ++ (d.bump ∷ []) ∷ [])))
          (any is_too_long (seeds ++ (d.bump ∷ []) ∷ [])) _ h in
      let (program, is, made) = >>=-eq-ok (address_bytes program_id) _ k in
      let (off, address) =
        checked (sha256 (preimage (seeds ++ (d.bump ∷ []) ∷ []) program)) d.address made in
      record {
        program = program;
        hash = sha256 (preimage (seeds ++ (d.bump ∷ []) ∷ []) program);
        is_program = is;
        is_hash = refl;
        not_on_curve = off;
        is_address = address;
        short_seeds = short;
      }
    where
      allowed :
          (many long : Bool) (r : Result PdaError Text)
          → (if many then err too_many_seeds else if long then err seed_too_long else r)
            ≡ ok d.address
          → (long ≡ false) × (r ≡ ok d.address)
      allowed many long r k = ground arith

      checked :
          (bytes : Bytes) (a : Text)
          → off_curve bytes ≡ ok a
          → (is_on_curve bytes ≡ false) × (a ≡ encode_base58 bytes)
      checked bytes a k = ground arith

  -- The address that `findProgramAddress` returns is the text of a hash that is no point of the
  -- curve: the hash of the seeds, the bump, the program's 32 bytes and the marker, where the bump is
  -- at most 255 and no seed is longer than 32 bytes.
  pub find_program_address-OffCurve :
      (seeds : List Bytes) (program_id : Text) (d : Derived)
      → find_program_address sha256 seeds program_id ≡ ok d
      → (d.bump ≤ 255) × OffCurve seeds program_id d
  unfolding find_program_address
  find_program_address-OffCurve seeds program_id d h =
      let s = find_from-Settled seeds program_id 255 d h in
      (s.within, create_program_address-OffCurve seeds program_id d s.created)

  -- The bump that `findProgramAddress` returns is at most 255, the address that it returns is the one
  -- created with that bump, and no greater bump up to 255 creates an address.
  pub find_program_address-greatest :
      (seeds : List Bytes) (program_id : Text) (d : Derived) (b : ℕ) (a : Text)
      → find_program_address sha256 seeds program_id ≡ ok d
      → create_program_address sha256 (seeds ++ (b ∷ []) ∷ []) program_id ≡ ok a
      → b ≤ 255
      → (d.bump ≤ 255)
        × (create_program_address sha256 (seeds ++ (d.bump ∷ []) ∷ []) program_id ≡ ok d.address)
        × (b ≤ d.bump)
  unfolding find_program_address
  find_program_address-greatest seeds program_id d b a h c l =
      let s = find_from-Settled seeds program_id 255 d h in
      (
        s.within,
        s.created,
        elim (le_or_gt b d.bump) [ inl k ↦ k | inr k ↦ absurd (let q = s.refused b k l in cc) ],
      )
