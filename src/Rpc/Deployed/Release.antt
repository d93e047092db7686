-- ===== src/Rpc/Deployed/Release.antt =====
-- scripts/lib/rpc.mjs `readDeployedProgram`: what is found of a program that a release is compared
-- with.
use ppv.Base.{
  ℕ, ◌≡◌, refl, sym, ap, ◌∙◌, Bool-cases, inl, inr, Option, none, some, List, ◌++◌, ◌==◌, ==_iff,
  list_eq, take_front, drop, subst, length-take_front,
}
use ppv.Base.Result.{Result, ok, err, ◌>>=◌, >>=-eq-ok}
use ppv.Base.Text.{Text, Bytes, hex}
use ppv.Base58.{encode_base58}
use ppv.Rpc.Deployed.{
  upgradeable_loader_id, AccountInfo, DeployedError, DeployedProgram, undeployed,
  decode_program_data_authority, decode_program_data_address, code_of, map_failure,
  read_program_data, read_linked, read_program, read_deployed_program,
}
use ppv.Rpc.Deployed.Layout.{HoldsRelease, take_front-drop, code_of-some, program_data-long}

-- The account of the program is one of the upgradeable loader and links to the account that the
-- state names, whose bytes hold the binary.
pub record Deployed {E : Type 0} (sha256 base64 : List ℕ → Bytes)
    (account_info : Text → Result E (Option AccountInfo)) (n : ℕ) (program_id : Text)
    (state : DeployedProgram) (binary : Bytes) : Type 0 where
  pub program : AccountInfo
  pub key : Bytes
  pub data_account : AccountInfo
  pub found : account_info program_id ≡ ok (some program)
  pub of_loader : program.owner ≡ upgradeable_loader_id
  pub linked : decode_program_data_address {E = E} (base64 program.payload) ≡ ok key
  pub named : state.program_data_address ≡ some (encode_base58 key)
  pub data_found : account_info (encode_base58 key) ≡ ok (some data_account)
  pub release : HoldsRelease n (base64 data_account.payload) binary state.padding_length
  pub hash : state.deployed_binary_hash ≡ some (hex (sha256 binary))

map_failure-ok : {E A : Type 0} (r : Result E A) (a : A) → map_failure r ≡ ok a → r ≡ ok a
map_failure-ok (ok b) a h = cc
map_failure-ok (err e) a h = absurd cc

from_ok : {E A B : Type 0} (f : A → B) {a c : A} → Path (Result E A) (ok a) (ok c) → f a ≡ f c
from_ok f h = ap f (ok_injective h)
  where
    ok_injective : {E A : Type 0} {a c : A} → Path (Result E A) (ok a) (ok c) → a ≡ c
    ok_injective h = cc

module _ {E : Type 0} (sha256 base64 : List ℕ → Bytes)
    (account_info : Text → Result E (Option AccountInfo)) (n : ℕ) where
  -- What reading the account of the code leaves as it was, and what it finds.
  read_program_data-HoldsRelease :
      (start state : DeployedProgram) (data_account : AccountInfo) (binary : Bytes)
      → read_program_data sha256 base64 account_info (some n) start data_account ≡ ok state
      → state.deployed_binary ≡ some binary
      → (state.program_data_address ≡ start.program_data_address)
        × HoldsRelease n (base64 data_account.payload) binary state.padding_length
        × (state.deployed_binary_hash ≡ some (hex (sha256 binary)))
  unfolding read_program_data
  read_program_data-HoldsRelease start state data_account binary h b =
      let bytes = base64 data_account.payload in
      let (decoded, d, h1) = >>=-eq-ok (decode_program_data_authority {E = E} bytes) _ h in
      let ((code, padding), c, h2) = >>=-eq-ok (code_of {E = E} (some n) (drop 45 bytes)) _ h1 in
      let same : some code ≡ some binary = from_ok (λ s. s.deployed_binary) h2 ∙ b in
      let code_is : code ≡ binary = cc in
      let c' : code_of {E = E} (some n) (drop 45 bytes) ≡ ok (binary, padding) =
        subst (λ (t : Bytes). code_of {E = E} (some n) (drop 45 bytes) ≡ ok (t, padding)) code_is
          c in
      let (layout, size, zeros, p) = code_of-some n (drop 45 bytes) binary padding c' in
      let address = from_ok (λ s. s.program_data_address) h2 in
      let pad : padding ≡ state.padding_length = from_ok (λ s. s.padding_length) h2 in
      let hashed = from_ok (λ s. s.deployed_binary_hash) h2 in
      (
        sym address,
        record {
          header = take_front 45 bytes;
          padding = drop n (drop 45 bytes);
          layout =
              sym (take_front-drop 45 bytes)
              ∙ ap (λ (t : Bytes). take_front 45 bytes ++ t) (sym layout);
          header_size = length-take_front 45 bytes (program_data-long bytes decoded d);
          binary_size = size;
          is_padding = zeros;
          padding_size = sym pad ∙ p;
        },
        sym hashed ∙ ap (λ (t : Bytes). some (hex (sha256 t))) code_is,
      )

  read_linked-Deployed :
      (program_id : Text) (program : AccountInfo) (key : Bytes) (found : Option AccountInfo)
      (start state : DeployedProgram) (binary : Bytes)
      → account_info program_id ≡ ok (some program)
      → program.owner ≡ upgradeable_loader_id
      → decode_program_data_address {E = E} (base64 program.payload) ≡ ok key
      → account_info (encode_base58 key) ≡ ok found
      → start.program_data_address ≡ some (encode_base58 key)
      → start.deployed_binary ≡ none
      → read_linked sha256 base64 account_info (some n) start found ≡ ok state
      → state.deployed_binary ≡ some binary
      → Deployed sha256 base64 account_info n program_id state binary
  unfolding read_linked
  read_linked-Deployed program_id program key none start state binary f o k g a z h b =
      let same : start.deployed_binary ≡ state.deployed_binary =
        from_ok (λ s. s.deployed_binary) h in
      absurd (let e : none ≡ some binary = sym z ∙ (same ∙ b) in cc)
  read_linked-Deployed program_id program key (some data_account) start state binary f o k g a z h
        b =
      let (address, release, hashed) =
        read_program_data-HoldsRelease start state data_account binary h b in
      record {
        program = program;
        key = key;
        data_account = data_account;
        found = f;
        of_loader = o;
        linked = k;
        named = address ∙ a;
        data_found = g;
        release = release;
        hash = hashed;
      }

  read_program-Deployed :
      (program_id : Text) (program : AccountInfo) (state : DeployedProgram) (binary : Bytes)
      → account_info program_id ≡ ok (some program)
      → read_program sha256 base64 account_info (some n) (undeployed program_id program) program
        ≡ ok state
      → state.deployed_binary ≡ some binary
      → Deployed sha256 base64 account_info n program_id state binary
  unfolding read_program undeployed
  read_program-Deployed program_id program state binary f h b =
      elim (Bool-cases (program.owner == upgradeable_loader_id)) [
        | inl e ↦
            let owner = (==_iff program.owner upgradeable_loader_id).0 e in
            let (key, k, h1) =
              >>=-eq-ok (decode_program_data_address {E = E} (base64 program.payload)) _
                (rw e at h) in
            let (found, g, h2) = >>=-eq-ok (map_failure (account_info (encode_base58 key))) _ h1 in
            read_linked-Deployed program_id program key found _ state binary f owner k
              (map_failure-ok (account_info (encode_base58 key)) found g) refl refl h2 b
        | inr e ↦
            let k : Path (Result (DeployedError E) DeployedProgram)
                (ok (undeployed program_id program)) (ok state) =
              rw e at h in
            let same = from_ok (λ s. s.deployed_binary) k in
            absurd (let z : none ≡ some binary = same ∙ b in cc)
      ]

  -- Whatever the client, base64 and SHA-256 are: where a program is read against a release of a
  -- given length and a binary is reported, the program's account belongs to the upgradeable loader
  -- and links to the account of the reported address; the bytes of that account are a header of 45,
  -- the reported binary, of the length given, and zeros, as many as reported; and the reported hash
  -- is that of the binary.
  pub read_deployed_program-Deployed :
      (program_id : Text) (state : DeployedProgram) (binary : Bytes)
      → read_deployed_program sha256 base64 account_info (some n) program_id ≡ ok (some state)
      → state.deployed_binary ≡ some binary
      → Deployed sha256 base64 account_info n program_id state binary
  unfolding read_deployed_program
  read_deployed_program-Deployed program_id state binary h b =
      let (found, f, h1) = >>=-eq-ok (map_failure (account_info program_id)) _ h in
      present found (map_failure-ok (account_info program_id) found f) h1
    where
      present :
          (found : Option AccountInfo)
          → account_info program_id ≡ ok found
          → elim found [
            | none ↦ ok none
            | some program ↦
                read_program sha256 base64 account_info
                  (some n)
                  (undeployed program_id program)
                  program
                >>= λ state. ok (some state)
          ]
            ≡ ok (some state)
          → Deployed sha256 base64 account_info n program_id state binary
      present none f h = absurd cc
      present (some program) f h =
          let (s, r, e) =
            >>=-eq-ok
              (read_program sha256 base64 account_info (some n) (undeployed program_id program)
                program)
              _ h in
          let same : s ≡ state = cc in
          read_program-Deployed program_id program state binary f (r ∙ ap ok same) b
