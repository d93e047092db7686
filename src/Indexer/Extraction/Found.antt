-- ===== src/Indexer/Extraction/Found.antt =====
-- indexer/src/events.ts `extractEscrowEvents`: what the loops over the groups and the instructions
-- collect.
use ppv.Base.{
  option_eq, list_eq, nat_eq, ℕ, zero, suc, ◌+◌, ◌≡◌, ◌↔◌, inl, inr, refl, sym, ap, ◌∙◌, subst,
  arith, true, false, Option, none, some, List, [], ◌∷◌, ◌++◌, get_elem?, Bool-cases,
}
use ppv.Base.Result.{ok, >>=-eq-ok}
use ppv.Base.Int.{ℤ}
use ppv.Base.Text.{Bytes}
use ppv.Base.Members.{In, In-append}
use ppv.Escrow.Events.{PpvEscrowEvent}
use ppv.Escrow.Receipts.{EscrowEventEnvelope}
use ppv.Indexer.Extraction.{
  RpcInstruction, RpcInnerInstructions, Source, is_event_call, read_event, envelope_at, with_event,
  extract_group, extract_groups,
}

module _ (sha256 : Bytes → Bytes) where
  -- An envelope of the instructions of a group, which are numbered from `n`.
  pub record Found (s : Source) (group : ℤ) (n : ℕ) (is : List RpcInstruction)
      (e : EscrowEventEnvelope) : Type 0 where
    pub at : ℕ
    pub number : ℕ
    pub instruction : RpcInstruction
    pub event : PpvEscrowEvent
    pub stands : get_elem? is at ≡ some instruction
    pub counted : number ≡ n + at
    pub is_call : is_event_call s.program_id s.authority s.keys instruction ≡ true
    pub reads : read_event sha256 instruction.payload ≡ ok (some event)
    pub is_envelope : e ≡ envelope_at s group number event

  later :
      (s : Source) (group : ℤ) (n : ℕ) (i : RpcInstruction) (is : List RpcInstruction)
      (e : EscrowEventEnvelope)
      → Found s group (suc n) is e
      → Found s group n (i ∷ is) e
  later s group n i is e f = record {
    at = suc (f.at);
    number = f.number;
    instruction = f.instruction;
    event = f.event;
    stands = f.stands;
    counted = let c = f.counted in omega arith;
    is_call = f.is_call;
    reads = f.reads;
    is_envelope = f.is_envelope;
  }

  extract_group-Found :
      (s : Source) (group : ℤ) (n : ℕ) (is : List RpcInstruction) {es : List EscrowEventEnvelope}
      (e : EscrowEventEnvelope)
      → extract_group sha256 s group n is ≡ ok es
      → In e es
      → Found s group n is e
  unfolding extract_group
  extract_group-Found s group n [] e h i = absurd (let k : [] ≡ _ = cc in subst (In e) (sym k) i)
  extract_group-Found s group n (x ∷ is) {es} e h i =
      elim (Bool-cases (is_event_call s.program_id s.authority s.keys x)) [
        | inr c ↦
            later s group n x is e
              (extract_group-Found s group (suc n) is e (rw (c, extract_group) at h) i)
        | inl c ↦
            let (o, reads, h1) =
              >>=-eq-ok (read_event sha256 x.payload) _ (rw (c, extract_group) at h) in
            let (rest, made, h2) = >>=-eq-ok (extract_group sha256 s group (suc n) is) _ h1 in
            let q : with_event s group n o rest ≡ es = cc in
            here c o rest reads (extract_group-Found s group (suc n) is e made)
              (subst (In e) (sym q) i)
      ]
    where
      here :
          is_event_call s.program_id s.authority s.keys x ≡ true
          → (o : Option PpvEscrowEvent) (rest : List EscrowEventEnvelope)
          → read_event sha256 x.payload ≡ ok o
          → (In e rest → Found s group (suc n) is e)
          → In e (with_event s group n o rest)
          → Found s group n (x ∷ is) e
      here c none rest reads rec j = later s group n x is e (rec j)
      here c (some event) rest reads rec (inl q) = record {
        at = 0;
        number = n;
        instruction = x;
        event = event;
        stands = refl;
        counted = omega arith;
        is_call = c;
        reads = reads;
        is_envelope = q;
      }
      here c (some event) rest reads rec (inr j) = later s group n x is e (rec j)

  Found-extract_group :
      (s : Source) (group : ℤ) (n : ℕ) (is : List RpcInstruction) {es : List EscrowEventEnvelope}
      (e : EscrowEventEnvelope)
      → extract_group sha256 s group n is ≡ ok es
      → Found s group n is e
      → In e es
  unfolding extract_group
  Found-extract_group s group n [] e h f = absurd (let k = f.stands in cc)
  Found-extract_group s group n (x ∷ is) {es} e h f =
      elim (Bool-cases (is_event_call s.program_id s.authority s.keys x)) [
        | inr c ↦ Found-extract_group s group (suc n) is e (rw (c, extract_group) at h) (
            skip_call c (f.at) f.number f.instruction f.event f.stands f.counted f.is_call f.reads
              f.is_envelope)
        | inl c ↦
            let (o, reads, h1) =
              >>=-eq-ok (read_event sha256 x.payload) _ (rw (c, extract_group) at h) in
            let (rest, made, h2) = >>=-eq-ok (extract_group sha256 s group (suc n) is) _ h1 in
            let q : with_event s group n o rest ≡ es = cc in
            subst (In e) q (
              there o rest reads (λ g. Found-extract_group s group (suc n) is e made g) (f.at)
                f.number f.instruction f.event f.stands f.counted f.is_call f.reads f.is_envelope)
      ]
    where
      skip_call :
          is_event_call s.program_id s.authority s.keys x ≡ false
          → (k m : ℕ) (i : RpcInstruction) (ev : PpvEscrowEvent) → get_elem? (x ∷ is) k ≡ some i
          → m ≡ n + k
          → is_event_call s.program_id s.authority s.keys i ≡ true
          → read_event sha256 i.payload ≡ ok (some ev)
          → e ≡ envelope_at s group m ev
          → Found s group (suc n) is e
      skip_call c zero m i ev g l call r q = absurd (
          let d : x ≡ i = cc in let d' = ap (is_event_call s.program_id s.authority s.keys) d in cc)
      skip_call c (suc k) m i ev g l call r q = record {
        at = k;
        number = m;
        instruction = i;
        event = ev;
        stands = g;
        counted = omega arith;
        is_call = call;
        reads = r;
        is_envelope = q;
      }

      there :
          (o : Option PpvEscrowEvent) (rest : List EscrowEventEnvelope)
          → read_event sha256 x.payload ≡ ok o
          → (Found s group (suc n) is e → In e rest)
          → (k m : ℕ) (i : RpcInstruction) (ev : PpvEscrowEvent) → get_elem? (x ∷ is) k ≡ some i
          → m ≡ n + k
          → is_event_call s.program_id s.authority s.keys i ≡ true
          → read_event sha256 i.payload ≡ ok (some ev)
          → e ≡ envelope_at s group m ev
          → In e (with_event s group n o rest)
      there none rest reads rec zero m i ev g l call r q = absurd (
          let d : x ≡ i = cc in
          let d' = ap (λ (t : RpcInstruction). read_event sha256 t.payload) d in cc)
      there (some event) rest reads rec zero m i ev g l call r q =
          let d : x ≡ i = cc in
          let d' : ok (some event) ≡ ok (some ev) =
            sym reads ∙ (ap (λ (t : RpcInstruction). read_event sha256 t.payload) d ∙ r) in
          let same : ev ≡ event = cc in
          let l' : m ≡ n = omega arith in
          inl (q ∙ (ap (λ t. envelope_at s group t ev) l' ∙ ap (envelope_at s group n) same))
      there none rest reads rec (suc k) m i ev g l call r q = rec (record {
        at = k;
        number = m;
        instruction = i;
        event = ev;
        stands = g;
        counted = omega arith;
        is_call = call;
        reads = r;
        is_envelope = q;
      })
      there (some event) rest reads rec (suc k) m i ev g l call r q = inr (
          rec (record {
            at = k;
            number = m;
            instruction = i;
            event = ev;
            stands = g;
            counted = omega arith;
            is_call = call;
            reads = r;
            is_envelope = q;
          }))

  abbrev pub FoundIn : Source → List RpcInnerInstructions → EscrowEventEnvelope → Type 0
  FoundIn s gs e = (g : RpcInnerInstructions) × In g gs × Found s g.index 0 g.instructions e

  pub extract_groups-FoundIn :
      (s : Source) (gs : List RpcInnerInstructions) {es : List EscrowEventEnvelope}
      (e : EscrowEventEnvelope)
      → extract_groups sha256 s gs ≡ ok es
      → In e es ↔ FoundIn s gs e
  unfolding extract_groups
  extract_groups-FoundIn s [] {es} e h =
      let q : [] ≡ es = cc in (λ i. absurd (subst (In e) (sym q) i), λ f. absurd (f.1))
  extract_groups-FoundIn s (g ∷ gs) {es} e h =
      let (own, a, h1) = >>=-eq-ok (extract_group sha256 s g.index 0 g.instructions) _ h in
      let (rest, b, h2) = >>=-eq-ok (extract_groups sha256 s gs) _ h1 in
      let q : own ++ rest ≡ es = cc in
      let rec = extract_groups-FoundIn s gs e b in
      (
        λ i. elim ((In-append e own rest).0 (subst (In e) (sym q) i)) [
          | inl j ↦ (g, inl refl, extract_group-Found s g.index 0 g.instructions e a j)
          | inr j ↦ let (g', k, f) = rec.0 j in (g', inr k, f)
        ],
        λ (g', k, f). subst (In e) q (
            (In-append e own rest).1 (elim k [
              | inl same ↦ inl (
                  Found-extract_group s g.index 0 g.instructions e a (
                    subst (λ (x : RpcInnerInstructions). Found s x.index 0 x.instructions e) same
                      f))
              | inr j ↦ inr (rec.1 (g', j, f))
            ])),
      )
