-- ===== src/Indexer/Replay/Histories.antt =====
-- indexer/src/replay.ts `signatureHistory`: its loop ends, and what the history holds.
use ppv.Base.{
  ℕ, zero, suc, ◌+◌, ◌<◌, ◌≡◌, ◌≢◌, refl, arith, false, Option, none, some, List, [], ◌∷◌, ◌++◌,
  leb, ltb, length, length-append, Bool-cases, Option-cases, inl, inr,
}
use ppv.Base.Result.{err, Result-cases}
use ppv.Base.Text.{Text}
use ppv.Indexer.Replay.{
  RpcSignatureEntry, out_of_fuel, ReplayOptions, Pages, take_page, stop_at, last_signature, collect,
  signature_history,
}

-- A page of which no entry is the one to stop at is taken whole.
length-take_page :
    (stop : Option Text) (es : List RpcSignatureEntry)
    → (take_page stop es).1 ≡ false
    → length ((take_page stop es).0) ≡ length es
unfolding take_page
length-take_page stop [] h = refl
length-take_page stop (e ∷ es) h = ground (arith, length-take_page stop es)

-- A page that is taken whole makes the collection longer, as long as the most is not reached.
longer :
    (stop : Option Text) (max fuel : ℕ) (collected : List RpcSignatureEntry) (e : RpcSignatureEntry)
    (es : List RpcSignatureEntry)
    → (take_page stop (e ∷ es)).1 ≡ false
    → leb max (length (collected ++ (take_page stop (e ∷ es)).0)) ≡ false
    → max < length collected + suc fuel
    → (max < length (collected ++ (take_page stop (e ∷ es)).0) + fuel) × (0 < fuel)
longer stop max fuel collected e es s l h =
    let n = length-take_page stop (e ∷ es) s in
    let m = length-append collected ((take_page stop (e ∷ es)).0) in
    let b = below (length (collected ++ (take_page stop (e ∷ es)).0)) max l in
    (omega arith, omega arith)
  where
    below : (a b : ℕ) → leb b a ≡ false → a < b
    below a b k = ground arith

module _ {E : Type 0} (pages : Pages E) (options : ReplayOptions) where
  collect-ne-out_of_fuel :
      (fuel : ℕ) (before : Option Text) (collected : List RpcSignatureEntry)
      → options.max_signatures < length collected + fuel
      → 0 < fuel
      → collect pages options fuel before collected ≢ err out_of_fuel
  unfolding collect
  collect-ne-out_of_fuel zero before collected h p = absurd (omega arith)
  collect-ne-out_of_fuel (suc fuel) before collected h p =
      elim (Result-cases (pages before options.page_size)) [
        | inr (x, e) ↦ rw (e, collect) (λ k. cc)
        | inl ([], e) ↦ rw (e, collect) (λ k. cc)
        | inl (y ∷ ys, e) ↦
            rw (e, collect)
              (elim (Bool-cases ((take_page (stop_at options.until) (y ∷ ys)).1)) [
                | inl s ↦ rw s (λ k. cc)
                | inr s ↦
                    rw s
                      (elim (Bool-cases (
                        leb options.max_signatures
                          (length (collected ++ (take_page (stop_at options.until) (y ∷ ys)).0)))) [
                            | inl l ↦ rw l (λ k. cc)
                            | inr l ↦
                                rw l (elim (Bool-cases (ltb (length (y ∷ ys)) options.page_size)) [
                                  | inl m ↦ rw m (λ k. cc)
                                  | inr m ↦ rw m (elim (Option-cases (last_signature (y ∷ ys))) [
                                    | inl o ↦ rw o (λ k. cc)
                                    | inr (b, o) ↦ rw o (
                                        let (x, z) =
                                          longer (stop_at options.until) options.max_signatures fuel
                                            collected y ys s l h in
                                        collect-ne-out_of_fuel fuel (some b)
                                          (collected
                                            ++ (take_page (stop_at options.until) (y ∷ ys)).0)
                                          x z)
                                  ])
                                ])
                          ])
              ])
      ]

  -- The paging of a history comes to an end whatever pages the source gives, also where it gives the
  -- same page again: within one round more than the most signatures allowed.
  pub signature_history-ne-out_of_fuel : signature_history pages options ≢ err out_of_fuel
  unfolding signature_history
  signature_history-ne-out_of_fuel =
      collect-ne-out_of_fuel (suc options.max_signatures) none [] (omega arith) (omega arith)
