-- ===== src/Base58/RoundTrip.antt =====
-- sdk/src/reputation/base58.ts: the texts that `encodeBase58` writes and `decodeBase58` reads.
use ppv.Base.{
  ℕ, ◌<◌, ◌≡◌, ◌↔◌, refl, sym, ap, ◌∙◌, arith, List, [], ◌++◌, All, map, replicate, option_eq,
  nat_eq, subst,
}
use ppv.Base.Result.{Result, ok, err}
use ppv.Base58.Fronts.{
  drop_front-NotLed, replicate-drop_front, count_front-replicate, NotLed, NotLed-Leads,
  drop_front-All, replicate-All,
}
use ppv.Base58.Characters.{decode_digits-map, decode_digits-digits, NotLed-map}
use ppv.Base.Text.{Text, Bytes}
use ppv.Base58.{
  alphabet, char_at, count_front, drop_front, encode_base58, decode_digits, prepend_zeros,
  decode_base58, Base58Error,
}
use ppv.Base58.Value.{IsProper}
use ppv.Base58.Conversion.{
  convert, encode_digits-convert, All-reverse, IsProper-digits, IsProper-Leads, convert-IsProper,
  convert-convert,
}
use mathlib.Core.List.{reverse, reverse-reverse}

decode_base58-encode_base58 :
    (bytes : Bytes) → All (λ b. b < 256) bytes → decode_base58 (encode_base58 bytes) ≡ ok bytes
unfolding decode_base58 encode_base58 prepend_zeros
decode_base58-encode_base58 bytes p =
    let body = drop_front 0 bytes in
    let es = convert 256 58 [] body in
    let leads = (NotLed-Leads body).0 (drop_front-NotLed 0 bytes) in
    let proper = (convert-IsProper 256 58 (omega arith) (omega arith) [] body tt).1 in
    let digits = All-reverse 58 es (IsProper-digits 58 es proper) in
    let (count, rest) =
      count_front-replicate 49 (count_front 0 bytes) (map (char_at alphabet) (reverse es))
        ((NotLed-map (reverse es) digits).1 (IsProper-Leads 58 es proper)) in
    let back =
      convert-convert 256 58 (omega arith) (omega arith) body leads (drop_front-All 0 bytes p) in
    rw
      (
        encode_digits-convert [] body,
        count,
        rest,
        decode_digits-map (reverse es) [] digits,
        back,
        reverse-reverse body,
      )
      (ap ok (replicate-drop_front 0 bytes))

encode_base58-decode_base58 :
    (text : Text) (bytes : Bytes)
    → decode_base58 text ≡ ok bytes
    → All (λ b. b < 256) bytes × (encode_base58 bytes ≡ text)
unfolding decode_base58 encode_base58
encode_base58-decode_base58 text bytes h =
    let (ds, read, same) =
      prepended (count_front 49 text) (decode_digits [] (drop_front 49 text)) h in
    let (xs, chars, digits, result) = decode_digits-digits (drop_front 49 text) [] ds read in
    let led = subst (NotLed 49) chars (drop_front-NotLed 49 text) in
    let leads = (NotLed-map xs digits).0 led in
    let (v, proper) = convert-IsProper 58 256 (omega arith) (omega arith) [] xs tt in
    let proper_ds : IsProper 256 ds = subst (IsProper 256) result proper in
    let bytes_ok = All-reverse 256 ds (IsProper-digits 256 ds proper_ds) in
    let (count, rest) =
      count_front-replicate 0 (count_front 49 text) (reverse ds)
        ((NotLed-Leads (reverse ds)).1 (IsProper-Leads 256 ds proper_ds)) in
    let back : convert 256 58 [] (reverse ds) ≡ reverse xs =
      ap (λ (t : List ℕ). convert 256 58 [] (reverse t)) (sym result)
      ∙ convert-convert 58 256 (omega arith) (omega arith) xs leads digits in
    (
      subst (All (λ b. b < 256)) same (replicate-All (count_front 49 text) (reverse ds) bytes_ok),
      rw
          (
            sym same,
            count,
            rest,
            encode_digits-convert [] (reverse ds),
            back,
            reverse-reverse xs,
            sym chars,
          )
          (replicate-drop_front 49 text),
    )
  where
    prepended :
        (n : ℕ) (r : Result Base58Error (List ℕ))
        → prepend_zeros n r ≡ ok bytes
        → (ds : List ℕ) × (r ≡ ok ds) × (replicate n 0 ++ reverse ds ≡ bytes)
    prepended n (ok ds) h = (ds, refl, cc)
    prepended n (err e) h = absurd (cc)

-- For every text and every list of numbers: the text decodes to them exactly where they are bytes
-- and the text is what they encode to. So each list of bytes is read back from the text it is
-- written as, and no other text is accepted for it.
pub decode_base58-iff-encode_base58 :
    (text : Text) (bytes : Bytes)
    → (decode_base58 text ≡ ok bytes) ↔ (All (λ b. b < 256) bytes × (encode_base58 bytes ≡ text))
decode_base58-iff-encode_base58 text bytes = (
  encode_base58-decode_base58 text bytes,
  λ (p, e). ap decode_base58 (sym e) ∙ decode_base58-encode_base58 bytes p,
)
