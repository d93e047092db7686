-- ===== src/Base58/Tests.antt =====
-- The round trip at the bytes 0, 1, 0, 7.
use ppv.Base.{refl, ◌<◌, ◌≡◌, ◌↔◌, [], ◌∷◌, All}
use ppv.Base.Result.{ok}
use ppv.Base.Text.{Text, codes}
use ppv.Base58.{encode_base58, decode_base58}
use ppv.Base58.RoundTrip.{decode_base58-iff-encode_base58}

abbrev text : Text
text = codes "1LV4"

decode_base58-iff-encode_base58_example :
    (decode_base58 text ≡ ok (0 ∷ 1 ∷ 0 ∷ 7 ∷ []))
    ↔ (All (λ b. b < 256) (0 ∷ 1 ∷ 0 ∷ 7 ∷ []) × (encode_base58 (0 ∷ 1 ∷ 0 ∷ 7 ∷ []) ≡ text))
decode_base58-iff-encode_base58_example = decode_base58-iff-encode_base58 text (0 ∷ 1 ∷ 0 ∷ 7 ∷ [])

is_decoded : decode_base58 text ≡ ok (0 ∷ 1 ∷ 0 ∷ 7 ∷ [])
unfolding ppv.Base58.decode_base58
is_decoded = refl
