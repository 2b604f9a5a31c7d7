-- ===== src/Base64/Tests.antt =====
-- Tests of Base64, and the witnesses of its properties.
use vitaki_vitarps.Base.{ℕ, List, [], ◌∷◌, ◌≡◌, ◌++◌, refl, ok, arith}
use vitaki_vitarps.Base64.Codec.{encode, decode}
use vitaki_vitarps.Base64.RoundTrip.{decode-encode}

test_encode : encode (77 ∷ 97 ∷ []) 100 ≡ ok (84 ∷ 87 ∷ 69 ∷ 61 ∷ 0 ∷ [])
unfolding encode
test_encode = refl

test_decode : decode (84 ∷ 87 ∷ 69 ∷ 61 ∷ []) 100 ≡ ok (77 ∷ 97 ∷ [])
unfolding decode
test_decode = refl

decode-encode_example :
    (text : List ℕ) × (encode (200 ∷ 0 ∷ 255 ∷ 7 ∷ []) 9 ≡ ok (text ++ (0 ∷ [])))
    × (decode text 4 ≡ ok (200 ∷ 0 ∷ 255 ∷ 7 ∷ []))
decode-encode_example =
    decode-encode (200 ∷ 0 ∷ 255 ∷ 7 ∷ []) 9 4
      (omega arith, (omega arith, (omega arith, (omega arith, tt)))) (omega arith) (omega arith)
