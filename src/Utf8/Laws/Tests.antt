-- ===== src/Utf8/Laws/Tests.antt =====
-- A euro sign, and a face outside the basic plane.
use hwfa.Common.{ℕ, List, [], ◌∷◌, ◌≡◌, refl}
use hwfa.Utf8.{utf8_from, utf8_encode, utf8_decode}
use hwfa.Utf8.Laws.{well_formed, utf8_decode-utf8_encode}

abbrev text : List ℕ
text = 0x41 ∷ 0xe9 ∷ 0x20ac ∷ 0xd83d ∷ 0xde00 ∷ []

encode_test :
    utf8_encode text ≡ 0x41 ∷ 0xc3 ∷ 0xa9 ∷ 0xe2 ∷ 0x82 ∷ 0xac ∷ 0xf0 ∷ 0x9f ∷ 0x98 ∷ 0x80 ∷ []
unfolding utf8_encode utf8_from
encode_test = refl

utf8_decode-utf8_encode_example : utf8_decode (utf8_encode text) ≡ text
unfolding well_formed
utf8_decode-utf8_encode_example = utf8_decode-utf8_encode text refl
