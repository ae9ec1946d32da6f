-- ===== src/Sha256/Laws/Tests.antt =====
-- The test vectors of FIPS 180-4.
use hwfa.Common.{ℕ, List, [], ◌∷◌, ◌++◌, ◌≡◌, refl, arith, some}
use hwfa.Sha256.{zeros, pad, sha256}
use hwfa.Sha256.Laws.Padding.{big_endian, pad_lem}

abbrev abc : List ℕ
abc = 0x61 ∷ 0x62 ∷ 0x63 ∷ []

abc_test :
    sha256 abc
    ≡ 0xba ∷ 0x78 ∷ 0x16 ∷ 0xbf ∷ 0x8f ∷ 0x01 ∷ 0xcf ∷ 0xea ∷ 0x41 ∷ 0x41 ∷ 0x40 ∷ 0xde ∷ 0x5d
      ∷ 0xae ∷ 0x22 ∷ 0x23 ∷ 0xb0 ∷ 0x03 ∷ 0x61 ∷ 0xa3 ∷ 0x96 ∷ 0x17 ∷ 0x7a ∷ 0x9c ∷ 0xb4 ∷ 0x10
      ∷ 0xff ∷ 0x61 ∷ 0xf2 ∷ 0x00 ∷ 0x15 ∷ 0xad ∷ []
unfolding sha256
abc_test = refl

pad_lem_example : pad abc ≡ some (abc ++ (0x80 ∷ (zeros 52 ++ big_endian 24)))
pad_lem_example = pad_lem abc 52 (omega arith) refl
