-- ===== src/Tests/Sha256.antt =====
-- The digest of "abc".
use jev_bush.Prelude.{ℕ, ◌≡◌, refl, List, [], ◌∷◌, true}
use jev_bush.Fault.{ok}
use jev_bush.Sha256.{sha256}

abc_digest :
    sha256 true (b'a' ∷ b'b' ∷ b'c' ∷ [])
    ≡ ok (
        0xba ∷ 0x78 ∷ 0x16 ∷ 0xbf ∷ 0x8f ∷ 0x1 ∷ 0xcf ∷ 0xea ∷ 0x41 ∷ 0x41 ∷ 0x40 ∷ 0xde ∷ 0x5d
        ∷ 0xae ∷ 0x22 ∷ 0x23 ∷ 0xb0 ∷ 0x3 ∷ 0x61 ∷ 0xa3 ∷ 0x96 ∷ 0x17 ∷ 0x7a ∷ 0x9c ∷ 0xb4 ∷ 0x10
        ∷ 0xff ∷ 0x61 ∷ 0xf2 ∷ 0x0 ∷ 0x15 ∷ 0xad ∷ [])
unfolding sha256
abc_digest = refl

abbrev abc : List ℕ
abc = b'a' ∷ b'b' ∷ b'c' ∷ []
