-- ===== src/Tests/Utf8.antt =====
-- UTF-8 of the euro sign, and an array that ends inside a code point.
use jev_bush.Prelude.{ℕ, ◌+◌, ◌≡◌, ◌↔◌, refl, arith, List, [], ◌∷◌, length, Holds}
use jev_bush.Fault.{ok, err, invalid_utf8}
use jev_bush.Utf8.{put_utf8, next_cp}
use jev_bush.Utf8.RoundTrip.{IsScalar, next_cp_iff}
use jev_bush.Utf8.Safety.{OnlyInvalid, next_cp-OnlyInvalid}

abbrev euro : List ℕ
euro = b'a' ∷ 0xe2 ∷ 0x82 ∷ 0xac ∷ []

abbrev overlong : List ℕ
overlong = 0xc0 ∷ 0x80 ∷ []

put_euro : put_utf8 0x20ac ≡ 0xe2 ∷ 0x82 ∷ 0xac ∷ []
unfolding put_utf8
put_euro = refl

next_euro : next_cp euro 4 1 ≡ ok (0x20ac, 4)
unfolding next_cp
next_euro = refl

next_overlong : next_cp overlong 2 0 ≡ err invalid_utf8
unfolding next_cp
next_overlong = refl

next_cp_iff_example :
    (next_cp euro (length euro) 1 ≡ ok (0x20ac, 4))
    ↔ (IsScalar 0x20ac × Holds euro 1 (put_utf8 0x20ac) × (4 ≡ 1 + length (put_utf8 0x20ac)))
next_cp_iff_example = next_cp_iff euro 1 (omega arith) 0x20ac 4

next_cp-OnlyInvalid_example : OnlyInvalid (next_cp overlong (length overlong) 0)
next_cp-OnlyInvalid_example = next_cp-OnlyInvalid overlong 0 (omega arith)
