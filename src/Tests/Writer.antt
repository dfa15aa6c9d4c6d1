-- ===== src/Tests/Writer.antt =====
-- A text with a quote, a control character and the euro sign, written in both ways.
use jev_bush.Prelude.{ℕ, ◌+◌, ◌≡◌, inl, refl, arith, List, [], ◌∷◌, ◌++◌, true, false, length}
use jev_bush.Fault.{ok, err, invalid_utf8}
use jev_bush.Json.Tokens.{string, plain, string_scan}
use jev_bush.Json.Text.{check_utf8, string_copy_of}
use jev_bush.Buffer.{Buffer}
use jev_bush.Writer.{json_string}
use jev_bush.Writer.RoundTrip.{json_string-string_copy_of}

abbrev nothing_written : Buffer
nothing_written = record { content = []; cap = 0; limit = 0 }

abbrev price : List ℕ
price = b'"' ∷ 10 ∷ 0xe2 ∷ 0x82 ∷ 0xac ∷ []

price_written :
    json_string true nothing_written price false
    ≡ ok (record nothing_written {
      cap = 256;
      content = b'"' ∷ b'\\' ∷ b'"' ∷ b'\\' ∷ b'n' ∷ 0xe2 ∷ 0x82 ∷ 0xac ∷ b'"' ∷ [];
    })
unfolding json_string
price_written = refl

price_written_ascii :
    json_string true nothing_written price true
    ≡ ok (record nothing_written {
      cap = 256;
      content =
          b'"' ∷ b'\\' ∷ b'"' ∷ b'\\' ∷ b'n' ∷ b'\\' ∷ b'u' ∷ b'2' ∷ b'0' ∷ b'a' ∷ b'c' ∷ b'"' ∷ [];
    })
unfolding json_string
price_written_ascii = refl

overlong_refused : json_string true nothing_written (0xc0 ∷ 0x80 ∷ []) true ≡ err invalid_utf8
unfolding json_string
overlong_refused = refl

price_valid : check_utf8 (length price) price 0 ≡ ok tt
unfolding check_utf8
price_valid = refl

json_string-string_copy_of_example :
    (body : List ℕ) × (cap : ℕ) × (json_string true nothing_written price true
      ≡ ok (record nothing_written { cap = cap; content = [] ++ (b'"' ∷ (body ++ b'"' ∷ [])) }))
    × ((rest : List ℕ) → string_scan plain (body ++ b'"' ∷ rest) ≡ ok (length body + 1))
    × (string_copy_of string body ≡ ok price)
json_string-string_copy_of_example =
    json_string-string_copy_of nothing_written price true (omega arith) price_valid
      (inl (refl, refl)) refl (omega arith)
