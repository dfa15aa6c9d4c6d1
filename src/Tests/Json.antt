-- ===== src/Tests/Json.antt =====
-- Numbers, accepted and refused.
use jev_bush.Prelude.{ℕ, none, some, ◌≡◌, ◌↔◌, ◌⊎◌, refl, List, [], ◌∷◌, true, false}
use jev_bush.Json.Primitive.{true_bytes, false_bytes, null_bytes, skip_digits, primitive_valid}
use jev_bush.Fault.{ok, err, bad_primitive}
use jev_bush.Json.Tokens.{Token, object, array, string, primitive, string_scan, tokens_unchecked}
use jev_bush.Json.Tokens.Spans.{Sound}
use jev_bush.Utf8.{put_utf8}
use jev_bush.Json.Text.{string_copy, string_copy_into, string_alloc}
use jev_bush.Json.Text.Copy.{Copy, string_copy_into-Clean}
use jev_bush.Prelude.{arith}
use jev_bush.Fault.Clean.{Clean}
use jev_bush.Json.Tokens.Bounds.{AllSound, tokens_unchecked-Clean}
use jev_bush.Json.Primitive.Grammar.{IsNumber, primitive_valid_iff}

abbrev half_thousand : List ℕ
half_thousand = b'-' ∷ b'0' ∷ b'.' ∷ b'5' ∷ b'e' ∷ b'+' ∷ b'3' ∷ []

number_runs : primitive_valid half_thousand ≡ true
unfolding primitive_valid skip_digits
number_runs = refl

leading_zero : primitive_valid (b'0' ∷ b'1' ∷ []) ≡ false
unfolding primitive_valid skip_digits
leading_zero = refl

primitive_valid_iff_example : (primitive_valid half_thousand ≡ true) ↔ (
    (half_thousand ≡ true_bytes)
    ⊎ (half_thousand ≡ null_bytes)
    ⊎ (half_thousand ≡ false_bytes)
    ⊎ IsNumber half_thousand)
primitive_valid_iff_example = primitive_valid_iff half_thousand

-- {"a":[1]}
abbrev small_object : List ℕ
small_object = b'{' ∷ b'"' ∷ b'a' ∷ b'"' ∷ b':' ∷ b'[' ∷ b'1' ∷ b']' ∷ b'}' ∷ []

small_object_runs :
    tokens_unchecked small_object
    ≡ ok (
        record { kind = object; start = 0; end_at = some 9; parent = none; size = 2 }
        ∷ record { kind = string; start = 2; end_at = some 3; parent = some 0; size = 0 }
        ∷ record { kind = array; start = 5; end_at = some 8; parent = some 0; size = 1 }
        ∷ record { kind = primitive; start = 6; end_at = some 7; parent = some 2; size = 0 }
        ∷ [])
unfolding tokens_unchecked primitive_valid skip_digits
small_object_runs = refl

-- [1,]
trailing_comma : tokens_unchecked (b'[' ∷ b'1' ∷ b',' ∷ b']' ∷ []) ≡ err bad_primitive
unfolding tokens_unchecked primitive_valid skip_digits
trailing_comma = refl

tokens_unchecked-Clean_example : Clean (AllSound small_object) (tokens_unchecked small_object)
tokens_unchecked-Clean_example = tokens_unchecked-Clean small_object

-- "\u20ac"
abbrev escaped_euro : List ℕ
escaped_euro = b'"' ∷ b'\\' ∷ b'u' ∷ b'2' ∷ b'0' ∷ b'A' ∷ b'c' ∷ b'"' ∷ []

abbrev escaped_euro_token : Token
escaped_euro_token = record { kind = string; start = 1; end_at = some 7; parent = none; size = 0 }

escaped_euro-Sound : Sound escaped_euro escaped_euro_token
unfolding string_scan
escaped_euro-Sound = (7, refl, omega arith, omega arith, refl)

escaped_euro_copied : string_copy escaped_euro escaped_euro_token ≡ ok (0xe2 ∷ 0x82 ∷ 0xac ∷ [])
unfolding string_copy put_utf8
escaped_euro_copied = refl

string_copy_into-Clean_example :
    Clean
      (Copy escaped_euro escaped_euro_token 6)
      (string_copy_into 7 escaped_euro escaped_euro_token)
    × Clean (Copy escaped_euro escaped_euro_token 6) (string_alloc escaped_euro escaped_euro_token)
unfolding escaped_euro-Sound
string_copy_into-Clean_example =
    string_copy_into-Clean escaped_euro escaped_euro_token escaped_euro-Sound 7 (omega arith)
