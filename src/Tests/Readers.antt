-- ===== src/Tests/Readers.antt =====
-- Lookups and numbers in a small object.
use jev_bush.Prelude.{
  ℕ, ◌^◌, ◌<◌, ◌≤◌, ◌≡◌, ◌↔◌, refl, subst, arith, List, [], ◌∷◌, none, some, All,
}
use jev_bush.Fault.{ok, err, bad_unsigned, duplicate_key}
use jev_bush.Fault.Clean.{Clean}
use jev_bush.Json.Tokens.{Token, primitive, object, string, tokens_unchecked}
use jev_bush.Json.Tokens.Bounds.{AllSound}
use jev_bush.Json.Text.{span}
use jev_bush.Json.Readers.{object_get, nonnegative_int, uint64_max, token_u64}
use jev_bush.Json.Readers.Numbers.{IsDigit, Short, decimal, nonnegative_int_iff, token_u64_iff}
use jev_bush.Json.Readers.Lookup.{FoundIn, object_get-Clean}
use jev_bush.Json.Keys.{json_tokens}
use jev_bush.Json.Keys.Clean.{json_tokens-Clean}

abbrev number : List ℕ
number = b'4' ∷ b'2' ∷ []

abbrev number_token : Token
number_token = record { kind = primitive; start = 0; end_at = some 2; parent = none; size = 0 }

number-span : span number number_token ≡ ok number
unfolding span
number-span = refl

nonnegative_int_iff_example :
    (nonnegative_int number number_token ≡ ok 42)
    ↔ (Short primitive number 9 × All IsDigit number × (decimal 0 number ≡ 42) × (42 < 10 ^ 9))
nonnegative_int_iff_example = nonnegative_int_iff number number_token number 42 number-span

token_u64_iff_example :
    (token_u64 number number_token ≡ ok 42)
    ↔ (Short primitive number 20 × All IsDigit number × (decimal 0 number ≡ 42) × (42 ≤ uint64_max))
token_u64_iff_example = token_u64_iff number number_token number 42 number-span (omega arith)

-- 2^64
abbrev too_large : List ℕ
too_large =
    b'1' ∷ b'8' ∷ b'4' ∷ b'4' ∷ b'6' ∷ b'7' ∷ b'4' ∷ b'4' ∷ b'0' ∷ b'7' ∷ b'3' ∷ b'7' ∷ b'0' ∷ b'9'
    ∷ b'5' ∷ b'5' ∷ b'1' ∷ b'6' ∷ b'1' ∷ b'6' ∷ []

too_large_refused :
    token_u64 too_large
      (record { kind = primitive; start = 0; end_at = some 20; parent = none; size = 0 })
    ≡ err bad_unsigned
unfolding token_u64
too_large_refused = refl

-- {"a":7}
abbrev seven : List ℕ
seven = b'{' ∷ b'"' ∷ b'a' ∷ b'"' ∷ b':' ∷ b'7' ∷ b'}' ∷ []

abbrev seven_tokens : List Token
seven_tokens =
    record { kind = object; start = 0; end_at = some 7; parent = none; size = 2 }
    ∷ record { kind = string; start = 2; end_at = some 3; parent = some 0; size = 0 }
    ∷ record { kind = primitive; start = 5; end_at = some 6; parent = some 0; size = 0 }
    ∷ []

seven_tokenized : tokens_unchecked seven ≡ ok seven_tokens
unfolding tokens_unchecked jev_bush.Json.Primitive.primitive_valid
    jev_bush.Json.Primitive.skip_digits
seven_tokenized = refl

seven_found : object_get seven seven_tokens (some 0) (b'a' ∷ []) ≡ ok (some 2)
unfolding object_get
seven_found = refl

seven-AllSound : AllSound seven seven_tokens
seven-AllSound =
    subst (Clean (AllSound seven)) seven_tokenized
      (jev_bush.Json.Tokens.Bounds.tokens_unchecked-Clean seven)

object_get-Clean_example :
    Clean
      (FoundIn seven seven_tokens (some 0) (b'a' ∷ []))
      (object_get seven seven_tokens (some 0) (b'a' ∷ []))
object_get-Clean_example = object_get-Clean seven seven_tokens (some 0) (b'a' ∷ []) seven-AllSound

-- A sort for lists of at most two names that are equal.
abbrev keep : List (List ℕ) → List (List ℕ)
keep xs = xs

-- {"a":7,"a":7}
twice_refused :
    json_tokens keep (
      b'{' ∷ b'"' ∷ b'a' ∷ b'"' ∷ b':' ∷ b'7' ∷ b',' ∷ b'"' ∷ b'a' ∷ b'"' ∷ b':' ∷ b'7' ∷ b'}' ∷ [])
    ≡ err duplicate_key
unfolding json_tokens jev_bush.Json.Primitive.primitive_valid jev_bush.Json.Primitive.skip_digits
twice_refused = refl

json_tokens-Clean_example : Clean (AllSound seven) (json_tokens keep seven)
json_tokens-Clean_example = json_tokens-Clean keep seven
