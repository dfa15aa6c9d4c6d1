-- ===== src/Json/Primitive.antt =====
-- `json_primitive_valid`. The `n` bytes at `s` are a list, and the index is what is left of it.
pub mod Grammar
use jev_bush.Prelude.{
  ℕ, ◌+◌, Bool, true, false, ◌&&◌, ◌||◌, leb, ◌==◌, List, [], ◌∷◌, Option, none, some,
  if◌then◌else◌,
}
use jev_bush.Json.Bytes.{is_digit}

abbrev pub true_bytes : List ℕ
true_bytes = b't' ∷ b'r' ∷ b'u' ∷ b'e' ∷ []

abbrev pub false_bytes : List ℕ
false_bytes = b'f' ∷ b'a' ∷ b'l' ∷ b's' ∷ b'e' ∷ []

abbrev pub null_bytes : List ℕ
null_bytes = b'n' ∷ b'u' ∷ b'l' ∷ b'l' ∷ []

-- Equal length and `memcmp`.
unfoldable pub same_bytes : List ℕ → List ℕ → Bool
same_bytes [] [] = true
same_bytes (x ∷ xs) (y ∷ ys) = x == y && same_bytes xs ys
same_bytes _ _ = false

-- `while (i < n && isdigit(s[i])) i++;`
unfoldable pub skip_digits : List ℕ → List ℕ
skip_digits [] = []
skip_digits (c ∷ cs) = let rest = skip_digits cs in if is_digit c then rest else c ∷ cs

pub skip_minus : List ℕ → List ℕ
skip_minus [] = []
skip_minus (c ∷ cs) = if c == b'-' then cs else c ∷ cs

-- `none` is `return 0`.
pub skip_integer : List ℕ → Option (List ℕ)
skip_integer [] = none
skip_integer (c ∷ cs) =
    if c == b'0'
    then some cs
    else if leb b'1' c && leb c b'9'
    then some (skip_digits (c ∷ cs))
    else none

-- A run of digits that may not be empty: the test `i == begin`.
pub skip_run : List ℕ → Option (List ℕ)
skip_run [] = none
skip_run (c ∷ cs) = if is_digit c then some (skip_digits cs) else none

pub skip_fraction : List ℕ → Option (List ℕ)
skip_fraction [] = some []
skip_fraction (c ∷ cs) = if c == b'.' then skip_run cs else some (c ∷ cs)

pub skip_sign : List ℕ → List ℕ
skip_sign [] = []
skip_sign (c ∷ cs) = if c == b'+' || c == b'-' then cs else c ∷ cs

pub skip_exponent : List ℕ → Option (List ℕ)
skip_exponent [] = some []
skip_exponent (c ∷ cs) = if c == b'e' || c == b'E' then skip_run (skip_sign cs) else some (c ∷ cs)

abbrev pub is_end : Option (List ℕ) → Bool
is_end (some []) = true
is_end (some (c ∷ cs)) = false
is_end none = false

infixl 5 ◌>>=◌
abbrev pub ◌>>=◌ : Option (List ℕ) → (List ℕ → Option (List ℕ)) → Option (List ℕ)
none >>= f = none
some s >>= f = f s

unfoldable pub primitive_valid : List ℕ → Bool
unfolding same_bytes skip_minus skip_integer skip_fraction skip_exponent skip_run skip_sign
primitive_valid s =
    same_bytes s true_bytes
    || same_bytes s null_bytes
    || same_bytes s false_bytes
    || is_end (skip_integer (skip_minus s) >>= skip_fraction >>= skip_exponent)
