-- ===== src/Json/Text.antt =====
-- `jt_string_copy` and `hex4`: the text that a string token stands for. What stands between the ends
-- of the token is a list of bytes, and the index is what is left of it.
pub mod Scanned
pub mod Copy
use jev_bush.Prelude.{
  ℕ, zero, suc, ◌+◌, ◌-◌, ◌*◌, ◌/◌, ◌%◌, ◌^◌, ◌<◌, ◌≤◌, ◌≡◌, ◌≢◌, ◌↔◌, ◌⊎◌, inl, inr, refl, sym, ap,
  subst, ◌∙◌, arith, List, [], ◌∷◌, ◌++◌, Option, none, some, Bool, true, false, not, ◌&&◌, ◌||◌,
  ltb, leb, ◌==◌, length, get_elem?, get_or, set, take, drop, replicate, if◌then◌else◌, Bool-cases,
  Option-cases, All, length-append, length-set, length-drop, length-take, length-replicate,
  get_elem?_of_lt, get_elem?-lt, get_elem?-set_self, get_elem?-set_ne, lt→ltb, ltb→lt,
}
use jev_bush.Fault.{
  Fault, Result, ok, err, ◌>>=◌, ◌>>◌, die_if, out_of_bounds, out_of_fuel, unpaired_surrogate,
  nul_in_string,
}
use jev_bush.Utf8.{put_utf8, next_cp}
use jev_bush.Json.Tokens.{Kind, object, array, string, primitive, Token}

abbrev pub to_lower : ℕ → ℕ
to_lower c = if leb b'A' c && leb c b'Z' then c + 32 else c

-- One digit of `hex4`, an `unsigned`. A byte is read as a number from 0 on: the tokenizer lets only
-- hexadecimal digits stand there.
abbrev pub hex_digit : ℕ → ℕ
hex_digit c =
    if leb c b'9' then (c + 2 ^ 32 - b'0') % 2 ^ 32 else (to_lower c + 10 + 2 ^ 32 - b'a') % 2 ^ 32

abbrev pub add_digit : ℕ → ℕ → ℕ
add_digit v c = (v * 16 % 2 ^ 32 + hex_digit c) % 2 ^ 32

unfoldable pub hex4 : ℕ → ℕ → ℕ → ℕ → ℕ
hex4 a b c d = add_digit (add_digit (add_digit (add_digit 0 a) b) c) d

-- The second half of a surrogate pair.
unfoldable pub surrogate_pair : ℕ → List ℕ → Result (ℕ × List ℕ)
unfolding hex4
surrogate_pair u (x ∷ y ∷ a ∷ b ∷ c ∷ d ∷ rest) = do
  die_if (not (x == b'\\') || not (y == b'u')) unpaired_surrogate
  let v = hex4 a b c d
  die_if (ltb v 0xdc00 || ltb 0xdfff v) unpaired_surrogate
  ok (0x10000 + (u - 0xd800) * 2 ^ 10 + (v - 0xdc00), rest)
surrogate_pair u _ = err unpaired_surrogate

unfoldable pub code_point : ℕ → List ℕ → Result (ℕ × List ℕ)
unfolding surrogate_pair
code_point u rest =
    if leb 0xd800 u && leb u 0xdbff
    then surrogate_pair u rest
    else if leb 0xdc00 u && leb u 0xdfff
    then err unpaired_surrogate
    else if u == 0
    then err nul_in_string
    else ok (u, rest)

unfoldable pub unicode_escape : List ℕ → Result (List ℕ × List ℕ)
unfolding hex4 code_point
unicode_escape (a ∷ b ∷ c ∷ d ∷ rest) = do
  (u, left) ← code_point (hex4 a b c d) rest
  ok (put_utf8 u, left)
unicode_escape _ = err out_of_bounds

abbrev pub unescape : ℕ → ℕ
unescape c =
    if c == b'b'
    then 8
    else if c == b'f'
    then 12
    else if c == b'n'
    then 10
    else if c == b'r'
    then 13
    else if c == b't'
    then 9
    else c

-- What follows a backslash: the bytes it stands for, and what is left.
unfoldable pub escape : List ℕ → Result (List ℕ × List ℕ)
unfolding unicode_escape
escape [] = err out_of_bounds
escape (c ∷ cs) = if c == b'u' then unicode_escape cs else ok (unescape c ∷ [], cs)

-- The loop over the bytes of the token, for what it writes; a round takes one byte at least. Where
-- the bytes go is in `copy_into`.
unfoldable pub copy_loop : ℕ → List ℕ → Result (List ℕ)
unfolding escape
copy_loop fuel [] = ok []
copy_loop zero (c ∷ cs) = err out_of_fuel
copy_loop (suc fuel) (c ∷ cs) = do
  (out, rest) ← if c == b'\\' then escape cs else ok (c ∷ [], cs)
  more ← copy_loop fuel rest
  ok (out ++ more)

-- The loop of `next_cp` over the copy.
unfoldable pub check_utf8 : ℕ → List ℕ → ℕ → Result (Unit {0})
unfolding next_cp
check_utf8 zero z at = if ltb at (length z) then err out_of_fuel else ok tt
check_utf8 (suc fuel) z at =
    if ltb at (length z) then (do (c, i) ← next_cp z (length z) at; check_utf8 fuel z i) else ok tt

-- What stands between the ends of a token.
unfoldable pub span : List ℕ → Token → Result (List ℕ)
span s t = elim t.end_at [
  | none ↦ err out_of_bounds
  | some e ↦
      if ltb (length s) e then err out_of_bounds else ok (take (e - t.start) (drop t.start s))
]

-- What `jt_string_copy` writes in front of the terminator, for what stands between the ends of a
-- token.
unfoldable pub string_copy_of : Kind → List ℕ → Result (List ℕ)
unfolding copy_loop check_utf8
string_copy_of string body = do z ← copy_loop (length body) body; check_utf8 (length z) z 0; ok z
string_copy_of object body = ok body
string_copy_of array body = ok body
string_copy_of primitive body = ok body

-- The text that a token stands for.
unfoldable pub string_copy : List ℕ → Token → Result (List ℕ)
unfolding span string_copy_of
string_copy s t = do body ← span s t; string_copy_of t.kind body

-- The loop over the bytes of the token where `out` has `room` bytes left; the terminator behind
-- them is written too.
unfoldable pub copy_into : ℕ → ℕ → List ℕ → Result (List ℕ)
unfolding escape
copy_into fuel room [] = do die_if (room == 0) out_of_bounds; ok []
copy_into zero room (c ∷ cs) = err out_of_fuel
copy_into (suc fuel) room (c ∷ cs) = do
  (out, rest) ← if c == b'\\' then escape cs else ok (c ∷ [], cs)
  die_if (ltb room (length out)) out_of_bounds
  more ← copy_into fuel (room - length out) rest
  ok (out ++ more)

unfoldable pub string_copy_within : ℕ → Kind → List ℕ → Result (List ℕ)
unfolding copy_into check_utf8
string_copy_within room string body = do
  z ← copy_into (length body) room body
  check_utf8 (length z) z 0
  ok z
string_copy_within room object body = do die_if (leb room (length body)) out_of_bounds; ok body
string_copy_within room array body = do die_if (leb room (length body)) out_of_bounds; ok body
string_copy_within room primitive body = do die_if (leb room (length body)) out_of_bounds; ok body

-- `jt_string_copy` to an `out` of `room` bytes: the bytes in front of the terminator.
unfoldable pub string_copy_into : ℕ → List ℕ → Token → Result (List ℕ)
unfolding span string_copy_within
string_copy_into room s t = do body ← span s t; string_copy_within room t.kind body

-- `jt_string`.
unfoldable pub string_alloc : List ℕ → Token → Result (List ℕ)
unfolding span string_copy_into
string_alloc s t = do body ← span s t; string_copy_into (length body * 3 + 1) s t
