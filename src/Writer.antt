-- ===== src/Writer.antt =====
-- src/decision.inc: `db_json_string`. The C string is the list of the bytes in front of its
-- terminator.
pub mod Chunks
pub mod Pieces
pub mod RoundTrip
use Prim.Native.Nat.{bit_and}
use jev_bush.Prelude.{
  ℕ, zero, suc, ◌+◌, ◌-◌, ◌*◌, ◌/◌, ◌%◌, ◌^◌, ◌<◌, ◌≤◌, ◌≡◌, ◌≢◌, ◌↔◌, ◌⊎◌, inl, inr, refl, sym, ap,
  subst, ◌∙◌, arith, List, [], ◌∷◌, ◌++◌, Option, none, some, Bool, true, false, not, ◌&&◌, ◌||◌,
  ltb, leb, ◌==◌, length, get_elem?, get_or, set, take, drop, replicate, if◌then◌else◌, Bool-cases,
  Option-cases, All, length-append, length-set, length-drop, length-take, length-replicate,
  get_elem?_of_lt, get_elem?-lt, get_elem?-set_self, get_elem?-set_ne, lt→ltb, ltb→lt,
}
use jev_bush.Fault.{Result, ok, err, ◌>>=◌, out_of_fuel}
use jev_bush.Utf8.{next_cp}
use jev_bush.Buffer.{Buffer, append}

-- One digit of `%04x`.
abbrev pub nibble : ℕ → ℕ
nibble n = if ltb n 10 then b'0' + n else b'a' + (n - 10)

-- `\\u%04x`.
unfoldable pub escape_unit : ℕ → List ℕ
escape_unit v =
    b'\\'
    ∷ b'u'
    ∷ nibble (v / 4096 % 16)
    ∷ nibble (v / 256 % 16)
    ∷ nibble (v / 16 % 16)
    ∷ nibble (v % 16)
    ∷ []

unfoldable pub escape_units : ℕ → List ℕ
unfolding escape_unit
escape_units c =
    if leb c 0xffff
    then escape_unit c
    else escape_unit (0xd800 + (c - 0x10000) / 2 ^ 10)
      ++ escape_unit (0xdc00 + bit_and (c - 0x10000) 1023)

-- What is written in one piece for the code point `c` that the bytes `raw` encode.
unfoldable pub chunk : Bool → ℕ → List ℕ → List ℕ
unfolding escape_units
chunk ascii c raw =
    if c == 8
    then b'\\' ∷ b'b' ∷ []
    else if c == 12
    then b'\\' ∷ b'f' ∷ []
    else if c == 10
    then b'\\' ∷ b'n' ∷ []
    else if c == 13
    then b'\\' ∷ b'r' ∷ []
    else if c == 9
    then b'\\' ∷ b't' ∷ []
    else if ltb c 32 || (ascii && ltb 127 c)
    then escape_units c
    else raw

unfoldable pub write_code_point : Bool → Buffer → Bool → ℕ → List ℕ → Result Buffer
unfolding append chunk
write_code_point memory b ascii c raw =
    if c == b'"' || c == b'\\'
    then (do u ← append memory b (b'\\' ∷ []); append memory u (c ∷ []))
    else append memory b (chunk ascii c raw)

-- The loop, from byte `i` on; a round takes one byte at least.
unfoldable pub string_loop : ℕ → Bool → Buffer → List ℕ → Bool → ℕ → Result Buffer
unfolding write_code_point next_cp
string_loop zero memory b s ascii i = if ltb i (length s) then err out_of_fuel else ok b
string_loop (suc fuel) memory b s ascii i =
    if ltb i (length s)
    then (do
      (c, j) ← next_cp s (length s) i
      u ← write_code_point memory b ascii c (take (j - i) (drop i s))
      string_loop fuel memory u s ascii j)
    else ok b

unfoldable pub json_string : Bool → Buffer → List ℕ → Bool → Result Buffer
unfolding append string_loop
json_string memory b s ascii = do
  u ← append memory b (b'"' ∷ [])
  v ← string_loop (length s) memory u s ascii 0
  append memory v (b'"' ∷ [])
