-- ===== src/Utf8.antt =====
-- src/foundation.inc: `put_utf8` and `next_cp`. A byte array is a list of numbers below 256, and
-- a C index stays an index.
pub mod RoundTrip
pub mod Safety
pub mod Progress
use Prim.Native.Nat.{bit_and, bit_or}
use jev_bush.Prelude.{
  ℕ, zero, suc, ◌+◌, ◌*◌, ◌/◌, ◌%◌, ◌^◌, ◌<◌, List, [], ◌∷◌, Option, none, some, Bool, ◌&&◌, ◌||◌,
  not, ltb, leb, ◌==◌, if◌then◌else◌, get_elem?,
}
use jev_bush.Fault.{Result, ok, err, ◌>>=◌, ◌>>◌, die_if, out_of_bounds, invalid_utf8}

-- The bytes that `put_utf8` stores at `z`; its result is their number.
unfoldable pub put_utf8 : ℕ → List ℕ
put_utf8 c =
    if leb c 0x7f
    then c % 256 ∷ []
    else if leb c 0x7ff
    then bit_or 0xc0 (c / 2 ^ 6) % 256 ∷ bit_or 0x80 (bit_and c 63) % 256 ∷ []
    else if leb c 0xffff
    then bit_or 0xe0 (c / 2 ^ 12) % 256
      ∷ bit_or 0x80 (bit_and (c / 2 ^ 6) 63) % 256
      ∷ bit_or 0x80 (bit_and c 63) % 256
      ∷ []
    else bit_or 0xf0 (c / 2 ^ 18) % 256
      ∷ bit_or 0x80 (bit_and (c / 2 ^ 12) 63) % 256
      ∷ bit_or 0x80 (bit_and (c / 2 ^ 6) 63) % 256
      ∷ bit_or 0x80 (bit_and c 63) % 256
      ∷ []

-- A read of `s[i]`.
pub load : List ℕ → ℕ → Result ℕ
load s i = elim (get_elem? s i) [ none ↦ err out_of_bounds | some c ↦ ok c ]

-- `more`, with `none` for -1.
abbrev pub trailing : ℕ → Option ℕ
trailing c =
    if leb 0xf0 c
    then some 3
    else if leb 0xe0 c
    then some 2
    else if leb 0xc2 c
    then some 1
    else none

-- The loop over the bytes behind the first, with `v` so far and the index; `k` rounds are left.
pub continuation : List ℕ → ℕ → ℕ → ℕ → Result (ℕ × ℕ)
continuation s zero i v = ok (v, i)
continuation s (suc k) i v = do
  q ← load s i
  die_if (not (bit_and q 0xc0 == 0x80)) invalid_utf8
  continuation s k (i + 1) (bit_or (v * 2 ^ 6 % 2 ^ 32) (bit_and q 63))

-- Overlong forms, numbers past the last code point, and surrogates.
abbrev pub is_malformed : ℕ → ℕ → Bool
is_malformed more v =
    (more == 1 && ltb v 0x80)
    || (more == 2 && ltb v 0x800)
    || (more == 3 && ltb v 0x10000)
    || ltb 0x10ffff v
    || (leb 0xd800 v && leb v 0xdfff)

-- A first byte `c` of 0x80 or more, at `p`.
pub multibyte : List ℕ → ℕ → ℕ → ℕ → Option ℕ → Result (ℕ × ℕ)
multibyte s n p c none = err invalid_utf8
multibyte s n p c (some more) = do
  die_if (leb n (p + more)) invalid_utf8
  (v, i) ← continuation s more (p + 1) (bit_and c (0x7f / 2 ^ more))
  die_if (is_malformed more v) invalid_utf8
  ok (v, i)

-- The code point at `i` and the index behind it, in the array `s` of `n` bytes.
unfoldable pub next_cp : List ℕ → ℕ → ℕ → Result (ℕ × ℕ)
unfolding multibyte continuation load
next_cp s n i = do
  c ← load s i
  if ltb c 0x80 then ok (c, i + 1) else multibyte s n i c (trailing c)
