-- ===== src/Sha256.antt =====
-- `dg_rotr` and `dg_sha256`. Arrays of words are lists; the eight words of `h`, and `a` to `hh`, are
-- a record. Whether memory is there is a parameter.
pub mod Total
use Prim.Native.Nat.{bit_and, bit_or, bit_xor}
use jev_bush.Prelude.{
  ℕ, zero, suc, ◌+◌, ◌-◌, ◌*◌, ◌/◌, ◌%◌, ◌^◌, ◌<◌, ◌≤◌, ◌≡◌, ◌≢◌, ◌↔◌, ◌⊎◌, inl, inr, refl, sym, ap,
  subst, ◌∙◌, arith, List, [], ◌∷◌, ◌++◌, Option, none, some, Bool, true, false, not, ◌&&◌, ◌||◌,
  ltb, leb, ◌==◌, length, get_elem?, get_or, set, take, drop, replicate, if◌then◌else◌, Bool-cases,
  Option-cases, All, length-append, length-set, length-drop, length-take, length-replicate,
  get_elem?_of_lt, get_elem?-lt, get_elem?-set_self, get_elem?-set_ne, lt→ltb, ltb→lt,
}
use jev_bush.Fault.{Result, ok, err, ◌>>=◌, ◌>>◌, die_if, out_of_bounds, out_of_fuel, out_of_memory}
use jev_bush.Size.{complement}

-- For a rotation by 1 to 31.
abbrev pub rotr : ℕ → ℕ → ℕ
rotr x n = bit_or (x / 2 ^ n) (x * 2 ^ (32 - n) % 2 ^ 32)

abbrev pub constants : List ℕ
constants =
    0x428a2f98 ∷ 0x71374491 ∷ 0xb5c0fbcf ∷ 0xe9b5dba5 ∷ 0x3956c25b ∷ 0x59f111f1 ∷ 0x923f82a4
    ∷ 0xab1c5ed5 ∷ 0xd807aa98 ∷ 0x12835b01 ∷ 0x243185be ∷ 0x550c7dc3 ∷ 0x72be5d74 ∷ 0x80deb1fe
    ∷ 0x9bdc06a7 ∷ 0xc19bf174 ∷ 0xe49b69c1 ∷ 0xefbe4786 ∷ 0x0fc19dc6 ∷ 0x240ca1cc ∷ 0x2de92c6f
    ∷ 0x4a7484aa ∷ 0x5cb0a9dc ∷ 0x76f988da ∷ 0x983e5152 ∷ 0xa831c66d ∷ 0xb00327c8 ∷ 0xbf597fc7
    ∷ 0xc6e00bf3 ∷ 0xd5a79147 ∷ 0x06ca6351 ∷ 0x14292967 ∷ 0x27b70a85 ∷ 0x2e1b2138 ∷ 0x4d2c6dfc
    ∷ 0x53380d13 ∷ 0x650a7354 ∷ 0x766a0abb ∷ 0x81c2c92e ∷ 0x92722c85 ∷ 0xa2bfe8a1 ∷ 0xa81a664b
    ∷ 0xc24b8b70 ∷ 0xc76c51a3 ∷ 0xd192e819 ∷ 0xd6990624 ∷ 0xf40e3585 ∷ 0x106aa070 ∷ 0x19a4c116
    ∷ 0x1e376c08 ∷ 0x2748774c ∷ 0x34b0bcb5 ∷ 0x391c0cb3 ∷ 0x4ed8aa4a ∷ 0x5b9cca4f ∷ 0x682e6ff3
    ∷ 0x748f82ee ∷ 0x78a5636f ∷ 0x84c87814 ∷ 0x8cc70208 ∷ 0x90befffa ∷ 0xa4506ceb ∷ 0xbef9a3f7
    ∷ 0xc67178f2 ∷ []

pub record Words : Type 0 where
  pub a : ℕ
  pub b : ℕ
  pub c : ℕ
  pub d : ℕ
  pub e : ℕ
  pub f : ℕ
  pub g : ℕ
  pub h : ℕ

abbrev pub first_words : Words
first_words = record {
  a = 0x6a09e667;
  b = 0xbb67ae85;
  c = 0x3c6ef372;
  d = 0xa54ff53a;
  e = 0x510e527f;
  f = 0x9b05688c;
  g = 0x1f83d9ab;
  h = 0x5be0cd19;
}

abbrev pub read : List ℕ → ℕ → Result ℕ
read xs i = elim (get_elem? xs i) [ none ↦ err out_of_bounds | some x ↦ ok x ]

abbrev pub write : List ℕ → ℕ → ℕ → Result (List ℕ)
write xs i x = if ltb i (length xs) then ok (set xs i x) else err out_of_bounds

-- `(n + 9 + 63) & ~(size_t)63`.
unfoldable pub padded_size : ℕ → ℕ
padded_size n = bit_and ((n + 9 + 63) % 2 ^ 64) (complement 63)

-- The loop that stores the length, for `left` bytes from byte `i` on.
unfoldable pub store_length : ℕ → ℕ → ℕ → List ℕ → Result (List ℕ)
store_length zero i bits message = ok message
store_length (suc left) i bits message = do
  next ← write message (length message - 1 - i) (bits / 2 ^ (8 * i) % 256)
  store_length left (i + 1) bits next

unfoldable pub padded : List ℕ → Result (List ℕ)
unfolding padded_size store_length
padded p = do
  let n = length p
  let total = padded_size n
  die_if (ltb total n) out_of_bounds
  marked ← write (p ++ drop n (replicate total 0)) n 0x80
  store_length 8 0 (n * 8 % 2 ^ 64) marked

-- Four bytes as a word, the highest first.
unfoldable pub joined : ℕ → ℕ → ℕ → ℕ → ℕ
joined a b c d = bit_or (a * 2 ^ 24) (bit_or (b * 2 ^ 16) (bit_or (c * 2 ^ 8) d))

-- The big-endian words of a block, from byte `at` on.
unfoldable pub load_words : ℕ → List ℕ → ℕ → Result (List ℕ)
unfolding joined
load_words zero message at = ok []
load_words (suc left) message at = do
  a ← read message at
  b ← read message (at + 1)
  c ← read message (at + 2)
  d ← read message (at + 3)
  rest ← load_words left message (at + 4)
  ok (joined a b c d ∷ rest)

-- `w[i]` out of `w[i - 15]`, `w[i - 2]`, `w[i - 7]` and `w[i - 16]`.
unfoldable pub next_word : ℕ → ℕ → ℕ → ℕ → ℕ
next_word a c early first =
    let high = bit_xor (rotr c 17) (bit_xor (rotr c 19) (c / 2 ^ 10)) in
    let low = bit_xor (rotr a 7) (bit_xor (rotr a 18) (a / 2 ^ 3)) in
    (high + early + low + first) % 2 ^ 32

-- The words behind those, `left` of them.
unfoldable pub extend_words : ℕ → List ℕ → Result (List ℕ)
unfolding next_word
extend_words zero w = ok w
extend_words (suc left) w = do
  let i = length w
  a ← read w (i - 15)
  c ← read w (i - 2)
  early ← read w (i - 7)
  first ← read w (i - 16)
  extend_words left (w ++ next_word a c early first ∷ [])

-- One round, with the constant `k` and the word `w`.
unfoldable pub round : ℕ → ℕ → Words → Words
round k w s =
    let choice = bit_xor (bit_and s.e s.f) (bit_and (2 ^ 32 - 1 - s.e) s.g) in
    let most = bit_xor (bit_and s.a s.b) (bit_xor (bit_and s.a s.c) (bit_and s.b s.c)) in
    let t1 =
      (s.h + bit_xor (rotr s.e 6) (bit_xor (rotr s.e 11) (rotr s.e 25)) + choice + k + w)
      % 2 ^ 32 in
    let t2 = (bit_xor (rotr s.a 2) (bit_xor (rotr s.a 13) (rotr s.a 22)) + most) % 2 ^ 32 in
    record {
      a = (t1 + t2) % 2 ^ 32;
      b = s.a;
      c = s.b;
      d = s.c;
      e = (s.d + t1) % 2 ^ 32;
      f = s.e;
      g = s.f;
      h = s.g;
    }

unfoldable pub rounds : List ℕ → List ℕ → Words → Result Words
unfolding round
rounds [] ws s = ok s
rounds (k ∷ ks) [] s = err out_of_bounds
rounds (k ∷ ks) (w ∷ ws) s = rounds ks ws (round k w s)

abbrev pub add_words : Words → Words → Words
add_words x y = record {
  a = (x.a + y.a) % 2 ^ 32;
  b = (x.b + y.b) % 2 ^ 32;
  c = (x.c + y.c) % 2 ^ 32;
  d = (x.d + y.d) % 2 ^ 32;
  e = (x.e + y.e) % 2 ^ 32;
  f = (x.f + y.f) % 2 ^ 32;
  g = (x.g + y.g) % 2 ^ 32;
  h = (x.h + y.h) % 2 ^ 32;
}

-- The block at byte `at`.
unfoldable pub block : List ℕ → ℕ → Words → Result Words
unfolding load_words extend_words rounds
block message at s = do
  first ← load_words 16 message at
  w ← extend_words 48 first
  t ← rounds constants w s
  ok (add_words s t)

-- The loop over the blocks.
unfoldable pub blocks : ℕ → List ℕ → ℕ → Words → Result Words
unfolding block
blocks zero message at s = if ltb at (length message) then err out_of_fuel else ok s
blocks (suc fuel) message at s =
    if ltb at (length message)
    then (do t ← block message at s; blocks fuel message (at + 64) t)
    else ok s

abbrev pub word_bytes : ℕ → List ℕ
word_bytes x = x / 2 ^ 24 % 256 ∷ x / 2 ^ 16 % 256 ∷ x / 2 ^ 8 % 256 ∷ x % 256 ∷ []

abbrev pub digest : Words → List ℕ
digest s =
    word_bytes s.a
    ++ word_bytes s.b
    ++ word_bytes s.c
    ++ word_bytes s.d
    ++ word_bytes s.e
    ++ word_bytes s.f
    ++ word_bytes s.g
    ++ word_bytes s.h

unfoldable pub sha256 : Bool → List ℕ → Result (List ℕ)
unfolding padded blocks
sha256 memory p = do
  die_if (not memory) out_of_memory
  message ← padded p
  s ← blocks (length message / 64) message 0 first_words
  ok (digest s)
