-- ===== src/Random.antt =====
-- DGMT: `dg_mt_seed`, `dg_mt_u32` and `dg_mt_vocab`, on 32-bit words. The array is a list; a read or a
-- write past its end is a fault.
pub mod Twist
pub mod Steady
use Prim.Native.Nat.{bit_and, bit_or, bit_xor}
use jev_bush.Prelude.{
  ℕ, zero, suc, ◌+◌, ◌-◌, ◌*◌, ◌/◌, ◌%◌, ◌^◌, ◌<◌, ◌≤◌, ◌≡◌, ◌≢◌, ◌↔◌, ◌⊎◌, inl, inr, refl, sym, ap,
  subst, ◌∙◌, arith, List, [], ◌∷◌, ◌++◌, Option, none, some, Bool, true, false, not, ◌&&◌, ◌||◌,
  ltb, leb, ◌==◌, length, get_elem?, get_or, set, take, drop, replicate, if◌then◌else◌, Bool-cases,
  Option-cases, All, length-append, length-set, length-drop, length-take, length-replicate,
  get_elem?_of_lt, get_elem?-lt, get_elem?-set_self, get_elem?-set_ne, lt→ltb, ltb→lt,
}
use jev_bush.Fault.{Result, ok, err, ◌>>=◌, ◌>>◌, out_of_fuel}
use jev_bush.Sha256.{read, write}

pub record Mt : Type 0 where
  pub mt : List ℕ
  pub at : ℕ

-- `x ^ (x >> 30)`.
abbrev pub spread : ℕ → ℕ
spread x = bit_xor x (x / 2 ^ 30)

-- The first loop of the seed, for `left` words from word `i` on, behind the word `x`.
unfoldable pub fill : ℕ → ℕ → ℕ → List ℕ
fill zero i x = []
fill (suc left) i x = let y = (1812433253 * spread x + i) % 2 ^ 32 in y ∷ fill left (i + 1) y

-- `i++`, and back to 1 behind the last word, which is then copied to the first.
unfoldable pub turn : List ℕ → ℕ → Result (List ℕ × ℕ)
turn mt i =
    if leb 624 (i + 1)
    then (do x ← read mt 623; all ← write mt 0 x; ok (all, 1))
    else ok (mt, i + 1)

-- The second loop of the seed, for `left` rounds.
unfoldable pub mix_seed : ℕ → ℕ → List ℕ → ℕ → ℕ → Result (List ℕ × ℕ)
unfolding turn
mix_seed zero seed mt i j = ok (mt, i)
mix_seed (suc left) seed mt i j = do
  x ← read mt i
  y ← read mt (i - 1)
  all ← write mt i ((bit_xor x (spread y * 1664525 % 2 ^ 32) + seed + j) % 2 ^ 32)
  (next, k) ← turn all i
  mix_seed left seed next k (if leb 1 (j + 1) then 0 else j + 1)

-- The third loop, for `left` rounds.
unfoldable pub mix_index : ℕ → List ℕ → ℕ → Result (List ℕ)
unfolding turn
mix_index zero mt i = ok mt
mix_index (suc left) mt i = do
  x ← read mt i
  y ← read mt (i - 1)
  all ← write mt i ((bit_xor x (spread y * 1566083941 % 2 ^ 32) + 2 ^ 32 - i) % 2 ^ 32)
  (next, k) ← turn all i
  mix_index left next k

-- What follows the first loop, with the rounds of the other two.
unfoldable pub mix : ℕ → ℕ → ℕ → List ℕ → Result Mt
unfolding mix_seed mix_index
mix many fewer seed start = do
  (first, i) ← mix_seed many seed start 1 0
  second ← mix_index fewer first i
  all ← write second 0 0x80000000
  ok (record { mt = all; at = 624 })

unfoldable pub seed_state : ℕ → Result Mt
unfolding fill mix
seed_state seed = mix 624 623 seed (19650218 ∷ fill 623 1 19650218)

-- The loop that makes the next words, for `left` words from word `i` on.
unfoldable pub twist : ℕ → List ℕ → ℕ → Result (List ℕ)
twist zero mt i = ok mt
twist (suc left) mt i = do
  x ← read mt i
  z ← read mt ((i + 1) % 624)
  far ← read mt ((i + 397) % 624)
  let y = bit_or (bit_and x 0x80000000) (bit_and z 0x7fffffff)
  all ← write mt i (bit_xor far (bit_xor (y / 2) (if bit_and y 1 == 0 then 0 else 0x9908b0df)))
  twist left all (i + 1)

abbrev pub temper : ℕ → ℕ
temper x =
    let y = bit_xor x (x / 2 ^ 11) in
    let z = bit_xor y (bit_and (y * 2 ^ 7 % 2 ^ 32) 0x9d2c5680) in
    let w = bit_xor z (bit_and (z * 2 ^ 15 % 2 ^ 32) 0xefc60000) in bit_xor w (w / 2 ^ 18)

-- `dg_mt_u32`, with the rounds of its loop.
unfoldable pub draw : ℕ → Mt → Result (ℕ × Mt)
unfolding twist
draw rounds r = do
  s ← if leb 624 r.at then (twist rounds r.mt 0 >>= λ mt. ok (record { mt = mt; at = 0 })) else ok r
  x ← read s.mt s.at
  ok (temper x, record s { at = s.at + 1 })

unfoldable pub next_u32 : Mt → Result (ℕ × Mt)
unfolding draw
next_u32 r = draw 624 r

-- The loop that draws until a number is below DG_VOCAB, for at most `fuel` rounds.
unfoldable pub next_vocab : ℕ → Mt → Result (ℕ × Mt)
unfolding next_u32
next_vocab zero r = err out_of_fuel
next_vocab (suc fuel) r = do
  (y, s) ← next_u32 r
  let x = y / 2 ^ 13
  let more = next_vocab fuel s
  if leb 262144 x then more else ok (x, s)
