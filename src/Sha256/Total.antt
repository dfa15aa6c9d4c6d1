-- ===== src/Sha256/Total.antt =====
-- The digest is always made: the padding is the standard's, and no index leaves an array.
use jev_bush.Prelude.{
  ℕ, zero, suc, ◌+◌, ◌-◌, ◌*◌, ◌/◌, ◌%◌, ◌^◌, ◌<◌, ◌≡◌, refl, List, [], ◌∷◌, ◌++◌, Bool, true,
  false, length, replicate, if◌then◌else◌, get_elem?_of_lt,
}
use jev_bush.Fault.{Result, ok}
use jev_bush.Sha256.{read}

-- Bytes that are zero.
abbrev pub blank : ℕ → List ℕ
blank n = replicate n 0

-- The last `i` bytes of a number, the highest first.
abbrev pub big_endian : ℕ → ℕ → List ℕ
big_endian zero bits = []
big_endian (suc i) bits = bits / 2 ^ (8 * i) % 256 ∷ big_endian i bits

-- The zeros between the mark and the length.
abbrev pub zeros_behind : ℕ → ℕ
zeros_behind n = (n + 72) / 64 * 64 - n - 9

-- The text, one bit, zeros, and the number of its bits in 64 bits.
abbrev pub message_of : List ℕ → List ℕ
message_of p = p ++ 0x80 ∷ (blank (zeros_behind (length p)) ++ big_endian 8 (length p * 8 % 2 ^ 64))

pub read-ok : (xs : List ℕ) (i : ℕ) → i < length xs → (x : ℕ) × (read xs i ≡ ok x)
read-ok xs i inside = let (x, here) = get_elem?_of_lt xs i inside in (x, rw (here, read) refl)

pub if_true :
    {V : Type 0} (b : Bool) (x y : Result V) {r : Result V}
    → b ≡ true
    → x ≡ r
    → (if b then x else y) ≡ r
if_true true x y e f = f
if_true false x y e f = cc
