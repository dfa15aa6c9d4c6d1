-- ===== src/Utf8/Safety.antt =====
-- `next_cp` reads inside the array, and `put_utf8` fits the room that its callers leave.
use jev_bush.Prelude.{
  ℕ, zero, suc, ◌+◌, ◌≤◌, ◌<◌, ◌≡◌, arith, List, some, length, All, get_elem?_of_lt, ltb, leb, ◌==◌,
  not, Bool, true, false, Option, none, refl, Bool-cases, inl, inr,
}
use Prim.Native.Nat.{bit_and}
use jev_bush.Fault.{Result, ok, err, ◌>>=◌, die_if, invalid_utf8}
use jev_bush.Utf8.{put_utf8, load, trailing, is_malformed, continuation, multibyte, next_cp}

load_within : (s : List ℕ) (i : ℕ) → i < length s → (c : ℕ) × (load s i ≡ ok c)
unfolding load
load_within s i h = let (c, e) = get_elem?_of_lt s i h in (c, rw (e, load))

-- A call that fails does so only by rejecting its input as invalid UTF-8.
abbrev pub OnlyInvalid {ℓ} : {A : Type ℓ} → Result A → Type 0
OnlyInvalid (ok a) = Unit
OnlyInvalid (err f) = f ≡ invalid_utf8

OnlyInvalid-bind {ℓ κ} :
    {A : Type ℓ} {B : Type κ} (r : Result A) (f : A → Result B)
    → OnlyInvalid r
    → ((a : A) → OnlyInvalid (f a))
    → OnlyInvalid (r >>= f)
OnlyInvalid-bind (ok a) f h k = k a
OnlyInvalid-bind (err e) f h k = h

OnlyInvalid-die_if : (b : Bool) → OnlyInvalid (die_if b invalid_utf8)
OnlyInvalid-die_if true = refl
OnlyInvalid-die_if false = tt

continuation-OnlyInvalid :
    (s : List ℕ) (k i v : ℕ) → i + k ≤ length s → OnlyInvalid (continuation s k i v)
unfolding continuation
continuation-OnlyInvalid s zero i v h = tt
continuation-OnlyInvalid s (suc k) i v h =
    let (q, at_i) = load_within s i (omega arith) in
    rw at_i (
      OnlyInvalid-bind (die_if (not (bit_and q 0xc0 == 0x80)) invalid_utf8) _ (OnlyInvalid-die_if _)
        (λ _. continuation-OnlyInvalid s k (i + 1) _ (omega arith)))

multibyte-OnlyInvalid :
    (s : List ℕ) (p c : ℕ) (more : Option ℕ) → OnlyInvalid (multibyte s (length s) p c more)
unfolding multibyte
multibyte-OnlyInvalid s p c none = refl
multibyte-OnlyInvalid s p c (some more) = elim (Bool-cases (leb (length s) (p + more))) [
  | inl short ↦ rw short refl
  | inr enough ↦ rw enough (
      OnlyInvalid-bind (continuation s more (p + 1) _) _
        (continuation-OnlyInvalid s more (p + 1) _ (ground arith))
        (λ r.
          OnlyInvalid-bind (die_if (is_malformed more r.0) invalid_utf8) _ (OnlyInvalid-die_if _)
            (λ _. tt)))
]

-- From an index inside the array, whatever its items, `next_cp` fails only by rejecting the input
-- as invalid UTF-8: it never reads past the end.
pub next_cp-OnlyInvalid : (s : List ℕ) (i : ℕ) → i < length s → OnlyInvalid (next_cp s (length s) i)
unfolding next_cp
next_cp-OnlyInvalid s i h =
    let (c, at_i) = load_within s i h in
    elim (Bool-cases (ltb c 0x80)) [
      | inl ascii ↦ rw at_i (rw ascii tt)
      | inr more ↦ rw at_i (rw more (multibyte-OnlyInvalid s i c (trailing c)))
    ]

-- `put_utf8` writes at most three bytes per four input characters of an escape: 1 to 3 bytes below
-- 0x10000, 4 bytes above, each in range.
pub length-put_utf8 :
    (c : ℕ)
    → All (λ b. b < 256) (put_utf8 c)
      × (1 ≤ length (put_utf8 c))
      × (length (put_utf8 c) ≤ 4)
      × (c ≤ 0xffff → length (put_utf8 c) ≤ 3)
unfolding put_utf8
length-put_utf8 c = ground arith
