-- ===== src/Size.antt =====
-- src/foundation.inc: checked sizes (`jb_size_add`, `jb_size_mul`, `jb_align_up`). A `size_t` is a
-- number below 2 ^ 64; the sums and products below are computed as C does, after the check.
pub mod Align
use Prim.Native.Nat.{bit_and}
use jev_bush.Prelude.{
  false, ℕ, zero, suc, Bool-cases, ltb→lt, inl, inr, ◌+◌, ◌-◌, ◌*◌, ◌/◌, ◌%◌, ◌^◌, ltb, ◌==◌, not,
  Bool, ◌&&◌, ◌||◌, ◌≡◌, ◌<◌, ◌≤◌, arith, if◌then◌else◌,
}
use native.Mathlib.Nat.{div-lt_iff_lt-mul}
use jev_bush.Fault.{
  Result, ok, err, ◌>>=◌, ◌>>◌, die_if, allocation_size_overflow, invalid_arena_alignment,
}

-- SIZE_MAX.
abbrev pub size_max : ℕ
size_max = 2 ^ 64 - 1

unfoldable pub size_add : ℕ → ℕ → Result ℕ
size_add a b = do die_if (ltb (size_max - a) b) allocation_size_overflow; ok ((a + b) % 2 ^ 64)

unfoldable pub size_mul : ℕ → ℕ → Result ℕ
size_mul a b = do
  die_if (not (a == 0) && ltb (size_max / a) b) allocation_size_overflow
  ok (a * b % 2 ^ 64)

-- `~x` on 64 bits.
abbrev pub complement : ℕ → ℕ
complement x = 2 ^ 64 - 1 - x

unfoldable pub align_up : ℕ → ℕ → Result ℕ
align_up n alignment = do
  die_if (alignment == 0 || not (bit_and alignment (alignment - 1) == 0)) invalid_arena_alignment
  sum ← size_add n (alignment - 1)
  ok (bit_and sum (complement (alignment - 1)))

-- The sum, where it fits, and the overflow error otherwise.
pub size_add_lem :
    (a b : ℕ)
    → a < 2 ^ 64
    → size_add a b ≡ (if ltb (a + b) (2 ^ 64) then ok (a + b) else err allocation_size_overflow)
unfolding size_add
size_add_lem a b h = ground arith

pub size_mul_lem :
    (a b : ℕ)
    → size_mul a b ≡ (if ltb (a * b) (2 ^ 64) then ok (a * b) else err allocation_size_overflow)
unfolding size_mul
size_mul_lem zero b = ground arith
size_mul_lem (suc a) b =
    let fits = div-lt_iff_lt-mul {k = suc a} {x = size_max} {y = b} (omega arith) in
    elim (Bool-cases (ltb (size_max / suc a) b)) [
      | inl over ↦ let big : size_max < b * suc a = fits.0 (ltb→lt _ _ over) in ground arith
      | inr below ↦ elim (Bool-cases (ltb (suc a * b) (2 ^ 64))) [
        | inl small ↦ ground arith
        | inr big ↦ let more = fits.1 (grind arith) in ground arith
      ]
    ]

-- A product that has passed the check with a division.
pub product_fits : (a b : ℕ) → (not (a == 0) && ltb (size_max / a) b) ≡ false → b * a < 2 ^ 64
product_fits zero b passed = ground arith
product_fits (suc a) b passed =
    let fits = div-lt_iff_lt-mul {k = suc a} {x = size_max} {y = b} (omega arith) in
    elim (Bool-cases (ltb (b * suc a) (2 ^ 64))) [
      | inl small ↦ ground arith
      | inr big ↦ let more = fits.1 (ground (arith, big)) in ground (arith, more, passed)
    ]
