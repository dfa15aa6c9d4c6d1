-- ===== src/Prelude/Bits.antt =====
-- Laws of the native bit operations at variables: one digit at a time, then masks and shifts.
use Prim.Native.Nat.{
  ℕ, zero, suc, ◌+◌, ◌-◌, ◌*◌, ◌/◌, ◌%◌, ◌^◌, ◌≤◌, ◌<◌, min, max, bit_and, bit_or, digits, bitwise,
  bit_and-bitwise, bit_or-bitwise,
}
use mathlib.Core.Path.{◌≡◌, refl, sym, ap}
use mathlib.Core.Logic.{inl, inr}
use mathlib.Core.Bool.{Bool, true, ◌&&◌}
use native.Mathlib.Omega.{arith}
use native.Mathlib.Nat.{
  le_refl, pow-suc, div-div-eq-div-mul, div-add-mod, mod-eq_of_lt, div-lt_iff_lt-mul,
}
use jev_bush.Prelude.Tests.{◌==◌, ==_iff, Bool-cases}

-- A test of every value under a bound, run by evaluation.
pub holds_below : (ℕ → Bool) → ℕ → Bool
holds_below test zero = true
holds_below test (suc bound) = holds_below test bound && test bound

pub holds_below_sound :
    (test : ℕ → Bool) (bound v : ℕ) → v < bound → holds_below test bound ≡ true → test v ≡ true
unfolding holds_below
holds_below_sound test zero v below e = elim below [ ]
holds_below_sound test (suc bound) v below e = ground (arith, holds_below_sound test bound v)

-- One binary digit at a time: any two fuels that reach the first operand agree.
module _ (tail : ℕ → ℕ) (digit : ℕ → ℕ → ℕ) where
  fuels_agree :
      (x y fuel spare : ℕ)
      → x ≤ fuel
      → x ≤ spare
      → digits tail digit fuel x y ≡ digits tail digit spare x y
  fuels_agree (suc x) y (suc fuel) (suc spare) h k =
      ap (λ (t : ℕ). t * 2 + digit (suc x % 2) (y % 2))
        (fuels_agree (suc x / 2) (y / 2) fuel spare (omega arith) (omega arith))
  fuels_agree (suc x) y zero spare h k = absurd (omega arith)
  fuels_agree (suc x) y (suc fuel) zero h k = absurd (omega arith)
  fuels_agree zero y (suc fuel) (suc spare) h k = refl
  fuels_agree zero y (suc fuel) zero h k = refl
  fuels_agree zero y zero (suc spare) h k = refl
  fuels_agree zero y zero zero h k = refl

  lowest_digit :
      (x y : ℕ)
      → 0 < x
      → bitwise tail digit x y ≡ bitwise tail digit (x / 2) (y / 2) * 2 + digit (x % 2) (y % 2)
  lowest_digit zero y h = absurd (omega arith)
  lowest_digit (suc x) y h =
      ap (λ (t : ℕ). t * 2 + digit (suc x % 2) (y % 2))
        (fuels_agree (suc x / 2) (y / 2) x (suc x / 2) (omega arith) (omega arith))

pub bit_and_step : (a b : ℕ) → bit_and a b ≡ bit_and (a / 2) (b / 2) * 2 + min (a % 2) (b % 2)
bit_and_step a b = elim (Bool-cases (a == 0)) [
  | inl none_set ↦
      let nil : a ≡ 0 = ground arith in
      rw nil (rw (bit_and-bitwise 0 b, bit_and-bitwise 0 (b / 2)) (omega arith))
  | inr some_set ↦
      rw (bit_and-bitwise a b, bit_and-bitwise (a / 2) (b / 2))
        (lowest_digit _ min a b (ground arith))
]

pub bit_or_step : (a b : ℕ) → bit_or a b ≡ bit_or (a / 2) (b / 2) * 2 + max (a % 2) (b % 2)
bit_or_step a b = elim (Bool-cases (a == 0)) [
  | inl none_set ↦
      let nil : a ≡ 0 = ground arith in
      rw nil (rw (bit_or-bitwise 0 b, bit_or-bitwise 0 (b / 2)) (omega arith))
  | inr some_set ↦
      rw (bit_or-bitwise a b, bit_or-bitwise (a / 2) (b / 2))
        (lowest_digit _ max a b (ground arith))
]

bit_or_fuel : (n a : ℕ) → a ≤ n → bit_or a 0 ≡ a
bit_or_fuel n zero h = refl
bit_or_fuel zero (suc a) h = absurd (omega arith)
bit_or_fuel (suc n) (suc a) h =
    omega (arith, bit_or_step (suc a) 0, bit_or_fuel n (suc a / 2) (omega arith))

bit_and_fuel : (n a : ℕ) → a ≤ n → bit_and a 0 ≡ 0
bit_and_fuel n zero h = refl
bit_and_fuel zero (suc a) h = absurd (omega arith)
bit_and_fuel (suc n) (suc a) h =
    omega (arith, bit_and_step (suc a) 0, bit_and_fuel n (suc a / 2) (omega arith))

double : (a b : ℕ) → bit_or (a * 2) b ≡ bit_or a (b / 2) * 2 + b % 2
double a b =
    let half : a * 2 / 2 ≡ a = omega arith in
    let even : a * 2 % 2 ≡ 0 = omega arith in rw bit_or_step (rw (half, even) (omega arith))

-- `a << k | b` is a sum where `b` has at most `k` bits.
pub bit_or-shift : (k a b : ℕ) → b < 2 ^ k → bit_or (a * 2 ^ k) b ≡ a * 2 ^ k + b
bit_or-shift zero a b h =
    let e : b ≡ 0 = omega arith in
    let f : a * 2 ^ 0 ≡ a = omega arith in rw (e, f) (omega (arith, bit_or_fuel a a (le_refl a)))
bit_or-shift (suc k) a b h =
    let p : 2 ^ suc k ≡ 2 ^ k * 2 = omega (arith, pow-suc 2 k) in
    let e : a * 2 ^ suc k ≡ a * 2 ^ k * 2 = rw p (omega arith) in
    rw e (omega (arith, double (a * 2 ^ k) b, bit_or-shift k a (b / 2) (omega (arith, p))))

-- Clearing the lowest `k` bits of a mask clears those bits of the result.
pub bit_and-shift : (k a b : ℕ) → bit_and a (b * 2 ^ k) ≡ bit_and (a / 2 ^ k) b * 2 ^ k
bit_and-shift zero a b =
    let e : b * 2 ^ 0 ≡ b = omega arith in
    let f : a / 2 ^ 0 ≡ a = omega arith in rw (e, f) (omega arith)
bit_and-shift (suc k) a b =
    let p : 2 ^ suc k ≡ 2 * 2 ^ k = omega (arith, pow-suc 2 k) in
    let half : b * (2 * 2 ^ k) / 2 ≡ b * 2 ^ k = omega arith in
    let even : b * (2 * 2 ^ k) % 2 ≡ 0 = omega arith in
    let split : a / (2 * 2 ^ k) ≡ a / 2 / 2 ^ k = sym (div-div-eq-div-mul a 2 (2 ^ k)) in
    rw p (rw bit_and_step (rw (half, even, split) (omega (arith, bit_and-shift k (a / 2) b))))

mod_double : (a q : ℕ) → a % (2 * q) ≡ a / 2 % q * 2 + a % 2
mod_double a q =
    let split = div-div-eq-div-mul a 2 q in
    omega (arith, split, div-add-mod a (2 * q), div-add-mod (a / 2) q, ap (λ (t : ℕ). q * t) split)

pub two_pow_pos : (m : ℕ) → 0 < 2 ^ m
two_pow_pos zero = omega arith
two_pow_pos (suc m) = omega (arith, pow-suc 2 m, two_pow_pos m)

pub pow-add : (k j : ℕ) → 2 ^ (k + j) ≡ 2 ^ k * 2 ^ j
pow-add zero j = let e : 0 + j ≡ j = omega arith in rw e (omega arith)
pow-add (suc k) j =
    let e : suc k + j ≡ suc (k + j) = omega arith in
    rw e (omega (arith, pow-suc 2 (k + j), pow-add k j, ap (λ (t : ℕ). t * 2 ^ j) (pow-suc 2 k)))

-- A mask of `m` ones takes the remainder.
pub bit_and-ones : (m a : ℕ) → bit_and a (2 ^ m - 1) ≡ a % 2 ^ m
bit_and-ones zero a = omega (arith, bit_and_fuel a a (le_refl a))
bit_and-ones (suc m) a =
    let p : 2 ^ suc m ≡ 2 * 2 ^ m = omega (arith, pow-suc 2 m) in
    let half : (2 * 2 ^ m - 1) / 2 ≡ 2 ^ m - 1 = omega (arith, two_pow_pos m) in
    let odd : (2 * 2 ^ m - 1) % 2 ≡ 1 = omega (arith, two_pow_pos m) in
    rw (p, mod_double) (rw bit_and_step (rw (half, odd) (omega (arith, bit_and-ones m (a / 2)))))

mul_pred : (a b : ℕ) → (a - 1) * b ≡ a * b - b
mul_pred zero b = omega arith
mul_pred (suc a) b = let e : suc a - 1 ≡ a = omega arith in rw e (omega arith)

-- `n & ~(2 ^ k - 1)` on `k + j` bits rounds down to a multiple of `2 ^ k`.
pub bit_and-high :
    (k j n : ℕ) → n < 2 ^ (j + k) → bit_and n (2 ^ (j + k) - 2 ^ k) ≡ n / 2 ^ k * 2 ^ k
bit_and-high k j n h =
    let e : 2 ^ (j + k) - 2 ^ k ≡ (2 ^ j - 1) * 2 ^ k =
      omega (arith, pow-add j k, two_pow_pos j, mul_pred (2 ^ j) (2 ^ k)) in
    rw (e, bit_and-shift, bit_and-ones)
      (ap (λ (t : ℕ). t * 2 ^ k)
        (mod-eq_of_lt ((div-lt_iff_lt-mul (two_pow_pos k)).1 (rw pow-add at h))))

-- `a & 63`.
pub bit_and_63 : (a : ℕ) → bit_and a 63 ≡ a % 64
bit_and_63 a = bit_and-ones 6 a

top_table : holds_below (λ q. bit_and q 0xc0 == q / 64 * 64) 256 ≡ true
unfolding holds_below
top_table = refl

-- `q & 0xc0` of a byte keeps its two top bits.
pub bit_and_0xc0 : (q : ℕ) → q < 256 → bit_and q 0xc0 ≡ q / 64 * 64
bit_and_0xc0 q h = (==_iff _ _).0 (holds_below_sound _ 256 q h top_table)

lead_table :
    holds_below
      (λ c. bit_and c 0x3f == c % 64 && bit_and c 0x1f == c % 32 && bit_and c 0x0f == c % 16)
      256
    ≡ true
unfolding holds_below
lead_table = refl

-- The masks that `0x7f >> more` takes.
pub lead_masks :
    (c : ℕ)
    → c < 256
    → (bit_and c 0x3f ≡ c % 64) × (bit_and c 0x1f ≡ c % 32) × (bit_and c 0x0f ≡ c % 16)
lead_masks c h = let e = holds_below_sound _ 256 c h lead_table in ground arith
