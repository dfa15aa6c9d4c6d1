-- ===== src/Size/Align.antt =====
-- `align_up` rounds up to the next multiple of a power of two.
use Prim.Native.Nat.{bit_and}
use native.Mathlib.Nat.{
  mod_self, pow-suc, mul-mod_left, le_refl, pow-le-pow_right, mod-lt, div-add-mod,
}
use jev_bush.Prelude.{
  inl, inr, ◌==◌, Bool-cases, ltb→lt, ℕ, zero, suc, ◌+◌, ◌-◌, ◌*◌, ◌/◌, ◌%◌, ◌^◌, ltb, ◌≡◌, ◌<◌,
  ◌≤◌, arith, if◌then◌else◌, refl,
}
use jev_bush.Prelude.Bits.{bit_and_step, bit_and-ones, bit_and-high, two_pow_pos}
use jev_bush.Fault.{ok, err, allocation_size_overflow}
use jev_bush.Size.{align_up, complement, size_add_lem}

-- On an alignment of 2 ^ k bytes, `align_up` gives the least multiple of it that is not below `n`,
-- and fails only where `n + alignment - 1` passes SIZE_MAX.
pub align_up_lem :
    (k j n : ℕ)
    → j + k ≡ 64
    → n < 2 ^ 64
    → align_up n (2 ^ k) ≡ (
        if ltb (n + (2 ^ k - 1)) (2 ^ 64)
        then ok ((n + (2 ^ k - 1)) / 2 ^ k * 2 ^ k)
        else err allocation_size_overflow)
unfolding align_up
align_up_lem k j n e h =
    let pos = two_pow_pos k in
    let power : bit_and (2 ^ k) (2 ^ k - 1) ≡ 0 = rw bit_and-ones (mod_self (2 ^ k)) in
    let mask : complement (2 ^ k - 1) ≡ 2 ^ (j + k) - 2 ^ k = rw e (omega (arith, pos)) in
    let sum = n + (2 ^ k - 1) in
    elim (Bool-cases (ltb sum (2 ^ 64))) [
      | inl fits ↦
          let high : bit_and sum (complement (2 ^ k - 1)) ≡ sum / 2 ^ k * 2 ^ k =
            rw mask (bit_and-high k j sum (rw e (ltb→lt _ _ fits))) in
          ground (arith, size_add_lem n (2 ^ k - 1) h)
      | inr over ↦ ground (arith, size_add_lem n (2 ^ k - 1) h)
    ]

bit_and_self : (f b : ℕ) → b ≤ f → bit_and b b ≡ b
bit_and_self f zero h = refl
bit_and_self zero (suc b) h = absurd (omega arith)
bit_and_self (suc f) (suc b) h =
    omega (arith, bit_and_step (suc b) (suc b), bit_and_self f (suc b / 2) (omega arith))

-- The test of `jb_align_up` passes powers of two only.
power_of_two : (f a : ℕ) → a ≤ f → 0 < a → bit_and a (a - 1) ≡ 0 → (k : ℕ) × (a ≡ 2 ^ k)
power_of_two zero a h pos e = absurd (omega arith)
power_of_two (suc f) a h pos e =
    let step = bit_and_step a (a - 1) in
    elim (Bool-cases (a % 2 == 0)) [
      | inl even ↦
          let half : (a - 1) / 2 ≡ a / 2 - 1 = ground arith in
          let low : bit_and (a / 2) (a / 2 - 1) ≡ 0 = rw (← half) (omega (arith, step)) in
          let (k, p) = power_of_two f (a / 2) (omega arith) (ground arith) low in
          (suc k, ground (arith, pow-suc 2 k))
      | inr odd ↦
          let half : (a - 1) / 2 ≡ a / 2 = ground arith in
          let low = rw (half, bit_and_self f (a / 2) (omega arith)) at step in (0, ground arith)
    ]

accepted : (n a r : ℕ) → align_up n a ≡ ok r → (0 < a) × (bit_and a (a - 1) ≡ 0)
unfolding align_up
accepted n a r e = ground arith

exponent_below : (k : ℕ) → 2 ^ k < 2 ^ 64 → 64 - k + k ≡ 64
exponent_below k h = elim (Bool-cases (ltb k 64)) [
  | inl below ↦ ground arith
  | inr above ↦
      let big = pow-le-pow_right {n = 2} (omega arith) {i = 64} {j = k} (ground arith) in
      absurd (omega arith)
]

rounds_up : (n p r : ℕ) → 0 < p → (n + (p - 1)) / p * p ≡ r → (r % p ≡ 0) × (n ≤ r) × (r < n + p)
rounds_up n p r pos e =
    let left = mod-lt (n + (p - 1)) {m = p} pos in
    let split = div-add-mod (n + (p - 1)) p in
    (rw (← e) (mul-mod_left _ p), omega (arith, left, split), omega (arith, left, split))

power_result :
    (n k r : ℕ)
    → align_up n (2 ^ k) ≡ ok r
    → align_up n (2 ^ k) ≡ (
        if ltb (n + (2 ^ k - 1)) (2 ^ 64)
        then ok ((n + (2 ^ k - 1)) / 2 ^ k * 2 ^ k)
        else err allocation_size_overflow)
    → ((n + (2 ^ k - 1)) / 2 ^ k * 2 ^ k ≡ r) × (r < 2 ^ 64)
power_result n k r e f = ground (arith, div-add-mod (n + (2 ^ k - 1)) (2 ^ k))

-- What an `align_up` that succeeds has done: the alignment is a power of two, and the result is
-- its least multiple at or above `n`, with no wrap.
pub align_up-ok :
    (n a r : ℕ)
    → n < 2 ^ 64
    → a < 2 ^ 64
    → align_up n a ≡ ok r
    → ((k : ℕ) × (a ≡ 2 ^ k)) × (r % a ≡ 0) × (n ≤ r) × (r < n + a) × (r < 2 ^ 64)
align_up-ok n a r hn ha e =
    let (pos, low) = accepted n a r e in
    let (k, p) = power_of_two a a (le_refl a) pos low in
    let result = align_up_lem k (64 - k) n (exponent_below k (rw p at ha)) hn in
    let fits = power_result n k r (rw p at e) result in
    let (whole, up, least) = rounds_up n a r pos (rw p fits.0) in ((k, p), whole, up, least, fits.1)
