-- ===== src/Buffer/Append.antt =====
-- Appending to a buffer.
use native.Mathlib.Nat.{mul_assoc, pow-suc}
use jev_bush.Prelude.{
  ℕ, zero, suc, ◌+◌, ◌-◌, ◌*◌, ◌/◌, ◌^◌, ◌<◌, ◌≤◌, ◌≡◌, ◌⊎◌, inl, inr, refl, ap, arith, List, ◌++◌,
  true, false, not, ◌&&◌, ◌||◌, ltb, ◌==◌, length, if◌then◌else◌, Bool-cases, length-append,
}
use jev_bush.Fault.{ok}
use jev_bush.Size.{size_max}
use jev_bush.Buffer.{Buffer, double_until, need, append}

-- There is room for the terminator, or nothing yet.
abbrev pub IsRoomy : Buffer → Type 0
IsRoomy b =
    ((b.cap ≡ 0) × (length b.content ≡ 0)) ⊎ ((length b.content < b.cap) × (b.cap ≤ size_max))

double_until-ok :
    (fuel wanted c : ℕ)
    → 2 ^ 64 ≤ c * 2 ^ fuel
    → 0 < c
    → c ≤ size_max
    → wanted ≤ 2 ^ 63
    → (c' : ℕ) × (double_until fuel wanted c ≡ ok c') × (wanted ≤ c') × (c' ≤ size_max)
unfolding double_until
double_until-ok zero wanted c fuelled some_cap small fits = absurd (omega arith)
double_until-ok (suc fuel) wanted c fuelled some_cap small fits = elim (Bool-cases (ltb c wanted)) [
  | inr enough ↦ (c, rw enough refl, ground arith, small)
  | inl short ↦
      let under : c < wanted = ground arith in
      let fine : ltb (size_max / 2) c ≡ false = ground arith in
      let doubled : 2 ^ 64 ≤ c * 2 * 2 ^ fuel =
        omega (arith, ap (λ (t : ℕ). c * t) (pow-suc 2 fuel), mul_assoc c 2 (2 ^ fuel)) in
      let (c', runs, much, little) =
        double_until-ok fuel wanted (c * 2) doubled (omega arith) (omega arith) fits in
      (c', rw (short, fine) runs, much, little)
]

need-ok :
    (b : Buffer) (add : ℕ)
    → IsRoomy b
    → (b.limit ≡ 0) ⊎ (length b.content + add ≤ b.limit)
    → length b.content + add + 1 ≤ 2 ^ 63
    → (c : ℕ) × (need true b add ≡ ok (record b { cap = c }))
      × (length b.content + add < c)
      × (c ≤ size_max)
unfolding need
need-ok b add roomy within fits =
    let n = length b.content in
    let allowed : (not (b.limit == 0) && (ltb b.limit n || ltb (b.limit - n) add)) ≡ false =
      ground arith in
    let sized : ltb (size_max - n - 1) add ≡ false = ground arith in
    let wanted = n + add + 1 in
    let start = if b.cap == 0 then 256 else b.cap in
    elim (Bool-cases (ltb b.cap wanted)) [
      | inr room ↦ (b.cap, rw (allowed, sized, room) refl, ground arith, ground arith)
      | inl grow ↦
          let some_cap : 0 < start = ground arith in
          let small : start ≤ size_max = ground arith in
          let (c, runs, much, little) =
            double_until-ok 64 wanted start (omega arith) some_cap small fits in
          (c, rw (allowed, sized, grow, runs) refl, omega arith, little)
    ]

-- Where memory is there, appending bytes to a buffer ends and succeeds as long as the limit, if
-- there is one, is kept and the text with its terminator takes at most 2^63 bytes: the bytes stand
-- behind the old text, the limit is the same, and the terminator has room.
pub append-ok :
    (b : Buffer) (bytes : List ℕ)
    → IsRoomy b
    → (b.limit ≡ 0) ⊎ (length b.content + length bytes ≤ b.limit)
    → length b.content + length bytes + 1 ≤ 2 ^ 63
    → (c : ℕ) × (append true b bytes ≡ ok (record b { cap = c; content = b.content ++ bytes }))
      × IsRoomy (record b { cap = c; content = b.content ++ bytes })
unfolding append
append-ok b bytes roomy within fits =
    let (c, runs, much, little) = need-ok b (length bytes) roomy within fits in
    (c, rw runs refl, inr (omega (arith, length-append b.content bytes), little))
