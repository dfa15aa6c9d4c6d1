-- ===== src/Utf8/Progress.antt =====
-- `next_cp` as a step of a loop.
use Prim.Native.Nat.{bit_and}
use jev_bush.Prelude.{
  ℕ, zero, suc, ◌+◌, ◌<◌, ◌≤◌, refl, arith, List, Option, none, some, not, ltb, leb, ◌==◌, length,
  get_elem?_of_lt,
}
use jev_bush.Fault.{ok, invalid_utf8}
use jev_bush.Fault.Clean.{Clean, Clean->>=, Clean-die_if, Clean-if, Clean-weaken}
use jev_bush.Utf8.{next_cp, load, continuation, multibyte, trailing, is_malformed}

load-Clean : (z : List ℕ) (i : ℕ) → i < length z → Clean (λ c. Unit {0}) (load z i)
unfolding load
load-Clean z i h = let (c, e) = get_elem?_of_lt z i h in rw (Clean, e) tt

continuation-Clean :
    (z : List ℕ) (k i v : ℕ) → i + k ≤ length z → Clean (λ r. i ≤ r.1) (continuation z k i v)
unfolding continuation
continuation-Clean z zero i v h = omega arith
continuation-Clean z (suc k) i v h =
    let Q = λ (r : ℕ × ℕ). i ≤ r.1 in
    Clean->>= (λ c. Unit {0}) Q (load z i) _ (load-Clean z i (omega arith))
      λ q _. Clean-die_if Q (not (bit_and q 0xc0 == 0x80)) invalid_utf8 _ refl λ _.
        Clean-weaken (λ (r : ℕ × ℕ). i + 1 ≤ r.1) Q _
          (continuation-Clean z k (i + 1) _ (omega arith)) λ r h. omega arith

multibyte-Clean :
    (z : List ℕ) (p c : ℕ) (more : Option ℕ)
    → Clean (λ r. p < r.1) (multibyte z (length z) p c more)
unfolding multibyte
multibyte-Clean z p c none = refl
multibyte-Clean z p c (some more) =
    let Q = λ (r : ℕ × ℕ). p < r.1 in
    Clean-die_if Q (leb (length z) (p + more)) invalid_utf8 _ refl λ room.
      Clean->>= (λ r. p + 1 ≤ r.1) Q (continuation z more (p + 1) _) _
        (continuation-Clean z more (p + 1) _ (ground arith))
        λ (v, i) on. Clean-die_if Q (is_malformed more v) invalid_utf8 _ refl λ _. omega arith

-- `next_cp` passes a byte at least.
pub next_cp-Clean :
    (z : List ℕ) (i : ℕ) → i < length z → Clean (λ r. i < r.1) (next_cp z (length z) i)
unfolding next_cp
next_cp-Clean z i h =
    let Q = λ (r : ℕ × ℕ). i < r.1 in
    Clean->>= (λ c. Unit {0}) Q (load z i) _ (load-Clean z i h)
      λ c _.
        Clean-if Q (ltb c 0x80) (ok (c, i + 1)) _ (omega arith)
          λ _. multibyte-Clean z i c (trailing c)
