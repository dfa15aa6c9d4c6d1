-- ===== src/Json/Readers/Numbers.antt =====
-- The numbers that `jt_nonnegative_int` and `jt_u64` read.
use jev_bush.Prelude.{
  ℕ, ◌+◌, ◌-◌, ◌*◌, ◌/◌, ◌%◌, ◌^◌, ◌<◌, ◌≤◌, ◌≡◌, ◌↔◌, inl, inr, refl, sym, ap, arith, List, [],
  ◌∷◌, false, not, ◌||◌, ltb, ◌==◌, length, Bool-cases, All,
}
use native.Mathlib.Nat.{pow-succ', mul_assoc, pow-le-pow_right, mul-le-mul_right}
use jev_bush.Fault.{die_if-ok, Result, ok, ◌>>=◌, ◌>>◌, die_if, expected_integer, expected_unsigned}
use jev_bush.Json.Tokens.{Kind, object, array, string, primitive, Token}
use jev_bush.Json.Text.{span}
use jev_bush.Json.Readers.{is_primitive, int_loop, nonnegative_int, uint64_max, u64_loop, token_u64}

abbrev pub IsDigit : ℕ → Type 0
IsDigit c = (b'0' ≤ c) × (c ≤ b'9')

-- The number that decimal digits stand for, behind the digits of `v`.
abbrev pub decimal : ℕ → List ℕ → ℕ
decimal v [] = v
decimal v (c ∷ cs) = decimal (v * 10 + (c - b'0')) cs

decimal_le : (v : ℕ) (cs : List ℕ) → v ≤ decimal v cs
decimal_le v [] = omega arith
decimal_le v (c ∷ cs) = omega (arith, decimal_le (v * 10 + (c - b'0')) cs)

decimal_lt : (v : ℕ) (cs : List ℕ) → All IsDigit cs → decimal v cs < (v + 1) * 10 ^ length cs
decimal_lt v [] d = omega arith
decimal_lt v (c ∷ cs) d =
    let more = decimal_lt (v * 10 + (c - b'0')) cs d.1 in
    let power : 10 ^ length (c ∷ cs) ≡ 10 * 10 ^ length cs = pow-succ' 10 (length cs) in
    let wider : (v * 10 + (c - b'0') + 1) * 10 ^ length cs ≤ (v + 1) * 10 * 10 ^ length cs =
      mul-le-mul_right (10 ^ length cs) (omega (arith, d.0)) in
    rw (power, sym (mul_assoc (v + 1) 10 (10 ^ length cs))) (omega (arith, more, wider))

int_loop_iff :
    (v : ℕ) (cs : List ℕ) (w : ℕ) → (int_loop v cs ≡ ok w) ↔ (All IsDigit cs × (decimal v cs ≡ w))
unfolding int_loop
int_loop_iff v [] w = (λ e. (tt, cc), λ h. ap ok h.1)
int_loop_iff v (c ∷ cs) w =
    let more = int_loop_iff (v * 10 + (c - b'0')) cs w in
    elim (Bool-cases (ltb c b'0' || ltb b'9' c)) [
      | inl refused ↦ (λ e. (let bad = rw refused at e in cc), λ h. absurd (ground (arith, h.0.0)))
      | inr taken ↦ (
        λ e.
            (let rest = rw taken at e in
              let (digits, same) = more.0 rest in ((ground arith, digits), same)),
        λ h. rw taken (more.1 (h.0.1, h.1)),
      )
    ]

u64_loop_iff :
    (v : ℕ) (cs : List ℕ) (w : ℕ)
    → v ≤ uint64_max
    → All (λ c. c < 256) cs
    → (u64_loop v cs ≡ ok w) ↔ (All IsDigit cs × (decimal v cs ≡ w) × (w ≤ uint64_max))
unfolding u64_loop
u64_loop_iff v [] w fits bytes =
    (λ e. (let same : v ≡ w = cc in (tt, same, omega (arith, same))), λ h. ap ok h.1)
u64_loop_iff v (c ∷ cs) w fits bytes =
    let d = (c + 2 ^ 32 - b'0') % 2 ^ 32 in
    elim (Bool-cases (ltb 9 d || ltb ((uint64_max - d) / 10) v)) [
      | inl refused ↦ (
        λ e. (let bad = rw refused at e in cc),
        λ h.
            (let (digit, others) = h.0 in
              let step = decimal_le (v * 10 + (c - b'0')) cs in
              absurd (ground (arith, digit, step, h.1))),
      )
      | inr taken ↦
          let same : d ≡ c - b'0' = ground (arith, bytes.0) in
          let small : v * 10 + (c - b'0') ≤ uint64_max = ground (arith, same) in
          let more = u64_loop_iff (v * 10 + (c - b'0')) cs w small bytes.1 in
          (
            λ e.
                (let rest = rw (taken, same) at e in
                  let (digits, value, small) = more.0 rest in
                  ((ground arith, digits), value, small)),
            λ h. rw (taken, same) (more.1 (h.0.1, h.1, h.2)),
          )
    ]

is_primitive-true : (k : Kind) → (not (is_primitive k) ≡ false) ↔ (k ≡ primitive)
is_primitive-true object = (λ e. cc, λ e. cc)
is_primitive-true array = (λ e. cc, λ e. cc)
is_primitive-true string = (λ e. cc, λ e. cc)
is_primitive-true primitive = (λ e. refl, λ e. refl)

-- What both readers accept of a token that spans `body`.
abbrev pub Short : Kind → List ℕ → ℕ → Type 0
Short k body most = (k ≡ primitive) × (0 < length body) × (length body ≤ most)

reads_iff :
    (s : List ℕ) (t : Token) (body : List ℕ) (most : ℕ) (fault : _) (loop : List ℕ → Result ℕ)
    (v : ℕ)
    → span s t ≡ ok body
    → ((die_if (not (is_primitive t.kind)) fault
          >> (span s t >>= λ b. die_if (length b == 0 || ltb most (length b)) fault >> loop b))
        ≡ ok v)
      ↔ (Short t.kind body most × (loop body ≡ ok v))
reads_iff s t body most fault loop v spans =
    let outer =
      die_if-ok (not (is_primitive t.kind)) fault
        (die_if (length body == 0 || ltb most (length body)) fault >> loop body) v in
    let inner = die_if-ok (length body == 0 || ltb most (length body)) fault (loop body) v in
    let kind = is_primitive-true t.kind in
    rw spans (
      λ e.
          (let (is, rest) = outer.0 e in
            let (size, runs) = inner.0 rest in ((kind.0 is, ground arith, ground arith), runs)),
      λ h. outer.1 (kind.1 h.0.0, inner.1 (ground (arith, h.0.1, h.0.2), h.1)),
    )

-- `jt_nonnegative_int` gives a number exactly when the token is a primitive of one to nine bytes
-- that are all digits and the number is the one that they stand for in decimal, which is then
-- smaller than 10^9, so that an `int` holds it.
pub nonnegative_int_iff :
    (s : List ℕ) (t : Token) (body : List ℕ) (v : ℕ)
    → span s t ≡ ok body
    → (nonnegative_int s t ≡ ok v)
      ↔ (Short t.kind body 9 × All IsDigit body × (decimal 0 body ≡ v) × (v < 10 ^ 9))
unfolding nonnegative_int
nonnegative_int_iff s t body v spans =
    let reads = reads_iff s t body 9 expected_integer (int_loop 0) v spans in
    let loop = int_loop_iff 0 body v in
    (
      λ e.
          (let (short, runs) = reads.0 e in
            let (digits, value) = loop.0 runs in
            let small = decimal_lt 0 body digits in
            let power = pow-le-pow_right {n = 10} (omega arith) {i = length body} {j = 9} short.2 in
            (short, digits, value, omega (arith, small, power, value))),
      λ h. reads.1 (h.0, loop.1 (h.1, h.2)),
    )

-- `jt_u64` gives a number exactly when the token is a primitive of one to twenty bytes that are all
-- digits, the number that they stand for in decimal is at most 2^64 - 1, and it is that number.
pub token_u64_iff :
    (s : List ℕ) (t : Token) (body : List ℕ) (v : ℕ)
    → span s t ≡ ok body
    → All (λ c. c < 256) body
    → (token_u64 s t ≡ ok v)
      ↔ (Short t.kind body 20 × All IsDigit body × (decimal 0 body ≡ v) × (v ≤ uint64_max))
unfolding token_u64
token_u64_iff s t body v spans bytes =
    let reads = reads_iff s t body 20 expected_unsigned (u64_loop 0) v spans in
    let loop = u64_loop_iff 0 body v (omega arith) bytes in
    (
      λ e.
          (let (short, runs) = reads.0 e in
            let (digits, value, small) = loop.0 runs in (short, digits, value, small)),
      λ h. reads.1 (h.0, loop.1 (h.1, h.2, h.3)),
    )
