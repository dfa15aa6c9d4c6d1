-- ===== src/Utf8/RoundTrip.antt =====
-- `next_cp` reads back what `put_utf8` writes, and accepts nothing else.
use Prim.Native.Nat.{bit_and, bit_or}
use jev_bush.Prelude.{
  ℕ, suc, ◌+◌, ◌*◌, ◌/◌, ◌%◌, ◌^◌, ◌≤◌, ◌<◌, ◌≡◌, ◌↔◌, ◌⊎◌, inl, inr, arith, List, [], ◌∷◌, some,
  false, ltb, ◌==◌, if◌then◌else◌, Bool-cases, Option-cases, get_elem?, length, All, get_elem?-All,
  get_elem?-lt, Holds,
}
use jev_bush.Prelude.Bits.{bit_or-shift, bit_and_63, bit_and_0xc0, lead_masks}
use jev_bush.Fault.{ok, err, invalid_utf8}
use jev_bush.Utf8.{put_utf8, load, continuation, is_malformed, multibyte, next_cp}

-- A Unicode scalar value: a code point that is no surrogate.
abbrev pub IsScalar : ℕ → Type 0
IsScalar c = (c < 0xd800) ⊎ ((0xdfff < c) × (c ≤ 0x10ffff))

abbrev pub IsBytes : List ℕ → Type 0
IsBytes = All (λ b. b < 256)

lead_2 : (x : ℕ) → x < 64 → bit_or 0xc0 x % 256 ≡ 0xc0 + x
lead_2 x h = omega (arith, bit_or-shift 6 3 x h)

lead_3 : (x : ℕ) → x < 16 → bit_or 0xe0 x % 256 ≡ 0xe0 + x
lead_3 x h = omega (arith, bit_or-shift 4 14 x h)

lead_4 : (x : ℕ) → x < 8 → bit_or 0xf0 x % 256 ≡ 0xf0 + x
lead_4 x h = omega (arith, bit_or-shift 3 30 x h)

trail : (x : ℕ) → bit_or 0x80 (bit_and x 63) % 256 ≡ 0x80 + x % 64
trail x = rw bit_and_63 (omega (arith, bit_or-shift 6 2 (x % 64) (omega arith)))

-- The encoding in plain arithmetic.
abbrev pub encoding : ℕ → List ℕ
encoding c =
    if ltb c 0x80
    then c ∷ []
    else if ltb c 0x800
    then (0xc0 + c / 64) ∷ (0x80 + c % 64) ∷ []
    else if ltb c 0x10000
    then (0xe0 + c / 4096) ∷ (0x80 + c / 64 % 64) ∷ (0x80 + c % 64) ∷ []
    else (0xf0 + c / 262144) ∷ (0x80 + c / 4096 % 64) ∷ (0x80 + c / 64 % 64) ∷ (0x80 + c % 64) ∷ []

pub put_utf8-encoding : (c : ℕ) → c ≤ 0x10ffff → put_utf8 c ≡ encoding c
unfolding put_utf8
put_utf8-encoding c h = ground (
  arith,
  lead_2 (c / 64),
  lead_3 (c / 4096),
  lead_4 (c / 262144),
  trail c,
  trail (c / 64),
  trail (c / 4096),
)

shift_in : (v q : ℕ) → v < 2 ^ 26 → bit_or (v * 2 ^ 6 % 2 ^ 32) (bit_and q 63) ≡ v * 64 + q % 64
shift_in v q h =
    let e : v * 2 ^ 6 % 2 ^ 32 ≡ v * 2 ^ 6 = omega arith in
    rw (e, bit_and_63) (omega (arith, bit_or-shift 6 v (q % 64) (omega arith)))

continuation_step :
    (s : List ℕ) (k i v q : ℕ)
    → get_elem? s i ≡ some q
    → q < 256
    → v < 2 ^ 26
    → continuation s (suc k) i v
      ≡ (if q / 64 == 2 then continuation s k (i + 1) (v * 64 + q % 64) else err invalid_utf8)
unfolding continuation load
continuation_step s k i v q e hq hv = ground (arith, shift_in v q hv, bit_and_0xc0 q hq)

load-some : (s : List ℕ) (i c : ℕ) → get_elem? s i ≡ some c → load s i ≡ ok c
unfolding load
load-some s i c e = rw (e, load)

within : (s : List ℕ) (i c : ℕ) → get_elem? s i ≡ some c → i < length s
within s i c e = get_elem?-lt s i e

-- The canonical encoding at `i` is read as its code point.
next_cp-encoding :
    (s : List ℕ) (i c : ℕ)
    → IsScalar c
    → Holds s i (encoding c)
    → next_cp s (length s) i ≡ ok (c, i + length (encoding c))
unfolding next_cp continuation
next_cp-encoding s i c sc h = elim (Bool-cases (ltb c 0x80)) [
  | inl a ↦ ground (arith, load-some s i c)
  | inr a ↦ elim (Bool-cases (ltb c 0x800)) [
    | inl b ↦ ground (
      arith,
      load-some s i (0xc0 + c / 64),
      within s (i + 1) (0x80 + c % 64),
      lead_masks (0xc0 + c / 64),
      continuation_step s 0 (i + 1) (c / 64) (0x80 + c % 64),
    )
    | inr b ↦ elim (Bool-cases (ltb c 0x10000)) [
      | inl d ↦ ground (
        arith,
        load-some s i (0xe0 + c / 4096),
        within s (i + 2) (0x80 + c % 64),
        lead_masks (0xe0 + c / 4096),
        continuation_step s 1 (i + 1) (c / 4096) (0x80 + c / 64 % 64),
        continuation_step s 0 (i + 1 + 1) (c / 64) (0x80 + c % 64),
      )
      | inr d ↦ ground (
        arith,
        load-some s i (0xf0 + c / 262144),
        within s (i + 3) (0x80 + c % 64),
        lead_masks (0xf0 + c / 262144),
        continuation_step s 2 (i + 1) (c / 262144) (0x80 + c / 4096 % 64),
        continuation_step s 1 (i + 1 + 1) (c / 4096) (0x80 + c / 64 % 64),
        continuation_step s 0 (i + 1 + 1 + 1) (c / 64) (0x80 + c % 64),
      )
    ]
  ]
]

-- What a round of the loop that succeeds has read.
continuation_inv :
    (s : List ℕ) (k i v : ℕ) (r : ℕ × ℕ)
    → IsBytes s
    → v < 2 ^ 26
    → continuation s (suc k) i v ≡ ok r
    → (q : ℕ) × (get_elem? s i ≡ some q)
      × (q < 256)
      × (q / 64 ≡ 2)
      × (continuation s k (i + 1) (v * 64 + q % 64) ≡ ok r)
continuation_inv s k i v r bs hv e = elim (Option-cases (get_elem? s i)) [
  | inl missing ↦ absurd (unfold continuation load in ground arith)
  | inr (q, here) ↦
      let hq = get_elem?-All (λ b. b < 256) s i bs here in
      let step = continuation_step s k i v q here hq hv in
      elim (Bool-cases (q / 64 == 2)) [
        | inl top ↦ (q, here, hq, ground arith, ground arith)
        | inr other ↦ absurd (ground arith)
      ]
]

multibyte_inv :
    (s : List ℕ) (n p c more v j : ℕ)
    → multibyte s n p c (some more) ≡ ok (v, j)
    → (p + more < n)
      × (continuation s more (p + 1) (bit_and c (0x7f / 2 ^ more)) ≡ ok (v, j))
      × (is_malformed more v ≡ false)
unfolding multibyte
multibyte_inv s n p c more v j e = ground arith

continuation_end :
    (s : List ℕ) (i v : ℕ) (r : ℕ × ℕ) → continuation s 0 i v ≡ ok r → (r.0 ≡ v) × (r.1 ≡ i)
unfolding continuation
continuation_end s i v r e = ground arith

module _ (s : List ℕ) (i : ℕ) (bs : IsBytes s) where
  abbrev Canonical : ℕ → ℕ → Type 0
  Canonical c j = IsScalar c × Holds s i (encoding c) × (j ≡ i + length (encoding c))

  multibyte_1 :
      (b c j : ℕ)
      → get_elem? s i ≡ some b
      → 0xc2 ≤ b
      → b < 0xe0
      → multibyte s (length s) i b (some 1) ≡ ok (c, j)
      → Canonical c j
  multibyte_1 b c j here lo hi e =
      let (_, loop, fine) = multibyte_inv s (length s) i b 1 c j e in
      let masks = lead_masks b (omega arith) in
      let (q, at_q, hq, top, last) =
        continuation_inv s 0 (i + 1) (b % 64) (c, j) bs (omega arith) (rw masks.0 at loop) in
      let value = continuation_end s (i + 1 + 1) (b % 64 * 64 + q % 64) (c, j) last in ground arith

  multibyte_2 :
      (b c j : ℕ)
      → get_elem? s i ≡ some b
      → 0xe0 ≤ b
      → b < 0xf0
      → multibyte s (length s) i b (some 2) ≡ ok (c, j)
      → Canonical c j
  multibyte_2 b c j here lo hi e =
      let (_, loop, fine) = multibyte_inv s (length s) i b 2 c j e in
      let masks = lead_masks b (omega arith) in
      let (q, at_q, hq, top, next) =
        continuation_inv s 1 (i + 1) (b % 32) (c, j) bs (omega arith) (rw masks.1 at loop) in
      let (p, at_p, hp, top_p, last) =
        continuation_inv s 0 (i + 1 + 1) (b % 32 * 64 + q % 64) (c, j) bs (omega arith) next in
      let value =
        continuation_end s (i + 1 + 1 + 1) ((b % 32 * 64 + q % 64) * 64 + p % 64) (c, j) last in
      ground arith

  multibyte_3 :
      (b c j : ℕ)
      → get_elem? s i ≡ some b
      → 0xf0 ≤ b
      → multibyte s (length s) i b (some 3) ≡ ok (c, j)
      → Canonical c j
  multibyte_3 b c j here lo e =
      let (_, loop, fine) = multibyte_inv s (length s) i b 3 c j e in
      let hb = get_elem?-All (λ b. b < 256) s i bs here in
      let masks = lead_masks b hb in
      let (q, at_q, hq, top, next) =
        continuation_inv s 2 (i + 1) (b % 16) (c, j) bs (omega arith) (rw masks.2 at loop) in
      let (p, at_p, hp, top_p, next') =
        continuation_inv s 1 (i + 1 + 1) (b % 16 * 64 + q % 64) (c, j) bs (omega arith) next in
      let (o, at_o, ho, top_o, last) =
        continuation_inv s 0 (i + 1 + 1 + 1) ((b % 16 * 64 + q % 64) * 64 + p % 64) (c, j) bs
          (omega arith) next' in
      let value =
        continuation_end s (i + 1 + 1 + 1 + 1)
          (((b % 16 * 64 + q % 64) * 64 + p % 64) * 64 + o % 64) (c, j) last in
      ground arith

  next_cp-Canonical : (c j : ℕ) → next_cp s (length s) i ≡ ok (c, j) → Canonical c j
  next_cp-Canonical c j e = elim (Option-cases (get_elem? s i)) [
    | inl missing ↦ absurd (unfold next_cp load in ground arith)
    | inr (b, here) ↦
        unfold next_cp in
        ground (
          arith,
          load-some s i b here,
          get_elem?-All (λ b. b < 256) s i bs here,
          multibyte_1 b c j here,
          multibyte_2 b c j here,
          multibyte_3 b c j here,
        )
  ]

  -- Over an array of bytes, `next_cp` returns the code point `c` and the index `j` exactly when
  -- `c` is a scalar value, the bytes that `put_utf8` writes for it stand at `i`, and `j` is the
  -- index behind them: it reads back what `put_utf8` wrote, and accepts no overlong form, no
  -- surrogate and nothing cut short.
  pub next_cp_iff :
      (c j : ℕ)
      → (next_cp s (length s) i ≡ ok (c, j))
        ↔ (IsScalar c × Holds s i (put_utf8 c) × (j ≡ i + length (put_utf8 c)))
  next_cp_iff c j = (
    λ e. let got = next_cp-Canonical c j e in rw (put_utf8-encoding c (ground arith)) got,
    λ h.
        let e = put_utf8-encoding c (ground arith) in
        rw h.2 (rw e (next_cp-encoding s i c h.0 (rw e at h.1))),
  )
