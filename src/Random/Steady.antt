-- ===== src/Random/Steady.antt =====
-- The generator's array keeps its 624 words, and no index leaves it.
use jev_bush.Prelude.{
  ℕ, zero, suc, ◌+◌, ◌-◌, ◌*◌, ◌%◌, ◌^◌, ◌<◌, ◌≤◌, ◌≡◌, ◌⊎◌, inl, inr, refl, ap, ◌∙◌, arith, List,
  ◌∷◌, true, false, leb, length, set, if◌then◌else◌, Bool-cases, length-set,
}
use Prim.Native.Nat.{bit_xor}
use jev_bush.Fault.{>>=-ok, ok}
use jev_bush.Sha256.{write}
use jev_bush.Sha256.Total.{read-ok, if_true}
use jev_bush.Random.{
  Mt, spread, fill, turn, mix_seed, mix_index, mix, seed_state, temper, draw, next_u32,
}
use jev_bush.Random.Twist.{write-ok, word, renewed, read-word, twist-ok}

-- A state between two calls.
abbrev pub IsSteady : Mt → Type 0
IsSteady r = (length r.mt ≡ 624) × (r.at ≤ 624)

length-fill : (left i x : ℕ) → length (fill left i x) ≡ left
unfolding fill
length-fill zero i x = refl
length-fill (suc left) i x =
    ap suc (length-fill left (i + 1) ((1812433253 * spread x + i) % 2 ^ 32))

turn-ok :
    (mt : List ℕ) (i : ℕ)
    → length mt ≡ 624
    → i < 624
    → (v : List ℕ × ℕ) × (turn mt i ≡ ok v) × (length v.0 ≡ 624) × (0 < v.1) × (v.1 < 624)
unfolding turn
turn-ok mt i size inside = elim (Bool-cases (leb 624 (i + 1))) [
  | inl last ↦
      let (x, reads) = read-ok mt 623 (omega arith) in
      (
        (set mt 0 x, 1),
        if_true (leb 624 (i + 1)) _ _ last
            (>>=-ok _ _ reads (>>=-ok _ _ (write-ok mt 0 x (omega arith)) refl)),
        length-set mt 0 x ∙ size,
        omega arith,
        omega arith,
      )
  | inr more ↦ ((mt, i + 1), rw more refl, size, omega arith, ground arith)
]

mix_seed-ok :
    (left seed : ℕ) (mt : List ℕ) (i j : ℕ)
    → length mt ≡ 624
    → 0 < i
    → i < 624
    → (v : List ℕ × ℕ) × (mix_seed left seed mt i j ≡ ok v)
      × (length v.0 ≡ 624)
      × (0 < v.1)
      × (v.1 < 624)
unfolding mix_seed
mix_seed-ok zero seed mt i j size from to = ((mt, i), refl, size, from, to)
mix_seed-ok (suc left) seed mt i j size from to =
    let (x, first) = read-ok mt i (omega arith) in
    let (y, second) = read-ok mt (i - 1) (omega arith) in
    let w = (bit_xor x (spread y * 1664525 % 2 ^ 32) + seed + j) % 2 ^ 32 in
    let all = set mt i w in
    let (v, turns, size', from', to') = turn-ok all i (length-set mt i w ∙ size) to in
    let (u, mixes, size₂, from₂, to₂) =
      mix_seed-ok left seed v.0 v.1 (if leb 1 (j + 1) then 0 else j + 1) size' from' to' in
    (
      u,
      >>=-ok _ _ first
          (>>=-ok _ _ second (>>=-ok _ _ (write-ok mt i w (omega arith)) (>>=-ok _ _ turns mixes))),
      size₂,
      from₂,
      to₂,
    )

mix_index-ok :
    (left : ℕ) (mt : List ℕ) (i : ℕ)
    → length mt ≡ 624
    → 0 < i
    → i < 624
    → (v : List ℕ) × (mix_index left mt i ≡ ok v) × (length v ≡ 624)
unfolding mix_index
mix_index-ok zero mt i size from to = (mt, refl, size)
mix_index-ok (suc left) mt i size from to =
    let (x, first) = read-ok mt i (omega arith) in
    let (y, second) = read-ok mt (i - 1) (omega arith) in
    let w = (bit_xor x (spread y * 1566083941 % 2 ^ 32) + 2 ^ 32 - i) % 2 ^ 32 in
    let all = set mt i w in
    let (v, turns, size', from', to') = turn-ok all i (length-set mt i w ∙ size) to in
    let (u, mixes, rest) = mix_index-ok left v.0 v.1 size' from' to' in
    (
      u,
      >>=-ok _ _ first
          (>>=-ok _ _ second (>>=-ok _ _ (write-ok mt i w (omega arith)) (>>=-ok _ _ turns mixes))),
      rest,
    )

mix-IsSteady :
    (many fewer seed : ℕ) (start : List ℕ)
    → length start ≡ 624
    → (r : Mt) × (mix many fewer seed start ≡ ok r) × IsSteady r × (r.at ≡ 624)
unfolding mix
mix-IsSteady many fewer seed start full =
    let (v, first, size, from, to) =
      mix_seed-ok many seed start 1 0 full (omega arith) (omega arith) in
    let (u, second, size') = mix_index-ok fewer v.0 v.1 size from to in
    let last = write-ok u 0 0x80000000 (omega arith) in
    let r : Mt = record { mt = set u 0 0x80000000; at = 624 } in
    (
      r,
      >>=-ok (mix_seed many seed start 1 0) _ first (
          >>=-ok (mix_index fewer v.0 v.1) _ second
            (>>=-ok (write u 0 0x80000000) (λ l. ok (record { mt = l; at = 624 })) last refl)),
      (length-set u 0 0x80000000 ∙ size', omega arith),
      refl,
    )

length-start : length (19650218 ∷ fill 623 1 19650218) ≡ 624
length-start = ap suc (length-fill 623 1 19650218)

-- Seeding the generator ends, whatever the seed, without an index outside the array, and leaves 624
-- words, all of them used up.
pub seed_state-IsSteady :
    (seed : ℕ) → (r : Mt) × (seed_state seed ≡ ok r) × IsSteady r × (r.at ≡ 624)
unfolding seed_state
seed_state-IsSteady seed = mix-IsSteady 624 623 seed (19650218 ∷ fill 623 1 19650218) length-start

last_at : (n : ℕ) → leb 624 n ≡ true → n ≤ 624 → n ≡ 624
last_at n e h = ground (arith, h)

below : (n : ℕ) → leb 624 n ≡ false → n < 624
below n e = ground arith

-- What drawing a word gives, and leaves of a state.
abbrev pub Next : Mt → ℕ → Mt → Type 0
Next r y s =
    IsSteady s
    × (((r.at ≡ 624)
          × (s.at ≡ 1)
          × ((i : ℕ) → i < 624 → word s.mt i ≡ renewed r.mt s.mt i)
          × (y ≡ temper (word s.mt 0)))
        ⊎ ((r.at < 624) × (s.at ≡ r.at + 1) × (s.mt ≡ r.mt) × (y ≡ temper (word r.mt r.at))))

draw-Next :
    (rounds : ℕ) (r : Mt)
    → rounds ≡ 624
    → IsSteady r
    → (y : ℕ) × (s : Mt) × (draw rounds r ≡ ok (y, s)) × Next r y s
unfolding draw
draw-Next rounds r all steady = elim (Bool-cases (leb 624 r.at)) [
  | inl used ↦
      let (mt, twists, (size, later, made)) =
        twist-ok rounds r.mt r.mt 0 (steady.0, λ j _. refl, λ j none_yet. absurd (omega arith))
          (omega (arith, all)) in
      (
        temper (word mt 0),
        record { mt = mt; at = 1 },
        >>=-ok _ _ (if_true (leb 624 r.at) _ _ used (>>=-ok _ _ twists refl))
            (>>=-ok _ _ (read-word mt 0 (omega (arith, size))) refl),
        (
          (size, omega arith),
          inl (
            last_at r.at used steady.1,
            refl,
            λ i inside. made i (omega (arith, all)) inside,
            refl,
          ),
        ),
      )
  | inr left ↦
      let inside : r.at < 624 = below r.at left in
      (
        temper (word r.mt r.at),
        record r { at = r.at + 1 },
        rw left (>>=-ok _ _ (read-word r.mt r.at (omega (arith, inside, steady.0))) refl),
        ((steady.0, omega (arith, inside)), inr (inside, refl, refl, refl)),
      )
]

-- Drawing a word from a steady state ends, without an index outside the array, and the state stays
-- steady. When all 624 words are used up, each of them is made anew by the recurrence from the old
-- words and those made before it, and the result is the first, tempered; otherwise they stay, and
-- the result is the next, tempered.
pub next_u32-Next :
    (r : Mt) → IsSteady r → (y : ℕ) × (s : Mt) × (next_u32 r ≡ ok (y, s)) × Next r y s
unfolding next_u32
next_u32-Next r steady = draw-Next 624 r refl steady
