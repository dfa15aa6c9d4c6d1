-- ===== src/Arena/Reserve.antt =====
-- `jb_arena_init` and `jb_arena_reserve`: where the arena stands in its block.
use Prim.Native.Nat.{bit_and}
use jev_bush.Prelude.{
  refl, none, some, ◌∙◌, ℕ, ◌+◌, ◌*◌, ◌/◌, ◌%◌, ◌^◌, ◌≤◌, ◌<◌, ◌≡◌, ◌≢◌, subst, sym, ltb, ◌==◌,
  false, if◌then◌else◌, arith, ◌⊎◌, inl, inr, Bool-cases,
}
use jev_bush.Prelude.Bits.{bit_and-high}
use jev_bush.Fault.{ok, >>=-eq-ok, Result-cases}
use jev_bush.Size.{size_add, size_add_lem, complement}
use jev_bush.Arena.{Arena, Storage, arena_init, arena_free, arena_reserve}

-- The base is aligned, and `extent` bytes from there lie in the block that was allocated, which is
-- inside the address space.
pub record IsPlaced (a : Arena) (extent : ℕ) : Type 0 where
  pub not_null : 0 < a.allocation
  pub aligned : a.base % 64 ≡ 0
  pub after : a.allocation ≤ a.base
  pub near : a.base < a.allocation + 64
  pub fits : a.base + extent ≤ 2 ^ 64
  pub size_within : a.size ≤ extent

round_up : (x : ℕ) → x < 2 ^ 64 → bit_and x (complement 63) ≡ x / 64 * 64
round_up x h = bit_and-high 6 58 x h

module _ {S : Type 0} (storage : Storage S) where
  open storage use {
    acquire, acquire_within, untrack, release, live, acquire_live, acquire_new, acquire_other,
    release_live, release_other, untrack_live,
  }

  -- A new arena is empty and has the size asked for.
  pub arena_init-ok :
      (s s' : S) (size : ℕ) (a : Arena)
      → size < 2 ^ 64
      → arena_init storage s size ≡ ok (a, s')
      → IsPlaced a size × (a.size ≡ size) × (a.used ≡ 0) × (a.peak ≡ 0)
  unfolding arena_init
  arena_init-ok s s' size a h e =
      let wanted : ℕ = if size == 0 then 1 else size in
      let sum = size_add_lem wanted 63 (ground arith) in
      let (n, n_is, rest) = >>=-eq-ok (size_add wanted 63) _ e in
      let ((p, t), got, last) = >>=-eq-ok (acquire s n) _ rest in
      let within = acquire_within s t n p got in
      let total : n ≡ wanted + 63 = ground arith in
      let low : p + 63 < 2 ^ 64 = ground arith in
      let small : (p + 63) % 2 ^ 64 ≡ p + 63 = omega (arith, low) in
      let base_is : bit_and ((p + 63) % 2 ^ 64) (complement 63) ≡ (p + 63) / 64 * 64 =
        rw small (round_up (p + 63) low) in
      ground arith

  -- The state of an arena that is reserved for each request: nothing yet, or a block of `capacity`
  -- bytes.
  abbrev pub IsReady : Arena → ℕ → Type 0
  IsReady a capacity =
      (a.allocation ≡ 0) × (a.base ≡ 0) × (a.size ≡ 0) × (capacity ≡ 0) ⊎ IsPlaced a capacity

  -- The fields of the arena, and where it stands.
  pub arena_reserve-IsReady :
      (s s' : S) (a b : Arena) (capacity capacity' required : ℕ)
      → required < 2 ^ 64
      → IsReady a capacity
      → arena_reserve storage s a capacity required ≡ ok (b, capacity', s')
      → IsReady b capacity'
        × (b.size ≡ required)
        × (b.used ≡ 0)
        × (b.peak ≡ 0)
        × (required ≤ capacity')
        × (capacity ≤ capacity')
        × (required ≤ capacity
            → (b.allocation ≡ a.allocation) × (b.base ≡ a.base) × (capacity' ≡ capacity) × (s' ≡ s))
  unfolding arena_reserve
  arena_reserve-IsReady s s' a b capacity capacity' required h ready e =
      elim (Bool-cases (ltb capacity required)) [
        | inl grow ↦ elim (Result-cases (arena_init storage s required)) [
          | inl ((grown, t), got) ↦
              let init = arena_init-ok s t required grown h got in
              let same : b ≡ grown = ground arith in
              let cap : capacity' ≡ required = ground arith in
              (
                rw (same, cap) (inr init.0),
                rw same init.1,
                rw same init.2,
                rw same init.3,
                omega arith,
                ground arith,
                λ small. absurd (ground arith),
              )
          | inr (f, bad) ↦ absurd (ground arith)
        ]
        | inr keep ↦ (
          kept ready keep,
          ground arith,
          ground arith,
          ground arith,
          ground arith,
          ground arith,
          ground arith,
        )
      ]
    where
      kept : IsReady a capacity → ltb capacity required ≡ false → IsReady b capacity'
      kept (inl none_yet) keep = inl (ground arith)
      kept (inr placed) keep = inr (ground arith)

  -- The arena's block, if it has one, is live and holds `extent` bytes from the base on.
  abbrev pub IsBacked : S → Arena → ℕ → Type 0
  IsBacked s a extent =
      (a.allocation ≡ 0)
      ⊎ ((n : ℕ) × (live s a.allocation ≡ some n) × (a.base + extent ≤ a.allocation + n))

  -- Where a new arena's block comes from.
  arena_init-acquire :
      (s s' : S) (size : ℕ) (a : Arena)
      → size < 2 ^ 64
      → arena_init storage s size ≡ ok (a, s')
      → (n : ℕ) × (acquire s n ≡ ok (a.allocation, s')) × (a.base + size ≤ a.allocation + n)
  unfolding arena_init
  arena_init-acquire s s' size a h e =
      let wanted : ℕ = if size == 0 then 1 else size in
      let sum = size_add_lem wanted 63 (ground arith) in
      let (n, n_is, rest) = >>=-eq-ok (size_add wanted 63) _ e in
      let ((p, t), got, last) = >>=-eq-ok (acquire s n) _ rest in
      let within = acquire_within s t n p got in
      let total : n ≡ wanted + 63 = ground arith in
      let low : p + 63 < 2 ^ 64 = ground arith in
      let small : (p + 63) % 2 ^ 64 ≡ p + 63 = omega (arith, low) in
      let base_is : bit_and ((p + 63) % 2 ^ 64) (complement 63) ≡ (p + 63) / 64 * 64 =
        rw small (round_up (p + 63) low) in
      let same : t ≡ s' = cc in
      let at : p ≡ a.allocation = cc in
      let bound : a.base + size ≤ p + n = ground arith in
      (
        n,
        subst (λ q. acquire s n ≡ ok (q, s')) at (subst (λ u. acquire s n ≡ ok (p, u)) same got),
        rw at at bound,
      )

  -- What becomes of the blocks: the arena's is live and large enough, one that it has left is not
  -- live any more, and the others are as before.
  abbrev pub Moved : S → S → Arena → Arena → ℕ → Type 0
  Moved s s' a b extent =
      IsBacked s' b extent
      × (a.allocation ≡ 0 ⊎ (a.allocation ≡ b.allocation) ⊎ (live s' a.allocation ≡ none))
      × ((q : ℕ) → q ≢ a.allocation → q ≢ b.allocation → live s' q ≡ live s q)

  -- The allocator's state behind the release of the old block.
  abbrev behind : S → Arena → S
  behind u a = if a.allocation == 0 then u else (arena_free storage u a).0

  behind-live :
      (s t : S) (a : Arena) (capacity n p : ℕ)
      → acquire s n ≡ ok (p, t)
      → IsBacked s a capacity
      → (live (behind (untrack t p) a) p ≡ some n)
        × (a.allocation ≡ 0 ⊎ (live (behind (untrack t p) a) a.allocation ≡ none))
        × ((q : ℕ) → q ≢ a.allocation → q ≢ p → live (behind (untrack t p) a) q ≡ live s q)
  unfolding arena_free
  behind-live s t a capacity n p got backed =
      let kept = untrack_live t p in
      let mine = kept p ∙ acquire_live s t n p got in
      elim (Bool-cases (a.allocation == 0)) [
        | inl nowhere ↦
            let none_yet : a.allocation ≡ 0 = ground arith in
            rw nowhere (mine, inl none_yet, λ q _ other. kept q ∙ acquire_other s t n p q got other)
        | inr somewhere ↦
            let apart : p ≢ a.allocation =
              λ same. old_block s t a capacity n p got backed same somewhere in
            rw somewhere (
              release_other (untrack t p) a.allocation p apart ∙ mine,
              inr (release_live (untrack t p) a.allocation),
              λ q old other.
                  release_other (untrack t p) a.allocation q old
                  ∙ kept q
                  ∙ acquire_other s t n p q got other,
            )
      ]
    where
      old_block :
          (s t : S) (a : Arena) (capacity n p : ℕ)
          → acquire s n ≡ ok (p, t)
          → IsBacked s a capacity
          → p ≡ a.allocation
          → (a.allocation == 0) ≡ false
          → ⊥
      old_block s t a capacity n p got (inl nowhere) same somewhere = ground arith
      old_block s t a capacity n p got (inr (k, is, _)) same somewhere =
          let unused = acquire_new s t n p got in
          let used = subst (λ q. live s q ≡ some k) (sym same) is in cc

  arena_reserve-Moved :
      (s s' : S) (a b : Arena) (capacity capacity' required : ℕ)
      → required < 2 ^ 64
      → IsBacked s a capacity
      → arena_reserve storage s a capacity required ≡ ok (b, capacity', s')
      → Moved s s' a b capacity'
  unfolding arena_reserve arena_free
  arena_reserve-Moved s s' a b capacity capacity' required h backed e =
      elim (Bool-cases (ltb capacity required)) [
        | inl grow ↦ elim (Result-cases (arena_init storage s required)) [
          | inl ((grown, t), got) ↦
              let (n, took, fits) = arena_init-acquire s t required grown h got in
              let (mine, gone, others) =
                behind-live s t a capacity n grown.allocation took backed in
              let ran = rw (grow, got) at e in
              let same : b ≡ grown = cc in
              let wide : capacity' ≡ required = cc in
              let last : behind (untrack t grown.allocation) a ≡ s' = cc in
              subst (λ u. Moved s u a b capacity') last
                (rw (same, wide)
                  (
                    inr (n, mine, fits),
                    elim gone [ inl nowhere ↦ inl nowhere | inr dead ↦ inr (inr dead) ],
                    others,
                  ))
          | inr (f, bad) ↦ absurd (ground arith)
        ]
        | inr keep ↦
            let ran = rw keep at e in
            let state : s ≡ s' = cc in
            let wide : capacity ≡ capacity' = cc in
            let block : a.allocation ≡ b.allocation = cc in
            let base : a.base ≡ b.base = cc in
            subst (λ u. Moved s u a b capacity') state
              (still backed block base wide, inr (inl block), λ q _ _. refl)
      ]
    where
      still :
          IsBacked s a capacity
          → a.allocation ≡ b.allocation
          → a.base ≡ b.base
          → capacity ≡ capacity'
          → IsBacked s b capacity'
      still (inl nowhere) block base wide = inl (sym block ∙ nowhere)
      still (inr (n, is, fits)) block base wide =
          inr (n, subst (λ q. live s q ≡ some n) block is, omega arith)

  -- After a successful `jb_arena_reserve` of an arena whose block, if it has one, is live and holds
  -- its capacity from the aligned base on: this is so of the new arena and capacity. The arena is
  -- empty and has exactly the size asked for, which the capacity covers, and the capacity has not
  -- shrunk. A block that the arena has left is not live any more, and no block but the old and the
  -- new one has changed. Where the old capacity was enough, the block, its base and the allocator's
  -- state are those from before.
  pub arena_reserve-IsBacked :
      (s s' : S) (a b : Arena) (capacity capacity' required : ℕ)
      → required < 2 ^ 64
      → IsReady a capacity
      → IsBacked s a capacity
      → arena_reserve storage s a capacity required ≡ ok (b, capacity', s')
      → Moved s s' a b capacity'
        × IsReady b capacity'
        × (b.size ≡ required)
        × (b.used ≡ 0)
        × (b.peak ≡ 0)
        × (required ≤ capacity')
        × (capacity ≤ capacity')
        × (required ≤ capacity
            → (b.allocation ≡ a.allocation) × (b.base ≡ a.base) × (capacity' ≡ capacity) × (s' ≡ s))
  arena_reserve-IsBacked s s' a b capacity capacity' required h ready backed e =
      let moved = arena_reserve-Moved s s' a b capacity capacity' required h backed e in
      let r = arena_reserve-IsReady s s' a b capacity capacity' required h ready e in
      (moved, r.0, r.1, r.2, r.3, r.4, r.5, r.6)
