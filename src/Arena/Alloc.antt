-- ===== src/Arena/Alloc.antt =====
-- Single allocations: where a block lies, what changes, and what a plan promises.
use jev_bush.Prelude.{
  ℕ, ◌+◌, ◌*◌, ◌/◌, ◌%◌, ◌^◌, ◌≤◌, ◌<◌, ◌≡◌, ltb, leb, Bool, ◌&&◌, if◌then◌else◌, refl, arith,
}
use jev_bush.Fault.{ok, err, allocation_size_overflow}
use jev_bush.Size.{align_up, size_add_lem, size_mul_lem}
use jev_bush.Size.Align.{align_up_lem}
use jev_bush.Arena.{Arena, Memory, arena_alloc, workspace_plan, clear_bytes}

align_64 :
    (n : ℕ)
    → n < 2 ^ 64
    → align_up n 64
      ≡ (if ltb (n + 63) (2 ^ 64) then ok ((n + 63) / 64 * 64) else err allocation_size_overflow)
align_64 n h = align_up_lem 6 58 n refl h

abbrev pub place : ℕ → ℕ
place used = (used + 63) / 64 * 64

-- The outcome in plain arithmetic.
arena_alloc_inv :
    (a b : Arena) (m m' : Memory) (count element_size : ℕ) (clear : Bool) (p : ℕ)
    → a.used < 2 ^ 64
    → arena_alloc a m count element_size clear ≡ ok (p, b, m')
    → (p ≡ a.base + place a.used)
      × (place a.used + count * element_size ≤ a.size)
      × (b ≡ record a {
        used = place a.used + count * element_size;
        peak =
            if ltb a.peak (place a.used + count * element_size)
            then place a.used + count * element_size
            else a.peak;
      })
      × (m' ≡ (if clear then clear_bytes p (count * element_size) m else m))
unfolding arena_alloc
arena_alloc_inv a b m m' count element_size clear p h e = ground (
  arith,
  align_64 a.used h,
  size_mul_lem count element_size,
  size_add_lem (place a.used) (count * element_size),
)

-- What an allocation that succeeds returns: a block of `count * element_size` bytes, at an offset
-- from the base that is a multiple of 64, behind everything in use and inside the arena; `used` and `peak` follow
-- its end, the other fields stay, and the bytes outside the block keep their content (inside, they
-- are zero where the call clears).
pub arena_alloc-ok :
    (a b : Arena) (m m' : Memory) (count element_size : ℕ) (clear : Bool) (p : ℕ)
    → a.used < 2 ^ 64
    → arena_alloc a m count element_size clear ≡ ok (p, b, m')
    → (start : ℕ) × (p ≡ a.base + start)
      × (start % 64 ≡ 0)
      × (a.used ≤ start)
      × (start < a.used + 64)
      × (start + count * element_size ≤ a.size)
      × (b ≡ record a {
        used = start + count * element_size;
        peak =
            if ltb a.peak (start + count * element_size)
            then start + count * element_size
            else a.peak;
      })
      × ((q : ℕ)
          → m' q ≡ (if clear && (leb p q && ltb q (p + count * element_size)) then 0 else m q))
unfolding arena_alloc
arena_alloc-ok a b m m' count element_size clear p h e =
    let (at, fits, after, bytes) = arena_alloc_inv a b m m' count element_size clear p h e in
    (
      place a.used,
      at,
      omega arith,
      omega arith,
      omega arith,
      fits,
      after,
      λ q. rw bytes (ground arith),
    )

-- A planned size is what the allocation will use.
pub workspace_plan-ok :
    (used count element_size planned : ℕ)
    → used < 2 ^ 64
    → workspace_plan used count element_size ≡ ok planned
    → (planned ≡ place used + count * element_size) × (used ≤ planned) × (planned < 2 ^ 64)
unfolding workspace_plan
workspace_plan-ok used count element_size planned h e = ground (
  arith,
  align_64 used h,
  size_mul_lem count element_size,
  size_add_lem (place used) (count * element_size),
)

-- An allocation that a plan covers succeeds and ends where the plan does.
pub arena_alloc-workspace_plan :
    (a : Arena) (m : Memory) (count element_size planned : ℕ) (clear : Bool)
    → a.used < 2 ^ 64
    → a.peak ≡ a.used
    → planned ≤ a.size
    → workspace_plan a.used count element_size ≡ ok planned
    → arena_alloc a m count element_size clear
      ≡ ok (
        a.base + place a.used,
        record a { used = planned; peak = planned },
        (if clear then clear_bytes (a.base + place a.used) (count * element_size) m else m),
      )
unfolding arena_alloc workspace_plan
arena_alloc-workspace_plan a m count element_size planned clear h top fits e = ground (
  arith,
  align_64 a.used h,
  size_mul_lem count element_size,
  size_add_lem (place a.used) (count * element_size),
)
