-- ===== src/Arena.antt =====
-- src/foundation.inc: `JBArena`, a bump allocator over one block. Pointers are addresses, NULL is
-- 0, and `Memory` is the content of the bytes. The block comes from `xmalloc`, which the arena
-- uses through `Storage`.
pub mod Alloc
pub mod Reserve
use Prim.Native.Nat.{bit_and}
use jev_bush.Prelude.{
  Option, none, some, ℕ, ◌+◌, ◌-◌, ◌%◌, ◌^◌, ◌≤◌, ◌<◌, ◌≡◌, ◌≢◌, ltb, leb, ◌==◌, Bool, ◌&&◌,
  if◌then◌else◌,
}
use jev_bush.Fault.{
  Result, ok, err, ◌>>=◌, ◌>>◌, die_if, workspace_plan_too_small, invalid_arena_reset,
}
use jev_bush.Size.{size_add, size_mul, align_up, complement}

-- What the arena uses of the tracked allocator: `xmalloc`, `jb_release` and `jb_untrack` over its
-- state `S`. `live` is the size of the block at an address that is handed out and not released yet.
-- A block that is handed out is not NULL, lies in the address space, and was not live before; a call
-- changes the life of no other block, and `jb_untrack` of none.
pub record Storage (S : Type 0) : Type 0 where
  pub acquire : S → ℕ → Result (ℕ × S)
  pub release : S → ℕ → S
  pub untrack : S → ℕ → S
  pub live : S → ℕ → Option ℕ
  pub acquire_within : (s s' : S) (n p : ℕ) → acquire s n ≡ ok (p, s') → (0 < p) × (p + n ≤ 2 ^ 64)
  pub acquire_live : (s s' : S) (n p : ℕ) → acquire s n ≡ ok (p, s') → live s' p ≡ some n
  pub acquire_new : (s s' : S) (n p : ℕ) → acquire s n ≡ ok (p, s') → live s p ≡ none
  pub acquire_other :
      (s s' : S) (n p q : ℕ) → acquire s n ≡ ok (p, s') → q ≢ p → live s' q ≡ live s q
  pub release_live : (s : S) (p : ℕ) → live (release s p) p ≡ none
  pub release_other : (s : S) (p q : ℕ) → q ≢ p → live (release s p) q ≡ live s q
  pub untrack_live : (s : S) (p q : ℕ) → live (untrack s p) q ≡ live s q

pub record Arena : Type 0 where
  pub allocation : ℕ
  pub base : ℕ
  pub size : ℕ
  pub used : ℕ
  pub peak : ℕ

abbrev pub Memory : Type 0
Memory = ℕ → ℕ

-- `memset(p, 0, bytes)`.
abbrev pub clear_bytes : ℕ → ℕ → Memory → Memory
clear_bytes p bytes m q = if leb p q && ltb q (p + bytes) then 0 else m q

unfoldable pub arena_alloc : Arena → Memory → ℕ → ℕ → Bool → Result (ℕ × Arena × Memory)
arena_alloc a m count element_size clear = do
  start ← align_up a.used 64
  bytes ← size_mul count element_size
  end ← size_add start bytes
  die_if (ltb a.size end) workspace_plan_too_small
  let p = a.base + start
  let b = record a { used = end; peak = if ltb a.peak end then end else a.peak }
  ok (p, b, (if clear then clear_bytes p bytes m else m))

unfoldable pub arena_mark : Arena → ℕ
arena_mark a = a.used

unfoldable pub arena_reset : Arena → ℕ → Result Arena
arena_reset a mark = do die_if (ltb a.used mark) invalid_arena_reset; ok (record a { used = mark })

-- All fields zero, as `memset` leaves a structure.
abbrev pub no_arena : Arena
no_arena = record { allocation = 0; base = 0; size = 0; used = 0; peak = 0 }

module _ {S : Type 0} (storage : Storage S) where
  open storage use {acquire, release, untrack}

  unfoldable pub arena_init : S → ℕ → Result (Arena × S)
  arena_init s size = do
    allocation_size ← size_add (if size == 0 then 1 else size) (64 - 1)
    (p, s') ← acquire s allocation_size
    let base = bit_and ((p + 63) % 2 ^ 64) (complement 63)
    ok (record { allocation = p; base = base; size = size; used = 0; peak = 0 }, s')

  unfoldable pub arena_free : S → Arena → S × Arena
  arena_free s a = (release s a.allocation, no_arena)

  -- The arena, `*capacity` and the allocator's state after `jb_arena_reserve`.
  unfoldable pub arena_reserve : S → Arena → ℕ → ℕ → Result (Arena × ℕ × S)
  unfolding arena_init arena_free
  arena_reserve s a capacity required =
      if ltb capacity required
      then (do
        (grown, s') ← arena_init s required
        let s'' = untrack s' grown.allocation
        let freed = if a.allocation == 0 then s'' else (arena_free s'' a).0
        ok (grown, required, freed))
      else ok (record a { size = required; used = 0; peak = 0 }, capacity, s)

-- src/engine.inc: `jb_workspace_plan`, the size that `arena_alloc` calls will need.
unfoldable pub workspace_plan : ℕ → ℕ → ℕ → Result ℕ
workspace_plan used count element_size = do
  at ← align_up used 64
  bytes ← size_mul count element_size
  size_add at bytes
