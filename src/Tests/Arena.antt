-- ===== src/Tests/Arena.antt =====
-- A bump allocator of addresses as the storage, and small plans.
use jev_bush.Prelude.{
  Bool, Bool-cases, subst, ◌∙◌, false, true, ℕ, ◌+◌, ◌*◌, ◌%◌, ◌^◌, ◌<◌, ◌≤◌, ◌≡◌, refl, arith,
  List, [], ◌∷◌, false, ◌&&◌, ◌||◌, ltb, leb, ◌==◌, if◌then◌else◌, inl, inr, Option, some, none,
  ◌≢◌,
}
use jev_bush.Fault.{Result, ok, err, out_of_memory}
use jev_bush.Size.{size_add, size_mul, align_up}
use jev_bush.Size.Align.{align_up-ok}
use jev_bush.Arena.{
  Storage, Arena, Memory, no_arena, arena_alloc, arena_free, arena_reserve, workspace_plan,
}
use jev_bush.Arena.Alloc.{arena_alloc-ok}
use jev_bush.Arena.Reserve.{IsReady, Moved, arena_reserve-IsReady, arena_reserve-IsBacked}
use jev_bush.Workspace.{
  Workspace, Kv, kv_width, kv_bytes_layers, kv_bytes_documents, kv_bytes, kv_bind, worker_kv_begin,
  worker_kv_end,
}
use jev_bush.Workspace.Slab.{Laid, kv_bind-kv_bytes, worker_kv_begin-worker_kv_end}

-- The next address, and the sizes of the blocks that are out.
abbrev pub Bump : Type 0
Bump = ℕ × (ℕ → Option ℕ)

abbrev pub put : ℕ → Option ℕ → (ℕ → Option ℕ) → ℕ → Option ℕ
put p o sizes q = if q == p then o else sizes q

abbrev pub is_some : Option ℕ → Bool
is_some none = false
is_some (some n) = true

abbrev pub bump_acquire : Bump → ℕ → Result (ℕ × Bump)
bump_acquire s n =
    if s.0 == 0 || is_some (s.1 s.0) || ltb (2 ^ 64) (s.0 + n)
    then err out_of_memory
    else ok (s.0, (s.0 + n, put s.0 (some n) s.1))

abbrev pub bump_live : Bump → ℕ → Option ℕ
bump_live s q = s.1 q

not_some : (o : Option ℕ) → is_some o ≡ false → o ≡ none
not_some none e = refl
not_some (some n) e = cc

bump_acquired :
    (s s' : Bump) (n p : ℕ)
    → bump_acquire s n ≡ ok (p, s')
    → (0 < s.0)
      × (s.0 + n ≤ 2 ^ 64)
      × (s.1 s.0 ≡ none)
      × (s.0 ≡ p)
      × ((s.0 + n, put s.0 (some n) s.1) ≡ s')
bump_acquired s s' n p e =
    elim (Bool-cases (s.0 == 0 || is_some (s.1 s.0) || ltb (2 ^ 64) (s.0 + n))) [
      | inl bad ↦ let ran = rw bad at e in absurd cc
      | inr good ↦
          let ran = rw good at e in
          let free : is_some (s.1 s.0) ≡ false = ground arith in
          (ground arith, ground arith, not_some (s.1 s.0) free, cc, cc)
    ]

pub put_self : (p : ℕ) (o : Option ℕ) (sizes : ℕ → Option ℕ) → put p o sizes p ≡ o
put_self p o sizes = let same : (p == p) ≡ true = ground arith in rw same refl

pub put_other : (p q : ℕ) (o : Option ℕ) (sizes : ℕ → Option ℕ) → q ≢ p → put p o sizes q ≡ sizes q
put_other p q o sizes other = let apart : (q == p) ≡ false = ground (arith, other) in rw apart refl

pub bump_within :
    (s s' : Bump) (n p : ℕ) → bump_acquire s n ≡ ok (p, s') → (0 < p) × (p + n ≤ 2 ^ 64)
bump_within s s' n p e =
    let (above, inside, free, at, is) = bump_acquired s s' n p e in (omega arith, omega arith)

pub bump_acquire_live :
    (s s' : Bump) (n p : ℕ) → bump_acquire s n ≡ ok (p, s') → bump_live s' p ≡ some n
bump_acquire_live s s' n p e =
    let (above, inside, free, at, is) = bump_acquired s s' n p e in
    subst (λ (u : Bump). u.1 p ≡ some n) is
      (subst (λ q. put s.0 (some n) s.1 q ≡ some n) at (put_self s.0 (some n) s.1))

pub bump_acquire_other :
    (s s' : Bump) (n p q : ℕ)
    → bump_acquire s n ≡ ok (p, s')
    → q ≢ p
    → bump_live s' q ≡ bump_live s q
bump_acquire_other s s' n p q e other =
    let (above, inside, free, at, is) = bump_acquired s s' n p e in
    subst (λ (u : Bump). u.1 q ≡ s.1 q) is
      (put_other s.0 q (some n) s.1 (λ same. other (same ∙ at)))

pub bump_acquire_new :
    (s s' : Bump) (n p : ℕ) → bump_acquire s n ≡ ok (p, s') → bump_live s p ≡ none
bump_acquire_new s s' n p e =
    let (above, inside, free, at, is) = bump_acquired s s' n p e in
    subst (λ q. s.1 q ≡ none) at free

abbrev pub bump : Storage Bump
bump = record {
  acquire = bump_acquire;
  release = λ s p. (s.0, put p none s.1);
  untrack = λ s p. s;
  live = bump_live;
  acquire_within = bump_within;
  acquire_live = bump_acquire_live;
  acquire_new = bump_acquire_new;
  acquire_other = bump_acquire_other;
  release_live = λ s p. put_self p none s.1;
  release_other = λ s p q other. put_other p q none s.1 other;
  untrack_live = λ s p q. refl;
}

abbrev start : Bump
start = (100, λ q. none)

-- One block of `n` bytes is out.
abbrev pub taken : ℕ → Bump
taken n = (100 + n, put 100 (some n) (λ q. none))

align_up_65 : align_up 65 64 ≡ ok 128
unfolding align_up size_add
align_up_65 = refl

align_up-ok_example :
    ((k : ℕ) × (64 ≡ 2 ^ k)) × (128 % 64 ≡ 0) × (65 ≤ 128) × (128 < 65 + 64) × (128 < 2 ^ 64)
align_up-ok_example = align_up-ok 65 64 128 (omega arith) (omega arith) align_up_65

abbrev small : Arena
small = record { allocation = 4096; base = 4096; size = 200; used = 7; peak = 7 }

abbrev after : Arena
after = record { allocation = 4096; base = 4096; size = 200; used = 76; peak = 76 }

abbrev ones : Memory
ones = λ q. 1

alloc_runs : arena_alloc small ones 3 4 false ≡ ok (4160, after, ones)
unfolding arena_alloc align_up size_add size_mul
alloc_runs = refl

arena_alloc-ok_example :
    (start : ℕ) × (4160 ≡ small.base + start)
    × (start % 64 ≡ 0)
    × (small.used ≤ start)
    × (start < small.used + 64)
    × (start + 3 * 4 ≤ small.size)
    × (after ≡ record small {
      used = start + 3 * 4;
      peak = if ltb small.peak (start + 3 * 4) then start + 3 * 4 else small.peak;
    })
    × ((q : ℕ) → ones q ≡ (if false && (leb 4160 q && ltb q (4160 + 3 * 4)) then 0 else ones q))
arena_alloc-ok_example =
    arena_alloc-ok small after ones ones 3 4 false 4160 (omega arith) alloc_runs

abbrev fresh : Arena
fresh = record { allocation = 100; base = 128; size = 500; used = 0; peak = 0 }

reserve_runs : arena_reserve bump start no_arena 0 500 ≡ ok (fresh, 500, taken 563)
unfolding arena_reserve size_add
reserve_runs = refl

abbrev wider : Arena
wider = record { allocation = 663; base = 704; size = 900; used = 0; peak = 0 }

abbrev moved : Bump
moved = (1626, put 100 none (put 663 (some 963) (put 100 (some 563) (λ q. none))))

grow_runs : arena_reserve bump (taken 563) fresh 500 900 ≡ ok (wider, 900, moved)
unfolding arena_reserve arena_free size_add
grow_runs = refl

fresh-IsReady : IsReady bump fresh 500
fresh-IsReady =
    (arena_reserve-IsReady bump start (taken 563) no_arena fresh 0 500 500 (omega arith)
      (inl (omega arith)) reserve_runs).0

arena_reserve-IsBacked_example :
    Moved bump (taken 563) moved fresh wider 900
    × IsReady bump wider 900
    × (wider.size ≡ 900)
    × (wider.used ≡ 0)
    × (wider.peak ≡ 0)
    × (900 ≤ 900)
    × (500 ≤ 900)
    × (900 ≤ 500
        → (wider.allocation ≡ fresh.allocation)
          × (wider.base ≡ fresh.base)
          × (◌≡◌ {A = ℕ} 900 500)
          × (moved ≡ taken 563))
arena_reserve-IsBacked_example =
    arena_reserve-IsBacked bump (taken 563) moved fresh wider 500 900 900 (omega arith)
      fresh-IsReady (inr (563, refl, omega arith)) grow_runs

abbrev one_row : ℕ
one_row = 25 * 2 * 2048 * 4 + 5 * 2 * 1024 * 4

kv_bytes_runs : kv_bytes (1 ∷ []) ≡ ok one_row
unfolding kv_bytes kv_bytes_documents kv_bytes_layers kv_width workspace_plan align_up size_add
    size_mul
kv_bytes_runs = refl

abbrev slab : Arena
slab = record { allocation = 100; base = 128; size = one_row; used = 0; peak = 0 }

kv_bind-kv_bytes_example :
    (rs : List Kv) × (kv_bind slab (1 ∷ []) ones
      ≡ ok (rs, record slab { used = slab.size; peak = slab.size }, ones))
    × Laid slab.base 0 rs (slab.base + slab.size)
kv_bind-kv_bytes_example = kv_bind-kv_bytes (1 ∷ []) slab ones refl refl refl kv_bytes_runs

abbrev idle : Workspace
idle = record {
  arena = no_arena;
  kv_arena = no_arena;
  control_arena = no_arena;
  capacity = 0;
  kv_capacity = 0;
  control_capacity = 0;
  active = false;
  kv_active = false;
  control_active = false;
}

reserve_row : arena_reserve bump start no_arena 0 one_row ≡ ok (slab, one_row, taken (one_row + 63))
unfolding arena_reserve size_add
reserve_row = refl

worker_kv_begin-worker_kv_end_example :
    (rs : List Kv) × (w' : Workspace) × (worker_kv_begin bump start idle (1 ∷ []) ones
      ≡ ok (rs, w', ones, taken (one_row + 63)))
    × Laid slab.base 0 rs (slab.base + one_row)
    × (worker_kv_end w' ≡ ok (record w' { kv_active = false }))
worker_kv_begin-worker_kv_end_example =
    worker_kv_begin-worker_kv_end bump start (taken (one_row + 63)) idle (1 ∷ []) ones slab one_row
      one_row refl (inl (omega arith)) kv_bytes_runs reserve_row
