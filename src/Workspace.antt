-- ===== src/Workspace.antt =====
-- src/engine.inc: `DGWorkspace`, the three grow-only arenas of a session, and the brackets around
-- their use. The fields for the accelerator are in Device/Owned.
pub mod Slab
use jev_bush.Prelude.{
  ℕ, zero, suc, ◌+◌, ◌-◌, ◌*◌, ◌%◌, ◌≡◌, List, [], ◌∷◌, ◌++◌, Bool, true, false, not, ◌&&◌, ◌||◌,
  ltb, ◌==◌, length, if◌then◌else◌,
}
use jev_bush.Fault.{
  Result, ok, err, ◌>>=◌, ◌>>◌, die_if, workspace_already_active, workspace_plan_mismatch,
  control_already_active, corrupt_control, invalid_document_count, kv_plan_mismatch,
  kv_initialized_twice, kv_already_active, corrupt_kv,
}
use jev_bush.Size.{size_mul, size_add}
use jev_bush.Arena.{
  Arena, Memory, Storage, no_arena, arena_alloc, arena_init, arena_free, arena_reserve,
  workspace_plan,
}

pub record Workspace : Type 0 where
  pub arena : Arena
  pub kv_arena : Arena
  pub control_arena : Arena
  pub capacity : ℕ
  pub kv_capacity : ℕ
  pub control_capacity : ℕ
  pub active : Bool
  pub kv_active : Bool
  pub control_active : Bool

-- All fields zero.
abbrev pub no_workspace : Workspace
no_workspace = record {
  arena = no_arena;
  kv_arena = no_arena;
  control_arena = no_arena;
  capacity = 0;
  kv_capacity = 0;
  control_capacity = 0;
  active = false;
  kv_active = false;
  control_active = false;
}

-- One layer's keys and values: `n` rows at the addresses `k` and `v`.
pub record Kv : Type 0 where
  pub k : ℕ
  pub v : ℕ
  pub n : ℕ

abbrev pub layers : ℕ
layers = 30

-- Every sixth layer attends fully, with 2 heads of 512; the others have 8 heads of 256.
unfoldable pub kv_width : ℕ → ℕ
kv_width layer =
    let full = layer % 6 == 6 - 1 in (if full then 2 else 8) * (if full then 512 else 256)

-- `sizeof(float)`.
abbrev pub float_size : ℕ
float_size = 4

-- The loop over the layers `l`, `l + 1`, … of a document of `n` rows; `k` are left.
unfoldable pub kv_bytes_layers : ℕ → ℕ → ℕ → ℕ → Result ℕ
kv_bytes_layers zero l n bytes = ok bytes
kv_bytes_layers (suc k) l n bytes = do
  count ← size_mul n (kv_width l)
  keys ← workspace_plan bytes count float_size
  values ← workspace_plan keys count float_size
  kv_bytes_layers k (l + 1) n values

unfoldable pub kv_bytes_documents : List ℕ → ℕ → Result ℕ
kv_bytes_documents [] bytes = ok bytes
kv_bytes_documents (n ∷ lengths) bytes = do
  bytes' ← kv_bytes_layers layers 0 n bytes
  kv_bytes_documents lengths bytes'

unfoldable pub kv_bytes : List ℕ → Result ℕ
kv_bytes lengths = do
  die_if (ltb (length lengths) 1) invalid_document_count
  kv_bytes_documents lengths 0

unfoldable pub kv_bind_layers : ℕ → ℕ → ℕ → Arena → Memory → Result (List Kv × Arena × Memory)
kv_bind_layers zero l n a m = ok ([], a, m)
kv_bind_layers (suc k) l n a m = do
  count ← size_mul n (kv_width l)
  (keys, b, m₁) ← arena_alloc a m count float_size false
  (values, c, m₂) ← arena_alloc b m₁ count float_size false
  (rest, d, m₃) ← kv_bind_layers k (l + 1) n c m₂
  ok (record { k = keys; v = values; n = n } ∷ rest, d, m₃)

unfoldable pub kv_bind_documents : List ℕ → Arena → Memory → Result (List Kv × Arena × Memory)
kv_bind_documents [] a m = ok ([], a, m)
kv_bind_documents (n ∷ lengths) a m = do
  (one, b, m₁) ← kv_bind_layers layers 0 n a m
  (rest, c, m₂) ← kv_bind_documents lengths b m₁
  ok (one ++ rest, c, m₂)

unfoldable pub kv_bind : Arena → List ℕ → Memory → Result (List Kv × Arena × Memory)
kv_bind storage lengths m = do
  (kv, a, m') ← kv_bind_documents lengths storage m
  die_if (not (a.peak == a.size)) kv_plan_mismatch
  ok (kv, a, m')

module _ {S : Type 0} (storage : Storage S) where
  unfoldable pub kv_init : S → Arena → List ℕ → Memory → Result (List Kv × Arena × Memory × S)
  kv_init s a lengths m = do
    die_if (not (a.allocation == 0)) kv_initialized_twice
    bytes ← kv_bytes lengths
    (b, s') ← arena_init storage s bytes
    (kv, c, m') ← kv_bind b lengths m
    ok (kv, c, m', s')

  unfoldable pub worker_kv_begin :
      S → Workspace → List ℕ → Memory → Result (List Kv × Workspace × Memory × S)
  worker_kv_begin s w lengths m = do
    die_if w.kv_active kv_already_active
    required ← kv_bytes lengths
    (a, capacity, s') ← arena_reserve storage s w.kv_arena w.kv_capacity required
    (kv, b, m') ← kv_bind a lengths m
    ok (kv, record w { kv_arena = b; kv_capacity = capacity; kv_active = true }, m', s')

  unfoldable pub workspace_begin : S → Workspace → ℕ → Result (Workspace × S)
  workspace_begin s w required = do
    die_if w.active workspace_already_active
    (a, capacity, s') ← arena_reserve storage s w.arena w.capacity required
    ok (record w { arena = a; capacity = capacity; active = true }, s')

  unfoldable pub control_begin : S → Workspace → ℕ → Result (Workspace × S)
  control_begin s w required = do
    die_if w.control_active control_already_active
    (a, capacity, s') ← arena_reserve storage s w.control_arena w.control_capacity required
    ok (record w { control_arena = a; control_capacity = capacity; control_active = true }, s')

unfoldable pub workspace_end : Workspace → Result Workspace
workspace_end w = do
  die_if (not w.active || not (w.arena.used == 0) || not (w.arena.peak == w.arena.size))
      workspace_plan_mismatch
  ok (record w { active = false })

unfoldable pub control_end : Workspace → Result Workspace
control_end w = do
  die_if
      (not w.control_active
        || not (w.control_arena.used == w.control_arena.size)
        || not (w.control_arena.peak == w.control_arena.size))
      corrupt_control
  ok (record w { control_active = false })

-- The caller's array of K/V records is zeroed; here it is dropped.
unfoldable pub worker_kv_end : Workspace → Result Workspace
worker_kv_end w = do
  die_if
      (not w.kv_active
        || not (w.kv_arena.used == w.kv_arena.size)
        || not (w.kv_arena.peak == w.kv_arena.size))
      corrupt_kv
  ok (record w { kv_active = false })
