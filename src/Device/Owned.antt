-- ===== src/Device/Owned.antt =====
-- The blocks that a session's workspace holds on the accelerator, through `dg_device_begin`,
-- `dg_device_scratch` and `dg_workspace_destroy`.
pub mod Ledger
pub mod Destroy
use jev_bush.Prelude.{
  ℕ, ◌+◌, ◌*◌, ◌≡◌, List, [], ◌∷◌, Option, none, some, Bool, true, false, not, ltb, ◌==◌,
  if◌then◌else◌,
}
use jev_bush.Fault.{
  Fault, Result, ok, err, ◌>>=◌, out_of_bounds, accelerator_out_of_memory,
  out_of_page_locked_memory,
}
use jev_bush.Size.{size_mul}
use jev_bush.Arena.{Arena, Storage, arena_free}
use jev_bush.Workspace.{Workspace, no_workspace}
use jev_bush.Device.Layout.{kv_stage_offset, device_layout}

-- An address and how many bytes it has, as in `device` and `device_bytes`.
pub record Block : Type 0 where
  pub address : ℕ
  pub bytes : ℕ

abbrev pub no_block : Block
no_block = record { address = 0; bytes = 0 }

-- The fields of DGWorkspace for the accelerator; the accelerator itself, which stays the same for a
-- model, is no field.
pub record Owner : Type 0 where
  pub device : Block
  pub pinned : Block
  pub scratch : Block

-- The blocks that the accelerator has given out: on the device, and page-locked on the host.
pub record Live : Type 0 where
  pub on_device : List ℕ
  pub on_host : List ℕ

-- `free` of the accelerator: a block that it has not given out is a fault.
unfoldable pub give_back : ℕ → List ℕ → Result (List ℕ)
give_back a [] = err out_of_bounds
give_back a (p ∷ live) = if p == a then ok live else (give_back a live >>= λ rest. ok (p ∷ rest))

-- A block that is too small is given back and asked for again; `got` is what the allocator returns.
-- The Boolean tells whether the block is there.
unfoldable pub enlarge : ℕ → ℕ → Block → List ℕ → Result (Bool × Block × List ℕ)
unfolding give_back
enlarge want got b live =
    if ltb b.bytes want
    then (do
      left ← if b.address == 0 then ok live else give_back b.address live
      ok (
          if got == 0
          then (false, no_block, left)
          else (true, record { address = got; bytes = want }, got ∷ left)))
    else ok (true, b, live)

-- What a call leaves behind, also when it dies.
pub record Ended (V : Type 0) : Type 0 where
  pub owner : Owner
  pub live : Live
  pub result : Result V

-- The page-locked block of `dg_device_begin`, once its size is computed.
unfoldable pub begin_pinned : ℕ → Result ℕ → Owner → Live → Result (Ended ℕ)
unfolding enlarge
begin_pinned got (err fault) o l = ok (record { owner = o; live = l; result = err fault })
begin_pinned got (ok staged) o l = do
  v ← enlarge staged got o.pinned l.on_host
  ok (record {
    owner = record o { pinned = v.1 };
    live = record l { on_host = v.2 };
    result = if v.0 then ok o.device.address else err out_of_page_locked_memory;
  })

-- `dg_device_begin`, once the bytes of the layout are computed.
unfoldable pub begin_device : ℕ → ℕ → ℕ → Result ℕ → Owner → Live → Result (Ended ℕ)
unfolding enlarge begin_pinned size_mul kv_stage_offset
begin_device got_device got_host n (err fault) o l =
    ok (record { owner = o; live = l; result = err fault })
begin_device got_device got_host n (ok bytes) o l = do
  v ← enlarge bytes got_device o.device l.on_device
  let o' = record o { device = v.1 }
  let l' = record l { on_device = v.2 }
  if v.0
      then begin_pinned got_host (size_mul (kv_stage_offset n 30) 4) o' l'
      else ok (record { owner = o'; live = l'; result = err accelerator_out_of_memory })

-- The bytes of the layout, which do not depend on a base.
unfoldable pub layout_bytes : (ℕ → ℕ) → ℕ → ℕ → Result ℕ
unfolding device_layout
layout_bytes nvfp4_scratch n kv_rows = device_layout nvfp4_scratch 0 n kv_rows >>= λ v. ok v.1

-- `dg_device_begin` with an accelerator: the base of the device workspace.
unfoldable pub device_begin : (ℕ → ℕ) → ℕ → ℕ → ℕ → ℕ → Owner → Live → Result (Ended ℕ)
unfolding begin_device layout_bytes
device_begin nvfp4_scratch got_device got_host n kv_rows o l =
    begin_device got_device got_host n (layout_bytes nvfp4_scratch n kv_rows) o l

-- `dg_device_scratch`: the address, 0 where the device is out of memory.
unfoldable pub device_scratch : ℕ → ℕ → Owner → Live → Result (Ended ℕ)
unfolding enlarge
device_scratch got bytes o l = do
  v ← enlarge bytes got o.scratch l.on_device
  ok (record {
    owner = record o { scratch = v.1 };
    live = record l { on_device = v.2 };
    result = ok (if v.0 then v.1.address else 0);
  })

-- `if (workspace->device) workspace->accel->free(workspace->device);`, and so for the others.
unfoldable pub drop_block : Block → List ℕ → Result (List ℕ)
unfolding give_back
drop_block b live = if b.address == 0 then ok live else give_back b.address live

abbrev pub no_owner : Owner
no_owner = record { device = no_block; pinned = no_block; scratch = no_block }

module _ {S : Type 0} (storage : Storage S) where
  -- `if (workspace->arena.allocation) jb_arena_free(&workspace->arena);`, and so for the others.
  unfoldable pub drop_arena : S → Arena → S
  unfolding arena_free
  drop_arena s a = if a.allocation == 0 then s else (arena_free storage s a).0

  -- `dg_workspace_destroy`, whose fields are those of `Workspace` and of `Owner`.
  unfoldable pub destroy : S → Workspace → Owner → Live → Result (S × Workspace × Owner × Live)
  unfolding drop_arena drop_block
  destroy s w o l = do
    let t = drop_arena (drop_arena (drop_arena s w.arena) w.kv_arena) w.control_arena
    first ← drop_block o.device l.on_device
    host ← drop_block o.pinned l.on_host
    second ← drop_block o.scratch first
    ok (t, no_workspace, no_owner, record { on_device = second; on_host = host })
