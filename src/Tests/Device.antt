-- ===== src/Tests/Device.antt =====
-- Device memory for four tokens, on an accelerator that grants what it is asked.
use jev_bush.Prelude.{none, ◌<◌, ℕ, ◌*◌, ◌≤◌, ◌≡◌, ◌⊎◌, refl, arith, [], ◌∷◌}
use jev_bush.Fault.{ok, err, accelerator_out_of_memory}
use jev_bush.Fault.Clean.{Clean}
use jev_bush.Workspace.{Workspace, no_workspace}
use jev_bush.Tests.Arena.{Bump, bump, taken}
use jev_bush.Device.Layout.{requests_of, device_layout}
use jev_bush.Device.Blocks.{Laid, device_layout-Clean}
use jev_bush.Device.Owned.{
  no_block, Owner, Live, layout_bytes, device_begin, device_scratch, destroy, no_owner,
}
use jev_bush.Device.Owned.Destroy.{destroy-no_block, IsArenas}
use jev_bush.Device.Owned.Ledger.{
  Owned, Based, Keeps, Gives, device_begin-Keeps, device_scratch-Gives,
}

abbrev row_bytes : ℕ → ℕ
row_bytes rows = rows * 64

layout_runs : layout_bytes row_bytes 4 16 ≡ ok 3946496
unfolding layout_bytes
layout_runs = refl

device_layout-Clean_example :
    Clean
      (λ v. (0 ≤ v.1) × Laid 4096 0 (requests_of row_bytes 4 16) v.0 v.1)
      (device_layout row_bytes 4096 4 16)
device_layout-Clean_example = device_layout-Clean row_bytes 4096 4 16

abbrev small_owner : Owner
small_owner = record {
  device = record { address = 4096; bytes = 512 };
  pinned = no_block;
  scratch = record { address = 8192; bytes = 64 };
}

abbrev two_blocks : Live
two_blocks = record { on_device = 8192 ∷ 4096 ∷ []; on_host = [] }

two_blocks-Owned : Owned small_owner two_blocks
two_blocks-Owned = record {
  on_device = λ a. ground arith;
  on_host = λ a. refl;
  device = λ e. absurd (omega (arith, e));
  pinned = λ e. refl;
  scratch = λ e. absurd (omega (arith, e));
}

begin_refused :
    device_begin row_bytes 0 0 4 16 small_owner two_blocks
    ≡ ok (record {
      owner = record small_owner { device = no_block };
      live = record two_blocks { on_device = 8192 ∷ [] };
      result = err accelerator_out_of_memory;
    })
unfolding device_begin
begin_refused = refl

device_begin-Keeps_example :
    Keeps
      (Based (layout_bytes row_bytes 4 16))
      (device_begin row_bytes 65536 131072 4 16 small_owner two_blocks)
device_begin-Keeps_example =
    device_begin-Keeps row_bytes 65536 131072 4 16 small_owner two_blocks two_blocks-Owned

device_scratch-Gives_example :
    Gives
      (λ o' address. (address ≡ 0) ⊎ ((address ≡ o'.scratch.address) × (100 ≤ o'.scratch.bytes)))
      (device_scratch 65536 100 small_owner two_blocks)
device_scratch-Gives_example =
    device_scratch-Gives 65536 100 small_owner two_blocks two_blocks-Owned

-- One arena has a block of 563 bytes.
abbrev one_arena : Workspace
one_arena = record no_workspace {
  arena = record { allocation = 100; base = 128; size = 500; used = 0; peak = 0 };
  capacity = 500;
}

destroy-no_block_example :
    (t : Bump) × (destroy bump (taken 563) one_arena small_owner two_blocks
      ≡ ok (t, no_workspace, no_owner, record { on_device = []; on_host = [] }))
    × ((q : ℕ) → IsArenas bump one_arena q → bump.live t q ≡ none)
    × ((q : ℕ) → ¬ IsArenas bump one_arena q → 0 < q → bump.live t q ≡ bump.live (taken 563) q)
destroy-no_block_example =
    destroy-no_block bump (taken 563) one_arena small_owner two_blocks two_blocks-Owned
