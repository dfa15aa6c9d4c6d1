-- ===== src/Device/Layout.antt =====
-- `dg_kv_stage_offset` and `dg_device_layout`. `nvfp4_scratch` of the accelerator is a parameter.
use jev_bush.Prelude.{ℕ, zero, suc, ◌+◌, ◌*◌, ◌%◌, ◌^◌, List, [], ◌∷◌, ltb, ◌==◌, if◌then◌else◌}
use jev_bush.Fault.{Result, ok, ◌>>=◌}
use jev_bush.Size.{size_add, size_mul, align_up}
use jev_bush.Workspace.{kv_width}

-- The fields of DGDeviceLayout that hold addresses.
pub data Field : Type 0 where
  x res z q k v a g u d z2 rin route qz2 : Field
  weight index slot flag gather eg eh eqh eo scratch rope seg_old : Field
  seg_base kv_k kv_v kt top tiles ntiles kv_out : Field

-- The sum over the first `left` layers, from layer `from` on.
unfoldable pub stage_sum : ℕ → ℕ → ℕ → ℕ → ℕ
unfolding kv_width
stage_sum zero from n sum = sum
stage_sum (suc left) from n sum =
    stage_sum left (from + 1) n ((sum + n * kv_width from % 2 ^ 64 * 2) % 2 ^ 64)

unfoldable pub kv_stage_offset : ℕ → ℕ → ℕ
unfolding stage_sum
kv_stage_offset n layer = stage_sum layer 0 n 0

-- DG_HEADS * DG_FULL_HEAD_DIM.
abbrev pub query_width : ℕ
query_width = 16 * 512

-- The wider of DG_LOCAL_KV_HEADS * DG_LOCAL_HEAD_DIM and DG_FULL_KV_HEADS * DG_FULL_HEAD_DIM.
abbrev pub key_width : ℕ
key_width = if ltb (2 * 512) (8 * 256) then 8 * 256 else 2 * 512

-- DG_CARVE for one field after the other: their addresses, and the bytes of them all.
unfoldable pub carve : ℕ → ℕ → List (Field × Result ℕ) → Result (List (Field × ℕ) × ℕ)
unfolding align_up size_add
carve base used [] = ok ([], used)
carve base used ((field, size) ∷ requests) = do
  place ← align_up used 256
  bytes ← size
  end ← size_add place bytes
  (fields, all) ← carve base end requests
  ok ((field, (if base == 0 then 0 else (base + place) % 2 ^ 64)) ∷ fields, all)

-- The fields in the order in which they are carved, with their sizes.
unfoldable pub requests_of : (ℕ → ℕ) → ℕ → ℕ → List (Field × Result ℕ)
unfolding size_mul kv_stage_offset
requests_of nvfp4_scratch n kv_rows =
    let total = n * 8 % 2 ^ 64 in
    (x, size_mul n (2816 * 4))
    ∷ (res, size_mul n (2816 * 4))
    ∷ (z, size_mul n (2816 * 4))
    ∷ (q, size_mul n (query_width * 4))
    ∷ (k, size_mul n (key_width * 4))
    ∷ (v, size_mul n (key_width * 4))
    ∷ (a, size_mul n (query_width * 4))
    ∷ (g, size_mul n (2112 * 4))
    ∷ (u, size_mul n (2112 * 4))
    ∷ (d, size_mul n (2816 * 4))
    ∷ (z2, size_mul n (2816 * 4))
    ∷ (rin, size_mul n (2816 * 4))
    ∷ (route, size_mul n (128 * 4))
    ∷ (qz2, size_mul n (2816 * 4))
    ∷ (weight, size_mul total 4)
    ∷ (index, size_mul total 4)
    ∷ (slot, size_mul total 4)
    ∷ (flag, ok 4)
    ∷ (gather, size_mul total (2816 * 4))
    ∷ (eg, size_mul total (704 * 4))
    ∷ (eh, size_mul total (704 * 4))
    ∷ (eqh, size_mul total (704 * 4))
    ∷ (eo, size_mul total (2816 * 4))
    ∷ (scratch, ok (nvfp4_scratch total))
    ∷ (rope, size_mul n (512 * 4))
    ∷ (seg_old, size_mul n 4)
    ∷ (seg_base, size_mul n 4)
    ∷ (kv_k, size_mul kv_rows (key_width * 4))
    ∷ (kv_v, size_mul kv_rows (key_width * 4))
    ∷ (kt, size_mul ((n + kv_rows) % 2 ^ 64) (key_width * 4))
    ∷ (top, size_mul total 4)
    ∷ (tiles, ok (nvfp4_scratch total))
    ∷ (ntiles, ok 4)
    ∷ (kv_out, size_mul (kv_stage_offset n 30) 4)
    ∷ []

-- The addresses of the fields, and the bytes of the device workspace.
unfoldable pub device_layout : (ℕ → ℕ) → ℕ → ℕ → ℕ → Result (List (Field × ℕ) × ℕ)
unfolding carve requests_of
device_layout nvfp4_scratch base n kv_rows = carve base 0 (requests_of nvfp4_scratch n kv_rows)
