-- ===== src/Device/Blocks.antt =====
-- The fields of a device layout lie one behind the other.
use jev_bush.Prelude.{
  ℕ, ◌+◌, ◌-◌, ◌*◌, ◌%◌, ◌^◌, ◌<◌, ◌≤◌, ◌≡◌, inl, inr, refl, sym, subst, arith, List, [], ◌∷◌, ltb,
  ◌==◌, if◌then◌else◌, Bool-cases, All,
}
use jev_bush.Fault.{Result, ok}
use jev_bush.Fault.Clean.{Clean, Clean->>=, Clean-then}
use jev_bush.Size.{size_add, size_mul, size_mul_lem, align_up}
use jev_bush.Size.Align.{align_up_lem}
use jev_bush.Json.Keys.Clean.{size_add-Clean}
use jev_bush.Device.Layout.{
  query_width, key_width, kv_stage_offset, Field, carve, requests_of, device_layout,
}

-- From byte `used` on, each field begins at a multiple of 256, behind the one before, with the
-- bytes asked for; all end at byte `all`. The address is the place behind the base, or 0.
abbrev pub Laid : ℕ → ℕ → List (Field × Result ℕ) → List (Field × ℕ) → ℕ → Type 0
Laid base used [] [] all = used ≡ all
Laid base used [] (f ∷ fields) all = ⊥
Laid base used (r ∷ requests) [] all = ⊥
Laid base used (r ∷ requests) (f ∷ fields) all =
    (place : ℕ) × (bytes : ℕ) × (f.0 ≡ r.0)
    × (r.1 ≡ ok bytes)
    × (used ≤ place)
    × (place % 256 ≡ 0)
    × (place + bytes ≤ all)
    × (f.1 ≡ (if base == 0 then 0 else (base + place) % 2 ^ 64))
    × Laid base (place + bytes) requests fields all

align_up-Clean :
    (n : ℕ) → n < 2 ^ 64 → Clean (λ r. (n ≤ r) × (r % 256 ≡ 0) × (r < 2 ^ 64)) (align_up n 256)
align_up-Clean n small =
    let P = λ (r : ℕ). (n ≤ r) × (r % 256 ≡ 0) × (r < 2 ^ 64) in
    subst (Clean P) (sym (align_up_lem 8 56 n refl small))
      (elim (Bool-cases (ltb (n + (2 ^ 8 - 1)) (2 ^ 64))) [
        | inl fits ↦ rw fits (omega arith, omega arith, ground arith)
        | inr large ↦ rw large refl
      ])

carve-Clean :
    (base used : ℕ) (requests : List (Field × Result ℕ))
    → All (λ r. Clean (λ _. Unit {0}) r.1) requests
    → used < 2 ^ 64
    → Clean (λ v. (used ≤ v.1) × Laid base used requests v.0 v.1) (carve base used requests)
unfolding carve
carve-Clean base used [] sized small = (omega arith, refl)
carve-Clean base used ((field, size) ∷ requests) sized small =
    let P = λ (v : List (Field × ℕ) × ℕ).
      (used ≤ v.1) × Laid base used ((field, size) ∷ requests) v.0 v.1 in
    Clean->>= (λ r. (used ≤ r) × (r % 256 ≡ 0) × (r < 2 ^ 64)) P (align_up used 256) _
      (align_up-Clean used small)
      λ place aligned.
        Clean-then (λ _. Unit {0}) P size _ sized.0
          λ bytes is _.
            Clean->>= (λ c. (c ≡ place + bytes) × (c < 2 ^ 64)) P (size_add place bytes) _
              (size_add-Clean place bytes aligned.2)
              λ end is_end.
                Clean->>= (λ v. (end ≤ v.1) × Laid base end requests v.0 v.1) P
                  (carve base end requests) _ (carve-Clean base end requests sized.1 is_end.1)
                  λ v laid. (
                    omega (arith, aligned.0, is_end.0, laid.0),
                    (
                      place,
                      bytes,
                      refl,
                      is,
                      aligned.0,
                      aligned.1,
                      omega (arith, is_end.0, laid.0),
                      refl,
                      subst (λ e. Laid base e requests v.0 v.1) is_end.0 laid.1,
                    ),
                  )

size_mul-Clean : (m n : ℕ) → Clean (λ _. Unit {0}) (size_mul m n)
size_mul-Clean m n =
    subst (Clean (λ _. Unit {0})) (sym (size_mul_lem m n))
      (elim (Bool-cases (ltb (m * n) (2 ^ 64))) [
        | inl fits ↦ rw fits tt
        | inr large ↦ rw large refl
      ])

requests_sized :
    (nvfp4_scratch : ℕ → ℕ) (n kv_rows : ℕ)
    → All (λ r. Clean (λ _. Unit {0}) r.1) (requests_of nvfp4_scratch n kv_rows)
unfolding requests_of
requests_sized nvfp4_scratch n kv_rows = (
  size_mul-Clean n (2816 * 4),
  (
    size_mul-Clean n (2816 * 4),
    (
      size_mul-Clean n (2816 * 4),
      (
        size_mul-Clean n (query_width * 4),
        (
          size_mul-Clean n (key_width * 4),
          (
            size_mul-Clean n (key_width * 4),
            (
              size_mul-Clean n (query_width * 4),
              (
                size_mul-Clean n (2112 * 4),
                (
                  size_mul-Clean n (2112 * 4),
                  (
                    size_mul-Clean n (2816 * 4),
                    (
                      size_mul-Clean n (2816 * 4),
                      (
                        size_mul-Clean n (2816 * 4),
                        (
                          size_mul-Clean n (128 * 4),
                          (
                            size_mul-Clean n (2816 * 4),
                            (
                              size_mul-Clean (n * 8 % 2 ^ 64) 4,
                              (
                                size_mul-Clean (n * 8 % 2 ^ 64) 4,
                                (
                                  size_mul-Clean (n * 8 % 2 ^ 64) 4,
                                  (
                                    tt,
                                    (
                                      size_mul-Clean (n * 8 % 2 ^ 64) (2816 * 4),
                                      (
                                        size_mul-Clean (n * 8 % 2 ^ 64) (704 * 4),
                                        (
                                          size_mul-Clean (n * 8 % 2 ^ 64) (704 * 4),
                                          (
                                            size_mul-Clean (n * 8 % 2 ^ 64) (704 * 4),
                                            (
                                              size_mul-Clean (n * 8 % 2 ^ 64) (2816 * 4),
                                              (
                                                tt,
                                                (
                                                  size_mul-Clean n (512 * 4),
                                                  (
                                                    size_mul-Clean n 4,
                                                    (
                                                      size_mul-Clean n 4,
                                                      (
                                                        size_mul-Clean kv_rows (key_width * 4),
                                                        (
                                                          size_mul-Clean kv_rows (key_width * 4),
                                                          (
                                                            size_mul-Clean ((n + kv_rows) % 2 ^ 64)
                                                            (key_width * 4),
                                                            (
                                                            size_mul-Clean (n * 8 % 2 ^ 64) 4,
                                                            (
                                                            tt,
                                                            (
                                                            tt,
                                                            (
                                                            size_mul-Clean (kv_stage_offset n 30) 4,
                                                            tt,
                                                            ),
                                                            ),
                                                            ),
                                                            ),
                                                          ),
                                                        ),
                                                      ),
                                                    ),
                                                  ),
                                                ),
                                              ),
                                            ),
                                          ),
                                        ),
                                      ),
                                    ),
                                  ),
                                ),
                              ),
                            ),
                          ),
                        ),
                      ),
                    ),
                  ),
                ),
              ),
            ),
          ),
        ),
      ),
    ),
  ),
)

-- Laying out the device workspace dies with one of the messages, or gives each field its bytes:
-- in their order they begin at multiples of 256, each behind the one before, and all lie inside
-- the bytes that the workspace is to have; the address of each is that place behind the base.
pub device_layout-Clean :
    (nvfp4_scratch : ℕ → ℕ) (base n kv_rows : ℕ)
    → Clean
        (λ v. (0 ≤ v.1) × Laid base 0 (requests_of nvfp4_scratch n kv_rows) v.0 v.1)
        (device_layout nvfp4_scratch base n kv_rows)
unfolding device_layout
device_layout-Clean nvfp4_scratch base n kv_rows =
    carve-Clean base 0 (requests_of nvfp4_scratch n kv_rows)
      (requests_sized nvfp4_scratch n kv_rows) (omega arith)
