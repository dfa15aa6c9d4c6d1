-- ===== src/Tests/Random.antt =====
-- The generator seeded with 0.
use jev_bush.Prelude.{ℕ, ◌≡◌, refl, arith, replicate}
use jev_bush.Fault.{ok, ◌>>=◌}
use jev_bush.Random.{Mt, seed_state, next_u32}
use jev_bush.Random.Steady.{Next, next_u32-Next, seed_state-IsSteady, IsSteady}

first_word : (seed_state 0 >>= λ r. next_u32 r >>= λ v. ok v.0) ≡ ok 3626764237
unfolding seed_state next_u32
first_word = refl

abbrev flat : Mt
flat = record { mt = replicate 624 7; at = 624 }

next_u32-Next_example : (y : ℕ) × (s : Mt) × (next_u32 flat ≡ ok (y, s)) × Next flat y s
next_u32-Next_example = next_u32-Next flat (refl, omega arith)

seed_state-IsSteady_example : (r : Mt) × (seed_state 5489 ≡ ok r) × IsSteady r × (r.at ≡ 624)
seed_state-IsSteady_example = seed_state-IsSteady 5489
