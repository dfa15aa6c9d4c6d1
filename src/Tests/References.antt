-- ===== src/Tests/References.antt =====
-- A retain that needs a second exchange, and a release.
use jev_bush.Prelude.{ℕ, ◌≡◌, refl, arith, List, [], ◌∷◌, true, false, ◌==◌, if◌then◌else◌}
use jev_bush.References.{
  Model, model_init, Phase, idle, retaining, releasing, Owner, start_retain, start_release,
  subtract, exchange, act, total, Reach, loads, runs,
}
use jev_bush.References.Count.{references-Reach}

abbrev counted : ℕ → Model
counted n = record { references = n; destroyed = 0 }

abbrev owner : ℕ → Phase → List Owner
owner n p = record { held = n; phase = p } ∷ record { held = 0; phase = idle } ∷ []

started : Reach 1 (counted 1) (owner 1 idle)
started = unfold model_init in loads

read : Reach 1 (counted 1) (owner 1 (retaining 1))
unfolding act
read = runs start_retain [] _ _ _ _ _ started (omega arith) (omega arith) refl

missed : Reach 1 (counted 1) (owner 1 (retaining 1))
unfolding act
missed = runs (exchange true) [] _ _ _ _ _ read (omega arith) (omega arith) refl

retained : Reach 1 (counted 2) (owner 2 idle)
unfolding act
retained = runs (exchange false) [] _ _ _ _ _ missed (omega arith) (omega arith) refl

tested : Reach 1 (counted 2) (owner 2 releasing)
unfolding act
tested = runs start_release [] _ _ _ _ _ retained (omega arith) (omega arith) refl

released : Reach 1 (counted 1) (owner 1 idle)
unfolding act
released = runs subtract [] _ _ _ _ _ tested (omega arith) (omega arith) refl

references-Reach_example :
    ((counted 1).references ≡ total (owner 1 idle))
    × ((counted 1).destroyed ≡ (if total (owner 1 idle) == 0 then 1 else 0))
references-Reach_example = references-Reach released
