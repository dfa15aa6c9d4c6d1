-- ===== src/References.antt =====
-- src/api.inc: the reference count of a model, `jb_model_retain` and `jb_model_release`, as the
-- atomic operations that the calls of several threads interleave.
pub mod Count
use jev_bush.Prelude.{
  ℕ, zero, suc, ◌+◌, ◌-◌, ◌%◌, ◌^◌, ◌<◌, ◌≤◌, ◌≡◌, List, [], ◌∷◌, ◌++◌, Option, none, some, Bool,
  true, false, not, ◌&&◌, ◌||◌, ◌==◌, if◌then◌else◌,
}

-- `destroyed` counts how often the model was taken apart.
pub record Model : Type 0 where
  pub references : ℕ
  pub destroyed : ℕ

-- Where a thread stands: outside, in the loop of `jb_model_retain` with the count it has read, or
-- between the test and the subtraction of `jb_model_release`.
pub data Phase : Type 0 where
  idle : Phase
  retaining : ℕ → Phase
  releasing : Phase

-- A thread, with the number of references it owns.
pub record Owner : Type 0 where
  pub held : ℕ
  pub phase : Phase

abbrev pub uint_max : ℕ
uint_max = 2 ^ 32 - 1

-- The allocation of `jb_model_load`, owned by its caller.
unfoldable pub model_init : Model
model_init = record { references = 1; destroyed = 0 }

-- The first load of `jb_model_retain`.
unfoldable pub retain_load : Model → Owner → Owner
retain_load m h = record h { phase = retaining m.references }

-- One test of the loop: `fails` is a weak exchange that fails without reason.
unfoldable pub retain_exchange : Bool → ℕ → Model → Owner → Model × Owner
retain_exchange fails v m h =
    if v == uint_max
    then (m, record { held = h.held + 1; phase = idle })
    else if not fails && m.references == v
    then (record m { references = v + 1 }, record { held = h.held + 1; phase = idle })
    else (m, record h { phase = retaining m.references })

-- The load of `jb_model_release`.
unfoldable pub release_load : Model → Owner → Owner
release_load m h =
    if m.references == uint_max
    then record { held = h.held - 1; phase = idle }
    else record h { phase = releasing }

-- The subtraction of `jb_model_release`, and what follows it where this was the last reference.
unfoldable pub release_subtract : Model → Owner → Model × Owner
release_subtract m h =
    let left = (m.references + uint_max) % 2 ^ 32 in
    (
      record {
        references = left;
        destroyed = if m.references == 1 then m.destroyed + 1 else m.destroyed;
      },
      record { held = h.held - 1; phase = idle },
    )

pub data Action : Type 0 where
  start_retain start_release subtract : Action
  exchange : Bool → Action

-- An action that the thread is ready for.
unfoldable pub act : Action → Phase → Model → Owner → Option (Model × Owner)
unfolding retain_load retain_exchange release_load release_subtract
act start_retain idle m h = some (m, retain_load m h)
act start_retain (retaining v) m h = none
act start_retain releasing m h = none
act start_release idle m h = some (m, release_load m h)
act start_release (retaining v) m h = none
act start_release releasing m h = none
act subtract idle m h = none
act subtract (retaining v) m h = none
act subtract releasing m h = some (release_subtract m h)
act (exchange fails) idle m h = none
act (exchange fails) (retaining v) m h = some (retain_exchange fails v m h)
act (exchange fails) releasing m h = none

abbrev pub total : List Owner → ℕ
total [] = 0
total (h ∷ hs) = h.held + total hs

abbrev pub phases : List Owner → List Phase
phases [] = []
phases (h ∷ hs) = h.phase ∷ phases hs

abbrev pub idle_owners : ℕ → List Owner
idle_owners zero = []
idle_owners (suc n) = record { held = 0; phase = idle } ∷ idle_owners n

-- A loaded model with `n` threads beside its caller's; a step of one thread that owns a reference,
-- while fewer than UINT_MAX are owned; references that change owners.
pub data Reach (n : ℕ) : Model → List Owner → Type 0 where
  loads : Reach n model_init (record { held = 1; phase = idle } ∷ idle_owners n)
  runs :
      (a : Action) (ys zs : List Owner) (h h' : Owner) (m m' : Model)
      → Reach n m (ys ++ h ∷ zs)
      → 0 < h.held
      → total (ys ++ h ∷ zs) < uint_max
      → act a h.phase m h ≡ some (m', h')
      → Reach n m' (ys ++ h' ∷ zs)
  passes :
      (m : Model) (hs hs' : List Owner)
      → Reach n m hs
      → total hs ≡ total hs'
      → phases hs ≡ phases hs'
      → Reach n m hs'
