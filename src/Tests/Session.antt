-- ===== src/Tests/Session.antt =====
-- A call whose inference fails in the middle, and calls after it; two threads on one session.
use jev_bush.Prelude.{ℕ, ◌≡◌, refl, [], ◌∷◌, none, some, true, false, if◌then◌else◌}
use jev_bush.Track.{request_error}
use jev_bush.Session.{inference, rejected, Session, Work, Request, json, session_acquire, decide}
use jev_bush.Session.Calls.{
  Settled, work_of, decide-Settled, unusable_for, error_after, decide_all, decide_all-poisoned,
}
use jev_bush.Session.Exclusion.{
  outside, refused, inside, inside_count, Reach, creates, enters, inside_count-Reach,
}

abbrev idle : Session
idle = record {
  busy = false;
  poisoned = false;
  active = false;
  kv_active = false;
  control_active = false;
  has_questions = true;
  error = none;
}

abbrev breaks : Work ℕ
breaks s = (rejected request_error (inference 7), record s { kv_active = true })

abbrev request : Request ℕ
request = json breaks (record { has_text = true; text_length = 12; has_outputs = true })

abbrev broken : Session
broken = record idle { poisoned = true; error = some (inference 7) }

request_runs : decide request idle ≡ (rejected request_error (inference 7), broken)
unfolding decide
request_runs = refl

decide-Settled_example :
    Settled idle (work_of request (record idle { busy = true })).1 (decide request idle)
decide-Settled_example = decide-Settled request idle refl refl (refl, refl, refl)

decide_all-poisoned_example : decide_all (request ∷ request ∷ []) broken ≡ (
  unusable_for (request ∷ request ∷ []),
  record broken { error = error_after (request ∷ request ∷ []) broken.error; busy = false },
)
decide_all-poisoned_example = decide_all-poisoned (request ∷ request ∷ []) broken refl refl

two_threads : Reach ℕ 2 (record idle { busy = true }) (inside ∷ refused ∷ [])
unfolding session_acquire
two_threads =
    enters (record idle { busy = true }) (inside ∷ []) []
      (enters idle [] (outside ∷ []) (creates idle refl))

inside_count-Reach_example : inside_count (inside ∷ refused ∷ []) ≡ (if true then 1 else 0)
inside_count-Reach_example = inside_count-Reach two_threads
