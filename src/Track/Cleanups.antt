-- ===== src/Track/Cleanups.antt =====
-- Arming and disarming a cleanup.
use jev_bush.Prelude.{
  ℕ, suc, ◌+◌, ◌-◌, ◌≤◌, ◌<◌, ◌≡◌, ◌≢◌, ◌⊎◌, refl, ◌∙◌, arith, List, ◌∷◌, some, true, false, not,
  ◌||◌, ltb, leb, ◌==◌, length, if◌then◌else◌,
}
use jev_bush.Fault.{ok, err, cleanup_out_of_order}
use jev_bush.Track.{internal, Frame, Cleanup, Thread, die_status}
use jev_bush.Track.Frames.{cleanup_push, cleanup_disarm, disarm_last}

push_runs :
    (t : Thread) (f : Frame) (outer : List Frame) (function context : ℕ)
    → t.frames ≡ f ∷ outer
    → f.cleanup_mark ≤ length t.cleanups
    → length t.cleanups < f.cleanup_mark + 16
    → length t.cleanups < 64
    → cleanup_push (some f.address) (some function) context t ≡ (
      ok tt,
      record t { cleanups = record { function = function; context = context } ∷ t.cleanups },
    )
unfolding cleanup_push
push_runs t f outer function context innermost above few room =
    let a : (f.address == f.address) ≡ true = ground arith in
    let b : ltb (length t.cleanups) f.cleanup_mark ≡ false = ground arith in
    let c : leb 16 (length t.cleanups - f.cleanup_mark) ≡ false = ground arith in
    let d : leb 64 (length t.cleanups) ≡ false = ground arith in rw (innermost, a, b, c, d) refl

disarm_meets :
    (t : Thread) (f : Frame) (outer : List Frame) (function context : ℕ) (c : Cleanup)
    (cs : List Cleanup)
    → t.frames ≡ f ∷ outer
    → t.cleanups ≡ c ∷ cs
    → f.cleanup_mark ≤ length cs
    → cleanup_disarm (some f.address) function context t ≡ (
        if not (c.function == function) || not (c.context == context)
        then (err cleanup_out_of_order, record t { status = internal })
        else (ok tt, record t { cleanups = cs }))
unfolding cleanup_disarm disarm_last die_status
disarm_meets t f outer function context c cs innermost armed above =
    let a : (f.address == f.address) ≡ true = ground arith in
    let b : (suc (length cs) == f.cleanup_mark) ≡ false = ground arith in
    rw (armed, innermost, a, b) refl

-- In the innermost frame, while it has armed fewer than sixteen cleanups and all frames together
-- fewer than sixty-four: arming a cleanup succeeds; disarming the same one next gives back the
-- thread from before, and an attempt to disarm another one dies as an internal error without
-- disarming any.
pub cleanup_disarm-cleanup_push :
    (t : Thread) (f : Frame) (outer : List Frame) (function context function' context' : ℕ)
    → t.frames ≡ f ∷ outer
    → f.cleanup_mark ≤ length t.cleanups
    → length t.cleanups < f.cleanup_mark + 16
    → length t.cleanups < 64
    → (function ≢ function') ⊎ (context ≢ context')
    → (u : Thread) × (cleanup_push (some f.address) (some function) context t ≡ (ok tt, u))
      × (cleanup_disarm (some f.address) function context u ≡ (ok tt, t))
      × (cleanup_disarm (some f.address) function' context' u
          ≡ (err cleanup_out_of_order, record u { status = internal }))
cleanup_disarm-cleanup_push t f outer function context function' context' innermost above few room
      other =
    let c : Cleanup = record { function = function; context = context } in
    let u = record t { cleanups = c ∷ t.cleanups } in
    let same : (not (function == function) || not (context == context)) ≡ false = ground arith in
    let differs : (not (function == function') || not (context == context')) ≡ true =
      ground (arith, other) in
    (
      u,
      push_runs t f outer function context innermost above few room,
      disarm_meets u f outer function context c t.cleanups innermost refl above ∙ rw same refl,
      disarm_meets u f outer function' context' c t.cleanups innermost refl above ∙ rw differs refl,
    )
