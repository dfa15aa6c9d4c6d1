-- ===== src/Track/Frames.antt =====
-- src/foundation.inc: error frames and cleanups over the tracked allocations.
use jev_bush.Prelude.{
  ℕ, zero, suc, ◌-◌, List, [], ◌∷◌, Option, none, some, Bool, false, not, ◌||◌, ltb, leb, ◌==◌,
  length, if◌then◌else◌,
}
use jev_bush.Fault.{
  ok, out_of_fuel, invalid_cleanup_registration, invalid_cleanup_removal, cleanup_out_of_order,
  armed_cleanup,
}
use jev_bush.Track.{
  Status, internal, Frame, Cleanup, M, ◌>>=◌, ◌>>◌, done, give, get, load, store, drop, set_head,
  unlink, has_frame, die, die_status,
}

-- `jb_frame_enter` on the frame at `address`.
unfoldable pub frame_enter : ℕ → Status → M (Unit {0})
frame_enter address s t =
    let f : Frame = record {
      address = address;
      mark = t.sequence;
      previous_status = t.status;
      cleanup_mark = length t.cleanups;
    } in
    (ok tt, record t { frames = f ∷ t.frames; status = s })

-- `frame && frame == jb_error_frame`.
abbrev is_current : Option ℕ → List Frame → Bool
is_current none fs = false
is_current (some a) [] = false
is_current (some a) (f ∷ fs) = a == f.address

abbrev current_mark : List Frame → ℕ
current_mark [] = 0
current_mark (f ∷ fs) = f.cleanup_mark

-- `function` is `none` for NULL.
unfoldable pub cleanup_push : Option ℕ → Option ℕ → ℕ → M (Unit {0})
unfolding die_status
cleanup_push frame none context t = die_status internal invalid_cleanup_registration t
cleanup_push frame (some function) context t =
    let count = length t.cleanups in
    let mark = current_mark t.frames in
    if not (is_current frame t.frames) || ltb count mark || leb 16 (count - mark) || leb 64 count
    then die_status internal invalid_cleanup_registration t
    else (
      ok tt,
      record t { cleanups = record { function = function; context = context } ∷ t.cleanups },
    )

unfoldable pub disarm_last : ℕ → ℕ → List Cleanup → M (Unit {0})
unfolding die_status
disarm_last function context [] t = die_status internal invalid_cleanup_removal t
disarm_last function context (c ∷ cs) t =
    if not (c.function == function) || not (c.context == context)
    then die_status internal cleanup_out_of_order t
    else (ok tt, record t { cleanups = cs })

unfoldable pub cleanup_disarm : Option ℕ → ℕ → ℕ → M (Unit {0})
unfolding disarm_last
cleanup_disarm frame function context t =
    if not (is_current frame t.frames) || length t.cleanups == current_mark t.frames
    then die_status internal invalid_cleanup_removal t
    else disarm_last function context t.cleanups t

-- The armed cleanups above the mark, run from the last; those that are left, and the log.
unfoldable pub run_down : ℕ → List Cleanup → List Cleanup → List Cleanup × List Cleanup
run_down mark [] ran = ([], ran)
run_down mark (c ∷ cs) ran =
    let rest = run_down mark cs (c ∷ ran) in
    if ltb mark (length (c ∷ cs)) then rest else (c ∷ cs, ran)

unfoldable pub cleanup_run : Frame → M (Unit {0})
unfolding run_down
cleanup_run f t =
    let r = run_down f.cleanup_mark t.cleanups t.ran in
    (ok tt, record t { cleanups = r.0; ran = r.1 })

-- The loop of `jb_frame_leave`: every tracked allocation goes to its owner.
unfoldable pub detach_all : ℕ → Option ℕ → M (Unit {0})
detach_all fuel none = done
detach_all zero (some p) = die out_of_fuel
detach_all (suc fuel) (some p) = do
  a ← load p
  set_head a.next
  store p (record a { tracked = false; previous = none; next = none })
  detach_all fuel a.next

-- `jb_frame_leave` of the innermost frame `f`, with the frames around it.
unfoldable pub frame_leave : ℕ → Frame → List Frame → M (Unit {0})
unfolding detach_all die_status
frame_leave fuel f outer t =
    if not (length t.cleanups == f.cleanup_mark)
    then die_status internal armed_cleanup t
    else (let left = record t { frames = outer; status = f.previous_status } in
        if has_frame outer then (ok tt, left) else detach_all fuel t.head left)

-- The loop of `jb_frame_abandon`, from the header at the pointer on.
unfoldable pub abandon_loop : ℕ → ℕ → Option ℕ → M (Unit {0})
abandon_loop fuel mark none = done
abandon_loop zero mark (some p) = die out_of_fuel
abandon_loop (suc fuel) mark (some p) = do
  a ← load p
  let rest = abandon_loop fuel mark a.next
  if ltb mark a.sequence then (do unlink p; drop p; rest) else rest

unfoldable pub frame_abandon : ℕ → Frame → List Frame → M (Unit {0})
unfolding cleanup_run frame_leave abandon_loop
frame_abandon fuel f outer = do
  cleanup_run f
  t ← get
  abandon_loop fuel f.mark t.head
  frame_leave fuel f outer

-- `jb_frame_fail`: the status that the failed call left.
unfoldable pub frame_fail : ℕ → Frame → List Frame → M Status
unfolding frame_abandon
frame_fail fuel f outer = do t ← get; frame_abandon fuel f outer; give t.status
