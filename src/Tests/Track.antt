-- ===== src/Tests/Track.antt =====
-- A thread inside two frames, with three tracked allocations and two armed cleanups.
use mathlib.Core.Option
use jev_bush.Prelude.{
  ℕ, ◌%◌, ◌^◌, ◌≡◌, refl, arith, [], ◌∷◌, Option, none, some, true, ◌==◌, if◌then◌else◌, inl,
}
use jev_bush.Fault.{ok, err, cleanup_out_of_order}
use jev_bush.Track.{
  internal, request_error, model_error, Node, Nodes, Frame, Cleanup, Thread, unlink, try_allocate,
  release,
}
use jev_bush.Track.Links.{Chain, summary}
use jev_bush.Track.Unlink.{unlink-Chain}
use jev_bush.Track.Frames.{frame_abandon, frame_leave, cleanup_push, cleanup_disarm}
use jev_bush.Track.Sweep.{is_since, sequence_at}
use jev_bush.Track.Abandon.{frame_abandon-kept}
use jev_bush.Track.Leave.{Handed, frame_leave-Handed}
use jev_bush.Track.Cleanups.{cleanup_disarm-cleanup_push}
use jev_bush.Track.Release.{release-Chain}
use jev_bush.Track.Allocate.{try_allocate-Chain}

abbrev node : Option ℕ → Option ℕ → ℕ → ℕ → Node
node p n size number = record {
  previous = p;
  next = n;
  size = size;
  sequence = number;
  tracked = true;
}

abbrev three : Nodes
three q =
    if q == 300
    then some (node none (some 500) 8 3)
    else if q == 500
    then some (node (some 300) (some 100) 16 2)
    else if q == 100
    then some (node (some 500) none 32 1)
    else none

abbrev outer : Frame
outer = record { address = 1000; mark = 0; previous_status = model_error; cleanup_mark = 0 }

abbrev inner : Frame
inner = record { address = 2000; mark = 1; previous_status = request_error; cleanup_mark = 1 }

abbrev old_cleanup : Cleanup
old_cleanup = record { function = 7; context = 70 }

abbrev new_cleanup : Cleanup
new_cleanup = record { function = 8; context = 80 }

abbrev thread : Thread
thread = record {
  nodes = three;
  head = some 300;
  sequence = 3;
  status = request_error;
  frames = inner ∷ outer ∷ [];
  cleanups = new_cleanup ∷ old_cleanup ∷ [];
  ran = [];
}

thread-Chain : Chain three none (some 300) (300 ∷ 500 ∷ 100 ∷ [])
thread-Chain =
    let last : Chain three (some 500) (some 100) (100 ∷ []) =
      (refl, node (some 500) none 32 1, refl, refl, refl, tt, refl) in
    let rest : Chain three (some 300) (some 500) (500 ∷ 100 ∷ []) =
      (refl, node (some 300) (some 100) 16 2, refl, refl, refl, (omega arith, tt), last) in
    (refl, node none (some 500) 8 3, refl, refl, refl, (omega arith, (omega arith, tt)), rest)

unlink-Chain_example :
    (nodes : Nodes) × (head : Option ℕ) × (unlink 500 thread
      ≡ (ok tt, record thread { nodes = nodes; head = head }))
    × Chain nodes none head (300 ∷ 100 ∷ [])
    × ((x : ℕ) → Option.map summary (nodes x) ≡ Option.map summary (three x))
unlink-Chain_example = unlink-Chain thread (300 ∷ []) 500 (100 ∷ []) thread-Chain

frame_abandon-kept_example :
    (nodes : Nodes) × (head : Option ℕ) × (frame_abandon 3 inner (outer ∷ []) thread ≡ (
      ok tt,
      record thread {
        nodes = nodes;
        head = head;
        status = request_error;
        frames = outer ∷ [];
        cleanups = old_cleanup ∷ [];
        ran = new_cleanup ∷ [];
      },
    ))
    × Chain nodes none head (100 ∷ [])
    × ((x : ℕ)
        → Option.map summary (nodes x) ≡ (
            if is_since (sequence_at three) 1 (300 ∷ 500 ∷ 100 ∷ []) x
            then none
            else Option.map summary (three x)))
frame_abandon-kept_example =
    frame_abandon-kept thread 3 inner outer [] (300 ∷ 500 ∷ 100 ∷ []) (new_cleanup ∷ [])
      (old_cleanup ∷ []) (omega arith) thread-Chain refl refl

try_allocate-Chain_example :
    (nodes : Nodes) × (try_allocate (some 900) 24 thread
      ≡ (ok (some 900), record thread { nodes = nodes; head = some 900; sequence = 4 % 2 ^ 64 }))
    × Chain nodes none (some 900) (900 ∷ 300 ∷ 500 ∷ 100 ∷ [])
    × ((x : ℕ)
        → Option.map summary (nodes x)
          ≡ (if 900 == x then some (24, 4 % 2 ^ 64, true) else Option.map summary (three x)))
try_allocate-Chain_example =
    try_allocate-Chain thread 900 24 (300 ∷ 500 ∷ 100 ∷ []) refl (omega arith) refl thread-Chain

abbrev alone : Thread
alone = record thread { frames = outer ∷ []; cleanups = [] }

frame_leave-Handed_example :
    (nodes : Nodes) × (frame_leave 3 outer [] alone
      ≡ (ok tt, record alone { nodes = nodes; head = none; status = model_error; frames = [] }))
    × Handed three (300 ∷ 500 ∷ 100 ∷ []) nodes
frame_leave-Handed_example =
    frame_leave-Handed alone 3 outer (300 ∷ 500 ∷ 100 ∷ []) (omega arith) thread-Chain refl

cleanup_disarm-cleanup_push_example :
    (u : Thread) × (cleanup_push (some 2000) (some 9) 90 thread ≡ (ok tt, u))
    × (cleanup_disarm (some 2000) 9 90 u ≡ (ok tt, thread))
    × (cleanup_disarm (some 2000) 8 80 u
        ≡ (err cleanup_out_of_order, record u { status = internal }))
cleanup_disarm-cleanup_push_example =
    cleanup_disarm-cleanup_push thread inner (outer ∷ []) 9 90 8 80 refl (omega arith) (omega arith)
      (omega arith) (inl (omega arith))

release-Chain_example :
    (nodes : Nodes) × (head : Option ℕ) × (release (some 300) thread
      ≡ (ok tt, record thread { nodes = nodes; head = head }))
    × Chain nodes none head (500 ∷ 100 ∷ [])
    × ((x : ℕ)
        → Option.map summary (nodes x) ≡ (if 300 == x then none else Option.map summary (three x)))
release-Chain_example = release-Chain thread [] 300 (500 ∷ 100 ∷ []) thread-Chain
