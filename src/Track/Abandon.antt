-- ===== src/Track/Abandon.antt =====
-- A failed call releases what it allocated since its frame was entered, and nothing else.
use mathlib.Core.Option
use mathlib.Core.Option.{some-injective}
use jev_bush.Prelude.{
  ℕ, suc, ◌≤◌, ◌≡◌, refl, ap, ◌∙◌, arith, List, [], ◌∷◌, ◌++◌, Option, none, true, ltb, length,
  if◌then◌else◌, lt→ltb, length-append,
}
use jev_bush.Fault.{Result, ok}
use jev_bush.Track.{Nodes, Frame, Cleanup, Thread, ◌>>=◌, get}
use jev_bush.Track.Links.{Chain, summary}
use jev_bush.Track.Unlink.{>>=-runs}
use jev_bush.Track.Frames.{abandon_loop, run_down, cleanup_run, frame_leave, frame_abandon}
use jev_bush.Track.Sweep.{
  Chain-head_of, sequence_at, kept, is_since, number_itself, abandon_loop-Swept,
}

-- The items in the order in which a stack gives them up, on top of a log.
abbrev pub reverse_onto : List Cleanup → List Cleanup → List Cleanup
reverse_onto [] ran = ran
reverse_onto (c ∷ cs) ran = reverse_onto cs (c ∷ ran)

run_down_mark :
    (mark : ℕ) (young old ran : List Cleanup)
    → length old ≡ mark
    → run_down mark (young ++ old) ran ≡ (old, reverse_onto young ran)
unfolding run_down
run_down_mark mark [] [] ran e = refl
run_down_mark mark [] (c ∷ old) ran e = ground arith
run_down_mark mark (c ∷ young) old ran e =
    let above : ltb mark (suc (length (young ++ old))) ≡ true =
      lt→ltb _ _ (omega (arith, length-append young old)) in
    rw above (run_down_mark mark young old (c ∷ ran) e)

cleanup_run_mark :
    (t : Thread) (f : Frame) (young old : List Cleanup)
    → t.cleanups ≡ young ++ old
    → length old ≡ f.cleanup_mark
    → cleanup_run f t ≡ (ok tt, record t { cleanups = old; ran = reverse_onto young t.ran })
unfolding cleanup_run
cleanup_run_mark t f young old armed mark =
    let stops = run_down_mark f.cleanup_mark young old t.ran mark in
    ap
      (λ (r : List Cleanup × List Cleanup).
        let u : Result (Unit {0}) × Thread = (ok tt, record t { cleanups = r.0; ran = r.1 }) in u)
      (ap (λ cs. run_down f.cleanup_mark cs t.ran) armed ∙ stops)

abandon_steps :
    (t t₁ t₂ : Thread) (fuel : ℕ) (f : Frame) (outer : List Frame) (r : Result (Unit {0}) × Thread)
    → cleanup_run f t ≡ (ok tt, t₁)
    → abandon_loop fuel f.mark t₁.head t₁ ≡ (ok tt, t₂)
    → frame_leave fuel f outer t₂ ≡ r
    → frame_abandon fuel f outer t ≡ r
unfolding frame_abandon
abandon_steps t t₁ t₂ fuel f outer r e₁ e₂ e₃ =
    let leave = λ (_ : Unit {0}). frame_leave fuel f outer in
    let sweep = λ (u : Thread). abandon_loop fuel f.mark u.head >>= leave in
    >>=-runs (cleanup_run f) (λ _. get >>= sweep) t t₁ tt r e₁
      (>>=-runs (abandon_loop fuel f.mark t₁.head) leave t₁ t₂ tt r e₂ e₃)

leave_inner :
    (t : Thread) (fuel : ℕ) (f g : Frame) (outer : List Frame)
    → length t.cleanups ≡ f.cleanup_mark
    → frame_leave fuel f (g ∷ outer) t
      ≡ (ok tt, record t { frames = g ∷ outer; status = f.previous_status })
unfolding frame_leave
leave_inner t fuel f g outer e = ground arith

-- When a call fails inside an outer one, `jb_frame_abandon` ends, whatever the order of the tracked
-- list: it runs the cleanups armed since the frame was entered, the last first, and leaves the
-- others armed; it releases exactly the allocations of the list whose sequence number is past the
-- frame's mark, keeps the others tracked and linked in their order with their size and number, and
-- makes the outer frame and the status from before current.
pub frame_abandon-kept :
    (t : Thread) (fuel : ℕ) (f g : Frame) (outer : List Frame) (xs : List ℕ)
    (young old : List Cleanup)
    → length xs ≤ fuel
    → Chain t.nodes none t.head xs
    → t.cleanups ≡ young ++ old
    → length old ≡ f.cleanup_mark
    → (nodes : Nodes) × (head : Option ℕ) × (frame_abandon fuel f (g ∷ outer) t ≡ (
      ok tt,
      record t {
        nodes = nodes;
        head = head;
        status = f.previous_status;
        frames = g ∷ outer;
        cleanups = old;
        ran = reverse_onto young t.ran;
      },
    ))
      × Chain nodes none head (kept (sequence_at t.nodes) f.mark xs)
      × ((x : ℕ)
          → Option.map summary (nodes x) ≡ (
              if is_since (sequence_at t.nodes) f.mark xs x
              then none
              else Option.map summary (t.nodes x)))
frame_abandon-kept t fuel f g outer xs young old enough c armed mark =
    let cleaned = record t { cleanups = old; ran = reverse_onto young t.ran } in
    let (nodes, head, runs, linked, sums) =
      abandon_loop-Swept (sequence_at t.nodes) f.mark xs [] fuel cleaned enough
        (number_itself t.nodes xs) c in
    let first = Chain-head_of t.nodes xs none t.head c in
    (
      nodes,
      head,
      abandon_steps t cleaned (record cleaned { nodes = nodes; head = head }) fuel f (g ∷ outer) _
          (cleanup_run_mark t f young old armed mark)
          (ap (λ h. abandon_loop fuel f.mark h cleaned) first ∙ runs)
          (leave_inner (record cleaned { nodes = nodes; head = head }) fuel f g outer mark),
      linked,
      sums,
    )
